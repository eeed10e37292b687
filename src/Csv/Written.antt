-- ===== src/Csv/Written.antt =====
-- Reading what RFC 4180 writes, with the reader of packages/importers/src/csv.ts.
use knowtion.Base.{
  ℕ, ◌≡◌, refl, ap, sym, ◌∙◌, true, false, List, [], ◌∷◌, ◌++◌, Text, append-nil, append_assoc,
  ◌==◌, list_eq, nat_eq, if◌then◌else◌, Bool-cases, inl, inr, nat_beq_iff, list_beq,
}
use knowtion.Csv.{
  plain, quoted, quote_seen, CsvState, fresh, end_field, last_record, plain_step, scan, parse_csv,
}

-- A field in quotes, with each quote in it doubled.
unfoldable pub doubled : Text → Text
doubled [] = []
doubled (c ∷ cs) = (if c == 34 then 34 ∷ 34 ∷ [] else c ∷ []) ++ doubled cs

-- A record has a field or more.
unfoldable pub write_record : Text → List Text → Text → Text
write_record field [] rest = 34 ∷ (doubled field ++ (34 ∷ 10 ∷ rest))
write_record field (next ∷ fields) rest =
    34 ∷ (doubled field ++ (34 ∷ 44 ∷ write_record next fields rest))

unfoldable pub write_csv : List (Text × List Text) → Text
write_csv [] = []
write_csv ((field, fields) ∷ records) = write_record field fields (write_csv records)

abbrev pub fields_of_records : List (Text × List Text) → List (List Text)
fields_of_records [] = []
fields_of_records ((field, fields) ∷ records) = (field ∷ fields) ∷ fields_of_records records

abbrev in_field : Text → List Text → CsvState
in_field field so_far = record { field = field; field_started = true; record_so_far = so_far }

added-next :
    (read : Text) (c : ℕ) (cs : Text) (so_far : List Text) (rest : Text)
    → scan quote_seen (in_field ((read ++ (c ∷ [])) ++ cs) so_far) rest
      ≡ scan quote_seen (in_field (read ++ (c ∷ cs)) so_far) rest
added-next read c cs so_far rest =
    ap (λ t. scan quote_seen (in_field t so_far) rest) (append_assoc read (c ∷ []) cs)

doubled-other : (c : ℕ) (cs : Text) → (c == 34) ≡ false → doubled (c ∷ cs) ≡ c ∷ doubled cs
unfolding doubled
doubled-other c cs e = rw e refl

scan-other :
    (c : ℕ) (cs read : Text) (so_far : List Text)
    → (c == 34) ≡ false
    → scan quoted (in_field read so_far) (c ∷ cs)
      ≡ scan quoted (in_field (read ++ (c ∷ [])) so_far) cs
unfolding scan
scan-other c cs read so_far e = rw (e, scan) refl

scan-doubled :
    (field read : Text) (so_far : List Text) (rest : Text)
    → scan quoted (in_field read so_far) (doubled field ++ (34 ∷ rest))
      ≡ scan quote_seen (in_field (read ++ field) so_far) rest
unfolding scan doubled
scan-doubled [] read so_far rest =
    ap (λ t. scan quote_seen (in_field t so_far) rest) (sym (append-nil read))
scan-doubled (c ∷ cs) read so_far rest = elim (Bool-cases (c == 34)) [
  | inl e ↦
      rw ((nat_beq_iff c 34).0 e)
        (scan-doubled cs (read ++ (34 ∷ [])) so_far rest ∙ added-next read 34 cs so_far rest)
  | inr e ↦
      ap (λ t. scan quoted (in_field read so_far) (t ++ (34 ∷ rest))) (doubled-other c cs e)
      ∙ scan-other c (doubled cs ++ (34 ∷ rest)) read so_far e
      ∙ scan-doubled cs (read ++ (c ∷ [])) so_far rest
      ∙ added-next read c cs so_far rest
]

abbrev starting : List Text → CsvState
starting so_far = record { field = []; field_started = false; record_so_far = so_far }

scan-write_record :
    (field : Text) (fields so_far : List Text) (rest : Text)
    → scan plain (starting so_far) (write_record field fields rest)
      ≡ (so_far ++ (field ∷ fields)) ∷ scan plain fresh rest
unfolding scan write_record plain_step end_field
scan-write_record field [] so_far rest = scan-doubled field [] so_far (10 ∷ rest)
scan-write_record field (next ∷ fields) so_far rest =
    scan-doubled field [] so_far (44 ∷ write_record next fields rest)
    ∙ scan-write_record next fields (so_far ++ (field ∷ [])) rest
    ∙ ap (λ r. r ∷ scan plain fresh rest) (append_assoc so_far (field ∷ []) (next ∷ fields))

scan-write_csv :
    (records : List (Text × List Text))
    → scan plain fresh (write_csv records) ≡ fields_of_records records
unfolding scan write_csv last_record list_beq
scan-write_csv [] = refl
scan-write_csv ((field, fields) ∷ records) =
    scan-write_record field fields [] (write_csv records)
    ∙ ap (◌∷◌ (field ∷ fields)) (scan-write_csv records)

-- What is written with every field in quotes and every quote in a field doubled, with commas between
-- the fields of a record and a line feed after each record, is read back as the same records.
pub parse_csv-write_csv :
    (records : List (Text × List Text)) → parse_csv (write_csv records) ≡ fields_of_records records
unfolding parse_csv write_csv write_record
parse_csv-write_csv [] = scan-write_csv []
parse_csv-write_csv ((field, []) ∷ records) = scan-write_csv ((field, []) ∷ records)
parse_csv-write_csv ((field, next ∷ fields) ∷ records) =
    scan-write_csv ((field, next ∷ fields) ∷ records)
