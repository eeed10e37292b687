-- ===== src/Csv.antt =====
-- `parseCsv` of packages/importers/src/csv.ts.
pub mod Written
use knowtion.Base.{
  ℕ, ◌≡◌, refl, Bool, true, false, not, ◌||◌, List, [], ◌∷◌, ◌++◌, Text, codes, ◌==◌, list_eq,
  nat_eq, if◌then◌else◌,
}

-- Where the loop stands: in a field, inside quotes, after a quote inside quotes, or after a carriage
-- return that ended a record. The source looks one character ahead in the last two.
pub data CsvScan : Type 0 where
  plain quoted quote_seen return_seen : CsvScan

-- What is read of the current record.
pub record CsvState : Type 0 where
  pub field : Text
  pub field_started : Bool
  pub record_so_far : List Text

abbrev pub fresh : CsvState
fresh = record { field = []; field_started = false; record_so_far = [] }

-- `endField`
unfoldable pub end_field : CsvState → CsvState
end_field s = record {
  field = [];
  field_started = false;
  record_so_far = s.record_so_far ++ (s.field ∷ []);
}

unfoldable pub with_char : ℕ → CsvState → CsvState
with_char c s = record s { field = s.field ++ (c ∷ []); field_started = true }

is_empty_list {ℓ} : {A : Type ℓ} → List A → Bool
is_empty_list [] = true
is_empty_list (x ∷ xs) = false

-- The last record may lack a newline.
unfoldable pub last_record : Bool → CsvState → List (List Text)
unfolding is_empty_list
last_record in_quotes s =
    if s.field_started || not (s.field == []) || not (is_empty_list s.record_so_far) || in_quotes
    then (s.record_so_far ++ (s.field ∷ [])) ∷ []
    else []

-- How a character outside quotes is taken.
pub data PlainStep : Type 0 where
  opens adds ends_field returns ends_record : PlainStep

unfoldable pub plain_step : ℕ → Bool → PlainStep
plain_step c started =
    if c == 34
    then (if started then adds else opens)
    else if c == 44
    then ends_field
    else if c == 13
    then returns
    else if c == 10
    then ends_record
    else adds

-- The loop of `parseCsv`.
unfoldable pub scan : CsvScan → CsvState → Text → List (List Text)
scan plain s [] = last_record false s
scan return_seen s [] = last_record false s
scan quote_seen s [] = last_record false s
scan quoted s [] = last_record true s
scan quoted s (c ∷ cs) = elim (c == 34) [
  | true ↦ scan quote_seen s cs
  | false ↦ scan quoted (record s { field = s.field ++ (c ∷ []) }) cs
]
scan quote_seen s (c ∷ cs) = elim (c == 34) [
  | true ↦ scan quoted (record s { field = s.field ++ (c ∷ []) }) cs
  | false ↦ elim (plain_step c s.field_started) [
    | opens ↦ scan quoted (record s { field_started = true }) cs
    | adds ↦ scan plain (with_char c s) cs
    | ends_field ↦ scan plain (end_field s) cs
    | returns ↦ (end_field s).record_so_far ∷ scan return_seen fresh cs
    | ends_record ↦ (end_field s).record_so_far ∷ scan plain fresh cs
  ]
]
scan plain s (c ∷ cs) = elim (plain_step c s.field_started) [
  | opens ↦ scan quoted (record s { field_started = true }) cs
  | adds ↦ scan plain (with_char c s) cs
  | ends_field ↦ scan plain (end_field s) cs
  | returns ↦ (end_field s).record_so_far ∷ scan return_seen fresh cs
  | ends_record ↦ (end_field s).record_so_far ∷ scan plain fresh cs
]
scan return_seen s (c ∷ cs) = elim (c == 10) [
  | true ↦ scan plain s cs
  | false ↦ elim (plain_step c s.field_started) [
    | opens ↦ scan quoted (record s { field_started = true }) cs
    | adds ↦ scan plain (with_char c s) cs
    | ends_field ↦ scan plain (end_field s) cs
    | returns ↦ (end_field s).record_so_far ∷ scan return_seen fresh cs
    | ends_record ↦ (end_field s).record_so_far ∷ scan plain fresh cs
  ]
]

-- A leading byte order mark is no part of the text.
unfoldable pub parse_csv : Text → List (List Text)
parse_csv [] = scan plain fresh []
parse_csv (c ∷ cs) = elim (c == 0xfeff) [
  | true ↦ scan plain fresh cs
  | false ↦ scan plain fresh (c ∷ cs)
]
