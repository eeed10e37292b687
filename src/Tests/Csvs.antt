-- ===== src/Tests/Csvs.antt =====
-- A table that is written and read.
use knowtion.Base.{◌≡◌, [], ◌∷◌, codes}
use knowtion.Csv.{parse_csv}
use knowtion.Csv.Written.{write_csv, parse_csv-write_csv}

parse_csv-write_csv_example :
    parse_csv (write_csv ((codes "a\"b", codes "c,d" ∷ []) ∷ (codes "", []) ∷ []))
    ≡ (codes "a\"b" ∷ codes "c,d" ∷ []) ∷ (codes "" ∷ []) ∷ []
parse_csv-write_csv_example =
    parse_csv-write_csv ((codes "a\"b", codes "c,d" ∷ []) ∷ (codes "", []) ∷ [])
