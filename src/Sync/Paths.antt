-- ===== src/Sync/Paths.antt =====
-- The names of packs and snapshots in a workspace folder (`packPath`, `parsePackPath`,
-- `parseSnapshotPath` of packages/sync/src/pack-store.ts).
use knowtion.Base.{
  ℕ, zero, suc, ◌+◌, ◌-◌, ◌/◌, ◌%◌, Bool, false, ◌&&◌, ◌||◌, Option, none, some, List, [], ◌∷◌,
  ◌++◌, length, take, drop, replicate, all, Text, codes, ltb, leb, ◌==◌, list_eq, nat_eq,
  if◌then◌else◌,
}
use knowtion.Property.Dates.{is_digit, number_of_digits}
use knowtion.Pack.Bytes.{Bytes}

-- `text.split(separator)` at a single code unit.
unfoldable pub split_on : ℕ → Text → List Text
split_on c [] = [] ∷ []
split_on c (x ∷ xs) = elim (split_on c xs) [
  | [] ↦ []
  | part ∷ parts ↦ if x == c then [] ∷ (part ∷ parts) else (x ∷ part) ∷ parts
]

-- `text.endsWith(suffix)`
unfoldable pub ends_with : Text → Text → Bool
ends_with suffix text =
    leb (length suffix) (length text) && drop (length text - length suffix) text == suffix

-- The decimal digits of a number, `String(n)`; as much fuel as the number is enough.
decimal_on : ℕ → ℕ → Text
decimal_on zero n = []
decimal_on (suc fuel) n =
    let rest = decimal_on fuel (n / 10) in
    if ltb n 10 then (48 + n) ∷ [] else rest ++ (48 + n % 10) ∷ []

unfoldable pub decimal : ℕ → Text
unfolding decimal_on
decimal n = decimal_on (suc n) n

abbrev pub seq_digits : ℕ
seq_digits = 12

-- `String(seq).padStart(SEQ_DIGITS, '0')`
unfoldable pub padded_seq : ℕ → Text
padded_seq seq = replicate (seq_digits - length (decimal seq)) 48 ++ decimal seq

unfoldable pub hex_digit : ℕ → ℕ
hex_digit n = if ltb n 10 then 48 + n else 87 + n

unfoldable pub to_hex : Bytes → Text
to_hex [] = []
to_hex (b ∷ bytes) = hex_digit (b / 16) ∷ hex_digit (b % 16) ∷ to_hex bytes

unfoldable pub pack_path : Text → Text → ℕ → Text
pack_path device_hex document_hex seq =
    codes "d/"
    ++ (device_hex
        ++ (codes "/" ++ (document_hex ++ (codes "/" ++ (padded_seq seq ++ codes ".kpack")))))

pub record ParsedPath : Type 0 where
  pub device_hex : Text
  pub document_hex : Text
  pub seq : ℕ

-- One of the characters 0-9 and a-f.
abbrev pub is_hex_char : ℕ → Bool
is_hex_char c = is_digit c || (leb 97 c && leb c 102)

-- `/^[0-9a-f]{32}$/`
unfoldable pub is_hex_id : Text → Bool
is_hex_id text = length text == 32 && all is_hex_char text

-- Twelve digits and an extension: `PACK_NAME` and `SNAPSHOT_NAME`.
unfoldable pub seq_of_name : Text → Text → Option ℕ
seq_of_name extension name =
    if length name == seq_digits + length extension
      && (all is_digit (take seq_digits name) && drop seq_digits name == extension)
    then some (number_of_digits 0 (take seq_digits name))
    else none

abbrev parsed : Text → Text → Option ℕ → Option ParsedPath
parsed device document none = none
parsed device document (some seq) =
    some (record { device_hex = device; document_hex = document; seq = seq })

parse_parts : List Text → Option ParsedPath
parse_parts (d ∷ device ∷ document ∷ name ∷ []) =
    if d == codes "d" && (is_hex_id device && is_hex_id document)
    then parsed device document (seq_of_name (codes ".kpack") name)
    else none
parse_parts _ = none

unfoldable pub parse_pack_path : Text → Option ParsedPath
unfolding parse_parts
parse_pack_path path = parse_parts (split_on 47 path)

parse_snapshot_parts : List Text → Option ParsedPath
parse_snapshot_parts (d ∷ device ∷ document ∷ snap ∷ name ∷ []) =
    if d == codes "d" && (snap == codes "snap" && (is_hex_id device && is_hex_id document))
    then parsed device document (seq_of_name (codes ".ksnap") name)
    else none
parse_snapshot_parts _ = none

unfoldable pub parse_snapshot_path : Text → Option ParsedPath
unfolding parse_snapshot_parts
parse_snapshot_path path = parse_snapshot_parts (split_on 47 path)

-- Four parts under `d/`, the third of which is the document: a possible conflict copy.
unfoldable pub may_be_copy : Text → Text → Bool
may_be_copy document_hex path = elim (split_on 47 path) [
  | d ∷ device ∷ document ∷ name ∷ [] ↦ d == codes "d" && document == document_hex
  | _ ↦ false
]
