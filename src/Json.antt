-- ===== src/Json.antt =====
-- A plain value that a CRDT map or `JSON.parse` hands over (`unknown` in the source). Absence
-- (`undefined`) is `none` of an `Option` where it can arise.
use knowtion.Base.{
  Bool, Option, none, some, Text, ◌==◌, list_eq, nat_eq, if◌then◌else◌, List, [], ◌∷◌,
}

mutual
  pub data Json (N : Type 0) : Type 0 where
    null : Json N
    boolean : Bool → Json N
    number : N → Json N
    string : Text → Json N
    array : Items N → Json N
    object : Fields N → Json N

  pub data Items (N : Type 0) : Type 0 where
    nil : Items N
    cons : Json N → Items N → Items N

  -- The keys of an object are distinct.
  pub data Fields (N : Type 0) : Type 0 where
    end : Fields N
    field : Text → Json N → Fields N → Fields N

module _ {N : Type 0} where
  -- `raw.key`
  unfoldable pub get : Text → Fields N → Option (Json N)
  get key end = none
  get key (field k v rest) = if k == key then some v else get key rest

  abbrev pub as_string : Option (Json N) → Option Text
  as_string (some (string s)) = some s
  as_string _ = none

  abbrev pub as_number : Option (Json N) → Option N
  as_number (some (number n)) = some n
  as_number _ = none

  abbrev pub as_boolean : Option (Json N) → Option Bool
  as_boolean (some (boolean b)) = some b
  as_boolean _ = none

  -- The texts among the items of an array.
  abbrev pub strings : Items N → List Text
  strings nil = []
  strings (cons (string s) rest) = s ∷ strings rest
  strings (cons _ rest) = strings rest

  abbrev pub from_strings : List Text → Items N
  from_strings [] = nil
  from_strings (s ∷ rest) = cons (string s) (from_strings rest)
