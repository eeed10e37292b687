-- ===== src/OrderKey/Digits.antt =====
-- The digits of a key and the fraction between two others (`digitValue`, `midpointFraction` of
-- packages/engine/src/order-key.ts).
pub mod Between
pub mod Differing
pub mod Midpoint
use knowtion.Base.{
  ℕ, zero, suc, ◌+◌, ◌-◌, ◌/◌, ◌≡◌, refl, Bool, true, false, not, ◌&&◌, ◌||◌, Option, none, some,
  List, [], ◌∷◌, ◌++◌, length, take, drop, map, Text, codes, ltb, leb, ◌==◌, nat_eq, if◌then◌else◌,
  Outcome, ok, err,
}
use knowtion.OrderKey.Compare.{text_lt}

abbrev pub order_key_digits : Text
order_key_digits = codes "0123456789ABCDEFGHIJKLMNOPQRSTUVWXYZabcdefghijklmnopqrstuvwxyz"

abbrev pub base : ℕ
base = 62

-- `ORDER_KEY_DIGITS[value]`, by the three runs of the alphabet.
unfoldable pub digit : ℕ → ℕ
digit v = if ltb v 10 then 48 + v else if ltb v 36 then 55 + v else 61 + v

-- `digitValue`: the index of a digit in the alphabet.
unfoldable pub digit_value : ℕ → Option ℕ
digit_value c =
    if leb 48 c && ltb c 58
    then some (c - 48)
    else if leb 65 c && ltb c 91
    then some (c - 55)
    else if leb 97 c && ltb c 123
    then some (c - 61)
    else none

count_up : ℕ → ℕ → List ℕ
count_up zero n = []
count_up (suc k) n = n ∷ count_up k (suc n)

digits_check : map digit (count_up 62 0) ≡ order_key_digits
unfolding digit count_up
digits_check = refl

-- The ways in which an `Error` is thrown.
pub data KeyError : Type 0 where
  not_a_digit fraction_not_below malformed out_of_order no_room : KeyError

-- The digit at the front, where an empty text gives "0".
abbrev pub front_value : Text → Outcome KeyError ℕ
front_value [] = ok 0
front_value (c ∷ cs) = elim (digit_value c) [ none ↦ err KeyError.not_a_digit | some v ↦ ok v ]

abbrev pub front : ℕ → Outcome KeyError Text → Outcome KeyError Text
front c (ok rest) = ok (c ∷ rest)
front c (err e) = err e

-- `Math.round((low + high) / 2)`
abbrev pub middle : ℕ → ℕ → ℕ
middle low high = (low + high + 1) / 2

-- `midpointFraction(a, undefined)`
unfoldable pub midpoint_above : Text → Outcome KeyError Text
midpoint_above [] = ok (digit (middle 0 base) ∷ [])
midpoint_above (c ∷ a) =
    let rest = midpoint_above a in
    elim (digit_value c) [
      | none ↦ err KeyError.not_a_digit
      | some low ↦
          if ltb 1 (base - low) then ok (digit (middle low base) ∷ []) else front (digit low) rest
    ]

-- How far the two agree, where `a` is filled up with "0".
unfoldable pub shared_prefix : Text → Text → ℕ
shared_prefix a [] = 0
shared_prefix [] (y ∷ b) = let rest = shared_prefix [] b in if y == 48 then suc rest else 0
shared_prefix (x ∷ a) (y ∷ b) = let rest = shared_prefix a b in if x == y then suc rest else 0

abbrev pub between_values : Text → Text → ℕ → ℕ → Outcome KeyError Text
between_values a b low high =
    if ltb 1 (high - low)
    then ok (digit (middle low high) ∷ [])
    else if ltb 1 (length b)
    then ok (take 1 b)
    else front (digit low) (midpoint_above (drop 1 a))

-- What `midpointFraction(a, b)` does when the first digits differ.
unfoldable pub midpoint_differing : Text → Text → Outcome KeyError Text
midpoint_differing a b = elim (front_value a) [
  | err e ↦ err e
  | ok low ↦ elim (front_value b) [ err e ↦ err e | ok high ↦ between_values a b low high ]
]

abbrev pub checked_below : Text → Text → Outcome KeyError Text → Outcome KeyError Text
checked_below a b m = if not (text_lt a b) then err KeyError.fraction_not_below else m

abbrev pub prefixed : Text → Outcome KeyError Text → Outcome KeyError Text
prefixed shared (ok rest) = ok (shared ++ rest)
prefixed shared (err e) = err e

-- `midpointFraction(a, b)`: its call on the rest of the two finds nothing shared any more.
unfoldable pub midpoint_between : Text → Text → Outcome KeyError Text
midpoint_between a b =
    let n = shared_prefix a b in
    checked_below a b (
      if ltb 0 n
      then prefixed (take n b)
          (checked_below (drop n a) (drop n b) (midpoint_differing (drop n a) (drop n b)))
      else midpoint_differing a b)
