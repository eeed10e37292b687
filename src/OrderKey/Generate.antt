-- ===== src/OrderKey/Generate.antt =====
-- Keys between two neighbours (`split`, `incrementInteger`, `decrementInteger`, `baseKeyBetween`,
-- `orderKeyBetween` of packages/engine/src/order-key.ts). The two random bytes are an argument.
use knowtion.Base.{
  list_beq, ◌≡◌, refl, ℕ, ◌+◌, ◌-◌, ◌%◌, Bool, true, false, not, ◌&&◌, Option, none, some, is_some,
  [], ◌∷◌, ◌++◌, length, take, drop, replicate, all, Text, codes, ltb, leb, ◌==◌, list_eq, nat_eq,
  contains, if◌then◌else◌, Outcome, ok, err,
}
use knowtion.OrderKey.Compare.{text_lt}
use knowtion.OrderKey.Digits.{
  KeyError, base, digit, digit_value, order_key_digits, prefixed, midpoint_above, midpoint_between,
  shared_prefix, midpoint_differing,
}

-- "0" and "z", and the integer part of a first key.
abbrev zero_digit : ℕ
zero_digit = 48

abbrev max_digit : ℕ
max_digit = 122

abbrev first_integer : Text
first_integer = codes "a0"

-- A letter of a..z has 1 to 26 digits behind it, one of A..Z 26 to 1.
unfoldable pub integer_length : ℕ → Option ℕ
integer_length marker =
    if leb 97 marker && leb marker 122
    then some (marker - 97 + 1)
    else if leb 65 marker && leb marker 90
    then some (90 - marker + 1)
    else none

abbrev is_negative : ℕ → Bool
is_negative marker = leb 65 marker && leb marker 90

pub record KeyParts : Type 0 where
  pub integer : Text
  pub fraction : Text

-- The fraction ends in "0".
abbrev ends_in_zero : Text → Bool
ends_in_zero [] = false
ends_in_zero (c ∷ []) = c == zero_digit
ends_in_zero (c ∷ d ∷ cs) = ends_in_zero (d ∷ cs)

split_at : ℕ → Text → ℕ → Option KeyParts
split_at marker digits n =
    if ltb (length digits) n
    then none
    else if not (all (λ c. contains c order_key_digits) digits)
    then none
    else if ends_in_zero (drop n digits)
    then none
    else some (record { integer = marker ∷ take n digits; fraction = drop n digits })

unfoldable pub split : Text → Option KeyParts
unfolding split_at
split [] = none
split (marker ∷ digits) = elim (integer_length marker) [
  | none ↦ none
  | some n ↦ split_at marker digits n
]

unfoldable pub is_order_key : Text → Bool
is_order_key value = is_some (split value)

-- The loops of `incrementDigits` and `decrementDigits`, which work from the last digit on: the
-- digits after the step, and whether the step is still to be carried.
abbrev carry_up : ℕ → Outcome KeyError (Bool × Text) → Outcome KeyError (Bool × Text)
carry_up c (err e) = err e
carry_up c (ok (false, cs)) = ok (false, c ∷ cs)
carry_up c (ok (true, cs)) = elim (digit_value c) [
  | none ↦ err KeyError.not_a_digit
  | some v ↦ if ltb (v + 1) base then ok (false, digit (v + 1) ∷ cs) else ok (true, zero_digit ∷ cs)
]

unfoldable pub increment_loop : Text → Outcome KeyError (Bool × Text)
increment_loop [] = ok (true, [])
increment_loop (c ∷ cs) = carry_up c (increment_loop cs)

abbrev carry_down : ℕ → Outcome KeyError (Bool × Text) → Outcome KeyError (Bool × Text)
carry_down c (err e) = err e
carry_down c (ok (false, cs)) = ok (false, c ∷ cs)
carry_down c (ok (true, cs)) = elim (digit_value c) [
  | none ↦ err KeyError.not_a_digit
  | some v ↦ if ltb 0 v then ok (false, digit (v - 1) ∷ cs) else ok (true, max_digit ∷ cs)
]

unfoldable pub decrement_loop : Text → Outcome KeyError (Bool × Text)
decrement_loop [] = ok (true, [])
decrement_loop (c ∷ cs) = carry_down c (decrement_loop cs)

-- The integer part's marker and digits; a key that was split has both.
abbrev marker_of : Text → ℕ
marker_of [] = 0
marker_of (c ∷ cs) = c

abbrev stepped_up : ℕ → Text → Outcome KeyError (Bool × Text) → Outcome KeyError (Option Text)
stepped_up marker digits (err e) = err e
stepped_up marker digits (ok (false, bumped)) = ok (some (marker ∷ bumped))
stepped_up marker digits (ok (true, zeros)) =
    if is_negative marker
    then if marker == 90
      then ok (some first_integer)
      else ok (some ((marker + 1) ∷ replicate (length digits - 1) zero_digit))
    else if marker == 122
    then ok none
    else ok (some ((marker + 1) ∷ 49 ∷ replicate (length digits) zero_digit))

unfoldable pub increment_integer : Text → Outcome KeyError (Option Text)
increment_integer integer =
    stepped_up (marker_of integer) (drop 1 integer) (increment_loop (drop 1 integer))

abbrev stepped_down : ℕ → Text → Outcome KeyError (Bool × Text) → Outcome KeyError (Option Text)
stepped_down marker digits (err e) = err e
stepped_down marker digits (ok (false, lowered)) = ok (some (marker ∷ lowered))
stepped_down marker digits (ok (true, tops)) =
    if is_negative marker
    then if marker == 65
      then ok none
      else ok (some ((marker - 1) ∷ replicate (length digits + 1) max_digit))
    else if marker == 97
    then ok (some (90 ∷ max_digit ∷ []))
    else ok (some ((marker - 1) ∷ replicate (length digits - 1) max_digit))

unfoldable pub decrement_integer : Text → Outcome KeyError (Option Text)
decrement_integer integer =
    stepped_down (marker_of integer) (drop 1 integer) (decrement_loop (drop 1 integer))

-- Below the upper neighbour alone.
abbrev below_upper : KeyParts → Outcome KeyError (Option Text) → Outcome KeyError Text
below_upper upper (err e) = err e
below_upper upper (ok (some down)) = ok down
below_upper upper (ok none) =
    if upper.fraction == []
    then err KeyError.no_room
    else prefixed upper.integer (midpoint_between [] upper.fraction)

-- Above the lower neighbour, below the key that is given, if one is.
abbrev above_lower : KeyParts → Option Text → Outcome KeyError (Option Text) → Outcome KeyError Text
above_lower lower b (err e) = err e
above_lower lower b (ok none) = prefixed lower.integer (midpoint_above lower.fraction)
above_lower lower none (ok (some up)) = ok up
above_lower lower (some b) (ok (some up)) =
    if text_lt up b then ok up else prefixed lower.integer (midpoint_above lower.fraction)

-- Each neighbour with its parts. The source passes both; here they are one argument.
unfoldable pub base_key_between :
    Option (Text × KeyParts) → Option (Text × KeyParts) → Outcome KeyError Text
base_key_between none none = ok first_integer
base_key_between none (some (b, upper)) = below_upper upper (decrement_integer upper.integer)
base_key_between (some (a, lower)) none = above_lower lower none (increment_integer lower.integer)
base_key_between (some (a, lower)) (some (b, upper)) =
    if lower.integer == upper.integer
    then prefixed lower.integer (midpoint_between lower.fraction upper.fraction)
    else above_lower lower (some b) (increment_integer lower.integer)

-- Two digits, the last of which is never "0".
unfoldable pub jitter : ℕ → ℕ → Text
jitter first last = digit (first % base) ∷ digit (1 + last % (base - 1)) ∷ []

unfoldable pub parse : Option Text → Outcome KeyError (Option (Text × KeyParts))
parse none = ok none
parse (some key) = elim (split key) [
  | none ↦ err KeyError.malformed
  | some parts ↦ ok (some (key, parts))
]

abbrev out_of_order : Option (Text × KeyParts) → Option (Text × KeyParts) → Bool
out_of_order (some (a, lower)) (some (b, upper)) = not (text_lt a b)
out_of_order _ _ = false

-- The jitter where it cannot cross the upper neighbour; otherwise the gap below it is bisected.
abbrev jittered : Option (Text × KeyParts) → Text → Outcome KeyError Text → Outcome KeyError Text
jittered upper noise (err e) = err e
jittered none noise (ok key) = ok (key ++ noise)
jittered (some (b, upper)) noise (ok key) =
    if text_lt (key ++ noise) b
    then ok (key ++ noise)
    else prefixed key (midpoint_between [] (drop (length key) b))

abbrev between_parsed :
    ℕ
    → ℕ
    → Outcome KeyError (Option (Text × KeyParts))
    → Outcome KeyError (Option (Text × KeyParts))
    → Outcome KeyError Text
between_parsed first last (err e) upper = err e
between_parsed first last (ok lower) (err e) = err e
between_parsed first last (ok lower) (ok upper) =
    if out_of_order lower upper
    then err KeyError.out_of_order
    else jittered upper (jitter first last) (base_key_between lower upper)

unfoldable pub order_key_between : Option Text → Option Text → ℕ → ℕ → Outcome KeyError Text
order_key_between a b first last = between_parsed first last (parse a) (parse b)

abbrev generated : Option Text → Option Text → Outcome KeyError Text
generated a b = order_key_between a b 0 0

append_test : generated (some (codes "a0")) none ≡ ok (codes "a101")
unfolding order_key_between base_key_between parse split split_at integer_length increment_integer
    increment_loop digit digit_value jitter contains
append_test = refl

gap_test : generated (some (codes "a0")) (some (codes "a01")) ≡ ok (codes "a00V01")
unfolding order_key_between base_key_between parse split split_at integer_length midpoint_between
    midpoint_above shared_prefix midpoint_differing text_lt list_beq digit digit_value jitter
    contains
gap_test = refl
