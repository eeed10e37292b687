-- ===== src/OrderKey/Digits/Between.antt =====
-- Digits, and `midpointFraction` with no upper bound.
use knowtion.Base.{
  ℕ, ◌-◌, ◌<◌, ◌≡◌, ◌≢◌, refl, inl, inr, true, some, [], ◌∷◌, Text, ltb, ltb→lt, nat_eq, list_eq,
  Outcome, ok, All, Bool-cases, arith,
}
use knowtion.OrderKey.Compare.{text_lt}
use knowtion.OrderKey.Digits.{base, digit, digit_value, KeyError, front, middle, midpoint_above}

-- Every character is a digit.
abbrev pub AreDigits : Text → Type 0
AreDigits = All (λ c. (v : ℕ) × (digit_value c ≡ some v))

pub digit-digit_value : (c v : ℕ) → digit_value c ≡ some v → (digit v ≡ c) × (v < base)
unfolding digit digit_value
digit-digit_value c v h = ground arith

pub digit_mono : (v w : ℕ) → v < w → w < base → digit v < digit w
unfolding digit
digit_mono v w h k = ground arith

-- Not empty, and the last character is not "0".
abbrev pub IsFraction : Text → Type 0
IsFraction [] = ⊥
IsFraction (c ∷ []) = c ≢ 48
IsFraction (c ∷ d ∷ cs) = IsFraction (d ∷ cs)

pub IsFraction-cons : (c : ℕ) (cs : Text) → IsFraction cs → IsFraction (c ∷ cs)
IsFraction-cons c [] h = absurd h
IsFraction-cons c (d ∷ cs) h = h

pub digit_positive : (v : ℕ) → 0 < v → digit v ≢ 48
unfolding digit
digit_positive v h e = ground arith

-- A result that stands above a text and can end a key.
pub record Above (a : Text) (r : Outcome KeyError Text) : Type 0 where
  pub text : Text
  pub result : r ≡ ok text
  pub above : text_lt a text ≡ true
  pub fraction : IsFraction text

pub text_lt-cons : (c : ℕ) (a b : Text) → text_lt a b ≡ true → text_lt (c ∷ a) (c ∷ b) ≡ true
unfolding text_lt
text_lt-cons c a b h = ground arith

pub text_lt-front : (c d : ℕ) (a b : Text) → c < d → text_lt (c ∷ a) (d ∷ b) ≡ true
unfolding text_lt
text_lt-front c d a b h = ground arith

Above-front : (c : ℕ) (a : Text) (r : Outcome KeyError Text) → Above a r → Above (c ∷ a) (front c r)
Above-front c a r h = record {
  text = c ∷ h.text;
  result = rw h.result refl;
  above = text_lt-cons c a h.text h.above;
  fraction = IsFraction-cons c h.text h.fraction;
}

pub middle-between :
    (low high : ℕ) → 1 < high - low → (low < middle low high) × (middle low high < high)
middle-between low high h = (omega arith, omega arith)

-- With no upper bound there is a fraction above any digits.
pub midpoint_above-Above : (a : Text) → AreDigits a → Above a (midpoint_above a)
unfolding midpoint_above text_lt
midpoint_above-Above [] h = record {
  text = digit 31 ∷ [];
  result = refl;
  above = refl;
  fraction = digit_positive 31 (omega arith);
}
midpoint_above-Above (c ∷ a) ((v, e), h) =
    let (same, small) = digit-digit_value c v e in
    elim (Bool-cases (ltb 1 (base - v))) [
      | inl room ↦
          let (up, down) = middle-between v base (ltb→lt 1 (base - v) room) in
          record {
            text = digit (middle v base) ∷ [];
            result = rw (midpoint_above, e, room) refl;
            above =
                text_lt-front c (digit (middle v base)) a []
                  (rw (← same) (digit_mono v (middle v base) up down));
            fraction = digit_positive (middle v base) (omega (arith, up));
          }
      | inr tight ↦
          rw (midpoint_above, e, tight, same)
            (Above-front c a (midpoint_above a) (midpoint_above-Above a h))
    ]
