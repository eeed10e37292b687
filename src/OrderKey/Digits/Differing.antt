-- ===== src/OrderKey/Digits/Differing.antt =====
-- `midpointFraction` of two fractions whose first digits differ.
use knowtion.Base.{
  ℕ, ◌-◌, ◌<◌, ◌≡◌, refl, inl, inr, true, false, some, [], ◌∷◌, length, drop, Text, ltb, lt→ltb,
  ltb→lt, nat_eq, list_eq, nat_beq_iff, Outcome, ok, Bool-cases, arith,
}
use knowtion.OrderKey.Compare.{text_lt}
use knowtion.OrderKey.Digits.{
  base, digit, digit_value, KeyError, middle, between_values, midpoint_differing,
}
use knowtion.OrderKey.Digits.Between.{
  AreDigits, digit-digit_value, digit_mono, IsFraction, IsFraction-cons, digit_positive,
  text_lt-cons, text_lt-front, middle-between, midpoint_above-Above,
}

-- The value of a text's first digit, zero where there is none.
abbrev pub Starts : Text → ℕ → Type 0
Starts [] v = v ≡ 0
Starts (c ∷ cs) v = digit_value c ≡ some v

-- A result strictly between two texts that can end a key.
pub record Between (a b : Text) (r : Outcome KeyError Text) : Type 0 where
  pub text : Text
  pub result : r ≡ ok text
  pub above : text_lt a text ≡ true
  pub below : text_lt text b ≡ true
  pub fraction : IsFraction text

pub above_front :
    (a : Text) (v d : ℕ) (m : Text) → Starts a v → v < d → d < base → text_lt a (digit d ∷ m) ≡ true
unfolding text_lt
above_front [] v d m s h k = refl
above_front (c ∷ a) v d m s h k =
    let (same, small) = digit-digit_value c v s in
    text_lt-front c (digit d) a m (rw (← same) (digit_mono v d h k))

tail-AreDigits : (a : Text) → AreDigits a → AreDigits (drop 1 a)
tail-AreDigits [] h = tt
tail-AreDigits (c ∷ a) (d, h) = h

-- A text that keeps the first digit and is above in the rest.
above_tail :
    (a : Text) (v : ℕ) (m : Text)
    → Starts a v
    → text_lt (drop 1 a) m ≡ true
    → text_lt a (digit v ∷ m) ≡ true
unfolding text_lt
above_tail [] v m s h = refl
above_tail (c ∷ a) v m s h =
    let (same, small) = digit-digit_value c v s in rw same (text_lt-cons c a m h)

adjacent-Between :
    (a b : Text) (y low high : ℕ)
    → Starts a low
    → digit_value y ≡ some high
    → low < high
    → AreDigits a
    → ltb 1 (high - low) ≡ false
    → Between a (y ∷ b) (between_values a (y ∷ b) low high)
unfolding text_lt
adjacent-Between a (z ∷ b) y low high s e h digits tight =
    let (same, small) = digit-digit_value y high e in
    let long : ltb 1 (length (y ∷ z ∷ b)) ≡ true = lt→ltb 1 (length (y ∷ z ∷ b)) (omega arith) in
    record {
      text = y ∷ [];
      result = rw (tight, long) refl;
      above = rw (← same) (above_front a low high [] s h small);
      below = ground (arith, nat_beq_iff y y);
      fraction = rw (← same) (digit_positive high (omega (arith, h)));
    }
adjacent-Between a [] y low high s e h digits tight =
    let m = midpoint_above-Above (drop 1 a) (tail-AreDigits a digits) in
    let (same, small) = digit-digit_value y high e in
    record {
      text = digit low ∷ m.text;
      result = rw (tight, m.result) refl;
      above = above_tail a low m.text s m.above;
      below = text_lt-front (digit low) y m.text [] (rw (← same) (digit_mono low high h small));
      fraction = IsFraction-cons (digit low) m.text m.fraction;
    }

between_values-Between :
    (a b : Text) (y low high : ℕ)
    → Starts a low
    → digit_value y ≡ some high
    → low < high
    → AreDigits a
    → Between a (y ∷ b) (between_values a (y ∷ b) low high)
unfolding text_lt
between_values-Between a b y low high s e h digits = elim (Bool-cases (ltb 1 (high - low))) [
  | inl room ↦
      let (up, down) = middle-between low high (ltb→lt 1 (high - low) room) in
      let (same, small) = digit-digit_value y high e in
      record {
        text = digit (middle low high) ∷ [];
        result = rw room refl;
        above = above_front a low (middle low high) [] s up (omega (arith, down, small));
        below =
            text_lt-front (digit (middle low high)) y [] b
              (rw (← same) (digit_mono (middle low high) high down small));
        fraction = digit_positive (middle low high) (omega (arith, up));
      }
  | inr tight ↦ adjacent-Between a b y low high s e h digits tight
]

-- Two texts whose first digits differ, the lower one first.
pub record Apart (a b : Text) : Type 0 where
  pub low : ℕ
  pub high : ℕ
  pub first : ℕ
  pub rest : Text
  pub shape : b ≡ first ∷ rest
  pub starts : Starts a low
  pub ends : digit_value first ≡ some high
  pub order : low < high

differing-Between :
    (a b : Text) (y low high : ℕ)
    → Starts a low
    → digit_value y ≡ some high
    → low < high
    → AreDigits a
    → Between a (y ∷ b) (midpoint_differing a (y ∷ b))
unfolding midpoint_differing
differing-Between [] b y low high s e h digits =
    rw (midpoint_differing, e)
      (between_values-Between [] b y 0 high refl e (omega (arith, s, h)) tt)
differing-Between (c ∷ a) b y low high s e h digits =
    rw (midpoint_differing, s, e) (between_values-Between (c ∷ a) b y low high s e h digits)

pub midpoint_differing-Between :
    (a b : Text) → Apart a b → AreDigits a → Between a b (midpoint_differing a b)
midpoint_differing-Between a b d digits =
    rw d.shape (differing-Between a d.rest d.first d.low d.high d.starts d.ends d.order digits)
