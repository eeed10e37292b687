-- ===== src/OrderKey/Digits/Midpoint.antt =====
-- `midpointFraction` of two fractions.
use knowtion.Base.{
  ℕ, zero, suc, ◌<◌, ◌≡◌, refl, sym, subst, inl, inr, true, false, some, [], ◌∷◌, ◌++◌, take, drop,
  Text, ltb, ltb_false→le, ◌==◌, nat_eq, list_eq, nat_beq_iff, All-drop, Bool-cases, arith,
}
use knowtion.OrderKey.Compare.{text_lt}
use knowtion.OrderKey.Digits.{digit_value, shared_prefix, midpoint_differing, midpoint_between}
use knowtion.OrderKey.Digits.Between.{
  AreDigits, digit-digit_value, IsFraction, IsFraction-cons, text_lt-cons,
}
use knowtion.OrderKey.Digits.Differing.{Between, above_front, Apart, midpoint_differing-Between}

-- After what two texts share, their first digits differ.
digit_value_order : (x y v w : ℕ) → digit_value x ≡ some v → digit_value y ≡ some w → x < y → v < w
unfolding digit_value
digit_value_order x y v w e f h = ground arith

text_lt-tail :
    (x y : ℕ) (a b : Text) → (x == y) ≡ true → text_lt (x ∷ a) (y ∷ b) ≡ true → text_lt a b ≡ true
unfolding text_lt
text_lt-tail x y a b same h = ground arith

text_lt-head : (x y : ℕ) (a b : Text) → (x == y) ≡ false → text_lt (x ∷ a) (y ∷ b) ≡ true → x < y
unfolding text_lt
text_lt-head x y a b differ h = ground arith

digit_value_positive : (y w : ℕ) → digit_value y ≡ some w → (y == 48) ≡ false → 0 < w
unfolding digit_value
digit_value_positive y w e h = ground arith

drop-nil : (n : ℕ) → drop {A = ℕ} n [] ≡ []
drop-nil zero = refl
drop-nil (suc n) = refl

text_lt-nil : (a : Text) → text_lt a [] ≡ false
unfolding text_lt
text_lt-nil [] = refl
text_lt-nil (x ∷ a) = refl

-- What is above another text is not empty, so a longer fraction ends as it does.
tail-IsFraction : (y : ℕ) (a b : Text) → text_lt a b ≡ true → IsFraction (y ∷ b) → IsFraction b
tail-IsFraction y a [] h f = cc (text_lt-nil a)
tail-IsFraction y a (z ∷ b) h f = f

zero-IsFraction : (y : ℕ) (b : Text) → (y == 48) ≡ true → IsFraction (y ∷ b) → IsFraction b
zero-IsFraction y [] h f = absurd (f ((nat_beq_iff y 48).0 h))
zero-IsFraction y (z ∷ b) h f = f

above_nil : (b : Text) → IsFraction b → text_lt [] b ≡ true
unfolding text_lt
above_nil [] f = absurd f
above_nil (y ∷ b) f = refl

shared_prefix-Apart :
    (a b : Text)
    → AreDigits a
    → AreDigits b
    → IsFraction b
    → text_lt a b ≡ true
    → Apart (drop (shared_prefix a b) a) (drop (shared_prefix a b) b)
unfolding shared_prefix text_lt
shared_prefix-Apart [] [] da db f h = absurd f
shared_prefix-Apart (x ∷ a) [] da db f h = absurd f
shared_prefix-Apart [] (y ∷ b) da ((w, e), db) f h = elim (Bool-cases (y == 48)) [
  | inl same ↦
      let fraction = zero-IsFraction y b same f in
      let rest = shared_prefix-Apart [] b tt db fraction (above_nil b fraction) in
      rw (shared_prefix, same)
        (subst (λ t. Apart t (drop (shared_prefix [] b) b)) (drop-nil (shared_prefix [] b)) rest)
  | inr differ ↦
      rw (shared_prefix, differ)
        (record {
          low = 0;
          high = w;
          first = y;
          rest = b;
          shape = refl;
          starts = refl;
          ends = e;
          order = digit_value_positive y w e differ;
        })
]
shared_prefix-Apart (x ∷ a) (y ∷ b) ((v, d), da) ((w, e), db) f h = elim (Bool-cases (x == y)) [
  | inl same ↦
      let below = text_lt-tail x y a b same h in
      rw (shared_prefix, same) (shared_prefix-Apart a b da db (tail-IsFraction y a b below f) below)
  | inr differ ↦
      rw (shared_prefix, differ)
        (record {
          low = v;
          high = w;
          first = y;
          rest = b;
          shape = refl;
          starts = d;
          ends = e;
          order = digit_value_order x y v w d e (text_lt-head x y a b differ h);
        })
]

Apart-below : (a b : Text) → Apart a b → text_lt a b ≡ true
Apart-below a b d =
    let (same, small) = digit-digit_value d.first d.high d.ends in
    subst (λ t. text_lt a t ≡ true) (sym d.shape)
      (subst (λ c. text_lt a (c ∷ d.rest) ≡ true) same
        (above_front a d.low d.high d.rest d.starts d.order small))

-- What is put behind the shared digits stands to the whole texts as it stands to their rests.
prefix_above :
    (a b m : Text)
    → text_lt (drop (shared_prefix a b) a) m ≡ true
    → text_lt a (take (shared_prefix a b) b ++ m) ≡ true
unfolding shared_prefix text_lt
prefix_above [] [] m h = h
prefix_above (x ∷ a) [] m h = h
prefix_above [] (y ∷ b) m h = elim (Bool-cases (y == 48)) [
  | inl same ↦ rw (shared_prefix, same) refl
  | inr differ ↦ rw (shared_prefix, differ) (rw (shared_prefix, differ) at h)
]
prefix_above (x ∷ a) (y ∷ b) m h = elim (Bool-cases (x == y)) [
  | inl same ↦
      let equal : x ≡ y = (nat_beq_iff x y).0 same in
      rw (shared_prefix, same, equal)
        (text_lt-cons y a (take (shared_prefix a b) b ++ m)
          (prefix_above a b m (rw (shared_prefix, same) at h)))
  | inr differ ↦ rw (shared_prefix, differ) (rw (shared_prefix, differ) at h)
]

prefix_below : (n : ℕ) (b m : Text) → text_lt m (drop n b) ≡ true → text_lt (take n b ++ m) b ≡ true
prefix_below zero b m h = h
prefix_below (suc n) [] m h = h
prefix_below (suc n) (y ∷ b) m h = text_lt-cons y (take n b ++ m) b (prefix_below n b m h)

append-IsFraction : (s m : Text) → IsFraction m → IsFraction (s ++ m)
append-IsFraction [] m h = h
append-IsFraction (c ∷ s) m h = IsFraction-cons c (s ++ m) (append-IsFraction s m h)

-- Of two texts of digits, the lower one first and the upper one not ending in "0", the midpoint
-- exists, lies strictly between them and does not end in "0".
pub midpoint_between-Between :
    (a b : Text)
    → AreDigits a
    → AreDigits b
    → IsFraction b
    → text_lt a b ≡ true
    → Between a b (midpoint_between a b)
unfolding midpoint_between
midpoint_between-Between a b da db f h =
    let n = shared_prefix a b in
    let apart = shared_prefix-Apart a b da db f h in
    let rest =
      midpoint_differing-Between (drop n a) (drop n b) apart
        (All-drop (λ c. (v : ℕ) × (digit_value c ≡ some v)) n a da) in
    elim (Bool-cases (ltb 0 n)) [
      | inl shared ↦ record {
        text = take n b ++ rest.text;
        result =
            rw (midpoint_between, h, shared, Apart-below (drop n a) (drop n b) apart, rest.result)
              refl;
        above = prefix_above a b rest.text rest.above;
        below = prefix_below n b rest.text rest.below;
        fraction = append-IsFraction (take n b) rest.text rest.fraction;
      }
      | inr none_shared ↦
          let none : n ≡ 0 = omega (arith, ltb_false→le 0 n none_shared) in
          rw (midpoint_between, h, none_shared)
            (subst (λ k. Between (drop k a) (drop k b) (midpoint_differing (drop k a) (drop k b)))
              none rest)
    ]
