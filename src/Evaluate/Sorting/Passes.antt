-- ===== src/Evaluate/Sorting/Passes.antt =====
-- Comparators that are transitive on some items.
use knowtion.Base.{
  ℕ, ◌≡◌, refl, sym, subst, Bool, true, false, [], ◌∷◌, Text, list_eq, list_beq, nat_eq, compare,
  Ordering, arith,
}
use knowtion.Property.Dates.{compare_codepoints}
use knowtion.OrderKey.Compare.{compare_order_keys, text_lt}
use knowtion.Evaluate.Sorting.{flip, then_by}

-- The first is not ahead of the second the other way round.
abbrev pub le : Ordering → Bool
le Ordering.gt = false
le _ = true

module _ {A : Type 0} where
  abbrev pub Flips : (A → A → Ordering) → Type 0
  Flips cmp = (a b : A) → cmp b a ≡ flip (cmp a b)

  -- Transitive on the items that satisfy `P`.
  abbrev pub Passes : (A → Type 0) → (A → A → Ordering) → Type 0
  Passes P cmp =
      (a b c : A)
      → P a
      → P b
      → P c
      → le (cmp a b) ≡ true
      → le (cmp b c) ≡ true
      → le (cmp a c) ≡ true

then_by-le :
    (x y z x' y' z' : Ordering)
    → (le x ≡ true → le y ≡ true → le z ≡ true)
    → (le (flip z) ≡ true → le x ≡ true → le (flip y) ≡ true)
    → (le y ≡ true → le (flip z) ≡ true → le (flip x) ≡ true)
    → (le x' ≡ true → le y' ≡ true → le z' ≡ true)
    → le (then_by x x') ≡ true
    → le (then_by y y') ≡ true
    → le (then_by z z') ≡ true
then_by-le x y z x' y' z' p1 p2 p3 p4 h k = ground arith

pub then_by-Passes :
    {A : Type 0} (P : A → Type 0) (f g : A → A → Ordering)
    → Flips f
    → Passes P f
    → Passes P g
    → Passes P (λ a b. then_by (f a b) (g a b))
then_by-Passes P f g flips pf pg a b c pa pb pc =
    then_by-le (f a b) (f b c) (f a c) (g a b) (g b c) (g a c) (pf a b c pa pb pc)
      (λ h k.
        subst (λ o. le o ≡ true) (flips b c)
          (pf c a b pc pa pb (subst (λ o. le o ≡ true) (sym (flips a c)) h) k))
      (λ h k.
        subst (λ o. le o ≡ true) (flips a b)
          (pf b c a pb pc pa h (subst (λ o. le o ≡ true) (sym (flips a c)) k)))
      (pg a b c pa pb pc)

pub compare-Passes :
    (a b c : ℕ) → le (compare a b) ≡ true → le (compare b c) ≡ true → le (compare a c) ≡ true
compare-Passes a b c h k = ground arith

pub compare_codepoints-le :
    (a b c : Text)
    → le (compare_codepoints a b) ≡ true
    → le (compare_codepoints b c) ≡ true
    → le (compare_codepoints a c) ≡ true
unfolding compare_codepoints
compare_codepoints-le [] [] c h k = k
compare_codepoints-le [] (_ ∷ _) [] h k = refl
compare_codepoints-le [] (_ ∷ _) (_ ∷ _) h k = refl
compare_codepoints-le (x ∷ xs) [] c h k = cc
compare_codepoints-le (x ∷ xs) (y ∷ ys) [] h k = cc
compare_codepoints-le (x ∷ xs) (y ∷ ys) (z ∷ zs) h k =
    ground (arith, compare_codepoints-le xs ys zs)

compare_order_keys_lem : (a b : Text) → compare_order_keys a b ≡ compare_codepoints a b
unfolding compare_order_keys compare_codepoints text_lt list_beq
compare_order_keys_lem [] [] = refl
compare_order_keys_lem [] (_ ∷ _) = refl
compare_order_keys_lem (_ ∷ _) [] = refl
compare_order_keys_lem (x ∷ xs) (y ∷ ys) = ground (arith, compare_order_keys_lem xs ys)

pub compare_order_keys-le :
    (a b c : Text)
    → le (compare_order_keys a b) ≡ true
    → le (compare_order_keys b c) ≡ true
    → le (compare_order_keys a c) ≡ true
compare_order_keys-le a b c =
    rw (compare_order_keys_lem a b, compare_order_keys_lem b c, compare_order_keys_lem a c)
      (compare_codepoints-le a b c)
