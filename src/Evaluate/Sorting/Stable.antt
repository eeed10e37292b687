-- ===== src/Evaluate/Sorting/Stable.antt =====
-- The elements of a sorted list and their order.
use mathlib.Core.List.{Perm}
use mathlib.Core.List.Perm
use knowtion.Base.{◌≡◌, ◌≢◌, refl, ◌⊎◌, inl, inr, List, [], ◌∷◌, Ordering}
use knowtion.Evaluate.Sorting.{flip, insert_sorted, stable_sort}

Ordering-cases : (o : Ordering) → (o ≡ Ordering.lt) ⊎ (o ≡ Ordering.eq) ⊎ (o ≡ Ordering.gt)
Ordering-cases Ordering.lt = inl refl
Ordering-cases Ordering.eq = inr (inl refl)
Ordering-cases Ordering.gt = inr (inr refl)

not_gt_of_flip : (o o' : Ordering) → o' ≡ flip o → o ≢ Ordering.lt → o' ≢ Ordering.gt
not_gt_of_flip Ordering.lt o' e h = absurd (h refl)
not_gt_of_flip Ordering.eq o' e h = λ g. cc
not_gt_of_flip Ordering.gt o' e h = λ g. cc

module _ {ℓ} {A : Type ℓ} (cmp : A → A → Ordering) where
  insert-perm : (x : A) (ys : List A) → Perm (insert_sorted cmp x ys) (x ∷ ys)
  unfolding insert_sorted
  insert-perm x [] = Perm.refl (x ∷ [])
  insert-perm x (y ∷ ys) =
      elim (cmp y x)
        as (λ o.
          Perm (elim o [ Ordering.lt ↦ y ∷ insert_sorted cmp x ys | _ ↦ x ∷ y ∷ ys ])
            (x ∷ y ∷ ys)) [
              | Ordering.lt ↦ Perm.trans (Perm.cons y (insert-perm x ys)) (Perm.swap x y ys)
              | _ ↦ Perm.refl (x ∷ y ∷ ys)
            ]

  pub stable_sort-perm : (xs : List A) → Perm (stable_sort cmp xs) xs
  unfolding stable_sort
  stable_sort-perm [] = Perm.refl []
  stable_sort-perm (x ∷ xs) =
      Perm.trans (insert-perm x (stable_sort cmp xs)) (Perm.cons x (stable_sort-perm xs))

  -- No item is greater than the one after it.
  abbrev pub Below : A → List A → Type 0
  Below x [] = Unit
  Below x (y ∷ ys) = cmp x y ≢ Ordering.gt

  abbrev pub InOrder : List A → Type 0
  InOrder [] = Unit
  InOrder (x ∷ xs) = Below x xs × InOrder xs

  module _ (anti : (a b : A) → cmp b a ≡ flip (cmp a b)) where
    Below-insert :
        (z x : A) (ys : List A)
        → cmp z x ≢ Ordering.gt
        → Below z ys
        → Below z (insert_sorted cmp x ys)
    unfolding insert_sorted
    Below-insert z x [] h b = h
    Below-insert z x (y ∷ ys) h b =
        elim (cmp y x)
          as (λ o. Below z (elim o [ Ordering.lt ↦ y ∷ insert_sorted cmp x ys | _ ↦ x ∷ y ∷ ys ])) [
            | Ordering.lt ↦ b
            | _ ↦ h
          ]

    insert-InOrder : (x : A) (ys : List A) → InOrder ys → InOrder (insert_sorted cmp x ys)
    unfolding insert_sorted
    insert-InOrder x [] h = (tt, tt)
    insert-InOrder x (y ∷ ys) (b, h) = elim (Ordering-cases (cmp y x)) [
      | inl less ↦
          rw (less, insert_sorted)
            (Below-insert y x ys (λ e. cc (less, e)) b, insert-InOrder x ys h)
      | inr (inl same) ↦
          rw (same, insert_sorted)
            (not_gt_of_flip (cmp y x) (cmp x y) (anti y x) (λ e. cc (same, e)), (b, h))
      | inr (inr greater) ↦
          rw (greater, insert_sorted)
            (not_gt_of_flip (cmp y x) (cmp x y) (anti y x) (λ e. cc (greater, e)), (b, h))
    ]

    -- Under a comparator that answers oppositely when its arguments are exchanged, no element of the
    -- sorted list stands directly before one that the comparator puts ahead of it.
    pub stable_sort-InOrder : (xs : List A) → InOrder (stable_sort cmp xs)
    unfolding stable_sort
    stable_sort-InOrder [] = tt
    stable_sort-InOrder (x ∷ xs) = insert-InOrder x (stable_sort cmp xs) (stable_sort-InOrder xs)
