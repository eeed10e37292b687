-- ===== src/Evaluate/Sorting/Sorted.antt =====
-- Sorting by a transitive comparator orders every pair of items, not only neighbours.
use knowtion.Base.{
  ◌≡◌, ◌≢◌, refl, Bool, true, false, if◌then◌else◌, All, filter, List, [], ◌∷◌, Ordering,
}
use knowtion.Evaluate.Sorting.{insert_sorted, stable_sort}
use knowtion.Evaluate.Sorting.Stable.{InOrder, stable_sort-InOrder}
use knowtion.Evaluate.Sorting.Passes.{le, Flips, Passes}

le_of_not_gt : (o : Ordering) → o ≢ Ordering.gt → le o ≡ true
le_of_not_gt Ordering.lt h = refl
le_of_not_gt Ordering.eq h = refl
le_of_not_gt Ordering.gt h = absurd (h refl)

not_gt_of_le : (o : Ordering) → le o ≡ true → o ≢ Ordering.gt
not_gt_of_le Ordering.lt h = λ e. cc
not_gt_of_le Ordering.eq h = λ e. cc
not_gt_of_le Ordering.gt h = cc

module _ {A : Type 0} (P : A → Type 0) where
  All-if : (b : Bool) (x : A) (xs : List A) → P x → All P xs → All P (if b then x ∷ xs else xs)
  All-if true x xs p h = (p, h)
  All-if false x xs p h = h

  pub All-filter : (keep : A → Bool) (xs : List A) → All P xs → All P (filter keep xs)
  All-filter keep [] h = tt
  All-filter keep (x ∷ xs) (p, h) = All-if (keep x) x (filter keep xs) p (All-filter keep xs h)

module _ {A : Type 0} (cmp : A → A → Ordering) where
  -- No item anywhere before one that the comparator puts ahead of it.
  abbrev pub Sorted : List A → Type 0
  Sorted [] = Unit
  Sorted (x ∷ xs) = All (λ y. cmp x y ≢ Ordering.gt) xs × Sorted xs

module _ {A : Type 0} (P : A → Type 0) (cmp : A → A → Ordering) where
  All-insert : (x : A) (ys : List A) → P x → All P ys → All P (insert_sorted cmp x ys)
  unfolding insert_sorted
  All-insert x [] p h = (p, tt)
  All-insert x (y ∷ ys) p (q, h) =
      elim (cmp y x)
        as (λ o. All P (elim o [ Ordering.lt ↦ y ∷ insert_sorted cmp x ys | _ ↦ x ∷ y ∷ ys ])) [
          | Ordering.lt ↦ (q, All-insert x ys p h)
          | _ ↦ (p, (q, h))
        ]

  All-stable_sort : (xs : List A) → All P xs → All P (stable_sort cmp xs)
  unfolding stable_sort
  All-stable_sort [] h = tt
  All-stable_sort (x ∷ xs) (p, h) = All-insert x (stable_sort cmp xs) p (All-stable_sort xs h)

  module _ (passes : Passes P cmp) where
    passed_on :
        (x y : A) (zs : List A)
        → P x
        → P y
        → All P zs
        → cmp x y ≢ Ordering.gt
        → All (λ z. cmp y z ≢ Ordering.gt) zs
        → All (λ z. cmp x z ≢ Ordering.gt) zs
    passed_on x y [] px py h xy yz = tt
    passed_on x y (z ∷ zs) px py (pz, h) xy (yz, k) = (
      not_gt_of_le (cmp x z)
          (passes x y z px py pz (le_of_not_gt (cmp x y) xy) (le_of_not_gt (cmp y z) yz)),
      passed_on x y zs px py h xy k,
    )

    Sorted-InOrder : (xs : List A) → All P xs → InOrder cmp xs → Sorted cmp xs
    Sorted-InOrder [] h o = tt
    Sorted-InOrder (x ∷ []) h o = (tt, tt)
    Sorted-InOrder (x ∷ y ∷ ys) (px, (py, h)) (xy, o) =
        let rest = Sorted-InOrder (y ∷ ys) (py, h) o in
        ((xy, passed_on x y ys px py h xy rest.0), rest)

    pub stable_sort-Sorted : Flips cmp → (xs : List A) → All P xs → Sorted cmp (stable_sort cmp xs)
    stable_sort-Sorted flips xs h =
        Sorted-InOrder (stable_sort cmp xs) (All-stable_sort xs h)
          (stable_sort-InOrder cmp flips xs)
