-- ===== src/Evaluate/Sorting/Order.antt =====
-- The comparator of a view with its arguments exchanged.
use native.Mathlib.Decide.{ℕ_discrete}
use knowtion.Base.{
  ℕ, ◌≡◌, refl, true, false, not, Option, none, some, List, [], ◌∷◌, Text, ◌==◌, list_eq,
  list_beq_iff, nat_eq, compare, Ordering, arith, ◌≢◌, ap, inl, inr, Bool-cases, Option-cases,
}
use knowtion.Base.Dict
use knowtion.Runtime.{Runtime}
use knowtion.Property.Dates.{compare_codepoints}
use knowtion.Query.Grammar.{
  Direction, asc, desc, SortField, title, created_at, updated_at, property, Sort,
}
use knowtion.Query.Problems.{Defs}
use knowtion.OrderKey.Compare.{compare_order_keys, text_lt}
use knowtion.Evaluate.Matching.{QueryRow}
use knowtion.Evaluate.Sorting.{
  SortKey, num, position, plain, folded, SortOutcome, flip, then_by, compare_num, compare_keys,
  compare_cells, compare_on_sort, sort_step, by_sorts, compare_order, by_manual_order, compare_rows,
  effective_key,
}

-- Two numbers are not each below the other.
pub record HasOrder (r : Runtime) : Type 0 where
  pub num_lt_asym : (a b : r.Num) → r.num_lt a b ≡ true → r.num_lt b a ≡ false

pub compare-flip : (a b : ℕ) → compare b a ≡ flip (compare a b)
compare-flip a b = ground arith

pub then_by-flip :
    (o p o' p' : Ordering) → o' ≡ flip o → p' ≡ flip p → then_by o' p' ≡ flip (then_by o p)
then_by-flip o p o' p' e f = ground arith

pub compare_codepoints-flip : (a b : Text) → compare_codepoints b a ≡ flip (compare_codepoints a b)
unfolding compare_codepoints
compare_codepoints-flip [] [] = refl
compare_codepoints-flip [] (_ ∷ _) = refl
compare_codepoints-flip (_ ∷ _) [] = refl
compare_codepoints-flip (x ∷ xs) (y ∷ ys) = ground (arith, compare_codepoints-flip xs ys)

-- Of two different texts exactly one is below the other.
text_lt_total : (a b : Text) → a ≢ b → text_lt b a ≡ not (text_lt a b)
unfolding text_lt
text_lt_total [] [] h = absurd (h refl)
text_lt_total [] (_ ∷ _) h = refl
text_lt_total (_ ∷ _) [] h = refl
text_lt_total (x ∷ xs) (y ∷ ys) h = elim (ℕ_discrete x y) [
  | yes e ↦ ground (arith, text_lt_total xs ys (λ f. h (cc)))
  | no n ↦ ground arith
]

compare_order_keys-flip : (a b : Text) → compare_order_keys b a ≡ flip (compare_order_keys a b)
unfolding compare_order_keys
compare_order_keys-flip a b = elim (Bool-cases (a == b)) [
  | inl e ↦ ground (arith, list_beq_iff a b, list_beq_iff b a)
  | inr n ↦ ground (
    arith,
    list_beq_iff a b,
    list_beq_iff b a,
    text_lt_total a b (λ e. cc (n, (list_beq_iff a b).1 e)),
  )
]

module _ (r : Runtime) (law : HasOrder r) where
  open r use {Num}

  compare_num-flip : (a b : Num) → compare_num r b a ≡ flip (compare_num r a b)
  unfolding compare_num
  compare_num-flip a b = ground (arith, law.num_lt_asym a b, law.num_lt_asym b a)

  pub compare_keys-flip : (a b : SortKey Num) → compare_keys r b a ≡ flip (compare_keys r a b)
  unfolding compare_keys
  compare_keys-flip (num a) (num b) = compare_num-flip a b
  compare_keys-flip (position a) (position b) = compare-flip a b
  compare_keys-flip (plain a) (plain b) = compare_codepoints-flip a b
  compare_keys-flip (folded a a') (folded b b') =
      then_by-flip _ _ _ _ (compare_codepoints-flip a b) (compare_codepoints-flip a' b')
  compare_keys-flip (num a) _ = refl
  compare_keys-flip (position a) _ = refl
  compare_keys-flip (plain a) _ = refl
  compare_keys-flip (folded a a') _ = refl

  cells_flip :
      (ka kb : Option (SortKey Num)) (d : Direction)
      → sort_step r (compare_cells r kb ka) d ≡ flip (sort_step r (compare_cells r ka kb) d)
  unfolding sort_step
  cells_flip none none d = refl
  cells_flip none (some kb) d = refl
  cells_flip (some ka) none d = refl
  cells_flip (some ka) (some kb) asc = compare_keys-flip ka kb
  cells_flip (some ka) (some kb) desc = ap flip (compare_keys-flip ka kb)

  compared_flip :
      (o p : Ordering) (d : Direction)
      → p ≡ flip o
      → sort_step r (SortOutcome.compared p) d ≡ flip (sort_step r (SortOutcome.compared o) d)
  unfolding sort_step
  compared_flip o p asc e = e
  compared_flip o p desc e = ap flip e

  pub field_flip :
      (a b : QueryRow Num) (f : SortField) (d : Direction) (defs : Defs)
      → sort_step r (compare_on_sort r b a (record { field = f; direction = d }) defs) d
        ≡ flip (sort_step r (compare_on_sort r a b (record { field = f; direction = d }) defs) d)
  unfolding compare_on_sort
  field_flip a b title d defs =
      compared_flip _ _ d
        (then_by-flip _ _ _ _ (compare_codepoints-flip _ _) (compare_codepoints-flip _ _))
  field_flip a b created_at d defs = compared_flip _ _ d (compare-flip a.created_at b.created_at)
  field_flip a b updated_at d defs = compared_flip _ _ d (compare-flip a.updated_at b.updated_at)
  field_flip a b (property id) d defs = elim (Option-cases (Dict.lookup id defs)) [
    | inl missing ↦ rw (missing, compare_on_sort) (compared_flip Ordering.eq Ordering.eq d refl)
    | inr (def, found) ↦
        rw (found, compare_on_sort) (cells_flip (effective_key r def _) (effective_key r def _) d)
  ]

  pub by_sorts-flip :
      (ss : List Sort) (defs : Defs) (a b : QueryRow Num)
      → by_sorts r ss defs b a ≡ flip (by_sorts r ss defs a b)
  unfolding by_sorts
  by_sorts-flip [] defs a b = refl
  by_sorts-flip (s ∷ ss) defs a b =
      then_by-flip _ _ _ _ (field_flip a b s.field s.direction defs) (by_sorts-flip ss defs a b)

  pub manual_flip :
      (view : Option Text) (a b : QueryRow Num)
      → by_manual_order r view b a ≡ flip (by_manual_order r view a b)
  unfolding by_manual_order
  manual_flip none a b = refl
  manual_flip (some view) a b =
      order_flip (Dict.lookup view a.order_keys) (Dict.lookup view b.order_keys)
    where
      order_flip : (ka kb : Option Text) → compare_order r kb ka ≡ flip (compare_order r ka kb)
      order_flip none none = refl
      order_flip none (some kb) = refl
      order_flip (some ka) none = refl
      order_flip (some ka) (some kb) = compare_order_keys-flip ka kb

-- Comparing two rows the other way round gives the opposite answer, whatever the sorts and the view.
pub compare_rows-flip :
    (r : Runtime) (law : HasOrder r) (defs : Defs) (sorts : List Sort) (view : Option Text)
    (a b : QueryRow r.Num)
    → compare_rows r defs sorts view b a ≡ flip (compare_rows r defs sorts view a b)
unfolding compare_rows
compare_rows-flip r law defs sorts view a b =
    then_by-flip _ _ _ _ (by_sorts-flip r law sorts defs a b) (
      then_by-flip _ _ _ _ (manual_flip r law view a b) (
        then_by-flip _ _ _ _ (compare-flip a.created_at b.created_at)
          (compare_codepoints-flip a.id b.id)))
