-- ===== src/Evaluate/Sorting/Transitive.antt =====
-- That the comparator of a view is transitive (`compareRows` of packages/engine/src/evaluate.ts).
use knowtion.Base.{
  ◌≡◌, refl, true, Option, none, some, List, [], ◌∷◌, Text, list_eq, nat_eq, compare, Ordering, inl,
  inr, Option-cases,
}
use knowtion.Base.Dict
use knowtion.Runtime.{Runtime}
use knowtion.Property.Dates.{compare_codepoints}
use knowtion.Query.Grammar.{Direction, SortField, title, created_at, updated_at, property, Sort}
use knowtion.Query.Problems.{Defs}
use knowtion.Evaluate.Matching.{QueryRow, value_of, fold_text}
use knowtion.Evaluate.Sorting.{
  then_by, SortOutcome, sort_step, effective_key, compare_on_sort, by_sorts, by_manual_order,
  compare_rows, compare_order,
}
use knowtion.Evaluate.Sorting.Order.{
  compare-flip, then_by-flip, compare_codepoints-flip, field_flip, by_sorts-flip, manual_flip,
}
use knowtion.Evaluate.Sorting.Passes.{
  le, Passes, then_by-Passes, compare-Passes, compare_codepoints-le, compare_order_keys-le,
}
use knowtion.Evaluate.Sorting.Keys.{
  HasWeakOrder, IsFiniteRow, order, directed-Passes, cells-Passes, shape_of, effective_key-Cell,
  folded_texts-Passes,
}

module _ (r : Runtime) (law : HasWeakOrder r) where
  open r use {Num}

  on_sort : Direction → SortField → Defs → QueryRow Num → QueryRow Num → Ordering
  on_sort d f defs a b =
      sort_step r (compare_on_sort r a b (record { field = f; direction = d }) defs) d

  same_always :
      (d : Direction)
      → let o = sort_step r (SortOutcome.compared Ordering.eq) d in
        le o ≡ true → le o ≡ true → le o ≡ true
  same_always d h k = h

  on_sort-Passes :
      (d : Direction) (f : SortField) (defs : Defs) → Passes (IsFiniteRow r) (on_sort d f defs)
  unfolding on_sort compare_on_sort
  on_sort-Passes d title defs =
      directed-Passes r law (IsFiniteRow r)
        (λ a b.
          then_by (compare_codepoints (fold_text r a.title) (fold_text r b.title))
            (compare_codepoints a.title b.title))
        d (λ a b. then_by-flip _ _ _ _ (compare_codepoints-flip _ _) (compare_codepoints-flip _ _))
        (λ a b c fa fb fc.
          folded_texts-Passes r law (fold_text r a.title, a.title) (fold_text r b.title, b.title)
            (fold_text r c.title, c.title) tt tt tt)
  on_sort-Passes d created_at defs =
      directed-Passes r law (IsFiniteRow r) (λ a b. compare a.created_at b.created_at) d
        (λ a b. compare-flip a.created_at b.created_at)
        (λ a b c fa fb fc. compare-Passes a.created_at b.created_at c.created_at)
  on_sort-Passes d updated_at defs =
      directed-Passes r law (IsFiniteRow r) (λ a b. compare a.updated_at b.updated_at) d
        (λ a b. compare-flip a.updated_at b.updated_at)
        (λ a b c fa fb fc. compare-Passes a.updated_at b.updated_at c.updated_at)
  on_sort-Passes d (property id) defs = λ a b c fa fb fc.
      elim (Option-cases (Dict.lookup id defs)) [
        | inl missing ↦ rw (missing, on_sort, compare_on_sort) (same_always d)
        | inr (def, found) ↦
            rw (found, on_sort, compare_on_sort)
              (cells-Passes r law (shape_of r law def.type) d
                (effective_key r def (value_of r a id)) (effective_key r def (value_of r b id))
                (effective_key r def (value_of r c id))
                (effective_key-Cell r law def (value_of r a id) (fa id))
                (effective_key-Cell r law def (value_of r b id) (fb id))
                (effective_key-Cell r law def (value_of r c id) (fc id)))
      ]

  by_sorts-Passes : (ss : List Sort) (defs : Defs) → Passes (IsFiniteRow r) (by_sorts r ss defs)
  unfolding by_sorts on_sort
  by_sorts-Passes [] defs = λ a b c fa fb fc h k. refl
  by_sorts-Passes (s ∷ ss) defs =
      then_by-Passes (IsFiniteRow r) (on_sort s.direction s.field defs) (by_sorts r ss defs)
        (λ a b. field_flip r (order r law) a b s.field s.direction defs)
        (on_sort-Passes s.direction s.field defs) (by_sorts-Passes ss defs)

  order_keys-le :
      (a b c : Option Text)
      → le (compare_order r a b) ≡ true
      → le (compare_order r b c) ≡ true
      → le (compare_order r a c) ≡ true
  order_keys-le none none c h k = k
  order_keys-le none (some b) c h k = cc
  order_keys-le (some a) b none h k = refl
  order_keys-le (some a) none (some c) h k = cc
  order_keys-le (some a) (some b) (some c) h k = compare_order_keys-le a b c h k

  manual-Passes : (view : Option Text) → Passes (IsFiniteRow r) (by_manual_order r view)
  unfolding by_manual_order
  manual-Passes none = λ a b c fa fb fc h k. refl
  manual-Passes (some view) = λ a b c fa fb fc.
      order_keys-le (Dict.lookup view a.order_keys) (Dict.lookup view b.order_keys)
        (Dict.lookup view c.order_keys)

  -- On rows whose numbers and instants are finite the comparator is transitive.
  pub compare_rows-Passes :
      (defs : Defs) (sorts : List Sort) (view : Option Text)
      → Passes (IsFiniteRow r) (compare_rows r defs sorts view)
  unfolding compare_rows
  compare_rows-Passes defs sorts view =
      then_by-Passes (IsFiniteRow r) (by_sorts r sorts defs) _
        (by_sorts-flip r (order r law) sorts defs) (by_sorts-Passes sorts defs)
        (then_by-Passes (IsFiniteRow r) (by_manual_order r view) _
          (manual_flip r (order r law) view) (manual-Passes view)
          (then_by-Passes (IsFiniteRow r) (λ a b. compare a.created_at b.created_at)
            (λ a b. compare_codepoints a.id b.id) (λ a b. compare-flip a.created_at b.created_at)
            (λ a b c fa fb fc. compare-Passes a.created_at b.created_at c.created_at)
            (λ a b c fa fb fc. compare_codepoints-le a.id b.id c.id)))
