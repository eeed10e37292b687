-- ===== src/Query/Sanitise.antt =====
-- How the write path's check and the read path's repair fit together.
use knowtion.Base.{
  ℕ, ◌+◌, ◌≡◌, refl, ap, inl, inr, true, false, Option, none, some, List, [], ◌∷◌, ◌++◌,
  append-eq-nil, Text, list_eq, nat_eq, arith, Option-cases,
}
use knowtion.Base.Dict
use knowtion.Runtime.{Runtime}
use knowtion.Property.Values.{PropertyDef}
use knowtion.Query.Grammar.{
  LeafTest, on, relative, FilterLeaf, Filter, conj, disj, negate, leaf, Clauses, nil, cons,
  StoredFilter, Sort, ViewSpec,
}
use knowtion.Query.Problems.{
  PathStep, Defs, by_id, to_list, sort_problem, sort_problems, good_sorts, group_problems,
  good_group, operand_problems, leaf_problems, filter_problems, clauses_problems,
  stored_filter_problems, problems_of_filter, keep_sort, keep_filter, validate_spec, sanitise_spec,
}

-- Whether a sort is refused does not depend on where it stands.
sort_problem_anywhere :
    (s : Sort) (p q : List PathStep) (defs : Defs)
    → sort_problem s p defs ≡ none
    → sort_problem s q defs ≡ none
unfolding sort_problem
sort_problem_anywhere s p q defs h = ground arith

good_sorts_clean :
    (i j : ℕ) (ss : List Sort) (defs : Defs) → sort_problems i (good_sorts j ss defs) defs ≡ []
unfolding sort_problems good_sorts
good_sorts_clean i j [] defs = refl
good_sorts_clean i j (s ∷ ss) defs =
    elim (Option-cases (sort_problem s (PathStep.sorts j ∷ []) defs)) [
      | inl fine ↦
          rw (fine, keep_sort, sort_problems)
            (rw (sort_problem_anywhere s _ (PathStep.sorts i ∷ []) defs fine)
              (good_sorts_clean (i + 1) (j + 1) ss defs))
      | inr (p, bad) ↦ rw (bad, keep_sort) (good_sorts_clean i (j + 1) ss defs)
    ]

sorts_kept :
    (i j : ℕ) (ss : List Sort) (defs : Defs)
    → sort_problems i ss defs ≡ []
    → good_sorts j ss defs ≡ ss
unfolding sort_problems good_sorts
sorts_kept i j [] defs h = refl
sorts_kept i j (s ∷ ss) defs h =
    let (first, rest) = append-eq-nil (to_list (sort_problem s (PathStep.sorts i ∷ []) defs)) _ h in
    let fine : sort_problem s (PathStep.sorts i ∷ []) defs ≡ none = ground arith in
    rw (sort_problem_anywhere s _ (PathStep.sorts j ∷ []) defs fine)
      (ap (◌∷◌ s) (sorts_kept (i + 1) (j + 1) ss defs rest))

group_clean : (g : Option Text) (defs : Defs) → group_problems (good_group g defs) defs ≡ []
unfolding group_problems
group_clean none defs = refl
group_clean (some id) defs = ground arith

group_kept : (g : Option Text) (defs : Defs) → group_problems g defs ≡ [] → good_group g defs ≡ g
unfolding group_problems
group_kept none defs h = refl
group_kept (some id) defs h = ground arith

module _ (r : Runtime) where
  open r use {Num}

  operand_lenient :
      (t : LeafTest Num) (path : List PathStep) (def : PropertyDef)
      → operand_problems r t path def true ≡ []
      → operand_problems r t path def false ≡ []
  unfolding operand_problems
  operand_lenient (LeafTest.date op (on day)) path def h = h
  operand_lenient (LeafTest.date op (relative days)) path def h = h
  operand_lenient (LeafTest.option op id) path def h = refl
  operand_lenient (LeafTest.number op n) path def h = h
  operand_lenient _ path def h = refl

  leaf_lenient :
      (l : FilterLeaf Num) (path : List PathStep) (defs : Defs)
      → leaf_problems r l path defs true ≡ []
      → leaf_problems r l path defs false ≡ []
  unfolding leaf_problems
  leaf_lenient l path defs h = elim (Option-cases (Dict.lookup l.property defs)) [
    | inl missing ↦ cc (rw (missing, leaf_problems) at h)
    | inr (def, found) ↦ ground (arith, operand_lenient l.test path def)
  ]

  mutual
    unfolding filter_problems

    filter_lenient :
        (f : Filter Num) (path : List PathStep) (defs : Defs)
        → filter_problems r f path defs true ≡ []
        → filter_problems r f path defs false ≡ []
    filter_lenient (conj cs) path defs h = clauses_lenient cs 0 path defs h
    filter_lenient (disj cs) path defs h = clauses_lenient cs 0 path defs h
    filter_lenient (negate f) path defs h = filter_lenient f _ defs h
    filter_lenient (leaf l) path defs h = leaf_lenient l path defs h

    clauses_lenient :
        (cs : Clauses Num) (i : ℕ) (path : List PathStep) (defs : Defs)
        → clauses_problems r cs i path defs true ≡ []
        → clauses_problems r cs i path defs false ≡ []
    clauses_lenient nil i path defs h = refl
    clauses_lenient (cons f cs) i path defs h =
        let (first, rest) =
          append-eq-nil (filter_problems r f (path ++ PathStep.clauses i ∷ []) defs true) _ h in
        rw (filter_lenient f _ defs first) (clauses_lenient cs (i + 1) path defs rest)

  stored_lenient :
      (stored : Option (StoredFilter Num)) (defs : Defs)
      → problems_of_filter r stored defs true ≡ []
      → problems_of_filter r stored defs false ≡ []
  unfolding problems_of_filter stored_filter_problems
  stored_lenient none defs h = refl
  stored_lenient (some stored) defs h =
      ground (arith, filter_lenient stored.expr (PathStep.filter ∷ []) defs)

  keep_clean :
      (stored : Option (StoredFilter Num)) (defs : Defs)
      → problems_of_filter r
          (keep_filter r (problems_of_filter r stored defs false) stored)
          defs
          false
        ≡ []
  unfolding problems_of_filter
  keep_clean none defs = refl
  keep_clean (some stored) defs = ground arith

-- A spec that the write path accepts, and that is not marked as holding an unreadable filter, is run as
-- it stands, with no warning.
pub sanitise_spec_of_valid :
    (r : Runtime) (defs : List PropertyDef) (spec : ViewSpec r.Num)
    → validate_spec r defs spec ≡ []
    → spec.unreadable_filter ≡ false
    → sanitise_spec r defs spec ≡ record { spec = spec; warnings = [] }
unfolding validate_spec sanitise_spec
sanitise_spec_of_valid r defs spec h readable =
    let (f, more) = append-eq-nil (problems_of_filter r spec.filter (by_id defs) true) _ h in
    let (s, g) = append-eq-nil (sort_problems 0 spec.sorts (by_id defs)) _ more in
    ground (
      arith,
      stored_lenient r spec.filter (by_id defs) f,
      sorts_kept 0 0 spec.sorts (by_id defs) s,
      group_kept spec.group_by (by_id defs) g,
    )

-- What the read path runs has no problem left: sanitising it again changes nothing and warns of nothing.
pub sanitise_spec_idem :
    (r : Runtime) (defs : List PropertyDef) (spec : ViewSpec r.Num)
    → sanitise_spec r defs (sanitise_spec r defs spec).spec
      ≡ record { spec = (sanitise_spec r defs spec).spec; warnings = [] }
unfolding sanitise_spec
sanitise_spec_idem r defs spec = ground (
  arith,
  keep_clean r spec.filter (by_id defs),
  good_sorts_clean 0 0 spec.sorts (by_id defs),
  sorts_kept 0 0 (good_sorts 0 spec.sorts (by_id defs)) (by_id defs)
      (good_sorts_clean 0 0 spec.sorts (by_id defs)),
  group_clean spec.group_by (by_id defs),
  group_kept (good_group spec.group_by (by_id defs)) (by_id defs)
      (group_clean spec.group_by (by_id defs)),
)
