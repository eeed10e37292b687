-- ===== src/Evaluate/View/Rows.antt =====
-- The rows of an evaluated view.
use mathlib.Core.List.{Perm}
use knowtion.Base.{
  ◌≡◌, ◌≢◌, refl, Bool, true, false, append-eq-nil, Option, none, some, filter, List, [], ◌∷◌, Text,
}
use knowtion.Runtime.{Runtime}
use knowtion.Property.Values.{PropertyDef}
use knowtion.Query.Grammar.{Filter, StoredFilter, ViewSpec}
use knowtion.Query.Problems.{QueryProblem, keep_filter, by_id, problems_of_filter, sanitise_spec}
use knowtion.Query.Rewrite.{QueryContext, resolve_dates, ◌>>=◌}
use knowtion.Evaluate.Matching.{QueryRow, matches_filter}
use knowtion.Evaluate.Sorting.{compare_rows, stable_sort}
use knowtion.Evaluate.Sorting.Stable.{stable_sort-perm}
use knowtion.Evaluate.Sorting.Sorted.{Sorted}
use knowtion.Evaluate.View.{EvaluatedQuery, groups_of, matching_rows, evaluate_query}

not_kept :
    (r : Runtime) (problems : List QueryProblem) (stored : Option (StoredFilter r.Num))
    → problems ≢ []
    → keep_filter r problems stored ≡ none
not_kept r [] stored h = absurd (h refl)
not_kept r (p ∷ ps) stored h = refl

module _ (r : Runtime) where
  open r use {Num}

  -- The filter that a view applies, its dates resolved; none is no filter. Resolving may throw.
  abbrev pub applied_filter :
      QueryContext Num → Option (StoredFilter Num) → Option (Option (Filter Num))
  applied_filter ctx none = some none
  applied_filter ctx (some stored) = resolve_dates r stored.expr ctx >>= λ f. some (some f)

  abbrev pub shows : List PropertyDef → Option (Filter Num) → QueryRow Num → Bool
  shows defs none row = true
  shows defs (some f) row = matches_filter r row f (by_id defs)

module _ (r : Runtime) (rows : List (QueryRow r.Num)) (defs : List PropertyDef)
    (spec : ViewSpec r.Num) (ctx : QueryContext r.Num) (view : Option Text) where
  open r use {Num}

  -- What is shown of the rows that are let through.
  abbrev sorted_view : List (QueryRow Num) → EvaluatedQuery Num
  sorted_view matching =
      let clean = sanitise_spec r defs spec in
      let sorted = stable_sort (compare_rows r (by_id defs) clean.spec.sorts view) matching in
      record {
        rows = sorted;
        groups = groups_of r clean.spec.group_by (by_id defs) sorted;
        warnings = clean.warnings;
      }

  -- With any problem in its filter a view is shown all the same, with every row, and with a warning.
  pub evaluate_query-broken_filter :
      problems_of_filter r spec.filter (by_id defs) false ≢ []
      → (v : EvaluatedQuery Num) × (evaluate_query r rows defs spec ctx view ≡ some v)
        × Perm v.rows rows
        × (v.warnings ≢ [])
  unfolding evaluate_query sanitise_spec matching_rows
  evaluate_query-broken_filter h =
      let problems = problems_of_filter r spec.filter (by_id defs) false in
      let dropped : (sanitise_spec r defs spec).spec.filter ≡ none =
        not_kept r problems spec.filter h in
      (
        sorted_view rows,
        rw (dropped, matching_rows) refl,
        stable_sort-perm (compare_rows r (by_id defs) _ view) rows,
        λ none_warned. h ((append-eq-nil problems _ (append-eq-nil _ _ none_warned).1).0),
      )
