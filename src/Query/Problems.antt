-- ===== src/Query/Problems.antt =====
-- What may be wrong with a view's spec: `validateSpec` on the write path, `sanitiseSpec` on the read path.
use knowtion.Base.{
  ℕ, ◌+◌, Bool, true, false, not, ◌&&◌, Option, none, some, List, [], ◌∷◌, ◌++◌, length, any, Text,
  ltb, ◌==◌, list_eq, nat_eq, if◌then◌else◌,
}
use knowtion.Base.Dict
use knowtion.Base.Dict.{Dict}
use knowtion.Runtime.{Runtime}
use knowtion.Property.Values.{PropertyDef}
use knowtion.Property.Dates.{is_calendar_date}
use knowtion.Query.Grammar.{
  on, relative, LeafTest, FilterLeaf, Filter, conj, disj, negate, leaf, Clauses, nil, cons,
  StoredFilter, property, Sort, ViewSpec, allows, op_of, sortable, groupable, max_filter_depth,
  max_filter_leaves, max_relative_days, query_spec_version, filter_leaves, depth_of,
}

-- Where in the spec: `filter.clauses[1]` is `filter ∷ clauses 1 ∷ []`.
pub data PathStep : Type 0 where
  filter clause group_by : PathStep
  clauses sorts : ℕ → PathStep

pub data ProblemCode : Type 0 where
  malformed unsupported_version unknown_property op_not_allowed bad_operand : ProblemCode
  unsortable ungroupable too_deep too_many_leaves : ProblemCode

pub record QueryProblem : Type 0 where
  pub path : List PathStep
  pub code : ProblemCode

abbrev pub Defs : Type 0
Defs = Dict Text PropertyDef

-- `new Map(defs.map((def) => [def.id, def]))`
unfoldable pub index_onto : Defs → List PropertyDef → Defs
index_onto index [] = index
index_onto index (def ∷ defs) = index_onto (Dict.insert def.id def index) defs

unfoldable pub by_id : List PropertyDef → Defs
unfolding index_onto
by_id defs = index_onto [] defs

abbrev pub problem : List PathStep → ProblemCode → List QueryProblem
problem path code = record { path = path; code = code } ∷ []

abbrev pub unless : Bool → List QueryProblem → List QueryProblem
unless true ps = []
unless false ps = ps

-- `if (problem !== undefined) problems.push(problem)`
abbrev pub to_list : Option QueryProblem → List QueryProblem
to_list none = []
to_list (some p) = p ∷ []

unfoldable pub sort_problem : Sort → List PathStep → Defs → Option QueryProblem
sort_problem sort path defs = elim sort.field [
  | property id ↦ elim (Dict.lookup id defs) [
    | none ↦ some (record { path = path; code = ProblemCode.unknown_property })
    | some def ↦
        if sortable def.type
        then none
        else some (record { path = path; code = ProblemCode.unsortable })
  ]
  | _ ↦ none
]

unfoldable pub group_problem : Text → Defs → Option QueryProblem
group_problem id defs = elim (Dict.lookup id defs) [
  | none ↦ some (record { path = group_by ∷ []; code = ProblemCode.unknown_property })
  | some def ↦
      if groupable def.type
      then none
      else some (record { path = group_by ∷ []; code = ProblemCode.ungroupable })
]

-- The sorts from the `i`-th on, with the problems of each.
unfoldable pub sort_problems : ℕ → List Sort → Defs → List QueryProblem
sort_problems i [] defs = []
sort_problems i (s ∷ ss) defs =
    to_list (sort_problem s (sorts i ∷ []) defs) ++ sort_problems (i + 1) ss defs

abbrev pub keep_sort : Option QueryProblem → Sort → List Sort → List Sort
keep_sort none s rest = s ∷ rest
keep_sort (some _) s rest = rest

unfoldable pub good_sorts : ℕ → List Sort → Defs → List Sort
good_sorts i [] defs = []
good_sorts i (s ∷ ss) defs =
    keep_sort (sort_problem s (sorts i ∷ []) defs) s (good_sorts (i + 1) ss defs)

unfoldable pub group_problems : Option Text → Defs → List QueryProblem
group_problems none defs = []
group_problems (some id) defs = to_list (group_problem id defs)

abbrev pub good_group : Option Text → Defs → Option Text
good_group none defs = none
good_group (some id) defs = elim (group_problem id defs) [ none ↦ some id | some _ ↦ none ]

module _ (r : Runtime) where
  open r use {Num}

  -- The operand of an allowed operator. `strict` is the write-time rule.
  unfoldable pub operand_problems :
      LeafTest Num → List PathStep → PropertyDef → Bool → List QueryProblem
  operand_problems (LeafTest.number op value) path def strict =
      unless (r.is_finite value) (problem path ProblemCode.bad_operand)
  operand_problems (LeafTest.option op id) path def strict =
      unless (not (strict && not (any (λ o. o.id == id) def.options)))
        (problem path ProblemCode.bad_operand)
  operand_problems (LeafTest.date op (on day)) path def strict =
      unless (is_calendar_date day) (problem path ProblemCode.bad_operand)
  operand_problems (LeafTest.date op (relative days)) path def strict =
      unless (r.abs_le days max_relative_days) (problem path ProblemCode.bad_operand)
  operand_problems _ path def strict = []

  unfoldable pub leaf_problems : FilterLeaf Num → List PathStep → Defs → Bool → List QueryProblem
  leaf_problems l path defs strict = elim (Dict.lookup l.property defs) [
    | none ↦ problem path ProblemCode.unknown_property
    | some def ↦
        if not (allows def.type (op_of l.test))
        then problem path ProblemCode.op_not_allowed
        else operand_problems l.test path def strict
  ]

  unfoldable mutual
    pub filter_problems : Filter Num → List PathStep → Defs → Bool → List QueryProblem
    filter_problems (conj cs) path defs strict = clauses_problems cs 0 path defs strict
    filter_problems (disj cs) path defs strict = clauses_problems cs 0 path defs strict
    filter_problems (negate f) path defs strict =
        filter_problems f (path ++ clause ∷ []) defs strict
    filter_problems (leaf l) path defs strict = leaf_problems l path defs strict

    pub clauses_problems : Clauses Num → ℕ → List PathStep → Defs → Bool → List QueryProblem
    clauses_problems nil i path defs strict = []
    clauses_problems (cons f cs) i path defs strict =
        filter_problems f (path ++ clauses i ∷ []) defs strict
        ++ clauses_problems cs (i + 1) path defs strict

  unfoldable pub stored_filter_problems : StoredFilter Num → Defs → Bool → List QueryProblem
  stored_filter_problems stored defs strict =
      if r.num_lt (r.of_nat query_spec_version) stored.v
      then problem (filter ∷ []) ProblemCode.unsupported_version
      else if ltb max_filter_depth (depth_of stored.expr)
      then problem (filter ∷ []) ProblemCode.too_deep
      else if ltb max_filter_leaves (length (filter_leaves stored.expr))
      then problem (filter ∷ []) ProblemCode.too_many_leaves
      else filter_problems stored.expr (filter ∷ []) defs strict

  unfoldable pub problems_of_filter : Option (StoredFilter Num) → Defs → Bool → List QueryProblem
  problems_of_filter none defs strict = []
  problems_of_filter (some stored) defs strict = stored_filter_problems stored defs strict

  -- Every problem of a spec, for the write path.
  unfoldable pub validate_spec : List PropertyDef → ViewSpec Num → List QueryProblem
  validate_spec defs spec =
      let index = by_id defs in
      problems_of_filter spec.filter index true
      ++ (sort_problems 0 spec.sorts index ++ group_problems spec.group_by index)

  -- `if (problems.length === 0) out.filter = spec.filter;`
  abbrev pub keep_filter : List QueryProblem → Option (StoredFilter Num) → Option (StoredFilter Num)
  keep_filter [] stored = stored
  keep_filter (_ ∷ _) stored = none

  abbrev pub Sanitised : Type 0
  Sanitised = record { spec : ViewSpec Num; warnings : List QueryProblem }

  -- The spec that is run, and what was dropped from it.
  unfoldable pub sanitise_spec : List PropertyDef → ViewSpec Num → Sanitised
  sanitise_spec defs spec =
      let index = by_id defs in
      let problems = problems_of_filter spec.filter index false in
      record {
        spec = record {
          filter = keep_filter problems spec.filter;
          unreadable_filter = false;
          sorts = good_sorts 0 spec.sorts index;
          group_by = good_group spec.group_by index;
        };
        warnings =
            (if spec.unreadable_filter then problem (filter ∷ []) ProblemCode.malformed else [])
            ++ (problems
                ++ (sort_problems 0 spec.sorts index ++ group_problems spec.group_by index));
      }
