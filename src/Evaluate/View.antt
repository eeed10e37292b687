-- ===== src/Evaluate/View.antt =====
-- Running a view: filter, sort and group (`groupKeyOf`, `orderGroupKeys`, `evaluateQuery`).
pub mod Groups
pub mod Rows
use knowtion.Base.{
  ℕ, ◌≡◌, Bool, true, false, not, ◌&&◌, Option, none, some, List, [], ◌∷◌, ◌++◌, map, any, filter,
  Text, ◌==◌, list_eq, nat_eq, contains, if◌then◌else◌,
}
use knowtion.Base.Dict
use knowtion.Runtime.{Runtime}
use knowtion.Property.Dates.{compare_codepoints}
use knowtion.Property.Values.{
  PropertyValue, PropertyDef, SelectOption, is_empty_value, option_ids, to_set,
}
use knowtion.Query.Grammar.{Filter, StoredFilter, ViewSpec}
use knowtion.Query.Problems.{Defs, QueryProblem, by_id, sanitise_spec}
use knowtion.Query.Rewrite.{QueryContext, resolve_dates, ◌>>=◌}
use knowtion.Evaluate.Matching.{QueryRow, value_of, matches_filter}
use knowtion.Evaluate.Sorting.{compare_rows, stable_sort}

-- An option id, or null for rows with no value.
abbrev pub GroupKey : Type 0
GroupKey = Option Text

abbrev pub same_key : GroupKey → GroupKey → Bool
same_key none none = true
same_key (some a) (some b) = a == b
same_key _ _ = false

pub record QueryGroup (N : Type 0) : Type 0 where
  pub key : GroupKey
  pub rows : List (QueryRow N)

pub record EvaluatedQuery (N : Type 0) : Type 0 where
  pub rows : List (QueryRow N)
  pub groups : Option (List (QueryGroup N))
  pub warnings : List QueryProblem

-- The keys that are not null.
abbrev pub present_keys : List GroupKey → List Text
present_keys [] = []
present_keys (none ∷ ks) = present_keys ks
present_keys (some k ∷ ks) = k ∷ present_keys ks

-- Every option in schema order, then any other key by code point, then the bucket of no value.
unfoldable pub order_group_keys : PropertyDef → List GroupKey → List GroupKey
order_group_keys def keys =
    let defined = option_ids def.options in
    let extra =
      stable_sort compare_codepoints
        (filter (λ k. not (contains k defined)) (to_set [] (present_keys keys))) in
    map some defined ++ (map some extra ++ none ∷ [])

module _ (r : Runtime) where
  open r use {Num}

  unfoldable pub group_key_of : PropertyDef → Option (PropertyValue Num) → GroupKey
  group_key_of def (some (PropertyValue.select id)) =
      if is_empty_value r def (some (PropertyValue.select id))
      then none
      else if any (λ o. o.id == id) def.options
      then some id
      else none
  group_key_of def _ = none

  abbrev pub row_key : PropertyDef → QueryRow Num → GroupKey
  row_key def row = group_key_of def (value_of r row def.id)

  abbrev pub bucket : PropertyDef → List (QueryRow Num) → GroupKey → QueryGroup Num
  bucket def rows key = record {
    key = key;
    rows = filter (λ row. same_key (row_key def row) key) rows;
  }

  unfoldable pub group_rows : PropertyDef → List (QueryRow Num) → List (QueryGroup Num)
  group_rows def rows = map (bucket def rows) (order_group_keys def (map (row_key def) rows))

  -- The rows that the sanitised filter lets through, in their order, unless resolving its dates throws.
  unfoldable pub matching_rows :
      List (QueryRow Num)
      → Option (StoredFilter Num)
      → Defs
      → QueryContext Num
      → Option (List (QueryRow Num))
  matching_rows rows none index ctx = some rows
  matching_rows rows (some stored) index ctx = do
    resolved ← resolve_dates r stored.expr ctx
    some (filter (λ row. matches_filter r row resolved index) rows)

  unfoldable pub groups_of :
      Option Text → Defs → List (QueryRow Num) → Option (List (QueryGroup Num))
  groups_of none index rows = none
  groups_of (some id) index rows = elim (Dict.lookup id index) [
    | none ↦ none
    | some def ↦ some (group_rows def rows)
  ]

  -- It is none where the source throws.
  unfoldable pub evaluate_query :
      List (QueryRow Num)
      → List PropertyDef
      → ViewSpec Num
      → QueryContext Num
      → Option Text
      → Option (EvaluatedQuery Num)
  evaluate_query rows defs spec ctx view = do
    let index = by_id defs
    let clean = sanitise_spec r defs spec
    matching ← matching_rows rows clean.spec.filter index ctx
    let sorted = stable_sort (compare_rows r index clean.spec.sorts view) matching
    some (record {
      rows = sorted;
      groups = groups_of clean.spec.group_by index sorted;
      warnings = clean.warnings;
    })
