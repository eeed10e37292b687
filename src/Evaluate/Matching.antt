-- ===== src/Evaluate/Matching.antt =====
-- A row against a filter.
pub mod Negation
use knowtion.Base.{
  ℕ, ◌≡◌, Bool, true, false, not, ◌&&◌, ◌||◌, Option, none, some, List, [], ◌∷◌, Text, ◌==◌,
  list_eq, nat_eq, contains, if◌then◌else◌, Ordering,
}
use knowtion.Base.Dict
use knowtion.Base.Dict.{Dict}
use knowtion.Runtime.{Runtime}
use knowtion.Property.Dates.{to_well_formed_text, compare_codepoints}
use knowtion.Property.Calendar.{local_date_of}
use knowtion.Property.Values.{PropertyType, PropertyValue, PropertyDef, is_empty_value}
use knowtion.Query.Grammar.{
  TextOp, NumberOp, OptionOp, DateOp, DateOperand, on, relative, LeafTest, FilterLeaf, Filter, conj,
  disj, negate, leaf, Clauses, nil, cons,
}
use knowtion.Query.Problems.{Defs}

-- `createdAt` and `updatedAt` are milliseconds since the epoch.
pub record QueryRow (N : Type 0) : Type 0 where
  pub id : Text
  pub title : Text
  pub created_at : ℕ
  pub updated_at : ℕ
  pub properties : Dict Text (PropertyValue N)
  pub order_keys : Dict Text Text

-- `have.startsWith(want)`
unfoldable pub starts_with : Text → Text → Bool
starts_with [] want = want == []
starts_with (c ∷ have) [] = true
starts_with (c ∷ have) (w ∷ want) = c == w && starts_with have want

-- `have.includes(want)`
unfoldable pub includes : Text → Text → Bool
includes [] want = want == []
includes (c ∷ have) want = starts_with (c ∷ have) want || includes have want

-- What a comparison operator asks of the sign of a comparison.
unfoldable pub compare_day : DateOp → Ordering → Bool
compare_day DateOp.on_date Ordering.eq = true
compare_day DateOp.before Ordering.lt = true
compare_day DateOp.after Ordering.gt = true
compare_day DateOp.on_or_before Ordering.lt = true
compare_day DateOp.on_or_before Ordering.eq = true
compare_day DateOp.on_or_after Ordering.gt = true
compare_day DateOp.on_or_after Ordering.eq = true
compare_day _ _ = false

module _ (r : Runtime) where
  open r use {Num}

  -- The form in which text is compared.
  unfoldable pub fold_text : Text → Text
  fold_text t = r.nfc_lower (to_well_formed_text t)

  unfoldable pub value_of : QueryRow Num → Text → Option (PropertyValue Num)
  value_of row property = Dict.lookup property row.properties

  -- It is none too where `localDateOf` throws, which it does not on the instants of a datetime.
  unfoldable pub calendar_date_of : PropertyValue Num → Option Text
  calendar_date_of (PropertyValue.date day) = some day
  calendar_date_of (PropertyValue.datetime d) = local_date_of r d.ms d.zone
  calendar_date_of _ = none

  -- `compareNumber`, with `ne` apart in `matchesLeaf`. `a <= b` is `a < b` or `a === b`.
  unfoldable pub compare_number : NumberOp → Num → Num → Bool
  compare_number NumberOp.eq n want = r.num_eq n want
  compare_number NumberOp.ne n want = not (r.num_eq n want)
  compare_number NumberOp.lt n want = r.num_lt n want
  compare_number NumberOp.lte n want = r.num_lt n want || r.num_eq n want
  compare_number NumberOp.gt n want = r.num_lt want n
  compare_number NumberOp.gte n want = r.num_lt want n || r.num_eq n want

  unfoldable pub match_text : TextOp → Text → Text → Bool
  match_text TextOp.equals have want = have == want
  match_text TextOp.contains have want = includes have want
  match_text TextOp.starts_with have want = starts_with have want

  -- A text or url cell that is not empty.
  abbrev pub text_of : Option (PropertyValue Num) → Option Text
  text_of (some (PropertyValue.text t)) = some t
  text_of (some (PropertyValue.url t)) = some t
  text_of _ = none

  abbrev pub number_is : Num → Option (PropertyValue Num) → Bool
  number_is want (some (PropertyValue.number n)) = r.num_eq n want
  number_is want _ = false

  abbrev pub is_checked : Option (PropertyValue Num) → Bool
  is_checked (some (PropertyValue.checkbox b)) = b
  is_checked _ = false

  abbrev pub option_is : Text → Option (PropertyValue Num) → Bool
  option_is want (some (PropertyValue.select id)) = id == want
  option_is want _ = false

  abbrev pub has_option : Text → Option (PropertyValue Num) → Bool
  has_option want (some (PropertyValue.multi_select ids)) = contains want ids
  has_option want _ = false

  abbrev pub same_bool : Bool → Bool → Bool
  same_bool true b = b
  same_bool false b = not b

  -- The switch of `matchesLeaf`, over the cell and whether it is empty.
  unfoldable pub matches_test : LeafTest Num → Option (PropertyValue Num) → Bool → Bool
  matches_test LeafTest.is_empty value empty = empty
  matches_test (LeafTest.text op want) value true = false
  matches_test (LeafTest.text op want) value false = elim (text_of value) [
    | none ↦ false
    | some have ↦ match_text op (fold_text have) (fold_text want)
  ]
  matches_test (LeafTest.number NumberOp.ne want) value empty =
      not (not empty && number_is want value)
  matches_test (LeafTest.number op want) value true = false
  matches_test (LeafTest.number op want) (some (PropertyValue.number n)) false =
      compare_number op n want
  matches_test (LeafTest.number op want) _ false = false
  matches_test (LeafTest.is want) value empty = same_bool (is_checked value) want
  matches_test (LeafTest.option OptionOp.option_is want) value empty =
      not empty && option_is want value
  matches_test (LeafTest.option OptionOp.option_is_not want) value empty =
      not (not empty && option_is want value)
  matches_test (LeafTest.option OptionOp.has_option want) value empty =
      not empty && has_option want value
  matches_test (LeafTest.option OptionOp.lacks_option want) value empty =
      not (not empty && has_option want value)
  matches_test (LeafTest.date op want) value true = false
  matches_test (LeafTest.date op want) none false = false
  matches_test (LeafTest.date op (relative days)) (some value) false = false
  matches_test (LeafTest.date op (on day)) (some value) false = elim (calendar_date_of value) [
    | none ↦ false
    | some have ↦ compare_day op (compare_codepoints have day)
  ]

  unfoldable pub matches_leaf : QueryRow Num → FilterLeaf Num → Defs → Bool
  matches_leaf row l defs = elim (Dict.lookup l.property defs) [
    | none ↦ false
    | some def ↦
        let value = value_of row l.property in
        matches_test l.test value (is_empty_value r def value)
  ]

  unfoldable mutual
    pub matches_filter : QueryRow Num → Filter Num → Defs → Bool
    matches_filter row (conj cs) defs = every_clause row cs defs
    matches_filter row (disj cs) defs = some_clause row cs defs
    matches_filter row (negate f) defs = not (matches_filter row f defs)
    matches_filter row (leaf l) defs = matches_leaf row l defs

    pub every_clause : QueryRow Num → Clauses Num → Defs → Bool
    every_clause row nil defs = true
    every_clause row (cons f cs) defs = matches_filter row f defs && every_clause row cs defs

    pub some_clause : QueryRow Num → Clauses Num → Defs → Bool
    some_clause row nil defs = false
    some_clause row (cons f cs) defs = matches_filter row f defs || some_clause row cs defs
