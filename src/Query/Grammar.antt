-- ===== src/Query/Grammar.antt =====
-- The types of the language, its closed tables, and walks over a filter.
use knowtion.Base.{
  ℕ, ◌+◌, Bool, true, false, Option, List, [], ◌∷◌, ◌++◌, any, max, Text, ◌==◌, nat_eq,
}
use knowtion.Property.Values.{PropertyType}

pub data TextOp : Type 0 where
  equals contains starts_with : TextOp

pub data NumberOp : Type 0 where
  eq ne lt lte gt gte : NumberOp

pub data OptionOp : Type 0 where
  option_is option_is_not has_option lacks_option : OptionOp

pub data DateOp : Type 0 where
  on_date before after on_or_before on_or_after : DateOp

pub data FilterOp : Type 0 where
  is_empty is : FilterOp
  text : TextOp → FilterOp
  number : NumberOp → FilterOp
  option : OptionOp → FilterOp
  date : DateOp → FilterOp

-- An absolute day, or a day relative to today in the viewer's zone.
pub data DateOperand (N : Type 0) : Type 0 where
  on : Text → DateOperand N
  relative : N → DateOperand N

-- The operator of a leaf with its operand.
pub data LeafTest (N : Type 0) : Type 0 where
  is_empty : LeafTest N
  is : Bool → LeafTest N
  text : TextOp → Text → LeafTest N
  number : NumberOp → N → LeafTest N
  option : OptionOp → Text → LeafTest N
  date : DateOp → DateOperand N → LeafTest N

pub record FilterLeaf (N : Type 0) : Type 0 where
  pub property : Text
  pub test : LeafTest N

mutual
  -- `and`, `or`, `not` and a leaf.
  pub data Filter (N : Type 0) : Type 0 where
    conj : Clauses N → Filter N
    disj : Clauses N → Filter N
    negate : Filter N → Filter N
    leaf : FilterLeaf N → Filter N

  pub data Clauses (N : Type 0) : Type 0 where
    nil : Clauses N
    cons : Filter N → Clauses N → Clauses N

pub record StoredFilter (N : Type 0) : Type 0 where
  pub v : N
  pub expr : Filter N

pub data Direction : Type 0 where
  asc desc : Direction

-- The sort fields that every row has, or a property's id.
pub data SortField : Type 0 where
  title created_at updated_at : SortField
  property : Text → SortField

pub record Sort : Type 0 where
  pub field : SortField
  pub direction : Direction

pub record ViewSpec (N : Type 0) : Type 0 where
  pub filter : Option (StoredFilter N)
  pub unreadable_filter : Bool
  pub sorts : List Sort
  pub group_by : Option Text

abbrev pub text_ops : List FilterOp
text_ops =
    FilterOp.is_empty
    ∷ FilterOp.text TextOp.equals
    ∷ FilterOp.text TextOp.contains
    ∷ FilterOp.text TextOp.starts_with
    ∷ []

abbrev pub date_ops : List FilterOp
date_ops =
    FilterOp.is_empty
    ∷ FilterOp.date DateOp.on_date
    ∷ FilterOp.date DateOp.before
    ∷ FilterOp.date DateOp.after
    ∷ FilterOp.date DateOp.on_or_before
    ∷ FilterOp.date DateOp.on_or_after
    ∷ []

-- Which operators each property type admits.
unfoldable pub ops_by_type : PropertyType → List FilterOp
ops_by_type PropertyType.text = text_ops
ops_by_type PropertyType.url = text_ops
ops_by_type PropertyType.number =
    FilterOp.is_empty
    ∷ FilterOp.number NumberOp.eq
    ∷ FilterOp.number NumberOp.ne
    ∷ FilterOp.number NumberOp.lt
    ∷ FilterOp.number NumberOp.lte
    ∷ FilterOp.number NumberOp.gt
    ∷ FilterOp.number NumberOp.gte
    ∷ []
ops_by_type PropertyType.checkbox = FilterOp.is ∷ []
ops_by_type PropertyType.select =
    FilterOp.is_empty
    ∷ FilterOp.option OptionOp.option_is
    ∷ FilterOp.option OptionOp.option_is_not
    ∷ []
ops_by_type PropertyType.multi_select =
    FilterOp.is_empty
    ∷ FilterOp.option OptionOp.has_option
    ∷ FilterOp.option OptionOp.lacks_option
    ∷ []
ops_by_type PropertyType.date = date_ops
ops_by_type PropertyType.datetime = date_ops
ops_by_type PropertyType.relation = FilterOp.is_empty ∷ []

abbrev pub text_op_code : TextOp → ℕ
text_op_code TextOp.equals = 2
text_op_code TextOp.contains = 3
text_op_code TextOp.starts_with = 4

abbrev pub number_op_code : NumberOp → ℕ
number_op_code NumberOp.eq = 5
number_op_code NumberOp.ne = 6
number_op_code NumberOp.lt = 7
number_op_code NumberOp.lte = 8
number_op_code NumberOp.gt = 9
number_op_code NumberOp.gte = 10

abbrev pub option_op_code : OptionOp → ℕ
option_op_code OptionOp.option_is = 11
option_op_code OptionOp.option_is_not = 12
option_op_code OptionOp.has_option = 13
option_op_code OptionOp.lacks_option = 14

abbrev pub date_op_code : DateOp → ℕ
date_op_code DateOp.on_date = 15
date_op_code DateOp.before = 16
date_op_code DateOp.after = 17
date_op_code DateOp.on_or_before = 18
date_op_code DateOp.on_or_after = 19

abbrev pub op_code : FilterOp → ℕ
op_code FilterOp.is_empty = 0
op_code FilterOp.is = 1
op_code (FilterOp.text op) = text_op_code op
op_code (FilterOp.number op) = number_op_code op
op_code (FilterOp.option op) = option_op_code op
op_code (FilterOp.date op) = date_op_code op

-- `OPS_BY_TYPE[type].includes(op)`
unfoldable pub allows : PropertyType → FilterOp → Bool
allows type op = any (λ o. op_code o == op_code op) (ops_by_type type)

abbrev pub sortable : PropertyType → Bool
sortable PropertyType.multi_select = false
sortable PropertyType.relation = false
sortable _ = true

abbrev pub groupable : PropertyType → Bool
groupable PropertyType.select = true
groupable _ = false

abbrev pub max_filter_depth : ℕ
max_filter_depth = 8

abbrev pub max_filter_leaves : ℕ
max_filter_leaves = 64

abbrev pub max_relative_days : ℕ
max_relative_days = 36500

abbrev pub query_spec_version : ℕ
query_spec_version = 1

module _ {N : Type 0} where
  abbrev pub op_of : LeafTest N → FilterOp
  op_of LeafTest.is_empty = FilterOp.is_empty
  op_of (LeafTest.is _) = FilterOp.is
  op_of (LeafTest.text op _) = FilterOp.text op
  op_of (LeafTest.number op _) = FilterOp.number op
  op_of (LeafTest.option op _) = FilterOp.option op
  op_of (LeafTest.date op _) = FilterOp.date op

  unfoldable mutual
    -- Every leaf, depth first.
    pub filter_leaves : Filter N → List (FilterLeaf N)
    filter_leaves (conj cs) = clauses_leaves cs
    filter_leaves (disj cs) = clauses_leaves cs
    filter_leaves (negate f) = filter_leaves f
    filter_leaves (leaf l) = l ∷ []

    pub clauses_leaves : Clauses N → List (FilterLeaf N)
    clauses_leaves nil = []
    clauses_leaves (cons f cs) = filter_leaves f ++ clauses_leaves cs

  unfoldable mutual
    pub depth_of : Filter N → ℕ
    depth_of (conj cs) = 1 + clauses_depth cs
    depth_of (disj cs) = 1 + clauses_depth cs
    depth_of (negate f) = 1 + depth_of f
    depth_of (leaf l) = 1

    -- `Math.max(0, ...clauses.map(depthOf))`
    pub clauses_depth : Clauses N → ℕ
    clauses_depth nil = 0
    clauses_depth (cons f cs) = max (depth_of f) (clauses_depth cs)
