-- ===== src/Query/Parse.antt =====
-- `parseFilter` and `parseStoredFilter`: the structural check of a filter that came from the CRDT.
use knowtion.Base.{Option, none, some, Text, codes, ◌==◌, list_eq, nat_eq, if◌then◌else◌}
use knowtion.Runtime.{Runtime}
use knowtion.Json.{
  Json, Items, Fields, object, array, nil, cons, end, field, get, as_string, as_number, as_boolean,
}
use knowtion.Property.Dates.{is_calendar_date}
use knowtion.Query.Grammar.{
  TextOp, NumberOp, OptionOp, DateOp, FilterOp, DateOperand, on, relative, LeafTest, FilterLeaf,
  Filter, conj, disj, negate, leaf, Clauses, StoredFilter,
}

infixl 5 ◌>>=◌
abbrev ◌>>=◌ {ℓ κ} : {A : Type ℓ} {B : Type κ} → Option A → (A → Option B) → Option B
none >>= f = none
some a >>= f = f a

-- The operator that a stored name stands for.
unfoldable pub op_named : Text → Option FilterOp
op_named op =
    if op == codes "isEmpty"
    then some FilterOp.is_empty
    else if op == codes "equals"
    then some (FilterOp.text TextOp.equals)
    else if op == codes "contains"
    then some (FilterOp.text TextOp.contains)
    else if op == codes "startsWith"
    then some (FilterOp.text TextOp.starts_with)
    else if op == codes "eq"
    then some (FilterOp.number NumberOp.eq)
    else if op == codes "ne"
    then some (FilterOp.number NumberOp.ne)
    else if op == codes "lt"
    then some (FilterOp.number NumberOp.lt)
    else if op == codes "lte"
    then some (FilterOp.number NumberOp.lte)
    else if op == codes "gt"
    then some (FilterOp.number NumberOp.gt)
    else if op == codes "gte"
    then some (FilterOp.number NumberOp.gte)
    else if op == codes "is"
    then some FilterOp.is
    else if op == codes "optionIs"
    then some (FilterOp.option OptionOp.option_is)
    else if op == codes "optionIsNot"
    then some (FilterOp.option OptionOp.option_is_not)
    else if op == codes "hasOption"
    then some (FilterOp.option OptionOp.has_option)
    else if op == codes "lacksOption"
    then some (FilterOp.option OptionOp.lacks_option)
    else if op == codes "onDate"
    then some (FilterOp.date DateOp.on_date)
    else if op == codes "before"
    then some (FilterOp.date DateOp.before)
    else if op == codes "after"
    then some (FilterOp.date DateOp.after)
    else if op == codes "onOrBefore"
    then some (FilterOp.date DateOp.on_or_before)
    else if op == codes "onOrAfter"
    then some (FilterOp.date DateOp.on_or_after)
    else none

-- `raw.kind`
pub data Kind : Type 0 where
  and_kind or_kind not_kind leaf_kind : Kind

unfoldable pub kind_named : Text → Option Kind
kind_named kind =
    if kind == codes "and"
    then some Kind.and_kind
    else if kind == codes "or"
    then some Kind.or_kind
    else if kind == codes "not"
    then some Kind.not_kind
    else if kind == codes "leaf"
    then some Kind.leaf_kind
    else none

module _ (r : Runtime) where
  open r use {Num}

  unfoldable pub parse_date_operand : Option (Json Num) → Option (DateOperand Num)
  parse_date_operand (some (object fs)) = do
    kind ← as_string (get (codes "kind") fs)
    if kind == codes "on"
        then (do
          date ← as_string (get (codes "date") fs)
          if is_calendar_date date then some (on date) else none)
        else if kind == codes "relative"
        then (do
          days ← as_number (get (codes "days") fs)
          if r.is_safe_integer days then some (relative days) else none)
        else none
  parse_date_operand _ = none

  -- The operand of an operator, by `typeof value`.
  unfoldable pub parse_test : FilterOp → Option (Json Num) → Option (LeafTest Num)
  parse_test FilterOp.is_empty value = some LeafTest.is_empty
  parse_test FilterOp.is value = do b ← as_boolean value; some (LeafTest.is b)
  parse_test (FilterOp.text op) value = do t ← as_string value; some (LeafTest.text op t)
  parse_test (FilterOp.number op) value = do n ← as_number value; some (LeafTest.number op n)
  parse_test (FilterOp.option op) value = do id ← as_string value; some (LeafTest.option op id)
  parse_test (FilterOp.date op) value = do d ← parse_date_operand value; some (LeafTest.date op d)

  unfoldable pub parse_leaf : Fields Num → Option (FilterLeaf Num)
  parse_leaf fs = do
    property ← as_string (get (codes "property") fs)
    name ← as_string (get (codes "op") fs)
    op ← op_named name
    test ← parse_test op (get (codes "value") fs)
    some (record { property = property; test = test })

  unfoldable mutual
    pub parse_filter : Json Num → Option (Filter Num)
    parse_filter (object fs) =
        let clauses = clauses_field fs in
        let clause = clause_field fs in
        elim (as_string (get (codes "kind") fs) >>= kind_named) [
          | none ↦ none
          | some Kind.and_kind ↦ clauses >>= (λ cs. some (conj cs))
          | some Kind.or_kind ↦ clauses >>= (λ cs. some (disj cs))
          | some Kind.not_kind ↦ clause >>= (λ f. some (negate f))
          | some Kind.leaf_kind ↦ parse_leaf fs >>= (λ l. some (leaf l))
        ]
    parse_filter _ = none

    -- `raw.clauses`, if it is an array of filters.
    clauses_field : Fields Num → Option (Clauses Num)
    clauses_field end = none
    clauses_field (field key (array items) rest) =
        let here = parse_clauses items in
        let later = clauses_field rest in if codes "clauses" == key then here else later
    clauses_field (field key _ rest) =
        let later = clauses_field rest in if codes "clauses" == key then none else later

    -- `raw.clause`, if it is a filter.
    clause_field : Fields Num → Option (Filter Num)
    clause_field end = none
    clause_field (field key v rest) =
        let here = parse_filter v in
        let later = clause_field rest in if codes "clause" == key then here else later

    pub parse_clauses : Items Num → Option (Clauses Num)
    parse_clauses nil = some Clauses.nil
    parse_clauses (cons v rest) = do
      f ← parse_filter v
      cs ← parse_clauses rest
      some (Clauses.cons f cs)

  unfoldable pub parse_stored_filter : Json Num → Option (StoredFilter Num)
  parse_stored_filter (object fs) = do
    v ← as_number (get (codes "v") fs)
    raw ← get (codes "expr") fs
    expr ← parse_filter raw
    if r.is_safe_integer v then some (record { v = v; expr = expr }) else none
  parse_stored_filter _ = none
