-- ===== src/Query/RoundTrip.antt =====
-- A filter as the plain object that is stored, and parsing it back.
use knowtion.Base.{◌≡◌, refl, true, some, Text, codes, list_beq}
use knowtion.Runtime.{Runtime}
use knowtion.Json.{
  Json, Items, Fields, boolean, number, string, array, object, nil, cons, end, field, get,
}
use knowtion.Property.Dates.{is_calendar_date}
use knowtion.Query.Grammar.{
  TextOp, NumberOp, OptionOp, DateOp, FilterOp, DateOperand, on, relative, LeafTest, FilterLeaf,
  Filter, conj, disj, negate, leaf, Clauses, op_of,
}
use knowtion.Query.Parse.{
  op_named, kind_named, parse_date_operand, parse_test, parse_leaf, parse_filter, parse_clauses,
}

op_name : FilterOp → Text
op_name FilterOp.is_empty = codes "isEmpty"
op_name FilterOp.is = codes "is"
op_name (FilterOp.text TextOp.equals) = codes "equals"
op_name (FilterOp.text TextOp.contains) = codes "contains"
op_name (FilterOp.text TextOp.starts_with) = codes "startsWith"
op_name (FilterOp.number NumberOp.eq) = codes "eq"
op_name (FilterOp.number NumberOp.ne) = codes "ne"
op_name (FilterOp.number NumberOp.lt) = codes "lt"
op_name (FilterOp.number NumberOp.lte) = codes "lte"
op_name (FilterOp.number NumberOp.gt) = codes "gt"
op_name (FilterOp.number NumberOp.gte) = codes "gte"
op_name (FilterOp.option OptionOp.option_is) = codes "optionIs"
op_name (FilterOp.option OptionOp.option_is_not) = codes "optionIsNot"
op_name (FilterOp.option OptionOp.has_option) = codes "hasOption"
op_name (FilterOp.option OptionOp.lacks_option) = codes "lacksOption"
op_name (FilterOp.date DateOp.on_date) = codes "onDate"
op_name (FilterOp.date DateOp.before) = codes "before"
op_name (FilterOp.date DateOp.after) = codes "after"
op_name (FilterOp.date DateOp.on_or_before) = codes "onOrBefore"
op_name (FilterOp.date DateOp.on_or_after) = codes "onOrAfter"

op_named-op_name : (op : FilterOp) → op_named (op_name op) ≡ some op
unfolding op_named op_name list_beq
op_named-op_name FilterOp.is_empty = refl
op_named-op_name (FilterOp.text TextOp.equals) = refl
op_named-op_name (FilterOp.text _) = refl
op_named-op_name (FilterOp.number NumberOp.eq) = refl
op_named-op_name (FilterOp.number _) = refl
op_named-op_name (FilterOp.option OptionOp.option_is) = refl
op_named-op_name (FilterOp.option _) = refl
op_named-op_name (FilterOp.date DateOp.on_date) = refl
op_named-op_name (FilterOp.date _) = refl
op_named-op_name FilterOp.is = refl

module _ {N : Type 0} where
  operand_json : DateOperand N → Json N
  operand_json (on day) =
      object (field (codes "kind") (string (codes "on")) (field (codes "date") (string day) end))
  operand_json (relative days) =
      object
        (field (codes "kind") (string (codes "relative")) (field (codes "days") (number days) end))

  abbrev value_fields : LeafTest N → Fields N
  value_fields LeafTest.is_empty = end
  value_fields (LeafTest.is b) = field (codes "value") (boolean b) end
  value_fields (LeafTest.text op t) = field (codes "value") (string t) end
  value_fields (LeafTest.number op n) = field (codes "value") (number n) end
  value_fields (LeafTest.option op id) = field (codes "value") (string id) end
  value_fields (LeafTest.date op d) = field (codes "value") (operand_json d) end

  abbrev leaf_fields : FilterLeaf N → Fields N
  leaf_fields l = field (codes "kind") (string (codes "leaf")) (
      field (codes "property") (string l.property)
        (field (codes "op") (string (op_name (op_of l.test))) (value_fields l.test)))

  -- The plain object that a filter is.
  mutual
    pub to_json : Filter N → Json N
    to_json (conj cs) = object (
        field (codes "kind") (string (codes "and"))
          (field (codes "clauses") (array (clauses_json cs)) end))
    to_json (disj cs) = object (
        field (codes "kind") (string (codes "or"))
          (field (codes "clauses") (array (clauses_json cs)) end))
    to_json (negate f) =
        object
          (field (codes "kind") (string (codes "not")) (field (codes "clause") (to_json f) end))
    to_json (leaf l) = object (leaf_fields l)

    clauses_json : Clauses N → Items N
    clauses_json Clauses.nil = nil
    clauses_json (Clauses.cons f cs) = cons (to_json f) (clauses_json cs)

module _ (r : Runtime) where
  open r use {Num}

  -- A date operand that can be stored: a day of the calendar, or a whole number of days.
  abbrev pub IsStorable : LeafTest Num → Type 0
  IsStorable (LeafTest.date op (on day)) = is_calendar_date day ≡ true
  IsStorable (LeafTest.date op (relative days)) = r.is_safe_integer days ≡ true
  IsStorable _ = Unit

  unfoldable mutual
    pub HasStorableDates : Filter Num → Type 0
    HasStorableDates (conj cs) = ClausesHaveStorableDates cs
    HasStorableDates (disj cs) = ClausesHaveStorableDates cs
    HasStorableDates (negate f) = HasStorableDates f
    HasStorableDates (leaf l) = IsStorable l.test

    ClausesHaveStorableDates : Clauses Num → Type 0
    ClausesHaveStorableDates Clauses.nil = Unit
    ClausesHaveStorableDates (Clauses.cons f cs) = HasStorableDates f × ClausesHaveStorableDates cs

  parse_test-value :
      (t : LeafTest Num)
      → IsStorable t
      → parse_test r (op_of t) (get (codes "value") (value_fields t)) ≡ some t
  unfolding parse_test parse_date_operand get list_beq operand_json
  parse_test-value LeafTest.is_empty h = refl
  parse_test-value (LeafTest.is b) h = refl
  parse_test-value (LeafTest.text op t) h = refl
  parse_test-value (LeafTest.number op n) h = refl
  parse_test-value (LeafTest.option op id) h = refl
  parse_test-value (LeafTest.date op (on day)) h = rw h
  parse_test-value (LeafTest.date op (relative days)) h = rw h

  get-value :
      (l : FilterLeaf Num)
      → get (codes "value") (leaf_fields l) ≡ get (codes "value") (value_fields l.test)
  unfolding get list_beq
  get-value l = refl

  get-property :
      (l : FilterLeaf Num) → get (codes "property") (leaf_fields l) ≡ some (string l.property)
  unfolding get list_beq
  get-property l = refl

  get-op :
      (l : FilterLeaf Num)
      → get (codes "op") (leaf_fields l) ≡ some (string (op_name (op_of l.test)))
  unfolding get list_beq
  get-op l = refl

  parse_leaf-leaf_fields :
      (l : FilterLeaf Num) → IsStorable l.test → parse_leaf r (leaf_fields l) ≡ some l
  unfolding parse_leaf
  parse_leaf-leaf_fields l h = rw (
    get-property l,
    get-op l,
    get-value l,
    op_named-op_name (op_of l.test),
    parse_test-value l.test h,
  )

  mutual
    unfolding parse_filter to_json get list_beq kind_named HasStorableDates

    parse-to_json : (f : Filter Num) → HasStorableDates f → parse_filter r (to_json f) ≡ some f
    parse-to_json (conj cs) h = rw (parse-clauses_json cs h)
    parse-to_json (disj cs) h = rw (parse-clauses_json cs h)
    parse-to_json (negate f) h = rw (parse-to_json f h)
    parse-to_json (leaf l) h = rw (parse_leaf-leaf_fields l h)

    parse-clauses_json :
        (cs : Clauses Num)
        → ClausesHaveStorableDates cs
        → parse_clauses r (clauses_json cs) ≡ some cs
    parse-clauses_json Clauses.nil h = refl
    parse-clauses_json (Clauses.cons f cs) (h, k) = rw (parse-to_json f h, parse-clauses_json cs k)

-- A filter whose absolute dates are calendar dates and whose relative days are whole numbers is
-- parsed back, unchanged, from its plain object.
pub parse_filter-to_json :
    (r : Runtime) (f : Filter r.Num) → HasStorableDates r f → parse_filter r (to_json f) ≡ some f
parse_filter-to_json r f h = parse-to_json r f h
