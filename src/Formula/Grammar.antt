-- ===== src/Formula/Grammar.antt =====
-- The tree of a formula, what a parse reports, and the walks over a tree.
use knowtion.Base.{
  ℕ, suc, ◌+◌, Bool, false, ◌||◌, Option, none, some, List, [], ◌∷◌, ◌++◌, Text, codes, ◌==◌,
  list_eq, nat_eq, contains, if◌then◌else◌,
}

abbrev pub max_formula_length : ℕ
max_formula_length = 1000

abbrev pub max_formula_depth : ℕ
max_formula_depth = 16

pub data UnaryOp : Type 0 where
  not negate : UnaryOp

pub data CompareOp : Type 0 where
  lt lte gt gte : CompareOp

pub data ArithmeticOp : Type 0 where
  add subtract multiply divide remainder : ArithmeticOp

pub data BinaryOp : Type 0 where
  or and eq ne : BinaryOp
  ordering : CompareOp → BinaryOp
  arithmetic : ArithmeticOp → BinaryOp

-- The tree. The position that a call carries is read by nothing that is modelled here.
mutual
  pub data Node (N : Type 0) : Type 0 where
    number : N → Node N
    text : Text → Node N
    boolean : Bool → Node N
    property : Text → Node N
    call : Text → Nodes N → Node N
    unary : UnaryOp → Node N → Node N
    binary : BinaryOp → Node N → Node N → Node N

  pub data Nodes (N : Type 0) : Type 0 where
    nil : Nodes N
    cons : Node N → Nodes N → Nodes N

-- The messages of the source.
pub data Message : Type 0 where
  never_closed does_not_belong too_long nests_too_deeply more_than_one not_a_number stops_early :
      Message
  prop_takes_name : Message
  expected not_a_start not_a_value : Text → Message

pub record ParseFailure : Type 0 where
  pub message : Message
  pub at : ℕ

-- The table `INFIX`: an operator's spelling and how tightly it binds.
unfoldable pub binary_op_named : Text → Option BinaryOp
binary_op_named s =
    if s == codes "or"
    then some BinaryOp.or
    else if s == codes "and"
    then some BinaryOp.and
    else if s == codes "=="
    then some BinaryOp.eq
    else if s == codes "!="
    then some BinaryOp.ne
    else if s == codes "<"
    then some (BinaryOp.ordering CompareOp.lt)
    else if s == codes "<="
    then some (BinaryOp.ordering CompareOp.lte)
    else if s == codes ">"
    then some (BinaryOp.ordering CompareOp.gt)
    else if s == codes ">="
    then some (BinaryOp.ordering CompareOp.gte)
    else if s == codes "+"
    then some (BinaryOp.arithmetic ArithmeticOp.add)
    else if s == codes "-"
    then some (BinaryOp.arithmetic ArithmeticOp.subtract)
    else if s == codes "*"
    then some (BinaryOp.arithmetic ArithmeticOp.multiply)
    else if s == codes "/"
    then some (BinaryOp.arithmetic ArithmeticOp.divide)
    else if s == codes "%"
    then some (BinaryOp.arithmetic ArithmeticOp.remainder)
    else none

unfoldable pub infix_power : BinaryOp → ℕ
infix_power BinaryOp.or = 1
infix_power BinaryOp.and = 2
infix_power BinaryOp.eq = 3
infix_power BinaryOp.ne = 3
infix_power (BinaryOp.ordering op) = 4
infix_power (BinaryOp.arithmetic ArithmeticOp.add) = 5
infix_power (BinaryOp.arithmetic ArithmeticOp.subtract) = 5
infix_power (BinaryOp.arithmetic op) = 6

abbrev pub unary_power : ℕ
unary_power = 7

-- `walk` of `propertiesUsed`: what is seen so far is passed along.
unfoldable mutual
  pub walk : {N : Type 0} → Node N → List Text → List Text
  walk (Node.property name) seen = if contains name seen then seen else seen ++ (name ∷ [])
  walk (call name args) seen = walk_args args seen
  walk (unary op operand) seen = walk operand seen
  walk (binary op left right) seen = walk right (walk left seen)
  walk _ seen = seen

  pub walk_args : {N : Type 0} → Nodes N → List Text → List Text
  walk_args nil seen = seen
  walk_args (cons arg args) seen = walk_args args (walk arg seen)

unfoldable pub properties_used : {N : Type 0} → Node N → List Text
properties_used node = walk node []

unfoldable mutual
  pub uses_today : {N : Type 0} → Node N → Bool
  uses_today (call name args) = name == codes "today" || any_uses_today args
  uses_today (unary op operand) = uses_today operand
  uses_today (binary op left right) = uses_today left || uses_today right
  uses_today _ = false

  pub any_uses_today : {N : Type 0} → Nodes N → Bool
  any_uses_today nil = false
  any_uses_today (cons arg args) = uses_today arg || any_uses_today args

-- How many nodes a tree has.
unfoldable mutual
  pub node_count : {N : Type 0} → Node N → ℕ
  node_count (call name args) = suc (node_counts args)
  node_count (unary op operand) = suc (node_count operand)
  node_count (binary op left right) = suc (node_count left + node_count right)
  node_count _ = 1

  pub node_counts : {N : Type 0} → Nodes N → ℕ
  node_counts nil = 0
  node_counts (cons arg args) = node_count arg + node_counts args
