-- ===== src/Formula/Evaluate.antt =====
-- `binary` and `evaluateFormula`.
pub mod Reads
pub mod Finite
use knowtion.Base.{
  ℕ, Bool, true, false, not, ◌&&◌, ◌||◌, Option, none, some, List, [], ◌∷◌, Text, codes, ◌==◌,
  list_eq, nat_eq, if◌then◌else◌, Outcome, ok, err, ◌>>=◌, Ordering,
}
use knowtion.Runtime.{Runtime}
use knowtion.Property.Dates.{to_well_formed_text}
use knowtion.Formula.Grammar.{
  UnaryOp, CompareOp, ArithmeticOp, BinaryOp, Node, call, unary, binary, Nodes, nil, cons,
}
use knowtion.Formula.Values.{
  Arithmetic, FormulaProblem, FormulaValue, is_error, Value, Read, num, as_number, truthy,
  compare_values, equal,
}
use knowtion.Formula.Functions.Readers.{returned}
use knowtion.Formula.Functions.Call.{call_function}

-- `FormulaContext`
pub record FormulaContext (N : Type 0) : Type 0 where
  pub property : Text → FormulaValue N
  pub today : Text

unfoldable pub holds_of : CompareOp → Ordering → Bool
holds_of CompareOp.lt Ordering.lt = true
holds_of CompareOp.lte Ordering.lt = true
holds_of CompareOp.lte Ordering.eq = true
holds_of CompareOp.gt Ordering.gt = true
holds_of CompareOp.gte Ordering.gt = true
holds_of CompareOp.gte Ordering.eq = true
holds_of _ _ = false

unfoldable pub spelling : ArithmeticOp → Text
spelling ArithmeticOp.add = codes "+"
spelling ArithmeticOp.subtract = codes "-"
spelling ArithmeticOp.multiply = codes "*"
spelling ArithmeticOp.divide = codes "/"
spelling ArithmeticOp.remainder = codes "%"

module _ (r : Runtime) (a : Arithmetic (Runtime.Num r)) where
  open r use {Num}

  -- A division, unless it is by zero.
  unfoldable pub divided : Num → Num → FormulaValue Num
  divided quotient n =
      if r.num_eq n (r.of_nat 0)
      then FormulaValue.error FormulaProblem.division_by_zero
      else num r a quotient

  unfoldable pub calculate : ArithmeticOp → Num → Num → FormulaValue Num
  unfolding divided
  calculate ArithmeticOp.add m n = num r a (r.num_add m n)
  calculate ArithmeticOp.subtract m n = num r a (r.num_subtract m n)
  calculate ArithmeticOp.multiply m n = num r a (a.multiply m n)
  calculate ArithmeticOp.divide m n = divided (a.divide m n) n
  calculate ArithmeticOp.remainder m n = divided (a.remainder m n) n

  -- `binary`
  unfoldable pub combine :
      BinaryOp → FormulaValue Num → FormulaValue Num → Read r a (FormulaValue Num)
  combine BinaryOp.and left right = ok (FormulaValue.boolean (truthy r a left && truthy r a right))
  combine BinaryOp.or left right = ok (FormulaValue.boolean (truthy r a left || truthy r a right))
  combine BinaryOp.eq left right = ok (FormulaValue.boolean (equal r a left right))
  combine BinaryOp.ne left right = ok (FormulaValue.boolean (not (equal r a left right)))
  combine (BinaryOp.ordering op) left right = do
    c ← compare_values r a left right
    ok (FormulaValue.boolean (holds_of op c))
  combine (BinaryOp.arithmetic op) left right = do
    m ← as_number r a (spelling op) left
    n ← as_number r a (spelling op) right
    ok (calculate op m n)

  -- `and` and `or` stop early.
  unfoldable pub decided_by : BinaryOp → FormulaValue Num → Option (FormulaValue Num)
  decided_by BinaryOp.and left = if truthy r a left then none else some (FormulaValue.boolean false)
  decided_by BinaryOp.or left = if truthy r a left then some (FormulaValue.boolean true) else none
  decided_by _ left = none

  unfoldable pub with_operand : UnaryOp → FormulaValue Num → FormulaValue Num
  with_operand op (FormulaValue.error p) = FormulaValue.error p
  with_operand UnaryOp.not v = FormulaValue.boolean (not (truthy r a v))
  with_operand UnaryOp.negate v =
      returned r a do n ← as_number r a (codes "a minus sign") v; ok (num r a (a.negate n))

  unfoldable pub with_right : BinaryOp → FormulaValue Num → FormulaValue Num → FormulaValue Num
  with_right op left (FormulaValue.error p) = FormulaValue.error p
  with_right op left right = returned r a (combine op left right)

  infixl 5 ◌>>=?◌
  abbrev pub ◌>>=?◌ {ℓ κ} : {A : Type ℓ} {B : Type κ} → Option A → (A → Option B) → Option B
  none >>=? f = none
  some v >>=? f = f v

  -- The right operand is asked for only if the left one decides nothing.
  unfoldable pub right_of :
      Option (FormulaValue Num)
      → BinaryOp
      → FormulaValue Num
      → Option (FormulaValue Num)
      → Option (FormulaValue Num)
  unfolding with_right
  right_of (some v) op left right = some v
  right_of none op left right = right >>=? λ w. some (with_right op left w)

  unfoldable pub with_operands :
      BinaryOp → FormulaValue Num → Option (FormulaValue Num) → Option (FormulaValue Num)
  unfolding right_of
  with_operands op (FormulaValue.error p) right = some (FormulaValue.error p)
  with_operands op left right = right_of (decided_by op left) op left right

  -- `evaluateFormula`. It is `none` where a call throws or returns what is no formula value.
  unfoldable mutual
    pub evaluate_formula : FormulaContext Num → Node Num → Option (FormulaValue Num)
    evaluate_formula ctx (Node.number n) = some (num r a n)
    evaluate_formula ctx (Node.text t) = some (FormulaValue.text (to_well_formed_text t))
    evaluate_formula ctx (Node.boolean b) = some (FormulaValue.boolean b)
    evaluate_formula ctx (Node.property name) = some (ctx.property name)
    evaluate_formula ctx (unary op operand) =
        evaluate_formula ctx operand >>=? λ v. some (with_operand op v)
    evaluate_formula ctx (binary op left right) =
        evaluate_formula ctx left >>=? λ v. with_operands op v (evaluate_formula ctx right)
    evaluate_formula ctx (call name args) =
        evaluate_arguments ctx args >>=? λ vs. call_function r a name ctx.today vs

    pub evaluate_arguments : FormulaContext Num → Nodes Num → Option (List (FormulaValue Num))
    evaluate_arguments ctx nil = some []
    evaluate_arguments ctx (cons arg args) =
        evaluate_formula ctx arg >>=? λ v. evaluate_arguments ctx args >>=? λ vs. some (v ∷ vs)
