-- ===== src/Formula/Evaluate/Finite/Rows.antt =====
-- The numbers that a formula answers with (packages/engine/src/formula.ts).
use knowtion.Base.{
  Bool, true, false, Option, none, some, List, [], ◌∷◌, Text, length, if◌then◌else◌, list_eq,
  nat_eq, ok, err, ◌>>=◌, ◌≡◌, refl, subst, Ordering,
}
use knowtion.Base.Dict.{lookup}
use knowtion.Runtime.{Runtime}
use knowtion.Formula.Grammar.{
  UnaryOp, ArithmeticOp, BinaryOp, Node, call, unary, binary, Nodes, nil, cons,
}
use knowtion.Formula.Values.{
  Arithmetic, FormulaValue, Read, as_number, as_text, truthy, compare_values, compare_as_numbers,
  compare_as_texts,
}
use knowtion.Formula.Functions.{Function, function_names, wrong_count, is_inherited}
use knowtion.Formula.Functions.Call.{applied_to, first_error, call_known, call_found, call_function}
use knowtion.Formula.Evaluate.{
  FormulaContext, divided, calculate, combine, decided_by, with_operand, with_right, right_of,
  with_operands, evaluate_formula, evaluate_arguments, ◌>>=?◌, holds_of,
}
use knowtion.Formula.Evaluate.Finite.{
  IsFinite, GivesFinite, ReadsFinite, AllFinite, IsFinite-if, num-IsFinite, as_number-ReadsFinite,
}
use knowtion.Formula.Evaluate.Finite.Functions.{returned-IsFinite}
use knowtion.Formula.Evaluate.Finite.Answers.{
  apply-GivesFinite, InsteadFinite, InsteadFinite-bind, as_number-InsteadFinite,
}

module _ (r : Runtime) (a : Arithmetic (Runtime.Num r)) where
  open r use {Num}

  first_error-GivesFinite :
      (args : List (FormulaValue Num)) → AllFinite r a args → GivesFinite r a (first_error r a args)
  unfolding first_error
  first_error-GivesFinite [] h = tt
  first_error-GivesFinite (FormulaValue.error p ∷ vs) h = tt
  first_error-GivesFinite (_ ∷ vs) (h, k) = first_error-GivesFinite vs k

  applied_to-GivesFinite :
      (e : Option (FormulaValue Num)) (f : Function) (today : Text) (args : List (FormulaValue Num))
      → GivesFinite r a e
      → AllFinite r a args
      → GivesFinite r a (applied_to r a e f today args)
  unfolding applied_to
  applied_to-GivesFinite (some e) f today args k h = k
  applied_to-GivesFinite none f today args k h = apply-GivesFinite r a f today args h

  GivesFinite-if :
      (b : Bool) (m n : Option (FormulaValue Num))
      → GivesFinite r a m
      → GivesFinite r a n
      → GivesFinite r a (if b then m else n)
  GivesFinite-if true m n h k = h
  GivesFinite-if false m n h k = k

  call_found-GivesFinite :
      (o : Option Function) (name today : Text) (args : List (FormulaValue Num))
      → AllFinite r a args
      → GivesFinite r a (call_found r a o name today args)
  unfolding call_found call_known
  call_found-GivesFinite none name today args h = tt
  call_found-GivesFinite (some f) name today args h =
      GivesFinite-if (wrong_count f (length args)) _ _ tt (
        applied_to-GivesFinite (first_error r a args) f today args (first_error-GivesFinite args h)
          h)

  call_function-GivesFinite :
      (name today : Text) (args : List (FormulaValue Num))
      → AllFinite r a args
      → GivesFinite r a (call_function r a name today args)
  unfolding call_function
  call_function-GivesFinite name today args h =
      GivesFinite-if (is_inherited name) _ _ tt
        (call_found-GivesFinite (lookup name function_names) name today args h)

  divided-IsFinite : (q n : Num) → IsFinite r a (divided r a q n)
  unfolding divided
  divided-IsFinite q n = IsFinite-if r a (r.num_eq n (r.of_nat 0)) _ _ tt (num-IsFinite r a q)

  calculate-IsFinite : (op : ArithmeticOp) (m n : Num) → IsFinite r a (calculate r a op m n)
  unfolding calculate
  calculate-IsFinite ArithmeticOp.add m n = num-IsFinite r a _
  calculate-IsFinite ArithmeticOp.subtract m n = num-IsFinite r a _
  calculate-IsFinite ArithmeticOp.multiply m n = num-IsFinite r a _
  calculate-IsFinite ArithmeticOp.divide m n = divided-IsFinite _ n
  calculate-IsFinite ArithmeticOp.remainder m n = divided-IsFinite _ n

  as_text-InsteadFinite :
      (place : Text) (v : FormulaValue Num) → InsteadFinite r a (as_text r a place v)
  unfolding as_text
  as_text-InsteadFinite place (FormulaValue.error p) = tt
  as_text-InsteadFinite place (FormulaValue.number n) = tt
  as_text-InsteadFinite place (FormulaValue.boolean b) = tt
  as_text-InsteadFinite place (FormulaValue.text t) = tt
  as_text-InsteadFinite place (FormulaValue.date day) = tt
  as_text-InsteadFinite place FormulaValue.empty = tt

  compare_as_numbers-InsteadFinite :
      (v w : FormulaValue Num) → InsteadFinite r a (compare_as_numbers r a v w)
  unfolding compare_as_numbers
  compare_as_numbers-InsteadFinite v w =
      InsteadFinite-bind r a (as_number r a _ v) _ (as_number-InsteadFinite r a _ v)
        λ m. InsteadFinite-bind r a (as_number r a _ w) _ (as_number-InsteadFinite r a _ w) λ n. tt

  compare_as_texts-InsteadFinite :
      (v w : FormulaValue Num) → InsteadFinite r a (compare_as_texts r a v w)
  unfolding compare_as_texts
  compare_as_texts-InsteadFinite v w =
      InsteadFinite-bind r a (as_text r a _ v) _ (as_text-InsteadFinite _ v)
        λ s. InsteadFinite-bind r a (as_text r a _ w) _ (as_text-InsteadFinite _ w) λ t. tt

  compare_values-InsteadFinite :
      (v w : FormulaValue Num) → InsteadFinite r a (compare_values r a v w)
  unfolding compare_values
  compare_values-InsteadFinite (FormulaValue.number m) w = compare_as_numbers-InsteadFinite _ w
  compare_values-InsteadFinite v (FormulaValue.number n) = compare_as_numbers-InsteadFinite v _
  compare_values-InsteadFinite v w = compare_as_texts-InsteadFinite v w

  test-ReadsFinite :
      (m : Read r a Ordering) (test : Ordering → Bool)
      → InsteadFinite r a m
      → ReadsFinite r a (m >>= λ c. ok (FormulaValue.boolean (test c)))
  test-ReadsFinite (ok c) test h = tt
  test-ReadsFinite (err v) test h = h

  combine-ReadsFinite :
      (op : BinaryOp) (v w : FormulaValue Num) → ReadsFinite r a (combine r a op v w)
  unfolding combine
  combine-ReadsFinite BinaryOp.and v w = tt
  combine-ReadsFinite BinaryOp.or v w = tt
  combine-ReadsFinite BinaryOp.eq v w = tt
  combine-ReadsFinite BinaryOp.ne v w = tt
  combine-ReadsFinite (BinaryOp.ordering op) v w =
      test-ReadsFinite (compare_values r a v w) (holds_of op) (compare_values-InsteadFinite v w)
  combine-ReadsFinite (BinaryOp.arithmetic op) v w =
      as_number-ReadsFinite r a _ v _
        λ m. as_number-ReadsFinite r a _ w _ λ n. calculate-IsFinite op m n

  with_operand-IsFinite :
      (op : UnaryOp) (v : FormulaValue Num) → IsFinite r a (with_operand r a op v)
  unfolding with_operand
  with_operand-IsFinite op (FormulaValue.error p) = tt
  with_operand-IsFinite UnaryOp.not _ = tt
  with_operand-IsFinite UnaryOp.negate _ =
      returned-IsFinite r a _ (as_number-ReadsFinite r a _ _ _ λ n. num-IsFinite r a _)

  with_right-IsFinite :
      (op : BinaryOp) (v w : FormulaValue Num) → IsFinite r a (with_right r a op v w)
  unfolding with_right
  with_right-IsFinite op v (FormulaValue.error p) = tt
  with_right-IsFinite op v _ = returned-IsFinite r a _ (combine-ReadsFinite op v _)

  right_of-GivesFinite :
      (decided : Option (FormulaValue Num)) (op : BinaryOp) (v : FormulaValue Num)
      (right : Option (FormulaValue Num))
      → GivesFinite r a decided
      → GivesFinite r a (right_of r a decided op v right)
  unfolding right_of
  right_of-GivesFinite (some w) op v right h = h
  right_of-GivesFinite none op v none h = tt
  right_of-GivesFinite none op v (some w) h = with_right-IsFinite op v w

  decided_by-GivesFinite :
      (op : BinaryOp) (v : FormulaValue Num) → GivesFinite r a (decided_by r a op v)
  unfolding decided_by
  decided_by-GivesFinite BinaryOp.and v = GivesFinite-if (truthy r a v) _ _ tt tt
  decided_by-GivesFinite BinaryOp.or v = GivesFinite-if (truthy r a v) _ _ tt tt
  decided_by-GivesFinite _ v = tt

  with_operands-GivesFinite :
      (op : BinaryOp) (v : FormulaValue Num) (right : Option (FormulaValue Num))
      → GivesFinite r a (with_operands r a op v right)
  unfolding with_operands
  with_operands-GivesFinite op (FormulaValue.error p) right = tt
  with_operands-GivesFinite op _ right =
      right_of-GivesFinite (decided_by r a op _) op _ right (decided_by-GivesFinite op _)

  abbrev AllGivesFinite : Option (List (FormulaValue Num)) → Type 0
  AllGivesFinite none = Unit
  AllGivesFinite (some vs) = AllFinite r a vs

  bind-GivesFinite {ℓ} :
      {A : Type ℓ} (m : Option A) (f : A → Option (FormulaValue Num))
      → ((v : A) → m ≡ some v → GivesFinite r a (f v))
      → GivesFinite r a (◌>>=?◌ r a m f)
  bind-GivesFinite none f h = tt
  bind-GivesFinite (some v) f h = h v refl

  cons-AllGivesFinite :
      (m : Option (FormulaValue Num)) (ms : Option (List (FormulaValue Num)))
      → GivesFinite r a m
      → AllGivesFinite ms
      → AllGivesFinite (◌>>=?◌ r a m λ v. ◌>>=?◌ r a ms λ vs. some (v ∷ vs))
  cons-AllGivesFinite none ms h k = tt
  cons-AllGivesFinite (some v) none h k = tt
  cons-AllGivesFinite (some v) (some vs) h k = (h, k)

  mutual
    unfolding evaluate_formula

    evaluate_formula-GivesFinite :
        (ctx : FormulaContext Num)
        → ((name : Text) → IsFinite r a (ctx.property name))
        → (node : Node Num) → GivesFinite r a (evaluate_formula r a ctx node)
    evaluate_formula-GivesFinite ctx h (Node.number n) = num-IsFinite r a n
    evaluate_formula-GivesFinite ctx h (Node.text t) = tt
    evaluate_formula-GivesFinite ctx h (Node.boolean b) = tt
    evaluate_formula-GivesFinite ctx h (Node.property name) = h name
    evaluate_formula-GivesFinite ctx h (unary op operand) =
        bind-GivesFinite (evaluate_formula r a ctx operand) _ λ v e. with_operand-IsFinite op v
    evaluate_formula-GivesFinite ctx h (binary op left right) =
        bind-GivesFinite (evaluate_formula r a ctx left) _ λ v e. with_operands-GivesFinite op v _
    evaluate_formula-GivesFinite ctx h (call name args) =
        bind-GivesFinite (evaluate_arguments r a ctx args) _ λ vs e.
          call_function-GivesFinite name ctx.today vs
            (subst AllGivesFinite e (evaluate_arguments-AllFinite ctx h args))

    evaluate_arguments-AllFinite :
        (ctx : FormulaContext Num)
        → ((name : Text) → IsFinite r a (ctx.property name))
        → (args : Nodes Num) → AllGivesFinite (evaluate_arguments r a ctx args)
    evaluate_arguments-AllFinite ctx h nil = tt
    evaluate_arguments-AllFinite ctx h (cons arg args) =
        cons-AllGivesFinite (evaluate_formula r a ctx arg) (evaluate_arguments r a ctx args)
          (evaluate_formula-GivesFinite ctx h arg) (evaluate_arguments-AllFinite ctx h args)

  -- On a row whose numbers are finite, a number that a formula answers with is finite.
  pub evaluate_formula_finite :
      (ctx : FormulaContext Num) (node : Node Num) (n : Num)
      → ((name : Text) → IsFinite r a (ctx.property name))
      → evaluate_formula r a ctx node ≡ some (FormulaValue.number n)
      → r.is_finite n ≡ true
  evaluate_formula_finite ctx node n h e =
      subst (GivesFinite r a) e (evaluate_formula-GivesFinite ctx h node)
