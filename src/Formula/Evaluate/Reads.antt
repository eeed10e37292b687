-- ===== src/Formula/Evaluate/Reads.antt =====
-- What the answer of `evaluateFormula` (packages/engine/src/formula.ts) depends on.
use knowtion.Base.{
  Bool, true, false, not, ◌||◌, Option, none, some, List, [], ◌∷◌, ◌++◌, Text, codes, contains, all,
  length, beq_refl, ◌==◌, list_eq, nat_eq, list_beq, list_beq_iff, if◌then◌else◌, ◌≡◌, refl, ap,
  fun_ext, ◌∙◌, arith, Bool-cases, inl, inr,
}
use knowtion.Base.Dict.{lookup, lookup-all}
use knowtion.Runtime.{Runtime}
use knowtion.Formula.Grammar.{
  Node, call, unary, binary, Nodes, nil, cons, walk, walk_args, properties_used, uses_today,
  any_uses_today,
}
use knowtion.Formula.Values.{Arithmetic, FormulaValue, FormulaProblem}
use knowtion.Formula.Functions.{Function, function_names, is_inherited, wrong_count}
use knowtion.Formula.Functions.Call.{
  apply, applied_to, first_error, call_known, call_found, call_function,
}
use knowtion.Formula.Evaluate.{FormulaContext, evaluate_formula, evaluate_arguments}

-- Whether a property's name stands in a tree.
unfoldable mutual
  mentions : {N : Type 0} → Text → Node N → Bool
  mentions p (Node.property name) = p == name
  mentions p (call name args) = mentions_any p args
  mentions p (unary op operand) = mentions p operand
  mentions p (binary op left right) = mentions p left || mentions p right
  mentions p _ = false

  mentions_any : {N : Type 0} → Text → Nodes N → Bool
  mentions_any p nil = false
  mentions_any p (cons arg args) = mentions p arg || mentions_any p args

contains-append :
    (p : Text) (xs ys : List Text) → contains p (xs ++ ys) ≡ (contains p xs || contains p ys)
unfolding contains
contains-append p [] ys = refl
contains-append p (x ∷ xs) ys = ground (arith, contains-append p xs ys)

note_property :
    (p name : Text) (seen : List Text)
    → contains p (if contains name seen then seen else seen ++ (name ∷ []))
      ≡ (contains p seen || p == name)
unfolding contains
note_property p name seen = ground (arith, contains-append p seen (name ∷ []), list_beq_iff p name)

module _ {N : Type 0} where
  mutual
    unfolding walk mentions

    contains-walk :
        (p : Text) (node : Node N) (seen : List Text)
        → contains p (walk node seen) ≡ (contains p seen || mentions p node)
    contains-walk p (Node.property name) seen = note_property p name seen
    contains-walk p (call name args) seen = contains-walk_args p args seen
    contains-walk p (unary op operand) seen = contains-walk p operand seen
    contains-walk p (binary op left right) seen =
        ground (arith, contains-walk p right (walk left seen), contains-walk p left seen)
    contains-walk p (Node.number n) seen = ground arith
    contains-walk p (Node.text t) seen = ground arith
    contains-walk p (Node.boolean b) seen = ground arith

    contains-walk_args :
        (p : Text) (args : Nodes N) (seen : List Text)
        → contains p (walk_args args seen) ≡ (contains p seen || mentions_any p args)
    contains-walk_args p nil seen = ground arith
    contains-walk_args p (cons arg args) seen =
        ground (arith, contains-walk_args p args (walk arg seen), contains-walk p arg seen)

is_today : Function → Bool
is_today Function.today = true
is_today _ = false

-- An entry that answers by the day is the one named `today`.
answers_by_day : Text × Function → Bool
unfolding is_today
answers_by_day (name, f) = not (is_today f) || name == codes "today"

names_by_day : all answers_by_day function_names ≡ true
unfolding answers_by_day list_beq
names_by_day = refl

named_today :
    (name : Text) (f : Function)
    → name == codes "today" ≡ false
    → answers_by_day (name, f) ≡ true
    → is_today f ≡ false
unfolding answers_by_day
named_today name f h k = ground arith

module _ (r : Runtime) (a : Arithmetic (Runtime.Num r)) where
  open r use {Num}

  apply-today :
      (f : Function) (day day' : Text) (args : List (FormulaValue Num))
      → is_today f ≡ false
      → apply r a f day args ≡ apply r a f day' args
  unfolding apply is_today
  apply-today Function.today day day' args h = cc
  apply-today _ day day' args h = refl

  applied_to-today :
      (e : Option (FormulaValue Num)) (f : Function) (day day' : Text)
      (args : List (FormulaValue Num))
      → is_today f ≡ false
      → applied_to r a e f day args ≡ applied_to r a e f day' args
  unfolding applied_to
  applied_to-today (some e) f day day' args h = refl
  applied_to-today none f day day' args h = apply-today f day day' args h

  call_known-today :
      (f : Function) (name day day' : Text) (args : List (FormulaValue Num))
      → is_today f ≡ false
      → call_known r a f name day args ≡ call_known r a f name day' args
  unfolding call_known
  call_known-today f name day day' args h =
      ap
        (λ m.
          if wrong_count f (length args)
          then some (FormulaValue.error (FormulaProblem.wrong_arity name))
          else m)
        (applied_to-today (first_error r a args) f day day' args h)

  call_found-today :
      (o : Option Function) (name day day' : Text) (args : List (FormulaValue Num))
      → ((f : Function) → o ≡ some f → is_today f ≡ false)
      → call_found r a o name day args ≡ call_found r a o name day' args
  unfolding call_found
  call_found-today none name day day' args h = refl
  call_found-today (some f) name day day' args h = call_known-today f name day day' args (h f refl)

  -- Only `today` answers by the day.
  call_function-today :
      (name day day' : Text) (args : List (FormulaValue Num))
      → name == codes "today" ≡ false
      → call_function r a name day args ≡ call_function r a name day' args
  unfolding call_function
  call_function-today name day day' args h =
      ap (λ m. if is_inherited name then none else m)
        (call_found-today (lookup name function_names) name day day' args λ f e.
          named_today name f h (lookup-all answers_by_day name f function_names names_by_day e))

  call_function-agree :
      (name day day' : Text) (args : List (FormulaValue Num))
      → (name == codes "today" ≡ true → day ≡ day')
      → call_function r a name day args ≡ call_function r a name day' args
  call_function-agree name day day' args h = elim (Bool-cases (name == codes "today")) [
    | inl e ↦ ap (λ d. call_function r a name d args) (h e)
    | inr e ↦ call_function-today name day day' args e
  ]

  abbrev AgreeOn : FormulaContext Num → FormulaContext Num → (Text → Bool) → Bool → Type 0
  AgreeOn ctx ctx' reads day =
      ((p : Text) → reads p ≡ true → ctx.property p ≡ ctx'.property p)
      × (day ≡ true → ctx.today ≡ ctx'.today)

  mutual
    unfolding evaluate_formula mentions uses_today

    evaluate_formula-agree :
        (ctx ctx' : FormulaContext Num) (node : Node Num)
        → AgreeOn ctx ctx' (λ p. mentions p node) (uses_today node)
        → evaluate_formula r a ctx node ≡ evaluate_formula r a ctx' node
    evaluate_formula-agree ctx ctx' (Node.property name) (h, t) = ap some (h name (beq_refl name))
    evaluate_formula-agree ctx ctx' (unary op operand) (h, t) =
        rw (evaluate_formula-agree ctx ctx' operand (h, t)) refl
    evaluate_formula-agree ctx ctx' (binary op left right) (h, t) =
        rw
          (
            evaluate_formula-agree ctx ctx' left
                ((λ p e. h p (ground arith)), (λ e. t (ground arith))),
            evaluate_formula-agree ctx ctx' right
                ((λ p e. h p (ground arith)), (λ e. t (ground arith))),
          )
          refl
    evaluate_formula-agree ctx ctx' (call name args) (h, t) =
        rw
          (
            evaluate_arguments-agree ctx ctx' args (h, (λ e. t (ground arith))),
            fun_ext {f = λ vs. call_function r a name ctx.today vs}
                {g = λ vs. call_function r a name ctx'.today vs}
                (λ vs. call_function-agree name ctx.today ctx'.today vs (λ e. t (ground arith))),
          )
          refl
    evaluate_formula-agree ctx ctx' (Node.number n) h = refl
    evaluate_formula-agree ctx ctx' (Node.text s) h = refl
    evaluate_formula-agree ctx ctx' (Node.boolean b) h = refl

    evaluate_arguments-agree :
        (ctx ctx' : FormulaContext Num) (args : Nodes Num)
        → AgreeOn ctx ctx' (λ p. mentions_any p args) (any_uses_today args)
        → evaluate_arguments r a ctx args ≡ evaluate_arguments r a ctx' args
    evaluate_arguments-agree ctx ctx' nil h = refl
    evaluate_arguments-agree ctx ctx' (cons arg args) (h, t) =
        rw
          (
            evaluate_formula-agree ctx ctx' arg
                ((λ p e. h p (ground arith)), (λ e. t (ground arith))),
            evaluate_arguments-agree ctx ctx' args
                ((λ p e. h p (ground arith)), (λ e. t (ground arith))),
          )
          refl

  -- Two contexts that agree on the properties a formula uses, and on the day if it uses that, give it
  -- the same answer.
  pub evaluate_formula-agree_on :
      (ctx ctx' : FormulaContext Num) (node : Node Num)
      → ((p : Text) → contains p (properties_used node) ≡ true → ctx.property p ≡ ctx'.property p)
      → (uses_today node ≡ true → ctx.today ≡ ctx'.today)
      → evaluate_formula r a ctx node ≡ evaluate_formula r a ctx' node
  unfolding properties_used contains
  evaluate_formula-agree_on ctx ctx' node h t =
      evaluate_formula-agree ctx ctx' node ((λ p e. h p (contains-walk p node [] ∙ e)), t)
