-- ===== src/Tests/Formulas.antt =====
-- Formulas that are parsed and evaluated.
use knowtion.Base.{
  ℕ, suc, ◌*◌, ◌^◌, ◌/◌, ◌%◌, ◌≤◌, min, max, ◌≡◌, ◌≢◌, refl, true, some, [], Text, codes, list_beq,
  contains, arith, if◌then◌else◌, ◌==◌, list_eq, nat_eq,
}
use knowtion.Base.Dict.{lookup}
use knowtion.Property.Dates.{number_of_digits}
use knowtion.Evaluate.Matching.{starts_with}
use knowtion.Formula.Grammar.{
  Node, call, binary, nil, cons, BinaryOp, ArithmeticOp, walk, properties_used, uses_today,
  binary_op_named, infix_power, node_count,
}
use knowtion.Formula.Tokens.{
  units, units_of, tokenise, tokenise_from, step, begin, begin_symbol, find_symbol, finish,
}
use knowtion.Formula.Parse.{
  parsed, out_of_fuel, lower_ascii, peek, advance, at_symbol, expect, infix_spelt, strong_enough,
  next_infix, property_of, named_call, symbol_start, start_of, word_of, word_after, literal,
  expression, whole, parse, parse_tokens, parse_formula,
}
use knowtion.Formula.Parse.Total.{parse_formula_total, node_count-parse_formula}
use knowtion.Formula.Values.{Arithmetic, FormulaValue, num, as_number}
use knowtion.Formula.Functions.{is_inherited, wrong_count, arity}
use knowtion.Formula.Functions.Readers.{reduce_numbers}
use knowtion.Formula.Functions.Call.{call_function, call_known, first_error, apply}
use knowtion.Formula.Evaluate.{
  FormulaContext, with_operands, decided_by, combine, calculate, evaluate_formula,
}
use knowtion.Formula.Evaluate.Finite.{IsFinite-if}
use knowtion.Formula.Evaluate.Reads.{evaluate_formula-agree_on}
use knowtion.Formula.Evaluate.Finite.Rows.{evaluate_formula_finite}
use knowtion.Tests.Samples.{natural}

-- Arithmetic on the natural numbers, where no day can be shown.
abbrev counting : Arithmetic ℕ
counting = record {
  text_of = λ n. [];
  multiply = λ m n. m * n;
  divide = λ m n. m / n;
  remainder = λ m n. m % n;
  power = λ m n. m ^ n;
  minimum = min;
  maximum = max;
  negate = λ n. 0;
  abs = λ n. n;
  floor = λ n. n;
  ceil = λ n. n;
  round = λ n. n;
  trunc = λ n. n;
  half = 1;
  relative_index = λ n size. min n size;
  lower = λ t. t;
  upper = λ t. t;
  trim = λ t. t;
  fits = λ t. true;
}

abbrev source : Text
source = codes "1 + 2 * max(3, prop('n'))"

abbrev tree : Node ℕ
tree = binary (BinaryOp.arithmetic ArithmeticOp.add) (Node.number 1) (
    binary (BinaryOp.arithmetic ArithmeticOp.multiply) (Node.number 2)
      (call (codes "max") (cons (Node.number 3) (cons (Node.property (codes "n")) nil))))

parse_source : parse_formula natural (number_of_digits 0) source ≡ parsed tree
unfolding number_of_digits lower_ascii list_beq tokenise tokenise_from step begin begin_symbol
    find_symbol finish units units_of binary_op_named infix_power peek advance at_symbol expect
    infix_spelt strong_enough next_infix property_of named_call symbol_start start_of word_of
    word_after literal expression whole parse parse_tokens parse_formula starts_with
parse_source = refl

parse_formula_total_example : parse_formula natural (number_of_digits 0) source ≢ out_of_fuel
parse_formula_total_example = parse_formula_total natural (number_of_digits 0) source

node_count-parse_formula_example : node_count tree ≤ suc (units source)
node_count-parse_formula_example =
    node_count-parse_formula natural (number_of_digits 0) source tree parse_source

abbrev row : Text → FormulaValue ℕ → FormulaContext ℕ
row today other = record {
  property = λ name. if name == codes "n" then FormulaValue.number 7 else other;
  today = today;
}

abbrev monday : FormulaContext ℕ
monday = row (codes "2026-01-05") FormulaValue.empty

abbrev tuesday : FormulaContext ℕ
tuesday = row (codes "2026-01-06") (FormulaValue.text (codes "other"))

only_n :
    (p : Text) → contains p (properties_used tree) ≡ true → monday.property p ≡ tuesday.property p
unfolding properties_used walk contains list_beq
only_n p e = ground arith

evaluate_formula-agree_on_example :
    evaluate_formula natural counting monday tree ≡ evaluate_formula natural counting tuesday tree
unfolding uses_today list_beq
evaluate_formula-agree_on_example =
    evaluate_formula-agree_on natural counting monday tuesday tree only_n (λ e. cc)

answer : evaluate_formula natural counting monday tree ≡ some (FormulaValue.number 15)
unfolding evaluate_formula list_beq with_operands num decided_by call_function is_inherited lookup
    call_known wrong_count arity first_error apply reduce_numbers as_number combine calculate
answer = refl

evaluate_formula_finite_example : natural.is_finite 15 ≡ true
evaluate_formula_finite_example =
    evaluate_formula_finite natural counting monday tree 15
      (λ name. IsFinite-if natural counting (name == codes "n") _ _ refl tt) answer
