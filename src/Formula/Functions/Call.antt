-- ===== src/Formula/Functions/Call.antt =====
-- What each function of packages/engine/src/formula.ts returns, and `callFunction`.
use knowtion.Base.{
  ◌-◌, Bool, true, false, Option, none, some, List, [], ◌∷◌, Text, codes, length, take, drop,
  list_eq, nat_eq, if◌then◌else◌, ok, err, ◌>>=◌,
}
use knowtion.Base.Dict.{lookup}
use knowtion.Runtime.{Runtime}
use knowtion.Property.Calendar.{add_days}
use knowtion.Evaluate.Matching.{includes, starts_with}
use knowtion.Formula.Values.{
  Arithmetic, FormulaProblem, FormulaValue, is_error, Read, num, as_number, as_text, as_date,
  truthy, days_between,
}
use knowtion.Formula.Functions.{Function, function_names, wrong_count, is_inherited}
use knowtion.Formula.Functions.Readers.{
  replace_all, argument, some_value, concat_texts, reduce_numbers, on_text, on_number, on_folded,
  date_part, optional_number, to_number, to_text,
}

module _ (r : Runtime) (a : Arithmetic (Runtime.Num r)) where
  open r use {Num}

  unfoldable pub replace_text : List (FormulaValue Num) → Read r a (FormulaValue Num)
  replace_text args = do
    haystack ← as_text r a (codes "replace()") (argument r a 0 args)
    needle ← as_text r a (codes "replace()") (argument r a 1 args)
    with_ ← as_text r a (codes "replace()") (argument r a 2 args)
    ok (FormulaValue.text (replace_all haystack needle with_))

  -- `chars.slice(from, to)`
  unfoldable pub slice_of : Num → Num → Text → Text
  slice_of from to chars =
      let start = a.relative_index (a.trunc from) (length chars) in
      take (a.relative_index (a.trunc to) (length chars) - start) (drop start chars)

  unfoldable pub slice_text : List (FormulaValue Num) → Read r a (FormulaValue Num)
  slice_text args = do
    value ← as_text r a (codes "slice()") (argument r a 0 args)
    from ← as_number r a (codes "slice()") (argument r a 1 args)
    to ← optional_number r a (codes "slice()") 2 (r.of_nat (length value)) args
    ok (FormulaValue.text (slice_of from to value))

  unfoldable pub round_number : List (FormulaValue Num) → Read r a (FormulaValue Num)
  round_number args = do
    value ← as_number r a (codes "round()") (argument r a 0 args)
    places ← optional_number r a (codes "round()") 1 (r.of_nat 0) args
    let factor =
        a.power (r.of_nat 10) (a.maximum (r.of_nat 0) (a.minimum (r.of_nat 10) (a.trunc places)))
    ok (num r a (a.divide (a.round (a.multiply value factor)) factor))

  unfoldable pub power_of : List (FormulaValue Num) → Read r a (FormulaValue Num)
  power_of args = do
    base ← as_number r a (codes "pow()") (argument r a 0 args)
    exponent ← as_number r a (codes "pow()") (argument r a 1 args)
    ok (num r a (a.power base exponent))

  unfoldable pub square_root : Num → FormulaValue Num
  square_root n =
      if r.num_lt n (r.of_nat 0)
      then FormulaValue.error FormulaProblem.negative_root
      else num r a (a.power n a.half)

  -- The day that `addDays` returned, unless it threw.
  unfoldable pub shifted : Option Text → Option (FormulaValue Num)
  shifted none = none
  shifted (some day) = some (FormulaValue.date day)

  unfoldable pub returned_if_any : Read r a (Option Text) → Option (FormulaValue Num)
  unfolding shifted
  returned_if_any (ok day) = shifted day
  returned_if_any (err v) = some v

  unfoldable pub add_to_date : List (FormulaValue Num) → Option (FormulaValue Num)
  unfolding returned_if_any
  add_to_date args = returned_if_any do
    day ← as_date r a (codes "dateAdd()") (argument r a 0 args)
    days ← as_number r a (codes "dateAdd()") (argument r a 1 args)
    ok (add_days r day (a.trunc days))

  unfoldable pub difference_of_dates : List (FormulaValue Num) → Read r a (FormulaValue Num)
  difference_of_dates args = do
    from ← as_date r a (codes "dateDiff()") (argument r a 0 args)
    to ← as_date r a (codes "dateDiff()") (argument r a 1 args)
    ok (num r a (days_between r a from to))

  is_empty_argument : FormulaValue Num → Bool
  is_empty_argument FormulaValue.empty = true
  is_empty_argument _ = false

  -- A text that is made, unless it is too long for a string.
  abbrev pub held : Option (FormulaValue Num) → Option (FormulaValue Num)
  held (some (FormulaValue.text t)) = if a.fits t then some (FormulaValue.text t) else none
  held result = result

  -- `FUNCTIONS`, on the arguments and the day of `today()`. It is `none` where `addDays` throws, and where
  -- a string becomes too long.
  unfoldable pub apply : Function → Text → List (FormulaValue Num) → Option (FormulaValue Num)
  unfolding is_empty_argument
  apply Function.if today args =
      some_value r a
        (ok (if truthy r a (argument r a 0 args) then argument r a 1 args else argument r a 2 args))
  apply Function.is_empty today args =
      some_value r a (ok (FormulaValue.boolean (is_empty_argument (argument r a 0 args))))
  apply Function.concat today args = held (some_value r a (concat_texts r a [] args))
  apply Function.length today args =
      some_value r a (on_text r a (codes "length()") (λ t. num r a (r.of_nat (length t))) args)
  apply Function.lower today args =
      held
        (some_value r a (on_text r a (codes "lower()") (λ t. FormulaValue.text (a.lower t)) args))
  apply Function.upper today args =
      held
        (some_value r a (on_text r a (codes "upper()") (λ t. FormulaValue.text (a.upper t)) args))
  apply Function.trim today args =
      some_value r a (on_text r a (codes "trim()") (λ t. FormulaValue.text (a.trim t)) args)
  apply Function.contains today args =
      some_value r a (on_folded r a (codes "contains()") includes args)
  apply Function.starts_with today args =
      some_value r a (on_folded r a (codes "startsWith()") starts_with args)
  apply Function.replace today args = held (some_value r a (replace_text args))
  apply Function.slice today args = some_value r a (slice_text args)
  apply Function.abs today args =
      some_value r a (on_number r a (codes "abs()") (λ n. num r a (a.abs n)) args)
  apply Function.round today args = some_value r a (round_number args)
  apply Function.floor today args =
      some_value r a (on_number r a (codes "floor()") (λ n. num r a (a.floor n)) args)
  apply Function.ceil today args =
      some_value r a (on_number r a (codes "ceil()") (λ n. num r a (a.ceil n)) args)
  apply Function.min today args =
      some_value r a (reduce_numbers r a (codes "min()") a.minimum none args)
  apply Function.max today args =
      some_value r a (reduce_numbers r a (codes "max()") a.maximum none args)
  apply Function.pow today args = some_value r a (power_of args)
  apply Function.sqrt today args = some_value r a (on_number r a (codes "sqrt()") square_root args)
  apply Function.today today args = some_value r a (ok (FormulaValue.date today))
  apply Function.date_add today args = add_to_date args
  apply Function.date_diff today args = some_value r a (difference_of_dates args)
  apply Function.year today args = some_value r a (date_part r a (codes "year()") 0 args)
  apply Function.month today args = some_value r a (date_part r a (codes "month()") 1 args)
  apply Function.day today args = some_value r a (date_part r a (codes "day()") 2 args)
  apply Function.to_text today args = some_value r a (to_text r a (argument r a 0 args))
  apply Function.to_number today args = some_value r a (to_number r a (argument r a 0 args))

  -- `for (const arg of args) if (isError(arg)) return arg;`
  unfoldable pub first_error : List (FormulaValue Num) → Option (FormulaValue Num)
  first_error [] = none
  first_error (v ∷ vs) = if is_error v then some v else first_error vs

  unfoldable pub applied_to :
      Option (FormulaValue Num)
      → Function
      → Text
      → List (FormulaValue Num)
      → Option (FormulaValue Num)
  applied_to (some e) f today args = some e
  applied_to none f today args = apply f today args

  unfoldable pub call_known :
      Function → Text → Text → List (FormulaValue Num) → Option (FormulaValue Num)
  unfolding applied_to
  call_known f name today args =
      if wrong_count f (length args)
      then some (FormulaValue.error (FormulaProblem.wrong_arity name))
      else applied_to (first_error args) f today args

  unfoldable pub call_found :
      Option Function → Text → Text → List (FormulaValue Num) → Option (FormulaValue Num)
  call_found none name today args = some (FormulaValue.error (FormulaProblem.unknown_function name))
  call_found (some f) name today args = call_known f name today args

  -- `callFunction`. It is `none` on the names that are inherited, see `is_inherited`, and where a
  -- function throws.
  unfoldable pub call_function : Text → Text → List (FormulaValue Num) → Option (FormulaValue Num)
  unfolding call_found
  call_function name today args =
      if is_inherited name then none else call_found (lookup name function_names) name today args
