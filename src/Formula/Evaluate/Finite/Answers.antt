-- ===== src/Formula/Evaluate/Finite/Answers.antt =====
-- The numbers that a function of a formula answers with (packages/engine/src/formula.ts).
use knowtion.Base.{
  Bool, true, false, Option, none, some, List, [], Text, codes, if◌then◌else◌, list_eq, nat_eq, ok,
  err, ◌>>=◌,
}
use knowtion.Runtime.{Runtime}
use knowtion.Property.Dates.{is_calendar_date}
use knowtion.Formula.Values.{Arithmetic, FormulaProblem, FormulaValue, Read, as_number, as_date}
use knowtion.Formula.Functions.{Function}
use knowtion.Formula.Functions.Readers.{argument, some_value, concat_texts, on_text}
use knowtion.Formula.Functions.Call.{
  replace_text, shifted, returned_if_any, add_to_date, held, apply,
}
use knowtion.Formula.Evaluate.Finite.{
  IsFinite, ReadsFinite, GivesFinite, AllFinite, IsFinite-if, num-IsFinite,
}
use knowtion.Formula.Evaluate.Finite.Functions.{
  returned-IsFinite, argument-IsFinite, concat_texts-ReadsFinite, reduce_numbers-ReadsFinite,
  on_text-ReadsFinite, on_number-ReadsFinite, on_folded-ReadsFinite, date_part-ReadsFinite,
  replace_text-ReadsFinite, slice_text-ReadsFinite, round_number-ReadsFinite, power_of-ReadsFinite,
  square_root-IsFinite, difference_of_dates-ReadsFinite, to_text-ReadsFinite, to_number-ReadsFinite,
}

module _ (r : Runtime) (a : Arithmetic (Runtime.Num r)) where
  open r use {Num}

  -- What is returned instead is finite.
  abbrev pub InsteadFinite : {B : Type 0} → Read r a B → Type 0
  InsteadFinite (ok b) = Unit
  InsteadFinite (err v) = IsFinite r a v

  pub InsteadFinite-bind :
      {B C : Type 0} (m : Read r a B) (f : B → Read r a C)
      → InsteadFinite m
      → ((b : B) → InsteadFinite (f b))
      → InsteadFinite (m >>= f)
  InsteadFinite-bind (ok b) f h k = k b
  InsteadFinite-bind (err v) f h k = h

  pub as_number-InsteadFinite :
      (place : Text) (v : FormulaValue Num) → InsteadFinite (as_number r a place v)
  unfolding as_number
  as_number-InsteadFinite place (FormulaValue.number n) = tt
  as_number-InsteadFinite place (FormulaValue.boolean b) = tt
  as_number-InsteadFinite place FormulaValue.empty = tt
  as_number-InsteadFinite place _ = tt

  as_date-InsteadFinite :
      (place : Text) (v : FormulaValue Num) → InsteadFinite (as_date r a place v)
  unfolding as_date
  as_date-InsteadFinite place (FormulaValue.date day) = tt
  as_date-InsteadFinite place (FormulaValue.text t) = date_if (is_calendar_date t)
    where
      date_if :
          (b : Bool)
          → InsteadFinite
              (if b then ok t else err (FormulaValue.error (FormulaProblem.needs_date place)))
      date_if true = tt
      date_if false = tt
  as_date-InsteadFinite place _ = tt

  returned_if_any-GivesFinite :
      (m : Read r a (Option Text)) → InsteadFinite m → GivesFinite r a (returned_if_any r a m)
  unfolding returned_if_any shifted
  returned_if_any-GivesFinite (ok none) h = tt
  returned_if_any-GivesFinite (ok (some day)) h = tt
  returned_if_any-GivesFinite (err v) h = h

  add_to_date-GivesFinite :
      (args : List (FormulaValue Num)) → GivesFinite r a (add_to_date r a args)
  unfolding add_to_date
  add_to_date-GivesFinite args = returned_if_any-GivesFinite _ (
      InsteadFinite-bind (as_date r a (codes "dateAdd()") (argument r a 0 args)) _
        (as_date-InsteadFinite _ _)
        λ day.
          InsteadFinite-bind (as_number r a (codes "dateAdd()") (argument r a 1 args)) _
            (as_number-InsteadFinite _ _) λ n. tt)

  held-GivesFinite :
      (m : Option (FormulaValue Num)) → GivesFinite r a m → GivesFinite r a (held r a m)
  held-GivesFinite none h = tt
  held-GivesFinite (some (FormulaValue.text t)) h = text_if (a.fits t)
    where
      text_if : (b : Bool) → GivesFinite r a (if b then some (FormulaValue.text t) else none)
      text_if true = tt
      text_if false = tt
  held-GivesFinite (some (FormulaValue.number n)) h = h
  held-GivesFinite (some (FormulaValue.boolean b)) h = tt
  held-GivesFinite (some (FormulaValue.date day)) h = tt
  held-GivesFinite (some FormulaValue.empty) h = tt
  held-GivesFinite (some (FormulaValue.error p)) h = tt

  held_read-GivesFinite :
      (m : Read r a (FormulaValue Num))
      → ReadsFinite r a m
      → GivesFinite r a (held r a (some_value r a m))
  held_read-GivesFinite m h = held-GivesFinite (some_value r a m) (returned-IsFinite r a m h)

  pub apply-GivesFinite :
      (f : Function) (today : Text) (args : List (FormulaValue Num))
      → AllFinite r a args
      → GivesFinite r a (apply r a f today args)
  unfolding apply
  apply-GivesFinite Function.if today args h =
      IsFinite-if r a _ _ _ (argument-IsFinite r a 1 args h) (argument-IsFinite r a 2 args h)
  apply-GivesFinite Function.is_empty today args h = tt
  apply-GivesFinite Function.concat today args h =
      held_read-GivesFinite (concat_texts r a [] args) (concat_texts-ReadsFinite r a [] args)
  apply-GivesFinite Function.length today args h =
      returned-IsFinite r a _ (on_text-ReadsFinite r a _ _ args λ t. num-IsFinite r a _)
  apply-GivesFinite Function.lower today args h =
      held_read-GivesFinite
        (on_text r a (codes "lower()") (λ t. FormulaValue.text (a.lower t)) args)
        (on_text-ReadsFinite r a (codes "lower()") (λ t. FormulaValue.text (a.lower t)) args
          λ t. tt)
  apply-GivesFinite Function.upper today args h =
      held_read-GivesFinite
        (on_text r a (codes "upper()") (λ t. FormulaValue.text (a.upper t)) args)
        (on_text-ReadsFinite r a (codes "upper()") (λ t. FormulaValue.text (a.upper t)) args
          λ t. tt)
  apply-GivesFinite Function.trim today args h =
      returned-IsFinite r a _ (on_text-ReadsFinite r a _ _ args λ t. tt)
  apply-GivesFinite Function.contains today args h =
      returned-IsFinite r a _ (on_folded-ReadsFinite r a _ _ args)
  apply-GivesFinite Function.starts_with today args h =
      returned-IsFinite r a _ (on_folded-ReadsFinite r a _ _ args)
  apply-GivesFinite Function.replace today args h =
      held_read-GivesFinite (replace_text r a args) (replace_text-ReadsFinite r a args)
  apply-GivesFinite Function.slice today args h =
      returned-IsFinite r a _ (slice_text-ReadsFinite r a args)
  apply-GivesFinite Function.abs today args h =
      returned-IsFinite r a _ (on_number-ReadsFinite r a _ _ args λ n. num-IsFinite r a _)
  apply-GivesFinite Function.round today args h =
      returned-IsFinite r a _ (round_number-ReadsFinite r a args)
  apply-GivesFinite Function.floor today args h =
      returned-IsFinite r a _ (on_number-ReadsFinite r a _ _ args λ n. num-IsFinite r a _)
  apply-GivesFinite Function.ceil today args h =
      returned-IsFinite r a _ (on_number-ReadsFinite r a _ _ args λ n. num-IsFinite r a _)
  apply-GivesFinite Function.min today args h =
      returned-IsFinite r a _ (reduce_numbers-ReadsFinite r a _ _ none args)
  apply-GivesFinite Function.max today args h =
      returned-IsFinite r a _ (reduce_numbers-ReadsFinite r a _ _ none args)
  apply-GivesFinite Function.pow today args h =
      returned-IsFinite r a _ (power_of-ReadsFinite r a args)
  apply-GivesFinite Function.sqrt today args h =
      returned-IsFinite r a _ (on_number-ReadsFinite r a _ _ args (square_root-IsFinite r a))
  apply-GivesFinite Function.today today args h = tt
  apply-GivesFinite Function.date_add today args h = add_to_date-GivesFinite args
  apply-GivesFinite Function.date_diff today args h =
      returned-IsFinite r a _ (difference_of_dates-ReadsFinite r a args)
  apply-GivesFinite Function.year today args h =
      returned-IsFinite r a _ (date_part-ReadsFinite r a _ _ args)
  apply-GivesFinite Function.month today args h =
      returned-IsFinite r a _ (date_part-ReadsFinite r a _ _ args)
  apply-GivesFinite Function.day today args h =
      returned-IsFinite r a _ (date_part-ReadsFinite r a _ _ args)
  apply-GivesFinite Function.to_text today args h =
      returned-IsFinite r a _ (to_text-ReadsFinite r a _)
  apply-GivesFinite Function.to_number today args h =
      returned-IsFinite r a _ (to_number-ReadsFinite r a _ (argument-IsFinite r a 0 args h))
