-- ===== src/Formula/Evaluate/Finite/Functions.antt =====
-- The numbers that the functions of packages/engine/src/formula.ts return.
use knowtion.Base.{
  ℕ, zero, suc, Bool, true, false, Option, none, some, List, [], ◌∷◌, ◌++◌, Text, length, ltb,
  if◌then◌else◌, ok, err, ◌>>=◌, ◌==◌, list_eq, nat_eq,
}
use knowtion.Runtime.{Runtime}
use knowtion.Formula.Values.{Arithmetic, FormulaValue, Read, as_number}
use knowtion.Formula.Functions.Readers.{
  argument, returned, concat_texts, reduce_numbers, on_text, on_number, on_folded, date_part,
  optional_number, parsed_number, to_number, to_text,
}
use knowtion.Formula.Functions.Call.{
  replace_text, slice_text, round_number, power_of, square_root, difference_of_dates,
}
use knowtion.Formula.Evaluate.Finite.{
  IsFinite, ReadsFinite, AllFinite, IsFinite-if, num-IsFinite, as_number-ReadsFinite,
  as_text-ReadsFinite, as_date-ReadsFinite,
}

module _ (r : Runtime) (a : Arithmetic (Runtime.Num r)) where
  open r use {Num}

  pub returned-IsFinite :
      (m : Read r a (FormulaValue Num)) → ReadsFinite r a m → IsFinite r a (returned r a m)
  returned-IsFinite (ok v) h = h
  returned-IsFinite (err v) h = h

  pub argument-IsFinite :
      (i : ℕ) (args : List (FormulaValue Num))
      → AllFinite r a args
      → IsFinite r a (argument r a i args)
  unfolding argument
  argument-IsFinite i [] h = tt
  argument-IsFinite zero (v ∷ vs) (h, k) = h
  argument-IsFinite (suc i) (v ∷ vs) (h, k) = argument-IsFinite i vs k

  pub concat_texts-ReadsFinite :
      (out : Text) (vs : List (FormulaValue Num)) → ReadsFinite r a (concat_texts r a out vs)
  unfolding concat_texts
  concat_texts-ReadsFinite out [] = tt
  concat_texts-ReadsFinite out (v ∷ vs) =
      as_text-ReadsFinite r a _ v _ λ t. concat_texts-ReadsFinite (out ++ t) vs

  pub reduce_numbers-ReadsFinite :
      (place : Text) (pick : Num → Num → Num) (best : Option Num) (vs : List (FormulaValue Num))
      → ReadsFinite r a (reduce_numbers r a place pick best vs)
  unfolding reduce_numbers
  reduce_numbers-ReadsFinite place pick none [] = tt
  reduce_numbers-ReadsFinite place pick (some best) [] = num-IsFinite r a best
  reduce_numbers-ReadsFinite place pick none (FormulaValue.empty ∷ vs) =
      reduce_numbers-ReadsFinite place pick none vs
  reduce_numbers-ReadsFinite place pick (some best) (FormulaValue.empty ∷ vs) =
      reduce_numbers-ReadsFinite place pick (some best) vs
  reduce_numbers-ReadsFinite place pick none (_ ∷ vs) =
      as_number-ReadsFinite r a place _ _ λ n. reduce_numbers-ReadsFinite place pick (some n) vs
  reduce_numbers-ReadsFinite place pick (some best) (_ ∷ vs) =
      as_number-ReadsFinite r a place _ _
        λ n. reduce_numbers-ReadsFinite place pick (some (pick best n)) vs

  pub on_text-ReadsFinite :
      (place : Text) (f : Text → FormulaValue Num) (args : List (FormulaValue Num))
      → ((t : Text) → IsFinite r a (f t))
      → ReadsFinite r a (on_text r a place f args)
  unfolding on_text
  on_text-ReadsFinite place f args h = as_text-ReadsFinite r a place _ _ h

  pub on_number-ReadsFinite :
      (place : Text) (f : Num → FormulaValue Num) (args : List (FormulaValue Num))
      → ((n : Num) → IsFinite r a (f n))
      → ReadsFinite r a (on_number r a place f args)
  unfolding on_number
  on_number-ReadsFinite place f args h = as_number-ReadsFinite r a place _ _ h

  pub on_folded-ReadsFinite :
      (place : Text) (test : Text → Text → Bool) (args : List (FormulaValue Num))
      → ReadsFinite r a (on_folded r a place test args)
  unfolding on_folded
  on_folded-ReadsFinite place test args =
      as_text-ReadsFinite r a place _ _ λ s. as_text-ReadsFinite r a place _ _ λ t. tt

  pub date_part-ReadsFinite :
      (place : Text) (i : ℕ) (args : List (FormulaValue Num))
      → ReadsFinite r a (date_part r a place i args)
  unfolding date_part
  date_part-ReadsFinite place i args = as_date-ReadsFinite r a place _ _ λ t. num-IsFinite r a _

  pub optional_number-ReadsFinite :
      (place : Text) (i : ℕ) (default : Num) (args : List (FormulaValue Num))
      (f : Num → Read r a (FormulaValue Num))
      → ((n : Num) → ReadsFinite r a (f n))
      → ReadsFinite r a (optional_number r a place i default args >>= f)
  unfolding optional_number
  optional_number-ReadsFinite place i default args f h = given_if (ltb i (length args))
    where
      given_if :
          (b : Bool)
          → ReadsFinite r a
              ((if b then as_number r a place (argument r a i args) else ok default) >>= f)
      given_if true = as_number-ReadsFinite r a place _ f h
      given_if false = h default

  pub replace_text-ReadsFinite :
      (args : List (FormulaValue Num)) → ReadsFinite r a (replace_text r a args)
  unfolding replace_text
  replace_text-ReadsFinite args =
      as_text-ReadsFinite r a _ _ _
        λ s. as_text-ReadsFinite r a _ _ _ λ t. as_text-ReadsFinite r a _ _ _ λ u. tt

  pub slice_text-ReadsFinite :
      (args : List (FormulaValue Num)) → ReadsFinite r a (slice_text r a args)
  unfolding slice_text
  slice_text-ReadsFinite args =
      as_text-ReadsFinite r a _ _ _
        λ t. as_number-ReadsFinite r a _ _ _ λ n. optional_number-ReadsFinite _ 2 _ args _ λ m. tt

  pub round_number-ReadsFinite :
      (args : List (FormulaValue Num)) → ReadsFinite r a (round_number r a args)
  unfolding round_number
  round_number-ReadsFinite args =
      as_number-ReadsFinite r a _ _ _
        λ n. optional_number-ReadsFinite _ 1 _ args _ λ m. num-IsFinite r a _

  pub power_of-ReadsFinite : (args : List (FormulaValue Num)) → ReadsFinite r a (power_of r a args)
  unfolding power_of
  power_of-ReadsFinite args =
      as_number-ReadsFinite r a _ _ _ λ m. as_number-ReadsFinite r a _ _ _ λ n. num-IsFinite r a _

  pub square_root-IsFinite : (n : Num) → IsFinite r a (square_root r a n)
  unfolding square_root
  square_root-IsFinite n =
      IsFinite-if r a (r.num_lt n (r.of_nat 0)) _ _ tt (num-IsFinite r a (a.power n a.half))

  pub difference_of_dates-ReadsFinite :
      (args : List (FormulaValue Num)) → ReadsFinite r a (difference_of_dates r a args)
  unfolding difference_of_dates
  difference_of_dates-ReadsFinite args =
      as_date-ReadsFinite r a _ _ _ λ s. as_date-ReadsFinite r a _ _ _ λ t. num-IsFinite r a _

  pub to_text-ReadsFinite : (v : FormulaValue Num) → ReadsFinite r a (to_text r a v)
  unfolding to_text
  to_text-ReadsFinite FormulaValue.empty = tt
  to_text-ReadsFinite (FormulaValue.error p) = tt
  to_text-ReadsFinite _ = as_text-ReadsFinite r a _ _ _ λ t. tt

  pub parsed_number-IsFinite : (t : Text) → IsFinite r a (parsed_number r a t)
  unfolding parsed_number
  parsed_number-IsFinite t =
      IsFinite-if r a (t == []) _ _ tt
        (IsFinite-if r a (r.is_finite (r.number_of t)) _ _ (num-IsFinite r a _) tt)

  pub to_number-ReadsFinite :
      (v : FormulaValue Num) → IsFinite r a v → ReadsFinite r a (to_number r a v)
  unfolding to_number
  to_number-ReadsFinite FormulaValue.empty h = tt
  to_number-ReadsFinite (FormulaValue.error p) h = tt
  to_number-ReadsFinite (FormulaValue.number n) h = h
  to_number-ReadsFinite (FormulaValue.boolean b) h = num-IsFinite r a _
  to_number-ReadsFinite _ h = as_text-ReadsFinite r a _ _ _ λ t. parsed_number-IsFinite (a.trim t)
