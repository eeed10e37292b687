-- ===== src/Formula/Evaluate/Finite.antt =====
-- The numbers that `evaluateFormula` (packages/engine/src/formula.ts) answers with.
pub mod Functions
pub mod Answers
pub mod Rows
use knowtion.Base.{
  Bool, true, false, Option, none, some, List, [], ◌∷◌, Text, if◌then◌else◌, Outcome, ok, err,
  ◌>>=◌, ◌≡◌, refl,
}
use knowtion.Runtime.{Runtime}
use knowtion.Property.Dates.{is_calendar_date}
use knowtion.Formula.Values.{
  Arithmetic, FormulaProblem, FormulaValue, Read, num, as_number, as_text, as_date,
}

module _ (r : Runtime) (a : Arithmetic (Runtime.Num r)) where
  open r use {Num}

  -- A number among the values is finite.
  abbrev pub IsFinite : FormulaValue Num → Type 0
  IsFinite (FormulaValue.number n) = r.is_finite n ≡ true
  IsFinite _ = Unit

  abbrev pub GivesFinite : Option (FormulaValue Num) → Type 0
  GivesFinite none = Unit
  GivesFinite (some v) = IsFinite v

  -- What is read, or returned instead, is finite.
  abbrev pub ReadsFinite : Read r a (FormulaValue Num) → Type 0
  ReadsFinite (ok v) = IsFinite v
  ReadsFinite (err v) = IsFinite v

  abbrev pub AllFinite : List (FormulaValue Num) → Type 0
  AllFinite [] = Unit
  AllFinite (v ∷ vs) = IsFinite v × AllFinite vs

  pub IsFinite-if :
      (b : Bool) (v w : FormulaValue Num) → IsFinite v → IsFinite w → IsFinite (if b then v else w)
  IsFinite-if true v w h k = h
  IsFinite-if false v w h k = k

  pub num-IsFinite : (n : Num) → IsFinite (num r a n)
  unfolding num
  num-IsFinite n = num_if (r.is_finite n) refl
    where
      num_if :
          (b : Bool)
          → r.is_finite n ≡ b
          → IsFinite
              (if b then FormulaValue.number n else FormulaValue.error FormulaProblem.not_a_number)
      num_if true e = e
      num_if false e = tt

  pub as_number-ReadsFinite :
      (place : Text) (v : FormulaValue Num) (f : Num → Read r a (FormulaValue Num))
      → ((n : Num) → ReadsFinite (f n))
      → ReadsFinite (as_number r a place v >>= f)
  unfolding as_number
  as_number-ReadsFinite place (FormulaValue.number n) f h = h n
  as_number-ReadsFinite place (FormulaValue.boolean b) f h = h _
  as_number-ReadsFinite place FormulaValue.empty f h = h _
  as_number-ReadsFinite place _ f h = tt

  pub as_text-ReadsFinite :
      (place : Text) (v : FormulaValue Num) (f : Text → Read r a (FormulaValue Num))
      → ((t : Text) → ReadsFinite (f t))
      → ReadsFinite (as_text r a place v >>= f)
  unfolding as_text
  as_text-ReadsFinite place (FormulaValue.error p) f h = tt
  as_text-ReadsFinite place (FormulaValue.number n) f h = h _
  as_text-ReadsFinite place (FormulaValue.boolean b) f h = h _
  as_text-ReadsFinite place (FormulaValue.text t) f h = h _
  as_text-ReadsFinite place (FormulaValue.date day) f h = h _
  as_text-ReadsFinite place FormulaValue.empty f h = h _

  pub as_date-ReadsFinite :
      (place : Text) (v : FormulaValue Num) (f : Text → Read r a (FormulaValue Num))
      → ((t : Text) → ReadsFinite (f t))
      → ReadsFinite (as_date r a place v >>= f)
  unfolding as_date
  as_date-ReadsFinite place (FormulaValue.date day) f h = h day
  as_date-ReadsFinite place (FormulaValue.text t) f h = date_if (is_calendar_date t)
    where
      date_if :
          (b : Bool)
          → ReadsFinite (
              (if b then ok t else err (FormulaValue.error (FormulaProblem.needs_date place)))
              >>= f)
      date_if true = h t
      date_if false = tt
  as_date-ReadsFinite place _ f h = tt
