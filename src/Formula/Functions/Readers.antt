-- ===== src/Formula/Functions/Readers.antt =====
-- What the functions of packages/engine/src/formula.ts share: their arguments, and the loops.
use knowtion.Base.{
  ℕ, zero, suc, ◌-◌, Bool, true, false, Option, none, some, List, [], ◌∷◌, ◌++◌, Text, codes,
  length, ltb, ◌==◌, list_eq, nat_eq, if◌then◌else◌, ok, err, ◌>>=◌,
}
use knowtion.Runtime.{Runtime}
use knowtion.Evaluate.Matching.{fold_text, starts_with}
use knowtion.Formula.Values.{
  Arithmetic, FormulaProblem, FormulaValue, Read, num, as_number, as_text, as_date, part_of,
}

-- `haystack.split(needle).join(with_)` for a needle that is not empty; the first number counts the
-- characters of a match that are still to pass.
unfoldable pub replace_from : ℕ → Text → Text → Text → Text
replace_from n needle with_ [] = []
replace_from (suc n) needle with_ (c ∷ cs) = replace_from n needle with_ cs
replace_from zero needle with_ (c ∷ cs) = elim (starts_with (c ∷ cs) needle) [
  | true ↦ with_ ++ replace_from (length needle - 1) needle with_ cs
  | false ↦ c ∷ replace_from 0 needle with_ cs
]

unfoldable pub replace_all : Text → Text → Text → Text
replace_all haystack needle with_ =
    if needle == [] then haystack else replace_from 0 needle with_ haystack

module _ (r : Runtime) (a : Arithmetic (Runtime.Num r)) where
  open r use {Num}

  -- `args[i] ?? EMPTY`
  unfoldable pub argument : ℕ → List (FormulaValue Num) → FormulaValue Num
  argument i [] = FormulaValue.empty
  argument zero (v ∷ vs) = v
  argument (suc i) (v ∷ vs) = argument i vs

  -- A value was read, or another is returned instead.
  abbrev pub returned : Read r a (FormulaValue Num) → FormulaValue Num
  returned (ok v) = v
  returned (err v) = v

  abbrev pub some_value : Read r a (FormulaValue Num) → Option (FormulaValue Num)
  some_value m = some (returned m)

  unfoldable pub concat_texts : Text → List (FormulaValue Num) → Read r a (FormulaValue Num)
  concat_texts out [] = ok (FormulaValue.text out)
  concat_texts out (v ∷ vs) = do
    part ← as_text r a (codes "concat()") v
    concat_texts (out ++ part) vs

  -- `reduceNumbers`
  unfoldable pub reduce_numbers :
      Text → (Num → Num → Num) → Option Num → List (FormulaValue Num) → Read r a (FormulaValue Num)
  reduce_numbers place pick none [] = ok FormulaValue.empty
  reduce_numbers place pick (some best) [] = ok (num r a best)
  reduce_numbers place pick best (FormulaValue.empty ∷ vs) = reduce_numbers place pick best vs
  reduce_numbers place pick none (v ∷ vs) = do
    n ← as_number r a place v
    reduce_numbers place pick (some n) vs
  reduce_numbers place pick (some best) (v ∷ vs) = do
    n ← as_number r a place v
    reduce_numbers place pick (some (pick best n)) vs

  unfoldable pub on_text :
      Text → (Text → FormulaValue Num) → List (FormulaValue Num) → Read r a (FormulaValue Num)
  on_text place f args = do t ← as_text r a place (argument 0 args); ok (f t)

  unfoldable pub on_number :
      Text → (Num → FormulaValue Num) → List (FormulaValue Num) → Read r a (FormulaValue Num)
  on_number place f args = do n ← as_number r a place (argument 0 args); ok (f n)

  -- A test of two folded texts.
  unfoldable pub on_folded :
      Text → (Text → Text → Bool) → List (FormulaValue Num) → Read r a (FormulaValue Num)
  on_folded place test args = do
    haystack ← as_text r a place (argument 0 args)
    needle ← as_text r a place (argument 1 args)
    ok (FormulaValue.boolean (test (fold_text r haystack) (fold_text r needle)))

  unfoldable pub date_part : Text → ℕ → List (FormulaValue Num) → Read r a (FormulaValue Num)
  date_part place index args = do
    day ← as_date r a place (argument 0 args)
    ok (num r a (part_of r a day index))

  -- The optional last argument of `slice` and `round`.
  unfoldable pub optional_number : Text → ℕ → Num → List (FormulaValue Num) → Read r a Num
  optional_number place i default args =
      if ltb i (length args) then as_number r a place (argument i args) else ok default

  -- `Number(trimmed)`
  unfoldable pub parsed_number : Text → FormulaValue Num
  parsed_number trimmed =
      if trimmed == []
      then FormulaValue.empty
      else if r.is_finite (r.number_of trimmed)
      then num r a (r.number_of trimmed)
      else FormulaValue.error (FormulaProblem.unreadable_number trimmed)

  unfoldable pub to_number : FormulaValue Num → Read r a (FormulaValue Num)
  to_number FormulaValue.empty = ok FormulaValue.empty
  to_number (FormulaValue.error p) = ok (FormulaValue.error p)
  to_number (FormulaValue.number n) = ok (FormulaValue.number n)
  to_number (FormulaValue.boolean b) = ok (num r a (r.of_nat (if b then 1 else 0)))
  to_number v = do t ← as_text r a (codes "toNumber()") v; ok (parsed_number (a.trim t))

  unfoldable pub to_text : FormulaValue Num → Read r a (FormulaValue Num)
  to_text FormulaValue.empty = ok FormulaValue.empty
  to_text (FormulaValue.error p) = ok (FormulaValue.error p)
  to_text v = do t ← as_text r a (codes "toText()") v; ok (FormulaValue.text t)
