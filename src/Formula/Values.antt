-- ===== src/Formula/Values.antt =====
-- The values of a formula, how they are read as numbers, texts and dates, and their comparison.
use knowtion.Base.{
  ℕ, ◌+◌, ◌-◌, ◌/◌, ◌%◌, Bool, true, false, not, List, [], ◌∷◌, ◌++◌, Text, codes, ltb, ◌==◌,
  list_eq, nat_eq, if◌then◌else◌, Outcome, ok, err, ◌>>=◌, Ordering, get_elem?,
}
use knowtion.Runtime.{Runtime}
use knowtion.Property.Dates.{is_calendar_date, compare_codepoints}
use knowtion.Property.Calendar.{split_dashes, part_or}
use knowtion.Evaluate.Matching.{fold_text}

-- What the evaluator takes from JavaScript's `Number`, `Math`, `String` and `Date`.
pub record Arithmetic (N : Type 0) : Type 0 where
  -- `String(n)`
  pub text_of : N → Text
  pub multiply : N → N → N
  pub divide : N → N → N
  pub remainder : N → N → N
  pub power : N → N → N
  pub minimum : N → N → N
  pub maximum : N → N → N
  pub negate : N → N
  pub abs : N → N
  pub floor : N → N
  pub ceil : N → N
  pub round : N → N
  pub trunc : N → N
  pub half : N
  -- Where `Array.prototype.slice` begins or ends in an array of that length.
  pub relative_index : N → ℕ → ℕ
  -- `text.toLowerCase()`, `text.toUpperCase()` and `text.trim()`
  pub lower : Text → Text
  pub upper : Text → Text
  pub trim : Text → Text
  -- Whether the engine holds a string of that length; making a longer one throws a `RangeError`.
  pub fits : Text → Bool

-- The messages of `formulaError`. The text is the `where` of the source, a name or a number's spelling.
pub data FormulaProblem : Type 0 where
  not_a_number division_by_zero negative_root : FormulaProblem
  needs_number needs_text needs_date unknown_function wrong_arity unreadable_number :
      Text → FormulaProblem

pub data FormulaValue (N : Type 0) : Type 0 where
  number : N → FormulaValue N
  text : Text → FormulaValue N
  boolean : Bool → FormulaValue N
  date : Text → FormulaValue N
  empty : FormulaValue N
  error : FormulaProblem → FormulaValue N

abbrev pub is_error : {N : Type 0} → FormulaValue N → Bool
is_error (FormulaValue.error p) = true
is_error _ = false

-- UTF-16 code units, by which `<` orders strings.
unfoldable pub utf16 : Text → List ℕ
utf16 [] = []
utf16 (c ∷ cs) =
    (if ltb c 0x10000
      then c ∷ []
      else (0xd800 + (c - 0x10000) / 1024) ∷ (0xdc00 + (c - 0x10000) % 1024) ∷ [])
    ++ utf16 cs

module _ (r : Runtime) (a : Arithmetic (Runtime.Num r)) where
  open r use {Num}

  abbrev pub Value : Type 0
  Value = FormulaValue Num

  -- Either what a value is read as, or the value to return instead.
  abbrev pub Read : Type 0 → Type 0
  Read A = Outcome Value A

  -- `num`
  unfoldable pub num : Num → Value
  num n =
      if r.is_finite n
      then FormulaValue.number n
      else FormulaValue.error FormulaProblem.not_a_number

  unfoldable pub as_number : Text → Value → Read Num
  as_number place (FormulaValue.number n) = ok n
  as_number place (FormulaValue.boolean b) = ok (r.of_nat (if b then 1 else 0))
  as_number place FormulaValue.empty = ok (r.of_nat 0)
  as_number place _ = err (FormulaValue.error (FormulaProblem.needs_number place))

  unfoldable pub as_text : Text → Value → Read Text
  as_text place (FormulaValue.text t) = ok t
  as_text place (FormulaValue.number n) = ok (a.text_of n)
  as_text place (FormulaValue.boolean b) = ok (if b then codes "true" else codes "false")
  as_text place (FormulaValue.date day) = ok day
  as_text place FormulaValue.empty = ok []
  as_text place (FormulaValue.error p) = err (FormulaValue.error (FormulaProblem.needs_text place))

  unfoldable pub as_date : Text → Value → Read Text
  as_date place (FormulaValue.date day) = ok day
  as_date place (FormulaValue.text t) =
      if is_calendar_date t
      then ok t
      else err (FormulaValue.error (FormulaProblem.needs_date place))
  as_date place _ = err (FormulaValue.error (FormulaProblem.needs_date place))

  unfoldable pub truthy : Value → Bool
  truthy (FormulaValue.boolean b) = b
  truthy (FormulaValue.number n) = not (r.num_eq n (r.of_nat 0))
  truthy (FormulaValue.text t) = not (t == [])
  truthy (FormulaValue.date day) = true
  truthy FormulaValue.empty = false
  truthy (FormulaValue.error p) = false

  -- `ms` of `daysBetween`
  unfoldable pub instant_of : Text → Num
  instant_of day =
      let parts = split_dashes [] day in
      r.date_utc (part_or r 1970 (get_elem? parts 0))
        (r.num_subtract (part_or r 1 (get_elem? parts 1)) (r.of_nat 1))
        (part_or r 1 (get_elem? parts 2))

  unfoldable pub days_between : Text → Text → Num
  days_between from to =
      a.round (a.divide (r.num_subtract (instant_of to) (instant_of from)) (r.of_nat 86400000))

  unfoldable pub part_of : Text → ℕ → Num
  part_of day index = part_or r 0 (get_elem? (split_dashes [] day) index)

  unfoldable pub compare_numbers : Num → Num → Ordering
  compare_numbers m n =
      if r.num_eq m n then Ordering.eq else if r.num_lt m n then Ordering.lt else Ordering.gt

  abbrev comparison : Text
  comparison = codes "this comparison"

  unfoldable pub compare_as_numbers : Value → Value → Read Ordering
  compare_as_numbers left right = do
    m ← as_number comparison left
    n ← as_number comparison right
    ok (compare_numbers m n)

  unfoldable pub compare_as_texts : Value → Value → Read Ordering
  compare_as_texts left right = do
    s ← as_text comparison left
    t ← as_text comparison right
    ok (compare_codepoints (utf16 (fold_text r s)) (utf16 (fold_text r t)))

  -- `compare`: -1, 0 and 1 are `lt`, `eq` and `gt`.
  unfoldable pub compare_values : Value → Value → Read Ordering
  compare_values (FormulaValue.number m) right = compare_as_numbers (FormulaValue.number m) right
  compare_values left (FormulaValue.number n) = compare_as_numbers left (FormulaValue.number n)
  compare_values left right = compare_as_texts left right

  abbrev says_equal : Read Ordering → Bool
  says_equal (ok Ordering.eq) = true
  says_equal _ = false

  -- `===` of two Booleans
  abbrev same_truth : Bool → Bool → Bool
  same_truth true c = c
  same_truth false c = not c

  unfoldable pub equal : Value → Value → Bool
  equal FormulaValue.empty FormulaValue.empty = true
  equal FormulaValue.empty right = false
  equal left FormulaValue.empty = false
  equal (FormulaValue.boolean b) right = same_truth b (truthy right)
  equal left (FormulaValue.boolean b) = same_truth (truthy left) b
  equal left right = says_equal (compare_values left right)
