-- ===== src/Formula/Functions.antt =====
-- The functions of a formula: `ARITY` and the names of `FUNCTIONS`.
pub mod Readers
pub mod Call
use knowtion.Base.{
  ℕ, ◌+◌, Bool, true, false, ◌||◌, Option, none, some, [], ◌∷◌, Text, codes, ltb, ◌==◌, list_eq,
  nat_eq,
}
use knowtion.Base.Dict.{Dict}

pub data Function : Type 0 where
  if is_empty concat length lower upper trim contains starts_with replace slice : Function
  abs round floor ceil min max pow sqrt : Function
  today date_add date_diff year month day to_text to_number : Function

-- The names of `FUNCTIONS`.
abbrev pub function_names : Dict Text Function
function_names =
    (codes "if", Function.if)
    ∷ (codes "isempty", Function.is_empty)
    ∷ (codes "concat", Function.concat)
    ∷ (codes "length", Function.length)
    ∷ (codes "lower", Function.lower)
    ∷ (codes "upper", Function.upper)
    ∷ (codes "trim", Function.trim)
    ∷ (codes "contains", Function.contains)
    ∷ (codes "startswith", Function.starts_with)
    ∷ (codes "replace", Function.replace)
    ∷ (codes "slice", Function.slice)
    ∷ (codes "abs", Function.abs)
    ∷ (codes "round", Function.round)
    ∷ (codes "floor", Function.floor)
    ∷ (codes "ceil", Function.ceil)
    ∷ (codes "min", Function.min)
    ∷ (codes "max", Function.max)
    ∷ (codes "pow", Function.pow)
    ∷ (codes "sqrt", Function.sqrt)
    ∷ (codes "today", Function.today)
    ∷ (codes "dateadd", Function.date_add)
    ∷ (codes "datediff", Function.date_diff)
    ∷ (codes "year", Function.year)
    ∷ (codes "month", Function.month)
    ∷ (codes "day", Function.day)
    ∷ (codes "totext", Function.to_text)
    ∷ (codes "tonumber", Function.to_number)
    ∷ []

-- `ARITY`: the fewest arguments and the most, if there is a most.
unfoldable pub arity : Function → ℕ × Option ℕ
arity Function.if = (3, some 3)
arity Function.concat = (0, none)
arity Function.contains = (2, some 2)
arity Function.starts_with = (2, some 2)
arity Function.replace = (3, some 3)
arity Function.slice = (2, some 3)
arity Function.round = (1, some 2)
arity Function.min = (1, none)
arity Function.max = (1, none)
arity Function.pow = (2, some 2)
arity Function.today = (0, some 0)
arity Function.date_add = (2, some 2)
arity Function.date_diff = (2, some 2)
arity _ = (1, some 1)

above : ℕ → Option ℕ → Bool
above n none = false
above n (some most) = ltb most n

unfoldable pub wrong_count : Function → ℕ → Bool
unfolding above
wrong_count f n = ltb n (arity f).0 || above n (arity f).1

-- A name that both tables inherit from `Object.prototype`: a call of it returns no formula value, or
-- throws. The other inherited names have capitals, and a call's name has none.
unfoldable pub is_inherited : Text → Bool
is_inherited name = name == codes "constructor" || name == codes "__proto__"
