-- ===== src/Runtime.antt =====
-- What the engine takes from JavaScript itself and from ICU: floating-point numbers, Unicode folding,
-- `Intl.DateTimeFormat` and `Date`.
use knowtion.Base.{ℕ, ◌≡◌, Bool, true, Option, Text}

pub record Runtime : Type 1 where
  -- `number`
  pub Num : Type 0
  pub zero_num : Num
  pub of_nat : ℕ → Num
  pub is_finite : Num → Bool
  pub is_safe_integer : Num → Bool
  -- `a === b` and `a < b`
  pub num_eq : Num → Num → Bool
  pub num_lt : Num → Num → Bool
  -- `Math.abs(a) <= n`
  pub abs_le : Num → ℕ → Bool
  -- `text.normalize('NFC').toLowerCase()`
  pub nfc_lower : Text → Text
  -- `Number(text)`, `a + b` and `a - b`
  pub number_of : Text → Num
  pub num_add : Num → Num → Num
  pub num_subtract : Num → Num → Num
  -- `Date.UTC(year, month, day)`
  pub date_utc : Num → Num → Num → Num
  -- `new Date(instant).toISOString().slice(0, 10)`, or nothing where it throws a `RangeError`.
  pub iso_day : Num → Option Text
  -- The day formatter of a zone, if the zone is known; it throws on an instant that no `Date` holds.
  pub day_formatter : Text → Option (Num → Option Text)

-- What IEEE 754 says of zero.
pub record HasZero (r : Runtime) : Type 0 where
  pub zero_finite : r.is_finite r.zero_num ≡ true
  pub zero_eq : r.num_eq r.zero_num r.zero_num ≡ true
