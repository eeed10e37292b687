-- ===== src/Property/Dates.antt =====
-- Calendar dates, zone names, uuids, and the order of texts by code point.
use knowtion.Base.{
  ℕ, zero, suc, ◌+◌, ◌*◌, ◌-◌, ◌%◌, ◌≡◌, refl, Bool, true, false, not, ◌&&◌, ◌||◌, List, [], ◌∷◌,
  length, all, Text, codes, leb, ◌==◌, nat_eq, list_eq, contains, if◌then◌else◌, compare, Ordering,
}

unfoldable pub is_digit : ℕ → Bool
is_digit c = leb b'0' c && leb c b'9'

-- `Number(match[i])` on a run of digits.
unfoldable pub number_of_digits : ℕ → Text → ℕ
number_of_digits n [] = n
number_of_digits n (c ∷ cs) = number_of_digits (n * 10 + (c - 48)) cs

unfoldable pub days_in_month : ℕ → ℕ → ℕ
unfolding contains
days_in_month year month =
    if month == 2
    then (if (year % 4 == 0 && not (year % 100 == 0)) || year % 400 == 0 then 29 else 28)
    else if contains month (4 ∷ 6 ∷ 9 ∷ 11 ∷ [])
    then 30
    else 31

-- The regular expression `^(\d{4})-(\d{2})-(\d{2})$`, then the ranges.
unfoldable pub is_calendar_date : Text → Bool
unfolding is_digit number_of_digits days_in_month
is_calendar_date (a ∷ b ∷ c ∷ d ∷ h1 ∷ e ∷ f ∷ h2 ∷ g ∷ h ∷ []) =
    let year = number_of_digits 0 (a ∷ b ∷ c ∷ d ∷ []) in
    let month = number_of_digits 0 (e ∷ f ∷ []) in
    let day = number_of_digits 0 (g ∷ h ∷ []) in
    all is_digit (a ∷ b ∷ c ∷ d ∷ e ∷ f ∷ g ∷ h ∷ [])
    && h1 == b'-'
    && h2 == b'-'
    && leb 1 month
    && leb month 12
    && leb 1 day
    && leb day (days_in_month year month)
is_calendar_date _ = false

is_letter : ℕ → Bool
is_letter c = (leb b'A' c && leb c b'Z') || (leb b'a' c && leb c b'z')

is_zone_char : ℕ → Bool
is_zone_char c = is_letter c || is_digit c || c == b'_' || c == b'+' || c == b'-'

-- Where the match of `^[A-Za-z][A-Za-z0-9_+-]*(\/[A-Za-z0-9_+-]+)*$` stands.
pub data ZoneState : Type 0 where
  at_start in_name after_slash failed : ZoneState

zone_step : ZoneState → ℕ → ZoneState
zone_step at_start c = if is_letter c then in_name else failed
zone_step in_name c = if is_zone_char c then in_name else if c == b'/' then after_slash else failed
zone_step after_slash c = if is_zone_char c then in_name else failed
zone_step failed c = failed

zone_run : ZoneState → Text → ZoneState
zone_run s [] = s
zone_run s (c ∷ cs) = zone_run (zone_step s c) cs

zone_accepts : ZoneState → Bool
zone_accepts in_name = true
zone_accepts _ = false

unfoldable pub is_zone_name : Text → Bool
unfolding is_letter is_zone_char is_digit zone_step zone_run zone_accepts
is_zone_name value = leb (length value) 64 && zone_accepts (zone_run at_start value)

is_hex : ℕ → Bool
is_hex c = (leb b'0' c && leb c b'9') || (leb b'a' c && leb c b'f')

-- A run of `n` lower-case hex digits, a hyphen, and the rest of the pattern.
uuid_groups : ℕ → List ℕ → Text → Bool
uuid_groups (suc n) groups (c ∷ cs) = is_hex c && uuid_groups n groups cs
uuid_groups (suc n) groups [] = false
uuid_groups zero [] [] = true
uuid_groups zero [] (_ ∷ _) = false
uuid_groups zero (g ∷ groups) [] = false
uuid_groups zero (g ∷ groups) (c ∷ cs) = c == b'-' && uuid_groups g groups cs

unfoldable pub is_uuid : Text → Bool
unfolding is_hex uuid_groups
is_uuid value = uuid_groups 8 (4 ∷ 4 ∷ 4 ∷ 12 ∷ []) value

-- A lone surrogate is replaced by U+FFFD. In a list of code points every surrogate is a lone one.
unfoldable pub to_well_formed_text : Text → Text
to_well_formed_text [] = []
to_well_formed_text (c ∷ cs) =
    (if leb 0xd800 c && leb c 0xdfff then 0xfffd else c) ∷ to_well_formed_text cs

-- The loop of `compareCodepoints`: -1, 0 and 1 are `lt`, `eq` and `gt`.
unfoldable pub compare_codepoints : Text → Text → Ordering
compare_codepoints [] [] = Ordering.eq
compare_codepoints [] (_ ∷ _) = Ordering.lt
compare_codepoints (_ ∷ _) [] = Ordering.gt
compare_codepoints (x ∷ xs) (y ∷ ys) = elim (compare x y) [
  | Ordering.lt ↦ Ordering.lt
  | Ordering.gt ↦ Ordering.gt
  | Ordering.eq ↦ compare_codepoints xs ys
]

dates :
    (is_calendar_date (codes "2024-02-29") ≡ true) × (is_calendar_date (codes "2023-02-29") ≡ false)
unfolding is_calendar_date
dates = (refl, refl)

zones : (is_zone_name (codes "Asia/Ho_Chi_Minh") ≡ true) × (is_zone_name (codes "Asia/") ≡ false)
unfolding is_zone_name
zones = (refl, refl)

uuids : is_uuid (codes "0190b2c4-0000-7000-8000-000000000001") ≡ true
unfolding is_uuid
uuids = refl
