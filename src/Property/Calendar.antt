-- ===== src/Property/Calendar.antt =====
-- `localDateOf` and `addDays` of packages/engine/src/properties.ts.
use knowtion.Base.{
  ℕ, Option, none, some, List, [], ◌∷◌, ◌++◌, Text, codes, ◌==◌, nat_eq, if◌then◌else◌, get_elem?,
}
use knowtion.Runtime.{Runtime}
use knowtion.Property.Dates.{is_calendar_date}

-- `text.split('-')`
unfoldable pub split_dashes : Text → Text → List Text
split_dashes part [] = part ∷ []
split_dashes part (c ∷ cs) =
    if c == b'-' then part ∷ split_dashes [] cs else split_dashes (part ++ (c ∷ [])) cs

module _ (r : Runtime) where
  open r use {Num}

  -- A part of a date, or what stands in for one that is missing.
  unfoldable pub part_or : ℕ → Option Text → Num
  part_or default none = r.of_nat default
  part_or default (some part) = r.number_of part

  -- `addDays`
  unfoldable pub add_days : Text → Num → Option Text
  add_days day days =
      let parts = split_dashes [] day in
      r.iso_day (
        r.date_utc (part_or 1970 (get_elem? parts 0))
          (r.num_subtract (part_or 1 (get_elem? parts 1)) (r.of_nat 1))
          (r.num_add (part_or 1 (get_elem? parts 2)) days))

  abbrev formatter_or_utc : Option (Num → Option Text) → Option (Num → Option Text)
  formatter_or_utc none = r.day_formatter (codes "UTC")
  formatter_or_utc (some format) = some format

  abbrev formatted : Option (Num → Option Text) → Num → Option Text
  formatted none ms = r.iso_day ms
  formatted (some format) ms = format ms

  abbrev if_calendar_date : Num → Option Text → Option Text
  if_calendar_date ms none = none
  if_calendar_date ms (some day) = if is_calendar_date day then some day else r.iso_day ms

  -- `localDateOf`, which throws where no `Date` holds the instant.
  unfoldable pub local_date_of : Num → Text → Option Text
  local_date_of ms zone =
      if_calendar_date ms (formatted (formatter_or_utc (r.day_formatter zone)) ms)
