-- ===== src/Property/Values.antt =====
-- Property definitions and values, and their stored form.
use knowtion.Base.{
  ℕ, Bool, false, not, ◌&&◌, ◌||◌, Option, none, some, List, [], ◌∷◌, any, filter, Text, ◌==◌,
  list_eq, nat_eq, contains, if◌then◌else◌, Outcome, ok, err,
}
use knowtion.Base.Dict
use knowtion.Runtime.{Runtime}
use knowtion.Json.{
  Json, null, boolean, number as num, string, array, object, end, field, get, strings, from_strings,
}
use knowtion.Property.Dates.{is_calendar_date, is_zone_name, is_uuid, to_well_formed_text}
use knowtion.Base.{codes}

pub data PropertyType : Type 0 where
  text number checkbox select multi_select date datetime url relation : PropertyType

abbrev pub type_code : PropertyType → ℕ
type_code PropertyType.text = 0
type_code PropertyType.number = 1
type_code PropertyType.checkbox = 2
type_code PropertyType.select = 3
type_code PropertyType.multi_select = 4
type_code PropertyType.date = 5
type_code PropertyType.datetime = 6
type_code PropertyType.url = 7
type_code PropertyType.relation = 8

abbrev pub same_type : PropertyType → PropertyType → Bool
same_type a b = type_code a == type_code b

-- A zone beside the instant's milliseconds.
pub record DateTimeValue (N : Type 0) : Type 0 where
  pub ms : N
  pub zone : Text

pub data PropertyValue (N : Type 0) : Type 0 where
  text url date select : Text → PropertyValue N
  number : N → PropertyValue N
  checkbox : Bool → PropertyValue N
  multi_select relation : List Text → PropertyValue N
  datetime : DateTimeValue N → PropertyValue N

abbrev pub type_of : {N : Type 0} → PropertyValue N → PropertyType
type_of (PropertyValue.text _) = PropertyType.text
type_of (PropertyValue.url _) = PropertyType.url
type_of (PropertyValue.date _) = PropertyType.date
type_of (PropertyValue.select _) = PropertyType.select
type_of (PropertyValue.number _) = PropertyType.number
type_of (PropertyValue.checkbox _) = PropertyType.checkbox
type_of (PropertyValue.multi_select _) = PropertyType.multi_select
type_of (PropertyValue.relation _) = PropertyType.relation
type_of (PropertyValue.datetime _) = PropertyType.datetime

-- The colour is only shown.
pub record SelectOption : Type 0 where
  pub id : Text
  pub name : Text

-- `database` is the target of a relation, `config?.database`; `createdAt` plays no part here.
pub record PropertyDef : Type 0 where
  pub id : Text
  pub name : Text
  pub type : PropertyType
  pub options : List SelectOption
  pub database : Option Text

unfoldable pub relation_target_of : PropertyDef → Option Text
relation_target_of def = if same_type def.type PropertyType.relation then def.database else none

-- The ways in which `INVALID_VALUE` is thrown.
pub data ValueError : Type 0 where
  wrong_tag not_finite not_a_date bad_instant bad_zone no_database : ValueError
  unknown_option not_a_uuid : Text → ValueError

unfoldable pub known_option : PropertyDef → Text → Bool
known_option def id = any (λ o. o.id == id) def.options

-- The first id that is not an option.
unfoldable pub first_bad : (Text → Bool) → List Text → Option Text
first_bad good [] = none
first_bad good (id ∷ ids) = if good id then first_bad good ids else some id

-- `[...new Set(ids)]`
unfoldable pub to_set : List Text → List Text → List Text
to_set seen [] = seen
to_set seen (id ∷ ids) = to_set (Dict.add id seen) ids

unfoldable pub option_ids : List SelectOption → List Text
option_ids [] = []
option_ids (o ∷ os) = o.id ∷ option_ids os

abbrev pub or_nothing : List Text → Option (List Text)
or_nothing [] = none
or_nothing (x ∷ xs) = some (x ∷ xs)

module _ (r : Runtime) where
  open r use {Num}

  abbrev pub array_or_nothing : List Text → Option (Json Num)
  array_or_nothing [] = none
  array_or_nothing (x ∷ xs) = some (array (from_strings (x ∷ xs)))

  -- The cases of `encodePropertyValue` once the tags agree.
  unfoldable pub encode_payload :
      PropertyDef → PropertyValue Num → Outcome ValueError (Option (Json Num))
  encode_payload def (PropertyValue.text value) =
      let t = to_well_formed_text value in ok (if t == [] then none else some (string t))
  encode_payload def (PropertyValue.url value) =
      let t = to_well_formed_text value in ok (if t == [] then none else some (string t))
  encode_payload def (PropertyValue.number value) =
      if not (r.is_finite value)
      then err ValueError.not_finite
      else ok (some (num (if r.num_eq value r.zero_num then r.zero_num else value)))
  encode_payload def (PropertyValue.checkbox value) = ok (some (boolean value))
  encode_payload def (PropertyValue.select value) =
      if not (known_option def value)
      then err (ValueError.unknown_option value)
      else ok (some (string value))
  encode_payload def (PropertyValue.multi_select value) =
      elim (first_bad (known_option def) value) [
        | some id ↦ err (ValueError.unknown_option id)
        | none ↦ ok (array_or_nothing (option_ids (filter (λ o. contains o.id value) def.options)))
      ]
  encode_payload def (PropertyValue.date value) =
      if not (is_calendar_date value) then err ValueError.not_a_date else ok (some (string value))
  encode_payload def (PropertyValue.datetime value) =
      if not (r.is_safe_integer value.ms)
      then err ValueError.bad_instant
      else if not (is_zone_name value.zone)
      then err ValueError.bad_zone
      else ok (
          some (
            object
              (field (codes "ms") (num value.ms) (field (codes "zone") (string value.zone) end))))
  encode_payload def (PropertyValue.relation value) = elim (relation_target_of def) [
    | none ↦ err ValueError.no_database
    | some database ↦ elim (first_bad is_uuid value) [
      | some id ↦ err (ValueError.not_a_uuid id)
      | none ↦ ok (array_or_nothing (to_set [] value))
    ]
  ]

  unfoldable pub encode_property_value :
      PropertyDef → PropertyValue Num → Outcome ValueError (Option (Json Num))
  encode_property_value def value =
      if not (same_type (type_of value) def.type)
      then err ValueError.wrong_tag
      else encode_payload def value

  abbrev nonempty_text : (Text → PropertyValue Num) → Json Num → Option (PropertyValue Num)
  nonempty_text make (string s) = if s == [] then none else some (make s)
  nonempty_text make _ = none

  -- The cases of `decodePropertyValue`, by the property's type.
  unfoldable pub decode_by_type : PropertyDef → PropertyType → Json Num → Option (PropertyValue Num)
  decode_by_type def PropertyType.text raw = nonempty_text PropertyValue.text raw
  decode_by_type def PropertyType.url raw = nonempty_text PropertyValue.url raw
  decode_by_type def PropertyType.number (num n) =
      if r.is_finite n then some (PropertyValue.number n) else none
  decode_by_type def PropertyType.checkbox (boolean b) = some (PropertyValue.checkbox b)
  decode_by_type def PropertyType.select (string s) =
      if known_option def s then some (PropertyValue.select s) else none
  decode_by_type def PropertyType.multi_select (array items) =
      elim (or_nothing (filter (known_option def) (strings items))) [
        | none ↦ none
        | some known ↦ some (PropertyValue.multi_select known)
      ]
  decode_by_type def PropertyType.date (string s) =
      if is_calendar_date s then some (PropertyValue.date s) else none
  decode_by_type def PropertyType.datetime (object fs) = elim (get (codes "ms") fs) [
    | some (num ms) ↦ elim (get (codes "zone") fs) [
      | some (string zone) ↦
          if r.is_safe_integer ms && is_zone_name zone
          then some (PropertyValue.datetime (record { ms = ms; zone = zone }))
          else none
      | _ ↦ none
    ]
    | _ ↦ none
  ]
  decode_by_type def PropertyType.relation (array items) =
      elim (or_nothing (to_set [] (filter is_uuid (strings items)))) [
        | none ↦ none
        | some targets ↦ some (PropertyValue.relation targets)
      ]
  decode_by_type def _ _ = none

  unfoldable pub decode_property_value :
      PropertyDef → Option (Json Num) → Option (PropertyValue Num)
  decode_property_value def none = none
  decode_property_value def (some null) = none
  decode_property_value def (some raw) = decode_by_type def def.type raw

  abbrev has_no_payload : PropertyValue Num → Bool
  has_no_payload (PropertyValue.text value) = value == []
  has_no_payload (PropertyValue.url value) = value == []
  has_no_payload (PropertyValue.number value) = not (r.is_finite value)
  has_no_payload (PropertyValue.multi_select value) = value == []
  has_no_payload (PropertyValue.relation value) = value == []
  has_no_payload _ = false

  unfoldable pub is_empty_value : PropertyDef → Option (PropertyValue Num) → Bool
  is_empty_value def none = not (same_type def.type PropertyType.checkbox)
  is_empty_value def (some value) =
      if same_type def.type PropertyType.checkbox
      then false
      else not (same_type (type_of value) def.type) || has_no_payload value
