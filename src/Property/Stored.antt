-- ===== src/Property/Stored.antt =====
-- Encoding a value and reading it back (`encodePropertyValue`, `decodePropertyValue`).
use knowtion.Base.{
  ℕ, ◌≡◌, refl, sym, ap, ◌∙◌, Bool, true, none, some, List, [], ◌∷◌, Text, ◌==◌, list_eq, nat_eq,
  list_beq, codes, filter, All, if◌then◌else◌, ok, arith,
}
use knowtion.Runtime.{Runtime, HasZero}
use knowtion.Json.{Json, Fields, field, end, number as num, string, strings, from_strings, get}
use knowtion.Property.Dates.{is_uuid, to_well_formed_text}
use knowtion.Property.Sets.{
  to_set_idem, to_set-All, first_bad-eq-none, first_bad_of_All, chosen, chosen-known, chosen_idem,
}
use knowtion.Property.Values.{
  PropertyType, PropertyValue, PropertyDef, DateTimeValue, type_code, same_type, type_of,
  known_option, first_bad, to_set, encode_payload, encode_property_value, decode_by_type,
  decode_property_value,
}

type_at : ℕ → PropertyType
type_at n =
    if n == 0
    then PropertyType.text
    else if n == 1
    then PropertyType.number
    else if n == 2
    then PropertyType.checkbox
    else if n == 3
    then PropertyType.select
    else if n == 4
    then PropertyType.multi_select
    else if n == 5
    then PropertyType.date
    else if n == 6
    then PropertyType.datetime
    else if n == 7
    then PropertyType.url
    else PropertyType.relation

type_at-type_code : (t : PropertyType) → type_at (type_code t) ≡ t
unfolding type_at
type_at-type_code PropertyType.text = refl
type_at-type_code _ = refl

pub same_type→eq : (a b : PropertyType) → same_type a b ≡ true → a ≡ b
same_type→eq a b h =
    let e : type_code a ≡ type_code b = ground arith in
    sym (type_at-type_code a) ∙ (ap type_at e ∙ type_at-type_code b)

to_well_formed_text_idem :
    (t : Text) → to_well_formed_text (to_well_formed_text t) ≡ to_well_formed_text t
unfolding to_well_formed_text
to_well_formed_text_idem [] = refl
to_well_formed_text_idem (c ∷ cs) = ground (arith, to_well_formed_text_idem cs)

strings-from_strings : (N : Type 0) (xs : List Text) → strings (from_strings {N = N} xs) ≡ xs
strings-from_strings N [] = refl
strings-from_strings N (x ∷ xs) = ap (◌∷◌ x) (strings-from_strings N xs)

filter-All : (p : Text → Bool) (xs : List Text) → All (λ a. p a ≡ true) xs → filter p xs ≡ xs
filter-All p [] h = refl
filter-All p (x ∷ xs) (e, h) = rw (e, filter-All p xs h)

module _ {N : Type 0} (value : DateTimeValue N) where
  abbrev stored_instant : Fields N
  stored_instant = field (codes "ms") (num value.ms) (field (codes "zone") (string value.zone) end)

  get-ms : get (codes "ms") stored_instant ≡ some (num value.ms)
  unfolding get list_beq
  get-ms = refl

  get-zone : get (codes "zone") stored_instant ≡ some (string value.zone)
  unfolding get list_beq
  get-zone = refl

module _ (r : Runtime) (z : HasZero r) (def : PropertyDef) where
  open r use {Num}

  -- What an accepted value is stored as is read back as some value, and that is stored alike.
  abbrev pub IsCanonical : Json Num → Type 0
  IsCanonical raw =
      (v : PropertyValue Num) × (decode_property_value r def (some raw) ≡ some v)
      × (encode_property_value r def v ≡ ok (some raw))

  canonical :
      (v : PropertyValue Num) (raw : Json Num)
      → type_of v ≡ def.type
      → same_type (type_of v) def.type ≡ true
      → encode_payload r def v ≡ ok (some raw)
      → IsCanonical raw
  unfolding encode_payload encode_property_value decode_property_value decode_by_type
  canonical (PropertyValue.text value) raw t tag e =
      let w = to_well_formed_text value in
      (
        PropertyValue.text w,
        ground (arith, to_well_formed_text_idem value),
        ground (arith, to_well_formed_text_idem value),
      )
  canonical (PropertyValue.url value) raw t tag e =
      let w = to_well_formed_text value in
      (
        PropertyValue.url w,
        ground (arith, to_well_formed_text_idem value),
        ground (arith, to_well_formed_text_idem value),
      )
  canonical (PropertyValue.number value) raw t tag e = (
    PropertyValue.number (if r.num_eq value r.zero_num then r.zero_num else value),
    ground (arith, z.zero_finite, z.zero_eq),
    ground (arith, z.zero_finite, z.zero_eq),
  )
  canonical (PropertyValue.checkbox value) raw t tag e =
      (PropertyValue.checkbox value, ground arith, ground arith)
  canonical (PropertyValue.select value) raw t tag e =
      (PropertyValue.select value, ground arith, ground arith)
  canonical (PropertyValue.multi_select value) raw t tag e =
      let ids = chosen value def.options in
      let kept : filter (known_option def) (strings (from_strings {N = Num} ids)) ≡ ids =
        rw (strings-from_strings Num ids)
          (filter-All (known_option def) ids (chosen-known def value)) in
      (
        PropertyValue.multi_select ids,
        ground (arith, kept),
        ground (
          arith,
          first_bad_of_All (known_option def) ids (chosen-known def value),
          chosen_idem value def.options,
        ),
      )
  canonical (PropertyValue.date value) raw t tag e =
      (PropertyValue.date value, ground arith, ground arith)
  canonical (PropertyValue.datetime value) raw t tag e = (
    PropertyValue.datetime value,
    ground (arith, get-ms value, get-zone value),
    ground (arith, get-ms value, get-zone value),
  )
  canonical (PropertyValue.relation value) raw t tag e =
      let good : first_bad is_uuid value ≡ none = ground arith in
      let ids = to_set [] value in
      let valid = to_set-All is_uuid value (first_bad-eq-none is_uuid value good) in
      let kept : filter is_uuid (strings (from_strings {N = Num} ids)) ≡ ids =
        rw (strings-from_strings Num ids) (filter-All is_uuid ids valid) in
      (
        PropertyValue.relation ids,
        ground (arith, kept, to_set_idem value),
        ground (arith, first_bad_of_All is_uuid ids valid, to_set_idem value),
      )

accepted_tag :
    (r : Runtime) (def : PropertyDef) (v : PropertyValue r.Num) (raw : Json r.Num)
    → encode_property_value r def v ≡ ok (some raw)
    → same_type (type_of v) def.type ≡ true
unfolding encode_property_value
accepted_tag r def v raw e = ground arith

-- A value that the property accepts and stores is read back as a value of the property, which is
-- stored in the same form again: writing what was read never changes the log.
pub decode-encode_property_value :
    (r : Runtime) (z : HasZero r) (def : PropertyDef) (v : PropertyValue r.Num) (raw : Json r.Num)
    → encode_property_value r def v ≡ ok (some raw)
    → (v' : PropertyValue r.Num) × (decode_property_value r def (some raw) ≡ some v')
      × (type_of v' ≡ def.type)
      × (encode_property_value r def v' ≡ ok (some raw))
unfolding encode_property_value
decode-encode_property_value r z def v raw e =
    let tag : same_type (type_of v) def.type ≡ true = ground arith in
    let (v', read, again) = canonical r z def v raw (same_type→eq _ _ tag) tag (ground arith) in
    (v', read, same_type→eq (type_of v') def.type (accepted_tag r def v' raw again), again)
