-- ===== src/Property/Sets.antt =====
-- The two canonical orders of a stored list of ids: the schema's, and that of first occurrence.
use knowtion.Base.{
  ◌≡◌, refl, sym, ap, ◌∙◌, ◌↔◌, inl, inr, Bool, true, false, ◌&&◌, ◌||◌, List, [], ◌∷◌, ◌++◌, Text,
  append-nil, append_assoc, ◌==◌, list_eq, list_beq_iff, nat_eq, contains, filter, any, All, none,
  arith, Bool-cases,
}
use knowtion.Base.Dict
use knowtion.Property.Values.{
  SelectOption, PropertyDef, known_option, first_bad, to_set, option_ids,
}

text_iff : (a b : Text) → ((a == b) ≡ true) ↔ (a ≡ b)
text_iff = list_beq_iff

contains-append :
    (a : Text) (xs ys : List Text) → contains a (xs ++ ys) ≡ (contains a xs || contains a ys)
unfolding contains
contains-append a [] ys = refl
contains-append a (x ∷ xs) ys = ground (arith, contains-append a xs ys)

-- No text stands twice.
abbrev pub Distinct : List Text → Type 0
Distinct [] = Unit
Distinct (x ∷ xs) = (contains x xs ≡ false) × Distinct xs

add_of_absent : (a : Text) (xs : List Text) → contains a xs ≡ false → Dict.add a xs ≡ xs ++ a ∷ []
unfolding Dict.add contains
add_of_absent a [] h = refl
add_of_absent a (x ∷ xs) h = ground (arith, add_of_absent a xs)

add_of_present : (a : Text) (xs : List Text) → contains a xs ≡ true → Dict.add a xs ≡ xs
unfolding Dict.add contains
add_of_present a [] h = cc
add_of_present a (x ∷ xs) h = ground (arith, add_of_present a xs)

Distinct-append_one :
    (xs : List Text) (a : Text) → Distinct xs → contains a xs ≡ false → Distinct (xs ++ a ∷ [])
unfolding contains
Distinct-append_one [] a d h = (refl, tt)
Distinct-append_one (x ∷ xs) a (n, d) h = (
  ground (arith, contains-append x xs (a ∷ []), text_iff a x, text_iff x a),
  Distinct-append_one xs a d (ground arith),
)

-- Whatever the list, its set has no text twice.
pub to_set-Distinct : (seen ids : List Text) → Distinct seen → Distinct (to_set seen ids)
unfolding to_set
to_set-Distinct seen [] d = d
to_set-Distinct seen (id ∷ ids) d = elim (Bool-cases (contains id seen)) [
  | inl old ↦ rw (add_of_present id seen old) (to_set-Distinct seen ids d)
  | inr new ↦
      rw (add_of_absent id seen new)
        (to_set-Distinct (seen ++ id ∷ []) ids (Distinct-append_one seen id d new))
]

-- Texts that are distinct from the start are kept in their order.
absent_of_Distinct :
    (seen : List Text) (id : Text) (ids : List Text)
    → Distinct (seen ++ id ∷ ids)
    → contains id seen ≡ false
unfolding contains
absent_of_Distinct [] id ids d = refl
absent_of_Distinct (x ∷ seen) id ids (n, d) = ground (
  arith,
  absent_of_Distinct seen id ids d,
  contains-append x seen (id ∷ ids),
  text_iff x id,
  text_iff id x,
)

to_set_of_Distinct : (seen ids : List Text) → Distinct (seen ++ ids) → to_set seen ids ≡ seen ++ ids
unfolding to_set
to_set_of_Distinct seen [] d = sym (append-nil seen)
to_set_of_Distinct seen (id ∷ ids) d =
    let shifted : (seen ++ id ∷ []) ++ ids ≡ seen ++ id ∷ ids = append_assoc seen (id ∷ []) ids in
    rw (add_of_absent id seen (absent_of_Distinct seen id ids d))
      (to_set_of_Distinct (seen ++ id ∷ []) ids (rw shifted d) ∙ shifted)

pub to_set_idem : (ids : List Text) → to_set [] (to_set [] ids) ≡ to_set [] ids
to_set_idem ids = to_set_of_Distinct [] (to_set [] ids) (to_set-Distinct [] ids tt)

-- The set holds the texts of the list.
pub contains-to_set :
    (a : Text) (seen ids : List Text)
    → contains a (to_set seen ids) ≡ (contains a seen || contains a ids)
unfolding to_set contains
contains-to_set a seen [] = ground arith
contains-to_set a seen (id ∷ ids) =
    ground (arith, contains-to_set a (Dict.add id seen) ids, Dict.contains-add a id seen)

-- Every text satisfies the test.
pub first_bad-eq-none :
    (good : Text → Bool) (ids : List Text)
    → first_bad good ids ≡ none
    → All (λ a. good a ≡ true) ids
unfolding first_bad
first_bad-eq-none good [] h = tt
first_bad-eq-none good (id ∷ ids) h = (ground arith, first_bad-eq-none good ids (ground arith))

contains_self : (a : Text) (xs : List Text) → contains a (a ∷ xs) ≡ true
unfolding contains
contains_self a xs = ground (arith, text_iff a a)

All-of_contains :
    (P : Text → Bool) (xs : List Text)
    → ((a : Text) → contains a xs ≡ true → P a ≡ true)
    → All (λ a. P a ≡ true) xs
unfolding contains
All-of_contains P [] h = tt
All-of_contains P (x ∷ xs) h =
    (h x (contains_self x xs), All-of_contains P xs (λ a m. h a (ground arith)))

contains_of_All :
    (P : Text → Bool) (xs : List Text) (a : Text)
    → All (λ b. P b ≡ true) xs
    → contains a xs ≡ true
    → P a ≡ true
unfolding contains
contains_of_All P [] a h m = cc
contains_of_All P (x ∷ xs) a (p, h) m = ground (arith, contains_of_All P xs a h, text_iff a x)

pub first_bad_of_All :
    (good : Text → Bool) (ids : List Text)
    → All (λ a. good a ≡ true) ids
    → first_bad good ids ≡ none
unfolding first_bad
first_bad_of_All good [] h = refl
first_bad_of_All good (id ∷ ids) (p, h) = ground (arith, first_bad_of_All good ids h)

-- Dropping repetitions keeps what holds of every text.
pub to_set-All :
    (P : Text → Bool) (ids : List Text)
    → All (λ a. P a ≡ true) ids
    → All (λ a. P a ≡ true) (to_set [] ids)
unfolding contains
to_set-All P ids h =
    All-of_contains P (to_set [] ids)
      λ a m. contains_of_All P ids a h (sym (contains-to_set a [] ids) ∙ m)

pub known_option-eq-contains :
    (id : Text) (os : List SelectOption) → any (λ o. o.id == id) os ≡ contains id (option_ids os)
unfolding contains option_ids
known_option-eq-contains id [] = refl
known_option-eq-contains id (o ∷ os) =
    ground (arith, known_option-eq-contains id os, text_iff o.id id, text_iff id o.id)

contains-chosen :
    (a : Text) (value : List Text) (os : List SelectOption)
    → contains a (option_ids (filter (λ o. contains o.id value) os))
      ≡ (contains a (option_ids os) && contains a value)
unfolding contains option_ids
contains-chosen a value [] = refl
contains-chosen a value (o ∷ os) = ground (arith, contains-chosen a value os, text_iff a o.id)

filter-cong :
    (p q : Text → Bool) (os : List SelectOption)
    → ((a : Text) → contains a (option_ids os) ≡ true → p a ≡ q a)
    → filter (λ o. p o.id) os ≡ filter (λ o. q o.id) os
unfolding contains option_ids
filter-cong p q [] h = refl
filter-cong p q (o ∷ os) h =
    rw (h o.id (contains_self o.id (option_ids os)), filter-cong p q os (λ a m. h a (ground arith)))

-- The chosen options, in the schema's order.
abbrev pub chosen : List Text → List SelectOption → List Text
chosen value os = option_ids (filter (λ o. contains o.id value) os)

pub chosen-known :
    (def : PropertyDef) (value : List Text)
    → All (λ a. known_option def a ≡ true) (chosen value def.options)
unfolding known_option
chosen-known def value = All-of_contains (known_option def) (chosen value def.options) λ a m.
    ground (arith, known_option-eq-contains a def.options, contains-chosen a value def.options)

-- Choosing among the chosen changes nothing.
pub chosen_idem :
    (value : List Text) (os : List SelectOption) → chosen (chosen value os) os ≡ chosen value os
chosen_idem value os = ap option_ids (
    filter-cong (λ a. contains a (chosen value os)) (λ a. contains a value) os
      λ a m. ground (arith, contains-chosen a value os))
