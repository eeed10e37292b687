-- ===== src/Tests/Queries.antt =====
-- Properties and queries at concrete values.
use knowtion.Base.{
  ℕ, ◌≡◌, refl, false, none, some, [], ◌∷◌, contains, list_beq, nat_eq, list_eq, codes, ok,
}
use knowtion.Base.Dict
use knowtion.Json.{Json}
use knowtion.Property.Values.{
  PropertyType, PropertyValue, option_ids, encode_payload, encode_property_value,
  decode_property_value, known_option, first_bad, to_set, type_of,
}
use knowtion.Property.Stored.{decode-encode_property_value}
use knowtion.Query.Grammar.{
  NumberOp, OptionOp, DateOp, LeafTest, relative, Filter, conj, disj, negate, leaf, nil, cons,
  Direction, SortField, ViewSpec, filter_leaves,
}
use knowtion.Query.Parse.{parse_filter}
use knowtion.Query.Problems.{
  by_id, index_onto, validate_spec, sort_problems, group_problems, sort_problem, group_problem,
  sanitise_spec, problems_of_filter,
}
use knowtion.Query.Rewrite.{QueryContext, strip_property}
use knowtion.Query.RoundTrip.{to_json, HasStorableDates, parse_filter-to_json}
use knowtion.Query.Sanitise.{sanitise_spec_idem, sanitise_spec_of_valid}
use knowtion.Query.Strip.{leaves_left, others, filter_leaves-strip_property}
use knowtion.Tests.Samples.{natural, natural-HasZero, tags, state}

abbrev chosen : PropertyValue ℕ
chosen = PropertyValue.multi_select (codes "b" ∷ codes "a" ∷ codes "b" ∷ [])

abbrev stored : Json ℕ
stored = Json.array (knowtion.Json.from_strings (codes "a" ∷ codes "b" ∷ []))

chosen-stored : encode_property_value natural tags chosen ≡ ok (some stored)
unfolding encode_property_value encode_payload option_ids known_option first_bad to_set Dict.add
    list_beq contains
chosen-stored = refl

decode-encode_property_value_example :
    (v' : PropertyValue ℕ) × (decode_property_value natural tags (some stored) ≡ some v')
    × (type_of v' ≡ PropertyType.multi_select)
    × (encode_property_value natural tags v' ≡ ok (some stored))
decode-encode_property_value_example =
    decode-encode_property_value natural natural-HasZero tags chosen stored chosen-stored

-- Not in state "a", and the number below three or the day before tomorrow.
abbrev two_leaves : Filter ℕ
two_leaves = conj (
    cons
      (negate (
        leaf
          (record { property = codes "p"; test = LeafTest.option OptionOp.option_is (codes "a") })))
      (cons (leaf (record { property = codes "q"; test = LeafTest.number NumberOp.lt 3 })) nil))

abbrev dated : Filter ℕ
dated = disj (
    cons two_leaves (
      cons (leaf (record { property = codes "d"; test = LeafTest.date DateOp.before (relative 1) }))
        nil))

storable : HasStorableDates natural dated
unfolding HasStorableDates
storable = ((tt, (tt, tt)), (refl, tt))

parse_filter-to_json_example : parse_filter natural (to_json dated) ≡ some dated
parse_filter-to_json_example = parse_filter-to_json natural dated storable

filter_leaves-strip_property_example :
    leaves_left (codes "q") (strip_property two_leaves (codes "q"))
    ≡ others (codes "q") (filter_leaves two_leaves)
filter_leaves-strip_property_example = filter_leaves-strip_property (codes "q") two_leaves

abbrev new_year : QueryContext ℕ
new_year = record { now_ms = 0; time_zone = codes "UTC" }

-- The number property is missing from the definitions: both the filter and a sort name it.
abbrev broken : ViewSpec ℕ
broken = record {
  filter = some (record { v = 1; expr = two_leaves });
  unreadable_filter = false;
  sorts = record { field = SortField.property (codes "q"); direction = Direction.asc } ∷ [];
  group_by = some (codes "p");
}

sanitise_spec_idem_example :
    sanitise_spec natural (state ∷ []) (sanitise_spec natural (state ∷ []) broken).spec
    ≡ record { spec = (sanitise_spec natural (state ∷ []) broken).spec; warnings = [] }
sanitise_spec_idem_example = sanitise_spec_idem natural (state ∷ []) broken

abbrev grouped : ViewSpec ℕ
grouped = record {
  filter = none;
  unreadable_filter = false;
  sorts = record { field = SortField.title; direction = Direction.desc } ∷ [];
  group_by = some (codes "p");
}

sanitise_spec_of_valid_example :
    sanitise_spec natural (state ∷ []) grouped ≡ record { spec = grouped; warnings = [] }
unfolding validate_spec problems_of_filter by_id index_onto sort_problems group_problems
    sort_problem group_problem Dict.insert Dict.lookup list_beq
sanitise_spec_of_valid_example = sanitise_spec_of_valid natural (state ∷ []) grouped refl refl
