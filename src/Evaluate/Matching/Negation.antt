-- ===== src/Evaluate/Matching/Negation.antt =====
-- The negative operators, and emptiness.
use knowtion.Base.{◌≡◌, refl, ap, ◌∙◌, Bool, not, Option, some, Text, list_eq, nat_eq, arith}
use knowtion.Base.Dict
use knowtion.Runtime.{Runtime}
use knowtion.Property.Values.{PropertyDef, PropertyValue, is_empty_value}
use knowtion.Query.Grammar.{NumberOp, OptionOp, LeafTest, FilterLeaf, leaf, negate}
use knowtion.Query.Problems.{Defs}
use knowtion.Evaluate.Matching.{
  QueryRow, matches_test, matches_leaf, matches_filter, compare_number, value_of,
}

-- A test and the test that is defined as its negation.
pub data Opposite {N : Type 0} : LeafTest N → LeafTest N → Type 0 where
  ne_eq : (n : N) → Opposite (LeafTest.number NumberOp.ne n) (LeafTest.number NumberOp.eq n)
  is_not_is :
      (id : Text)
      → Opposite (LeafTest.option OptionOp.option_is_not id) (LeafTest.option OptionOp.option_is id)
  lacks_has :
      (id : Text)
      → Opposite (LeafTest.option OptionOp.lacks_option id) (LeafTest.option OptionOp.has_option id)

module _ (r : Runtime) where
  open r use {Num}

  Opposite-test :
      (t u : LeafTest Num) (value : Option (PropertyValue Num)) (empty : Bool)
      → Opposite t u
      → matches_test r t value empty ≡ not (matches_test r u value empty)
  unfolding matches_test compare_number
  Opposite-test t u (some (PropertyValue.number m)) empty (ne_eq n) = ground arith
  Opposite-test t u value empty (ne_eq n) = ground arith
  Opposite-test t u value empty (is_not_is id) = refl
  Opposite-test t u value empty (lacks_has id) = refl

  Opposite-leaf :
      (row : QueryRow Num) (defs : Defs) (l m : FilterLeaf Num) (def : PropertyDef)
      → l.property ≡ m.property
      → Dict.lookup l.property defs ≡ some def
      → Opposite l.test m.test
      → matches_leaf r row l defs ≡ not (matches_leaf r row m defs)
  unfolding matches_leaf
  Opposite-leaf row defs l m def same found o =
      let found_too : Dict.lookup m.property defs ≡ some def = rw same at found in
      rw (found, matches_leaf, found_too)
        (Opposite-test l.test m.test _ _ o
          ∙ ap
              (λ p. not (
                matches_test r m.test (value_of r row p) (is_empty_value r def (value_of r row p))))
              same)

-- On a property that exists, a leaf under `ne`, `optionIsNot` or `lacksOption` matches exactly the
-- rows that the filter `not` of the positive leaf matches, the rows with an empty cell among them.
pub matches_filter-Opposite :
    (r : Runtime) (row : QueryRow r.Num) (defs : Defs) (property : Text) (def : PropertyDef)
    (t u : LeafTest r.Num)
    → Dict.lookup property defs ≡ some def
    → Opposite t u
    → matches_filter r row (leaf (record { property = property; test = t })) defs
      ≡ matches_filter r row (negate (leaf (record { property = property; test = u }))) defs
unfolding matches_filter
matches_filter-Opposite r row defs property def t u found o =
    Opposite-leaf r row defs _ _ def refl found o
