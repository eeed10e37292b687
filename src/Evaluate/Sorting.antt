-- ===== src/Evaluate/Sorting.antt =====
-- The comparator of a view, and the stable sort that `Array.prototype.sort` makes with it.
pub mod Order
pub mod Stable
pub mod Passes
pub mod Keys
pub mod Transitive
pub mod Sorted
use knowtion.Base.{
  ℕ, zero, suc, ◌+◌, ◌≡◌, Bool, true, false, not, ◌&&◌, ◌||◌, Option, none, some, is_some, List, [],
  ◌∷◌, Text, ◌==◌, list_eq, nat_eq, if◌then◌else◌, compare, Ordering,
}
use knowtion.Base.Dict
use knowtion.Runtime.{Runtime}
use knowtion.Property.Dates.{compare_codepoints}
use knowtion.Property.Values.{
  PropertyType, PropertyValue, PropertyDef, SelectOption, same_type, type_of, is_empty_value,
}
use knowtion.Query.Grammar.{
  Direction, asc, desc, SortField, title, created_at, updated_at, property, Sort,
}
use knowtion.Query.Problems.{Defs}
use knowtion.OrderKey.Compare.{compare_order_keys}
use knowtion.Evaluate.Matching.{QueryRow, fold_text, value_of}

-- The position of an option, from `i` on.
unfoldable pub find_index : ℕ → Text → List SelectOption → Option ℕ
find_index i id [] = none
find_index i id (o ∷ os) = if o.id == id then some i else find_index (i + 1) id os

-- What a value sorts by: a number, a position or 0 and 1, a text, or a folded text with its raw form.
pub data SortKey (N : Type 0) : Type 0 where
  num : N → SortKey N
  position : ℕ → SortKey N
  plain : Text → SortKey N
  folded : Text → Text → SortKey N

pub data SortOutcome : Type 0 where
  both_empty a_empty b_empty : SortOutcome
  compared : Ordering → SortOutcome

-- `-outcome`
abbrev pub flip : Ordering → Ordering
flip Ordering.lt = Ordering.gt
flip Ordering.eq = Ordering.eq
flip Ordering.gt = Ordering.lt

-- The second comparison decides where the first finds no difference.
abbrev pub then_by : Ordering → Ordering → Ordering
then_by Ordering.eq o = o
then_by Ordering.lt o = Ordering.lt
then_by Ordering.gt o = Ordering.gt

module _ (r : Runtime) where
  open r use {Num}

  abbrev pub text_key : Text → SortKey Num
  text_key t = folded (fold_text r t) t

  -- The cases of `sortKeyOf` for a value whose tag is the property's type.
  unfoldable pub key_of_value : PropertyDef → PropertyValue Num → Option (SortKey Num)
  key_of_value def (PropertyValue.text t) = some (text_key t)
  key_of_value def (PropertyValue.url t) = some (text_key t)
  key_of_value def (PropertyValue.number n) = some (num n)
  key_of_value def (PropertyValue.checkbox b) = some (position (if b then 1 else 0))
  key_of_value def (PropertyValue.select id) = elim (find_index 0 id def.options) [
    | none ↦ none
    | some i ↦ some (position i)
  ]
  key_of_value def (PropertyValue.multi_select _) = none
  key_of_value def (PropertyValue.relation _) = none
  key_of_value def (PropertyValue.date day) = some (plain day)
  key_of_value def (PropertyValue.datetime d) = some (num d.ms)

  abbrev pub missing_key : PropertyDef → Option (SortKey Num)
  missing_key def = if same_type def.type PropertyType.checkbox then some (position 0) else none

  unfoldable pub sort_key_of : PropertyDef → Option (PropertyValue Num) → Option (SortKey Num)
  sort_key_of def none = missing_key def
  sort_key_of def (some value) =
      if same_type (type_of value) def.type then key_of_value def value else missing_key def

  -- `Math.sign(a - b)`
  unfoldable pub compare_num : Num → Num → Ordering
  compare_num a b =
      if r.num_lt a b then Ordering.lt else if r.num_lt b a then Ordering.gt else Ordering.eq

  -- Two keys of one property have one shape, so the last clause is not reached.
  unfoldable pub compare_keys : SortKey Num → SortKey Num → Ordering
  compare_keys (num a) (num b) = compare_num a b
  compare_keys (position a) (position b) = compare a b
  compare_keys (plain a) (plain b) = compare_codepoints a b
  compare_keys (folded a a') (folded b b') =
      then_by (compare_codepoints a b) (compare_codepoints a' b')
  compare_keys _ _ = Ordering.eq

  -- A cell that holds nothing, or whose value has no key, counts as empty.
  unfoldable pub effective_key : PropertyDef → Option (PropertyValue Num) → Option (SortKey Num)
  effective_key def value = if is_empty_value r def value then none else sort_key_of def value

  abbrev pub compare_cells : Option (SortKey Num) → Option (SortKey Num) → SortOutcome
  compare_cells none none = SortOutcome.both_empty
  compare_cells none (some _) = SortOutcome.a_empty
  compare_cells (some _) none = SortOutcome.b_empty
  compare_cells (some ka) (some kb) = SortOutcome.compared (compare_keys ka kb)

  unfoldable pub compare_on_sort : QueryRow Num → QueryRow Num → Sort → Defs → SortOutcome
  compare_on_sort a b sort defs = elim sort.field [
    | title ↦ SortOutcome.compared (
        then_by (compare_codepoints (fold_text r a.title) (fold_text r b.title))
          (compare_codepoints a.title b.title))
    | created_at ↦ SortOutcome.compared (compare a.created_at b.created_at)
    | updated_at ↦ SortOutcome.compared (compare a.updated_at b.updated_at)
    | property id ↦ elim (Dict.lookup id defs) [
      | none ↦ SortOutcome.compared Ordering.eq
      | some def ↦
          compare_cells (effective_key def (value_of r a id)) (effective_key def (value_of r b id))
    ]
  ]

  -- One round of the loop of `compareRows`: the result it returns, or `eq` to go on.
  unfoldable pub sort_step : SortOutcome → Direction → Ordering
  sort_step SortOutcome.both_empty d = Ordering.eq
  sort_step SortOutcome.a_empty d = Ordering.gt
  sort_step SortOutcome.b_empty d = Ordering.lt
  sort_step (SortOutcome.compared o) asc = o
  sort_step (SortOutcome.compared o) desc = flip o

  unfoldable pub by_sorts : List Sort → Defs → QueryRow Num → QueryRow Num → Ordering
  by_sorts [] defs a b = Ordering.eq
  by_sorts (s ∷ ss) defs a b =
      then_by (sort_step (compare_on_sort a b s defs) s.direction) (by_sorts ss defs a b)

  abbrev pub compare_order : Option Text → Option Text → Ordering
  compare_order none none = Ordering.eq
  compare_order (some _) none = Ordering.lt
  compare_order none (some _) = Ordering.gt
  compare_order (some ka) (some kb) = compare_order_keys ka kb

  -- The manual order of a view: keyed rows first, by key.
  unfoldable pub by_manual_order : Option Text → QueryRow Num → QueryRow Num → Ordering
  by_manual_order none a b = Ordering.eq
  by_manual_order (some view) a b =
      compare_order (Dict.lookup view a.order_keys) (Dict.lookup view b.order_keys)

  unfoldable pub compare_rows :
      Defs → List Sort → Option Text → QueryRow Num → QueryRow Num → Ordering
  compare_rows defs sorts view a b = then_by (by_sorts sorts defs a b) (
      then_by (by_manual_order view a b)
        (then_by (compare a.created_at b.created_at) (compare_codepoints a.id b.id)))

-- A stable sort by a comparator: an item goes before those that it is not greater than.
module _ {ℓ} {A : Type ℓ} (cmp : A → A → Ordering) where
  unfoldable pub insert_sorted : A → List A → List A
  insert_sorted x [] = x ∷ []
  insert_sorted x (y ∷ ys) = elim (cmp y x) [
    | Ordering.lt ↦ y ∷ insert_sorted x ys
    | _ ↦ x ∷ y ∷ ys
  ]

  unfoldable pub stable_sort : List A → List A
  stable_sort [] = []
  stable_sort (x ∷ xs) = insert_sorted x (stable_sort xs)
