-- ===== src/Evaluate/Sorting/Keys.antt =====
-- That the keys of one property are compared transitively (packages/engine/src/evaluate.ts).
use knowtion.Base.{
  ℕ, ◌≡◌, refl, ap, sym, subst, nat_beq_iff, ◌||◌, true, false, Option, none, some, Text, ◌==◌,
  list_eq, nat_eq, Ordering, arith, inl, inr, Bool-cases, if◌then◌else◌,
}
use knowtion.Runtime.{Runtime}
use knowtion.Property.Dates.{compare_codepoints}
use knowtion.Property.Values.{
  PropertyType, PropertyValue, PropertyDef, same_type, type_of, type_code, is_empty_value,
}
use knowtion.Query.Grammar.{Direction, asc, desc}
use knowtion.Evaluate.Matching.{QueryRow, value_of}
use knowtion.Evaluate.Sorting.{
  then_by, SortOutcome, sort_step, compare_cells, key_of_value, missing_key, sort_key_of,
  effective_key, find_index, SortKey, compare_num, compare_keys,
}
use knowtion.Evaluate.Sorting.Order.{HasOrder, compare_codepoints-flip, compare_keys-flip}
use knowtion.Evaluate.Sorting.Passes.{
  le, Flips, Passes, then_by-Passes, compare-Passes, compare_codepoints-le,
}

-- Of two numbers not each is below the other, and of finite ones not being below is transitive.
pub record HasWeakOrder (r : Runtime) : Type 0 where
  pub num_lt_asym : (a b : r.Num) → r.num_lt a b ≡ true → r.num_lt b a ≡ false
  pub num_lt_weak :
      (a b c : r.Num)
      → r.is_finite a ≡ true
      → r.is_finite b ≡ true
      → r.is_finite c ≡ true
      → r.num_lt b a ≡ false
      → r.num_lt c b ≡ false
      → r.num_lt c a ≡ false

module _ (r : Runtime) where
  open r use {Num}

  -- A number or an instant is finite.
  abbrev pub IsFiniteValue : PropertyValue Num → Type 0
  IsFiniteValue (PropertyValue.number n) = r.is_finite n ≡ true
  IsFiniteValue (PropertyValue.datetime d) = r.is_finite d.ms ≡ true
  IsFiniteValue _ = Unit

  -- Every number and instant of a row is finite.
  abbrev pub IsFiniteRow : QueryRow Num → Type 0
  IsFiniteRow row =
      (id : Text) (v : PropertyValue Num) → value_of r row id ≡ some v → IsFiniteValue v

pub data KeyShape : Type 0 where
  numbers positions plains foldeds : KeyShape

module _ (r : Runtime) (law : HasWeakOrder r) where
  open r use {Num}

  abbrev pub order : HasOrder r
  order = record { num_lt_asym = law.num_lt_asym }

  pub data Shaped : KeyShape → SortKey Num → Type 0 where
    num : {n : Num} → r.is_finite n ≡ true → Shaped numbers (SortKey.num n)
    position : {i : ℕ} → Shaped positions (SortKey.position i)
    plain : {t : Text} → Shaped plains (SortKey.plain t)
    folded : {t t' : Text} → Shaped foldeds (SortKey.folded t t')

  compare_num-le :
      (a b c : Num)
      → r.is_finite a ≡ true
      → r.is_finite b ≡ true
      → r.is_finite c ≡ true
      → le (compare_num r a b) ≡ true
      → le (compare_num r b c) ≡ true
      → le (compare_num r a c) ≡ true
  unfolding compare_num
  compare_num-le a b c fa fb fc h k = ground (
    arith,
    law.num_lt_asym a b,
    law.num_lt_asym b c,
    law.num_lt_asym a c,
    law.num_lt_weak a b c fa fb fc,
  )

  pub folded_texts-Passes :
      Passes
        (λ (t : Text × Text). Unit)
        (λ (x y : Text × Text). then_by (compare_codepoints x.0 y.0) (compare_codepoints x.1 y.1))
  folded_texts-Passes =
      then_by-Passes (λ (t : Text × Text). Unit) (λ x y. compare_codepoints x.0 y.0)
        (λ x y. compare_codepoints x.1 y.1) (λ x y. compare_codepoints-flip x.0 y.0)
        (λ x y z u v w. compare_codepoints-le x.0 y.0 z.0)
        (λ x y z u v w. compare_codepoints-le x.1 y.1 z.1)

  compare_keys-le :
      {s : KeyShape} {a b c : SortKey Num}
      → Shaped s a
      → Shaped s b
      → Shaped s c
      → le (compare_keys r a b) ≡ true
      → le (compare_keys r b c) ≡ true
      → le (compare_keys r a c) ≡ true
  unfolding compare_keys
  compare_keys-le (num {n = a} fa) (num {n = b} fb) (num {n = c} fc) = compare_num-le a b c fa fb fc
  compare_keys-le (position {i = a}) (position {i = b}) (position {i = c}) = compare-Passes a b c
  compare_keys-le (plain {t = a}) (plain {t = b}) (plain {t = c}) = compare_codepoints-le a b c
  compare_keys-le (folded {t = a} {t' = a'}) (folded {t = b} {t' = b'}) (folded {t = c} {t' = c'}) =
      folded_texts-Passes (a, a') (b, b') (c, c') tt tt tt

  abbrev pub Cell : KeyShape → Option (SortKey Num) → Type 0
  Cell s none = Unit
  Cell s (some k) = Shaped s k

  -- A comparison in either direction.
  pub directed-Passes :
      {A : Type 0} (P : A → Type 0) (cmp : A → A → Ordering) (d : Direction)
      → Flips cmp
      → Passes P cmp
      → Passes P (λ a b. sort_step r (SortOutcome.compared (cmp a b)) d)
  unfolding sort_step
  directed-Passes P cmp asc flips passes a b c pa pb pc h k = passes a b c pa pb pc h k
  directed-Passes P cmp desc flips passes a b c pa pb pc h k =
      subst (λ o. le o ≡ true) (flips a c)
        (passes c b a pc pb pa (subst (λ o. le o ≡ true) (sym (flips b c)) k)
          (subst (λ o. le o ≡ true) (sym (flips a b)) h))

  keys-Passes :
      (s : KeyShape) (d : Direction)
      → Passes (Shaped s) (λ a b. sort_step r (SortOutcome.compared (compare_keys r a b)) d)
  keys-Passes s d =
      directed-Passes (Shaped s) (compare_keys r) d (compare_keys-flip r order)
        (λ a b c pa pb pc. compare_keys-le pa pb pc)

  pub cells-Passes :
      (s : KeyShape) (d : Direction) → Passes (Cell s) (λ a b. sort_step r (compare_cells r a b) d)
  unfolding sort_step
  cells-Passes s d none none c pa pb pc h k = k
  cells-Passes s d none (some b) c pa pb pc h k = cc
  cells-Passes s d (some a) b none pa pb pc h k = refl
  cells-Passes s d (some a) none (some c) pa pb pc h k = cc
  cells-Passes s d (some a) (some b) (some c) pa pb pc h k = keys-Passes s d a b c pa pb pc h k

  abbrev pub shape_at : ℕ → KeyShape
  shape_at code =
      if code == 0 || code == 7
      then foldeds
      else if code == 1 || code == 6
      then numbers
      else if code == 5
      then plains
      else positions

  abbrev pub shape_of : PropertyType → KeyShape
  shape_of type = shape_at (type_code type)

  same_shape : (t t' : PropertyType) → same_type t t' ≡ true → shape_of t ≡ shape_of t'
  same_shape t t' h = ap shape_at ((nat_beq_iff (type_code t) (type_code t')).0 h)

  found-Cell :
      (o : Option ℕ) → Cell positions (elim o [ none ↦ none | some i ↦ some (SortKey.position i) ])
  found-Cell none = tt
  found-Cell (some i) = position

  key_of_value-Cell :
      (def : PropertyDef) (v : PropertyValue Num)
      → IsFiniteValue r v
      → Cell (shape_of (type_of v)) (key_of_value r def v)
  unfolding key_of_value
  key_of_value-Cell def (PropertyValue.text t) h = folded
  key_of_value-Cell def (PropertyValue.url t) h = folded
  key_of_value-Cell def (PropertyValue.number n) h = num h
  key_of_value-Cell def (PropertyValue.checkbox b) h = position
  key_of_value-Cell def (PropertyValue.select id) h = found-Cell (find_index 0 id def.options)
  key_of_value-Cell def (PropertyValue.multi_select _) h = tt
  key_of_value-Cell def (PropertyValue.relation _) h = tt
  key_of_value-Cell def (PropertyValue.date day) h = plain
  key_of_value-Cell def (PropertyValue.datetime d) h = num h

  missing_key-Cell : (def : PropertyDef) → Cell (shape_of def.type) (missing_key r def)
  missing_key-Cell def = elim (Bool-cases (same_type def.type PropertyType.checkbox)) [
    | inl e ↦ rw e (
        subst (λ s. Shaped s (SortKey.position 0))
          (sym (same_shape def.type PropertyType.checkbox e)) (checkbox_shape))
    | inr e ↦ rw e tt
  ]
    where
      checkbox_shape : Shaped (shape_of PropertyType.checkbox) (SortKey.position 0)
      checkbox_shape = position

  sort_key_of-Cell :
      (def : PropertyDef) (value : Option (PropertyValue Num))
      → ((v : PropertyValue Num) → value ≡ some v → IsFiniteValue r v)
      → Cell (shape_of def.type) (sort_key_of r def value)
  unfolding sort_key_of
  sort_key_of-Cell def none h = missing_key-Cell def
  sort_key_of-Cell def (some v) h = elim (Bool-cases (same_type (type_of v) def.type)) [
    | inl e ↦ rw e (
        subst (λ s. Cell s (key_of_value r def v)) (same_shape (type_of v) def.type e)
          (key_of_value-Cell def v (h v refl)))
    | inr e ↦ rw e (missing_key-Cell def)
  ]

  pub effective_key-Cell :
      (def : PropertyDef) (value : Option (PropertyValue Num))
      → ((v : PropertyValue Num) → value ≡ some v → IsFiniteValue r v)
      → Cell (shape_of def.type) (effective_key r def value)
  unfolding effective_key
  effective_key-Cell def value h = elim (Bool-cases (is_empty_value r def value)) [
    | inl e ↦ rw e tt
    | inr e ↦ rw e (sort_key_of-Cell def value h)
  ]
