-- ===== src/Evaluate/View/Groups.antt =====
-- The groups of an evaluated view and the rows in them.
use mathlib.Core.List.{Perm, perm_middle}
use mathlib.Core.List.Perm
use knowtion.Base.{
  ◌≡◌, refl, sym, ap, ◌∙◌, ◌⊎◌, inl, inr, Bool, true, false, not, Option, none, some, List, [], ◌∷◌,
  ◌++◌, map, any, filter, All, Text, ◌==◌, list_eq, list_beq_iff, nat_eq, contains, arith,
  Bool-cases,
}
use knowtion.Runtime.{Runtime}
use knowtion.Property.Values.{PropertyValue, PropertyDef, is_empty_value, option_ids, to_set}
use knowtion.Property.Sets.{Distinct, known_option-eq-contains, to_set-All}
use knowtion.Evaluate.Matching.{QueryRow, value_of}
use knowtion.Evaluate.Sorting.{stable_sort}
use knowtion.Evaluate.View.{
  GroupKey, same_key, QueryGroup, present_keys, order_group_keys, group_key_of, row_key, bucket,
  group_rows,
}

module _ {A : Type 0} (p : GroupKey → A → Bool) where
  abbrev pub all_buckets : List GroupKey → List A → List A
  all_buckets [] rows = []
  all_buckets (k ∷ ks) rows = filter (p k) rows ++ all_buckets ks rows

  -- No key of the list takes the row; exactly one does.
  abbrev Nowhere : A → List GroupKey → Type 0
  Nowhere x [] = Unit
  Nowhere x (k ∷ ks) = (p k x ≡ false) × Nowhere x ks

  abbrev pub Once : A → List GroupKey → Type 0
  Once x [] = ⊥
  Once x (k ∷ ks) = ((p k x ≡ true) × Nowhere x ks) ⊎ ((p k x ≡ false) × Once x ks)

  abbrev pub AllOnce : List A → List GroupKey → Type 0
  AllOnce [] ks = Unit
  AllOnce (x ∷ xs) ks = Once x ks × AllOnce xs ks

  buckets-Nowhere :
      (x : A) (rows : List A) (ks : List GroupKey)
      → Nowhere x ks
      → all_buckets ks (x ∷ rows) ≡ all_buckets ks rows
  buckets-Nowhere x rows [] h = refl
  buckets-Nowhere x rows (k ∷ ks) (e, h) = rw (e, buckets-Nowhere x rows ks h)

  buckets_once :
      (x : A) (rows : List A) (ks : List GroupKey)
      → Once x ks
      → Perm (all_buckets ks (x ∷ rows)) (x ∷ all_buckets ks rows)
  buckets_once x rows [] h = absurd h
  buckets_once x rows (k ∷ ks) (inl (e, h)) =
      rw (e, buckets-Nowhere x rows ks h)
        (Perm.refl (x ∷ (filter (p k) rows ++ all_buckets ks rows)))
  buckets_once x rows (k ∷ ks) (inr (e, h)) = rw e (
      Perm.trans (Perm.append (Perm.refl (filter (p k) rows)) (buckets_once x rows ks h))
        (perm_middle (filter (p k) rows) (all_buckets ks rows)))

  buckets_empty : (ks : List GroupKey) → all_buckets ks [] ≡ []
  buckets_empty [] = refl
  buckets_empty (k ∷ ks) = buckets_empty ks

  pub buckets-perm :
      (rows : List A) (ks : List GroupKey) → AllOnce rows ks → Perm (all_buckets ks rows) rows
  buckets-perm [] ks h = rw (buckets_empty ks) (Perm.refl [])
  buckets-perm (x ∷ rows) ks (h, hs) =
      Perm.trans (buckets_once x rows ks h) (Perm.cons x (buckets-perm rows ks hs))

filter-none :
    (p : Text → Bool) (xs : List Text) → All (λ k. p k ≡ true) xs → filter (λ k. not (p k)) xs ≡ []
filter-none p [] h = refl
filter-none p (x ∷ xs) (e, h) = rw (e, filter-none p xs h)

Nowhere-some :
    (k : Text) (ids : List Text)
    → contains k ids ≡ false
    → Nowhere (λ g x. same_key x g) (some k) (map some ids ++ none ∷ [])
unfolding contains
Nowhere-some k [] h = (refl, tt)
Nowhere-some k (id ∷ ids) h = (ground arith, Nowhere-some k ids (ground arith))

-- A key stands once among the distinct option ids and the null key.
Once-some :
    (k : Text) (ids : List Text)
    → Distinct ids
    → contains k ids ≡ true
    → Once (λ g x. same_key x g) (some k) (map some ids ++ none ∷ [])
unfolding contains
Once-some k [] d h = cc
Once-some k (id ∷ ids) (new, d) h = elim (Bool-cases (k == id)) [
  | inl here ↦
      let same : k ≡ id = (list_beq_iff k id).0 here in inl (here, Nowhere-some k ids (rw same new))
  | inr later ↦ inr (later, Once-some k ids d (ground arith))
]

Once-none : (ids : List Text) → Once (λ g x. same_key x g) none (map some ids ++ none ∷ [])
Once-none [] = inl (refl, tt)
Once-none (id ∷ ids) = inr (refl, Once-none ids)

-- Taking a row and taking its key are the same.
module _ {A : Type 0} (f : A → GroupKey) (x : A) where
  Nowhere-at :
      (ks : List GroupKey)
      → Nowhere (λ g y. same_key y g) (f x) ks
      → Nowhere (λ g y. same_key (f y) g) x ks
  Nowhere-at [] h = tt
  Nowhere-at (k ∷ ks) (e, h) = (e, Nowhere-at ks h)

  Once-at :
      (ks : List GroupKey)
      → Once (λ g y. same_key y g) (f x) ks
      → Once (λ g y. same_key (f y) g) x ks
  Once-at [] h = absurd h
  Once-at (k ∷ ks) (inl (e, h)) = inl (e, Nowhere-at ks h)
  Once-at (k ∷ ks) (inr (e, h)) = inr (e, Once-at ks h)

module _ (r : Runtime) (def : PropertyDef) where
  open r use {Num}

  abbrev pub columns : List GroupKey
  columns = map some (option_ids def.options) ++ none ∷ []

  -- A row's key is null or one of the property's options.
  IsColumn : GroupKey → Type 0
  IsColumn none = Unit
  IsColumn (some k) = contains k (option_ids def.options) ≡ true

  group_key-IsColumn : (value : Option (PropertyValue Num)) → IsColumn (group_key_of r def value)
  unfolding group_key_of IsColumn
  group_key-IsColumn none = tt
  group_key-IsColumn (some (PropertyValue.select id)) =
      elim (Bool-cases (is_empty_value r def (some (PropertyValue.select id)))) [
        | inl empty ↦ rw (empty, IsColumn) tt
        | inr full ↦ elim (Bool-cases (any (λ o. o.id == id) def.options)) [
          | inl known ↦
              rw (full, known, IsColumn) (sym (known_option-eq-contains id def.options) ∙ known)
          | inr unknown ↦ rw (full, unknown, IsColumn) tt
        ]
      ]
  group_key-IsColumn (some _) = tt

  present_keys-cons :
      (g : GroupKey) (ks : List GroupKey)
      → IsColumn g
      → All (λ k. contains k (option_ids def.options) ≡ true) (present_keys ks)
      → All (λ k. contains k (option_ids def.options) ≡ true) (present_keys (g ∷ ks))
  unfolding IsColumn
  present_keys-cons none ks h hs = hs
  present_keys-cons (some k) ks h hs = (h, hs)

  present-known :
      (rows : List (QueryRow Num))
      → All
          (λ k. contains k (option_ids def.options) ≡ true)
          (present_keys (map (row_key r def) rows))
  present-known [] = tt
  present-known (row ∷ rows) =
      present_keys-cons (row_key r def row) (map (row_key r def) rows)
        (group_key-IsColumn (value_of r row def.id)) (present-known rows)

  -- The columns of a board are the property's options and the null column, whatever the rows.
  pub order_group_keys-columns :
      (rows : List (QueryRow Num)) → order_group_keys def (map (row_key r def) rows) ≡ columns
  unfolding order_group_keys stable_sort
  order_group_keys-columns rows =
      rw
        (filter-none (λ k. contains k (option_ids def.options))
          (to_set [] (present_keys (map (row_key r def) rows)))
          (to_set-All (λ k. contains k (option_ids def.options)) _ (present-known rows)))
        refl

  column-Once :
      (g : GroupKey)
      → Distinct (option_ids def.options)
      → IsColumn g
      → Once (λ k x. same_key x k) g columns
  unfolding IsColumn
  column-Once none d h = Once-none (option_ids def.options)
  column-Once (some k) d h = Once-some k (option_ids def.options) d h

  rows-AllOnce :
      (rows : List (QueryRow Num))
      → Distinct (option_ids def.options)
      → AllOnce (λ k row. same_key (row_key r def row) k) rows columns
  rows-AllOnce [] d = tt
  rows-AllOnce (row ∷ rows) d = (
    Once-at (row_key r def) row columns
        (column-Once (row_key r def row) d (group_key-IsColumn (value_of r row def.id))),
    rows-AllOnce rows d,
  )

  abbrev pub rows_of_groups : List (QueryGroup Num) → List (QueryRow Num)
  rows_of_groups [] = []
  rows_of_groups (g ∷ gs) = g.rows ++ rows_of_groups gs

  rows_of_buckets :
      (rows : List (QueryRow Num)) (ks : List GroupKey)
      → rows_of_groups (map (bucket r def rows) ks)
        ≡ all_buckets (λ k row. same_key (row_key r def row) k) ks rows
  rows_of_buckets rows [] = refl
  rows_of_buckets rows (k ∷ ks) =
      ap (λ (t : List (QueryRow Num)). (bucket r def rows k).rows ++ t) (rows_of_buckets rows ks)

-- Grouping loses no row and shows none twice, as long as the property's options are distinct.
pub group_rows-perm :
    (r : Runtime) (def : PropertyDef) (rows : List (QueryRow r.Num))
    → Distinct (option_ids def.options)
    → Perm (rows_of_groups r def (group_rows r def rows)) rows
unfolding group_rows
group_rows-perm r def rows d =
    rw (order_group_keys-columns r def rows, rows_of_buckets r def rows)
      (buckets-perm (λ k row. same_key (row_key r def row) k) rows _ (rows-AllOnce r def rows d))
