-- ===== src/Query/Resolve.antt =====
-- What `resolveDates` does to the leaves and to the shape of a filter.
use knowtion.Base.{◌≡◌, ◌⊎◌, inl, inr, refl, Option, none, some, List, [], ◌∷◌, ◌++◌, Text}
use knowtion.Runtime.{Runtime}
use knowtion.Property.Calendar.{local_date_of, add_days}
use knowtion.Query.Grammar.{
  LeafTest, on, relative, FilterLeaf, Filter, Clauses, DateOp, filter_leaves, clauses_leaves,
}
use knowtion.Query.Rewrite.{QueryContext, resolve_test, resolve_dates, resolve_clauses, ◌>>=◌}

-- One item at least satisfies `P`.
abbrev pub Any : {A : Type 0} → (A → Type 0) → List A → Type 0
Any P [] = ⊥
Any P (x ∷ xs) = P x ⊎ Any P xs

Any-left : {A : Type 0} (P : A → Type 0) (xs ys : List A) → Any P xs → Any P (xs ++ ys)
Any-left P [] ys h = absurd h
Any-left P (x ∷ xs) ys (inl h) = inl h
Any-left P (x ∷ xs) ys (inr h) = inr (Any-left P xs ys h)

Any-right : {A : Type 0} (P : A → Type 0) (xs ys : List A) → Any P ys → Any P (xs ++ ys)
Any-right P [] ys h = h
Any-right P (x ∷ xs) ys h = inr (Any-right P xs ys h)

abbrev pub IsAbsolute : {N : Type 0} → LeafTest N → Type 0
IsAbsolute (LeafTest.date op (relative days)) = ⊥
IsAbsolute _ = Unit

module _ (r : Runtime) (ctx : QueryContext r.Num) where
  open r use {Num}

  -- A date so many days from today becomes the day that lies that many days after today in the
  -- viewer's zone, under the same operator. Every other test stays.
  pub data TestResolved : LeafTest Num → LeafTest Num → Type 0 where
    shifted :
        (op : DateOp) (days : Num) (today day : Text)
        → local_date_of r ctx.now_ms ctx.time_zone ≡ some today
        → add_days r today days ≡ some day
        → TestResolved (LeafTest.date op (relative days)) (LeafTest.date op (on day))
    kept : (test : LeafTest Num) → IsAbsolute test → TestResolved test test

  -- Two filters of one shape, each leaf of the second on the property of the first.
  mutual
    pub data Resolved : Filter Num → Filter Num → Type 0 where
      conj :
          {cs ds : Clauses Num} → ClausesResolved cs ds → Resolved (Filter.conj cs) (Filter.conj ds)
      disj :
          {cs ds : Clauses Num} → ClausesResolved cs ds → Resolved (Filter.disj cs) (Filter.disj ds)
      negate : {f g : Filter Num} → Resolved f g → Resolved (Filter.negate f) (Filter.negate g)
      leaf :
          {l : FilterLeaf Num} {test : LeafTest Num}
          → TestResolved l.test test
          → Resolved (Filter.leaf l) (Filter.leaf (record { property = l.property; test = test }))

    pub data ClausesResolved : Clauses Num → Clauses Num → Type 0 where
      nil : ClausesResolved Clauses.nil Clauses.nil
      cons :
          {f g : Filter Num} {cs ds : Clauses Num}
          → Resolved f g
          → ClausesResolved cs ds
          → ClausesResolved (Clauses.cons f cs) (Clauses.cons g ds)

  -- The day of today, or the day that is meant, cannot be shown.
  abbrev pub Unshowable : LeafTest Num → Type 0
  Unshowable (LeafTest.date op (relative days)) =
      (today : Text)
      → local_date_of r ctx.now_ms ctx.time_zone ≡ some today
      → add_days r today days ≡ none
  Unshowable _ = ⊥

  abbrev pub UnshowableLeaf : FilterLeaf Num → Type 0
  UnshowableLeaf l = Unshowable l.test

  -- What resolving a filter returns: a resolved filter, or nothing on account of a leaf.
  pub data Resolution (f : Filter Num) : Option (Filter Num) → Type 0 where
    resolved : {g : Filter Num} → Resolved f g → Resolution f (some g)
    throws : Any UnshowableLeaf (filter_leaves f) → Resolution f none

  data ClausesResolution (cs : Clauses Num) : Option (Clauses Num) → Type 0 where
    resolved : {ds : Clauses Num} → ClausesResolved cs ds → ClausesResolution cs (some ds)
    throws : Any UnshowableLeaf (clauses_leaves cs) → ClausesResolution cs none

  data TestResolution (test : LeafTest Num) : Option (LeafTest Num) → Type 0 where
    resolved : {test' : LeafTest Num} → TestResolved test test' → TestResolution test (some test')
    throws : Unshowable test → TestResolution test none

  resolve_relative :
      (op : DateOp) (days : Num) (local : Option Text)
      → local_date_of r ctx.now_ms ctx.time_zone ≡ local
      → TestResolution
          (LeafTest.date op (relative days))
          (local >>= λ today. add_days r today days >>= λ day. some (LeafTest.date op (on day)))
  resolve_relative op days none e = throws λ today h. cc
  resolve_relative op days (some today) e = go (add_days r today days) refl
    where
      go :
          (o : Option Text)
          → add_days r today days ≡ o
          → TestResolution
              (LeafTest.date op (relative days))
              (o >>= λ day. some (LeafTest.date op (on day)))
      go none f = throws λ t h. cc
      go (some day) f = resolved (shifted op days today day e f)

  resolve_test-Resolution : (test : LeafTest Num) → TestResolution test (resolve_test r test ctx)
  resolve_test-Resolution (LeafTest.date op (relative days)) = resolve_relative op days _ refl
  resolve_test-Resolution (LeafTest.date op (on day)) = resolved (kept _ tt)
  resolve_test-Resolution test = resolved (kept test tt)

  test_leaf :
      (l : FilterLeaf Num) (o : Option (LeafTest Num))
      → TestResolution l.test o
      → Resolution (Filter.leaf l) (o >>= λ test. some (Filter.leaf (record l { test = test })))
  unfolding filter_leaves
  test_leaf l (some test) (resolved h) = resolved (leaf h)
  test_leaf l none (throws h) = throws (inl h)

  negated :
      (f : Filter Num) (o : Option (Filter Num))
      → Resolution f o
      → Resolution (Filter.negate f) (o >>= λ g. some (Filter.negate g))
  unfolding filter_leaves
  negated f (some g) (resolved h) = resolved (negate h)
  negated f none (throws h) = throws h

  conjoined :
      (cs : Clauses Num) (o : Option (Clauses Num))
      → ClausesResolution cs o
      → Resolution (Filter.conj cs) (o >>= λ ds. some (Filter.conj ds))
  unfolding filter_leaves
  conjoined cs (some ds) (resolved h) = resolved (conj h)
  conjoined cs none (throws h) = throws h

  disjoined :
      (cs : Clauses Num) (o : Option (Clauses Num))
      → ClausesResolution cs o
      → Resolution (Filter.disj cs) (o >>= λ ds. some (Filter.disj ds))
  unfolding filter_leaves
  disjoined cs (some ds) (resolved h) = resolved (disj h)
  disjoined cs none (throws h) = throws h

  added :
      (f : Filter Num) (cs : Clauses Num) (o : Option (Filter Num)) (os : Option (Clauses Num))
      → Resolution f o
      → ClausesResolution cs os
      → ClausesResolution (Clauses.cons f cs) (o >>= λ g. os >>= λ ds. some (Clauses.cons g ds))
  unfolding filter_leaves
  added f cs (some g) (some ds) (resolved h) (resolved k) = resolved (cons h k)
  added f cs (some g) none (resolved h) (throws k) =
      throws (Any-right UnshowableLeaf (filter_leaves f) (clauses_leaves cs) k)
  added f cs none os (throws h) k =
      throws (Any-left UnshowableLeaf (filter_leaves f) (clauses_leaves cs) h)

  mutual
    unfolding resolve_dates

    filter-Resolution : (f : Filter Num) → Resolution f (resolve_dates r f ctx)
    filter-Resolution (Filter.conj cs) = conjoined cs _ (clauses-ClausesResolution cs)
    filter-Resolution (Filter.disj cs) = disjoined cs _ (clauses-ClausesResolution cs)
    filter-Resolution (Filter.negate f) = negated f _ (filter-Resolution f)
    filter-Resolution (Filter.leaf l) = test_leaf l _ (resolve_test-Resolution l.test)

    clauses-ClausesResolution : (cs : Clauses Num) → ClausesResolution cs (resolve_clauses r cs ctx)
    clauses-ClausesResolution Clauses.nil = resolved nil
    clauses-ClausesResolution (Clauses.cons f cs) =
        added f cs _ _ (filter-Resolution f) (clauses-ClausesResolution cs)
