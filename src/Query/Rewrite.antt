-- ===== src/Query/Rewrite.antt =====
-- `resolveDates` and `stripProperty`.
use knowtion.Base.{Option, none, some, Text, ◌==◌, list_eq, nat_eq, if◌then◌else◌}
use knowtion.Runtime.{Runtime}
use knowtion.Property.Calendar.{local_date_of, add_days}
use knowtion.Query.Grammar.{
  on, relative, LeafTest, Filter, conj, disj, negate, leaf, Clauses, nil, cons,
}

infixl 5 ◌>>=◌
abbrev pub ◌>>=◌ {ℓ κ} : {A : Type ℓ} {B : Type κ} → Option A → (A → Option B) → Option B
none >>= f = none
some a >>= f = f a

-- What "now" is, injected.
pub record QueryContext (N : Type 0) : Type 0 where
  pub now_ms : N
  pub time_zone : Text

module _ (r : Runtime) where
  open r use {Num}

  -- Only a relative date asks for the day of today; `localDateOf` and `addDays` may throw.
  abbrev pub resolve_test : LeafTest Num → QueryContext Num → Option (LeafTest Num)
  resolve_test (LeafTest.date op (relative days)) ctx = do
    today ← local_date_of r ctx.now_ms ctx.time_zone
    day ← add_days r today days
    some (LeafTest.date op (on day))
  resolve_test test ctx = some test

  unfoldable mutual
    -- Every relative date becomes the day that it means now. It is none where a day cannot be shown,
    -- and the source throws a `RangeError`.
    pub resolve_dates : Filter Num → QueryContext Num → Option (Filter Num)
    resolve_dates (conj cs) ctx = do resolved ← resolve_clauses cs ctx; some (conj resolved)
    resolve_dates (disj cs) ctx = do resolved ← resolve_clauses cs ctx; some (disj resolved)
    resolve_dates (negate f) ctx = do resolved ← resolve_dates f ctx; some (negate resolved)
    resolve_dates (leaf l) ctx = do
      test ← resolve_test l.test ctx
      some (leaf (record l { test = test }))

    pub resolve_clauses : Clauses Num → QueryContext Num → Option (Clauses Num)
    resolve_clauses nil ctx = some nil
    resolve_clauses (cons f cs) ctx = do
      first ← resolve_dates f ctx
      others ← resolve_clauses cs ctx
      some (cons first others)

module _ {N : Type 0} where
  abbrev pub negate_some : Option (Filter N) → Option (Filter N)
  negate_some none = none
  negate_some (some f) = some (negate f)

  -- `clauses.length === 0 ? undefined : { kind: filter.kind, clauses }`
  abbrev pub unless_empty : (Clauses N → Filter N) → Clauses N → Option (Filter N)
  unless_empty make nil = none
  unless_empty make (cons f cs) = some (make (cons f cs))

  abbrev pub cons_some : Option (Filter N) → Clauses N → Clauses N
  cons_some none cs = cs
  cons_some (some f) cs = cons f cs

  unfoldable mutual
    -- The filter without its leaves on a property, or none if nothing is left.
    pub strip_property : Filter N → Text → Option (Filter N)
    strip_property (conj cs) p = unless_empty conj (strip_clauses cs p)
    strip_property (disj cs) p = unless_empty disj (strip_clauses cs p)
    strip_property (negate f) p = negate_some (strip_property f p)
    strip_property (leaf l) p = if l.property == p then none else some (leaf l)

    pub strip_clauses : Clauses N → Text → Clauses N
    strip_clauses nil p = nil
    strip_clauses (cons f cs) p = cons_some (strip_property f p) (strip_clauses cs p)
