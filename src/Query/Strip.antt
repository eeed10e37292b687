-- ===== src/Query/Strip.antt =====
-- What `stripProperty` leaves of a filter.
use knowtion.Base.{
  ◌≡◌, refl, ◌∙◌, not, Option, none, some, List, [], ◌++◌, filter, filter-append, Text, ◌==◌,
  list_eq, nat_eq, arith,
}
use knowtion.Query.Grammar.{
  FilterLeaf, Filter, conj, disj, negate, leaf, Clauses, nil, cons, filter_leaves, clauses_leaves,
}
use knowtion.Query.Rewrite.{strip_property, strip_clauses, unless_empty, cons_some, negate_some}

module _ {N : Type 0} (p : Text) where
  -- The leaves of what is left; none if nothing is.
  abbrev pub leaves_left : Option (Filter N) → List (FilterLeaf N)
  leaves_left none = []
  leaves_left (some f) = filter_leaves f

  abbrev pub others : List (FilterLeaf N) → List (FilterLeaf N)
  others = filter (λ l. not (l.property == p))

  conj_leaves : (cs : Clauses N) → leaves_left (unless_empty conj cs) ≡ clauses_leaves cs
  unfolding filter_leaves
  conj_leaves nil = refl
  conj_leaves (cons f cs) = refl

  disj_leaves : (cs : Clauses N) → leaves_left (unless_empty disj cs) ≡ clauses_leaves cs
  unfolding filter_leaves
  disj_leaves nil = refl
  disj_leaves (cons f cs) = refl

  negate_leaves : (f : Option (Filter N)) → leaves_left (negate_some f) ≡ leaves_left f
  unfolding filter_leaves
  negate_leaves none = refl
  negate_leaves (some f) = refl

  cons_leaves :
      (f : Option (Filter N)) (cs : Clauses N)
      → clauses_leaves (cons_some f cs) ≡ leaves_left f ++ clauses_leaves cs
  unfolding filter_leaves
  cons_leaves none cs = refl
  cons_leaves (some f) cs = refl

  mutual
    unfolding strip_property filter_leaves

    leaves-strip : (f : Filter N) → leaves_left (strip_property f p) ≡ others (filter_leaves f)
    leaves-strip (conj cs) = conj_leaves (strip_clauses cs p) ∙ leaves-strip_clauses cs
    leaves-strip (disj cs) = disj_leaves (strip_clauses cs p) ∙ leaves-strip_clauses cs
    leaves-strip (negate f) = negate_leaves (strip_property f p) ∙ leaves-strip f
    leaves-strip (leaf l) = ground arith

    leaves-strip_clauses :
        (cs : Clauses N) → clauses_leaves (strip_clauses cs p) ≡ others (clauses_leaves cs)
    leaves-strip_clauses nil = refl
    leaves-strip_clauses (cons f cs) =
        cons_leaves (strip_property f p) (strip_clauses cs p)
        ∙ rw (leaves-strip f, leaves-strip_clauses cs, filter-append)

-- Stripping a property removes the leaves on it, keeps every other leaf in its place, and leaves no
-- filter only where no leaf on another property is left.
pub filter_leaves-strip_property :
    {N : Type 0} (p : Text) (f : Filter N)
    → leaves_left p (strip_property f p) ≡ others p (filter_leaves f)
filter_leaves-strip_property p f = leaves-strip p f
