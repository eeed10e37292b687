-- ===== src/Base/Dict.antt =====
-- JavaScript's `Map` and `Set` as lists in insertion order.
use mathlib.Core.Path.{◌≡◌, refl}
use mathlib.Core.Bool.{Bool, true, ◌||◌}
use mathlib.Core.Option.{Option, none, some}
use mathlib.Core.List.{List, [], ◌∷◌}
use native.Mathlib.Omega.{arith}
use knowtion.Base.Tests.{if◌then◌else◌}
use knowtion.Base.Lists.{all}
use knowtion.Base.Equality.{Eq, ◌==◌, contains}

abbrev pub Dict {ℓ κ} : Type ℓ → Type κ → Type (ℓ ⊔ κ)
Dict K V = List (K × V)

module _ {ℓ κ} {K : Type ℓ} {V : Type κ} ⦃e : Eq K⦄ where
  unfoldable pub lookup : K → Dict K V → Option V
  lookup k [] = none
  lookup k ((j, v) ∷ d) = if k == j then some v else lookup k d

  -- `map.set(k, v)`
  unfoldable pub insert : K → V → Dict K V → Dict K V
  insert k v [] = (k, v) ∷ []
  insert k v ((j, w) ∷ d) = if k == j then (k, v) ∷ d else (j, w) ∷ insert k v d

  -- `map.delete(k)`
  unfoldable pub erase : K → Dict K V → Dict K V
  erase k [] = []
  erase k ((j, w) ∷ d) = let rest = erase k d in if k == j then rest else (j, w) ∷ rest

  pub lookup-insert :
      (j k : K) (v : V) (d : Dict K V)
      → lookup j (insert k v d) ≡ (if j == k then some v else lookup j d)
  unfolding insert lookup
  lookup-insert j k v [] = refl
  lookup-insert j k v ((i, w) ∷ d) =
      ground (arith, lookup-insert j k v d, e.beq_iff j k, e.beq_iff k i, e.beq_iff j i)

  pub lookup-erase :
      (j k : K) (d : Dict K V) → lookup j (erase k d) ≡ (if j == k then none else lookup j d)
  unfolding erase lookup
  lookup-erase j k [] = ground arith
  lookup-erase j k ((i, w) ∷ d) =
      ground (arith, lookup-erase j k d, e.beq_iff j k, e.beq_iff k i, e.beq_iff j i)

  -- What holds of every entry holds of the one found.
  pub lookup-all :
      (test : K × V → Bool) (k : K) (v : V) (d : Dict K V)
      → all test d ≡ true
      → lookup k d ≡ some v
      → test (k, v) ≡ true
  unfolding lookup
  lookup-all test k v [] h found = cc
  lookup-all test k v ((j, w) ∷ d) h found = ground (arith, lookup-all test k v d, e.beq_iff k j)

module _ {ℓ} {A : Type ℓ} ⦃e : Eq A⦄ where
  -- `set.add(a)`
  unfoldable pub add : A → List A → List A
  add a [] = a ∷ []
  add a (x ∷ xs) = if a == x then x ∷ xs else x ∷ add a xs

  pub contains-add : (b a : A) (xs : List A) → contains b (add a xs) ≡ (b == a || contains b xs)
  unfolding add contains
  contains-add b a [] = refl
  contains-add b a (x ∷ xs) =
      ground (arith, contains-add b a xs, e.beq_iff b a, e.beq_iff a x, e.beq_iff b x)
