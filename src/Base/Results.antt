-- ===== src/Base/Results.antt =====
-- A result, or the error that was thrown instead.
use mathlib.Core.Path.{◌≡◌, refl}
use mathlib.Core.Bool.{Bool, true, false}

pub data Outcome {ℓ κ} (E : Type ℓ) (A : Type κ) : Type (ℓ ⊔ κ) where
  ok : A → Outcome E A
  err : E → Outcome E A

infixl 5 ◌>>=◌ ◌>>◌
abbrev pub ◌>>=◌ {ℓ κ μ} :
    {E : Type ℓ} {A : Type κ} {B : Type μ} → Outcome E A → (A → Outcome E B) → Outcome E B
ok a >>= f = f a
err e >>= f = err e

abbrev pub ◌>>◌ {ℓ μ} : {E : Type ℓ} {B : Type μ} → Outcome E (Unit {0}) → Outcome E B → Outcome E B
m >> k = m >>= λ _. k

-- `if (bad) throw e;`
abbrev pub throw_if {ℓ} : {E : Type ℓ} → Bool → E → Outcome E (Unit {0})
throw_if true e = err e
throw_if false e = ok tt

module _ {ℓ κ} {E : Type ℓ} {A : Type κ} where
  pub after_throw_if :
      (b : Bool) (e : E) (m : Outcome E A) {a : A}
      → (throw_if b e >> m) ≡ ok a
      → (b ≡ false) × (m ≡ ok a)
  after_throw_if true e m h = cc
  after_throw_if false e m h = (refl, h)

  pub ok-injective : (a b : A) → ◌≡◌ {A = Outcome E A} (ok a) (ok b) → a ≡ b
  ok-injective a b h = cc
