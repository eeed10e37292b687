-- ===== src/Formula/Tokens/Count.antt =====
-- How many tokens `tokenise` makes of a source of packages/engine/src/formula.ts.
use knowtion.Base.{
  ℕ, suc, ◌+◌, ◌≤◌, Bool, true, false, Option, none, some, List, [], ◌∷◌, ◌++◌, Text, length,
  list_eq, nat_eq, if◌then◌else◌, Outcome, ok, err, ◌>>=◌, arith, length-append,
}
use knowtion.Formula.Grammar.{ParseFailure}
use knowtion.Formula.Tokens.{
  TokenKind, token, Token, Scan, between, in_symbol, in_text, in_escape, in_number, in_fraction,
  in_name, Step, step, begin, begin_symbol, finish, after_token, units_of, units, tokenise_from,
  tokenise,
}

-- `P` holds of what a result gives, if it gives one.
pub data OnSuccess {ℓ κ} {A : Type ℓ} (P : A → Type κ) : Outcome ParseFailure A → Type (ℓ ⊔ κ) where
  given : {a : A} → P a → OnSuccess P (ok a)
  refused : {e : ParseFailure} → OnSuccess P (err e)

module _ {ℓ κ} {A : Type ℓ} {P : A → Type κ} where
  OnSuccess-if :
      (b : Bool) {x y : Outcome ParseFailure A}
      → OnSuccess P x
      → OnSuccess P y
      → OnSuccess P (if b then x else y)
  OnSuccess-if true h k = h
  OnSuccess-if false h k = k

  OnSuccess-weaker {κ'} :
      {Q : A → Type κ'} {m : Outcome ParseFailure A}
      → ((a : A) → P a → Q a)
      → OnSuccess P m
      → OnSuccess Q m
  OnSuccess-weaker w (given {a} h) = given (w a h)
  OnSuccess-weaker w refused = refused

  OnSuccess-bind {ℓ' κ'} :
      {B : Type ℓ'} {Q : B → Type κ'} {m : Outcome ParseFailure A} {f : A → Outcome ParseFailure B}
      → OnSuccess P m
      → ((a : A) → P a → OnSuccess Q (f a))
      → OnSuccess Q (m >>= f)
  OnSuccess-bind (given {a} h) k = k a h
  OnSuccess-bind refused k = refused

-- The token that a scan has begun.
abbrev begun : Scan → ℕ
begun between = 0
begun in_symbol = 0
begun _ = 1

abbrev Within : ℕ → List Token × Scan → Type 0
Within n (ts, s) = length ts + begun s ≤ n

begin_symbol-Within : (o : Option Text) (i : ℕ) → OnSuccess (Within 1) (begin_symbol o i)
unfolding begin_symbol
begin_symbol-Within none i = refused
begin_symbol-Within (some s) i = given (ground arith)

begin-Within : (c : ℕ) (cs : Text) (i : ℕ) → OnSuccess (Within 1) (begin c cs i)
unfolding begin
begin-Within c cs i = OnSuccess-if _ (given {a = ([], between)} (omega arith)) (
    OnSuccess-if _ (given {a = ([], in_text c [] i)} (omega arith)) (
      OnSuccess-if _ (given {a = ([], in_number (c ∷ []) i)} (omega arith)) (
        OnSuccess-if _ (given {a = ([], in_name (c ∷ []) i)} (omega arith))
          (begin_symbol-Within _ i))))

after_token-Within :
    (t : Token) {m : Step} → OnSuccess (Within 1) m → OnSuccess (Within 2) (after_token t m)
after_token-Within t (given {a} h) = given (omega arith)
after_token-Within t refused = refused

step-Within :
    (s : Scan) (c : ℕ) (cs : Text) (i : ℕ) → OnSuccess (Within (suc (begun s))) (step s c cs i)
unfolding step
step-Within between c cs i = begin-Within c cs i
step-Within in_symbol c cs i = given (omega arith)
step-Within (in_text quote value start) c cs i =
    OnSuccess-if _ (given {a = ([], in_escape quote value start)} (omega arith)) (
      OnSuccess-if _ (given {a = (token TokenKind.text value start ∷ [], between)} (omega arith))
        (given {a = ([], in_text quote (value ++ (c ∷ [])) start)} (omega arith)))
step-Within (in_escape quote value start) c cs i = given (omega arith)
step-Within (in_number value start) c cs i =
    OnSuccess-if _ (given {a = ([], in_number (value ++ (c ∷ [])) start)} (omega arith)) (
      OnSuccess-if _ (given {a = ([], in_fraction (value ++ (c ∷ [])) start)} (omega arith))
        (after_token-Within _ (begin-Within c cs i)))
step-Within (in_fraction value start) c cs i =
    OnSuccess-if _ (given {a = ([], in_fraction (value ++ (c ∷ [])) start)} (omega arith))
      (after_token-Within _ (begin-Within c cs i))
step-Within (in_name value start) c cs i =
    OnSuccess-if _ (given {a = ([], in_name (value ++ (c ∷ [])) start)} (omega arith))
      (after_token-Within _ (begin-Within c cs i))

finish-Within : (s : Scan) (i : ℕ) → OnSuccess (λ ts. length ts ≤ suc (begun s)) (finish s i)
unfolding finish
finish-Within (in_text quote value start) i = refused
finish-Within (in_escape quote value start) i = refused
finish-Within (in_number value start) i = given (omega arith)
finish-Within (in_fraction value start) i = given (omega arith)
finish-Within (in_name value start) i = given (omega arith)
finish-Within between i = given (omega arith)
finish-Within in_symbol i = given (omega arith)

units_of-pos : (c : ℕ) → 1 ≤ units_of c
unfolding units_of
units_of-pos c = ground arith

tokenise_from-length :
    (s : Scan) (i : ℕ) (source : Text)
    → OnSuccess (λ ts. length ts ≤ suc (begun s + units source)) (tokenise_from s i source)
unfolding tokenise_from units
tokenise_from-length s i [] = OnSuccess-weaker (λ ts h. omega (arith, h)) (finish-Within s i)
tokenise_from-length s i (c ∷ cs) = OnSuccess-bind (step-Within s c cs i) λ (ts, s') h.
    OnSuccess-bind (tokenise_from-length s' _ cs)
      λ rest k. given (omega (arith, length-append ts rest, units_of-pos c))

pub tokenise-length :
    (source : Text) → OnSuccess (λ ts. length ts ≤ suc (units source)) (tokenise source)
unfolding tokenise
tokenise-length source =
    OnSuccess-weaker (λ ts h. omega (arith, h)) (tokenise_from-length between 0 source)
