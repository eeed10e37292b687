-- ===== src/Formula/Parse/Ensures.antt =====
-- Postconditions on a run of the parser of packages/engine/src/formula.ts, and what one token in
-- front of it allows.
use knowtion.Base.{
  ℕ, ◌<◌, Bool, true, false, Option, none, some, List, [], ◌∷◌, length, Text, codes, ◌≡◌, refl, ◌≢◌,
  subst, arith, inl, inr, ◌⊎◌, if◌then◌else◌, list_eq, nat_eq, list_beq,
}
use knowtion.Formula.Grammar.{BinaryOp, binary_op_named, ParseFailure}
use knowtion.Formula.Tokens.{Token}
use knowtion.Formula.Parse.{
  Parsed, parsed, failed, out_of_fuel, ◌>>=◌, ParserState, peek, advance, at_symbol, expect,
  infix_spelt, strong_enough, next_infix, Start, start_of, Word, word_of, word_after, lower_ascii,
}

-- The run kept within its fuel, and `P` holds of what it returned, if it did.
pub data Ensures {ℓ κ} {A : Type ℓ} (P : A → Type κ) : Parsed A → Type (ℓ ⊔ κ) where
  holds : {a : A} → P a → Ensures P (parsed a)
  fails : {e : ParseFailure} → Ensures P (failed e)

pub Ensures-bind {ℓ ℓ' κ κ'} :
    {A : Type ℓ} {B : Type ℓ'} {P : A → Type κ} {Q : B → Type κ'} {m : Parsed A} {f : A → Parsed B}
    → Ensures P m
    → ((a : A) → P a → Ensures Q (f a))
    → Ensures Q (m >>= f)
Ensures-bind (holds {a} h) k = k a h
Ensures-bind fails k = fails

module _ {ℓ κ} {A : Type ℓ} {P : A → Type κ} where
  pub Ensures-cases :
      (b : Bool) {x y : Parsed A}
      → (b ≡ true → Ensures P x)
      → (b ≡ false → Ensures P y)
      → Ensures P (elim b [ true ↦ x | false ↦ y ])
  Ensures-cases true h k = h refl
  Ensures-cases false h k = k refl

  pub Ensures-if :
      (b : Bool) {x y : Parsed A}
      → (b ≡ true → Ensures P x)
      → (b ≡ false → Ensures P y)
      → Ensures P (if b then x else y)
  Ensures-if true h k = h refl
  Ensures-if false h k = k refl

  pub Ensures-option {ℓ'} :
      {B : Type ℓ'} (o : Option B) {x : Parsed A} {f : B → Parsed A}
      → Ensures P x
      → ((b : B) → o ≡ some b → Ensures P (f b))
      → Ensures P (elim o [ none ↦ x | some b ↦ f b ])
  Ensures-option none h k = h
  Ensures-option (some b) h k = k b refl

  pub Ensures-weaker {κ'} :
      {Q : A → Type κ'} {m : Parsed A} → ((a : A) → P a → Q a) → Ensures P m → Ensures Q m
  Ensures-weaker w (holds {a} h) = holds (w a h)
  Ensures-weaker w fails = fails

module _ {ℓ κ} {A : Type ℓ} {P : A → Type κ} where
  pub Ensures-total : {m : Parsed A} → Ensures P m → m ≢ out_of_fuel
  Ensures-total (holds h) = cc
  Ensures-total fails = cc

  pub Ensures-parsed : {m : Parsed A} {a : A} → Ensures P m → m ≡ parsed a → P a
  Ensures-parsed (holds h) e = subst P (cc) h
  Ensures-parsed fails e = cc

abbrev pub left_of : ParserState → ℕ
left_of s = length s.rest

-- A token that says something can be passed over.
symbol-front :
    (symbol : Text) (ts : List Token) (d : ℕ)
    → let s : ParserState = record { rest = ts; depth = d } in
      at_symbol symbol s ≡ true → left_of (advance s) < left_of s
unfolding at_symbol advance peek
symbol-front symbol [] d h = cc
symbol-front symbol (t ∷ ts) d h = omega arith

pub at_symbol-advance :
    (symbol : Text) (s : ParserState) → at_symbol symbol s ≡ true → left_of (advance s) < left_of s
at_symbol-advance symbol s h = symbol-front symbol s.rest s.depth h

infix-front :
    (p : ℕ) (ts : List Token) (d : ℕ) {op : BinaryOp}
    → let s : ParserState = record { rest = ts; depth = d } in
      next_infix p s ≡ some op → left_of (advance s) < left_of s
unfolding next_infix strong_enough infix_spelt binary_op_named lower_ascii list_beq advance peek
infix-front p [] d h = cc
infix-front p (t ∷ ts) d h = omega arith

pub next_infix-advance :
    (p : ℕ) (s : ParserState) {op : BinaryOp}
    → next_infix p s ≡ some op
    → left_of (advance s) < left_of s
next_infix-advance p s h = infix-front p s.rest s.depth h

start-front :
    (ts : List Token) (d : ℕ)
    → let s : ParserState = record { rest = ts; depth = d } in
      (start_of (peek s) ≡ Start.end_start) ⊎ left_of (advance s) < left_of s
unfolding start_of advance peek
start-front [] d = inl refl
start-front (t ∷ ts) d = inr (omega arith)

pub start_of-advance :
    (s : ParserState) → (start_of (peek s) ≡ Start.end_start) ⊎ left_of (advance s) < left_of s
start_of-advance s = start-front s.rest s.depth

word_of-function :
    (lowered : Text) (opens : Bool) → word_of lowered opens ≡ Word.function → opens ≡ true
unfolding word_of
word_of-function lowered true h = refl
word_of-function lowered false h = ground arith

pub word_after-advance :
    (t : Token) (s : ParserState) → word_after t s ≡ Word.function → left_of (advance s) < left_of s
unfolding word_after
word_after-advance t s h = at_symbol-advance (codes "(") s (word_of-function _ _ h)

pub expect-Ensures :
    (symbol : Text) (s : ParserState)
    → Ensures (λ (_, s'). left_of s' < left_of s) (expect symbol s)
unfolding expect
expect-Ensures symbol s =
    Ensures-if (at_symbol symbol s) (λ e. holds (at_symbol-advance symbol s e)) (λ e. fails)
