-- ===== src/Formula/Parse.antt =====
-- `Parser` and `parseFormula`.
pub mod Ensures
pub mod Total
use knowtion.Base.{
  ℕ, zero, suc, ◌+◌, ◌*◌, ◌-◌, Bool, true, false, not, ◌&&◌, ◌||◌, Option, none, some, List, [],
  ◌∷◌, ◌++◌, map, Text, codes, length, ltb, leb, ◌==◌, list_eq, nat_eq, if◌then◌else◌, Outcome, ok,
  err, ◌≡◌, refl,
}
use knowtion.Runtime.{Runtime}
use knowtion.Formula.Grammar.{
  max_formula_length, max_formula_depth, UnaryOp, BinaryOp, Node, number, text, boolean, property,
  call, unary, binary, Nodes, nil, cons, Message, ParseFailure, binary_op_named, infix_power,
  unary_power,
}
use knowtion.Formula.Tokens.{TokenKind, Token, token, units, tokenise}

-- `text.toLowerCase()` on a name or a symbol, which are ASCII.
unfoldable pub lower_ascii : Text → Text
lower_ascii t = map (λ c. if leb b'A' c && leb c b'Z' then c + 32 else c) t

-- What a method of the parser returns. `out_of_fuel` has no counterpart in the source.
pub data Parsed {ℓ} (A : Type ℓ) : Type ℓ where
  parsed : A → Parsed A
  failed : ParseFailure → Parsed A
  out_of_fuel : Parsed A

infixl 5 ◌>>=◌
abbrev pub ◌>>=◌ {ℓ κ} : {A : Type ℓ} {B : Type κ} → Parsed A → (A → Parsed B) → Parsed B
parsed a >>= f = f a
failed e >>= f = failed e
out_of_fuel >>= f = out_of_fuel

-- The tokens from `#i` on, and `#depth`.
pub record ParserState : Type 0 where
  pub rest : List Token
  pub depth : ℕ

abbrev pub Parser {ℓ} : Type ℓ → Type ℓ
Parser A = ParserState → Parsed (A × ParserState)

unfoldable pub peek : ParserState → Token
peek s = peek_at s.rest
  where
    peek_at : List Token → Token
    peek_at [] = token TokenKind.end [] 0
    peek_at (t ∷ ts) = t

-- `this.#i += 1`
unfoldable pub advance : ParserState → ParserState
advance s = record s { rest = tail s.rest }
  where
    tail : List Token → List Token
    tail [] = []
    tail (t ∷ ts) = ts

-- Whether the token in front is the symbol.
unfoldable pub at_symbol : Text → ParserState → Bool
unfolding peek
at_symbol symbol s = is_symbol (peek s).kind && (peek s).value == symbol
  where
    is_symbol : TokenKind → Bool
    is_symbol TokenKind.symbol = true
    is_symbol _ = false

-- `#expect`
unfoldable pub expect : Text → Parser (Unit {0})
expect symbol s =
    if at_symbol symbol s
    then parsed (tt, advance s)
    else failed (record { message = Message.expected symbol; at = (peek s).at })

-- The spelling of the token in front, lowered, if it is an infix operator.
unfoldable pub infix_spelt : TokenKind → Text → Option BinaryOp
infix_spelt TokenKind.symbol value = binary_op_named (lower_ascii value)
infix_spelt TokenKind.name value = binary_op_named (lower_ascii value)
infix_spelt _ value = binary_op_named []

unfoldable pub strong_enough : ℕ → Option BinaryOp → Option BinaryOp
strong_enough min_power none = none
strong_enough min_power (some op) = if ltb (infix_power op) min_power then none else some op

-- The operator that the loop of `#expression` goes on with.
unfoldable pub next_infix : ℕ → ParserState → Option BinaryOp
next_infix min_power s = strong_enough min_power (infix_spelt (peek s).kind (peek s).value)

-- `prop("Name")` names a cell, and its argument must be a literal.
unfoldable pub property_of : {N : Type 0} → ℕ → Nodes N → Parsed (Node N)
property_of start (cons (Node.text name) nil) = parsed (Node.property name)
property_of start _ = failed (record { message = Message.prop_takes_name; at = start })

-- What a call of a name stands for, once its arguments are read.
unfoldable pub named_call : {N : Type 0} → Text → ℕ → Nodes N → Parsed (Node N)
named_call lowered start args =
    if lowered == codes "prop" then property_of start args else parsed (call lowered args)

-- How `#prefix` goes on from the token it read.
pub data Start : Type 0 where
  literal_start text_start name_start bracket_start minus_start wrong_symbol end_start : Start

unfoldable pub symbol_start : Text → Start
symbol_start value =
    if value == codes "("
    then bracket_start
    else if value == codes "-"
    then minus_start
    else wrong_symbol

unfoldable pub start_of : Token → Start
unfolding symbol_start
start_of t = start_at t.kind t.value
  where
    start_at : TokenKind → Text → Start
    start_at TokenKind.number value = literal_start
    start_at TokenKind.text value = text_start
    start_at TokenKind.name value = name_start
    start_at TokenKind.symbol value = symbol_start value
    start_at TokenKind.end value = end_start

-- How `#name` goes on from a name, with whether an opening bracket follows it.
pub data Word : Type 0 where
  truth : Bool → Word
  negation no_value function : Word

unfoldable pub word_of : Text → Bool → Word
word_of lowered opens =
    if lowered == codes "true"
    then truth true
    else if lowered == codes "false"
    then truth false
    else if lowered == codes "not"
    then negation
    else if opens
    then function
    else no_value

unfoldable pub word_after : Token → ParserState → Word
word_after t s = word_of (lower_ascii t.value) (at_symbol (codes "(") s)

module _ (r : Runtime) (number_of : Text → Runtime.Num r) where
  open r use {Num}

  -- A numeric literal.
  unfoldable pub literal : Token → Parsed (Node Num)
  literal t =
      if r.is_finite (number_of t.value)
      then parsed (Node.number (number_of t.value))
      else failed (record { message = Message.not_a_number; at = t.at })

  -- Each call costs a unit of fuel, since what a call leaves of the tokens is no structural part of
  -- them.
  unfoldable mutual
    pub expression : ℕ → ℕ → Parser (Node Num)
    expression zero min_power s = out_of_fuel
    expression (suc f) min_power s = elim (ltb max_formula_depth (suc s.depth)) [
      | true ↦ failed (record { message = Message.nests_too_deeply; at = (peek s).at })
      | false ↦ do
        (left, s') ←
            (let deeper = record s { depth = suc s.depth } in
              prefix f (start_of (peek deeper)) deeper)
        infix_loop f min_power left s'
    ]

    -- The loop of `#expression`, with `this.#depth -= 1` after it.
    pub infix_loop : ℕ → ℕ → Node Num → Parser (Node Num)
    infix_loop zero min_power left s = out_of_fuel
    infix_loop (suc f) min_power left s = elim (next_infix min_power s) [
      | none ↦ parsed (left, record s { depth = s.depth - 1 })
      | some op ↦ do
        (right, s') ← expression f (suc (infix_power op)) (advance s)
        infix_loop f min_power (binary op left right) s'
    ]

    -- `#prefix`, by what the token that `#next` returns begins.
    pub prefix : ℕ → Start → Parser (Node Num)
    prefix zero start s = out_of_fuel
    prefix (suc f) literal_start s = do node ← literal (peek s); parsed (node, advance s)
    prefix (suc f) text_start s = parsed (Node.text (peek s).value, advance s)
    prefix (suc f) name_start s = name f (word_after (peek s) (advance s)) (peek s) (advance s)
    prefix (suc f) bracket_start s = do
      (inner, s') ← expression f 0 (advance s)
      (_, s'') ← expect (codes ")") s'
      parsed (inner, s'')
    prefix (suc f) minus_start s = do
      (operand, s') ← expression f unary_power (advance s)
      parsed (unary UnaryOp.negate operand, s')
    prefix (suc f) wrong_symbol s =
        failed (record { message = Message.not_a_start (peek s).value; at = (peek s).at })
    prefix (suc f) end_start s = failed (record { message = Message.stops_early; at = (peek s).at })

    -- `#name`, by what the name that was read stands for.
    pub name : ℕ → Word → Token → Parser (Node Num)
    name zero word t s = out_of_fuel
    name (suc f) (truth b) t s = parsed (Node.boolean b, s)
    name (suc f) negation t s = do
      (operand, s') ← expression f unary_power s
      parsed (unary UnaryOp.not operand, s')
    name (suc f) no_value t s = failed (record { message = Message.not_a_value t.value; at = t.at })
    name (suc f) function t s = do
      (args, s') ← arguments f (advance s)
      (_, s'') ← expect (codes ")") s'
      node ← named_call (lower_ascii t.value) t.at args
      parsed (node, s'')

    -- The arguments of a call, after its opening bracket.
    pub arguments : ℕ → Parser (Nodes Num)
    arguments zero s = out_of_fuel
    arguments (suc f) s = elim (at_symbol (codes ")") s) [
      | true ↦ parsed (nil, s)
      | false ↦ argument_loop f s
    ]

    pub argument_loop : ℕ → Parser (Nodes Num)
    argument_loop zero s = out_of_fuel
    argument_loop (suc f) s = do
      (arg, s') ← expression f 0 s
      (args, s'') ← more_arguments f s'
      parsed (cons arg args, s'')

    -- After an argument, the next ones if a comma stands there.
    pub more_arguments : ℕ → Parser (Nodes Num)
    more_arguments zero s = out_of_fuel
    more_arguments (suc f) s = elim (at_symbol (codes ",") s) [
      | true ↦ argument_loop f (advance s)
      | false ↦ parsed (nil, s)
    ]

  -- `parse`, which refuses what stands after the expression.
  unfoldable pub whole : Token → TokenKind → Node Num → Parsed (Node Num)
  whole t TokenKind.end node = parsed node
  whole t _ node = failed (record { message = Message.more_than_one; at = t.at })

  unfoldable pub parse : ℕ → List Token → Parsed (Node Num)
  parse fuel tokens = do
    (node, s) ← expression fuel 0 (record { rest = tokens; depth = 0 })
    whole (peek s) (peek s).kind node

  unfoldable pub parse_tokens : Outcome ParseFailure (List Token) → Parsed (Node Num)
  parse_tokens (err e) = failed e
  parse_tokens (ok tokens) = parse (4 * length tokens + 2) tokens

  unfoldable pub parse_formula : Text → Parsed (Node Num)
  parse_formula source =
      if ltb max_formula_length (units source)
      then failed (record { message = Message.too_long; at = max_formula_length })
      else parse_tokens (tokenise source)
