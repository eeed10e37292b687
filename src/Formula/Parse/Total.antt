-- ===== src/Formula/Parse/Total.antt =====
-- What the parser of packages/engine/src/formula.ts takes of its tokens, with the fuel it is given.
use knowtion.Base.{
  ℕ, zero, suc, ◌+◌, ◌*◌, ◌≤◌, ◌<◌, List, length, ltb, Text, codes, ◌≡◌, refl, ◌≢◌, arith, Outcome,
  inl, inr, ◌⊎◌, ◌==◌, list_eq, nat_eq,
}
use knowtion.Runtime.{Runtime}
use knowtion.Formula.Grammar.{
  max_formula_depth, max_formula_length, Node, Nodes, nil, cons, binary, unary, call, infix_power,
  node_count, node_counts, ParseFailure,
}
use knowtion.Formula.Tokens.{units, TokenKind, Token}
use knowtion.Formula.Parse.{
  parsed, out_of_fuel, ParserState, peek, advance, at_symbol, next_infix, property_of, named_call,
  Start, start_of, Word, word_after, literal, expression, infix_loop, prefix, name, arguments,
  argument_loop, more_arguments, whole, parse, parse_tokens, parse_formula,
}
use knowtion.Formula.Tokens.Count.{OnSuccess, given, refused, tokenise-length}
use knowtion.Formula.Parse.Ensures.{
  Ensures, holds, fails, Ensures-bind, Ensures-cases, Ensures-if, Ensures-option, Ensures-weaker,
  Ensures-total, Ensures-parsed, left_of, at_symbol-advance, next_infix-advance, start_of-advance,
  word_after-advance, expect-Ensures,
}

module _ (r : Runtime) (number_of : Text → Runtime.Num r) where
  open r use {Num}

  -- A parsed node and the tokens left are together no more than what there was.
  abbrev NodeWithin : ℕ → Node Num × ParserState → Type 0
  NodeWithin n (node, s) = node_count node + left_of s ≤ n

  abbrev NodesWithin : ℕ → Nodes Num × ParserState → Type 0
  NodesWithin n (args, s) = node_counts args + left_of s ≤ n

  literal-Ensures : (t : Token) → Ensures (λ node. node_count node ≡ 1) (literal r number_of t)
  unfolding literal node_count
  literal-Ensures t = Ensures-if (r.is_finite (number_of t.value)) (λ e. holds refl) (λ e. fails)

  property_of-Ensures :
      (start : ℕ) (args : Nodes Num)
      → Ensures (λ node. node_count node ≡ 1) (property_of start args)
  unfolding property_of node_count
  property_of-Ensures start (cons (Node.text name) nil) = holds refl
  property_of-Ensures start _ = fails

  named_call-Ensures :
      (lowered : Text) (start : ℕ) (args : Nodes Num)
      → Ensures (λ node. node_count node ≤ suc (node_counts args)) (named_call lowered start args)
  unfolding named_call node_count
  named_call-Ensures lowered start args =
      Ensures-if (lowered == codes "prop")
        (λ e. Ensures-weaker (λ node k. omega (arith, k)) (property_of-Ensures start args))
        (λ e. holds {a = call lowered args} (omega arith))

  node_count-pos : (node : Node Num) → 1 ≤ node_count node
  unfolding node_count
  node_count-pos (call name args) = omega arith
  node_count-pos (unary op operand) = omega arith
  node_count-pos (binary op left right) = omega arith
  node_count-pos _ = omega arith

  mutual
    unfolding expression node_count

    expression-Within :
        (f p : ℕ) (s : ParserState)
        → 4 * left_of s + 2 ≤ f
        → Ensures (NodeWithin (left_of s)) (expression r number_of f p s)
    expression-Within zero p s h = absurd (omega arith)
    expression-Within (suc f) p s h =
        Ensures-cases (ltb max_formula_depth (suc s.depth)) (λ e. fails)
          λ e.
            Ensures-bind
              (let deeper = record s { depth = suc s.depth } in
                prefix-Within f (start_of (peek deeper)) deeper (start_of-advance deeper)
                  (omega arith))
              λ (left, s') w.
                Ensures-weaker (λ x k. omega (arith, k))
                  (infix_loop-Within f p left s' (omega (arith, node_count-pos left)))

    infix_loop-Within :
        (f p : ℕ) (left : Node Num) (s : ParserState)
        → 4 * left_of s + 1 ≤ f
        → Ensures (NodeWithin (node_count left + left_of s)) (infix_loop r number_of f p left s)
    infix_loop-Within zero p left s h = absurd (omega arith)
    infix_loop-Within (suc f) p left s h =
        Ensures-option (next_infix p s) (holds (omega arith)) λ op e.
          let shorter = next_infix-advance p s e in
          Ensures-bind (expression-Within f (suc (infix_power op)) (advance s) (omega arith))
            λ (right, s') w.
              Ensures-weaker (λ x k. omega (arith, k))
                (infix_loop-Within f p (binary op left right) s' (omega arith))

    prefix-Within :
        (f : ℕ) (start : Start) (s : ParserState)
        → (start ≡ Start.end_start) ⊎ left_of (advance s) < left_of s
        → 4 * left_of s + 1 ≤ f
        → Ensures (NodeWithin (left_of s)) (prefix r number_of f start s)
    prefix-Within zero start s shorter h = absurd (omega arith)
    prefix-Within (suc f) Start.end_start s _ h = fails
    prefix-Within (suc f) Start.wrong_symbol s _ h = fails
    prefix-Within (suc f) start s (inl e) h = absurd (cc)
    prefix-Within (suc f) Start.literal_start s (inr shorter) h =
        Ensures-bind (literal-Ensures (peek s)) λ node e. holds (omega arith)
    prefix-Within (suc f) Start.text_start s (inr shorter) h = holds (omega arith)
    prefix-Within (suc f) Start.name_start s (inr shorter) h =
        Ensures-weaker (λ x k. omega (arith, k))
          (name-Within f (word_after (peek s) (advance s)) (peek s) (advance s)
            (word_after-advance (peek s) (advance s)) (omega arith))
    prefix-Within (suc f) Start.bracket_start s (inr shorter) h =
        Ensures-bind (expression-Within f 0 (advance s) (omega arith)) λ (inner, s') w.
          Ensures-bind (expect-Ensures (codes ")") s') λ (_, s'') shorter'. holds (omega arith)
    prefix-Within (suc f) Start.minus_start s (inr shorter) h =
        Ensures-bind (expression-Within f 7 (advance s) (omega arith))
          λ (operand, s') w. holds (omega arith)

    name-Within :
        (f : ℕ) (word : Word) (t : Token) (s : ParserState)
        → (word ≡ Word.function → left_of (advance s) < left_of s)
        → 4 * left_of s + 3 ≤ f
        → Ensures (NodeWithin (suc (left_of s))) (name r number_of f word t s)
    name-Within zero word t s opens h = absurd (omega arith)
    name-Within (suc f) (Word.truth b) t s opens h = holds (omega arith)
    name-Within (suc f) Word.negation t s opens h =
        Ensures-bind (expression-Within f 7 s (omega arith)) λ (operand, s') w. holds (omega arith)
    name-Within (suc f) Word.no_value t s opens h = fails
    name-Within (suc f) Word.function t s opens h =
        let shorter = opens refl in
        Ensures-bind (arguments-Within f (advance s) (omega arith)) λ (args, s') w.
          Ensures-bind (expect-Ensures (codes ")") s') λ (_, s'') shorter'.
            Ensures-bind (named_call-Ensures _ t.at args) λ node k. holds (omega arith)

    arguments-Within :
        (f : ℕ) (s : ParserState)
        → 4 * left_of s + 4 ≤ f
        → Ensures (NodesWithin (left_of s)) (arguments r number_of f s)
    arguments-Within zero s h = absurd (omega arith)
    arguments-Within (suc f) s h =
        Ensures-cases (at_symbol (codes ")") s) (λ e. holds {a = (nil, s)} (omega arith))
          (λ e. argument_loop-Within f s (omega arith))

    argument_loop-Within :
        (f : ℕ) (s : ParserState)
        → 4 * left_of s + 3 ≤ f
        → Ensures (NodesWithin (left_of s)) (argument_loop r number_of f s)
    argument_loop-Within zero s h = absurd (omega arith)
    argument_loop-Within (suc f) s h =
        Ensures-bind (expression-Within f 0 s (omega arith)) λ (arg, s') w.
          Ensures-bind (more_arguments-Within f s' (omega (arith, node_count-pos arg)))
            λ (args, s'') k. holds (omega arith)

    more_arguments-Within :
        (f : ℕ) (s : ParserState)
        → 4 * left_of s + 1 ≤ f
        → Ensures (NodesWithin (left_of s)) (more_arguments r number_of f s)
    more_arguments-Within zero s h = absurd (omega arith)
    more_arguments-Within (suc f) s h =
        Ensures-cases (at_symbol (codes ",") s)
          (λ e.
            let shorter = at_symbol-advance (codes ",") s e in
            Ensures-weaker (λ x k. omega (arith, k))
              (argument_loop-Within f (advance s) (omega arith)))
          (λ e. holds {a = (nil, s)} (omega arith))

  whole-Ensures {κ} :
      {P : Node Num → Type κ} (t : Token) (kind : TokenKind) (node : Node Num)
      → P node
      → Ensures P (whole r number_of t kind node)
  unfolding whole
  whole-Ensures t TokenKind.end node p = holds p
  whole-Ensures t _ node p = fails

  parse-Ensures :
      (fuel : ℕ) (tokens : List Token)
      → 4 * length tokens + 2 ≤ fuel
      → Ensures (λ node. node_count node ≤ length tokens) (parse r number_of fuel tokens)
  unfolding parse
  parse-Ensures fuel tokens h =
      Ensures-bind (expression-Within fuel 0 (record { rest = tokens; depth = 0 }) h)
        λ (node, s) w. whole-Ensures (peek s) (peek s).kind node (omega arith)

  parse_tokens-Ensures :
      (n : ℕ) {tokens : Outcome ParseFailure (List Token)}
      → OnSuccess (λ ts. length ts ≤ n) tokens
      → Ensures (λ node. node_count node ≤ n) (parse_tokens r number_of tokens)
  unfolding parse_tokens
  parse_tokens-Ensures n refused = fails
  parse_tokens-Ensures n (given {a} h) =
      Ensures-weaker (λ node k. omega (arith, k)) (parse-Ensures _ a (omega arith))

  parse_formula-Ensures :
      (source : Text)
      → Ensures (λ node. node_count node ≤ suc (units source)) (parse_formula r number_of source)
  unfolding parse_formula
  parse_formula-Ensures source =
      Ensures-if (ltb max_formula_length (units source)) (λ e. fails)
        λ e. parse_tokens-Ensures (suc (units source)) (tokenise-length source)

  -- Parsing a formula never runs out of fuel: every source gives a tree or a failure.
  pub parse_formula_total : (source : Text) → parse_formula r number_of source ≢ out_of_fuel
  parse_formula_total source = Ensures-total (parse_formula-Ensures source)

  -- A parsed formula has no more nodes than its source has code units, and one.
  pub node_count-parse_formula :
      (source : Text) (node : Node Num)
      → parse_formula r number_of source ≡ parsed node
      → node_count node ≤ suc (units source)
  node_count-parse_formula source node h = Ensures-parsed (parse_formula-Ensures source) h
