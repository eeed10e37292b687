-- ===== src/Formula/Tokens.antt =====
-- `tokenise`: the tokens of a source, with the position in UTF-16 code units at which each starts.
pub mod Count
use knowtion.Base.{
  ℕ, zero, suc, ◌+◌, Bool, true, false, ◌&&◌, ◌||◌, Option, none, some, List, [], ◌∷◌, ◌++◌, Text,
  codes, length, drop, ltb, leb, ◌==◌, list_eq, nat_eq, if◌then◌else◌, Outcome, ok, err, ◌>>=◌, ◌≡◌,
  refl,
}
use knowtion.Property.Dates.{is_digit}
use knowtion.Evaluate.Matching.{starts_with}
use knowtion.Formula.Grammar.{Message, ParseFailure}

pub data TokenKind : Type 0 where
  number text name symbol end : TokenKind

pub record Token : Type 0 where
  pub kind : TokenKind
  pub value : Text
  pub at : ℕ

abbrev pub token : TokenKind → Text → ℕ → Token
token kind value at = record { kind = kind; value = value; at = at }

-- How many code units a code point takes, and how many a text does (`source.length`).
unfoldable pub units_of : ℕ → ℕ
units_of c = if ltb c 0x10000 then 1 else 2

unfoldable pub units : Text → ℕ
units [] = 0
units (c ∷ cs) = units_of c + units cs

abbrev symbols : List Text
symbols =
    codes "=="
    ∷ codes "!="
    ∷ codes "<="
    ∷ codes ">="
    ∷ codes "("
    ∷ codes ")"
    ∷ codes ","
    ∷ codes "+"
    ∷ codes "-"
    ∷ codes "*"
    ∷ codes "/"
    ∷ codes "%"
    ∷ codes "<"
    ∷ codes ">"
    ∷ []

-- `SYMBOLS.find((s) => source.startsWith(s, i))`
unfoldable pub find_symbol : List Text → Text → Option Text
find_symbol [] source = none
find_symbol (s ∷ ss) source = if starts_with source s then some s else find_symbol ss source

is_space : ℕ → Bool
is_space c = c == 32 || c == 9 || c == 10 || c == 13

unfoldable pub is_name_start : ℕ → Bool
is_name_start c = (leb b'a' c && leb c b'z') || (leb b'A' c && leb c b'Z') || c == b'_'

unfoldable pub is_name_part : ℕ → Bool
unfolding is_name_start is_digit
is_name_part c = is_name_start c || is_digit c

-- What `\` and the character after it stand for.
escaped : ℕ → ℕ
escaped c = if c == b'n' then 10 else if c == b't' then 9 else c

-- Where the scan stands: between two tokens, inside a literal, a number or a name (what is read of it
-- and where it starts), or over the second character of a symbol.
pub data Scan : Type 0 where
  between in_symbol : Scan
  in_text in_escape : ℕ → Text → ℕ → Scan
  in_number in_fraction in_name : Text → ℕ → Scan

-- The look at `source[i + 1]` after a point.
starts_with_digit : Text → Bool
unfolding is_digit
starts_with_digit [] = false
starts_with_digit (c ∷ cs) = is_digit c

-- The tokens that a character completes, and where the scan stands after it.
abbrev pub Step : Type 0
Step = Outcome ParseFailure (List Token × Scan)

unfoldable pub begin_symbol : Option Text → ℕ → Step
begin_symbol none i = err (record { message = Message.does_not_belong; at = i })
begin_symbol (some s) i =
    ok (token TokenKind.symbol s i ∷ [], (if length s == 2 then in_symbol else between))

-- A character that begins a token.
unfoldable pub begin : ℕ → Text → ℕ → Step
unfolding is_space is_digit is_name_start
begin c cs i =
    if is_space c
    then ok ([], between)
    else if c == 34 || c == 39
    then ok ([], in_text c [] i)
    else if is_digit c
    then ok ([], in_number (c ∷ []) i)
    else if is_name_start c
    then ok ([], in_name (c ∷ []) i)
    else begin_symbol (find_symbol symbols (c ∷ cs)) i

-- A token ends before the character, which begins the next one.
abbrev pub after_token : Token → Step → Step
after_token t (ok (ts, s)) = ok (t ∷ ts, s)
after_token t (err e) = err e

unfoldable pub step : Scan → ℕ → Text → ℕ → Step
unfolding escaped starts_with_digit is_digit is_name_part
step between c cs i = begin c cs i
step in_symbol c cs i = ok ([], between)
step (in_text quote value start) c cs i =
    if c == 92
    then ok ([], in_escape quote value start)
    else if c == quote
    then ok (token TokenKind.text value start ∷ [], between)
    else ok ([], in_text quote (value ++ (c ∷ [])) start)
step (in_escape quote value start) c cs i = ok ([], in_text quote (value ++ (escaped c ∷ [])) start)
step (in_number value start) c cs i =
    if is_digit c
    then ok ([], in_number (value ++ (c ∷ [])) start)
    else if c == b'.' && starts_with_digit cs
    then ok ([], in_fraction (value ++ (c ∷ [])) start)
    else after_token (token TokenKind.number value start) (begin c cs i)
step (in_fraction value start) c cs i =
    if is_digit c
    then ok ([], in_fraction (value ++ (c ∷ [])) start)
    else after_token (token TokenKind.number value start) (begin c cs i)
step (in_name value start) c cs i =
    if is_name_part c
    then ok ([], in_name (value ++ (c ∷ [])) start)
    else after_token (token TokenKind.name value start) (begin c cs i)

-- The end of the source.
unfoldable pub finish : Scan → ℕ → Outcome ParseFailure (List Token)
finish (in_text quote value start) i = err (record { message = Message.never_closed; at = start })
finish (in_escape quote value start) i = err (record { message = Message.never_closed; at = start })
finish (in_number value start) i =
    ok (token TokenKind.number value start ∷ token TokenKind.end [] i ∷ [])
finish (in_fraction value start) i =
    ok (token TokenKind.number value start ∷ token TokenKind.end [] i ∷ [])
finish (in_name value start) i =
    ok (token TokenKind.name value start ∷ token TokenKind.end [] i ∷ [])
finish _ i = ok (token TokenKind.end [] i ∷ [])

-- The loops of `tokenise`, `i` the position of the character in front.
unfoldable pub tokenise_from : Scan → ℕ → Text → Outcome ParseFailure (List Token)
tokenise_from s i [] = finish s i
tokenise_from s i (c ∷ cs) = do
  (ts, s') ← step s c cs i
  rest ← tokenise_from s' (i + units_of c) cs
  ok (ts ++ rest)

unfoldable pub tokenise : Text → Outcome ParseFailure (List Token)
tokenise source = tokenise_from between 0 source

tokens :
    tokenise (codes "a1<=2.5")
    ≡ ok (
        token TokenKind.name (codes "a1") 0
        ∷ token TokenKind.symbol (codes "<=") 2
        ∷ token TokenKind.number (codes "2.5") 4
        ∷ token TokenKind.end [] 7
        ∷ [])
unfolding tokenise tokenise_from step begin begin_symbol find_symbol starts_with finish units_of
tokens = refl

text_token :
    tokenise (codes "'a\\'b'")
    ≡ ok (token TokenKind.text (codes "a'b") 0 ∷ token TokenKind.end [] 6 ∷ [])
unfolding tokenise tokenise_from step begin finish units_of
text_token = refl

unclosed : tokenise (codes "1 'a") ≡ err (record { message = Message.never_closed; at = 2 })
unfolding tokenise tokenise_from step begin finish units_of
unclosed = refl
