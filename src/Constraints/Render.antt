-- ===== src/Constraints/Render.antt =====
-- A way to write tokens and programs as source text, which the lexer and the parser read back. The
-- repository has no such printer: it is what a user of the language writes.
pub mod Chars
pub mod Compile
pub mod ReadBack
use hyperkitty_constraint_ds.Prelude.{
  ℕ, ◌≡◌, Text, true, List, [], ◌∷◌, ◌++◌, codes, All, ◌==◌, if◌then◌else◌, some, map,
}
use hyperkitty_constraint_ds.Constraints.Unicode.{Unicode, is_ascii_digit}
use hyperkitty_constraint_ds.Constraints.Token.{
  Token, validity, require, deny, otherwise, reject, accept, ident, number, string, l_paren,
  r_paren, l_brace, r_brace, semicolon, colon, comma, arrow, eof, keyword,
}
use hyperkitty_constraint_ds.Constraints.Lexer.{is_ident_char, is_ident_start, is_number_char}
use hyperkitty_constraint_ds.Constraints.Ast.{
  Requirement, predicate, check, Constraint, ConstraintProgram,
}
use hyperkitty_constraint_ds.Constraints.Grammar.{Concrete, program_tokens}

-- The quote, the backslash and the line feed are escaped.
abbrev pub escape_char : ℕ → Text → Text
escape_char c rest =
    if c == 34
    then 92 ∷ 34 ∷ rest
    else if c == 92
    then 92 ∷ 92 ∷ rest
    else if c == 10
    then 92 ∷ b'n' ∷ rest
    else c ∷ rest

-- `s` escaped, with `rest` behind it.
abbrev pub escape : Text → Text → Text
escape [] rest = rest
escape (c ∷ s) rest = escape_char c (escape s rest)

-- The text of a token with `rest` behind it.
abbrev pub token_text : Token → Text → Text
token_text validity rest = codes "validity" ++ rest
token_text require rest = codes "require" ++ rest
token_text deny rest = codes "deny" ++ rest
token_text otherwise rest = codes "otherwise" ++ rest
token_text reject rest = codes "reject" ++ rest
token_text accept rest = codes "accept" ++ rest
token_text (ident s) rest = s ++ rest
token_text (number s) rest = s ++ rest
token_text (string s) rest = 34 ∷ escape s (34 ∷ rest)
token_text l_paren rest = b'(' ∷ rest
token_text r_paren rest = b')' ∷ rest
token_text l_brace rest = b'{' ∷ rest
token_text r_brace rest = b'}' ∷ rest
token_text semicolon rest = b';' ∷ rest
token_text colon rest = b':' ∷ rest
token_text comma rest = b',' ∷ rest
token_text arrow rest = b'=' ∷ b'>' ∷ rest
token_text eof rest = rest

-- Each token is followed by a space.
abbrev pub render : List Token → Text
render [] = []
render (t ∷ ts) = token_text t (32 ∷ render ts)

-- An identifier: a letter or `_`, then such characters and digits, and no keyword.
abbrev pub IsIdent : Unicode → Text → Type 0
IsIdent u [] = ⊥
IsIdent u (c ∷ s) =
    (is_ident_start u c ≡ true)
    × All (λ d. is_ident_char u d ≡ true) s
    × (keyword (c ∷ s) ≡ ident (c ∷ s))

abbrev pub IsNumber : Text → Type 0
IsNumber [] = ⊥
IsNumber (c ∷ s) = (is_ascii_digit c ≡ true) × All (λ d. is_number_char d ≡ true) s

-- The tokens that have a text of their own.
abbrev pub IsPrintable : Unicode → Token → Type 0
IsPrintable u (ident s) = IsIdent u s
IsPrintable u (number s) = IsNumber s
IsPrintable u eof = ⊥
IsPrintable u t = Unit

abbrev pub requirement_name : Requirement → Text
requirement_name (predicate s) = s
requirement_name (check s) = s

-- The names of a program are identifiers. Its parameters may be any text.
abbrev pub HasIdents : Unicode → Constraint → Type 0
HasIdents u c = IsIdent u c.name × All (λ r. IsIdent u (requirement_name r)) c.requires

-- A constraint with its parameter quoted and its `otherwise` clause spelled out.
abbrev pub concrete_of : Constraint → Concrete
concrete_of c = record {
  name = c.name;
  quoted = true;
  param = c.param;
  requires = c.requires;
  clause = some c.otherwise;
}

abbrev pub program_text : ConstraintProgram → Text
program_text p = render (program_tokens (map concrete_of p.constraints) [])
