-- ===== src/Constraints/Lexer.antt =====
-- `Lexer` of rust/crates/hyperkitty-constraints/src/lexer.rs. The text from `pos` on stands for
-- `source` and `pos`, since `pos` moves over whole characters only.
pub mod Progress
use hyperkitty_constraint_ds.Prelude.{
  ℕ, zero, suc, ◌+◌, Text, Bool, true, false, ◌&&◌, ◌||◌, Option, none, some, List, [], ◌∷◌, ◌++◌,
  length, ◌==◌, if◌then◌else◌,
}
use hyperkitty_constraint_ds.Core.{
  Error, lexer_error, char, num, literal, Result, ok, err, no_fuel, ◌>>=◌,
}
use hyperkitty_constraint_ds.Constraints.Unicode.{Unicode, is_alphanumeric, is_ascii_digit}
use hyperkitty_constraint_ds.Constraints.Token.{
  Token, number, string, l_paren, r_paren, l_brace, r_brace, semicolon, colon, comma, arrow, eof,
  keyword,
}

pub record Lexer : Type 0 where
  pub rest : Text
  pub line : ℕ

abbrev pub lexer_at : Text → ℕ → Lexer
lexer_at cs n = record { rest = cs; line = n }

-- The line number after `advance` has passed over `c`.
unfoldable pub next_line : ℕ → ℕ → ℕ
next_line c line = if c == 10 then line + 1 else line

-- What `match self.current_char()` of `read_string` pushes after a backslash.
unfoldable pub unescape : ℕ → ℕ
unescape c = if c == b'n' then 10 else if c == b't' then 9 else if c == b'r' then 13 else c

abbrev pub unterminated_escape : Error
unterminated_escape = lexer_error (literal "Unterminated string escape")

abbrev pub unterminated_string : Error
unterminated_string = lexer_error (literal "Unterminated string")

abbrev pub unexpected_character : ℕ → ℕ → Error
unexpected_character c line =
    lexer_error
      (record { format = "Unexpected character: {} at line {}"; args = char c ∷ num line ∷ [] })

-- `read_string` after the opening quote: `result` is what has been read.
unfoldable pub read_string : ℕ → Text → Text → ℕ → Result (Text × Lexer)
unfolding next_line unescape
read_string quote result [] line = err unterminated_string
read_string quote result (c ∷ []) line =
    if c == quote
    then ok (result, lexer_at [] (next_line c line))
    else if c == b'\\'
    then err unterminated_escape
    else err unterminated_string
read_string quote result (c ∷ e ∷ cs) line =
    let plain = read_string quote (result ++ c ∷ []) (e ∷ cs) (next_line c line) in
    let escaped =
      read_string quote (result ++ unescape e ∷ []) cs (next_line e (next_line c line)) in
    if c == quote
    then ok (result, lexer_at (e ∷ cs) (next_line c line))
    else if c == b'\\'
    then escaped
    else plain

-- The loop that `read_number` and `read_ident` share.
unfoldable pub read_while : (ℕ → Bool) → Text → Text → ℕ → Text × Lexer
unfolding next_line
read_while p result [] line = (result, lexer_at [] line)
read_while p result (c ∷ cs) line =
    let more = read_while p (result ++ c ∷ []) cs (next_line c line) in
    if p c then more else (result, lexer_at (c ∷ cs) line)

abbrev pub is_number_char : ℕ → Bool
is_number_char c = is_ascii_digit c || c == b'.'

unfoldable pub read_number : Text → ℕ → Text × Lexer
unfolding read_while
read_number = read_while is_number_char []

-- The seven single-character tokens.
unfoldable pub punctuation : ℕ → Option Token
punctuation c =
    if c == b'('
    then some l_paren
    else if c == b')'
    then some r_paren
    else if c == b'{'
    then some l_brace
    else if c == b'}'
    then some r_brace
    else if c == b';'
    then some semicolon
    else if c == b':'
    then some colon
    else if c == b','
    then some comma
    else none

-- `peek_char(1) == Some('>')`, over the text behind the current character.
unfoldable pub starts_with_gt : Text → Bool
starts_with_gt [] = false
starts_with_gt (c ∷ cs) = c == b'>'

unfoldable pub tail : Text → Text
tail [] = []
tail (c ∷ cs) = cs

-- One round of the loop of `tokenize` ends the text or pushes a token.
pub data Scanned : Type 0 where
  done : Scanned
  token : Token → Lexer → Scanned

abbrev pub scanned_string : Text × Lexer → Scanned
scanned_string (s, lx) = token (string s) lx

module _ (u : Unicode) where
  abbrev pub is_ident_char : ℕ → Bool
  is_ident_char c = is_alphanumeric u c || c == b'_'

  abbrev pub is_ident_start : ℕ → Bool
  is_ident_start c = u.is_alphabetic c || c == b'_'

  unfoldable pub read_ident : Text → ℕ → Text × Lexer
  unfolding read_while
  read_ident = read_while is_ident_char []

  unfoldable mutual
    unfolding next_line

    pub skip_whitespace : Text → ℕ → Lexer
    skip_whitespace [] line = lexer_at [] line
    skip_whitespace (c ∷ cs) line =
        let blank = skip_whitespace cs (next_line c line) in
        let comment = skip_comment cs (next_line c line) in
        if u.is_whitespace c then blank else if c == b'#' then comment else lexer_at (c ∷ cs) line

    -- The inner loop: to the end of the line, and on with the outer loop.
    pub skip_comment : Text → ℕ → Lexer
    skip_comment [] line = lexer_at [] line
    skip_comment (c ∷ cs) line =
        let next = skip_whitespace cs (next_line c line) in
        let comment = skip_comment cs (next_line c line) in if c == 10 then next else comment

  -- The arms of `match self.current_char()` behind those of the single-character tokens.
  unfoldable pub scan_word : ℕ → Text → ℕ → Result Scanned
  scan_word c cs line =
      if c == b'=' && starts_with_gt cs
      then ok (token arrow (lexer_at (tail cs) line))
      else if c == b'"'
      then (do r ← read_string b'"' [] cs line; ok (scanned_string r))
      else if c == 39
      then (do r ← read_string 39 [] cs line; ok (scanned_string r))
      else if is_ascii_digit c
      then (let (s, lx) = read_number (c ∷ cs) line in ok (token (number s) lx))
      else if is_ident_start c
      then (let (s, lx) = read_ident (c ∷ cs) line in ok (token (keyword s) lx))
      else err (unexpected_character c line)

  -- The whole `match`, at a character `c` with `cs` behind it.
  unfoldable pub scan_char : ℕ → Text → ℕ → Result Scanned
  scan_char c cs line = elim (punctuation c) [
    | some t ↦ ok (token t (lexer_at cs (next_line c line)))
    | none ↦ scan_word c cs line
  ]

  unfoldable pub scan : Text → ℕ → Result Scanned
  unfolding scan_char
  scan [] line = ok done
  scan (c ∷ cs) line = scan_char c cs line

  -- The loop of `tokenize`, on fuel for the characters left.
  unfoldable pub tokenize_loop : ℕ → Text → ℕ → Result (List Token)
  tokenize_loop zero rest line = no_fuel
  tokenize_loop (suc fuel) rest line =
      let lx = skip_whitespace rest line in
      do
        s ← scan lx.rest lx.line
        elim s [
          | done ↦ ok (eof ∷ [])
          | token t after ↦ do ts ← tokenize_loop fuel after.rest after.line; ok (t ∷ ts)
        ]

  unfoldable pub tokenize : Text → Result (List Token)
  tokenize source = tokenize_loop (suc (length source)) source 1
