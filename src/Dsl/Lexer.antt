-- ===== src/Dsl/Lexer.antt =====
-- rust/crates/hyperkitty-parser/src/lexer.rs. The loop runs on fuel, one more than the characters.
pub mod Laws
use hyperkitty_constraint_ds.Prelude.{
  ℕ, zero, suc, ◌+◌, ◌*◌, ◌-◌, ◌^◌, Text, codes, text_eq, Bool, true, false, ◌&&◌, ◌||◌, List, [],
  ◌∷◌, ◌++◌, length, if◌then◌else◌, ltb, ◌==◌,
}
use hyperkitty_constraint_ds.Core.{Result, ok, err, no_fuel, ◌>>=◌}
use hyperkitty_constraint_ds.Constraints.Unicode.{Unicode, is_alphanumeric, is_ascii_digit}
use hyperkitty_constraint_ds.Dsl.Token.{
  Token, require, balance, invariant, entropy, proof, runtime, identity, phase, otherwise, reject,
  identifier, number, string, less_than_eq, equals, left_paren, right_paren, left_brace,
  right_brace, semicolon, comma, eof,
}

-- The characters while a test holds, and the rest.
unfoldable pub span : (ℕ → Bool) → Text → Text × Text
span test [] = ([], [])
span test (c ∷ s) = let more = span test s in if test c then (c ∷ more.0, more.1) else ([], c ∷ s)

-- The characters before a quote, and the rest behind it; all of them where no quote comes.
unfoldable pub read_quoted : Text → Text × Text
read_quoted [] = ([], [])
read_quoted (c ∷ s) =
    let more = read_quoted s in if c == b'"' then ([], s) else (c ∷ more.0, more.1)

-- The value of decimal digits.
unfoldable pub digits_value : ℕ → Text → ℕ
digits_value acc [] = acc
digits_value acc (c ∷ s) = digits_value (acc * 10 + (c - 48)) s

-- `parse::<i64>` of digits: a number that does not fit is dropped.
unfoldable pub number_tokens : Text → List Token
unfolding digits_value
number_tokens digits = let n = digits_value 0 digits in if ltb n (2 ^ 63) then number n ∷ [] else []

unfoldable pub word_token : Text → Token
unfolding text_eq
word_token word =
    if text_eq word (codes "require")
    then require
    else if text_eq word (codes "balance")
    then balance
    else if text_eq word (codes "invariant")
    then invariant
    else if text_eq word (codes "entropy")
    then entropy
    else if text_eq word (codes "proof")
    then proof
    else if text_eq word (codes "runtime")
    then runtime
    else if text_eq word (codes "identity")
    then identity
    else if text_eq word (codes "phase")
    then phase
    else if text_eq word (codes "otherwise")
    then otherwise
    else if text_eq word (codes "reject")
    then reject
    else identifier word

-- `chars.peek() == Some(&'=')`
abbrev pub next_is_equals : Text → Bool
next_is_equals [] = false
next_is_equals (c ∷ s) = c == b'='

-- `chars.next()`, for its effect.
abbrev pub skip : Text → Text
skip [] = []
skip (c ∷ s) = s

abbrev pub is_blank : ℕ → Bool
is_blank c = c == b' ' || (c == b'\t' || (c == b'\n' || c == b'\r'))

module _ (u : Unicode) where
  abbrev pub starts_word : ℕ → Bool
  starts_word c = u.is_alphabetic c || c == b'_'

  abbrev pub in_word : ℕ → Bool
  in_word c = is_alphanumeric u c || c == b'_'

  -- One round of the loop, at a character with those after it: the tokens pushed and what is left.
  unfoldable pub lex_char : ℕ → Text → List Token × Text
  unfolding span read_quoted number_tokens word_token
  lex_char c s =
      if is_blank c
      then ([], s)
      else if c == b'('
      then (left_paren ∷ [], s)
      else if c == b')'
      then (right_paren ∷ [], s)
      else if c == b'{'
      then (left_brace ∷ [], s)
      else if c == b'}'
      then (right_brace ∷ [], s)
      else if c == b';'
      then (semicolon ∷ [], s)
      else if c == b','
      then (comma ∷ [], s)
      else if c == b'='
      then (equals ∷ [], if next_is_equals s then skip s else s)
      else if c == b'<'
      then (if next_is_equals s then (less_than_eq ∷ [], skip s) else ([], s))
      else if c == b'"'
      then (string (read_quoted s).0 ∷ [], (read_quoted s).1)
      else if is_ascii_digit c
      then (number_tokens (c ∷ (span is_ascii_digit s).0), (span is_ascii_digit s).1)
      else if starts_word c
      then (word_token (c ∷ (span in_word s).0) ∷ [], (span in_word s).1)
      else ([], s)

  unfoldable pub lex_loop : ℕ → Text → Result (List Token)
  unfolding lex_char
  lex_loop zero s = no_fuel
  lex_loop (suc fuel) [] = ok (eof ∷ [])
  lex_loop (suc fuel) (c ∷ s) =
      lex_loop fuel (lex_char c s).1 >>= λ rest. ok ((lex_char c s).0 ++ rest)

  unfoldable pub lex : Text → Result (List Token)
  unfolding lex_loop
  lex input = lex_loop (suc (length input)) input

  unfoldable pub tokenize : Text → Result (List Token)
  unfolding lex
  tokenize input = lex input
