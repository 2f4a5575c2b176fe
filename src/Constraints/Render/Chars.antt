-- ===== src/Constraints/Render/Chars.antt =====
-- The characters of rendered tokens: what the classes and the scanner's tests say of them.
use hyperkitty_constraint_ds.Prelude.{
  ℕ, ◌≤◌, ◌<◌, ◌≡◌, ◌⊎◌, Text, true, false, none, [], ◌∷◌, arith, all, All, &&-true, ◌==◌, ◌∙◌,
}
use hyperkitty_constraint_ds.Constraints.Unicode.{
  Unicode, IsUnicode, is_ascii_digit, is_ascii_letter, is_ascii_space,
}
use hyperkitty_constraint_ds.Constraints.Lexer.{
  lexer_at, next_line, punctuation, is_ident_char, is_ident_start, skip_whitespace,
}

-- A letter of ASCII, `_`, or a character beyond ASCII.
abbrev StartRange : ℕ → Type 0
StartRange c = (is_ascii_letter c ≡ true) ⊎ (c ≡ 95) ⊎ (128 ≤ c)

module _ (u : Unicode) (law : IsUnicode u) where
  start-StartRange : (c : ℕ) → is_ident_start u c ≡ true → StartRange c
  start-StartRange c h = ground (arith, law.alphabetic_ascii c)

  -- No earlier arm of the scanner takes the first character of an identifier.
  pub start_arms :
      (c : ℕ)
      → is_ident_start u c ≡ true
      → (punctuation c ≡ none)
        × ((c == b'=') ≡ false)
        × ((c == b'"') ≡ false)
        × ((c == 39) ≡ false)
        × (is_ascii_digit c ≡ false)
  unfolding punctuation
  start_arms c h =
      let r = start-StartRange c h in
      (ground arith, ground arith, ground arith, ground arith, ground arith)

  pub start_not_blank :
      (c : ℕ) → is_ident_start u c ≡ true → (u.is_whitespace c ≡ false) × ((c == b'#') ≡ false)
  start_not_blank c h =
      let r = start-StartRange c h in
      (ground (arith, law.alphabetic_not_whitespace c, law.whitespace_ascii c), ground arith)

  pub letters_ident :
      (s : Text) → all is_ascii_letter s ≡ true → All (λ c. is_ident_char u c ≡ true) s
  letters_ident [] h = tt
  letters_ident (c ∷ s) h =
      let (first, rest) = &&-true (is_ascii_letter c) _ h in
      (ground (arith, law.alphabetic_ascii c), letters_ident s rest)

  pub letter_start : (c : ℕ) → is_ascii_letter c ≡ true → is_ident_start u c ≡ true
  letter_start c h = ground (arith, law.alphabetic_ascii c)

  pub ident_stops : is_ident_char u 32 ≡ false
  ident_stops =
      ground (arith, law.alphabetic_ascii 32 (omega arith), law.numeric_ascii 32 (omega arith))

  pub skip_whitespace_none :
      (c : ℕ) (cs : Text) (line : ℕ)
      → (u.is_whitespace c ≡ false) × ((c == b'#') ≡ false)
      → skip_whitespace u (c ∷ cs) line ≡ lexer_at (c ∷ cs) line
  unfolding skip_whitespace
  skip_whitespace_none c cs line (w, h) = rw (w, h)

  pub skip_whitespace_space :
      (cs : Text) (line : ℕ) → skip_whitespace u (32 ∷ cs) line ≡ skip_whitespace u cs line
  unfolding skip_whitespace next_line
  skip_whitespace_space cs line = rw (law.whitespace_ascii 32 (omega arith))

  -- An ASCII character that is no blank and does not open a comment.
  pub ascii_not_blank :
      (c : ℕ)
      → c < 128
      → is_ascii_space c ≡ false
      → (c == b'#') ≡ false
      → (u.is_whitespace c ≡ false) × ((c == b'#') ≡ false)
  ascii_not_blank c lt s h = (law.whitespace_ascii c lt ∙ s, h)
