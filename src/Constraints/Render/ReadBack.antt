-- ===== src/Constraints/Render/ReadBack.antt =====
-- The lexer reads a rendered token list back.
use hyperkitty_constraint_ds.Prelude.{
  ℕ, ◌≡◌, refl, sym, ap, ◌∙◌, inl, inr, Text, Bool, true, false, [], ◌∷◌, ◌++◌, append_assoc,
  append-nil, arith, All, all, ◌==◌, codes, Bool-cases, none, some, &&-true, ==→eq,
}
use hyperkitty_constraint_ds.Core.{Result, ok}
use hyperkitty_constraint_ds.Constraints.Unicode.{
  Unicode, IsUnicode, is_ascii_digit, is_ascii_letter,
}
use hyperkitty_constraint_ds.Constraints.Token.{
  Token, validity, require, deny, otherwise, reject, accept, ident, number, string, l_paren,
  r_paren, l_brace, r_brace, semicolon, colon, comma, arrow, eof, keyword,
}
use hyperkitty_constraint_ds.Constraints.Lexer.{
  Lexer, lexer_at, next_line, unescape, read_string, read_while, is_number_char, read_number, tail,
  starts_with_gt, punctuation, token, is_ident_char, is_ident_start, read_ident, scan_word,
  scan_char, scan,
}
use hyperkitty_constraint_ds.Constraints.Render.{
  escape_char, escape, token_text, IsNumber, IsPrintable,
}
use hyperkitty_constraint_ds.Constraints.Render.Chars.{
  start_arms, letters_ident, letter_start, ident_stops,
}

read_while-stop :
    (p : ℕ → Bool) (result s rest : Text) (line : ℕ)
    → All (λ c. p c ≡ true) s
    → p 32 ≡ false
    → (n : ℕ) × (read_while p result (s ++ 32 ∷ rest) line ≡ (result ++ s, lexer_at (32 ∷ rest) n))
unfolding read_while
read_while-stop p result [] rest line h stop = (line, rw (stop, append-nil))
read_while-stop p result (c ∷ s) rest line h stop =
    let (n, e) = read_while-stop p (result ++ c ∷ []) s rest (next_line c line) h.1 stop in
    (n, rw (h.0, e, append_assoc) refl)

escape-nonempty : (s rest : Text) → (e : ℕ) × (more : Text) × (escape s (34 ∷ rest) ≡ e ∷ more)
escape-nonempty [] rest = (34, rest, refl)
escape-nonempty (c ∷ s) rest = nonempty c (escape s (34 ∷ rest))
  where
    nonempty : (c : ℕ) (t : Text) → (e : ℕ) × (more : Text) × (escape_char c t ≡ e ∷ more)
    nonempty c t = elim (Bool-cases (c == 34)) [
      | inl a ↦ (92, 34 ∷ t, rw a)
      | inr a ↦ elim (Bool-cases (c == 92)) [
        | inl b ↦ (92, 92 ∷ t, rw (a, b))
        | inr b ↦ elim (Bool-cases (c == 10)) [
          | inl d ↦ (92, b'n' ∷ t, rw (a, b, d))
          | inr d ↦ (c, t, rw (a, b, d))
        ]
      ]
    ]

escape_char-plain :
    (c : ℕ) (t : Text)
    → (c == 34) ≡ false
    → (c == 92) ≡ false
    → (c == 10) ≡ false
    → escape_char c t ≡ c ∷ t
escape_char-plain c t a b d = rw (a, b, d)

read_string-plain :
    (result : Text) (c e : ℕ) (more : Text) (line : ℕ)
    → (c == 34) ≡ false
    → (c == 92) ≡ false
    → read_string 34 result (c ∷ e ∷ more) line
      ≡ read_string 34 (result ++ c ∷ []) (e ∷ more) (next_line c line)
unfolding read_string
read_string-plain result c e more line a b = rw (a, b) refl

-- One escaped character is read as one character.
read_string-escape_char :
    (result : Text) (c e : ℕ) (more : Text) (line : ℕ)
    → (n : ℕ) × (read_string 34 result (escape_char c (e ∷ more)) line
        ≡ read_string 34 (result ++ c ∷ []) (e ∷ more) n)
unfolding read_string unescape
read_string-escape_char result c e more line =
    let read : ℕ → ℕ → Result (Text × Lexer) =
      λ d n. read_string 34 (result ++ d ∷ []) (e ∷ more) n in
    let after : ℕ → ℕ = λ d. next_line d (next_line 92 line) in
    elim (Bool-cases (c == 34)) [
      | inl a ↦ (after 34, rw a (ap (λ d. read d (after 34)) (sym (==→eq c 34 a))))
      | inr a ↦ elim (Bool-cases (c == 92)) [
        | inl b ↦ (after 92, rw (a, b) (ap (λ d. read d (after 92)) (sym (==→eq c 92 b))))
        | inr b ↦ elim (Bool-cases (c == 10)) [
          | inl d ↦ (after b'n', rw (a, b, d) (ap (λ x. read x (after b'n')) (sym (==→eq c 10 d))))
          | inr d ↦ (
            next_line c line,
            ap (λ t. read_string 34 result t line) (escape_char-plain c (e ∷ more) a b d)
                ∙ read_string-plain result c e more line a b,
          )
        ]
      ]
    ]

read_string-escape :
    (result s rest : Text) (line : ℕ)
    → (n : ℕ) × (read_string 34 result (escape s (34 ∷ 32 ∷ rest)) line
        ≡ ok (result ++ s, lexer_at (32 ∷ rest) n))
unfolding read_string
read_string-escape result [] rest line = (next_line 34 line, rw append-nil)
read_string-escape result (c ∷ s) rest line =
    let (e, more, shape) = escape-nonempty s (32 ∷ rest) in
    let (n, one) = read_string-escape_char result c e more line in
    let (m, all_of) = read_string-escape (result ++ c ∷ []) s rest n in
    (
      m,
      ap (λ t. read_string 34 result (escape_char c t) line) shape
          ∙ one
          ∙ ap (λ t. read_string 34 (result ++ c ∷ []) t n) (sym shape)
          ∙ all_of
          ∙ ap (λ t. ok (t, lexer_at (32 ∷ rest) m)) (append_assoc result (c ∷ []) s),
    )

-- The scanner reads `t` off the front of `cs` and leaves the space behind it.
abbrev pub ScansAs : Unicode → Token → Text → Text → Type 0
ScansAs u t cs rest =
    (line : ℕ) → (n : ℕ) × (scan u cs line ≡ ok (token t (lexer_at (32 ∷ rest) n)))

digit_arms :
    (c : ℕ)
    → is_ascii_digit c ≡ true
    → (punctuation c ≡ none) × ((c == b'=') ≡ false) × ((c == b'"') ≡ false) × ((c == 39) ≡ false)
unfolding punctuation
digit_arms c h = (ground arith, ground arith, ground arith, ground arith)

module _ (u : Unicode) (law : IsUnicode u) where
  ident-ScansAs :
      (c : ℕ) (s rest : Text)
      → is_ident_start u c ≡ true
      → All (λ d. is_ident_char u d ≡ true) s
      → ScansAs u (keyword (c ∷ s)) (c ∷ s ++ 32 ∷ rest) rest
  unfolding scan scan_char scan_word read_ident
  ident-ScansAs c s rest h hs line =
      let (p, a₁, a₂, a₃, a₄) = start_arms u law c h in
      let start : is_ident_char u c ≡ true = ground arith in
      let (n, e) =
        read_while-stop (is_ident_char u) [] (c ∷ s) rest line (start, hs) (ident_stops u law) in
      (n, rw (p, scan_char) (rw (a₁, a₂, a₃, a₄, h, e) refl))

  word-ScansAs :
      (c : ℕ) (s rest : Text)
      → all is_ascii_letter (c ∷ s) ≡ true
      → ScansAs u (keyword (c ∷ s)) (c ∷ s ++ 32 ∷ rest) rest
  word-ScansAs c s rest h =
      let (first, others) = &&-true (is_ascii_letter c) _ h in
      ident-ScansAs c s rest (letter_start u law c first) (letters_ident u law s others)

  string-ScansAs : (s rest : Text) → ScansAs u (string s) (34 ∷ escape s (34 ∷ 32 ∷ rest)) rest
  unfolding scan scan_char scan_word punctuation starts_with_gt
  string-ScansAs s rest line = let (n, e) = read_string-escape [] s rest line in (n, rw e refl)

  number-ScansAs :
      (c : ℕ) (s rest : Text)
      → IsNumber (c ∷ s)
      → ScansAs u (number (c ∷ s)) (c ∷ s ++ 32 ∷ rest) rest
  unfolding scan scan_char scan_word read_number read_while
  number-ScansAs c s rest (h, hs) line =
      let (p, a₁, a₂, a₃) = digit_arms c h in
      let (n, e) = read_while-stop is_number_char (c ∷ []) s rest (next_line c line) hs refl in
      (n, rw (p, scan_char) (rw (a₁, a₂, a₃, h, e) refl))

  plain-ScansAs :
      (c : ℕ) (t : Token) (rest : Text) → punctuation c ≡ some t → ScansAs u t (c ∷ 32 ∷ rest) rest
  unfolding scan
  plain-ScansAs c t rest h line = (next_line c line, rw (h, scan_char) refl)

  arrow-ScansAs : (rest : Text) → ScansAs u arrow (b'=' ∷ b'>' ∷ 32 ∷ rest) rest
  unfolding scan scan_char scan_word punctuation starts_with_gt tail
  arrow-ScansAs rest line = (line, refl)

  pub token-ScansAs :
      (t : Token) (rest : Text) → IsPrintable u t → ScansAs u t (token_text t (32 ∷ rest)) rest
  unfolding keyword punctuation
  token-ScansAs validity rest h = word-ScansAs b'v' (codes "alidity") rest refl
  token-ScansAs require rest h = word-ScansAs b'r' (codes "equire") rest refl
  token-ScansAs deny rest h = word-ScansAs b'd' (codes "eny") rest refl
  token-ScansAs otherwise rest h = word-ScansAs b'o' (codes "therwise") rest refl
  token-ScansAs reject rest h = word-ScansAs b'r' (codes "eject") rest refl
  token-ScansAs accept rest h = word-ScansAs b'a' (codes "ccept") rest refl
  token-ScansAs (ident []) rest h = absurd h
  token-ScansAs (ident (c ∷ s)) rest (start, more, own) =
      rw own at (ident-ScansAs c s rest start more)
  token-ScansAs (number []) rest h = absurd h
  token-ScansAs (number (c ∷ s)) rest h = number-ScansAs c s rest h
  token-ScansAs (string s) rest h = string-ScansAs s rest
  token-ScansAs l_paren rest h = plain-ScansAs b'(' l_paren rest refl
  token-ScansAs r_paren rest h = plain-ScansAs b')' r_paren rest refl
  token-ScansAs l_brace rest h = plain-ScansAs b'{' l_brace rest refl
  token-ScansAs r_brace rest h = plain-ScansAs b'}' r_brace rest refl
  token-ScansAs semicolon rest h = plain-ScansAs b';' semicolon rest refl
  token-ScansAs colon rest h = plain-ScansAs b':' colon rest refl
  token-ScansAs comma rest h = plain-ScansAs b',' comma rest refl
  token-ScansAs arrow rest h = arrow-ScansAs rest
  token-ScansAs eof rest h = absurd h
