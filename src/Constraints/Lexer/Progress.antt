-- ===== src/Constraints/Lexer/Progress.antt =====
-- `tokenize` ends: each round of its loop consumes a character, so the fuel is enough.
use hyperkitty_constraint_ds.Prelude.{
  ℕ, zero, suc, ◌≤◌, ◌<◌, ◌≡◌, ◌≢◌, refl, Text, Bool, true, some, [], ◌∷◌, ◌++◌, length, arith,
  ◌==◌, ◌&&◌, List, inl, inr, Option-cases, if_intro,
}
use hyperkitty_constraint_ds.Core.{Result, ok, err, no_fuel, ◌>>=◌}
use hyperkitty_constraint_ds.Constraints.Unicode.{Unicode, is_ascii_digit}
use hyperkitty_constraint_ds.Constraints.Token.{Token, eof, keyword}
use hyperkitty_constraint_ds.Constraints.Lexer.{
  Lexer, next_line, read_string, read_while, read_number, read_ident, is_number_char, is_ident_char,
  is_ident_start, punctuation, tail, unescape, scan_word, starts_with_gt, Scanned, done, token,
  scanned_string, skip_whitespace, skip_comment, scan_char, scan, tokenize_loop, tokenize,
}

read_while-le :
    (p : ℕ → Bool) (result cs : Text) (line : ℕ)
    → length (read_while p result cs line).1.rest ≤ length cs
unfolding read_while
read_while-le p result [] line = omega arith
read_while-le p result (c ∷ cs) line =
    ground (arith, read_while-le p (result ++ c ∷ []) cs (next_line c line))

read_while-lt :
    (p : ℕ → Bool) (c : ℕ) (cs : Text) (line : ℕ)
    → p c ≡ true
    → length (read_while p [] (c ∷ cs) line).1.rest < suc (length cs)
unfolding read_while
read_while-lt p c cs line h = rw h (omega (arith, read_while-le p (c ∷ []) cs (next_line c line)))

-- What a result leaves to be read has at most `n` characters; a run out of fuel does not occur.
abbrev ReadsTo : ℕ → Result (Text × Lexer) → Type 0
ReadsTo n (ok (s, lx)) = length lx.rest ≤ n
ReadsTo n (err e) = Unit
ReadsTo n no_fuel = ⊥

ReadsTo-le : (m n : ℕ) (r : Result (Text × Lexer)) → m ≤ n → ReadsTo m r → ReadsTo n r
ReadsTo-le m n (ok (s, lx)) h r = omega arith
ReadsTo-le m n (err e) h r = tt
ReadsTo-le m n no_fuel h r = r

read_string-ReadsTo :
    (q : ℕ) (result cs : Text) (line : ℕ) → ReadsTo (length cs) (read_string q result cs line)
unfolding read_string
read_string-ReadsTo q result [] line = tt
read_string-ReadsTo q result (c ∷ []) line = ground arith
read_string-ReadsTo q result (c ∷ e ∷ cs) line =
    if_intro (ReadsTo (suc (suc (length cs)))) (c == q) (λ _. omega arith)
      λ _.
        if_intro (ReadsTo (suc (suc (length cs)))) (c == b'\\')
          (λ _.
            ReadsTo-le (length cs) _ _ (omega arith) (
              read_string-ReadsTo q (result ++ unescape e ∷ []) cs
                (next_line e (next_line c line))))
          (λ _.
            ReadsTo-le (suc (length cs)) _ _ (omega arith)
              (read_string-ReadsTo q (result ++ c ∷ []) (e ∷ cs) (next_line c line)))

-- What a scan leaves to be read is shorter than `n`, and its token is not `eof`.
abbrev ScansBelow : ℕ → Result Scanned → Type 0
ScansBelow n (ok done) = Unit
ScansBelow n (ok (token t lx)) = (length lx.rest < n) × (t ≢ eof)
ScansBelow n (err e) = Unit
ScansBelow n no_fuel = ⊥

scanned_string-ScansBelow :
    (n : ℕ) (r : Result (Text × Lexer))
    → ReadsTo n r
    → ScansBelow (suc n) (do x ← r; ok (scanned_string x))
scanned_string-ScansBelow n (ok (s, lx)) h = (omega arith, λ e. cc)
scanned_string-ScansBelow n (err e) h = tt
scanned_string-ScansBelow n no_fuel h = h

length-tail-lt : (cs : Text) → length (tail cs) < suc (length cs)
unfolding tail
length-tail-lt [] = omega arith
length-tail-lt (c ∷ cs) = omega arith

keyword-ne-eof : (s : Text) → keyword s ≢ eof
unfolding keyword
keyword-ne-eof s h = ground arith

punctuation-ne-eof : (c : ℕ) (t : Token) → punctuation c ≡ some t → t ≢ eof
unfolding punctuation
punctuation-ne-eof c t h e = ground arith

number_char_of_digit : (c : ℕ) → is_ascii_digit c ≡ true → is_number_char c ≡ true
number_char_of_digit c h = ground arith

module _ (u : Unicode) where
  ident_char_of_start : (c : ℕ) → is_ident_start u c ≡ true → is_ident_char u c ≡ true
  ident_char_of_start c h = ground arith

  scan_word-ScansBelow :
      (c : ℕ) (cs : Text) (line : ℕ) → ScansBelow (suc (length cs)) (scan_word u c cs line)
  unfolding scan_word
  scan_word-ScansBelow c cs line =
      let P : Result Scanned → Type 0 = ScansBelow (suc (length cs)) in
      if_intro P (c == b'=' && starts_with_gt cs) (λ _. (length-tail-lt cs, λ e. cc))
        λ _.
          if_intro P (c == b'"')
            (λ _. scanned_string-ScansBelow (length cs) _ (read_string-ReadsTo b'"' [] cs line))
            λ _.
              if_intro P (c == 39)
                (λ _. scanned_string-ScansBelow (length cs) _ (read_string-ReadsTo 39 [] cs line))
                λ _.
                  if_intro P (is_ascii_digit c)
                    (λ h.
                      unfold read_number in
                      (read_while-lt is_number_char c cs line (number_char_of_digit c h), λ e. cc))
                    λ _.
                      if_intro P (is_ident_start u c)
                        (λ h.
                          unfold read_ident in
                          (
                            read_while-lt (is_ident_char u) c cs line (ident_char_of_start c h),
                            keyword-ne-eof _,
                          ))
                        (λ _. tt)

  scan_char-ScansBelow :
      (c : ℕ) (cs : Text) (line : ℕ) → ScansBelow (suc (length cs)) (scan_char u c cs line)
  unfolding scan_char
  scan_char-ScansBelow c cs line = elim (Option-cases (punctuation c)) [
    | inl e ↦ rw (e, scan_char) (scan_word-ScansBelow c cs line)
    | inr (t, e) ↦ rw (e, scan_char) (omega arith, punctuation-ne-eof c t e)
  ]

  scan-ScansBelow : (cs : Text) (line : ℕ) → ScansBelow (length cs) (scan u cs line)
  unfolding scan
  scan-ScansBelow [] line = tt
  scan-ScansBelow (c ∷ cs) line = scan_char-ScansBelow c cs line

  mutual
    unfolding skip_whitespace

    skip_whitespace-le :
        (cs : Text) (line : ℕ) → length (skip_whitespace u cs line).rest ≤ length cs
    skip_whitespace-le [] line = omega arith
    skip_whitespace-le (c ∷ cs) line =
        ground
          (arith, skip_whitespace-le cs (next_line c line), skip_comment-le cs (next_line c line))

    skip_comment-le : (cs : Text) (line : ℕ) → length (skip_comment u cs line).rest ≤ length cs
    skip_comment-le [] line = omega arith
    skip_comment-le (c ∷ cs) line =
        ground
          (arith, skip_whitespace-le cs (next_line c line), skip_comment-le cs (next_line c line))

-- One `eof`, and that at the end.
abbrev pub EndsInEof : List Token → Type 0
EndsInEof [] = ⊥
EndsInEof (t ∷ []) = t ≡ eof
EndsInEof (t ∷ s ∷ ts) = (t ≢ eof) × EndsInEof (s ∷ ts)

abbrev pub IsLexed : Result (List Token) → Type 0
IsLexed (ok ts) = EndsInEof ts
IsLexed (err e) = Unit
IsLexed no_fuel = ⊥

IsLexed-cons :
    (t : Token) (r : Result (List Token)) → t ≢ eof → IsLexed r → IsLexed (do ts ← r; ok (t ∷ ts))
IsLexed-cons t (ok []) n h = absurd h
IsLexed-cons t (ok (s ∷ ts)) n h = (n, h)
IsLexed-cons t (err e) n h = tt
IsLexed-cons t no_fuel n h = h

IsLexed-scanned :
    (n : ℕ) (r : Result Scanned) (next : Text → ℕ → Result (List Token))
    → ScansBelow n r
    → ((cs : Text) (line : ℕ) → length cs < n → IsLexed (next cs line))
    → IsLexed (do
      s ← r
      elim s [
        | done ↦ ok (eof ∷ [])
        | token t after ↦ do ts ← next after.rest after.line; ok (t ∷ ts)
      ])
IsLexed-scanned n (ok done) next h ih = refl
IsLexed-scanned n (ok (token t lx)) next h ih = IsLexed-cons t _ h.1 (ih lx.rest lx.line h.0)
IsLexed-scanned n (err e) next h ih = tt
IsLexed-scanned n no_fuel next h ih = h

module _ (u : Unicode) where
  tokenize_loop-IsLexed :
      (fuel : ℕ) (cs : Text) (line : ℕ) → length cs < fuel → IsLexed (tokenize_loop u fuel cs line)
  unfolding tokenize_loop
  tokenize_loop-IsLexed zero cs line h = absurd (omega arith)
  tokenize_loop-IsLexed (suc fuel) cs line h =
      let lx = skip_whitespace u cs line in
      IsLexed-scanned _ (scan u lx.rest lx.line) (tokenize_loop u fuel)
        (scan-ScansBelow u lx.rest lx.line)
        λ ds n k. tokenize_loop-IsLexed fuel ds n (omega (arith, skip_whitespace-le u cs line))

  -- For every text and every reading of the character classes, `tokenize` ends within its fuel, with
  -- an error or with a token list that has exactly one `eof`, as its last token.
  pub tokenize-IsLexed : (source : Text) → IsLexed (tokenize u source)
  unfolding tokenize
  tokenize-IsLexed source = tokenize_loop-IsLexed (suc (length source)) source 1 (omega arith)
