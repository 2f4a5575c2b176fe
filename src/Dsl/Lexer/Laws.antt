-- ===== src/Dsl/Lexer/Laws.antt =====
-- The lexer answers on every text.
use hyperkitty_constraint_ds.Prelude.{
  ℕ, zero, suc, ◌≤◌, ◌<◌, ◌≡◌, ◌≢◌, refl, sym, ap, Text, Bool, true, false, List, [], ◌∷◌, ◌++◌,
  length, All, All-append, All-map, if◌then◌else◌, ltb, ◌==◌, ◌^◌, append_assoc, arith,
}
use hyperkitty_constraint_ds.Core.{Result, ok}
use hyperkitty_constraint_ds.Constraints.Unicode.{Unicode, is_ascii_digit}
use hyperkitty_constraint_ds.Dsl.Token.{
  Token, identifier, number, string, eof, require, balance, invariant, entropy, proof, runtime,
  identity, phase, otherwise, reject, left_paren, right_paren, left_brace, right_brace, semicolon,
  comma, equals, less_than_eq,
}
use hyperkitty_constraint_ds.Dsl.Lexer.{
  is_blank, digits_value, span, read_quoted, number_tokens, word_token, next_is_equals, skip,
  starts_word, in_word, lex_char, lex_loop, lex, tokenize,
}

length-span : (test : ℕ → Bool) (s : Text) → length (span test s).1 ≤ length s
unfolding span
length-span test [] = omega arith
length-span test (c ∷ s) = ground (arith, length-span test s)

length-read_quoted : (s : Text) → length (read_quoted s).1 ≤ length s
unfolding read_quoted
length-read_quoted [] = omega arith
length-read_quoted (c ∷ s) = ground (arith, length-read_quoted s)

length-skip : (s : Text) → length (skip s) ≤ length s
length-skip [] = omega arith
length-skip (c ∷ s) = omega arith

record IsInner (t : Token) : Type 0 where
  pub not_eof : t ≢ eof

IsInner-if : (b : Bool) {x y : Token} → IsInner x → IsInner y → IsInner (if b then x else y)
IsInner-if true h k = h
IsInner-if false h k = k

inner : (t : Token) → t ≢ eof → IsInner t
inner t h = record { not_eof = h }

word_token-IsInner : (word : Text) → IsInner (word_token word)
unfolding word_token
word_token-IsInner word = IsInner-if _ (inner require (λ e. cc)) (
    IsInner-if _ (inner balance (λ e. cc)) (
      IsInner-if _ (inner invariant (λ e. cc)) (
        IsInner-if _ (inner entropy (λ e. cc)) (
          IsInner-if _ (inner proof (λ e. cc)) (
            IsInner-if _ (inner runtime (λ e. cc)) (
              IsInner-if _ (inner identity (λ e. cc)) (
                IsInner-if _ (inner phase (λ e. cc)) (
                  IsInner-if _ (inner otherwise (λ e. cc)) (
                    IsInner-if _ (inner reject (λ e. cc))
                      (inner (identifier word) (λ e. cc)))))))))))

-- A round pushes no end of input and leaves no more than the characters after its own.
record IsRound (s : Text) (r : List Token × Text) : Type 0 where
  pub inners : All IsInner r.0
  pub shrinks : length r.1 ≤ length s

IsRound-if :
    (s : Text) (b : Bool) {x y : List Token × Text}
    → IsRound s x
    → IsRound s y
    → IsRound s (if b then x else y)
IsRound-if s true h k = h
IsRound-if s false h k = k

one :
    (s : Text) (t : Token) (rest : Text)
    → IsInner t
    → length rest ≤ length s
    → IsRound s (t ∷ [], rest)
one s t rest h l = record { inners = (h, tt); shrinks = l }

none : (s rest : Text) → length rest ≤ length s → IsRound s ([], rest)
none s rest l = record { inners = tt; shrinks = l }

number_if :
    (s : Text) (b : Bool) (n : ℕ) (rest : Text)
    → length rest ≤ length s
    → IsRound s ((if b then number n ∷ [] else []), rest)
number_if s true n rest l = one s (number n) rest (inner (number n) (λ e. cc)) l
number_if s false n rest l = none s rest l

number_round :
    (s digits rest : Text) → length rest ≤ length s → IsRound s (number_tokens digits, rest)
unfolding number_tokens
number_round s digits rest l =
    number_if s (ltb (digits_value 0 digits) (2 ^ 63)) (digits_value 0 digits) rest l

lex_char-IsRound : (u : Unicode) (c : ℕ) (s : Text) → IsRound s (lex_char u c s)
unfolding lex_char
lex_char-IsRound u c s =
    let all_left : length s ≤ length s = omega arith in
    let skipped = length-skip s in
    IsRound-if s (is_blank c) (none s s all_left) (
      IsRound-if s (c == 40) (one s left_paren s (inner left_paren (λ e. cc)) all_left) (
        IsRound-if s (c == 41) (one s right_paren s (inner right_paren (λ e. cc)) all_left) (
          IsRound-if s (c == 123) (one s left_brace s (inner left_brace (λ e. cc)) all_left) (
            IsRound-if s (c == 125) (one s right_brace s (inner right_brace (λ e. cc)) all_left) (
              IsRound-if s (c == 59) (one s semicolon s (inner semicolon (λ e. cc)) all_left) (
                IsRound-if s (c == 44) (one s comma s (inner comma (λ e. cc)) all_left) (
                  IsRound-if s (c == 61)
                    (one s equals (if next_is_equals s then skip s else s) (inner equals (λ e. cc))
                      (ground (arith, skipped)))
                    (IsRound-if s (c == 60)
                      (IsRound-if s (next_is_equals s)
                        (one s less_than_eq (skip s) (inner less_than_eq (λ e. cc)) skipped)
                        (none s s all_left))
                      (IsRound-if s (c == 34)
                        (one s (string (read_quoted s).0) (read_quoted s).1
                          (inner (string (read_quoted s).0) (λ e. cc)) (length-read_quoted s))
                        (IsRound-if s (is_ascii_digit c)
                          (number_round s (c ∷ (span is_ascii_digit s).0) (span is_ascii_digit s).1
                            (length-span is_ascii_digit s))
                          (IsRound-if s (starts_word u c)
                            (one s (word_token (c ∷ (span (in_word u) s).0)) (span (in_word u) s).1
                              (word_token-IsInner (c ∷ (span (in_word u) s).0))
                              (length-span (in_word u) s))
                            (none s s all_left))))))))))))

-- The tokens of an answer: no end of input but the last.
abbrev pub IsAnswer : Result (List Token) → Type 0
IsAnswer r = (ts : List Token) × (r ≡ ok (ts ++ eof ∷ [])) × All (λ t. t ≢ eof) ts

lex_loop-IsAnswer :
    (u : Unicode) (fuel : ℕ) (s : Text) → length s < fuel → IsAnswer (lex_loop u fuel s)
unfolding lex_loop
lex_loop-IsAnswer u zero s l = let never : ⊥ = omega (arith, l) in elim never [ ]
lex_loop-IsAnswer u (suc fuel) [] l = ([], refl, tt)
lex_loop-IsAnswer u (suc fuel) (c ∷ s) l =
    let round = lex_char-IsRound u c s in
    let (ts, e, inners) =
      lex_loop-IsAnswer u fuel (lex_char u c s).1 (omega (arith, l, round.shrinks)) in
    (
      (lex_char u c s).0 ++ ts,
      rw e (ap ok (sym (append_assoc (lex_char u c s).0 ts (eof ∷ [])))),
      All-append (λ t. t ≢ eof) (lex_char u c s).0 ts
          (All-map IsInner (λ t h. h.not_eof) (lex_char u c s).0 round.inners) inners,
    )

-- `tokenize` succeeds on every text, with tokens that end with the end of input and have no other.
pub tokenize-IsAnswer : (u : Unicode) (input : Text) → IsAnswer (tokenize u input)
unfolding tokenize lex
tokenize-IsAnswer u input = lex_loop-IsAnswer u (suc (length input)) input (omega arith)
