-- ===== src/Constraints/Render/Compile.antt =====
-- A rendered program compiles to itself, and `compile` always ends.
use hyperkitty_constraint_ds.Prelude.{
  ℕ, zero, suc, ◌≤◌, ◌<◌, ◌≡◌, refl, ap, ◌∙◌, Text, List, [], ◌∷◌, ◌++◌, map, arith, length, All,
  length-append, Option, none, some,
}
use hyperkitty_constraint_ds.Core.{ok}
use hyperkitty_constraint_ds.Constraints.Unicode.{Unicode, IsUnicode}
use hyperkitty_constraint_ds.Constraints.Token.{Token, ident, number, string, r_brace, eof}
use hyperkitty_constraint_ds.Constraints.Ast.{
  OtherwiseAction, Requirement, predicate, check, Constraint, ConstraintProgram,
}
use hyperkitty_constraint_ds.Constraints.Grammar.{
  Concrete, abstract_of, requires_tokens, clause_tokens, program_tokens,
}
use hyperkitty_constraint_ds.Constraints.Lexer.{
  lexer_at, skip_whitespace, scan, tokenize_loop, tokenize,
}
use hyperkitty_constraint_ds.Constraints.Compile.{compile}
use hyperkitty_constraint_ds.Constraints.Parser.Complete.{parse-tokens}
use hyperkitty_constraint_ds.Constraints.Render.{
  escape, token_text, render, IsIdent, IsPrintable, requirement_name, HasIdents, concrete_of,
  program_text,
}
use hyperkitty_constraint_ds.Constraints.Render.Chars.{
  start_not_blank, skip_whitespace_none, skip_whitespace_space, ascii_not_blank,
}
use hyperkitty_constraint_ds.Constraints.Render.ReadBack.{token-ScansAs}

length-escape : (s rest : Text) → length rest ≤ length (escape s rest)
length-escape [] rest = omega arith
length-escape (c ∷ s) rest = ground (arith, length-escape s rest)

length-token_text :
    (u : Unicode) (t : Token) (rest : Text)
    → IsPrintable u t
    → length rest < length (token_text t rest)
length-token_text u (ident []) rest h = absurd h
length-token_text u (ident (c ∷ s)) rest h = omega (arith, length-append s rest)
length-token_text u (number []) rest h = absurd h
length-token_text u (number (c ∷ s)) rest h = omega (arith, length-append s rest)
length-token_text u (string s) rest h = omega (arith, length-escape s (34 ∷ rest))
length-token_text u eof rest h = absurd h
length-token_text u t rest h = omega arith

module _ (u : Unicode) (law : IsUnicode u) where
  token_not_blank :
      (t : Token) (rest : Text) (line : ℕ)
      → IsPrintable u t
      → skip_whitespace u (token_text t rest) line ≡ lexer_at (token_text t rest) line
  token_not_blank (ident []) rest line h = absurd h
  token_not_blank (ident (c ∷ s)) rest line h =
      skip_whitespace_none u law c _ line (start_not_blank u law c h.0)
  token_not_blank (number []) rest line h = absurd h
  token_not_blank (number (c ∷ s)) rest line h =
      skip_whitespace_none u law c _ line
        (ascii_not_blank u law c (ground arith) (ground arith) (ground arith))
  token_not_blank eof rest line h = absurd h
  token_not_blank t rest line h =
      skip_whitespace_none u law _ _ line (ascii_not_blank u law _ (omega arith) refl refl)

  render_not_blank :
      (ts : List Token) (line : ℕ)
      → All (IsPrintable u) ts
      → skip_whitespace u (render ts) line ≡ lexer_at (render ts) line
  unfolding skip_whitespace
  render_not_blank [] line h = refl
  render_not_blank (t ∷ ts) line h = token_not_blank t (32 ∷ render ts) line h.0

  tokenize_loop-render :
      (fuel : ℕ) (ts : List Token) (cs : Text) (line n : ℕ)
      → All (IsPrintable u) ts
      → length ts < fuel
      → skip_whitespace u cs line ≡ lexer_at (render ts) n
      → tokenize_loop u fuel cs line ≡ ok (ts ++ eof ∷ [])
  unfolding tokenize_loop scan
  tokenize_loop-render zero ts cs line n h lt e = absurd (omega arith)
  tokenize_loop-render (suc fuel) [] cs line n h lt e = rw e refl
  tokenize_loop-render (suc fuel) (t ∷ ts) cs line n h lt e =
      let (m, scanned) = token-ScansAs u law t (render ts) h.0 n in
      let skipped = skip_whitespace_space u law (render ts) m ∙ render_not_blank ts m h.1 in
      let ih = tokenize_loop-render fuel ts (32 ∷ render ts) m m h.1 (omega arith) skipped in
      rw e (rw (scanned, ih) refl)

  length-render : (ts : List Token) → All (IsPrintable u) ts → length ts ≤ length (render ts)
  length-render [] h = omega arith
  length-render (t ∷ ts) h =
      omega (arith, length-render ts h.1, length-token_text u t (32 ∷ render ts) h.0)

  -- For character classes as documented, a rendered list of printable tokens is read back, with `eof`
  -- behind it.
  pub tokenize-render :
      (ts : List Token) → All (IsPrintable u) ts → tokenize u (render ts) ≡ ok (ts ++ eof ∷ [])
  unfolding tokenize
  tokenize-render ts h =
      tokenize_loop-render (suc (length (render ts))) ts (render ts) 1 1 h
        (omega (arith, length-render ts h)) (render_not_blank ts 1 h)

requires-IsPrintable :
    (u : Unicode) (rs : List Requirement) (ts : List Token)
    → All (λ r. IsIdent u (requirement_name r)) rs
    → All (IsPrintable u) ts
    → All (IsPrintable u) (requires_tokens rs ts)
requires-IsPrintable u [] ts h k = k
requires-IsPrintable u (predicate s ∷ rs) ts h k =
    (tt, (h.0, (tt, requires-IsPrintable u rs ts h.1 k)))
requires-IsPrintable u (check s ∷ rs) ts h k =
    (tt, (h.0, (tt, (tt, (tt, requires-IsPrintable u rs ts h.1 k)))))

clause-IsPrintable :
    (u : Unicode) (a : OtherwiseAction) (ts : List Token)
    → All (IsPrintable u) ts
    → All (IsPrintable u) (clause_tokens (some a) ts)
clause-IsPrintable u OtherwiseAction.reject ts k = (tt, (tt, (tt, k)))
clause-IsPrintable u OtherwiseAction.accept ts k = (tt, (tt, (tt, k)))

program-IsPrintable :
    (u : Unicode) (cs : List Constraint)
    → All (HasIdents u) cs
    → All (IsPrintable u) (program_tokens (map concrete_of cs) [])
program-IsPrintable u [] h = tt
program-IsPrintable u (c ∷ cs) h =
    let rest = program_tokens (map concrete_of cs) [] in
    let body =
      requires-IsPrintable u c.requires (clause_tokens (some c.otherwise) (r_brace ∷ rest)) h.0.1
        (clause-IsPrintable u c.otherwise (r_brace ∷ rest) (tt, program-IsPrintable u cs h.1)) in
    (tt, (tt, (h.0.0, (tt, (tt, (tt, body))))))

requires_tokens-append :
    (rs : List Requirement) (ts us : List Token)
    → requires_tokens rs ts ++ us ≡ requires_tokens rs (ts ++ us)
requires_tokens-append [] ts us = refl
requires_tokens-append (predicate s ∷ rs) ts us = cc (requires_tokens-append rs ts us)
requires_tokens-append (check s ∷ rs) ts us = cc (requires_tokens-append rs ts us)

clause_tokens-append :
    (o : Option OtherwiseAction) (ts us : List Token)
    → clause_tokens o ts ++ us ≡ clause_tokens o (ts ++ us)
clause_tokens-append none ts us = refl
clause_tokens-append (some a) ts us = refl

program_tokens-append :
    (ks : List Concrete) (ts : List Token) → program_tokens ks [] ++ ts ≡ program_tokens ks ts
program_tokens-append [] ts = refl
program_tokens-append (k ∷ ks) ts =
    let rest = program_tokens ks [] in
    cc (
      requires_tokens-append k.requires (clause_tokens k.clause (r_brace ∷ rest)) ts,
      clause_tokens-append k.clause (r_brace ∷ rest) ts,
      program_tokens-append ks ts,
    )

abstract-concrete : (cs : List Constraint) → map abstract_of (map concrete_of cs) ≡ cs
abstract-concrete [] = refl
abstract-concrete (c ∷ cs) = ap (λ l. c ∷ l) (abstract-concrete cs)

-- For character classes as documented: the text of a program whose names are identifiers compiles to
-- that program, whatever its parameters are.
pub compile-program_text :
    (u : Unicode) (law : IsUnicode u) (p : ConstraintProgram)
    → All (HasIdents u) p.constraints
    → compile u (program_text p) ≡ ok p
unfolding compile
compile-program_text u law p h =
    let ks = map concrete_of p.constraints in
    let lexed =
      tokenize-render u law (program_tokens ks []) (program-IsPrintable u p.constraints h)
      ∙ ap ok (program_tokens-append ks (eof ∷ [])) in
    rw (lexed, compile)
      (parse-tokens ks (eof ∷ []) refl
        ∙ ap (λ cs. ok (record { constraints = cs })) (abstract-concrete p.constraints))
