-- ===== src/Constraints/Parser/Sound.antt =====
-- What is parsed was written by the grammar, and the parser always ends.
use hyperkitty_constraint_ds.Prelude.{
  ℕ, zero, suc, ◌<◌, ◌≡◌, refl, ap, Text, Option, List, [], ◌∷◌, map, length, arith, if_intro,
}
use hyperkitty_constraint_ds.Core.{Result, ok, err, no_fuel}
use hyperkitty_constraint_ds.Constraints.Token.{
  Token, validity, l_paren, r_paren, l_brace, r_brace, eof,
}
use hyperkitty_constraint_ds.Constraints.Ast.{OtherwiseAction, Constraint, ConstraintProgram}
use hyperkitty_constraint_ds.Constraints.Grammar.{
  Concrete, action_of, abstract_of, requires_tokens, clause_tokens, constraint_tokens,
  program_tokens,
}
use hyperkitty_constraint_ds.Constraints.Parser.Complete.{
  length-requires_tokens, length-clause_tokens,
}
use hyperkitty_constraint_ds.Constraints.Parser.Steps.{at_eof}
use hyperkitty_constraint_ds.Constraints.Parser.{
  current, at, expect, parse_name, parse_param, parse_requires, parse_otherwise, parse_body,
  parse_constraint, parse_loop, parse,
}
use hyperkitty_constraint_ds.Constraints.Parser.Clauses.{
  Yields, Yields-bind, Yields-imp, expect-Yields, parse_name-Yields, IsParam, parse_param-Yields,
  parse_requires-Yields, IsClause, parse_otherwise-Yields,
}

-- The tokens of some concrete body for the constraint `c`.
IsBody : List Token → Constraint → List Token → Type 0
IsBody ts c rest =
    (o : Option OtherwiseAction) × (ts
      ≡ requires_tokens c.requires (clause_tokens o (r_brace ∷ rest)))
    × (c.otherwise ≡ action_of o)

parse_body-Yields :
    (name param : Text) (ts : List Token)
    → Yields
        (λ c rest. IsBody ts c rest × (c.name ≡ name) × (c.param ≡ param))
        (parse_body name param ts)
unfolding parse_body IsBody IsClause
parse_body-Yields name param ts =
    let Q : Constraint → List Token → Type 0 =
      λ c rest. IsBody ts c rest × (c.name ≡ name) × (c.param ≡ param) in
    Yields-bind _ Q (parse_requires (suc (length ts)) ts) _
      (parse_requires-Yields (suc (length ts)) ts (omega arith))
      λ rs t₁ e₁.
        Yields-bind _ Q (parse_otherwise t₁) _ (parse_otherwise-Yields t₁) λ a t₂ (o, e₂, ea).
          Yields-bind _ Q (expect r_brace t₂) _ (expect-Yields r_brace t₂ refl)
            λ _ rest e₃. ((o, cc, ea), refl, refl)

IsWritten : List Token → Constraint → List Token → Type 0
IsWritten ts c rest = (k : Concrete) × (ts ≡ constraint_tokens k rest) × (c ≡ abstract_of k)

Constraint-path :
    {c : Constraint} {n p : Text} {a : OtherwiseAction}
    → c.otherwise ≡ a
    → c.name ≡ n
    → c.param ≡ p
    → c ≡ record { name = n; param = p; requires = c.requires; otherwise = a }
Constraint-path {c} ea en ep =
    λ i. record { name = en i; param = ep i; requires = c.requires; otherwise = ea i }

parse_constraint-Yields : (ts : List Token) → Yields (IsWritten ts) (parse_constraint ts)
unfolding parse_constraint IsWritten IsBody IsParam
parse_constraint-Yields ts =
    let Q : Constraint → List Token → Type 0 = IsWritten ts in
    Yields-bind _ Q (expect validity ts) _ (expect-Yields validity ts refl) λ _ t₁ e₁.
      Yields-bind _ Q (expect l_paren t₁) _ (expect-Yields l_paren t₁ refl) λ _ t₂ e₂.
        Yields-bind _ Q (parse_name t₂) _ (parse_name-Yields t₂) λ n t₃ e₃.
          Yields-bind _ Q (expect r_paren t₃) _ (expect-Yields r_paren t₃ refl) λ _ t₄ e₄.
            Yields-bind _ Q (parse_param t₄) _ (parse_param-Yields t₄) λ p t₅ (q, e₅).
              Yields-bind _ Q (expect l_brace t₅) _ (expect-Yields l_brace t₅ refl) λ _ t₆ e₆.
                Yields-imp _ Q (parse_body n p t₆) (parse_body-Yields n p t₆) λ c rest w. (
                  record { name = n; quoted = q; param = p; requires = c.requires; clause = w.0.0 },
                  cc (w.0.1),
                  Constraint-path w.0.2 w.1 w.2,
                )

-- The loop's result: what is left begins with the end of the tokens.
abbrev pub IsWrittenAll : List Token → Result (List Constraint) → Type 0
IsWrittenAll ts (ok cs) =
    (ks : List Concrete) × (rest : List Token) × (ts ≡ program_tokens ks rest)
    × (current rest ≡ eof)
    × (cs ≡ map abstract_of ks)
IsWrittenAll ts (err e) = Unit
IsWrittenAll ts no_fuel = ⊥

IsWrittenAll-cons :
    (ts t₁ : List Token) (k : Concrete) (c : Constraint) (r : Result (List Constraint))
    → ts ≡ constraint_tokens k t₁
    → c ≡ abstract_of k
    → IsWrittenAll t₁ r
    → IsWrittenAll ts (elim r [ ok cs ↦ ok (c ∷ cs) | err e ↦ err e | no_fuel ↦ no_fuel ])
IsWrittenAll-cons ts t₁ k c (ok cs) e a (ks, rest, e', end, q) = (k ∷ ks, rest, cc, end, cc)
IsWrittenAll-cons ts t₁ k c (err x) e a h = tt
IsWrittenAll-cons ts t₁ k c no_fuel e a h = h

length-constraint_tokens :
    (k : Concrete) (ts : List Token) → length ts < length (constraint_tokens k ts)
length-constraint_tokens k ts = omega (
  arith,
  length-requires_tokens k.requires (clause_tokens k.clause (r_brace ∷ ts)),
  length-clause_tokens k.clause (r_brace ∷ ts),
)

IsWrittenAll-step :
    (ts : List Token) (next : List Token → Result (List Constraint))
    (r : Result (Constraint × List Token))
    → Yields (IsWritten ts) r
    → ((t₁ : List Token) → length t₁ < length ts → IsWrittenAll t₁ (next t₁))
    → IsWrittenAll ts (elim r [
      | ok (c, t₁) ↦ elim (next t₁) [ ok cs ↦ ok (c ∷ cs) | err e ↦ err e | no_fuel ↦ no_fuel ]
      | err e ↦ err e
      | no_fuel ↦ no_fuel
    ])
unfolding IsWritten
IsWrittenAll-step ts next (ok (c, t₁)) (k, e, a) ih =
    IsWrittenAll-cons ts t₁ k c (next t₁) e a
      (ih t₁ (omega (arith, ap length e, length-constraint_tokens k t₁)))
IsWrittenAll-step ts next (err x) h ih = tt
IsWrittenAll-step ts next no_fuel h ih = h

parse_loop-IsWrittenAll :
    (fuel : ℕ) (ts : List Token) → length ts < fuel → IsWrittenAll ts (parse_loop fuel ts)
unfolding parse_loop
parse_loop-IsWrittenAll zero ts h = absurd (omega arith)
parse_loop-IsWrittenAll (suc fuel) ts h =
    if_intro (IsWrittenAll ts) (at eof ts) (λ end. ([], ts, refl, at_eof ts end, refl))
      (λ go_on.
        IsWrittenAll-step ts (parse_loop fuel) (parse_constraint ts) (parse_constraint-Yields ts)
          λ t₁ lt. parse_loop-IsWrittenAll fuel t₁ (omega arith))

-- The parser ends within its fuel, and what it accepts is the text of concrete constraints, up to the
-- end of the tokens, whose abstract constraints are the program.
abbrev pub IsParsed : List Token → Result ConstraintProgram → Type 0
IsParsed ts (ok p) = IsWrittenAll ts (ok p.constraints)
IsParsed ts (err e) = Unit
IsParsed ts no_fuel = ⊥

pub parse-IsParsed : (ts : List Token) → IsParsed ts (parse ts)
unfolding parse
parse-IsParsed ts =
    lift (parse_loop (suc (length ts)) ts)
      (parse_loop-IsWrittenAll (suc (length ts)) ts (omega arith))
  where
    lift :
        (r : Result (List Constraint))
        → IsWrittenAll ts r
        → IsParsed ts (elim r [
          | ok cs ↦ ok (record { constraints = cs })
          | err e ↦ err e
          | no_fuel ↦ no_fuel
        ])
    lift (ok cs) h = h
    lift (err e) h = tt
    lift no_fuel h = h
