-- ===== src/Constraints/Parser/Complete.antt =====
-- What is written by the grammar is parsed, and to the program that was written.
use hyperkitty_constraint_ds.Prelude.{
  ℕ, zero, suc, ◌+◌, ◌≤◌, ◌<◌, ◌≡◌, refl, ◌∙◌, Bool-cases, inl, inr, true, ◌||◌, Option, none, some,
  List, [], ◌∷◌, map, length, arith,
}
use hyperkitty_constraint_ds.Core.{ok}
use hyperkitty_constraint_ds.Constraints.Token.{Token, otherwise, r_brace, eof}
use hyperkitty_constraint_ds.Constraints.Ast.{OtherwiseAction, Requirement, predicate, check}
use hyperkitty_constraint_ds.Constraints.Grammar.{
  Concrete, action_of, abstract_of, requires_tokens, clause_tokens, constraint_tokens,
  program_tokens, body_tokens,
}
use hyperkitty_constraint_ds.Constraints.Parser.Steps.{bind-of-ok}
use hyperkitty_constraint_ds.Constraints.Parser.{
  current, at, expect, parse_requirement, parse_requires, parse_otherwise, parse_body,
  parse_constraint, parse_loop, parse,
}

parse_requires-tokens :
    (fuel : ℕ) (rs : List Requirement) (ts : List Token)
    → (at otherwise ts || at r_brace ts) ≡ true
    → length rs < fuel
    → parse_requires fuel (requires_tokens rs ts) ≡ ok (rs, ts)
unfolding parse_requires parse_requirement
parse_requires-tokens zero rs ts h lt = absurd (omega arith)
parse_requires-tokens (suc fuel) [] ts h lt = rw h
parse_requires-tokens (suc fuel) (predicate s ∷ rs) ts h lt =
    rw (parse_requires-tokens fuel rs ts h (omega arith))
parse_requires-tokens (suc fuel) (check s ∷ rs) ts h lt =
    rw (parse_requires-tokens fuel rs ts h (omega arith))

clause_stops :
    (o : Option OtherwiseAction) (ts : List Token)
    → (at otherwise (clause_tokens o (r_brace ∷ ts)) || at r_brace (clause_tokens o (r_brace ∷ ts)))
      ≡ true
clause_stops none ts = refl
clause_stops (some a) ts = refl

parse_otherwise-tokens :
    (o : Option OtherwiseAction) (ts : List Token)
    → parse_otherwise (clause_tokens o (r_brace ∷ ts)) ≡ ok (action_of o, r_brace ∷ ts)
unfolding parse_otherwise expect
parse_otherwise-tokens none ts = refl
parse_otherwise-tokens (some OtherwiseAction.reject) ts = refl
parse_otherwise-tokens (some OtherwiseAction.accept) ts = refl

pub length-requires_tokens :
    (rs : List Requirement) (ts : List Token)
    → length rs + length ts ≤ length (requires_tokens rs ts)
length-requires_tokens [] ts = omega arith
length-requires_tokens (predicate s ∷ rs) ts = omega (arith, length-requires_tokens rs ts)
length-requires_tokens (check s ∷ rs) ts = omega (arith, length-requires_tokens rs ts)

pub length-clause_tokens :
    (o : Option OtherwiseAction) (ts : List Token) → length ts ≤ length (clause_tokens o ts)
length-clause_tokens none ts = omega arith
length-clause_tokens (some a) ts = omega arith

parse_body-tokens :
    (c : Concrete) (ts : List Token)
    → parse_body c.name c.param (body_tokens c ts) ≡ ok (abstract_of c, ts)
unfolding parse_body expect
parse_body-tokens c ts =
    let stop = clause_tokens c.clause (r_brace ∷ ts) in
    let tokens = requires_tokens c.requires stop in
    bind-of-ok (parse_requires (suc (length tokens))) _ (
      parse_requires-tokens (suc (length tokens)) c.requires stop (clause_stops c.clause ts)
        (omega (arith, length-requires_tokens c.requires stop)))
    ∙ bind-of-ok parse_otherwise _ (parse_otherwise-tokens c.clause ts)

parse_constraint-tokens :
    (c : Concrete) (ts : List Token)
    → parse_constraint (constraint_tokens c ts) ≡ ok (abstract_of c, ts)
unfolding parse_constraint
parse_constraint-tokens c ts = elim (Bool-cases c.quoted) [
  | inl q ↦ rw q (parse_body-tokens c ts)
  | inr q ↦ rw q (parse_body-tokens c ts)
]

length-program_tokens :
    (cs : List Concrete) (ts : List Token) → length cs ≤ length (program_tokens cs ts)
length-program_tokens [] ts = omega arith
length-program_tokens (c ∷ cs) ts =
    let stop = clause_tokens c.clause (r_brace ∷ program_tokens cs ts) in
    omega (
      arith,
      length-program_tokens cs ts,
      length-clause_tokens c.clause (r_brace ∷ program_tokens cs ts),
      length-requires_tokens c.requires stop,
    )

parse_loop-tokens :
    (fuel : ℕ) (cs : List Concrete) (ts : List Token)
    → at eof ts ≡ true
    → length cs < fuel
    → parse_loop fuel (program_tokens cs ts) ≡ ok (map abstract_of cs)
unfolding parse_loop
parse_loop-tokens zero cs ts h lt = absurd (omega arith)
parse_loop-tokens (suc fuel) [] ts h lt = rw h
parse_loop-tokens (suc fuel) (c ∷ cs) ts h lt =
    rw (
      parse_constraint-tokens c (program_tokens cs ts),
      parse_loop-tokens fuel cs ts h (omega arith),
    )

pub parse-tokens :
    (cs : List Concrete) (ts : List Token)
    → current ts ≡ eof
    → parse (program_tokens cs ts) ≡ ok (record { constraints = map abstract_of cs })
unfolding parse
parse-tokens cs ts h =
    let looped =
      parse_loop-tokens (suc (length (program_tokens cs ts))) cs ts (rw h refl)
        (omega (arith, length-program_tokens cs ts)) in
    rw (looped, parse)
