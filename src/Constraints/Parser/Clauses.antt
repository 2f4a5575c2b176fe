-- ===== src/Constraints/Parser/Clauses.antt =====
-- The parts of a constraint that are parsed were written by the grammar.
use hyperkitty_constraint_ds.Prelude.{
  ℕ, zero, suc, ◌≤◌, ◌<◌, ◌≡◌, ◌≢◌, refl, ap, Text, Bool, true, false, ◌||◌, Option, none, some,
  List, [], ◌∷◌, length, arith, if_intro,
}
use hyperkitty_constraint_ds.Core.{Result, ok, err, no_fuel}
use hyperkitty_constraint_ds.Constraints.Token.{
  Token, require, otherwise, reject, accept, ident, string, l_paren, r_paren, r_brace, semicolon,
}
use hyperkitty_constraint_ds.Constraints.Ast.{OtherwiseAction, Requirement, predicate, check}
use hyperkitty_constraint_ds.Constraints.Grammar.{
  action_of, requirement_tokens, requires_tokens, action_token, clause_tokens, param_token,
}
use hyperkitty_constraint_ds.Constraints.Parser.Steps.{IsPlain, at-eq, expect-eq-ok}
use hyperkitty_constraint_ds.Constraints.Parser.{
  Parse, at, expect, parse_name, parse_param, parse_call, parse_requirement, parse_requires,
  parse_action, parse_otherwise,
}

-- A result meets `Q` if it is a success, and it is no run out of fuel.
abbrev pub Yields : {A : Type 0} → (A → List Token → Type 0) → Result (A × List Token) → Type 0
Yields Q (ok (a, rest)) = Q a rest
Yields Q (err e) = Unit
Yields Q no_fuel = ⊥

pub Yields-bind :
    {A B : Type 0} (Q : A → List Token → Type 0) (R : B → List Token → Type 0)
    (r : Result (A × List Token)) (f : A → Parse B)
    → Yields Q r
    → ((a : A) (rest : List Token) → Q a rest → Yields R (f a rest))
    → Yields R (elim r [ ok (a, rest) ↦ f a rest | err e ↦ err e | no_fuel ↦ no_fuel ])
Yields-bind Q R (ok (a, rest)) f h k = k a rest h
Yields-bind Q R (err e) f h k = tt
Yields-bind Q R no_fuel f h k = h

pub Yields-imp :
    {A : Type 0} (Q R : A → List Token → Type 0) (r : Result (A × List Token))
    → Yields Q r
    → ((a : A) (rest : List Token) → Q a rest → R a rest)
    → Yields R r
Yields-imp Q R (ok (a, rest)) h k = k a rest h
Yields-imp Q R (err e) h k = tt
Yields-imp Q R no_fuel h k = h

expect-ne-no_fuel : (k : Token) (ts : List Token) → expect k ts ≢ no_fuel
unfolding expect
expect-ne-no_fuel k ts h = ground arith

pub expect-Yields :
    (k : Token) (ts : List Token) → IsPlain k → Yields (λ _ rest. ts ≡ k ∷ rest) (expect k ts)
expect-Yields k ts p = go (expect k ts) refl
  where
    go : (r : Result (Unit {0} × List Token)) → expect k ts ≡ r → Yields (λ _ rest. ts ≡ k ∷ rest) r
    go (ok (x, rest)) e = expect-eq-ok k ts p e
    go (err e) q = tt
    go no_fuel q = absurd (expect-ne-no_fuel k ts q)

pub parse_name-Yields : (ts : List Token) → Yields (λ s rest. ts ≡ ident s ∷ rest) (parse_name ts)
unfolding parse_name
parse_name-Yields [] = tt
parse_name-Yields (ident s ∷ ts) = refl
parse_name-Yields (t ∷ ts) = tt

unfoldable pub IsParam : List Token → Text → List Token → Type 0
IsParam ts s rest = (q : Bool) × (ts ≡ param_token q s ∷ rest)

pub parse_param-Yields : (ts : List Token) → Yields (IsParam ts) (parse_param ts)
unfolding parse_param IsParam
parse_param-Yields [] = tt
parse_param-Yields (ident s ∷ ts) = (false, refl)
parse_param-Yields (string s ∷ ts) = (true, refl)
parse_param-Yields (t ∷ ts) = tt

parse_call-Yields :
    (s : Text) (ts : List Token)
    → Yields (λ r rest. ident s ∷ ts ≡ requirement_tokens r rest) (parse_call s ts)
unfolding parse_call
parse_call-Yields s [] = refl
parse_call-Yields s (t ∷ ts) =
    let Q : Requirement → List Token → Type 0 =
      λ r rest. ident s ∷ t ∷ ts ≡ requirement_tokens r rest in
    if_intro (Yields Q) (at l_paren (t ∷ ts))
      (λ h.
        let e : t ≡ l_paren = at-eq l_paren (t ∷ ts) refl h in
        Yields-bind _ Q (expect r_paren ts) _ (expect-Yields r_paren ts refl) λ x rest q. cc)
      (λ h. refl)

parse_requirement-Yields :
    (ts : List Token) → Yields (λ r rest. ts ≡ requirement_tokens r rest) (parse_requirement ts)
unfolding parse_requirement
parse_requirement-Yields [] = tt
parse_requirement-Yields (ident s ∷ ts) = parse_call-Yields s ts
parse_requirement-Yields (t ∷ ts) = tt

length-requirement_tokens :
    (r : Requirement) (ts : List Token) → length ts ≤ length (requirement_tokens r ts)
length-requirement_tokens (predicate s) ts = omega arith
length-requirement_tokens (check s) ts = omega arith

pub parse_requires-Yields :
    (fuel : ℕ) (ts : List Token)
    → length ts < fuel
    → Yields (λ rs rest. ts ≡ requires_tokens rs rest) (parse_requires fuel ts)
unfolding parse_requires
parse_requires-Yields zero ts h = absurd (omega arith)
parse_requires-Yields (suc fuel) ts h =
    let Q : List Requirement → List Token → Type 0 = λ rs rest. ts ≡ requires_tokens rs rest in
    if_intro (Yields Q) (at otherwise ts || at r_brace ts) (λ stop. refl)
      λ go_on. Yields-bind _ Q (expect require ts) _ (expect-Yields require ts refl) λ _ t₁ e₁.
        Yields-bind _ Q (parse_requirement t₁) _ (parse_requirement-Yields t₁) λ r t₂ e₂.
          Yields-bind _ Q (expect semicolon t₂) _ (expect-Yields semicolon t₂ refl) λ _ t₃ e₃.
            Yields-bind _ Q (parse_requires fuel t₃) _
              (parse_requires-Yields fuel t₃ (
                omega (
                  arith,
                  ap length e₁,
                  ap length e₂,
                  ap length e₃,
                  length-requirement_tokens r t₂,
                )))
              λ rs rest e₄. cc

unfoldable pub IsClause : List Token → OtherwiseAction → List Token → Type 0
IsClause ts a rest = (o : Option OtherwiseAction) × (ts ≡ clause_tokens o rest) × (a ≡ action_of o)

parse_action-Yields :
    (ts : List Token) → Yields (λ a rest. ts ≡ action_token a ∷ rest) (parse_action ts)
unfolding parse_action
parse_action-Yields [] = tt
parse_action-Yields (reject ∷ ts) = refl
parse_action-Yields (accept ∷ ts) = refl
parse_action-Yields (t ∷ ts) = tt

pub parse_otherwise-Yields : (ts : List Token) → Yields (IsClause ts) (parse_otherwise ts)
unfolding parse_otherwise IsClause
parse_otherwise-Yields [] = (none, refl, refl)
parse_otherwise-Yields (t ∷ ts) =
    if_intro (Yields (IsClause (t ∷ ts))) (at otherwise (t ∷ ts))
      (λ h.
        let e : t ≡ otherwise = at-eq otherwise (t ∷ ts) refl h in
        Yields-bind _ (IsClause (t ∷ ts)) (parse_action ts) _ (parse_action-Yields ts) λ a t₁ e₁.
          Yields-bind _ (IsClause (t ∷ ts)) (expect semicolon t₁) _
            (expect-Yields semicolon t₁ refl) λ _ rest e₂. (some a, cc, refl))
      (λ h. (none, refl, refl))
