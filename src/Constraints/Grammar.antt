-- ===== src/Constraints/Grammar.antt =====
-- The grammar of the constraint language in the doc of
-- rust/crates/hyperkitty-constraints/src/lib.rs, as the parser reads it: the `otherwise` clause may be
-- left out, and it ends in a semicolon. A concrete constraint has one way to be written in tokens.
use hyperkitty_constraint_ds.Prelude.{Text, Bool, true, false, Option, none, some, List, [], ◌∷◌}
use hyperkitty_constraint_ds.Constraints.Token.{
  Token, validity, require, otherwise, reject, accept, ident, string, l_paren, r_paren, l_brace,
  r_brace, semicolon,
}
use hyperkitty_constraint_ds.Constraints.Ast.{
  OtherwiseAction, Requirement, predicate, check, Constraint,
}

-- A constraint as it is written: whether its parameter is quoted, and its clause if it has one.
pub record Concrete : Type 0 where
  pub name : Text
  pub quoted : Bool
  pub param : Text
  pub requires : List Requirement
  pub clause : Option OtherwiseAction

abbrev pub action_of : Option OtherwiseAction → OtherwiseAction
action_of none = OtherwiseAction.reject
action_of (some a) = a

abbrev pub abstract_of : Concrete → Constraint
abstract_of c = record {
  name = c.name;
  param = c.param;
  requires = c.requires;
  otherwise = action_of c.clause;
}

abbrev pub requirement_tokens : Requirement → List Token → List Token
requirement_tokens (predicate s) ts = ident s ∷ ts
requirement_tokens (check s) ts = ident s ∷ l_paren ∷ r_paren ∷ ts

abbrev pub requires_tokens : List Requirement → List Token → List Token
requires_tokens [] ts = ts
requires_tokens (r ∷ rs) ts = require ∷ requirement_tokens r (semicolon ∷ requires_tokens rs ts)

abbrev pub action_token : OtherwiseAction → Token
action_token OtherwiseAction.reject = reject
action_token OtherwiseAction.accept = accept

abbrev pub clause_tokens : Option OtherwiseAction → List Token → List Token
clause_tokens none ts = ts
clause_tokens (some a) ts = otherwise ∷ action_token a ∷ semicolon ∷ ts

abbrev pub param_token : Bool → Text → Token
param_token true s = string s
param_token false s = ident s

abbrev pub body_tokens : Concrete → List Token → List Token
body_tokens c ts = requires_tokens c.requires (clause_tokens c.clause (r_brace ∷ ts))

abbrev pub constraint_tokens : Concrete → List Token → List Token
constraint_tokens c ts =
    validity
    ∷ l_paren
    ∷ ident c.name
    ∷ r_paren
    ∷ param_token c.quoted c.param
    ∷ l_brace
    ∷ body_tokens c ts

-- The tokens of a program, with `ts` behind them.
abbrev pub program_tokens : List Concrete → List Token → List Token
program_tokens [] ts = ts
program_tokens (c ∷ cs) ts = constraint_tokens c (program_tokens cs ts)
