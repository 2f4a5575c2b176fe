-- ===== src/Constraints/Parser.antt =====
-- `Parser` of rust/crates/hyperkitty-constraints/src/parser.rs. The tokens from `pos`
-- on stand for `tokens` and `pos`.
pub mod Clauses
pub mod Complete
pub mod Exact
pub mod Sound
pub mod Steps
use hyperkitty_constraint_ds.Prelude.{
  ℕ, zero, suc, Text, String, Bool, List, [], ◌∷◌, length, ◌==◌, ◌||◌, if◌then◌else◌,
}
use hyperkitty_constraint_ds.Core.{
  Arg, variant, variant_of, Error, syntax_error, literal, Result, ok, err, no_fuel,
}
use hyperkitty_constraint_ds.Constraints.Unicode.{Unicode}
use hyperkitty_constraint_ds.Constraints.Token.{
  Token, validity, require, deny, otherwise, reject, accept, ident, number, string, l_paren,
  r_paren, l_brace, r_brace, semicolon, colon, comma, arrow, eof,
}
use hyperkitty_constraint_ds.Constraints.Lexer.{tokenize}
use hyperkitty_constraint_ds.Constraints.Ast.{
  OtherwiseAction, Requirement, predicate, check, Constraint, ConstraintProgram,
}

-- `std::mem::discriminant` of a token. For a token that holds nothing it decides `==` too.
abbrev pub discriminant : Token → ℕ
discriminant validity = 0
discriminant require = 1
discriminant deny = 2
discriminant otherwise = 3
discriminant reject = 4
discriminant accept = 5
discriminant (ident s) = 6
discriminant (number s) = 7
discriminant (string s) = 8
discriminant l_paren = 9
discriminant r_paren = 10
discriminant l_brace = 11
discriminant r_brace = 12
discriminant semicolon = 13
discriminant colon = 14
discriminant comma = 15
discriminant arrow = 16
discriminant eof = 17

-- The derived `Debug` of a token, as an argument of `format!`.
abbrev pub debug : Token → Arg
debug validity = variant "Validity"
debug require = variant "Require"
debug deny = variant "Deny"
debug otherwise = variant "Otherwise"
debug reject = variant "Reject"
debug accept = variant "Accept"
debug (ident s) = variant_of "Ident" s
debug (number s) = variant_of "Number" s
debug (string s) = variant_of "String" s
debug l_paren = variant "LParen"
debug r_paren = variant "RParen"
debug l_brace = variant "LBrace"
debug r_brace = variant "RBrace"
debug semicolon = variant "Semicolon"
debug colon = variant "Colon"
debug comma = variant "Comma"
debug arrow = variant "Arrow"
debug eof = variant "Eof"

abbrev pub expected : Token → Token → Error
expected t got =
    syntax_error (record { format = "Expected {:?}, got {:?}"; args = debug t ∷ debug got ∷ [] })

abbrev pub complaint : String → Error
complaint s = syntax_error (literal s)

abbrev pub current : List Token → Token
current [] = eof
current (t ∷ ts) = t

abbrev pub advance : List Token → List Token
advance [] = []
advance (t ∷ ts) = ts

-- `self.current() == t`, for a token `t` that holds nothing.
abbrev pub at : Token → List Token → Bool
at t ts = discriminant (current ts) == discriminant t

-- A method of the parser gives its result and the tokens left.
abbrev pub Parse : Type 0 → Type 0
Parse A = List Token → Result (A × List Token)

infixl 5 ◌>>=◌ ◌>>◌
abbrev pub ◌>>=◌ : {A B : Type 0} → Parse A → (A → Parse B) → Parse B
◌>>=◌ m f ts = elim (m ts) [ ok (a, rest) ↦ f a rest | err e ↦ err e | no_fuel ↦ no_fuel ]

abbrev pub ◌>>◌ : {B : Type 0} → Parse (Unit {0}) → Parse B → Parse B
m >> k = m >>= λ _. k

abbrev pub pure : {A : Type 0} → A → Parse A
pure a ts = ok (a, ts)

unfoldable pub expect : Token → Parse (Unit {0})
expect t ts =
    if discriminant (current ts) == discriminant t
    then ok (tt, advance ts)
    else err (expected t (current ts))

-- `match self.current()` for the name of a constraint.
unfoldable pub parse_name : Parse Text
parse_name ts = elim (current ts) [
  | ident s ↦ ok (s, advance ts)
  | _ ↦ err (complaint "Expected constraint name")
]

-- `match self.current()` for the parameter.
unfoldable pub parse_param : Parse Text
parse_param ts = elim (current ts) [
  | ident s ↦ ok (s, advance ts)
  | string s ↦ ok (s, advance ts)
  | _ ↦ err (complaint "Expected constraint parameter")
]

-- Behind the identifier `name` of a requirement.
unfoldable pub parse_call : Text → Parse Requirement
parse_call name ts =
    if at l_paren ts
    then (do expect r_paren; pure (check name)) (advance ts)
    else ok (predicate name, ts)

unfoldable pub parse_requirement : Parse Requirement
unfolding parse_call expect
parse_requirement ts = elim (current ts) [
  | ident s ↦ parse_call s (advance ts)
  | _ ↦ err (complaint "Expected requirement predicate or check")
]

-- The loop over the `require` statements, on fuel for the tokens left.
unfoldable pub parse_requires : ℕ → Parse (List Requirement)
parse_requires zero ts = no_fuel
parse_requires (suc fuel) ts =
    let more : Parse (List Requirement) = (do
      expect require
      r ← parse_requirement
      expect semicolon
      rs ← parse_requires fuel
      pure (r ∷ rs)) in
    if at otherwise ts || at r_brace ts then ok ([], ts) else more ts

unfoldable pub parse_action : Parse OtherwiseAction
parse_action ts = elim (current ts) [
  | reject ↦ ok (OtherwiseAction.reject, advance ts)
  | accept ↦ ok (OtherwiseAction.accept, advance ts)
  | _ ↦ err (complaint "Expected 'reject' or 'accept' after 'otherwise'")
]

-- The optional `otherwise` clause. A constraint is made with `Reject`.
unfoldable pub parse_otherwise : Parse OtherwiseAction
unfolding parse_action
parse_otherwise ts =
    if at otherwise ts
    then (do action ← parse_action; expect semicolon; pure action) (advance ts)
    else ok (OtherwiseAction.reject, ts)

unfoldable pub parse_body : Text → Text → Parse Constraint
parse_body name param ts =
    (do
      requires ← parse_requires (suc (length ts))
      action ← parse_otherwise
      expect r_brace
      pure (record { name = name; param = param; requires = requires; otherwise = action }))
      ts

unfoldable pub parse_constraint : Parse Constraint
unfolding expect parse_name parse_param parse_body
parse_constraint = do
  expect validity
  expect l_paren
  name ← parse_name
  expect r_paren
  param ← parse_param
  expect l_brace
  parse_body name param

-- The loop of `parse`, on fuel for the tokens left.
unfoldable pub parse_loop : ℕ → List Token → Result (List Constraint)
parse_loop zero ts = no_fuel
parse_loop (suc fuel) ts =
    let more : Result (List Constraint) = elim (parse_constraint ts) [
      | ok (c, rest) ↦ elim (parse_loop fuel rest) [
        | ok cs ↦ ok (c ∷ cs)
        | err e ↦ err e
        | no_fuel ↦ no_fuel
      ]
      | err e ↦ err e
      | no_fuel ↦ no_fuel
    ] in
    if at eof ts then ok [] else more

unfoldable pub parse : List Token → Result ConstraintProgram
unfolding parse_loop
parse ts = elim (parse_loop (suc (length ts)) ts) [
  | ok cs ↦ ok (record { constraints = cs })
  | err e ↦ err e
  | no_fuel ↦ no_fuel
]
