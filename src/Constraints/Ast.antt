-- ===== src/Constraints/Ast.antt =====
-- rust/crates/hyperkitty-constraints/src/ast.rs: constraint programs and their evaluation.
-- `HashMap<String, bool>` is only read by `get`: it is the function from a name to its entry.
use hyperkitty_constraint_ds.Prelude.{
  Text, Bool, true, false, Option, none, some, List, [], ◌∷◌, ◌++◌, codes, not, text_eq, all,
  if◌then◌else◌,
}

pub data OtherwiseAction : Type 0 where
  reject accept : OtherwiseAction

pub data Requirement : Type 0 where
  predicate check : Text → Requirement

pub record Constraint : Type 0 where
  pub name : Text
  pub param : Text
  pub requires : List Requirement
  pub otherwise : OtherwiseAction

pub record ConstraintProgram : Type 0 where
  pub constraints : List Constraint

abbrev pub Bindings : Type 0
Bindings = Text → Option Bool

unfoldable pub new_program : ConstraintProgram
new_program = record { constraints = [] }

unfoldable pub add_constraint : ConstraintProgram → Constraint → ConstraintProgram
add_constraint p c = record { constraints = p.constraints ++ c ∷ [] }

unfoldable pub new_constraint : Text → Text → OtherwiseAction → Constraint
new_constraint n p o = record { name = n; param = p; requires = []; otherwise = o }

unfoldable pub add_requirement : Constraint → Requirement → Constraint
add_requirement c r = record c { requires = c.requires ++ r ∷ [] }

-- `bindings.get(name).copied().unwrap_or(false)`
abbrev pub bound : Bindings → Text → Bool
bound b name = elim (b name) [ none ↦ false | some v ↦ v ]

unfoldable pub evaluate_requirement : Bindings → Requirement → Bool
unfolding text_eq
evaluate_requirement b (predicate name) = bound b name
evaluate_requirement b (check name) =
    if text_eq name (codes "always_true")
    then true
    else if text_eq name (codes "always_false")
    then false
    else bound b name

abbrev pub is_accept : OtherwiseAction → Bool
is_accept accept = true
is_accept reject = false

-- The loop of `Constraint::evaluate` over the requirements left.
unfoldable pub evaluate_requires : Bindings → OtherwiseAction → List Requirement → Bool
unfolding evaluate_requirement
evaluate_requires b o [] = true
evaluate_requires b o (r ∷ rs) =
    let rest = evaluate_requires b o rs in
    if not (evaluate_requirement b r) then is_accept o else rest

unfoldable pub evaluate_constraint : Bindings → Constraint → Bool
unfolding evaluate_requires
evaluate_constraint b c = evaluate_requires b c.otherwise c.requires

unfoldable pub evaluate_program : Bindings → ConstraintProgram → Bool
unfolding evaluate_constraint
evaluate_program b p = all (evaluate_constraint b) p.constraints
