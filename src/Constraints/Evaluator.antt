-- ===== src/Constraints/Evaluator.antt =====
-- `Evaluator` of rust/crates/hyperkitty-constraints/src/evaluator.rs, but for its text `report`.
pub mod Laws
use hyperkitty_constraint_ds.Prelude.{ℕ, suc, Text, Bool, List, [], ◌∷◌, text_eq, if◌then◌else◌}
use hyperkitty_constraint_ds.Core.{Error, custom, text, Result, ok, err}
use hyperkitty_constraint_ds.Constraints.Ast.{
  Constraint, ConstraintProgram, Bindings, evaluate_constraint, evaluate_program,
}

pub record Evaluator : Type 0 where
  pub program : ConstraintProgram

unfoldable pub evaluate : Evaluator → Bindings → Result Bool
evaluate e b = ok (evaluate_program b e.program)

abbrev pub constraint_not_found : Text → Error
constraint_not_found name =
    custom (record { format = "Constraint not found: {}"; args = text name ∷ [] })

-- The loop of `evaluate_constraint` over the constraints left.
unfoldable pub evaluate_named : Text → Bindings → List Constraint → Result Bool
unfolding text_eq
evaluate_named name b [] = err (constraint_not_found name)
evaluate_named name b (c ∷ cs) =
    let rest = evaluate_named name b cs in
    if text_eq c.name name then ok (evaluate_constraint b c) else rest

unfoldable pub evaluate_by_name : Evaluator → Text → Bindings → Result Bool
unfolding evaluate_named
evaluate_by_name e name b = evaluate_named name b e.program.constraints

-- `filter(|c| c.evaluate(bindings)).count()`
unfoldable pub count_true : Bindings → List Constraint → ℕ
count_true b [] = 0
count_true b (c ∷ cs) =
    let rest = count_true b cs in if evaluate_constraint b c then suc rest else rest

unfoldable pub count_passing : Evaluator → Bindings → ℕ
unfolding count_true
count_passing e b = count_true b e.program.constraints
