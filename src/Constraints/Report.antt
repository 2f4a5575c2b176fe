-- ===== src/Constraints/Report.antt =====
-- `Evaluator::report` of rust/crates/hyperkitty-constraints/src/evaluator.rs. `{:?}` of a string is
-- Rust's, and a parameter.
use hyperkitty_constraint_ds.Prelude.{
  Text, codes, List, [], ◌∷◌, ◌++◌, length, replicate, if◌then◌else◌,
}
use hyperkitty_constraint_ds.Prelude.Decimal.{decimal}
use hyperkitty_constraint_ds.Constraints.Ast.{
  OtherwiseAction, reject, accept, Requirement, predicate, check, Constraint, Bindings,
  evaluate_constraint,
}
use hyperkitty_constraint_ds.Constraints.Evaluator.{Evaluator, count_passing}

unfoldable pub otherwise_text : OtherwiseAction → Text
otherwise_text reject = codes "Reject"
otherwise_text accept = codes "Accept"

abbrev rule_line : Text
rule_line = replicate 60 b'=' ++ b'\n' ∷ []

module _ (debug_text : Text → Text) where
  unfoldable pub requirement_text : Requirement → Text
  requirement_text (predicate name) = codes "Predicate(" ++ debug_text name ++ codes ")"
  requirement_text (check name) = codes "Check(" ++ debug_text name ++ codes ")"

  unfoldable pub requirement_lines : List Requirement → Text
  unfolding requirement_text
  requirement_lines [] = []
  requirement_lines (r ∷ rs) =
      codes "      - " ++ requirement_text r ++ codes "\n" ++ requirement_lines rs

  -- The loop over the constraints left.
  unfoldable pub constraint_lines : Bindings → List Constraint → Text
  unfolding evaluate_constraint otherwise_text requirement_lines
  constraint_lines b [] = []
  constraint_lines b (c ∷ cs) =
      codes "  ["
      ++ (if evaluate_constraint b c then codes "PASS" else codes "FAIL")
      ++ codes "] "
      ++ c.name
      ++ codes ": "
      ++ c.param
      ++ codes " (otherwise: "
      ++ otherwise_text c.otherwise
      ++ codes ")\n"
      ++ requirement_lines c.requires
      ++ constraint_lines b cs

  unfoldable pub report : Evaluator → Bindings → Text
  unfolding constraint_lines count_passing decimal
  report e b =
      codes "Constraint Evaluation Report ("
      ++ decimal (length e.program.constraints)
      ++ codes " constraints)\n"
      ++ rule_line
      ++ constraint_lines b e.program.constraints
      ++ rule_line
      ++ codes "Overall: "
      ++ decimal (count_passing e b)
      ++ codes "/"
      ++ decimal (length e.program.constraints)
      ++ codes " constraints passed\n"
