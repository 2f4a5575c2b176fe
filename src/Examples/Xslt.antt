-- ===== src/Examples/Xslt.antt =====
-- Concrete machines for the formalization of invariants.
use hyperkitty_constraint_ds.Prelude.{
  ◌≡◌, ◌≢◌, ◌⊎◌, ◌↔◌, refl, Text, true, some, List, [], ◌∷◌, codes, any, All,
}
use mathlib.Core.List.Perm
use hyperkitty_constraint_ds.Core.{ok}
use hyperkitty_constraint_ds.Constraints.Ast.{Bindings, ConstraintProgram}
use hyperkitty_constraint_ds.Constraints.Evaluator.{evaluate}
use hyperkitty_constraint_ds.Constraints.Xslt.Kinds.{negative, verified, prohibition, validated}
use hyperkitty_constraint_ds.Constraints.Xslt.Registry.{Invariant}
use hyperkitty_constraint_ds.Constraints.Xslt.Machine.{FormalizationMachine, new_machine}
use hyperkitty_constraint_ds.Constraints.Xslt.Machine.Status.{
  summary, RecordedAs, record_hol_status, record_lean_status, record_agda_status, record_status_lem,
}
use hyperkitty_constraint_ds.Constraints.Xslt.Machine.Correspondence.{
  is_about, validate_correspondence,
}
use hyperkitty_constraint_ds.Constraints.Xslt.Machine.Program.{
  to_constraint_program, IsMet, evaluate-to_constraint_program,
}
use hyperkitty_constraint_ds.Constraints.Xslt.Machine.Sound.{IsSound, IsMatched}
use hyperkitty_constraint_ds.Constraints.Xslt.Machine.Validate.{
  IsOtherOrMatched, validate_correspondence_iff,
}
use hyperkitty_constraint_ds.Constraints.Xslt.Machine.Reachable.{
  Operation, register, emit_hol, emit_lean, create_hol_lean, validate, generate, perform, run,
  run-new_machine, run-validated,
}
use hyperkitty_constraint_ds.Constraints.Xslt.Machine.Totals.{
  HasTotals, count_all, no_calls, summary-run,
}

abbrev no_loss : Invariant
no_loss = record {
  id = codes "no-loss";
  kind = prohibition;
  polarity = negative;
  normalized_expr = codes "loss = 0";
  inverted_expr = codes "loss > 0";
  source_class = codes "ledger";
}

abbrev operations : List Operation
operations =
    register no_loss
    ∷ emit_hol (codes "no-loss") (codes "bool") []
    ∷ emit_lean (codes "no-loss") (codes "Prop") []
    ∷ create_hol_lean (codes "no-loss")
    ∷ validate (codes "no-loss")
    ∷ generate (codes "no-loss")
    ∷ []

abbrev project : Text
project = codes "HyperKitty"

abbrev organization : Text
organization = codes "SnapKitty"

abbrev formalization_order : Text
formalization_order = codes "HOL,LEAN4,AGDA"

-- The machine after the operations.
built : FormalizationMachine
unfolding run
built = run (new_machine project organization formalization_order 20) operations

built-IsSound : IsSound built
unfolding built
built-IsSound = run-new_machine project organization formalization_order 20 operations

built-validates : (validate_correspondence built (codes "no-loss")).1 ≡ ok true
unfolding built perform validate_correspondence new_machine
built-validates = refl

all_met : Bindings
all_met name = some true

evaluate-to_constraint_program_example :
    (p : ConstraintProgram) × (to_constraint_program (λ entries. entries) built ≡ ok p)
    × ((evaluate (record { program = p }) all_met ≡ ok true)
        ↔ All (IsMet all_met) built.registry.invariants)
evaluate-to_constraint_program_example =
    evaluate-to_constraint_program (λ entries. entries) built all_met (λ entries. Perm.refl entries)

validate_correspondence_iff_example :
    ((validate_correspondence built (codes "no-loss")).1 ≡ ok true) ↔ (
      (any (is_about (codes "no-loss")) built.correspondences ≡ true)
      × All (IsOtherOrMatched built (codes "no-loss")) built.correspondences)
validate_correspondence_iff_example =
    validate_correspondence_iff built (codes "no-loss") built-IsSound

run-new_machine_example :
    IsSound (run (new_machine project organization formalization_order 20) operations)
run-new_machine_example = run-new_machine project organization formalization_order 20 operations

run-validated_example :
    All
      (λ c.
        (c.status ≢ validated)
        ⊎ IsMatched (run (new_machine project organization formalization_order 20) operations) c)
      (run (new_machine project organization formalization_order 20) operations).correspondences
run-validated_example = run-validated project organization formalization_order 20 operations

summary-run_example :
    HasTotals
      (count_all 20 no_calls operations)
      (summary (run (new_machine project organization formalization_order 20) operations))
summary-run_example = summary-run project organization formalization_order 20 operations

record_status_lem_example :
    RecordedAs
      (codes "hol-no-loss")
      verified
      built
      built.hol_artifacts
      (λ new. record built { hol_artifacts = new })
      (record_hol_status built (codes "hol-no-loss") verified)
    × RecordedAs
        (codes "hol-no-loss")
        verified
        built
        built.lean_artifacts
        (λ new. record built { lean_artifacts = new })
        (record_lean_status built (codes "hol-no-loss") verified)
    × RecordedAs
        (codes "hol-no-loss")
        verified
        built
        built.agda_artifacts
        (λ new. record built { agda_artifacts = new })
        (record_agda_status built (codes "hol-no-loss") verified)
record_status_lem_example = record_status_lem built (codes "hol-no-loss") verified
