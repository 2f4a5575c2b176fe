-- ===== src/Constraints/Xslt/Machine/Reachable.antt =====
-- Every machine that the operations of rust/crates/hyperkitty-constraints/src/xslt_processor.rs
-- build from a new one, in any order, is sound.
use hyperkitty_constraint_ds.Prelude.{ℕ, ◌≢◌, ◌⊎◌, Text, List, [], ◌∷◌, All}
use hyperkitty_constraint_ds.Prelude.Maps.{text_key}
use hyperkitty_constraint_ds.Constraints.Xslt.Kinds.{ProverStatus, validated}
use hyperkitty_constraint_ds.Constraints.Xslt.Registry.{Invariant}
use hyperkitty_constraint_ds.Constraints.Xslt.Machine.{
  FormalizationMachine, new_machine, register_invariant, emit_hol_artifact, emit_lean_artifact,
  emit_agda_artifact, create_hol_lean_correspondence, create_lean_agda_correspondence,
  generate_agda_iterations,
}
use hyperkitty_constraint_ds.Constraints.Xslt.Machine.Status.{
  record_hol_status, record_lean_status, record_agda_status,
}
use hyperkitty_constraint_ds.Constraints.Xslt.Machine.Correspondence.{validate_correspondence}
use hyperkitty_constraint_ds.Constraints.Xslt.Machine.Sound.{IsSound, IsMatched}
use hyperkitty_constraint_ds.Constraints.Xslt.Machine.Validate.{validated-IsMatched}
use hyperkitty_constraint_ds.Constraints.Xslt.Machine.Keep.{
  register_invariant-IsSound, emit_hol_artifact-IsSound, emit_lean_artifact-IsSound,
  emit_agda_artifact-IsSound, create_hol_lean_correspondence-IsSound,
  create_lean_agda_correspondence-IsSound, generate_agda_iterations-IsSound,
}
use hyperkitty_constraint_ds.Constraints.Xslt.Machine.KeepStatus.{
  record_hol_status-IsSound, record_lean_status-IsSound, record_agda_status-IsSound,
  validate_correspondence-IsSound,
}

-- The calls of the machine's operations that change it.
pub data Operation : Type 0 where
  register : Invariant → Operation
  emit_hol emit_lean emit_agda : Text → Text → Text → Operation
  create_hol_lean create_lean_agda generate validate : Text → Operation
  record_hol record_lean record_agda : Text → ProverStatus → Operation

unfoldable pub perform : FormalizationMachine → Operation → FormalizationMachine
unfolding register_invariant emit_hol_artifact emit_lean_artifact emit_agda_artifact
    create_hol_lean_correspondence create_lean_agda_correspondence generate_agda_iterations
    validate_correspondence record_hol_status record_lean_status record_agda_status
perform m (register i) = register_invariant m i
perform m (emit_hol id ty source) = (emit_hol_artifact m id ty source).0
perform m (emit_lean id ty source) = (emit_lean_artifact m id ty source).0
perform m (emit_agda id ty source) = (emit_agda_artifact m id ty source).0
perform m (create_hol_lean id) = (create_hol_lean_correspondence m id).0
perform m (create_lean_agda id) = (create_lean_agda_correspondence m id).0
perform m (generate id) = (generate_agda_iterations m id).0
perform m (validate id) = (validate_correspondence m id).0
perform m (record_hol id s) = (record_hol_status m id s).0
perform m (record_lean id s) = (record_lean_status m id s).0
perform m (record_agda id s) = (record_agda_status m id s).0

unfoldable pub run : FormalizationMachine → List Operation → FormalizationMachine
unfolding perform
run m [] = m
run m (o ∷ os) = run (perform m o) os

new_machine-IsSound :
    (project organization order : Text) (multiplicity : ℕ)
    → IsSound (new_machine project organization order multiplicity)
unfolding new_machine
new_machine-IsSound project organization order multiplicity = record {
  by_id = tt;
  one_entry = tt;
  hol = tt;
  lean = tt;
  agda = tt;
  known = tt;
  backed = tt;
}

perform-IsSound : (m : FormalizationMachine) (o : Operation) → IsSound m → IsSound (perform m o)
unfolding perform
perform-IsSound m (register i) s = register_invariant-IsSound m i s
perform-IsSound m (emit_hol id ty source) s = emit_hol_artifact-IsSound m id ty source s
perform-IsSound m (emit_lean id ty source) s = emit_lean_artifact-IsSound m id ty source s
perform-IsSound m (emit_agda id ty source) s = emit_agda_artifact-IsSound m id ty source s
perform-IsSound m (create_hol_lean id) s = create_hol_lean_correspondence-IsSound m id s
perform-IsSound m (create_lean_agda id) s = create_lean_agda_correspondence-IsSound m id s
perform-IsSound m (generate id) s = generate_agda_iterations-IsSound m id s
perform-IsSound m (validate id) s = validate_correspondence-IsSound m id s
perform-IsSound m (record_hol id t) s = record_hol_status-IsSound m id t s
perform-IsSound m (record_lean id t) s = record_lean_status-IsSound m id t s
perform-IsSound m (record_agda id t) s = record_agda_status-IsSound m id t s

run-IsSound : (m : FormalizationMachine) (os : List Operation) → IsSound m → IsSound (run m os)
unfolding run
run-IsSound m [] s = s
run-IsSound m (o ∷ os) s = run-IsSound (perform m o) os (perform-IsSound m o s)

-- A new machine is sound after any operations in any order: its registry has one entry per id,
-- under the id of its invariant; its artifacts are those of their prover, under the id that the
-- prover gives the invariant; its obligations go from HOL to Lean or from Lean to Agda, and the
-- validated ones have their artifacts.
pub run-new_machine :
    (project organization order : Text) (multiplicity : ℕ) (os : List Operation)
    → IsSound (run (new_machine project organization order multiplicity) os)
run-new_machine project organization order multiplicity os =
    run-IsSound (new_machine project organization order multiplicity) os
      (new_machine-IsSound project organization order multiplicity)

-- After any operations on a new machine, a validated obligation goes from HOL to Lean and both its
-- artifacts were emitted: an obligation from Lean to Agda is never validated.
pub run-validated :
    (project organization order : Text) (multiplicity : ℕ) (os : List Operation)
    → All
        (λ c.
          (c.status ≢ validated)
          ⊎ IsMatched (run (new_machine project organization order multiplicity) os) c)
        (run (new_machine project organization order multiplicity) os).correspondences
run-validated project organization order multiplicity os =
    validated-IsMatched (run (new_machine project organization order multiplicity) os)
      (run-new_machine project organization order multiplicity os)
