-- ===== src/Constraints/Xslt/Machine.antt =====
-- `FormalizationMachine` of rust/crates/hyperkitty-constraints/src/xslt_processor.rs. An operation
-- that changes the machine gives the new machine with its result.
pub mod Status
pub mod Correspondence
pub mod Program
pub mod Sound
pub mod Validate
pub mod Keep
pub mod KeepStatus
pub mod Reachable
pub mod Iterations
pub mod Totals
use hyperkitty_constraint_ds.Prelude.{
  ℕ, ◌+◌, ◌-◌, suc, zero, Text, codes, Bool, true, false, ◌&&◌, ◌||◌, Option, none, some, List, [],
  ◌∷◌, ◌++◌, map, length, any, all, text_eq, if◌then◌else◌,
}
use hyperkitty_constraint_ds.Prelude.Decimal.{decimal}
use hyperkitty_constraint_ds.Core.{Result, ok, err, record_not_found}
use hyperkitty_constraint_ds.Constraints.Xslt.Kinds.{
  ProverStatus, verified, CorrespondenceStatus, unresolved, validated,
}
use hyperkitty_constraint_ds.Constraints.Xslt.Registry.{
  Invariant, InvariantRegistry, new_registry, add_invariant,
}
use hyperkitty_constraint_ds.Constraints.Xslt.Artifacts.{
  ExecutionSchedule, default_schedule, ProverArtifact, new_artifact, CorrespondenceObligation,
  AgdaIterationObligation, iteration_transform_name,
}

pub record FormalizationMachine : Type 0 where
  pub project_name : Text
  pub organization : Text
  pub stylesheet_version : Text
  pub execution_policy : Text
  pub formalization_order : Text
  pub agda_iteration_multiplicity : ℕ
  pub strict_mode : Bool
  pub registry : InvariantRegistry
  pub hol_artifacts : List ProverArtifact
  pub lean_artifacts : List ProverArtifact
  pub agda_artifacts : List ProverArtifact
  pub correspondences : List CorrespondenceObligation
  pub agda_iterations : List AgdaIterationObligation
  pub schedule : ExecutionSchedule

unfoldable pub new_machine : Text → Text → Text → ℕ → FormalizationMachine
unfolding new_registry default_schedule
new_machine project organization order multiplicity = record {
  project_name = project;
  organization = organization;
  stylesheet_version = codes "1.0.0";
  execution_policy = codes "PARSE_INVERT_FORMALIZE_VERIFY_REPEAT";
  formalization_order = order;
  agda_iteration_multiplicity = multiplicity;
  strict_mode = true;
  registry = new_registry project organization order multiplicity;
  hol_artifacts = [];
  lean_artifacts = [];
  agda_artifacts = [];
  correspondences = [];
  agda_iterations = [];
  schedule = default_schedule;
}

unfoldable pub register_invariant : FormalizationMachine → Invariant → FormalizationMachine
unfolding add_invariant
register_invariant m i = record m { registry = add_invariant m.registry i }

abbrev pub hol_id : Text → Text
hol_id invariant_id = codes "hol-" ++ invariant_id

abbrev pub lean_id : Text → Text
lean_id invariant_id = codes "lean-" ++ invariant_id

abbrev pub agda_id : Text → Text
agda_id invariant_id = codes "agda-" ++ invariant_id

unfoldable pub emit_hol_artifact :
    FormalizationMachine → Text → Text → Text → FormalizationMachine × Result ProverArtifact
unfolding new_artifact
emit_hol_artifact m invariant_id hol_type source_code =
    let blank : ProverArtifact =
      new_artifact (codes "HOL") invariant_id (hol_id invariant_id) source_code in
    let artifact : ProverArtifact = record blank { hol_type = some hol_type } in
    (record m { hol_artifacts = m.hol_artifacts ++ artifact ∷ [] }, ok artifact)

unfoldable pub emit_lean_artifact :
    FormalizationMachine → Text → Text → Text → FormalizationMachine × Result ProverArtifact
unfolding new_artifact
emit_lean_artifact m invariant_id lean_type source_code =
    let blank : ProverArtifact =
      new_artifact (codes "Lean4") invariant_id (lean_id invariant_id) source_code in
    let artifact : ProverArtifact = record blank { lean_type = some lean_type } in
    (record m { lean_artifacts = m.lean_artifacts ++ artifact ∷ [] }, ok artifact)

unfoldable pub emit_agda_artifact :
    FormalizationMachine → Text → Text → Text → FormalizationMachine × Result ProverArtifact
unfolding new_artifact
emit_agda_artifact m invariant_id agda_type source_code =
    let blank : ProverArtifact =
      new_artifact (codes "Agda") invariant_id (agda_id invariant_id) source_code in
    let artifact : ProverArtifact = record blank { agda_type = some agda_type } in
    (record m { agda_artifacts = m.agda_artifacts ++ artifact ∷ [] }, ok artifact)

-- The obligation that `create_hol_lean_correspondence` pushes.
unfoldable pub hol_lean_obligation : Text → CorrespondenceObligation
hol_lean_obligation invariant_id = record {
  invariant_id = invariant_id;
  source_prover = codes "HOL";
  target_prover = codes "Lean4";
  source_artifact_id = hol_id invariant_id;
  target_artifact_id = lean_id invariant_id;
  required_statement =
      codes "HOL semantics and Lean semantics preserve canonical normalized predicate.";
  status = unresolved;
}

-- The obligation that `create_lean_agda_correspondence` pushes.
unfoldable pub lean_agda_obligation : Text → CorrespondenceObligation
lean_agda_obligation invariant_id = record {
  invariant_id = invariant_id;
  source_prover = codes "Lean4";
  target_prover = codes "Agda";
  source_artifact_id = lean_id invariant_id;
  target_artifact_id = agda_id invariant_id;
  required_statement =
      codes "Lean semantics and Agda semantics preserve normalized predicate tree.";
  status = unresolved;
}

abbrev push_obligation : FormalizationMachine → CorrespondenceObligation → FormalizationMachine
push_obligation m c = record m { correspondences = m.correspondences ++ c ∷ [] }

unfoldable pub create_hol_lean_correspondence :
    FormalizationMachine → Text → FormalizationMachine × Result (Unit {0})
unfolding hol_lean_obligation
create_hol_lean_correspondence m invariant_id =
    (push_obligation m (hol_lean_obligation invariant_id), ok tt)

unfoldable pub create_lean_agda_correspondence :
    FormalizationMachine → Text → FormalizationMachine × Result (Unit {0})
unfolding lean_agda_obligation
create_lean_agda_correspondence m invariant_id =
    (push_obligation m (lean_agda_obligation invariant_id), ok tt)

-- `format!("{}_iter_{}", invariant_id, index)`
abbrev pub iteration_name : Text → ℕ → Text
iteration_name invariant_id index = invariant_id ++ codes "_iter_" ++ decimal index

unfoldable pub iteration_obligation : Text → ℕ → AgdaIterationObligation
unfolding iteration_transform_name
iteration_obligation invariant_id index = record {
  invariant_id = invariant_id;
  index = index;
  transform_name = iteration_transform_name index;
  source_invariant = iteration_name invariant_id (index - 1);
  derived_invariant = iteration_name invariant_id index;
}

-- The loop of `generate_agda_iterations` from an index, for as many as are left.
unfoldable pub iterations_from : Text → ℕ → ℕ → List AgdaIterationObligation
unfolding iteration_obligation
iterations_from invariant_id index zero = []
iterations_from invariant_id index (suc left) =
    iteration_obligation invariant_id index ∷ iterations_from invariant_id (index + 1) left

unfoldable pub generate_agda_iterations :
    FormalizationMachine → Text → FormalizationMachine × Result (Unit {0})
unfolding iterations_from
generate_agda_iterations m invariant_id = (
  record m {
    agda_iterations =
        m.agda_iterations ++ iterations_from invariant_id 1 m.agda_iteration_multiplicity;
  },
  ok tt,
)
