-- ===== src/Constraints/Xslt/Artifacts.antt =====
-- `ExecutionSchedule`, `ProverArtifact` and the obligations of
-- rust/crates/hyperkitty-constraints/src/xslt_processor.rs.
use hyperkitty_constraint_ds.Prelude.{
  ℕ, Text, codes, Option, none, List, [], ◌∷◌, ◌==◌, if◌then◌else◌,
}
use hyperkitty_constraint_ds.Prelude.Maps.{HashMap}
use hyperkitty_constraint_ds.Constraints.Xslt.Kinds.{
  ProverStatus, generated_unverified, CorrespondenceStatus,
}

pub record ExecutionPhase : Type 0 where
  pub index : ℕ
  pub id : Text
  pub description : Text

pub record ExecutionSchedule : Type 0 where
  pub phases : List ExecutionPhase

abbrev phase : ℕ → Text → Text → ExecutionPhase
phase i name description = record { index = i; id = name; description = description }

unfoldable pub default_schedule : ExecutionSchedule
default_schedule = record {
  phases =
      phase 1 (codes "parse-source") (codes "Parse source XML with external entities disabled.")
      ∷ phase 2 (codes "classify-source")
          (codes "Classify domains, rules, invariants, transformations, conflicts.")
      ∷ phase 3 (codes "invert-constraints")
          (codes "Reorder specification into rejection-first execution form.")
      ∷ phase 4 (codes "normalize-invariants") (codes "Produce canonical typed invariant records.")
      ∷ phase 5 (codes "emit-hol") (codes "Generate HOL declarations and proof obligations.")
      ∷ phase 6 (codes "check-hol") (codes "Compile HOL artifacts and record prover results.")
      ∷ phase 7 (codes "emit-lean")
          (codes "Generate Lean declarations from canonical invariants and HOL maps.")
      ∷ phase 8 (codes "check-lean") (codes "Compile Lean artifacts without sorry or admit.")
      ∷ phase 9 (codes "emit-agda")
          (codes "Generate Agda declarations from canonical invariants and Lean maps.")
      ∷ phase 10 (codes "check-agda")
          (codes "Type-check Agda artifacts without postulates in verified paths.")
      ∷ phase 11 (codes "derive-agda-20x")
          (codes "Generate twenty indexed derivation obligations per invariant.")
      ∷ phase 12 (codes "check-correspondence")
          (codes "Check HOL-to-Lean and Lean-to-Agda semantic correspondence.")
      ∷ [];
}

pub record ProverArtifact : Type 0 where
  pub prover : Text
  pub invariant_id : Text
  pub artifact_id : Text
  pub status : ProverStatus
  pub hol_type : Option Text
  pub lean_type : Option Text
  pub agda_type : Option Text
  pub source_code : Text
  pub symbol_map : HashMap Text Text

unfoldable pub new_artifact : Text → Text → Text → Text → ProverArtifact
new_artifact prover invariant_id artifact_id source_code = record {
  prover = prover;
  invariant_id = invariant_id;
  artifact_id = artifact_id;
  status = generated_unverified;
  hol_type = none;
  lean_type = none;
  agda_type = none;
  source_code = source_code;
  symbol_map = [];
}

pub record CorrespondenceObligation : Type 0 where
  pub invariant_id : Text
  pub source_prover : Text
  pub target_prover : Text
  pub source_artifact_id : Text
  pub target_artifact_id : Text
  pub required_statement : Text
  pub status : CorrespondenceStatus

pub record AgdaIterationObligation : Type 0 where
  pub invariant_id : Text
  pub index : ℕ
  pub transform_name : Text
  pub source_invariant : Text
  pub derived_invariant : Text

unfoldable pub iteration_transform_name : ℕ → Text
iteration_transform_name index =
    if index == 1
    then codes "identity-preservation"
    else if index == 2
    then codes "double-negation-stability"
    else if index == 3
    then codes "conjunction-left-projection"
    else if index == 4
    then codes "conjunction-right-projection"
    else if index == 5
    then codes "implication-closure"
    else if index == 6
    then codes "contrapositive-check"
    else if index == 7
    then codes "reflexive-equality"
    else if index == 8
    then codes "symmetric-equality"
    else if index == 9
    then codes "transitive-equality"
    else if index == 10
    then codes "substitution-preservation"
    else if index == 11
    then codes "domain-restriction"
    else if index == 12
    then codes "codomain-preservation"
    else if index == 13
    then codes "state-transition-preservation"
    else if index == 14
    then codes "graph-edge-preservation"
    else if index == 15
    then codes "topological-order-preservation"
    else if index == 16
    then codes "refinement-strengthening"
    else if index == 17
    then codes "refinement-weakening-check"
    else if index == 18
    then codes "rejection-monotonicity"
    else if index == 19
    then codes "acceptance-soundness"
    else if index == 20
    then codes "cross-prover-correspondence"
    else codes "unknown-transform"
