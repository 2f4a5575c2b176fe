-- ===== src/Constraints/Xslt/Machine/Correspondence.antt =====
-- `validate_correspondence` of rust/crates/hyperkitty-constraints/src/xslt_processor.rs.
use hyperkitty_constraint_ds.Prelude.{
  Text, Bool, true, false, ◌&&◌, ◌||◌, List, [], ◌∷◌, map, any, all, text_eq, if◌then◌else◌,
}
use hyperkitty_constraint_ds.Core.{Result, ok}
use hyperkitty_constraint_ds.Constraints.Xslt.Kinds.{validated}
use hyperkitty_constraint_ds.Constraints.Xslt.Artifacts.{ProverArtifact, CorrespondenceObligation}
use hyperkitty_constraint_ds.Constraints.Xslt.Machine.{FormalizationMachine}

-- `iter().any(|a| a.artifact_id == id)`
unfoldable pub has_artifact : Text → List ProverArtifact → Bool
unfolding text_eq
has_artifact id artifacts = any (λ a. text_eq a.artifact_id id) artifacts

-- `hol_exists && target_exists`
unfoldable pub artifacts_exist : FormalizationMachine → CorrespondenceObligation → Bool
unfolding has_artifact
artifacts_exist m c =
    has_artifact c.source_artifact_id m.hol_artifacts
    && (has_artifact c.target_artifact_id m.lean_artifacts
        || has_artifact c.target_artifact_id m.agda_artifacts)

abbrev pub is_about : Text → CorrespondenceObligation → Bool
is_about invariant_id c = text_eq c.invariant_id invariant_id

-- `filter(|c| c.invariant_id == invariant_id)`
unfoldable pub matching : Text → List CorrespondenceObligation → List CorrespondenceObligation
unfolding text_eq
matching invariant_id [] = []
matching invariant_id (c ∷ cs) =
    let rest = matching invariant_id cs in if is_about invariant_id c then c ∷ rest else rest

-- The matching obligations become `Validated`.
unfoldable pub mark_validated : Text → List CorrespondenceObligation → List CorrespondenceObligation
unfolding text_eq
mark_validated invariant_id =
    map (λ c. if is_about invariant_id c then record c { status = validated } else c)

-- The answer for the matching obligations, none of them first.
unfoldable pub validate_matching :
    FormalizationMachine → Text → List CorrespondenceObligation → FormalizationMachine × Result Bool
unfolding mark_validated artifacts_exist
validate_matching m invariant_id [] = (m, ok false)
validate_matching m invariant_id (c ∷ cs) =
    if all (artifacts_exist m) (c ∷ cs)
    then (record m { correspondences = mark_validated invariant_id m.correspondences }, ok true)
    else (m, ok false)

unfoldable pub validate_correspondence :
    FormalizationMachine → Text → FormalizationMachine × Result Bool
unfolding matching validate_matching
validate_correspondence m invariant_id =
    validate_matching m invariant_id (matching invariant_id m.correspondences)
