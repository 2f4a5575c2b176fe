-- ===== src/Constraints/Xslt/Machine/KeepStatus.antt =====
-- What the status updates and the validation of rust/crates/hyperkitty-constraints/src/xslt_processor.rs keep of a sound
-- machine.
use hyperkitty_constraint_ds.Prelude.{
  ◌≡◌, ◌⊎◌, inl, inr, refl, ◌∙◌, Text, codes, true, Option, none, some, List, [], ◌∷◌, &&-true, All,
  ap, if_intro, Bool-cases, all,
}
use hyperkitty_constraint_ds.Prelude.Maps.{text_key}
use hyperkitty_constraint_ds.Constraints.Xslt.Kinds.{ProverStatus}
use hyperkitty_constraint_ds.Constraints.Xslt.Artifacts.{ProverArtifact, CorrespondenceObligation}
use hyperkitty_constraint_ds.Constraints.Xslt.Machine.{
  FormalizationMachine, hol_id, lean_id, agda_id,
}
use hyperkitty_constraint_ds.Constraints.Xslt.Machine.Status.{
  set_status, set_status-SetFirst, SetFirst, record_hol_status, recorded_hol, recorded_lean,
  recorded_agda, record_lean_status, record_agda_status,
}
use hyperkitty_constraint_ds.Constraints.Xslt.Machine.Correspondence.{
  artifacts_exist, is_about, matching, mark_validated, validate_matching, validate_correspondence,
}
use hyperkitty_constraint_ds.Constraints.Xslt.Machine.Keep.{SetFirst-Kept, keep, IsBacked-kept}
use hyperkitty_constraint_ds.Constraints.Xslt.Machine.Sound.{
  IsSound, IsHolLean, IsLeanAgda, IsBacked,
}

pub record_hol_status-IsSound :
    (m : FormalizationMachine) (id : Text) (t : ProverStatus)
    → IsSound m
    → IsSound (record_hol_status m id t).0
unfolding record_hol_status
record_hol_status-IsSound m id t s =
    go (set_status id t m.hol_artifacts) (set_status-SetFirst id t m.hol_artifacts)
  where
    go :
        (r : Option (List ProverArtifact))
        → SetFirst id t m.hol_artifacts r
        → IsSound (recorded_hol m r).0
    go none h = s
    go (some new) h =
        let kept = SetFirst-Kept (codes "HOL") hol_id id t m.hol_artifacts new s.hol h in
        record {
          by_id = s.by_id;
          one_entry = s.one_entry;
          hol = kept.of_prover;
          lean = s.lean;
          agda = s.agda;
          known = s.known;
          backed =
              IsBacked-kept m (record m { hol_artifacts = new }) kept.still (keep m.lean_artifacts)
                (keep m.agda_artifacts) m.correspondences s.backed;
        }

pub record_lean_status-IsSound :
    (m : FormalizationMachine) (id : Text) (t : ProverStatus)
    → IsSound m
    → IsSound (record_lean_status m id t).0
unfolding record_lean_status
record_lean_status-IsSound m id t s =
    go (set_status id t m.lean_artifacts) (set_status-SetFirst id t m.lean_artifacts)
  where
    go :
        (r : Option (List ProverArtifact))
        → SetFirst id t m.lean_artifacts r
        → IsSound (recorded_lean m r).0
    go none h = s
    go (some new) h =
        let kept = SetFirst-Kept (codes "Lean4") lean_id id t m.lean_artifacts new s.lean h in
        record {
          by_id = s.by_id;
          one_entry = s.one_entry;
          lean = kept.of_prover;
          hol = s.hol;
          agda = s.agda;
          known = s.known;
          backed =
              IsBacked-kept m (record m { lean_artifacts = new }) (keep m.hol_artifacts) kept.still
                (keep m.agda_artifacts) m.correspondences s.backed;
        }

pub record_agda_status-IsSound :
    (m : FormalizationMachine) (id : Text) (t : ProverStatus)
    → IsSound m
    → IsSound (record_agda_status m id t).0
unfolding record_agda_status
record_agda_status-IsSound m id t s =
    go (set_status id t m.agda_artifacts) (set_status-SetFirst id t m.agda_artifacts)
  where
    go :
        (r : Option (List ProverArtifact))
        → SetFirst id t m.agda_artifacts r
        → IsSound (recorded_agda m r).0
    go none h = s
    go (some new) h =
        let kept = SetFirst-Kept (codes "Agda") agda_id id t m.agda_artifacts new s.agda h in
        record {
          by_id = s.by_id;
          one_entry = s.one_entry;
          agda = kept.of_prover;
          hol = s.hol;
          lean = s.lean;
          known = s.known;
          backed =
              IsBacked-kept m (record m { agda_artifacts = new }) (keep m.hol_artifacts)
                (keep m.lean_artifacts) kept.still m.correspondences s.backed;
        }

module _ (m : FormalizationMachine) (id : Text) where
  mark_validated-known :
      (cs : List CorrespondenceObligation)
      → All (λ c. IsHolLean c ⊎ IsLeanAgda c) cs
      → All (λ c. IsHolLean c ⊎ IsLeanAgda c) (mark_validated id cs)
  unfolding mark_validated
  mark_validated-known [] k = tt
  mark_validated-known (c ∷ cs) k = (
    if_intro (λ d. IsHolLean d ⊎ IsLeanAgda d) (is_about id c) (λ e. k.0) (λ n. k.0),
    mark_validated-known cs k.1,
  )

  mark_validated-IsBacked :
      (cs : List CorrespondenceObligation)
      → All (IsBacked m) cs
      → all (artifacts_exist m) (matching id cs) ≡ true
      → All (IsBacked m) (mark_validated id cs)
  unfolding mark_validated matching artifacts_exist
  mark_validated-IsBacked [] b e = tt
  mark_validated-IsBacked (c ∷ cs) b e = elim (Bool-cases (is_about id c)) [
    | inl h ↦
        let (found, rest) = &&-true (artifacts_exist m c) _ (rw h at e) in
        rw h (inr found, mark_validated-IsBacked cs b.1 rest)
    | inr n ↦ rw n (b.0, mark_validated-IsBacked cs b.1 (rw n at e))
  ]

  validate_matching-IsSound :
      (ms : List CorrespondenceObligation)
      → matching id m.correspondences ≡ ms
      → IsSound m
      → IsSound (validate_matching m id ms).0
  unfolding validate_matching artifacts_exist
  validate_matching-IsSound [] e s = s
  validate_matching-IsSound (c ∷ cs) e s = elim (Bool-cases (all (artifacts_exist m) (c ∷ cs))) [
    | inl h ↦ rw h (record {
      by_id = s.by_id;
      one_entry = s.one_entry;
      hol = s.hol;
      lean = s.lean;
      agda = s.agda;
      known = mark_validated-known m.correspondences s.known;
      backed =
          mark_validated-IsBacked m.correspondences s.backed (ap (all (artifacts_exist m)) e ∙ h);
    })
    | inr n ↦ rw n s
  ]

pub validate_correspondence-IsSound :
    (m : FormalizationMachine) (id : Text) → IsSound m → IsSound (validate_correspondence m id).0
unfolding validate_correspondence
validate_correspondence-IsSound m id =
    validate_matching-IsSound m id (matching id m.correspondences) refl
