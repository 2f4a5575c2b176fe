-- ===== src/Constraints/Xslt/Machine/Keep.antt =====
-- What each operation of rust/crates/hyperkitty-constraints/src/xslt_processor.rs keeps of a sound
-- machine.
use hyperkitty_constraint_ds.Prelude.{
  ◌⊎◌, inl, inr, refl, ◌∙◌, Text, codes, Bool, some, List, ◌∷◌, ◌++◌, text_eq, any, any-append, All,
  All-append, All-split, All-map, sym, ap,
}
use hyperkitty_constraint_ds.Prelude.Maps.{text_key, insert-IsMap}
use hyperkitty_constraint_ds.Constraints.Xslt.Kinds.{ProverStatus}
use hyperkitty_constraint_ds.Constraints.Xslt.Registry.{Invariant}
use hyperkitty_constraint_ds.Constraints.Xslt.Registry.Laws.{insert-IsById}
use hyperkitty_constraint_ds.Constraints.Xslt.Artifacts.{ProverArtifact, CorrespondenceObligation}
use hyperkitty_constraint_ds.Constraints.Xslt.Machine.{
  FormalizationMachine, register_invariant, emit_hol_artifact, emit_lean_artifact,
  emit_agda_artifact, create_hol_lean_correspondence, create_lean_agda_correspondence,
  generate_agda_iterations, hol_id, lean_id, agda_id,
}
use hyperkitty_constraint_ds.Constraints.Xslt.Machine.Status.{SetFirst}
use hyperkitty_constraint_ds.Constraints.Xslt.Machine.Correspondence.{has_artifact, artifacts_exist}
use hyperkitty_constraint_ds.Constraints.Xslt.Machine.Sound.{
  IsSound, IsHolLean, IsLeanAgda, IsBacked, IsKept, IsArtifact, append-IsKept,
  artifacts_exist-IsKept,
}

-- What a status update keeps of the artifacts of one prover.
pub record Kept (prover : Text) (name : Text → Text) (old new : List ProverArtifact) : Type 0 where
  pub still : IsKept old new
  pub of_prover : All (IsArtifact prover name) new

pub SetFirst-Kept :
    (prover : Text) (name : Text → Text) (id : Text) (s : ProverStatus)
    (old new : List ProverArtifact)
    → All (IsArtifact prover name) old
    → SetFirst id s old (some new)
    → Kept prover name old new
unfolding has_artifact
SetFirst-Kept prover name id s old new h (before, a, after, others, same, e, f) =
    let parts : All (IsArtifact prover name) (before ++ a ∷ after) = rw (← e) h in
    let (left, right) = All-split (IsArtifact prover name) before (a ∷ after) parts in
    let test : Text → ProverArtifact → Bool = λ q x. text_eq x.artifact_id q in
    record {
      still = λ q t.
          ap (λ l. any (test q) l) f
          ∙ any-append (test q) before (record a { status = s } ∷ after)
          ∙ sym (any-append (test q) before (a ∷ after))
          ∙ sym (ap (λ l. any (test q) l) e)
          ∙ t;
      of_prover =
          rw f (
            All-append (IsArtifact prover name) before (record a { status = s } ∷ after) left
              right);
    }

pub keep : (old : List ProverArtifact) → IsKept old old
keep old id h = h

module _ (m n : FormalizationMachine) where
  -- The obligations of a machine whose artifacts only grow stay backed.
  pub IsBacked-kept :
      IsKept m.hol_artifacts n.hol_artifacts
      → IsKept m.lean_artifacts n.lean_artifacts
      → IsKept m.agda_artifacts n.agda_artifacts
      → (cs : List CorrespondenceObligation) → All (IsBacked m) cs
      → All (IsBacked n) cs
  IsBacked-kept h l a cs = All-map (IsBacked m) (artifacts_exist-IsKept m n h l a) cs

pub register_invariant-IsSound :
    (m : FormalizationMachine) (i : Invariant) → IsSound m → IsSound (register_invariant m i)
unfolding register_invariant artifacts_exist
register_invariant-IsSound m i s = record {
  by_id = insert-IsById i m.registry.invariants s.by_id;
  one_entry = insert-IsMap i.id i m.registry.invariants s.one_entry;
  hol = s.hol;
  lean = s.lean;
  agda = s.agda;
  known = s.known;
  backed = s.backed;
}

pub emit_hol_artifact-IsSound :
    (m : FormalizationMachine) (id ty source : Text)
    → IsSound m
    → IsSound (emit_hol_artifact m id ty source).0
unfolding emit_hol_artifact
emit_hol_artifact-IsSound m id ty source s =
    let after : FormalizationMachine = (emit_hol_artifact m id ty source).0 in
    record {
      by_id = s.by_id;
      one_entry = s.one_entry;
      hol = All-append (IsArtifact (codes "HOL") hol_id) m.hol_artifacts _ s.hol ((refl, refl), tt);
      lean = s.lean;
      agda = s.agda;
      known = s.known;
      backed =
          IsBacked-kept m after (append-IsKept m.hol_artifacts _) (keep m.lean_artifacts)
            (keep m.agda_artifacts) m.correspondences s.backed;
    }

pub emit_lean_artifact-IsSound :
    (m : FormalizationMachine) (id ty source : Text)
    → IsSound m
    → IsSound (emit_lean_artifact m id ty source).0
unfolding emit_lean_artifact
emit_lean_artifact-IsSound m id ty source s =
    let after : FormalizationMachine = (emit_lean_artifact m id ty source).0 in
    record {
      by_id = s.by_id;
      one_entry = s.one_entry;
      lean =
          All-append (IsArtifact (codes "Lean4") lean_id) m.lean_artifacts _ s.lean
            ((refl, refl), tt);
      hol = s.hol;
      agda = s.agda;
      known = s.known;
      backed =
          IsBacked-kept m after (keep m.hol_artifacts) (append-IsKept m.lean_artifacts _)
            (keep m.agda_artifacts) m.correspondences s.backed;
    }

pub emit_agda_artifact-IsSound :
    (m : FormalizationMachine) (id ty source : Text)
    → IsSound m
    → IsSound (emit_agda_artifact m id ty source).0
unfolding emit_agda_artifact
emit_agda_artifact-IsSound m id ty source s =
    let after : FormalizationMachine = (emit_agda_artifact m id ty source).0 in
    record {
      by_id = s.by_id;
      one_entry = s.one_entry;
      agda =
          All-append (IsArtifact (codes "Agda") agda_id) m.agda_artifacts _ s.agda
            ((refl, refl), tt);
      hol = s.hol;
      lean = s.lean;
      known = s.known;
      backed =
          IsBacked-kept m after (keep m.hol_artifacts) (keep m.lean_artifacts)
            (append-IsKept m.agda_artifacts _) m.correspondences s.backed;
    }

pub create_hol_lean_correspondence-IsSound :
    (m : FormalizationMachine) (id : Text)
    → IsSound m
    → IsSound (create_hol_lean_correspondence m id).0
unfolding create_hol_lean_correspondence artifacts_exist
create_hol_lean_correspondence-IsSound m id s = record {
  by_id = s.by_id;
  one_entry = s.one_entry;
  hol = s.hol;
  lean = s.lean;
  agda = s.agda;
  known =
      All-append (λ c. IsHolLean c ⊎ IsLeanAgda c) m.correspondences _ s.known
        (inl (refl, refl, refl, refl), tt);
  backed = All-append (IsBacked m) m.correspondences _ s.backed (inl (λ e. cc), tt);
}

pub create_lean_agda_correspondence-IsSound :
    (m : FormalizationMachine) (id : Text)
    → IsSound m
    → IsSound (create_lean_agda_correspondence m id).0
unfolding create_lean_agda_correspondence artifacts_exist
create_lean_agda_correspondence-IsSound m id s = record {
  by_id = s.by_id;
  one_entry = s.one_entry;
  hol = s.hol;
  lean = s.lean;
  agda = s.agda;
  known =
      All-append (λ c. IsHolLean c ⊎ IsLeanAgda c) m.correspondences _ s.known
        (inr (refl, refl, refl, refl), tt);
  backed = All-append (IsBacked m) m.correspondences _ s.backed (inl (λ e. cc), tt);
}

pub generate_agda_iterations-IsSound :
    (m : FormalizationMachine) (id : Text) → IsSound m → IsSound (generate_agda_iterations m id).0
unfolding generate_agda_iterations artifacts_exist
generate_agda_iterations-IsSound m id s = record {
  by_id = s.by_id;
  one_entry = s.one_entry;
  hol = s.hol;
  lean = s.lean;
  agda = s.agda;
  known = s.known;
  backed = s.backed;
}
