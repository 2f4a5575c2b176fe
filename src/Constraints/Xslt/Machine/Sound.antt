-- ===== src/Constraints/Xslt/Machine/Sound.antt =====
-- What holds of every machine that the operations of
-- rust/crates/hyperkitty-constraints/src/xslt_processor.rs build, and what they keep of it.
use hyperkitty_constraint_ds.Prelude.{
  ◌≡◌, ◌≢◌, ◌⊎◌, inl, inr, refl, ◌∙◌, Text, codes, Bool, true, false, ◌||◌, ◌&&◌, ◌↔◌, List, [],
  ◌∷◌, ◌++◌, text_eq, All, any-append, arith, ap, sym, &&-true,
}
use hyperkitty_constraint_ds.Prelude.Maps.{text_key, IsMap}
use hyperkitty_constraint_ds.Constraints.Xslt.Kinds.{validated}
use hyperkitty_constraint_ds.Constraints.Xslt.Registry.Laws.{IsById}
use hyperkitty_constraint_ds.Constraints.Xslt.Artifacts.{ProverArtifact, CorrespondenceObligation}
use hyperkitty_constraint_ds.Constraints.Xslt.Machine.{
  FormalizationMachine, hol_id, lean_id, agda_id,
}
use hyperkitty_constraint_ds.Constraints.Xslt.Machine.Correspondence.{has_artifact, artifacts_exist}

-- An artifact of a prover, under the id that the prover gives its invariant.
abbrev pub IsArtifact : Text → (Text → Text) → ProverArtifact → Type 0
IsArtifact prover name a = (a.prover ≡ prover) × (a.artifact_id ≡ name a.invariant_id)

-- An obligation between the artifacts that two provers have of its invariant.
abbrev pub IsBetween :
    Text → (Text → Text) → Text → (Text → Text) → CorrespondenceObligation → Type 0
IsBetween source source_name target target_name c =
    (c.source_prover ≡ source)
    × (c.target_prover ≡ target)
    × (c.source_artifact_id ≡ source_name c.invariant_id)
    × (c.target_artifact_id ≡ target_name c.invariant_id)

abbrev pub IsHolLean : CorrespondenceObligation → Type 0
IsHolLean = IsBetween (codes "HOL") hol_id (codes "Lean4") lean_id

abbrev pub IsLeanAgda : CorrespondenceObligation → Type 0
IsLeanAgda = IsBetween (codes "Lean4") lean_id (codes "Agda") agda_id

-- A validated obligation has its artifacts.
abbrev pub IsBacked : FormalizationMachine → CorrespondenceObligation → Type 0
IsBacked m c = (c.status ≢ validated) ⊎ (artifacts_exist m c ≡ true)

pub record IsSound (m : FormalizationMachine) : Type 0 where
  pub by_id : IsById m.registry.invariants
  pub one_entry : IsMap m.registry.invariants
  pub hol : All (IsArtifact (codes "HOL") hol_id) m.hol_artifacts
  pub lean : All (IsArtifact (codes "Lean4") lean_id) m.lean_artifacts
  pub agda : All (IsArtifact (codes "Agda") agda_id) m.agda_artifacts
  pub known : All (λ c. IsHolLean c ⊎ IsLeanAgda c) m.correspondences
  pub backed : All (IsBacked m) m.correspondences

-- Every artifact id of the first list is one of the second.
abbrev pub IsKept : List ProverArtifact → List ProverArtifact → Type 0
IsKept old new = (id : Text) → has_artifact id old ≡ true → has_artifact id new ≡ true

pub append-IsKept : (old : List ProverArtifact) (a : ProverArtifact) → IsKept old (old ++ a ∷ [])
unfolding has_artifact
append-IsKept old a id h = any-append (λ x. text_eq x.artifact_id id) old (a ∷ []) ∙ rw h refl

found_kept :
    (a b c d e f : Bool) (source : a ≡ true → d ≡ true) (left : b ≡ true → e ≡ true)
    (right : c ≡ true → f ≡ true)
    → (a && (b || c)) ≡ true
    → (d && (e || f)) ≡ true
found_kept a b c d e f source left right h = ground (arith, source, left, right)

pub artifacts_exist-IsKept :
    (m n : FormalizationMachine)
    → IsKept m.hol_artifacts n.hol_artifacts
    → IsKept m.lean_artifacts n.lean_artifacts
    → IsKept m.agda_artifacts n.agda_artifacts
    → (c : CorrespondenceObligation) → IsBacked m c
    → IsBacked n c
unfolding artifacts_exist
artifacts_exist-IsKept m n h l a c (inl other) = inl other
artifacts_exist-IsKept m n h l a c (inr e) =
    let x = c.source_artifact_id in
    let y = c.target_artifact_id in
    inr (
      found_kept (has_artifact x m.hol_artifacts) (has_artifact y m.lean_artifacts)
        (has_artifact y m.agda_artifacts) (has_artifact x n.hol_artifacts)
        (has_artifact y n.lean_artifacts) (has_artifact y n.agda_artifacts) (h x) (l y) (a y) e)

-- No artifact of one prover has an id of another one.
has_artifact-other :
    (prover : Text) (name : Text → Text) (id : Text) (as' : List ProverArtifact)
    (apart : (x : Text) → text_eq (name x) id ≡ false)
    → All (IsArtifact prover name) as'
    → has_artifact id as' ≡ false
unfolding has_artifact
has_artifact-other prover name id [] apart h = refl
has_artifact-other prover name id (a ∷ as') apart h =
    rw (h.0.1, apart a.invariant_id) (has_artifact-other prover name id as' apart h.1)

-- What the search of artifacts finds of an obligation: only HOL to Lean obligations have theirs.
abbrev pub IsMatched : FormalizationMachine → CorrespondenceObligation → Type 0
IsMatched m c =
    IsHolLean c
    × (has_artifact (hol_id c.invariant_id) m.hol_artifacts ≡ true)
    × (has_artifact (lean_id c.invariant_id) m.lean_artifacts ≡ true)

-- `artifacts_exist` on the two ids.
found : FormalizationMachine → Text → Text → Bool
unfolding has_artifact
found m x y =
    has_artifact x m.hol_artifacts
    && (has_artifact y m.lean_artifacts || has_artifact y m.agda_artifacts)

artifacts_exist-found :
    (m : FormalizationMachine) (c : CorrespondenceObligation) (x y : Text)
    → c.source_artifact_id ≡ x
    → c.target_artifact_id ≡ y
    → artifacts_exist m c ≡ found m x y
unfolding artifacts_exist found
artifacts_exist-found m c x y e f =
    ap (λ a. found m a c.target_artifact_id) e ∙ ap (λ b. found m x b) f

found_hol_lean :
    (m : FormalizationMachine) (i : Text)
    → IsSound m
    → found m (hol_id i) (lean_id i)
      ≡ (has_artifact (hol_id i) m.hol_artifacts && has_artifact (lean_id i) m.lean_artifacts)
unfolding found
found_hol_lean m i s =
    rw (has_artifact-other (codes "Agda") agda_id (lean_id i) m.agda_artifacts (λ x. refl) s.agda)
      (ap (λ v. has_artifact (hol_id i) m.hol_artifacts && v) (ground arith))

found_lean_agda :
    (m : FormalizationMachine) (i : Text) → IsSound m → found m (lean_id i) (agda_id i) ≡ false
unfolding found
found_lean_agda m i s =
    rw (has_artifact-other (codes "HOL") hol_id (lean_id i) m.hol_artifacts (λ x. refl) s.hol) refl

pub artifacts_exist_iff :
    (m : FormalizationMachine) (c : CorrespondenceObligation)
    → IsSound m
    → IsHolLean c ⊎ IsLeanAgda c
    → (artifacts_exist m c ≡ true) ↔ IsMatched m c
artifacts_exist_iff m c s (inl k) =
    let i = c.invariant_id in
    let e = artifacts_exist-found m c (hol_id i) (lean_id i) k.2 k.3 ∙ found_hol_lean m i s in
    (
      λ h.
          let (source, target) =
            &&-true (has_artifact (hol_id i) m.hol_artifacts)
              (has_artifact (lean_id i) m.lean_artifacts) (sym e ∙ h) in
          (k, source, target),
      λ h. e ∙ rw (h.1, h.2) refl,
    )
artifacts_exist_iff m c s (inr k) =
    let i = c.invariant_id in
    let e = artifacts_exist-found m c (lean_id i) (agda_id i) k.2 k.3 ∙ found_lean_agda m i s in
    (λ h. cc, λ h. let lean = k.0 in let hol = h.0.0 in cc)
