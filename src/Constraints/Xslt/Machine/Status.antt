-- ===== src/Constraints/Xslt/Machine/Status.antt =====
-- `record_hol_status`, `record_lean_status`, `record_agda_status` and `summary` of
-- rust/crates/hyperkitty-constraints/src/xslt_processor.rs.
use hyperkitty_constraint_ds.Prelude.{
  ℕ, suc, ◌≡◌, ◌≢◌, ◌⊎◌, inl, inr, ◌∙◌, sym, length-append, refl, ap, Text, Bool, true, false,
  Option, none, some, List, [], ◌∷◌, ◌++◌, length, text_eq, text_eq-eq, text_eq-ne, if◌then◌else◌,
  if_intro, All,
}
use hyperkitty_constraint_ds.Core.{Result, ok, err, record_not_found}
use hyperkitty_constraint_ds.Constraints.Xslt.Kinds.{
  ProverStatus, verified, CorrespondenceStatus, validated,
}
use hyperkitty_constraint_ds.Constraints.Xslt.Artifacts.{ProverArtifact}
use hyperkitty_constraint_ds.Constraints.Xslt.Machine.{FormalizationMachine}

-- `find` and the assignment to the artifact found, or `none`.
unfoldable pub set_status : Text → ProverStatus → List ProverArtifact → Option (List ProverArtifact)
unfolding text_eq
set_status id s [] = none
set_status id s (a ∷ as') =
    let rest = set_status id s as' in
    if text_eq a.artifact_id id
    then some (record a { status = s } ∷ as')
    else elim rest [ none ↦ none | some changed ↦ some (a ∷ changed) ]

unfoldable pub recorded_hol :
    FormalizationMachine → Option (List ProverArtifact) → FormalizationMachine × Result (Unit {0})
recorded_hol m none = (m, err record_not_found)
recorded_hol m (some changed) = (record m { hol_artifacts = changed }, ok tt)

unfoldable pub record_hol_status :
    FormalizationMachine → Text → ProverStatus → FormalizationMachine × Result (Unit {0})
unfolding set_status recorded_hol
record_hol_status m id s = recorded_hol m (set_status id s m.hol_artifacts)

unfoldable pub recorded_lean :
    FormalizationMachine → Option (List ProverArtifact) → FormalizationMachine × Result (Unit {0})
recorded_lean m none = (m, err record_not_found)
recorded_lean m (some changed) = (record m { lean_artifacts = changed }, ok tt)

unfoldable pub record_lean_status :
    FormalizationMachine → Text → ProverStatus → FormalizationMachine × Result (Unit {0})
unfolding set_status recorded_lean
record_lean_status m id s = recorded_lean m (set_status id s m.lean_artifacts)

unfoldable pub recorded_agda :
    FormalizationMachine → Option (List ProverArtifact) → FormalizationMachine × Result (Unit {0})
recorded_agda m none = (m, err record_not_found)
recorded_agda m (some changed) = (record m { agda_artifacts = changed }, ok tt)

unfoldable pub record_agda_status :
    FormalizationMachine → Text → ProverStatus → FormalizationMachine × Result (Unit {0})
unfolding set_status recorded_agda
record_agda_status m id s = recorded_agda m (set_status id s m.agda_artifacts)

pub record FormalizationSummary : Type 0 where
  pub total_invariants : ℕ
  pub hol_artifacts_count : ℕ
  pub lean_artifacts_count : ℕ
  pub agda_artifacts_count : ℕ
  pub correspondence_obligations : ℕ
  pub agda_iterations : ℕ
  pub hol_verified : ℕ
  pub lean_verified : ℕ
  pub agda_verified : ℕ
  pub correspondences_validated : ℕ

-- `==` of the derived `PartialEq`, at `ProverStatus::Verified`.
abbrev pub is_verified : ProverStatus → Bool
is_verified verified = true
is_verified _ = false

-- `==` of the derived `PartialEq`, at `CorrespondenceStatus::Validated`.
abbrev pub is_validated : CorrespondenceStatus → Bool
is_validated validated = true
is_validated _ = false

-- `filter(…).count()`
unfoldable pub count_if {ℓ} : {A : Type ℓ} → (A → Bool) → List A → ℕ
count_if p [] = 0
count_if p (x ∷ xs) = let rest = count_if p xs in if p x then suc rest else rest

unfoldable pub summary : FormalizationMachine → FormalizationSummary
unfolding count_if
summary m = record {
  total_invariants = length m.registry.invariants;
  hol_artifacts_count = length m.hol_artifacts;
  lean_artifacts_count = length m.lean_artifacts;
  agda_artifacts_count = length m.agda_artifacts;
  correspondence_obligations = length m.correspondences;
  agda_iterations = length m.agda_iterations;
  hol_verified = count_if (λ a. is_verified a.status) m.hol_artifacts;
  lean_verified = count_if (λ a. is_verified a.status) m.lean_artifacts;
  agda_verified = count_if (λ a. is_verified a.status) m.agda_artifacts;
  correspondences_validated = count_if (λ c. is_validated c.status) m.correspondences;
}

abbrev pub IsOther : Text → List ProverArtifact → Type 0
IsOther id = All (λ a. a.artifact_id ≢ id)

-- No artifact has the id, or the first one that has it gets the status and the others stay.
abbrev pub SetFirst :
    Text → ProverStatus → List ProverArtifact → Option (List ProverArtifact) → Type 0
SetFirst id s old none = IsOther id old
SetFirst id s old (some new) =
    (before : List ProverArtifact) × (a : ProverArtifact) × (after : List ProverArtifact) × IsOther
      id before
    × (a.artifact_id ≡ id)
    × (old ≡ before ++ a ∷ after)
    × (new ≡ before ++ record a { status = s } ∷ after)

SetFirst-cons :
    (id : Text) (s : ProverStatus) (a : ProverArtifact) (old : List ProverArtifact)
    (r : Option (List ProverArtifact))
    → a.artifact_id ≢ id
    → SetFirst id s old r
    → SetFirst id s (a ∷ old) (elim r [ none ↦ none | some changed ↦ some (a ∷ changed) ])
SetFirst-cons id s a old none n h = (n, h)
SetFirst-cons id s a old (some new) n (before, b, after, others, same, e, f) =
    (a ∷ before, b, after, (n, others), same, ap (λ l. a ∷ l) e, ap (λ l. a ∷ l) f)

pub set_status-SetFirst :
    (id : Text) (s : ProverStatus) (old : List ProverArtifact)
    → SetFirst id s old (set_status id s old)
unfolding set_status
set_status-SetFirst id s [] = tt
set_status-SetFirst id s (a ∷ old) =
    if_intro (SetFirst id s (a ∷ old)) (text_eq a.artifact_id id)
      (λ same. ([], a, old, tt, text_eq-eq a.artifact_id id same, refl, refl))
      (λ n.
        SetFirst-cons id s a old _ (text_eq-ne a.artifact_id id n) (set_status-SetFirst id s old))

-- The outcome of a status update: the error where no artifact of the prover has the id, and else the
-- machine with the first one that has it changed.
abbrev pub RecordedAs :
    Text
    → ProverStatus
    → FormalizationMachine
    → List ProverArtifact
    → (List ProverArtifact → FormalizationMachine)
    → FormalizationMachine × Result (Unit {0})
    → Type 0
RecordedAs id s m old store outcome =
    (IsOther id old × (outcome ≡ (m, err record_not_found)))
    ⊎ ((new : List ProverArtifact) × SetFirst id s old (some new) × (outcome ≡ (store new, ok tt)))

-- A status update by artifact id changes the status of the first artifact of the prover with that id
-- and nothing else, and fails without a change when none has it.
pub record_status_lem :
    (m : FormalizationMachine) (id : Text) (s : ProverStatus)
    → RecordedAs id s m m.hol_artifacts
        (λ new. record m { hol_artifacts = new })
        (record_hol_status m id s)
      × RecordedAs id s m m.lean_artifacts
          (λ new. record m { lean_artifacts = new })
          (record_lean_status m id s)
      × RecordedAs id s m m.agda_artifacts
          (λ new. record m { agda_artifacts = new })
          (record_agda_status m id s)
unfolding record_hol_status record_lean_status record_agda_status
record_status_lem m id s = (
  hol (set_status id s m.hol_artifacts) (set_status-SetFirst id s m.hol_artifacts),
  lean (set_status id s m.lean_artifacts) (set_status-SetFirst id s m.lean_artifacts),
  agda (set_status id s m.agda_artifacts) (set_status-SetFirst id s m.agda_artifacts),
)
  where
    hol :
        (r : Option (List ProverArtifact))
        → SetFirst id s m.hol_artifacts r
        → RecordedAs id s m m.hol_artifacts
            (λ new. record m { hol_artifacts = new })
            (recorded_hol m r)
    hol none h = inl (h, refl)
    hol (some new) h = inr (new, h, refl)

    lean :
        (r : Option (List ProverArtifact))
        → SetFirst id s m.lean_artifacts r
        → RecordedAs id s m m.lean_artifacts
            (λ new. record m { lean_artifacts = new })
            (recorded_lean m r)
    lean none h = inl (h, refl)
    lean (some new) h = inr (new, h, refl)

    agda :
        (r : Option (List ProverArtifact))
        → SetFirst id s m.agda_artifacts r
        → RecordedAs id s m m.agda_artifacts
            (λ new. record m { agda_artifacts = new })
            (recorded_agda m r)
    agda none h = inl (h, refl)
    agda (some new) h = inr (new, h, refl)

pub length-set_status :
    (id : Text) (s : ProverStatus) (old : List ProverArtifact) (r : Option (List ProverArtifact))
    → SetFirst id s old r
    → length (elim r [ none ↦ old | some new ↦ new ]) ≡ length old
length-set_status id s old none h = refl
length-set_status id s old (some new) (before, a, after, others, same, e, f) =
    ap length f
    ∙ length-append before (record a { status = s } ∷ after)
    ∙ sym (length-append before (a ∷ after))
    ∙ sym (ap length e)
