-- ===== src/Constraints/Xslt/Machine/Validate.antt =====
-- When `validate_correspondence` of rust/crates/hyperkitty-constraints/src/xslt_processor.rs answers
-- true, and which obligations it can validate.
use hyperkitty_constraint_ds.Prelude.{
  ◌≡◌, ◌≢◌, ◌⊎◌, ◌↔◌, inl, inr, refl, Text, true, List, [], ◌∷◌, text_eq-eq, text_eq-ne, any, all,
  All, &&-true, Bool-cases,
}
use hyperkitty_constraint_ds.Core.{ok}
use hyperkitty_constraint_ds.Constraints.Xslt.Kinds.{validated}
use hyperkitty_constraint_ds.Constraints.Xslt.Artifacts.{CorrespondenceObligation}
use hyperkitty_constraint_ds.Constraints.Xslt.Machine.{FormalizationMachine}
use hyperkitty_constraint_ds.Constraints.Xslt.Machine.Correspondence.{
  artifacts_exist, is_about, matching, validate_matching, validate_correspondence,
}
use hyperkitty_constraint_ds.Constraints.Xslt.Machine.Sound.{
  IsSound, IsHolLean, IsLeanAgda, IsMatched, IsBacked, artifacts_exist_iff,
}

-- An obligation of another invariant, or one whose artifacts were emitted.
abbrev pub IsOtherOrMatched : FormalizationMachine → Text → CorrespondenceObligation → Type 0
IsOtherOrMatched m invariant_id c = (c.invariant_id ≢ invariant_id) ⊎ IsMatched m c

module _ (m : FormalizationMachine) (invariant_id : Text) where
  validate_matching_iff :
      (cs : List CorrespondenceObligation)
      → ((validate_matching m invariant_id cs).1 ≡ ok true)
        ↔ ((cs ≢ []) × (all (artifacts_exist m) cs ≡ true))
  unfolding validate_matching
  validate_matching_iff [] = (λ h. cc, λ h. elim (h.0 refl) [ ])
  validate_matching_iff (c ∷ cs) = elim (Bool-cases (all (artifacts_exist m) (c ∷ cs))) [
    | inl h ↦ rw h (λ e. (λ n. cc, refl), λ e. refl)
    | inr n ↦ rw n (λ e. cc, λ e. let t = e.1 in cc)
  ]

  matching-any :
      (cs : List CorrespondenceObligation)
      → (matching invariant_id cs ≢ []) ↔ (any (is_about invariant_id) cs ≡ true)
  unfolding matching
  matching-any [] = (λ h. elim (h refl) [ ], λ h. cc)
  matching-any (c ∷ cs) = elim (Bool-cases (is_about invariant_id c)) [
    | inl h ↦ rw h (λ e. refl, λ e. λ n. cc)
    | inr n ↦ rw n (matching-any cs)
  ]

  matching-all :
      (cs : List CorrespondenceObligation)
      → IsSound m
      → All (λ c. IsHolLean c ⊎ IsLeanAgda c) cs
      → (all (artifacts_exist m) (matching invariant_id cs) ≡ true)
        ↔ All (IsOtherOrMatched m invariant_id) cs
  unfolding matching
  matching-all [] s k = (λ h. tt, λ h. refl)
  matching-all (c ∷ cs) s k =
      let ih = matching-all cs s k.1 in
      let at = artifacts_exist_iff m c s k.0 in
      elim (Bool-cases (is_about invariant_id c)) [
        | inl h ↦ rw h (
          λ e.
              let (first, rest) = &&-true (artifacts_exist m c) _ e in
              (inr (at.0 first), ih.0 rest),
          λ e. elim e.0 [
            | inl n ↦ elim (n (text_eq-eq c.invariant_id invariant_id h)) [ ]
            | inr k ↦ rw (at.1 k, ih.1 e.1) refl
          ],
        )
        | inr n ↦
            rw n (λ e. (inl (text_eq-ne c.invariant_id invariant_id n), ih.0 e), λ e. ih.1 e.1)
      ]

-- On a sound machine the validation of an invariant answers true exactly when it has an obligation
-- and each of its obligations goes from HOL to Lean, with both artifacts emitted.
pub validate_correspondence_iff :
    (m : FormalizationMachine) (invariant_id : Text)
    → IsSound m
    → ((validate_correspondence m invariant_id).1 ≡ ok true) ↔ (
        (any (is_about invariant_id) m.correspondences ≡ true)
        × All (IsOtherOrMatched m invariant_id) m.correspondences)
unfolding validate_correspondence
validate_correspondence_iff m invariant_id s =
    let answer = validate_matching_iff m invariant_id (matching invariant_id m.correspondences) in
    let some_about = matching-any m invariant_id m.correspondences in
    let each = matching-all m invariant_id m.correspondences s s.known in
    (
      λ h. let (n, e) = answer.0 h in (some_about.0 n, each.0 e),
      λ h. answer.1 (some_about.1 h.0, each.1 h.1),
    )

-- In a sound machine a validated obligation goes from HOL to Lean and has both artifacts; one
-- from Lean to Agda is never validated.
pub validated-IsMatched :
    (m : FormalizationMachine)
    → IsSound m
    → All (λ c. (c.status ≢ validated) ⊎ IsMatched m c) m.correspondences
validated-IsMatched m s = go m.correspondences s.known s.backed
  where
    go :
        (cs : List CorrespondenceObligation)
        → All (λ c. IsHolLean c ⊎ IsLeanAgda c) cs
        → All (IsBacked m) cs
        → All (λ c. (c.status ≢ validated) ⊎ IsMatched m c) cs
    go [] k b = tt
    go (c ∷ cs) (k, ks) (inl other, bs) = (inl other, go cs ks bs)
    go (c ∷ cs) (k, ks) (inr found, bs) = (inr ((artifacts_exist_iff m c s k).0 found), go cs ks bs)
