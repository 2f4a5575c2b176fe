-- ===== src/Constraints/Xslt/Machine/Totals.antt =====
-- What `summary` of rust/crates/hyperkitty-constraints/src/xslt_processor.rs says of the operations
-- that built a machine.
use hyperkitty_constraint_ds.Prelude.{
  ℕ, suc, ◌+◌, ◌≡◌, ◌∙◌, refl, ap, Text, Option, none, some, List, [], ◌∷◌, ◌++◌, length,
  length-append, arith, map, all, Bool-cases, inl, inr,
}
use hyperkitty_constraint_ds.Constraints.Xslt.Kinds.{ProverStatus}
use hyperkitty_constraint_ds.Constraints.Xslt.Artifacts.{ProverArtifact, CorrespondenceObligation}
use hyperkitty_constraint_ds.Constraints.Xslt.Machine.{
  FormalizationMachine, new_machine, register_invariant, emit_hol_artifact, emit_lean_artifact,
  emit_agda_artifact, create_hol_lean_correspondence, create_lean_agda_correspondence,
  generate_agda_iterations, iterations_from,
}
use hyperkitty_constraint_ds.Constraints.Xslt.Machine.Status.{
  FormalizationSummary, summary, SetFirst, set_status, set_status-SetFirst, length-set_status,
  record_hol_status, record_lean_status, record_agda_status, recorded_hol, recorded_lean,
  recorded_agda,
}
use hyperkitty_constraint_ds.Constraints.Xslt.Machine.Correspondence.{
  artifacts_exist, matching, mark_validated, validate_matching, validate_correspondence,
}
use hyperkitty_constraint_ds.Constraints.Xslt.Machine.Iterations.{length-iterations_from}
use hyperkitty_constraint_ds.Constraints.Xslt.Machine.Reachable.{
  Operation, register, emit_hol, emit_lean, emit_agda, create_hol_lean, create_lean_agda, generate,
  validate, record_hol, record_lean, record_agda, perform, run,
}

-- The counts of a summary that only the calls decide.
pub record Totals : Type 0 where
  pub hol : ℕ
  pub lean : ℕ
  pub agda : ℕ
  pub obligations : ℕ
  pub iterations : ℕ

-- The abstract machine: each call adds to one count, `generate` as much as the multiplicity.
unfoldable pub count : ℕ → Totals → Operation → Totals
count multiplicity t (emit_hol id ty source) = record t { hol = t.hol + 1 }
count multiplicity t (emit_lean id ty source) = record t { lean = t.lean + 1 }
count multiplicity t (emit_agda id ty source) = record t { agda = t.agda + 1 }
count multiplicity t (create_hol_lean id) = record t { obligations = t.obligations + 1 }
count multiplicity t (create_lean_agda id) = record t { obligations = t.obligations + 1 }
count multiplicity t (generate id) = record t { iterations = t.iterations + multiplicity }
count multiplicity t _ = t

unfoldable pub count_all : ℕ → Totals → List Operation → Totals
unfolding count
count_all multiplicity t [] = t
count_all multiplicity t (o ∷ os) = count_all multiplicity (count multiplicity t o) os

unfoldable pub no_calls : Totals
no_calls = record { hol = 0; lean = 0; agda = 0; obligations = 0; iterations = 0 }

-- The lengths of a machine's lists are the counts.
IsTally : ℕ → Totals → FormalizationMachine → Type 0
IsTally multiplicity t m =
    (m.agda_iteration_multiplicity ≡ multiplicity)
    × (length m.hol_artifacts ≡ t.hol)
    × (length m.lean_artifacts ≡ t.lean)
    × (length m.agda_artifacts ≡ t.agda)
    × (length m.correspondences ≡ t.obligations)
    × (length m.agda_iterations ≡ t.iterations)

length-map {ℓ κ} :
    {A : Type ℓ} {B : Type κ} (f : A → B) (xs : List A) → length (map f xs) ≡ length xs
length-map f [] = refl
length-map f (x ∷ xs) = ap suc (length-map f xs)

length-push :
    {A : Type 0} (xs : List A) (x : A) (n : ℕ) → length xs ≡ n → length (xs ++ x ∷ []) ≡ n + 1
length-push xs x n e = length-append xs (x ∷ []) ∙ omega (arith, e)

module _ (k : ℕ) (t : Totals) (m : FormalizationMachine) where
  validate_matching-IsTally :
      (id : Text) (ms : List CorrespondenceObligation)
      → IsTally k t m
      → IsTally k t (validate_matching m id ms).0
  unfolding validate_matching mark_validated IsTally
  validate_matching-IsTally id [] h = h
  validate_matching-IsTally id (c ∷ cs) (a, b, d, e, f, g) =
      elim (Bool-cases (all (artifacts_exist m) (c ∷ cs))) [
        | inl y ↦ rw y (a, b, d, e, length-map _ m.correspondences ∙ f, g)
        | inr n ↦ rw n (a, b, d, e, f, g)
      ]

  recorded_hol-IsTally :
      (id : Text) (s : ProverStatus) (r : Option (List ProverArtifact))
      → SetFirst id s m.hol_artifacts r
      → IsTally k t m
      → IsTally k t (recorded_hol m r).0
  unfolding IsTally recorded_hol
  recorded_hol-IsTally id s none first h = h
  recorded_hol-IsTally id s (some new) first (a, b, d, e, f, g) =
      (a, length-set_status id s m.hol_artifacts (some new) first ∙ b, d, e, f, g)

  recorded_lean-IsTally :
      (id : Text) (s : ProverStatus) (r : Option (List ProverArtifact))
      → SetFirst id s m.lean_artifacts r
      → IsTally k t m
      → IsTally k t (recorded_lean m r).0
  unfolding IsTally recorded_lean
  recorded_lean-IsTally id s none first h = h
  recorded_lean-IsTally id s (some new) first (a, b, d, e, f, g) =
      (a, b, length-set_status id s m.lean_artifacts (some new) first ∙ d, e, f, g)

  recorded_agda-IsTally :
      (id : Text) (s : ProverStatus) (r : Option (List ProverArtifact))
      → SetFirst id s m.agda_artifacts r
      → IsTally k t m
      → IsTally k t (recorded_agda m r).0
  unfolding IsTally recorded_agda
  recorded_agda-IsTally id s none first h = h
  recorded_agda-IsTally id s (some new) first (a, b, d, e, f, g) =
      (a, b, d, length-set_status id s m.agda_artifacts (some new) first ∙ e, f, g)

  perform-IsTally : (o : Operation) → IsTally k t m → IsTally k (count k t o) (perform m o)
  unfolding perform count IsTally register_invariant emit_hol_artifact emit_lean_artifact
      emit_agda_artifact create_hol_lean_correspondence create_lean_agda_correspondence
      generate_agda_iterations validate_correspondence record_hol_status record_lean_status
      record_agda_status
  perform-IsTally (register i) h = h
  perform-IsTally (emit_hol id ty source) (a, b, d, e, f, g) =
      (a, length-push m.hol_artifacts _ t.hol b, d, e, f, g)
  perform-IsTally (emit_lean id ty source) (a, b, d, e, f, g) =
      (a, b, length-push m.lean_artifacts _ t.lean d, e, f, g)
  perform-IsTally (emit_agda id ty source) (a, b, d, e, f, g) =
      (a, b, d, length-push m.agda_artifacts _ t.agda e, f, g)
  perform-IsTally (create_hol_lean id) (a, b, d, e, f, g) =
      (a, b, d, e, length-push m.correspondences _ t.obligations f, g)
  perform-IsTally (create_lean_agda id) (a, b, d, e, f, g) =
      (a, b, d, e, length-push m.correspondences _ t.obligations f, g)
  perform-IsTally (generate id) (a, b, d, e, f, g) =
      let added = length-iterations_from id 1 m.agda_iteration_multiplicity in
      let sum =
        length-append m.agda_iterations (iterations_from id 1 m.agda_iteration_multiplicity) in
      (a, b, d, e, f, omega (arith, sum, added, a, g))
  perform-IsTally (validate id) h = validate_matching-IsTally id (matching id m.correspondences) h
  perform-IsTally (record_hol id s) h =
      recorded_hol-IsTally id s (set_status id s m.hol_artifacts)
        (set_status-SetFirst id s m.hol_artifacts) h
  perform-IsTally (record_lean id s) h =
      recorded_lean-IsTally id s (set_status id s m.lean_artifacts)
        (set_status-SetFirst id s m.lean_artifacts) h
  perform-IsTally (record_agda id s) h =
      recorded_agda-IsTally id s (set_status id s m.agda_artifacts)
        (set_status-SetFirst id s m.agda_artifacts) h

run-IsTally :
    (k : ℕ) (t : Totals) (m : FormalizationMachine) (os : List Operation)
    → IsTally k t m
    → IsTally k (count_all k t os) (run m os)
unfolding run count_all
run-IsTally k t m [] h = h
run-IsTally k t m (o ∷ os) h =
    run-IsTally k (count k t o) (perform m o) os (perform-IsTally k t m o h)

-- A summary gives the counts that the calls decide.
abbrev pub HasTotals : Totals → FormalizationSummary → Type 0
HasTotals t s =
    (s.hol_artifacts_count ≡ t.hol)
    × (s.lean_artifacts_count ≡ t.lean)
    × (s.agda_artifacts_count ≡ t.agda)
    × (s.correspondence_obligations ≡ t.obligations)
    × (s.agda_iterations ≡ t.iterations)

-- After any operations on a new machine the summary counts as many artifacts of each prover and as
-- many obligations as calls made them, and for each call of `generate_agda_iterations` as many
-- iterations as the multiplicity; the other calls change none of these counts.
pub summary-run :
    (project organization order : Text) (multiplicity : ℕ) (os : List Operation)
    → HasTotals
        (count_all multiplicity no_calls os)
        (summary (run (new_machine project organization order multiplicity) os))
unfolding summary no_calls new_machine IsTally
summary-run project organization order multiplicity os =
    let (a, b, d, e, f, g) =
      run-IsTally multiplicity no_calls (new_machine project organization order multiplicity) os
        (refl, refl, refl, refl, refl, refl) in
    (b, d, e, f, g)
