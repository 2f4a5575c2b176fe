-- ===== src/Ere/Laws.antt =====
-- When the engine of rust/crates/hyperkitty-ere/src gives a receipt, and which one.
use hyperkitty_constraint_ds.Prelude.{◌≡◌, ◌⊎◌, inl, inr, refl, Text, Bool, true, false, All}
use hyperkitty_constraint_ds.Prelude.Search.{lines}
use hyperkitty_constraint_ds.Core.{ok, err, proof_failed}
use hyperkitty_constraint_ds.Ere.Rules.{IsClear}
use hyperkitty_constraint_ds.Ere.Secrets.{secret_rules, check_secrets}
use hyperkitty_constraint_ds.Ere.Evals.{check_eval}
use hyperkitty_constraint_ds.Ere.Loops.{check_loops}
use hyperkitty_constraint_ds.Ere.Telemetry.{check_telemetry}
use hyperkitty_constraint_ds.Ere.Receipt.{
  EreReceipt, Outside, hash_input, gate_byte, compute_p5, run_all,
}
use hyperkitty_constraint_ds.Ere.Gates.{IsQuiet, check_secrets_iff, check_eval_iff}
use hyperkitty_constraint_ds.Ere.Searches.{IsLoopSafe, check_loops_iff}
use hyperkitty_constraint_ds.Ere.Requests.{IsUntracked, check_telemetry_iff}

-- What the four gates ask of an artifact.
abbrev pub IsAdmitted : Outside → Text → Type 0
IsAdmitted o artifact =
    All (IsClear o.is_match secret_rules) (lines artifact)
    × All (IsQuiet o.is_whitespace o.is_match) (lines artifact)
    × IsLoopSafe artifact
    × IsUntracked o.is_whitespace o.to_lowercase artifact

-- The receipt of an admitted artifact: its hash is of the three texts and the byte of four set bits.
abbrev pub receipt : Outside → Text → Text → Text → EreReceipt
receipt o artifact_id artifact intent = record {
  hash = o.sha256 (hash_input o artifact_id artifact intent 240);
  p1_pass = true;
  p2_pass = true;
  p3_pass = true;
  p4_pass = true;
  artifact_id = artifact_id;
  artifact_hash = o.sha256 (o.as_bytes artifact);
}

compute_p5_iff :
    (o : Outside) (artifact_id artifact intent : Text) (p1 p2 p3 p4 : Bool)
    → ((p1 ≡ true)
        × (p2 ≡ true)
        × (p3 ≡ true)
        × (p4 ≡ true)
        × (compute_p5 o artifact_id artifact intent p1 p2 p3 p4
            ≡ ok (receipt o artifact_id artifact intent)))
      ⊎ ((¬ ((p1 ≡ true) × (p2 ≡ true) × (p3 ≡ true) × (p4 ≡ true)))
          × (compute_p5 o artifact_id artifact intent p1 p2 p3 p4 ≡ err proof_failed))
unfolding compute_p5 gate_byte
compute_p5_iff o i a n true true true true = inl (refl, refl, refl, refl, refl)
compute_p5_iff o i a n false p2 p3 p4 = inr (λ h. let t = h.0 in cc, refl)
compute_p5_iff o i a n true false p3 p4 = inr (λ h. let t = h.1 in cc, refl)
compute_p5_iff o i a n true true false p4 = inr (λ h. let t = h.2 in cc, refl)
compute_p5_iff o i a n true true true false = inr (λ h. let t = h.3 in cc, refl)

-- The engine gives the receipt of an artifact that the gates admit: no secret rule matches a line, each
-- line is a comment or matched by no rule against evaluated code, its loops are safe and it is
-- untracked. For any other artifact it fails with `ProofFailed`.
pub run_all_lem :
    (o : Outside) (artifact_id artifact intent : Text)
    → (IsAdmitted o artifact
        × (run_all o artifact_id artifact intent ≡ ok (receipt o artifact_id artifact intent)))
      ⊎ ((¬ IsAdmitted o artifact) × (run_all o artifact_id artifact intent ≡ err proof_failed))
unfolding run_all
run_all_lem o artifact_id artifact intent =
    let p1 = check_secrets_iff o.is_match artifact in
    let p2 = check_eval_iff o.is_whitespace o.is_match artifact in
    let p3 = check_loops_iff artifact in
    let p4 = check_telemetry_iff o.is_whitespace o.to_lowercase artifact in
    elim (compute_p5_iff o artifact_id artifact intent (check_secrets o.is_match artifact).0
      (check_eval o.is_whitespace o.is_match artifact).0 (check_loops artifact).0
      (check_telemetry o.is_whitespace o.to_lowercase artifact).0) [
        | inl h ↦ inl ((p1.0 h.0, p2.0 h.1, p3.0 h.2, p4.0 h.3), h.4)
        | inr h ↦ inr (λ a. h.0 (p1.1 a.0, p2.1 a.1, p3.1 a.2, p4.1 a.3), h.1)
      ]
