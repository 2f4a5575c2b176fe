-- ===== src/Ere/Receipt.antt =====
-- rust/crates/hyperkitty-ere/src/p5_hash.rs and the engine of lib.rs: the receipt of an artifact that
-- passes the gates. SHA-256, the bytes of a string, the regular expressions, whitespace and
-- `to_lowercase` are parameters. What `run_all` prints is left out.
use hyperkitty_constraint_ds.Prelude.{
  ℕ, ◌+◌, Text, codes, Bool, true, false, not, ◌&&◌, ◌||◌, List, [], ◌∷◌, ◌++◌, if◌then◌else◌,
}
use hyperkitty_constraint_ds.Core.{Result, ok, err, proof_failed}
use hyperkitty_constraint_ds.Worm.Bytes.{Bytes}
use hyperkitty_constraint_ds.Ere.Secrets.{check_secrets}
use hyperkitty_constraint_ds.Ere.Evals.{check_eval}
use hyperkitty_constraint_ds.Ere.Loops.{check_loops}
use hyperkitty_constraint_ds.Ere.Telemetry.{check_telemetry}

pub record EreReceipt : Type 0 where
  pub hash : Bytes
  pub p1_pass : Bool
  pub p2_pass : Bool
  pub p3_pass : Bool
  pub p4_pass : Bool
  pub artifact_id : Text
  pub artifact_hash : Bytes

unfoldable pub verify : EreReceipt → Bool
verify r = r.p1_pass && (r.p2_pass && (r.p3_pass && r.p4_pass))

unfoldable pub gate_status : EreReceipt → Bool × Bool × Bool × Bool
gate_status r = (r.p1_pass, r.p2_pass, r.p3_pass, r.p4_pass)

-- `(p as u8) << shift`, for the value of the shifted bit.
abbrev pub gate_bit : Bool → ℕ → ℕ
gate_bit true value = value
gate_bit false value = 0

-- The bits of a byte are distinct, so that `|` of them is their sum.
unfoldable pub gate_byte : Bool → Bool → Bool → Bool → ℕ
gate_byte p1 p2 p3 p4 = gate_bit p1 128 + gate_bit p2 64 + gate_bit p3 32 + gate_bit p4 16

abbrev pub GateResult : Type 0
GateResult = Bool × List Text

-- What the engine takes from outside the repository.
pub record Outside : Type 0 where
  pub sha256 : Bytes → Bytes
  pub as_bytes : Text → Bytes
  pub is_match : Text → Text → Bool
  pub is_whitespace : ℕ → Bool
  pub to_lowercase : Text → Text

module _ (o : Outside) where
  -- The bytes that the hash is fed with.
  unfoldable pub hash_input : Text → Text → Text → ℕ → Bytes
  hash_input artifact_id artifact intent gates =
      o.as_bytes artifact_id
      ++ codes "||"
      ++ o.as_bytes intent
      ++ codes "||"
      ++ o.as_bytes artifact
      ++ codes "||"
      ++ gates ∷ []

  unfoldable pub compute_p5 : Text → Text → Text → Bool → Bool → Bool → Bool → Result EreReceipt
  unfolding hash_input gate_byte
  compute_p5 artifact_id artifact intent p1 p2 p3 p4 =
      if not p1 || (not p2 || (not p3 || not p4))
      then err proof_failed
      else ok (record {
        hash = o.sha256 (hash_input artifact_id artifact intent (gate_byte p1 p2 p3 p4));
        p1_pass = p1;
        p2_pass = p2;
        p3_pass = p3;
        p4_pass = p4;
        artifact_id = artifact_id;
        artifact_hash = o.sha256 (o.as_bytes artifact);
      })

  unfoldable pub run_detailed : Text → GateResult × GateResult × GateResult × GateResult
  unfolding check_secrets check_eval check_loops check_telemetry
  run_detailed artifact = (
    check_secrets o.is_match artifact,
    check_eval o.is_whitespace o.is_match artifact,
    check_loops artifact,
    check_telemetry o.is_whitespace o.to_lowercase artifact,
  )

  unfoldable pub run_all : Text → Text → Text → Result EreReceipt
  unfolding check_secrets check_eval check_loops check_telemetry compute_p5
  run_all artifact_id artifact intent =
      compute_p5 artifact_id artifact intent (check_secrets o.is_match artifact).0
        (check_eval o.is_whitespace o.is_match artifact).0 (check_loops artifact).0
        (check_telemetry o.is_whitespace o.to_lowercase artifact).0
