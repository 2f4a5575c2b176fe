-- ===== src/Runtime/Bridge.antt =====
-- rust/crates/hyperkitty-runtime/src/cminus_bridge.rs: the record of fixed width that crosses to
-- C--, and its validation. The errors of the validation are texts.
use hyperkitty_constraint_ds.Prelude.{
  ℕ, Bool, not, Option, none, some, [], ◌∷◌, ltb, ◌==◌, if◌then◌else◌,
}
use hyperkitty_constraint_ds.Core.{num, Message, literal}
use hyperkitty_constraint_ds.Glyph.{Glyph, lambda, to_byte}
use hyperkitty_constraint_ds.Runtime.Float.{Float}
use hyperkitty_constraint_ds.Runtime.Validity.{ValidityGate}
use hyperkitty_constraint_ds.Runtime.Reconciliation.{ReconciliationDecision}

pub record RouteDecision (F : Type 0) : Type 0 where
  pub abi_version : ℕ
  pub current_state : ℕ
  pub previous_state : ℕ
  pub next_state : ℕ
  pub padding_0 : ℕ
  pub accepted : ℕ
  pub failed_gate : ℕ
  pub entropy : F
  pub entropy_ok : ℕ
  pub padding_1 : ℕ
  pub reconciliation_ok : ℕ
  pub route_valid : ℕ
  pub invariant_preserved : ℕ
  pub trace_id : ℕ
  pub proof_ok : ℕ
  pub padding_2 : ℕ

-- `Result<(), String>`: `none` is `Ok(())`. An entropy in a message is left out of its arguments.
abbrev pub Checked : Type 0
Checked = Option Message

infixl 5 ◌and_then◌
abbrev pub ◌and_then◌ : Checked → Checked → Checked
none and_then next = next
(some e) and_then next = some e

abbrev pub abi_version_number : ℕ
abi_version_number = 1

abbrev pub flag : Bool → ℕ
flag b = if b then 1 else 0

unfoldable pub gate_code : Option ValidityGate → ℕ
gate_code none = 0
gate_code (some ValidityGate.balance) = 1
gate_code (some ValidityGate.invariant) = 2
gate_code (some ValidityGate.entropy) = 3
gate_code (some ValidityGate.proof) = 4
gate_code (some ValidityGate.reconciliation) = 5
gate_code (some ValidityGate.route) = 6

unfoldable pub next_or_lambda : Option Glyph → Glyph
next_or_lambda none = lambda
next_or_lambda (some g) = g

module _ {F : Type 0} where
  unfoldable pub new :
      Glyph → Glyph → Glyph → F → Bool → ℕ → Bool → Bool → Bool → Bool → ℕ → Bool → RouteDecision F
  unfolding to_byte
  new current previous next entropy accepted failed_gate entropy_ok reconciliation_ok route_valid
        invariant_ok trace_id proof_ok =
      record {
        abi_version = abi_version_number;
        current_state = to_byte current;
        previous_state = to_byte previous;
        next_state = to_byte next;
        padding_0 = 0;
        accepted = flag accepted;
        failed_gate = failed_gate;
        entropy = entropy;
        entropy_ok = flag entropy_ok;
        padding_1 = 0;
        reconciliation_ok = flag reconciliation_ok;
        route_valid = flag route_valid;
        invariant_preserved = flag invariant_ok;
        trace_id = trace_id;
        proof_ok = flag proof_ok;
        padding_2 = 0;
      }

  unfoldable pub validate_header : RouteDecision F → Checked
  validate_header d =
      if not (d.abi_version == abi_version_number)
      then some (record {
        format = "ABI version mismatch: expected {}, got {}";
        args = num abi_version_number ∷ num d.abi_version ∷ [];
      })
      else none

  unfoldable pub validate_glyphs : RouteDecision F → Checked
  validate_glyphs d =
      if ltb 5 d.current_state
      then some (record { format = "invalid current_state: {}"; args = num d.current_state ∷ [] })
      else (if ltb 5 d.previous_state
          then some
              (record { format = "invalid previous_state: {}"; args = num d.previous_state ∷ [] })
          else (if ltb 5 d.next_state
              then some (record { format = "invalid next_state: {}"; args = num d.next_state ∷ [] })
              else none))

  -- The check that an accepted decision has its flags.
  unfoldable pub validate_flags : RouteDecision F → Checked
  validate_flags d =
      if not (d.accepted == 1)
      then none
      else (if d.entropy_ok == 0
          then some (literal "accepted but entropy_ok=0")
          else (if d.reconciliation_ok == 0
              then some (literal "accepted but reconciliation_ok=0")
              else (if d.route_valid == 0
                  then some (literal "accepted but route_valid=0")
                  else (if d.proof_ok == 0
                      then some (literal "accepted but proof_ok=0")
                      else none))))

module _ (f : Float) where
  unfoldable pub from_reconciliation : ReconciliationDecision f.Carrier → RouteDecision f.Carrier
  unfolding new gate_code next_or_lambda
  from_reconciliation d =
      new d.current_state d.previous_state (next_or_lambda d.next_state) d.entropy d.accepted
        (gate_code d.failed_gate) (f.le d.entropy f.max_entropy)
        d.validity_decision.reconciliation_ok d.route_valid d.invariant_preserved d.trace_id
        d.validity_decision.proof_ok

  unfoldable pub validate_entropy : RouteDecision f.Carrier → Checked
  validate_entropy d =
      if not (f.is_finite d.entropy)
      then some (literal "nonfinite entropy: {}")
      else (if f.lt d.entropy f.zero
          then some (literal "negative entropy: {}")
          else (if f.lt f.max_entropy d.entropy
              then some (literal "entropy exceeds bound: {}")
              else none))

  unfoldable pub validate_all : RouteDecision f.Carrier → Checked
  unfolding validate_header validate_glyphs validate_entropy validate_flags
  validate_all d =
      validate_header d
      and_then validate_glyphs d
      and_then validate_entropy d
      and_then validate_flags d
