-- ===== src/Runtime/Reconciliation.antt =====
-- rust/crates/hyperkitty-runtime/src/reconciliation.rs: a transition is reconciled, and then
-- committed to the state. `commit` gives the new state with its result.
use hyperkitty_constraint_ds.Prelude.{
  ℕ, ◌+◌, ◌%◌, ◌^◌, Bool, true, false, ◌&&◌, Option, none, some, String, [], ◌∷◌, if◌then◌else◌,
}
use hyperkitty_constraint_ds.Core.{
  Result, Result.ok, Result.err, Error.parse_error, literal, variant,
}
use hyperkitty_constraint_ds.Glyph.{Glyph}
use hyperkitty_constraint_ds.Qra.Dispatch.{DispatchResult, dispatch}
use hyperkitty_constraint_ds.Runtime.Float.{Float}
use hyperkitty_constraint_ds.Runtime.Validity.{ValidityGate, ValidityDecision, check}

pub record ReconciliationDecision (F : Type 0) : Type 0 where
  pub accepted : Bool
  pub current_state : Glyph
  pub previous_state : Glyph
  pub next_state : Option Glyph
  pub entropy : F
  pub validity_decision : ValidityDecision F
  pub route_valid : Bool
  pub invariant_preserved : Bool
  pub failed_gate : Option ValidityGate
  pub trace_id : ℕ

pub record ReconciliationState (F : Type 0) : Type 0 where
  pub committed_state : Glyph
  pub committed_at : ℕ
  pub last_entropy : F
  pub rejection_count : ℕ
  pub acceptance_count : ℕ

unfoldable pub gate_or_route : Option ValidityGate → ValidityGate
gate_or_route none = ValidityGate.route
gate_or_route (some gate) = gate

-- `{:?}` of the failed gate.
unfoldable pub debug : Option ValidityGate → String
debug none = "None"
debug (some ValidityGate.balance) = "Some(Balance)"
debug (some ValidityGate.invariant) = "Some(Invariant)"
debug (some ValidityGate.entropy) = "Some(Entropy)"
debug (some ValidityGate.proof) = "Some(Proof)"
debug (some ValidityGate.reconciliation) = "Some(Reconciliation)"
debug (some ValidityGate.route) = "Some(Route)"

module _ {F : Type 0} where
  unfoldable pub accept : Glyph → Glyph → Glyph → F → ValidityDecision F → ReconciliationDecision F
  accept current previous next entropy validity = record {
    accepted = true;
    current_state = current;
    previous_state = previous;
    next_state = some next;
    entropy = entropy;
    validity_decision = validity;
    route_valid = true;
    invariant_preserved = validity.invariant_ok;
    failed_gate = none;
    trace_id = 0;
  }

  unfoldable pub reject :
      Glyph → Glyph → F → ValidityDecision F → ValidityGate → ReconciliationDecision F
  reject current previous entropy validity gate = record {
    accepted = false;
    current_state = current;
    previous_state = previous;
    next_state = none;
    entropy = entropy;
    validity_decision = validity;
    route_valid = false;
    invariant_preserved = false;
    failed_gate = some gate;
    trace_id = 0;
  }

  -- The counters are `u64` and wrap.
  unfoldable pub advance : ReconciliationState F → Glyph → F → ReconciliationState F
  advance s next entropy = record s {
    committed_state = next;
    committed_at = (s.committed_at + 1) % 2 ^ 64;
    last_entropy = entropy;
    acceptance_count = (s.acceptance_count + 1) % 2 ^ 64;
  }

  unfoldable pub reject_state : ReconciliationState F → ReconciliationState F
  reject_state s = record s { rejection_count = (s.rejection_count + 1) % 2 ^ 64 }

  -- The state after an accepted decision, for its next state.
  unfoldable pub commit_next :
      ReconciliationState F → Option Glyph → F → ReconciliationState F × Result (Unit {0})
  unfolding advance
  commit_next s none entropy = (s, err (parse_error (literal "accepted but no next_state")))
  commit_next s (some next) entropy = (advance s next entropy, ok tt)

  unfoldable pub commit :
      ReconciliationState F → ReconciliationDecision F → ReconciliationState F × Result (Unit {0})
  unfolding commit_next reject_state debug
  commit s d = if d.accepted then commit_next s d.next_state d.entropy else (
    reject_state s,
    err (
        parse_error (record {
          format = "reconciliation_rejected: {:?}";
          args = variant (debug d.failed_gate) ∷ [];
        })),
  )

-- `ReconciliationState::new`
unfoldable pub new_state : (f : Float) → Glyph → ReconciliationState f.Carrier
new_state f initial = record {
  committed_state = initial;
  committed_at = 0;
  last_entropy = f.zero;
  rejection_count = 0;
  acceptance_count = 0;
}

module _ (f : Float) where
  -- The decision on the answer of the dispatcher.
  unfoldable pub decide :
      Glyph → Glyph → Bool → Bool → DispatchResult → ReconciliationDecision f.Carrier
  unfolding check accept reject gate_or_route
  decide current previous proof_exists invariant_ok qra_result =
      let validity = check f (record {
        current_state = current;
        previous_state = previous;
        route_result = some qra_result.next;
        entropy = f.zero;
        proof_exists = proof_exists;
        invariant_ok = invariant_ok && qra_result.is_valid;
      }) in
      if validity.accepted
      then accept current previous qra_result.next f.zero validity
      else reject current previous f.zero validity (gate_or_route validity.failed_gate)

  -- An outer `none` is a panic in the table lookup.
  unfoldable pub reconcile :
      Glyph → Glyph → Bool → Bool → Option (Result (ReconciliationDecision f.Carrier))
  unfolding dispatch decide
  reconcile current previous proof_exists invariant_ok = elim (dispatch current previous) [
    | none ↦ none
    | some (ok r) ↦ some (ok (decide current previous proof_exists invariant_ok r))
    | some (err e) ↦ some (err (parse_error (literal "qra_dispatch_failed")))
    | some Result.no_fuel ↦ some Result.no_fuel
  ]
