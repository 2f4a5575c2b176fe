-- ===== src/Runtime/Laws.antt =====
-- Acceptance, the commit of a reconciled transition, and what the C-- record loses.
use hyperkitty_constraint_ds.Prelude.{
  ℕ, ◌+◌, ◌%◌, ◌^◌, [], ◌∷◌, ◌≡◌, ◌↔◌, refl, Bool, true, false, not, ◌&&◌, ◌||◌, none, some, ltb,
  leb, ◌==◌, ==→eq, arith,
}
use hyperkitty_constraint_ds.Core.{Result, Result.ok, Result.err, Error, Error.parse_error, variant}
use hyperkitty_constraint_ds.Glyph.{
  Glyph, pi, gamma, delta, omega, lambda, psi, index, to_byte, is_absorber,
}
use hyperkitty_constraint_ds.Qra.{next_glyph}
use hyperkitty_constraint_ds.Qra.Laws.{next_glyph-total, dispatch-next_glyph}
use hyperkitty_constraint_ds.Qra.Dispatch.{DispatchResult}
use hyperkitty_constraint_ds.Nand.Conflicts.{has}
use hyperkitty_constraint_ds.Runtime.Float.{Float, IsFloat}
use hyperkitty_constraint_ds.Runtime.Validity.{
  ValidityGate, ValidityInput, ValidityDecision, check, is_none,
}
use hyperkitty_constraint_ds.Runtime.Reconciliation.{
  ReconciliationDecision, ReconciliationState, decide, reconcile, commit, commit_next, advance,
  reject_state, debug, gate_or_route,
}
use hyperkitty_constraint_ds.Runtime.Validity
use hyperkitty_constraint_ds.Runtime.Reconciliation
use hyperkitty_constraint_ds.Runtime.Bridge.{validate_glyphs, from_reconciliation, next_or_lambda}
use hyperkitty_constraint_ds.Runtime.Nonce.{NonceRegistry, check_and_register}

in_range : (g : Glyph) → leb 6 (index g) ≡ false
unfolding index
in_range pi = refl
in_range gamma = refl
in_range delta = refl
in_range omega = refl
in_range lambda = refl
in_range psi = refl

-- The predicate accepts exactly an input with a route, a finite entropy between zero and the bound,
-- a proof and a kept invariant; and it names a failed gate exactly when it does not accept.
pub check_lem :
    (f : Float) (input : ValidityInput f.Carrier)
    → ((check f input).accepted ≡ (
        not (is_none input.route_result)
        && (f.is_finite input.entropy
            && (not (f.lt input.entropy f.zero)
                && (not (f.lt f.max_entropy input.entropy)
                    && (input.proof_exists && input.invariant_ok))))))
      × (((check f input).accepted ≡ true) ↔ ((check f input).failed_gate ≡ none))
unfolding check
check_lem f input = (
  ground (arith, in_range input.current_state, in_range input.previous_state),
  (
    (λ h. ground arith),
    (λ h. ground (arith, in_range input.current_state, in_range input.previous_state)),
  ),
)

-- The error of a refused commit, by whether the transition has a proof.
pub refusal : Bool → Error
refusal true =
    parse_error
      (record { format = "reconciliation_rejected: {:?}"; args = variant "Some(Invariant)" ∷ [] })
refusal false =
    parse_error
      (record { format = "reconciliation_rejected: {:?}"; args = variant "Some(Proof)" ∷ [] })

-- A commit that is accepted or refused: the state after it, with its result.
abbrev pub committed :
    {F : Type 0}
    → ReconciliationState F
    → Glyph
    → F
    → Bool
    → Bool
    → ReconciliationState F × Result (Unit {0})
committed s g zero true true = (
  record {
    committed_state = g;
    committed_at = (s.committed_at + 1) % 2 ^ 64;
    last_entropy = zero;
    rejection_count = s.rejection_count;
    acceptance_count = (s.acceptance_count + 1) % 2 ^ 64;
  },
  ok tt,
)
committed s g zero proof_exists invariant_ok = (
  record {
    committed_state = s.committed_state;
    committed_at = s.committed_at;
    last_entropy = s.last_entropy;
    rejection_count = (s.rejection_count + 1) % 2 ^ 64;
    acceptance_count = s.acceptance_count;
  },
  err (refusal proof_exists),
)

module _ (f : Float) (law : IsFloat f) where
  commit-decide :
      (s : ReconciliationState f.Carrier) (a b : Glyph) (p i : Bool) (r : DispatchResult)
      → r.is_valid ≡ true
      → commit s (decide f a b p i r) ≡ committed s r.next f.zero p i
  unfolding commit commit_next decide check is_none Validity.reject Validity.accept
      Reconciliation.accept Reconciliation.reject advance reject_state debug refusal gate_or_route
  commit-decide s a b true true r e =
      rw (e, law.finite_zero, law.lt_zero, law.lt_max, in_range a, in_range b) refl
  commit-decide s a b true false r e = rw (law.finite_zero, law.lt_zero, law.lt_max) refl
  commit-decide s a b false true r e = rw (law.finite_zero, law.lt_zero, law.lt_max) refl
  commit-decide s a b false false r e = rw (law.finite_zero, law.lt_zero, law.lt_max) refl

  -- When zero is finite, not below itself and not above the bound of the entropy, every pair of
  -- glyphs is reconciled. With a proof and a kept invariant the commit of the decision succeeds: it
  -- sets the committed state to the table's entry for the pair and the entropy to zero, and counts the
  -- commit and the acceptance. Otherwise it fails, naming the proof if there is none and else the
  -- invariant, and only counts the refusal. The counts wrap at 64 bits.
  pub reconcile-commit :
      (s : ReconciliationState f.Carrier) (current previous : Glyph)
      (proof_exists invariant_ok : Bool)
      → (g : Glyph) × (d : ReconciliationDecision f.Carrier) × (next_glyph current previous
          ≡ some g)
        × (reconcile f current previous proof_exists invariant_ok ≡ some (ok d))
        × (commit s d ≡ committed s g f.zero proof_exists invariant_ok)
  unfolding reconcile
  reconcile-commit s current previous proof_exists invariant_ok =
      let (g, e) = next_glyph-total current previous in
      let r : DispatchResult = record {
        current = current;
        previous = previous;
        next = g;
        absorbed = is_absorber g;
        is_valid = true;
      } in
      (
        g,
        decide f current previous proof_exists invariant_ok r,
        e,
        rw (dispatch-next_glyph current previous g e, reconcile) refl,
        commit-decide s current previous proof_exists invariant_ok r refl,
      )

-- A nonce is accepted exactly when it has not been seen, and is seen from then on.
pub check_and_register_once :
    (r : NonceRegistry) (n m : ℕ)
    → (((check_and_register r n).1 ≡ ok tt) ↔ (has n r.seen ≡ false))
      × (has m (check_and_register r n).0.seen ≡ ((m == n) || has m r.seen))
unfolding check_and_register has
check_and_register_once r n m = ((λ h. ground arith, λ h. ground arith), ground (arith, ==→eq m n))

byte_small : (g : Glyph) → ltb 5 (to_byte g) ≡ not (leb (index g) 2)
unfolding to_byte index
byte_small pi = refl
byte_small gamma = refl
byte_small delta = refl
byte_small omega = refl
byte_small lambda = refl
byte_small psi = refl

-- The record that crosses to C-- passes the check of its glyphs exactly when all three glyphs are
-- among Pi, Gamma and Delta, whose bytes are below six.
pub validate_glyphs_iff :
    (f : Float) (d : ReconciliationDecision f.Carrier)
    → (validate_glyphs (from_reconciliation f d) ≡ none) ↔ (
        (leb (index d.current_state) 2
          && (leb (index d.previous_state) 2 && leb (index (next_or_lambda d.next_state)) 2))
        ≡ true)
unfolding from_reconciliation validate_glyphs
validate_glyphs_iff f d = (
  λ h. ground (
    arith,
    byte_small d.current_state,
    byte_small d.previous_state,
    byte_small (next_or_lambda d.next_state),
  ),
  λ h. ground (
    arith,
    byte_small d.current_state,
    byte_small d.previous_state,
    byte_small (next_or_lambda d.next_state),
  ),
)
