-- ===== src/Examples/Runtime.antt =====
-- The runtime with natural numbers in place of `f64`.
use hyperkitty_constraint_ds.Prelude.{ℕ, ◌≡◌, ◌↔◌, refl, true, ◌&&◌, none, some, [], ◌∷◌, ltb, leb}
use hyperkitty_constraint_ds.Core.{Result.ok}
use hyperkitty_constraint_ds.Glyph.{Glyph, pi, gamma, delta, lambda, psi, index}
use hyperkitty_constraint_ds.Qra.{next_glyph}
use hyperkitty_constraint_ds.Runtime.Float.{Float, IsFloat}
use hyperkitty_constraint_ds.Runtime.Validity.{ValidityGate, ValidityInput, check}
use hyperkitty_constraint_ds.Runtime.Reconciliation.{
  ReconciliationDecision, ReconciliationState, new_state, reconcile, commit, reject,
}
use hyperkitty_constraint_ds.Runtime.Bridge.{validate_glyphs, from_reconciliation, next_or_lambda}
use hyperkitty_constraint_ds.Worm.Bytes.{Bytes}
use hyperkitty_constraint_ds.Runtime.World.{
  Action, set_fact, remove_fact, batch, stop, then_do, Runtime, new_world, advance_tick,
}
use hyperkitty_constraint_ds.Runtime.World.History.{LeadsTo, advance_tick-LeadsTo}
use hyperkitty_constraint_ds.Runtime.Laws.{committed, reconcile-commit, validate_glyphs_iff}

abbrev naturals : Float
naturals = record {
  Carrier = ℕ;
  is_finite = λ x. true;
  lt = λ x y. ltb x y;
  le = λ x y. leb x y;
  zero = 0;
  max_entropy = 20;
}

naturals-IsFloat : IsFloat naturals
naturals-IsFloat = record { finite_zero = refl; lt_zero = refl; lt_max = refl }

abbrev input : ValidityInput ℕ
input = record {
  current_state = pi;
  previous_state = gamma;
  route_result = some delta;
  entropy = 15;
  proof_exists = true;
  invariant_ok = true;
}

abbrev start : ReconciliationState ℕ
start = new_state naturals lambda

reconcile-commit_example :
    (g : Glyph) × (d : ReconciliationDecision ℕ) × (next_glyph pi gamma ≡ some g)
    × (reconcile naturals pi gamma true true ≡ some (ok d))
    × (commit start d ≡ committed start g 0 true true)
reconcile-commit_example = reconcile-commit naturals naturals-IsFloat start pi gamma true true

abbrev refused : ReconciliationDecision ℕ
refused = reject psi gamma 0 (check naturals input) ValidityGate.proof

validate_glyphs_iff_example : (validate_glyphs (from_reconciliation naturals refused) ≡ none) ↔ (
    (leb (index refused.current_state) 2
      && (leb (index refused.previous_state) 2
          && leb (index (next_or_lambda refused.next_state)) 2))
    ≡ true)
validate_glyphs_iff_example = validate_glyphs_iff naturals refused

abbrev receipt_of : ℕ → Action → Bytes
receipt_of index action = index ∷ []

abbrev add_fact : Action
add_fact = batch (then_do (set_fact (1 ∷ []) (2 ∷ [])) (then_do (remove_fact (3 ∷ [])) stop))

abbrev runtime : Runtime
runtime = record { current_state = new_world; tick_history = []; current_index = 0 }

runtime-LeadsTo :
    LeadsTo new_world 0 runtime.tick_history runtime.current_state runtime.current_index
unfolding LeadsTo
runtime-LeadsTo = (refl, refl)

advance_tick-LeadsTo_example :
    LeadsTo new_world 0
      (advance_tick receipt_of runtime add_fact).tick_history
      (advance_tick receipt_of runtime add_fact).current_state
      (advance_tick receipt_of runtime add_fact).current_index
advance_tick-LeadsTo_example =
    advance_tick-LeadsTo receipt_of new_world runtime add_fact runtime-LeadsTo
