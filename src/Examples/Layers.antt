-- ===== src/Examples/Layers.antt =====
-- Glyphs, witnesses, ledgers and points at concrete values.
use hyperkitty_constraint_ds.Prelude.{
  ◌≤◌, ◌≡◌, ◌≢◌, ◌↔◌, ◌⊎◌, refl, true, none, some, List, [], ◌∷◌, length, replicate, ◌+◌, ◌%◌, ◌^◌,
  arith,
}
use hyperkitty_constraint_ds.Core.{Result.ok}
use hyperkitty_constraint_ds.Glyph.{Glyph, pi, gamma, delta, omega, lambda}
use hyperkitty_constraint_ds.Qra.Witness.{Witness}
use hyperkitty_constraint_ds.Qra.Dispatch.{route_to_convergence}
use hyperkitty_constraint_ds.Qra.Routes.{IsRoute, last_of, route_to_convergence-ends}
use hyperkitty_constraint_ds.Sla.Ledger.{
  Ledger, IsLedger, neg, new, is_balanced, compose, evolve, new_sum, encode_wire_frame,
}
use hyperkitty_constraint_ds.Sla.Balance.{new-balanced, compose-balanced, evolve-balanced}
use hyperkitty_constraint_ds.Sla.Sphere.{
  vec3, vec3_from_glyph, round_trip_qlg, validate_full_reconciliation, validate_central_isomorphism,
  sla_to_qra, qra_to_sla,
}
use hyperkitty_constraint_ds.Sla.Sphere.Laws.{round_trip_qlg_iff}

abbrev witness : Witness
witness = record { first = pi; second = gamma; third = delta }

route_to_convergence-ends_example :
    (gs : List Glyph) × (route_to_convergence pi ≡ some (ok (pi ∷ gs)))
    × IsRoute pi lambda gs
    × (((pi ≢ lambda) × (last_of pi gs ≡ omega) × (length gs ≤ 2))
        ⊎ ((pi ≡ lambda) × (gs ≡ replicate 100 lambda)))
route_to_convergence-ends_example = route_to_convergence-ends pi

abbrev five : Ledger
five = new 1 5 42

abbrev three : Ledger
three = new 2 3 42

abbrev step : Ledger
step = new 2 3 0

five_balanced : is_balanced five ≡ true
five_balanced = new-balanced 1 5 42 (ground arith)

three_balanced : is_balanced three ≡ true
three_balanced = new-balanced 2 3 42 (ground arith)

compose-balanced_example :
    ((five.omega ≡ three.omega)
      × ((c : Ledger) × (compose five three ≡ some c)
          × (is_balanced c ≡ true)
          × (c.omega ≡ five.omega)))
    ⊎ ((five.omega ≢ three.omega) × (compose five three ≡ none))
compose-balanced_example = compose-balanced five three five_balanced three_balanced

evolve-balanced_example :
    (((step.delta + step.iota) % 2 ^ 64 ≡ 0)
      × (step.omega ≡ 0)
      × ((c : Ledger) × (evolve five step ≡ some c)
          × ((c.delta + c.iota) % 2 ^ 64 ≡ 0)
          × (c.s ≡ (five.s + step.s) % 2 ^ 64)
          × (c.delta ≡ (five.delta + step.delta) % 2 ^ 64)
          × (c.omega ≡ five.omega)))
    ⊎ ((((step.delta + step.iota) % 2 ^ 64 ≢ 0) ⊎ (step.omega ≢ 0)) × (evolve five step ≡ none))
evolve-balanced_example = evolve-balanced five step

five-IsLedger : IsLedger five
unfolding new neg
five-IsLedger = record {
  fits_s = ground arith;
  fits_delta = ground arith;
  fits_iota = ground arith;
  fits_omega = ground arith;
}

round_trip_qlg_iff_example :
    round_trip_qlg (vec3 0 1 0) ≡ some (vec3 0 1 0)
    ↔ ((g : Glyph) × (vec3 0 1 0 ≡ vec3_from_glyph g) × (vec3 0 1 0 ≡ vec3 0 1 0))
round_trip_qlg_iff_example = round_trip_qlg_iff (vec3 0 1 0) (vec3 0 1 0)

full_reconciliation : validate_full_reconciliation ≡ some true
unfolding validate_full_reconciliation
full_reconciliation = refl

central_isomorphism : validate_central_isomorphism ≡ true
unfolding validate_central_isomorphism
central_isomorphism = refl

wire_frame :
    encode_wire_frame (record new_sum { delta_acc = 5; omega = 3 }) ≡ 0xF5 ∷ 0x0F ∷ 0xFF ∷ 0x3A ∷ []
unfolding encode_wire_frame new_sum
wire_frame = refl

gamma_unread : sla_to_qra (qra_to_sla gamma) ≡ none
unfolding sla_to_qra qra_to_sla
gamma_unread = refl
