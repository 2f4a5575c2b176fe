-- ===== src/Qra/Witness.antt =====
-- hyperkitty-witness (rust/crates/hyperkitty-witness/src/lib.rs): a witness of three glyphs and the
-- loop that evolves it. The loop is on fuel; `none` is a panic or the end of the fuel.
use hyperkitty_constraint_ds.Prelude.{
  ℕ, zero, suc, ◌+◌, ◌%◌, ◌^◌, Bool, true, false, ◌&&◌, Option, none, some, List, [], ◌∷◌, ◌++◌,
  leb, if◌then◌else◌,
}
use hyperkitty_constraint_ds.Glyph.{Glyph, pi, gamma, delta, is_absorber, is_identity}
use hyperkitty_constraint_ds.Qra.{evolve_witness}

pub record Witness : Type 0 where
  pub first : Glyph
  pub second : Glyph
  pub third : Glyph

unfoldable pub new : Glyph → Glyph → Glyph → Witness
new g0 g1 g2 = record { first = g0; second = g1; third = g2 }

unfoldable pub as_slice : Witness → List Glyph
as_slice w = w.first ∷ w.second ∷ w.third ∷ []

-- `evolved[0], evolved[1], evolved[2]`
unfoldable pub of_evolved : Option (List Glyph) → Option Witness
of_evolved (some (a ∷ b ∷ c ∷ l)) = some (record { first = a; second = b; third = c })
of_evolved _ = none

unfoldable pub evolve : Witness → Option Witness
unfolding evolve_witness as_slice of_evolved
evolve w = of_evolved (evolve_witness (as_slice w))

unfoldable pub is_exhausted : Witness → Bool
unfolding is_absorber
is_exhausted w = is_absorber w.first && (is_absorber w.second && is_absorber w.third)

unfoldable pub is_invalid_fixed_point : Witness → Bool
unfolding is_identity
is_invalid_fixed_point w = is_identity w.first && (is_identity w.second && is_identity w.third)

pub record WitnessHistory : Type 0 where
  pub states : List Witness
  pub exhausted : Bool
  pub fixed_point : Bool

-- The loop of `exhaust`, from a witness and the history with that witness at its end.
unfoldable pub exhaust_loop : ℕ → Witness → List Witness → Option WitnessHistory
unfolding is_exhausted is_invalid_fixed_point evolve
exhaust_loop zero w history = none
exhaust_loop (suc fuel) w history =
    if is_exhausted w
    then some (record { states = history; exhausted = true; fixed_point = false })
    else (if is_invalid_fixed_point w
        then some (record { states = history; exhausted = false; fixed_point = true })
        else elim (evolve w) [
          | none ↦ none
          | some next ↦ exhaust_loop fuel next (history ++ (next ∷ []))
        ])

unfoldable pub exhaust : ℕ → Witness → Option WitnessHistory
unfolding exhaust_loop
exhaust fuel w = exhaust_loop fuel w (w ∷ [])

pub record WitnessCertificate : Type 0 where
  pub witness : Witness
  pub qlg_certified : Bool
  pub issue_time : ℕ
  pub expiry : ℕ

-- `issue_time + 1000` of `u64`, with the wrap of a release build.
unfoldable pub new_certificate : Witness → ℕ → WitnessCertificate
new_certificate w issue_time = record {
  witness = w;
  qlg_certified = true;
  issue_time = issue_time;
  expiry = (issue_time + 1000) % 2 ^ 64;
}

unfoldable pub is_valid : WitnessCertificate → ℕ → Bool
is_valid c current_time = leb current_time c.expiry && c.qlg_certified

unfoldable pub canonical : Witness
canonical = record { first = pi; second = gamma; third = delta }
