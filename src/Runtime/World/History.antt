-- ===== src/Runtime/World/History.antt =====
-- The history of a runtime is a path of actions to its current world.
use hyperkitty_constraint_ds.Prelude.{ℕ, ◌+◌, ◌%◌, ◌^◌, ◌≡◌, refl, List, [], ◌∷◌, ◌++◌}
use hyperkitty_constraint_ds.Worm.Bytes.{Bytes}
use hyperkitty_constraint_ds.Runtime.World.{
  WorldState, Action, apply, Tick, Runtime, new_world, new_runtime, new_tick, advance_tick,
}

-- The history leads from one world and index to another, each tick by its action.
unfoldable pub LeadsTo : WorldState → ℕ → List Tick → WorldState → ℕ → Type 0
unfolding apply
LeadsTo w i [] end n = (w ≡ end) × (i ≡ n)
LeadsTo w i (t ∷ ts) end n =
    (t.index ≡ i)
    × (t.sigma_in ≡ w)
    × (t.sigma_out ≡ apply t.action w)
    × LeadsTo t.sigma_out ((i + 1) % 2 ^ 64) ts end n

pub new_runtime-LeadsTo :
    LeadsTo new_world 0 new_runtime.tick_history new_runtime.current_state new_runtime.current_index
unfolding LeadsTo new_runtime
new_runtime-LeadsTo = (refl, refl)

LeadsTo-append :
    (w : WorldState) (i : ℕ) (ts : List Tick) (end : WorldState) (n : ℕ) (t : Tick)
    → LeadsTo w i ts end n
    → t.index ≡ n
    → t.sigma_in ≡ end
    → t.sigma_out ≡ apply t.action end
    → LeadsTo w i (ts ++ (t ∷ [])) t.sigma_out ((n + 1) % 2 ^ 64)
unfolding LeadsTo
LeadsTo-append w i [] end n t (e, f) a b c = rw (e, f) (a, b, c, (refl, refl))
LeadsTo-append w i (s ∷ ts) end n t (a', b', c', l) a b c =
    (a', b', c', LeadsTo-append s.sigma_out ((i + 1) % 2 ^ 64) ts end n t l a b c)

-- A history that leads from a first world to the current one by the actions of its ticks, with
-- consecutive indices, still does after the next tick.
pub advance_tick-LeadsTo :
    (receipt_of : ℕ → Action → Bytes) (first : WorldState) (r : Runtime) (action : Action)
    → LeadsTo first 0 r.tick_history r.current_state r.current_index
    → LeadsTo first 0
        (advance_tick receipt_of r action).tick_history
        (advance_tick receipt_of r action).current_state
        (advance_tick receipt_of r action).current_index
unfolding advance_tick new_tick
advance_tick-LeadsTo receipt_of first r action h =
    LeadsTo-append first 0 r.tick_history r.current_state r.current_index
      (new_tick receipt_of r.current_index r.current_state action (apply action r.current_state)) h
      refl refl refl
