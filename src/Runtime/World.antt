-- ===== src/Runtime/World.antt =====
-- rust/crates/hyperkitty-runtime/src: the world (world.rs), actions (action.rs), ticks (tick.rs) and
-- the runtime (advancement.rs). The `BTreeMap` of facts is read by `get` only: it is the function
-- from a key to its entry. `apply` and `advance_tick` return `Ok(())` on every path, so that their
-- value is the new state. The receipt hashes a formatted text: it is a parameter.
pub mod History
use hyperkitty_constraint_ds.Prelude.{
  ℕ, ◌+◌, ◌%◌, ◌^◌, ◌≡◌, refl, Option, none, some, Text, text_eq, List, [], ◌∷◌, ◌++◌,
  if◌then◌else◌,
}
use hyperkitty_constraint_ds.Worm.Bytes.{Bytes}

pub record WorldState : Type 0 where
  pub facts : Text → Option Text

mutual
  pub data Action : Type 0 where
    set_fact : Text → Text → Action
    remove_fact : Text → Action
    batch : Actions → Action

  -- `Vec<Action>`
  pub data Actions : Type 0 where
    stop : Actions
    then_do : Action → Actions → Actions

unfoldable pub new_world : WorldState
new_world = record { facts = λ key. none }

unfoldable pub get : WorldState → Text → Option Text
get w key = w.facts key

unfoldable pub set : WorldState → Text → Text → WorldState
unfolding text_eq
set w key value = record { facts = λ k. if text_eq k key then some value else w.facts k }

unfoldable pub remove : WorldState → Text → WorldState
unfolding text_eq
remove w key = record { facts = λ k. if text_eq k key then none else w.facts k }

unfoldable mutual
  unfolding set remove

  pub apply : Action → WorldState → WorldState
  apply (set_fact k v) w = set w k v
  apply (remove_fact k) w = remove w k
  apply (batch acts) w = apply_all acts w

  pub apply_all : Actions → WorldState → WorldState
  apply_all stop w = w
  apply_all (then_do a acts) w = apply_all acts (apply a w)

pub record Tick : Type 0 where
  pub index : ℕ
  pub sigma_in : WorldState
  pub action : Action
  pub sigma_out : WorldState
  pub receipt : Bytes

pub record Runtime : Type 0 where
  pub current_state : WorldState
  pub tick_history : List Tick
  pub current_index : ℕ

unfoldable pub new_runtime : Runtime
unfolding new_world
new_runtime = record { current_state = new_world; tick_history = []; current_index = 0 }

module _ (receipt_of : ℕ → Action → Bytes) where
  unfoldable pub new_tick : ℕ → WorldState → Action → WorldState → Tick
  new_tick index sigma_in action sigma_out = record {
    index = index;
    sigma_in = sigma_in;
    action = action;
    sigma_out = sigma_out;
    receipt = receipt_of index action;
  }

  -- The index is a `u64`, with the wrap of a release build.
  unfoldable pub advance_tick : Runtime → Action → Runtime
  unfolding new_tick apply
  advance_tick r action =
      let sigma_out = apply action r.current_state in
      record {
        current_state = sigma_out;
        tick_history =
            r.tick_history ++ (new_tick r.current_index r.current_state action sigma_out ∷ []);
        current_index = (r.current_index + 1) % 2 ^ 64;
      }
