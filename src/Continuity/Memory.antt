-- ===== src/Continuity/Memory.antt =====
-- rust/crates/hyperkitty-continuity/src: shared_memory.rs, seed_chain.rs and inode.rs. A `u64` wraps as
-- in a release build.
use hyperkitty_constraint_ds.Prelude.{
  ℕ, ◌+◌, ◌%◌, ◌^◌, ◌≡◌, refl, Text, text_eq, Bool, false, Option, some, [], if◌then◌else◌,
}
use hyperkitty_constraint_ds.Prelude.Maps.{
  HashMap, IsMap, insert, lookup, lookup-insert, insert-IsMap, text_key,
}
use hyperkitty_constraint_ds.Core.{Result, ok}
use hyperkitty_constraint_ds.Worm.Bytes.{Bytes}

pub record SharedMemory : Type 0 where
  pub entries : HashMap Text Bytes
  pub version : ℕ

unfoldable pub new_memory : SharedMemory
new_memory = record { entries = []; version = 0 }

unfoldable pub write : SharedMemory → Text → Bytes → SharedMemory
unfolding insert
write m key value = record {
  entries = insert key value m.entries;
  version = (m.version + 1) % 2 ^ 64;
}

unfoldable pub read : SharedMemory → Text → Option Bytes
unfolding lookup
read m key = lookup key m.entries

pub record SeedChain : Type 0 where
  pub seed : Bytes
  pub index : ℕ

unfoldable pub genesis : Bytes → SeedChain
genesis initial_seed = record { seed = initial_seed; index = 0 }

-- The operation is not used: the seed stays.
unfoldable pub advance : SeedChain → Bytes → SeedChain × Bytes
advance c operation = (record c { index = (c.index + 1) % 2 ^ 64 }, c.seed)

pub record InodeFlags : Type 0 where
  pub base_dir : Text

unfoldable pub set_flag : InodeFlags → Text → Result (Unit {0})
set_flag f name = ok tt

unfoldable pub clear_flag : InodeFlags → Text → Result (Unit {0})
clear_flag f name = ok tt

unfoldable pub get_flag : InodeFlags → Text → Bool
get_flag f name = false

-- A read after a write gives the value written under its key and what was there under any other key,
-- one entry is kept for each key, and the version goes up by one, with the wrap of 64 bits.
pub read-write :
    (m : SharedMemory) (key : Text) (value : Bytes) (other : Text)
    → IsMap m.entries
    → (read (write m key value) other ≡ (if text_eq key other then some value else read m other))
      × IsMap (write m key value).entries
      × ((write m key value).version ≡ (m.version + 1) % 2 ^ 64)
unfolding read write
read-write m key value other h =
    (lookup-insert key value m.entries other, insert-IsMap key value m.entries h, refl)
