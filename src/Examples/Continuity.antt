-- ===== src/Examples/Continuity.antt =====
-- A mask and a shared memory with a few entries.
use hyperkitty_constraint_ds.Prelude.{
  ◌^◌, ◌<◌, ◌≡◌, refl, codes, true, ◌&&◌, [], ◌∷◌, ltb, ◌==◌, if◌then◌else◌, arith,
}
use hyperkitty_constraint_ds.Prelude.Maps.{IsMap, lookup, text_key}
use hyperkitty_constraint_ds.Continuity.Bitmask.{
  EnvironmentBitmask, set_bit, get_bit, get_bit-set_bit,
}
use hyperkitty_constraint_ds.Continuity.Memory.{SharedMemory}

abbrev flags : EnvironmentBitmask
flags = record { mask = 5; env_var_name = codes "HYPERKITTY" }

get_bit-set_bit_example :
    (get_bit (set_bit flags 63 true) 63
      ≡ (if ltb 63 64 && 63 == 63 then true else get_bit flags 63))
    × ((set_bit flags 63 true).mask < 2 ^ 64)
get_bit-set_bit_example = get_bit-set_bit flags 63 63 true (omega arith)

abbrev memory : SharedMemory
memory = record { entries = (codes "seed", 1 ∷ 2 ∷ []) ∷ []; version = 4 }

memory-IsMap : IsMap memory.entries
unfolding lookup
memory-IsMap = (refl, tt)
