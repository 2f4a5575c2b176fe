-- ===== src/Sla/Ledger.antt =====
-- The ledger, its composition and evolution, its wire form, and the accumulator. The bytes of the
-- wire form are little-endian: the reverse of the big-endian bytes.
use Prim.Native.Nat.{bit_and, bit_or, bit_xor}
use hyperkitty_constraint_ds.Prelude.{
  ℕ, zero, suc, ◌+◌, ◌-◌, ◌*◌, ◌/◌, ◌%◌, ◌<◌, Bool, true, false, not, ◌&&◌, Option, none, some, [],
  ◌∷◌, ◌++◌, ◌==◌, if◌then◌else◌,
}
use hyperkitty_constraint_ds.Worm.Bytes.{Bytes, slice}

abbrev pub modulus : ℕ
modulus = 18446744073709551616

unfoldable pub add : ℕ → ℕ → ℕ
add a b = (a + b) % modulus

unfoldable pub neg : ℕ → ℕ
neg a = (modulus - a) % modulus

pub record Ledger : Type 0 where
  pub s : ℕ
  pub delta : ℕ
  pub iota : ℕ
  pub omega : ℕ

-- The numbers of a ledger fit into 64 bits.
pub record IsLedger (l : Ledger) : Type 0 where
  pub fits_s : l.s < modulus
  pub fits_delta : l.delta < modulus
  pub fits_iota : l.iota < modulus
  pub fits_omega : l.omega < modulus

unfoldable pub new : ℕ → ℕ → ℕ → Ledger
unfolding neg
new s delta omega = record { s = s; delta = delta; iota = neg delta; omega = omega }

unfoldable pub identity : ℕ → Ledger
unfolding new
identity omega = new 0 0 omega

unfoldable pub reconciliation : Ledger → ℕ
unfolding add
reconciliation l = add l.delta l.iota

unfoldable pub is_balanced : Ledger → Bool
unfolding reconciliation
is_balanced l = reconciliation l == 0

unfoldable pub compose : Ledger → Ledger → Option Ledger
unfolding add
compose a b =
    if not (a.omega == b.omega)
    then none
    else some (record {
      s = add a.s b.s;
      delta = add a.delta b.delta;
      iota = add a.iota b.iota;
      omega = a.omega;
    })

unfoldable pub evolve : Ledger → Ledger → Option Ledger
unfolding add new
evolve l increment =
    if not (add increment.delta increment.iota == 0)
    then none
    else (if not (increment.omega == 0)
        then none
        else some (new (add l.s increment.s) (add l.delta increment.delta) l.omega))

-- `to_le_bytes` of an integer of so many bytes, and `from_le_bytes`.
unfoldable pub to_le_bytes : ℕ → ℕ → Bytes
to_le_bytes zero n = []
to_le_bytes (suc w) n = n % 256 ∷ to_le_bytes w (n / 256)

unfoldable pub from_le_bytes : Bytes → ℕ
from_le_bytes [] = 0
from_le_bytes (b ∷ bs) = b + 256 * from_le_bytes bs

unfoldable pub encode : Ledger → Bytes
unfolding to_le_bytes
encode l = to_le_bytes 8 l.s ++ (to_le_bytes 8 l.delta ++ to_le_bytes 8 l.omega)

unfoldable pub decode : Bytes → Ledger
unfolding from_le_bytes slice new
decode bytes =
    new (from_le_bytes (slice 0 8 bytes)) (from_le_bytes (slice 8 8 bytes))
      (from_le_bytes (slice 16 8 bytes))

pub record LedgerSum : Type 0 where
  pub s_acc : ℕ
  pub delta_acc : ℕ
  pub iota_acc : ℕ
  pub omega : ℕ
  pub count : ℕ

unfoldable pub new_sum : LedgerSum
new_sum = record { s_acc = 0; delta_acc = 0; iota_acc = 0; omega = 0; count = 0 }

-- The accumulator after a point whose omega it has taken over or agrees with.
unfoldable pub accumulate : LedgerSum → Ledger → LedgerSum
unfolding add neg
accumulate a p = record {
  s_acc = add a.s_acc p.s;
  delta_acc = add a.delta_acc p.delta;
  iota_acc = neg (add a.delta_acc p.delta);
  omega = p.omega;
  count = add a.count 1;
}

-- The accumulator and whether `push` returned `Some(())`.
unfoldable pub push : LedgerSum → Ledger → LedgerSum × Bool
unfolding is_balanced accumulate
push a p =
    if not (is_balanced p)
    then (a, false)
    else (if a.count == 0
        then (accumulate a p, true)
        else (if not (p.omega == a.omega) then (a, false) else (accumulate a p, true)))

unfoldable pub sum_is_balanced : LedgerSum → Bool
unfolding add
sum_is_balanced a = add a.delta_acc a.iota_acc == 0

pub record Certificate : Type 0 where
  pub ledger : Ledger
  pub balanced : Bool
  pub balance_value : ℕ
  pub omega_preserved : Bool
  pub omega : ℕ

unfoldable pub certificate : Ledger → Certificate
unfolding is_balanced reconciliation
certificate l = record {
  ledger = l;
  balanced = is_balanced l;
  balance_value = reconciliation l;
  omega_preserved = true;
  omega = l.omega;
}

unfoldable pub validate : Certificate → Bool
validate c = c.balanced && c.omega_preserved

-- The low byte of a word, and its negation as a `u8`.
abbrev pub low_byte : ℕ → ℕ
low_byte n = n % 256

abbrev pub neg_byte : ℕ → ℕ
neg_byte n = (256 - n % 256) % 256

-- `<< 4` of a `u8` drops the high bits.
unfoldable pub encode_wire_frame : LedgerSum → Bytes
encode_wire_frame a =
    let inv_flag = low_byte (low_byte a.omega * 16) in
    let terminal = bit_or 0x0A inv_flag in
    let primitives =
      bit_or (bit_and (low_byte a.delta_acc) 0x0F) (bit_and (neg_byte a.delta_acc) 0xF0) in
    primitives ∷ 0x0F ∷ 0xFF ∷ terminal ∷ []

-- The loop of `hash_symbol` over the bytes of the string.
unfoldable pub hash_loop : ℕ → Bytes → ℕ
hash_loop h [] = h
hash_loop h (b ∷ bs) = hash_loop (bit_xor h b * 0x100000001b3 % modulus) bs

-- The argument is the string's `as_bytes()`.
unfoldable pub hash_symbol : Bytes → ℕ
unfolding hash_loop
hash_symbol bytes = hash_loop 0xcbf29ce484222325 bytes
