-- ===== src/Continuity/Bitmask.antt =====
-- rust/crates/hyperkitty-continuity/src/environment.rs: a mask of 64 bits, each set and read by its
-- position, the lowest bit first.
use native.Mathlib.Numerals.{unary_clauses}
use hyperkitty_constraint_ds.Prelude.{
  ◌&&◌, ℕ, zero, suc, ◌+◌, ◌*◌, ◌/◌, ◌%◌, ◌^◌, ◌<◌, ◌≡◌, refl, ap, ◌∙◌, Text, Bool, true, false,
  if◌then◌else◌, ltb, ◌==◌, arith, Bool-cases, inl, inr,
}

pub record EnvironmentBitmask : Type 0 where
  pub mask : ℕ
  pub env_var_name : Text

unfoldable pub new_bitmask : Text → EnvironmentBitmask
new_bitmask var_name = record { mask = 0; env_var_name = var_name }

-- `(mask & (1 << position)) != 0`
unfoldable pub bit : ℕ → ℕ → Bool
bit mask zero = mask % 2 == 1
bit mask (suc position) = bit (mask / 2) position

-- `mask | (1 << position)`, or `mask & !(1 << position)`.
unfoldable pub with_bit : ℕ → ℕ → Bool → ℕ
with_bit mask zero value = mask / 2 * 2 + (if value then 1 else 0)
with_bit mask (suc position) value = with_bit (mask / 2) position value * 2 + mask % 2

unfoldable pub set_bit : EnvironmentBitmask → ℕ → Bool → EnvironmentBitmask
unfolding with_bit
set_bit b position value =
    if ltb position 64 then record b { mask = with_bit b.mask position value } else b

unfoldable pub get_bit : EnvironmentBitmask → ℕ → Bool
unfolding bit
get_bit b position = if ltb position 64 then bit b.mask position else false

low : (n : ℕ) (v : Bool) → (n * 2 + (if v then 1 else 0)) % 2 == 1 ≡ v
low n true = ground arith
low n false = ground arith

half_low : (n : ℕ) (v : Bool) → (n * 2 + (if v then 1 else 0)) / 2 ≡ n
half_low n true = omega arith
half_low n false = omega arith

same_suc : (q p : ℕ) (v w : Bool) → (if q == p then v else w) ≡ (if suc q == suc p then v else w)
same_suc q p v w = ground arith

-- The bits are read below 64 only.
in_range :
    (p q : ℕ) (v w : Bool)
    → ltb p 64 ≡ true
    → (if ltb q 64 then (if q == p then v else w) else false)
      ≡ (if q == p then v else (if ltb q 64 then w else false))
in_range p q v w l = ground (arith, l)

bit-with_bit :
    (mask p q : ℕ) (v : Bool) → bit (with_bit mask p v) q ≡ (if q == p then v else bit mask q)
unfolding bit with_bit
bit-with_bit mask zero zero v = low (mask / 2) v
bit-with_bit mask zero (suc q) v = ap (λ n. bit n q) (half_low (mask / 2) v) ∙ ground arith
bit-with_bit mask (suc p) zero v = ground arith
bit-with_bit mask (suc p) (suc q) v =
    let half : (with_bit (mask / 2) p v * 2 + mask % 2) / 2 ≡ with_bit (mask / 2) p v =
      omega arith in
    ap (λ n. bit n q) half ∙ bit-with_bit (mask / 2) p q v ∙ same_suc q p v (bit (mask / 2) q)

double : (w : ℕ) → 2 ^ suc w ≡ 2 ^ w * 2
double w = simp unary_clauses refl

with_bit-fits : (mask p w : ℕ) (v : Bool) → p < w → mask < 2 ^ w → with_bit mask p v < 2 ^ w
unfolding with_bit
with_bit-fits mask p zero v l m = omega (arith, l)
with_bit-fits mask zero (suc w) true l m = omega (arith, m, double w)
with_bit-fits mask zero (suc w) false l m = omega (arith, m, double w)
with_bit-fits mask (suc p) (suc w) v l m =
    let ih = with_bit-fits (mask / 2) p w v (omega (arith, l)) (omega (arith, m, double w)) in
    omega (arith, ih, double w)

-- A bit that is set at a position below 64 is read back, the bits at other positions stay, a position
-- of 64 or more changes nothing, and the mask still fits in 64 bits.
pub get_bit-set_bit :
    (b : EnvironmentBitmask) (p q : ℕ) (v : Bool)
    → b.mask < 2 ^ 64
    → (get_bit (set_bit b p v) q ≡ (if ltb p 64 && q == p then v else get_bit b q))
      × ((set_bit b p v).mask < 2 ^ 64)
unfolding get_bit set_bit
get_bit-set_bit b p q v m = elim (Bool-cases (ltb p 64)) [
  | inl l ↦ rw l (
    rw (bit-with_bit b.mask p q v) (in_range p q v (bit b.mask q) l),
    with_bit-fits b.mask p 64 v (ground (arith, l)) m,
  )
  | inr n ↦ rw n (refl, m)
]
