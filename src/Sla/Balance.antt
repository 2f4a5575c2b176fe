-- ===== src/Sla/Balance.antt =====
-- The balance `delta + iota = 0` as an invariant, and the wire form.
use hyperkitty_constraint_ds.Prelude.{
  ℕ, zero, suc, ◌+◌, ◌%◌, ◌^◌, ◌/◌, ◌<◌, ◌≡◌, ◌⊎◌, inl, inr, ◌≢◌, Bool-cases, ==→eq, eq→==, ◌&&◌,
  ◌||◌, refl, sym, ap, ◌∙◌, Bool, true, false, none, some, [], ◌++◌, append-nil, length, ◌==◌,
  arith, if_intro, if◌then◌else◌,
}
use hyperkitty_constraint_ds.Worm.Bytes.{limit, slice, slice-first, slice-append}
use hyperkitty_constraint_ds.Sla.Ledger.{
  Ledger, IsLedger, modulus, add, neg, new, reconciliation, is_balanced, compose, evolve,
  to_le_bytes, from_le_bytes, encode, decode, LedgerSum, new_sum, accumulate, push, sum_is_balanced,
}

-- A ledger from the constructor is balanced, for every debit.
pub new-balanced : (s delta omega : ℕ) → delta < modulus → is_balanced (new s delta omega) ≡ true
unfolding is_balanced reconciliation new add neg
new-balanced s delta w h = ground arith

sums_balance :
    (a b : Ledger)
    → is_balanced a ≡ true
    → is_balanced b ≡ true
    → (add (add a.delta b.delta) (add a.iota b.iota) == 0) ≡ true
unfolding is_balanced reconciliation add
sums_balance a b h k = ground arith

-- Balanced ledgers with one omega compose to a balanced ledger with that omega, and ledgers with
-- different omegas do not compose.
pub compose-balanced :
    (a b : Ledger)
    → is_balanced a ≡ true
    → is_balanced b ≡ true
    → ((a.omega ≡ b.omega)
        × ((c : Ledger) × (compose a b ≡ some c) × (is_balanced c ≡ true) × (c.omega ≡ a.omega)))
      ⊎ ((a.omega ≢ b.omega) × (compose a b ≡ none))
unfolding compose is_balanced reconciliation add
compose-balanced a b h k = elim (Bool-cases (a.omega == b.omega)) [
  | inl e ↦ inl (
    ==→eq a.omega b.omega e,
    (
      record {
        s = add a.s b.s;
        delta = add a.delta b.delta;
        iota = add a.iota b.iota;
        omega = a.omega;
      },
      rw e refl,
      sums_balance a b h k,
      refl,
    ),
  )
  | inr e ↦ inr (λ same. ground (arith, eq→== a.omega b.omega same), rw e refl)
]

add_lt : (a b : ℕ) → add a b < modulus
unfolding add
add_lt a b = omega arith

evens : (d : ℕ) → d < modulus → (d + neg d) % 2 ^ 64 ≡ 0
unfolding neg
evens d h = omega (arith, h)

-- An increment whose debit and credit add up to zero modulo `2 ^ 64` and whose omega is zero takes
-- every ledger, balanced or not, to one of which the same holds, with its omega and with the sums of the debits and
-- of the `s` modulo `2 ^ 64`; any other increment is refused.
pub evolve-balanced :
    (l i : Ledger)
    → (((i.delta + i.iota) % 2 ^ 64 ≡ 0)
        × (i.omega ≡ 0)
        × ((c : Ledger) × (evolve l i ≡ some c)
            × ((c.delta + c.iota) % 2 ^ 64 ≡ 0)
            × (c.s ≡ (l.s + i.s) % 2 ^ 64)
            × (c.delta ≡ (l.delta + i.delta) % 2 ^ 64)
            × (c.omega ≡ l.omega)))
      ⊎ ((((i.delta + i.iota) % 2 ^ 64 ≢ 0) ⊎ (i.omega ≢ 0)) × (evolve l i ≡ none))
unfolding evolve new add
evolve-balanced l i = elim (Bool-cases ((i.delta + i.iota) % modulus == 0)) [
  | inr unbalanced ↦ inr (inl (λ e. ground (arith, eq→== _ _ e)), rw unbalanced refl)
  | inl even ↦ elim (Bool-cases (i.omega == 0)) [
    | inr other ↦ inr (inr (λ e. ground (arith, eq→== i.omega 0 e)), rw (even, other) refl)
    | inl same ↦ inl (
      ==→eq _ 0 even,
      ==→eq i.omega 0 same,
      (
        new (add l.s i.s) (add l.delta i.delta) l.omega,
        rw (even, same) refl,
        evens (add l.delta i.delta) (add_lt l.delta i.delta),
        refl,
        refl,
        refl,
      ),
    )
  ]
]

from_le_bytes-to_le_bytes : (w n : ℕ) → n < limit w → from_le_bytes (to_le_bytes w n) ≡ n
unfolding from_le_bytes to_le_bytes limit
from_le_bytes-to_le_bytes zero n h = omega arith
from_le_bytes-to_le_bytes (suc w) n h =
    omega (arith, from_le_bytes-to_le_bytes w (n / 256) (omega arith))

length-to_le_bytes : (w n : ℕ) → length (to_le_bytes w n) ≡ w
unfolding to_le_bytes
length-to_le_bytes zero n = refl
length-to_le_bytes (suc w) n = ap suc (length-to_le_bytes w (n / 256))

word : (n : ℕ) → n < modulus → from_le_bytes (to_le_bytes 8 n) ≡ n
unfolding limit
word n h = from_le_bytes-to_le_bytes 8 n (omega arith)

new_eq : {s s' d d' w w' : ℕ} → s ≡ s' → d ≡ d' → w ≡ w' → new s d w ≡ new s' d' w'
new_eq e f g = cc

-- A ledger of 64-bit words whose credit is its negated debit is read back from its wire form.
pub decode-encode : (l : Ledger) → IsLedger l → l.iota ≡ neg l.delta → decode (encode l) ≡ l
unfolding decode encode new
decode-encode l v e =
    let s_bytes = to_le_bytes 8 l.s in
    let delta_bytes = to_le_bytes 8 l.delta in
    let omega_bytes = to_le_bytes 8 l.omega in
    let all_bytes = s_bytes ++ (delta_bytes ++ omega_bytes) in
    let s_slice : slice 0 8 all_bytes ≡ s_bytes =
      slice-first s_bytes (delta_bytes ++ omega_bytes) 8 (length-to_le_bytes 8 l.s) in
    let delta_slice : slice 8 8 all_bytes ≡ delta_bytes =
      slice-append 8 8 0 s_bytes (delta_bytes ++ omega_bytes)
        (omega (arith, length-to_le_bytes 8 l.s))
      ∙ slice-first delta_bytes omega_bytes 8 (length-to_le_bytes 8 l.delta) in
    let omega_slice : slice 16 8 all_bytes ≡ omega_bytes =
      slice-append 16 8 8 s_bytes (delta_bytes ++ omega_bytes)
        (omega (arith, length-to_le_bytes 8 l.s))
      ∙ (slice-append 8 8 0 delta_bytes omega_bytes (omega (arith, length-to_le_bytes 8 l.delta))
          ∙ (ap (slice 0 8) (sym (append-nil omega_bytes))
              ∙ slice-first omega_bytes [] 8 (length-to_le_bytes 8 l.omega))) in
    new_eq (ap from_le_bytes s_slice ∙ word l.s v.fits_s)
      (ap from_le_bytes delta_slice ∙ word l.delta v.fits_delta)
      (ap from_le_bytes omega_slice ∙ word l.omega v.fits_omega)
    ∙ ap (λ i. record { s = l.s; delta = l.delta; iota = i; omega = l.omega }) (sym e)

-- A push is refused, and changes nothing, unless the point is balanced and, behind the first point,
-- has the omega of the accumulator.
pub push-refused :
    (a : LedgerSum) (p : Ledger)
    → push a p ≡ (
        if is_balanced p && ((a.count == 0) || (p.omega == a.omega))
        then (accumulate a p, true)
        else (a, false))
unfolding push
push-refused a p = ground arith

-- The credit of the accumulator is its negated debit.
unfoldable pub IsSum : LedgerSum → Type 0
IsSum a = (a.delta_acc < modulus) × (a.iota_acc ≡ neg a.delta_acc)

pub new_sum-IsSum : IsSum new_sum
unfolding IsSum new_sum neg
new_sum-IsSum = (omega arith, omega arith)

-- When the credit of an accumulator is its negated debit, the global check succeeds, and the same
-- holds after a push, whether the push is refused or not.
pub push-IsSum :
    (a : LedgerSum) (p : Ledger) → IsSum a → IsSum (push a p).0 × (sum_is_balanced a ≡ true)
unfolding IsSum neg accumulate add sum_is_balanced
push-IsSum a p (h, k) = (
  rw (push-refused a p) (
      if_intro (λ (r : LedgerSum × Bool). IsSum r.0)
        (is_balanced p && ((a.count == 0) || (p.omega == a.omega))) (λ _. (omega arith, refl))
        (λ _. (h, k))),
  ground arith,
)
