-- ===== src/Worm/Bytes.antt =====
-- Byte strings: big-endian integers and slices, as header.rs and record.rs use them.
use hyperkitty_constraint_ds.Prelude.{
  ℕ, zero, suc, ◌+◌, ◌*◌, ◌/◌, ◌%◌, ◌<◌, ◌≡◌, refl, ap, List, [], ◌∷◌, ◌++◌, length, length-append,
  take, drop, arith,
}

abbrev pub Bytes : Type 0
Bytes = List ℕ

-- The number of values of an integer of so many bytes.
unfoldable pub limit : ℕ → ℕ
limit zero = 1
limit (suc w) = 256 * limit w

-- `to_be_bytes` of an integer of so many bytes.
unfoldable pub to_be_bytes : ℕ → ℕ → Bytes
to_be_bytes zero n = []
to_be_bytes (suc w) n = to_be_bytes w (n / 256) ++ (n % 256 ∷ [])

unfoldable pub from_be : ℕ → Bytes → ℕ
from_be acc [] = acc
from_be acc (b ∷ bs) = from_be (acc * 256 + b) bs

-- `from_be_bytes`
unfoldable pub from_be_bytes : Bytes → ℕ
from_be_bytes bs = from_be 0 bs

-- `&bytes[offset..offset + n]`, for a slice in range.
unfoldable pub slice : ℕ → ℕ → Bytes → Bytes
slice offset n bs = take n (drop offset bs)

from_be-append : (acc b : ℕ) (bs : Bytes) → from_be acc (bs ++ (b ∷ [])) ≡ from_be acc bs * 256 + b
unfolding from_be
from_be-append acc b [] = refl
from_be-append acc b (x ∷ bs) = from_be-append (acc * 256 + x) b bs

pub length-to_be_bytes : (w n : ℕ) → length (to_be_bytes w n) ≡ w
unfolding to_be_bytes
length-to_be_bytes zero n = refl
length-to_be_bytes (suc w) n =
    omega (
      arith,
      length-append (to_be_bytes w (n / 256)) (n % 256 ∷ []),
      length-to_be_bytes w (n / 256),
    )

pub from_be_bytes-to_be_bytes : (w n : ℕ) → n < limit w → from_be_bytes (to_be_bytes w n) ≡ n
unfolding to_be_bytes from_be_bytes from_be limit
from_be_bytes-to_be_bytes zero n h = omega arith
from_be_bytes-to_be_bytes (suc w) n h = omega (
  arith,
  from_be-append 0 (n % 256) (to_be_bytes w (n / 256)),
  from_be_bytes-to_be_bytes w (n / 256) (omega arith),
)

take-append : (a b : Bytes) (n : ℕ) → length a ≡ n → take n (a ++ b) ≡ a
take-append [] b zero h = refl
take-append [] b (suc n) h = ground arith
take-append (x ∷ a) b zero h = ground arith
take-append (x ∷ a) b (suc n) h = ap (λ l. x ∷ l) (take-append a b n (omega arith))

drop-append : (a b : Bytes) (m o : ℕ) → m ≡ length a + o → drop m (a ++ b) ≡ drop o b
drop-append [] b m o h = ap (λ k. drop k b) (omega (arith, h))
drop-append (x ∷ a) b zero o h = ground arith
drop-append (x ∷ a) b (suc m) o h = drop-append a b m o (omega arith)

-- A slice at the front, and one behind the front.
pub slice-first : (a b : Bytes) (n : ℕ) → length a ≡ n → slice 0 n (a ++ b) ≡ a
unfolding slice
slice-first a b n h = take-append a b n h

pub slice-append : (m n o : ℕ) (a b : Bytes) → m ≡ length a + o → slice m n (a ++ b) ≡ slice o n b
unfolding slice
slice-append m n o a b h = ap (take n) (drop-append a b m o h)
