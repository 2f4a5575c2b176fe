-- ===== src/Qra.antt =====
-- hyperkitty-qra (rust/crates/hyperkitty-qra/src/lib.rs): the transition table and its use. A
-- `none` of these functions is a panic of the source: an index out of range, or `unwrap` of `None`.
pub mod Witness
pub mod Dispatch
pub mod Laws
pub mod Routes
use hyperkitty_constraint_ds.Prelude.{
  ℕ, Bool, true, false, ◌&&◌, Option, none, some, List, [], ◌∷◌, all, get_elem?, ◌==◌,
}
use hyperkitty_constraint_ds.Glyph.{
  Glyph, pi, gamma, delta, omega, lambda, index, by_index, is_absorber,
}

abbrev pub q_table : List (List ℕ)
q_table =
    (2 ∷ 2 ∷ 3 ∷ 3 ∷ 2 ∷ 2 ∷ [])
    ∷ (2 ∷ 3 ∷ 3 ∷ 3 ∷ 2 ∷ 3 ∷ [])
    ∷ (3 ∷ 3 ∷ 3 ∷ 3 ∷ 2 ∷ 3 ∷ [])
    ∷ (3 ∷ 3 ∷ 3 ∷ 3 ∷ 3 ∷ 3 ∷ [])
    ∷ (0 ∷ 1 ∷ 2 ∷ 3 ∷ 4 ∷ 5 ∷ [])
    ∷ (2 ∷ 3 ∷ 3 ∷ 3 ∷ 2 ∷ 3 ∷ [])
    ∷ []

infixl 5 ◌>>=◌
abbrev pub ◌>>=◌ {ℓ κ} : {A : Type ℓ} {B : Type κ} → Option A → (A → Option B) → Option B
none >>= f = none
some a >>= f = f a

-- `Q[c][p]`
unfoldable pub entry : ℕ → ℕ → Option ℕ
entry c p = get_elem? q_table c >>= λ row. get_elem? row p

unfoldable pub next_glyph : Glyph → Glyph → Option Glyph
unfolding entry index by_index
next_glyph curr prev = entry (index curr) (index prev) >>= λ i. by_index i

unfoldable pub option_is : Option ℕ → ℕ → Bool
option_is none i = false
option_is (some j) i = j == i

abbrev pub columns : List ℕ
columns = 0 ∷ 1 ∷ 2 ∷ 3 ∷ 4 ∷ 5 ∷ []

unfoldable pub validate_identity_row : Bool
unfolding entry index option_is
validate_identity_row = all (λ j. option_is (entry (index lambda) j) j) columns

unfoldable pub validate_absorber_row : Bool
unfolding entry index option_is
validate_absorber_row = all (λ j. option_is (entry (index omega) j) (index omega)) columns

unfoldable pub evolve_witness : List Glyph → Option (List Glyph)
unfolding next_glyph
evolve_witness (a ∷ b ∷ c ∷ []) =
    next_glyph a b >>= λ x. next_glyph b c >>= λ y. next_glyph c a >>= λ z. some (x ∷ y ∷ z ∷ [])
evolve_witness _ = some []

unfoldable pub canonical_witness : List Glyph
canonical_witness = pi ∷ gamma ∷ delta ∷ []

unfoldable pub all_absorbers : Option (List Glyph) → Bool
unfolding is_absorber
all_absorbers none = false
all_absorbers (some gs) = all is_absorber gs

unfoldable pub validate_canonical_exhaustion : Bool
unfolding evolve_witness canonical_witness all_absorbers
validate_canonical_exhaustion =
    all_absorbers (evolve_witness canonical_witness >>= λ w. evolve_witness w)
