-- ===== src/Glyph.antt =====
-- hyperkitty-core: the six glyphs (rust/crates/hyperkitty-core/src/lib.rs) and their byte encoding
-- (rust/crates/hyperkitty-core/src/canonical.rs).
pub mod Codes
use hyperkitty_constraint_ds.Prelude.{
  ℕ, Bool, true, false, Option, none, some, List, [], ◌∷◌, map, ◌==◌, if◌then◌else◌,
}
use hyperkitty_constraint_ds.Core.{Result, Result.ok, Result.err, Error.invalid_glyph, ◌>>=◌}

pub data Glyph : Type 0 where
  pi gamma delta omega lambda psi : Glyph

unfoldable pub to_byte : Glyph → ℕ
to_byte pi = 0x01
to_byte gamma = 0x03
to_byte delta = 0x04
to_byte omega = 0x0A
to_byte lambda = 0xFF
to_byte psi = 0x0B

unfoldable pub from_byte : ℕ → Option Glyph
from_byte b =
    if b == 0x01
    then some pi
    else (if b == 0x03
        then some gamma
        else (if b == 0x04
            then some delta
            else (if b == 0x0A
                then some omega
                else (if b == 0xFF then some lambda else (if b == 0x0B then some psi else none)))))

unfoldable pub all_glyphs : List Glyph
all_glyphs = pi ∷ gamma ∷ delta ∷ omega ∷ lambda ∷ psi ∷ []

unfoldable pub index : Glyph → ℕ
index pi = 0
index gamma = 1
index delta = 2
index omega = 3
index lambda = 4
index psi = 5

unfoldable pub by_index : ℕ → Option Glyph
by_index i =
    if i == 0
    then some pi
    else (if i == 1
        then some gamma
        else (if i == 2
            then some delta
            else (if i == 3
                then some omega
                else (if i == 4 then some lambda else (if i == 5 then some psi else none)))))

unfoldable pub is_absorber : Glyph → Bool
is_absorber omega = true
is_absorber _ = false

unfoldable pub is_identity : Glyph → Bool
is_identity lambda = true
is_identity _ = false

-- The derived equality.
unfoldable pub glyph_eq : Glyph → Glyph → Bool
unfolding index
glyph_eq g h = index g == index h

unfoldable pub encode_glyph : Glyph → ℕ
unfolding to_byte
encode_glyph g = to_byte g

-- `ok_or(Error::InvalidGlyph)`
unfoldable pub glyph_or : Option Glyph → Result Glyph
glyph_or none = err invalid_glyph
glyph_or (some g) = ok g

unfoldable pub decode_glyph : ℕ → Result Glyph
unfolding from_byte glyph_or
decode_glyph b = glyph_or (from_byte b)

unfoldable pub encode_glyphs : List Glyph → List ℕ
unfolding to_byte
encode_glyphs [] = []
encode_glyphs (g ∷ gs) = to_byte g ∷ encode_glyphs gs

-- `collect` into a `Result` stops at the first error.
unfoldable pub decode_glyphs : List ℕ → Result (List Glyph)
unfolding decode_glyph
decode_glyphs [] = ok []
decode_glyphs (b ∷ bs) = decode_glyph b >>= λ g. decode_glyphs bs >>= λ gs. ok (g ∷ gs)

unfoldable pub validate_glyphs : List Glyph → Bool
validate_glyphs [] = true
validate_glyphs (pi ∷ gs) = validate_glyphs gs
validate_glyphs (gamma ∷ gs) = validate_glyphs gs
validate_glyphs (delta ∷ gs) = validate_glyphs gs
validate_glyphs (omega ∷ gs) = validate_glyphs gs
validate_glyphs (lambda ∷ gs) = validate_glyphs gs
validate_glyphs (psi ∷ gs) = validate_glyphs gs
