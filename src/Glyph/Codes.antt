-- ===== src/Glyph/Codes.antt =====
-- The byte and the index of a glyph are codes, and decoding accepts exactly the encodings.
use hyperkitty_constraint_ds.Prelude.{
  ℕ, ◌≡◌, ◌↔◌, refl, sym, ap, ◌∙◌, Bool, true, Option, none, some, List, [], ◌∷◌, all, ==→eq, arith,
}
use hyperkitty_constraint_ds.Core.{Result.ok, >>=-eq-ok}
use hyperkitty_constraint_ds.Glyph.{
  Glyph, pi, gamma, delta, omega, lambda, psi, to_byte, from_byte, index, by_index, all_glyphs,
  glyph_or, decode_glyph, encode_glyphs, decode_glyphs, glyph_eq,
}

from_byte-to_byte : (g : Glyph) → from_byte (to_byte g) ≡ some g
unfolding from_byte to_byte
from_byte-to_byte pi = refl
from_byte-to_byte gamma = refl
from_byte-to_byte delta = refl
from_byte-to_byte omega = refl
from_byte-to_byte lambda = refl
from_byte-to_byte psi = refl

from_byte-some : (b : ℕ) (g : Glyph) → from_byte b ≡ some g → b ≡ to_byte g
unfolding from_byte to_byte
from_byte-some b pi h = ground arith
from_byte-some b gamma h = ground arith
from_byte-some b delta h = ground arith
from_byte-some b omega h = ground arith
from_byte-some b lambda h = ground arith
from_byte-some b psi h = ground arith

pub by_index-index : (g : Glyph) → by_index (index g) ≡ some g
unfolding by_index index
by_index-index pi = refl
by_index-index gamma = refl
by_index-index delta = refl
by_index-index omega = refl
by_index-index lambda = refl
by_index-index psi = refl

decode_glyphs-encode_glyphs : (gs : List Glyph) → decode_glyphs (encode_glyphs gs) ≡ ok gs
unfolding decode_glyphs encode_glyphs decode_glyph glyph_or
decode_glyphs-encode_glyphs [] = refl
decode_glyphs-encode_glyphs (g ∷ gs) = rw (from_byte-to_byte g, decode_glyphs-encode_glyphs gs) refl

glyph_or-ok : (o : Option Glyph) (g : Glyph) → glyph_or o ≡ ok g → o ≡ some g
unfolding glyph_or
glyph_or-ok none g h = cc
glyph_or-ok (some f) g h = cc

decode_glyph-ok : (b : ℕ) (g : Glyph) → decode_glyph b ≡ ok g → b ≡ to_byte g
unfolding decode_glyph
decode_glyph-ok b g h = from_byte-some b g (glyph_or-ok (from_byte b) g h)

decode_glyphs-ok :
    (bs : List ℕ) (gs : List Glyph) → decode_glyphs bs ≡ ok gs → bs ≡ encode_glyphs gs
unfolding decode_glyphs encode_glyphs
decode_glyphs-ok [] gs h = let e : [] ≡ gs = cc in ap encode_glyphs e
decode_glyphs-ok (b ∷ bs) gs h =
    let (g, first, more) = >>=-eq-ok (decode_glyph b) _ h in
    let (gs', others, whole) = >>=-eq-ok (decode_glyphs bs) _ more in
    let e : (g ∷ gs') ≡ gs = cc in
    rw (decode_glyph-ok b g first, decode_glyphs-ok bs gs' others) (ap encode_glyphs e)

-- A byte string decodes to a list of glyphs exactly when it is the encoding of that list.
pub decode_glyphs_iff :
    (bs : List ℕ) (gs : List Glyph) → decode_glyphs bs ≡ ok gs ↔ (bs ≡ encode_glyphs gs)
decode_glyphs_iff bs gs =
    (decode_glyphs-ok bs gs, λ e. ap decode_glyphs e ∙ decode_glyphs-encode_glyphs gs)

-- A Boolean test that holds of the six glyphs holds of every glyph.
pub all_glyphs-all : (p : Glyph → Bool) → all p all_glyphs ≡ true → (g : Glyph) → p g ≡ true
unfolding all_glyphs
all_glyphs-all p h pi = ground arith
all_glyphs-all p h gamma = ground arith
all_glyphs-all p h delta = ground arith
all_glyphs-all p h omega = ground arith
all_glyphs-all p h lambda = ground arith
all_glyphs-all p h psi = ground arith

pub glyph_eq-eq : (g h : Glyph) → glyph_eq g h ≡ true → g ≡ h
unfolding glyph_eq
glyph_eq-eq g h e =
    let same : some g ≡ some h =
      sym (by_index-index g) ∙ (ap by_index (==→eq (index g) (index h) e) ∙ by_index-index h) in
    cc
