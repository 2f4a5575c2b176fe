-- ===== src/Nand/Primitive.antt =====
-- rust/crates/hyperkitty-nand/src/primitive.rs: the NAND gate and the gates made of it.
use mathlib.Core.Bool
use mathlib.Core.Bool.{Bool, true, false, ◌&&◌, ◌||◌}
use hyperkitty_constraint_ds.Prelude.{◌≡◌, refl}

unfoldable pub nand : Bool → Bool → Bool
nand a b = Bool.not (a && b)

unfoldable pub not : Bool → Bool
unfolding nand
not a = nand a a

unfoldable pub and : Bool → Bool → Bool
unfolding nand
and a b = let n = nand a b in nand n n

unfoldable pub or : Bool → Bool → Bool
unfolding nand
or a b = nand (nand a a) (nand b b)

unfoldable pub xor : Bool → Bool → Bool
unfolding nand
xor a b = let not_a = nand a a in let not_b = nand b b in nand (nand not_a b) (nand a not_b)

unfoldable pub implies : Bool → Bool → Bool
unfolding nand
implies a b = nand a (nand b b)

unfoldable pub nor : Bool → Bool → Bool
unfolding nand or
nor a b = let or_ab = or a b in nand or_ab or_ab

unfoldable pub xnor : Bool → Bool → Bool
unfolding nand xor
xnor a b = let xor_ab = xor a b in nand xor_ab xor_ab

-- The seven gates made of NAND alone compute the Boolean operations that they are named after.
pub gates_lem :
    (a b : Bool)
    → (not a ≡ Bool.not a)
      × (and a b ≡ (a && b))
      × (or a b ≡ (a || b))
      × (xor a b ≡ Bool.xor a b)
      × (implies a b ≡ (Bool.not a || b))
      × (nor a b ≡ Bool.not (a || b))
      × (xnor a b ≡ Bool.not (Bool.xor a b))
unfolding not and or xor implies nor xnor Bool.xor
gates_lem false false = (refl, refl, refl, refl, refl, refl, refl)
gates_lem false true = (refl, refl, refl, refl, refl, refl, refl)
gates_lem true false = (refl, refl, refl, refl, refl, refl, refl)
gates_lem true true = (refl, refl, refl, refl, refl, refl, refl)
