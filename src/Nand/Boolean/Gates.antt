-- ===== src/Nand/Boolean/Gates.antt =====
-- The expressions that the constructors build, against the gates of the primitives.
use hyperkitty_constraint_ds.Prelude.{◌≡◌, refl, Bool, true, Option, none, some, List}
use hyperkitty_constraint_ds.Nand.Primitive
use hyperkitty_constraint_ds.Nand.Boolean.{
  BoolExpr, var, const, nand, from_not, from_and, from_or, from_xor, from_implies, is_pure_nand,
  nand_values, eval, lower_to_nand,
}

-- A gate on values that may have panicked.
abbrev pub gate₁ : (Bool → Bool) → Option Bool → Option Bool
gate₁ f none = none
gate₁ f (some a) = some (f a)

abbrev pub gate₂ : (Bool → Bool → Bool) → Option Bool → Option Bool → Option Bool
gate₂ f (some a) (some b) = some (f a b)
gate₂ f (some a) none = none
gate₂ f none b = none

module _ (x y : BoolExpr) (bindings : List Bool) where
  -- Each constructor of compound expressions evaluates to the primitive gate on the values of its
  -- arguments, and panics exactly when one of them does.
  pub from_gates_lem :
      (eval (from_not x) bindings ≡ gate₁ Primitive.not (eval x bindings))
      × (eval (from_and x y) bindings ≡ gate₂ Primitive.and (eval x bindings) (eval y bindings))
      × (eval (from_or x y) bindings ≡ gate₂ Primitive.or (eval x bindings) (eval y bindings))
      × (eval (from_xor x y) bindings ≡ gate₂ Primitive.xor (eval x bindings) (eval y bindings))
      × (eval (from_implies x y) bindings
          ≡ gate₂ Primitive.implies (eval x bindings) (eval y bindings))
  unfolding eval from_not from_and from_or from_xor from_implies Primitive.not Primitive.and
      Primitive.or Primitive.xor Primitive.implies
  from_gates_lem = values (eval x bindings) (eval y bindings)
    where
      values :
          (a b : Option Bool)
          → (nand_values a a ≡ gate₁ Primitive.not a)
            × (nand_values (nand_values a b) (nand_values a b) ≡ gate₂ Primitive.and a b)
            × (nand_values (nand_values a a) (nand_values b b) ≡ gate₂ Primitive.or a b)
            × (nand_values (nand_values (nand_values a a) b) (nand_values a (nand_values b b))
                ≡ gate₂ Primitive.xor a b)
            × (nand_values a (nand_values b b) ≡ gate₂ Primitive.implies a b)
      values none none = (refl, refl, refl, refl, refl)
      values none (some b) = (refl, refl, refl, refl, refl)
      values (some a) none = (refl, refl, refl, refl, refl)
      values (some a) (some b) = (refl, refl, refl, refl, refl)

-- Lowering changes no expression, so it keeps every value, and its result is a pure NAND tree.
pub lower_to_nand_lem :
    (e : BoolExpr) → (lower_to_nand e ≡ e) × (is_pure_nand (lower_to_nand e) ≡ true)
unfolding lower_to_nand is_pure_nand
lower_to_nand_lem (var i) = (refl, refl)
lower_to_nand_lem (const v) = (refl, refl)
lower_to_nand_lem (nand a b) =
    let ha = lower_to_nand_lem a in
    let hb = lower_to_nand_lem b in (cc (ha.0, hb.0), rw (ha.1, hb.1) refl)
