-- ===== src/Runtime/Float.antt =====
-- `f64`, whose arithmetic lies outside the repository, with the operations that the runtime uses.
use hyperkitty_constraint_ds.Prelude.{◌≡◌, Bool, true, false}

pub record Float : Type 1 where
  pub Carrier : Type 0
  pub is_finite : Carrier → Bool
  pub lt : Carrier → Carrier → Bool
  pub le : Carrier → Carrier → Bool
  pub zero : Carrier
  pub max_entropy : Carrier

-- Zero is finite, not below itself, and not above the bound, which is a positive constant.
pub record IsFloat (f : Float) : Type 0 where
  pub finite_zero : f.is_finite f.zero ≡ true
  pub lt_zero : f.lt f.zero f.zero ≡ false
  pub lt_max : f.lt f.max_entropy f.zero ≡ false
