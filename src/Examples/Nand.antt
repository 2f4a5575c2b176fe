-- ===== src/Examples/Nand.antt =====
-- The gates, the registry and the filter on small inputs.
use hyperkitty_constraint_ds.Prelude.{
  ℕ, ◌≡◌, ◌≢◌, ◌↔◌, refl, Bool, true, false, not, ◌&&◌, ◌||◌, none, some, List, [], ◌∷◌, length,
  ltb, ◌==◌, arith,
}
use hyperkitty_constraint_ds.Nand.Boolean.{
  BoolExpr, var, const, nand, eval, functionally_equivalent,
}
use hyperkitty_constraint_ds.Nand.Boolean.Tables.{eval_total, functionally_equivalent_iff}
use hyperkitty_constraint_ds.Nand.Conflicts.{
  ConflictRegistry, canonical, register_conflict, are_conflicting, has, has_pair, find_conflicts,
}
use hyperkitty_constraint_ds.Nand.Conflicts.Laws.{are_conflicting-register, find_conflicts_iff}
use hyperkitty_constraint_ds.Nand.Filter.{ExpertActivation, ids, active, weight_of, filter}
use hyperkitty_constraint_ds.Nand.Filter.Laws.{filter-apart, filter-loses}

abbrev x_nand_y : BoolExpr
x_nand_y = nand (var 0) (var 1)

functionally_equivalent_iff_example :
    ((functionally_equivalent (var 0) (const true) 1 ≡ some true)
      ↔ ((bs : List Bool) → length bs ≡ 1 → eval (var 0) bs ≡ eval (const true) bs))
    × (functionally_equivalent (var 0) (const true) 1 ≢ none)
functionally_equivalent_iff_example =
    functionally_equivalent_iff (var 0) (const true) 1 (omega arith) tt (omega arith)

abbrev row : List Bool
row = true ∷ false ∷ []

eval_total_example : (v : Bool) × (eval x_nand_y row ≡ some v)
eval_total_example = eval_total x_nand_y row (omega arith, omega arith)

abbrev registry : ConflictRegistry
registry = record { conflicts = (1, 2) ∷ (3, 4) ∷ [] }

are_conflicting-register_example : are_conflicting (register_conflict registry 7 5) 5 7 ≡ (
    are_conflicting registry 5 7
    || (not (7 == 5) && (((7 == 5) && (5 == 7)) || ((7 == 7) && (5 == 5)))))
are_conflicting-register_example = are_conflicting-register registry 7 5 5 7

find_conflicts_iff_example :
    has_pair (1, 2) (find_conflicts registry (2 ∷ 1 ∷ 3 ∷ [])) ≡ true
    ↔ (has 1 (2 ∷ 1 ∷ 3 ∷ []) ≡ true)
      × (has 2 (2 ∷ 1 ∷ 3 ∷ []) ≡ true)
      × (are_conflicting registry 1 2 ≡ true)
      × (ltb 1 2 ≡ true)
find_conflicts_iff_example = find_conflicts_iff registry (2 ∷ 1 ∷ 3 ∷ []) 1 2

-- Weights as natural numbers.
abbrev activations : List (ExpertActivation ℕ)
activations =
    record { id = 2; weight = 3 }
    ∷ record { id = 1; weight = 8 }
    ∷ record { id = 3; weight = 5 }
    ∷ []

ltb_asymm : (x y : ℕ) → ltb x y ≡ true → ltb y x ≡ false
ltb_asymm x y h = ground arith

filter-apart_example : are_conflicting registry 1 3 ≡ false
unfolding filter ids has are_conflicting has_pair canonical
filter-apart_example = filter-apart ltb 0 registry activations 1 3 refl refl

filter-loses_example :
    (j : ℕ) × (has j (ids (active ltb 0 activations)) ≡ true)
    × (are_conflicting registry 2 j ≡ true)
    × (ltb (weight_of 0 j (active ltb 0 activations)) (weight_of 0 2 (active ltb 0 activations))
        ≡ false)
unfolding filter active ids has are_conflicting has_pair canonical
filter-loses_example = filter-loses ltb 0 ltb_asymm registry activations 2 refl refl
