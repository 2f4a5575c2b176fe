-- ===== src/Constraints/Xslt/Machine/Iterations.antt =====
-- The obligations that `generate_agda_iterations` of
-- rust/crates/hyperkitty-constraints/src/xslt_processor.rs adds.
use hyperkitty_constraint_ds.Prelude.{
  ℕ, zero, suc, ◌+◌, ◌≡◌, refl, Text, List, [], ◌∷◌, ◌++◌, length, arith, ap,
}
use hyperkitty_constraint_ds.Core.{ok}
use hyperkitty_constraint_ds.Constraints.Xslt.Artifacts.{
  AgdaIterationObligation, iteration_transform_name,
}
use hyperkitty_constraint_ds.Constraints.Xslt.Machine.{
  FormalizationMachine, iteration_name, iteration_obligation, iterations_from,
  generate_agda_iterations,
}

-- Obligations of an invariant with consecutive indices from the one given, the first one's source as
-- given and each next one's source what the one before it derived.
abbrev pub IsChain : Text → ℕ → Text → List AgdaIterationObligation → Type 0
IsChain id index source [] = Unit
IsChain id index source (o ∷ os) =
    (o.invariant_id ≡ id)
    × (o.index ≡ index)
    × (o.transform_name ≡ iteration_transform_name index)
    × (o.source_invariant ≡ source)
    × IsChain id (index + 1) o.derived_invariant os

iterations_from-IsChain :
    (id : Text) (before left : ℕ)
    → IsChain id (before + 1) (iteration_name id before) (iterations_from id (before + 1) left)
unfolding iterations_from iteration_obligation
iterations_from-IsChain id before zero = tt
iterations_from-IsChain id before (suc left) = (
  refl,
  refl,
  refl,
  ap (iteration_name id) (omega arith),
  iterations_from-IsChain id (before + 1) left,
)

pub length-iterations_from :
    (id : Text) (index left : ℕ) → length (iterations_from id index left) ≡ left
unfolding iterations_from
length-iterations_from id index zero = refl
length-iterations_from id index (suc left) = ap suc (length-iterations_from id (index + 1) left)

-- `generate_agda_iterations` succeeds and appends as many obligations of the invariant as the
-- machine's multiplicity: with the indices from 1 on, the transforms named by them, the first source
-- `<id>_iter_0`, and each next source the invariant derived before.
pub generate_agda_iterations-IsChain :
    (m : FormalizationMachine) (id : Text)
    → (added : List AgdaIterationObligation) × (generate_agda_iterations m id
        ≡ (record m { agda_iterations = m.agda_iterations ++ added }, ok tt))
      × (length added ≡ m.agda_iteration_multiplicity)
      × IsChain id 1 (iteration_name id 0) added
unfolding generate_agda_iterations
generate_agda_iterations-IsChain m id = (
  iterations_from id 1 m.agda_iteration_multiplicity,
  refl,
  length-iterations_from id 1 m.agda_iteration_multiplicity,
  iterations_from-IsChain id 0 m.agda_iteration_multiplicity,
)
