-- ===== src/Nand/Filter.antt =====
-- rust/crates/hyperkitty-nand/src/filter.rs: the suppression of conflicting experts. A weight is an
-- `f64`, which stays abstract: the code only compares weights and has a zero.
pub mod Laws
use hyperkitty_constraint_ds.Prelude.{
  Bool, true, false, not, ◌&&◌, ◌||◌, List, [], ◌∷◌, leb, ◌==◌, if◌then◌else◌,
}
use hyperkitty_constraint_ds.Nand.Conflicts.{ExpertId, Pair, ConflictRegistry, has, find_conflicts}

pub record ExpertActivation (W : Type 0) : Type 0 where
  pub id : ExpertId
  pub weight : W

module _ {W : Type 0} where
  -- `sort_by_key(|a| a.id)`, a stable sort.
  unfoldable pub insert_by_id :
      ExpertActivation W → List (ExpertActivation W) → List (ExpertActivation W)
  insert_by_id x [] = x ∷ []
  insert_by_id x (y ∷ l) =
      let rest = insert_by_id x l in if leb x.id y.id then x ∷ y ∷ l else y ∷ rest

  unfoldable pub sort_by_id : List (ExpertActivation W) → List (ExpertActivation W)
  unfolding insert_by_id
  sort_by_id [] = []
  sort_by_id (x ∷ l) = insert_by_id x (sort_by_id l)

  unfoldable pub ids : List (ExpertActivation W) → List ExpertId
  ids [] = []
  ids (a ∷ l) = a.id ∷ ids l

-- `0.0`
module _ {W : Type 0} (zero : W) where
  unfoldable pub weight_of : ExpertId → List (ExpertActivation W) → W
  weight_of i [] = zero
  weight_of i (a ∷ l) = let rest = weight_of i l in if a.id == i then a.weight else rest

-- `<` of `f64`, and `0.0`.
module _ {W : Type 0} (lt : W → W → Bool) (zero : W) where
  -- The activations that a test on their identifiers and a positive weight let through.
  unfoldable pub keep : (ExpertId → Bool) → List (ExpertActivation W) → List (ExpertActivation W)
  keep p [] = []
  keep p (a ∷ l) = let rest = keep p l in if lt zero a.weight && p a.id then a ∷ rest else rest

  unfoldable pub active : List (ExpertActivation W) → List (ExpertActivation W)
  unfolding keep sort_by_id
  active activations = sort_by_id (keep (λ _. true) activations)

  -- The expert of a conflicting pair that goes.
  unfoldable pub loser : List (ExpertActivation W) → Pair → ExpertId
  unfolding weight_of
  loser l (a, b) =
      if lt (weight_of zero a l) (weight_of zero b l)
      then a
      else (if lt (weight_of zero b l) (weight_of zero a l) then b else a)

  -- The loop over the conflicts, from a set of suppressed experts.
  unfoldable pub resolve : List (ExpertActivation W) → List Pair → List ExpertId → List ExpertId
  unfolding loser has
  resolve l [] suppressed = suppressed
  resolve l ((a, b) ∷ conflicts) suppressed =
      let skipped = resolve l conflicts suppressed in
      let resolved = resolve l conflicts (loser l (a, b) ∷ suppressed) in
      if has a suppressed || has b suppressed then skipped else resolved

  unfoldable pub suppressed_ids : ConflictRegistry → List (ExpertActivation W) → List ExpertId
  unfolding active ids resolve find_conflicts
  suppressed_ids r activations =
      let l = active activations in resolve l (find_conflicts r (ids l)) []

  -- `NANDFilter::filter`
  unfoldable pub filter : ConflictRegistry → List (ExpertActivation W) → List (ExpertActivation W)
  unfolding suppressed_ids keep has
  filter r [] = []
  filter r (a ∷ l) = let gone = suppressed_ids r (a ∷ l) in keep (λ i. not (has i gone)) (a ∷ l)
