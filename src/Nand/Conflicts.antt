-- ===== src/Nand/Conflicts.antt =====
-- rust/crates/hyperkitty-nand/src/conflicts.rs: the registry of conflicting pairs of experts. The
-- `HashSet` of pairs is a list without duplicates.
pub mod Laws
use hyperkitty_constraint_ds.Prelude.{
  ℕ, Bool, true, false, ◌&&◌, ◌||◌, List, [], ◌∷◌, ◌++◌, length, ltb, leb, ◌==◌, if◌then◌else◌,
}

-- `ExpertId(u64)`
abbrev pub ExpertId : Type 0
ExpertId = ℕ

abbrev pub Pair : Type 0
Pair = ExpertId × ExpertId

pub record ConflictRegistry : Type 0 where
  pub conflicts : List Pair

unfoldable pub pair_eq : Pair → Pair → Bool
pair_eq (a, b) (c, d) = (a == c) && (b == d)

-- The derived order of pairs.
unfoldable pub pair_le : Pair → Pair → Bool
pair_le (a, b) (c, d) = ltb a c || ((a == c) && leb b d)

unfoldable pub has_pair : Pair → List Pair → Bool
unfolding pair_eq
has_pair p [] = false
has_pair p (q ∷ l) = pair_eq p q || has_pair p l

unfoldable pub has : ExpertId → List ExpertId → Bool
has x [] = false
has x (y ∷ l) = (x == y) || has x l

unfoldable pub new : ConflictRegistry
new = record { conflicts = [] }

unfoldable pub canonical : ExpertId → ExpertId → Pair
canonical a b = if leb a b then (a, b) else (b, a)

unfoldable pub insert_pair : Pair → List Pair → List Pair
insert_pair p l = if has_pair p l then l else p ∷ l

unfoldable pub register_conflict : ConflictRegistry → ExpertId → ExpertId → ConflictRegistry
register_conflict r a b =
    if a == b then r else record { conflicts = insert_pair (canonical a b) r.conflicts }

unfoldable pub are_conflicting : ConflictRegistry → ExpertId → ExpertId → Bool
are_conflicting r a b = if a == b then false else has_pair (canonical a b) r.conflicts

-- The inner loop of `find_conflicts`, over the experts behind `a`.
unfoldable pub conflicts_with : ConflictRegistry → ExpertId → List ExpertId → List Pair
conflicts_with r a [] = []
conflicts_with r a (b ∷ bs) =
    let rest = conflicts_with r a bs in if are_conflicting r a b then canonical a b ∷ rest else rest

unfoldable pub all_conflicts : ConflictRegistry → List ExpertId → List Pair
unfolding conflicts_with
all_conflicts r [] = []
all_conflicts r (a ∷ bs) = conflicts_with r a bs ++ all_conflicts r bs

-- `found.sort()`
unfoldable pub insert_sorted : Pair → List Pair → List Pair
unfolding pair_le
insert_sorted p [] = p ∷ []
insert_sorted p (q ∷ l) =
    let rest = insert_sorted p l in if pair_le p q then p ∷ q ∷ l else q ∷ rest

unfoldable pub sort : List Pair → List Pair
unfolding insert_sorted
sort [] = []
sort (p ∷ l) = insert_sorted p (sort l)

-- `found.dedup()`
unfoldable pub dedup : List Pair → List Pair
unfolding pair_eq
dedup [] = []
dedup (p ∷ []) = p ∷ []
dedup (p ∷ q ∷ l) = let rest = dedup (q ∷ l) in if pair_eq p q then rest else p ∷ rest

unfoldable pub find_conflicts : ConflictRegistry → List ExpertId → List Pair
unfolding all_conflicts sort dedup
find_conflicts r experts = dedup (sort (all_conflicts r experts))

unfoldable pub len : ConflictRegistry → ℕ
len r = length r.conflicts

unfoldable pub is_empty : ConflictRegistry → Bool
is_empty r = length r.conflicts == 0
