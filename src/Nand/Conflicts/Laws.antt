-- ===== src/Nand/Conflicts/Laws.antt =====
-- The registry against the relation that it stores, and what `find_conflicts` finds.
use hyperkitty_constraint_ds.Prelude.{
  ◌≡◌, inl, inr, ◌↔◌, refl, sym, ap, ◌∙◌, true, false, not, ◌&&◌, ◌||◌, List, [], ◌∷◌, ◌++◌, arith,
  ltb, ◌==◌, ==→eq, ||-true, if_intro,
}
use hyperkitty_constraint_ds.Nand.Conflicts.{
  ExpertId, Pair, ConflictRegistry, pair_eq, has_pair, has, canonical, insert_pair,
  register_conflict, are_conflicting, conflicts_with, all_conflicts, insert_sorted, sort, dedup,
  find_conflicts,
}

pub pair_eq-eq : (p q : Pair) → pair_eq p q ≡ true → p ≡ q
unfolding pair_eq
pair_eq-eq (a, b) (c, d) h = ground arith

pub pair_eq-ids : (a b c d : ExpertId) → pair_eq (a, b) (c, d) ≡ true → (a ≡ c) × (b ≡ d)
unfolding pair_eq
pair_eq-ids a b c d h = ground arith

pub pair_eq_refl : (p : Pair) → pair_eq p p ≡ true
unfolding pair_eq
pair_eq_refl (a, b) = ground arith

pub canonical_comm : (a b : ExpertId) → canonical a b ≡ canonical b a
unfolding canonical
canonical_comm a b = ground arith

canonical_lt : (a b : ExpertId) → ltb a b ≡ true → canonical a b ≡ (a, b)
unfolding canonical
canonical_lt a b h = ground arith

pair_eq-canonical :
    (a b c d : ExpertId)
    → pair_eq (canonical a b) (canonical c d) ≡ (((a == c) && (b == d)) || ((a == d) && (b == c)))
unfolding pair_eq canonical
pair_eq-canonical a b c d = ground arith

-- A query answers for the registered pair, in either order, and otherwise as before.
pub are_conflicting-register :
    (r : ConflictRegistry) (a b c d : ExpertId)
    → are_conflicting (register_conflict r a b) c d ≡ (
        are_conflicting r c d
        || (not (a == b) && (((a == c) && (b == d)) || ((a == d) && (b == c)))))
unfolding are_conflicting register_conflict insert_pair has_pair
are_conflicting-register r a b c d =
    ground (arith, pair_eq-canonical c d a b, pair_eq-eq (canonical c d) (canonical a b))

-- Conflict is symmetric, and no expert conflicts with itself.
pub are_conflicting_symm :
    (r : ConflictRegistry) (a b : ExpertId)
    → (are_conflicting r a b ≡ are_conflicting r b a) × (are_conflicting r a a ≡ false)
unfolding are_conflicting
are_conflicting_symm r a b = (ground (arith, canonical_comm a b), ground arith)

pub has_pair-append :
    (p : Pair) (l m : List Pair) → has_pair p (l ++ m) ≡ (has_pair p l || has_pair p m)
unfolding has_pair
has_pair-append p [] m = refl
has_pair-append p (q ∷ l) m = ground (arith, has_pair-append p l m)

has_pair-insert_sorted :
    (p q : Pair) (l : List Pair) → has_pair p (insert_sorted q l) ≡ (pair_eq p q || has_pair p l)
unfolding has_pair insert_sorted
has_pair-insert_sorted p q [] = ground arith
has_pair-insert_sorted p q (x ∷ l) = ground (arith, has_pair-insert_sorted p q l)

has_pair-sort : (p : Pair) (l : List Pair) → has_pair p (sort l) ≡ has_pair p l
unfolding has_pair sort
has_pair-sort p [] = refl
has_pair-sort p (q ∷ l) = ground (arith, has_pair-insert_sorted p q (sort l), has_pair-sort p l)

has_pair-dedup : (p : Pair) (l : List Pair) → has_pair p (dedup l) ≡ has_pair p l
unfolding has_pair dedup
has_pair-dedup p [] = refl
has_pair-dedup p (q ∷ []) = refl
has_pair-dedup p (q ∷ x ∷ l) = ground (arith, has_pair-dedup p (x ∷ l), pair_eq-eq q x)

-- The sort and the removal of duplicates keep the members.
pub has_pair-find_conflicts :
    (r : ConflictRegistry) (experts : List ExpertId) (p : Pair)
    → has_pair p (find_conflicts r experts) ≡ has_pair p (all_conflicts r experts)
unfolding find_conflicts
has_pair-find_conflicts r experts p =
    has_pair-dedup p (sort (all_conflicts r experts)) ∙ has_pair-sort p (all_conflicts r experts)

has_pair-conflicts_with :
    (r : ConflictRegistry) (a b : ExpertId) (l : List ExpertId)
    → has b l ≡ true
    → are_conflicting r a b ≡ true
    → has_pair (canonical a b) (conflicts_with r a l) ≡ true
unfolding has_pair has conflicts_with
has_pair-conflicts_with r a b [] h c = cc
has_pair-conflicts_with r a b (x ∷ l) h c =
    ground (arith, has_pair-conflicts_with r a b l, ==→eq b x, pair_eq_refl (canonical a b))

has_pair-all_conflicts :
    (r : ConflictRegistry) (a b : ExpertId) (l : List ExpertId)
    → has a l ≡ true
    → has b l ≡ true
    → are_conflicting r a b ≡ true
    → has_pair (canonical a b) (all_conflicts r l) ≡ true
unfolding has all_conflicts
has_pair-all_conflicts r a b [] h k c = cc
has_pair-all_conflicts r a b (x ∷ l) h k c =
    rw (has_pair-append (canonical a b) (conflicts_with r x l) (all_conflicts r l)) (
      ground (
        arith,
        has_pair-conflicts_with r x a l,
        has_pair-conflicts_with r x b l,
        has_pair-all_conflicts r a b l,
        canonical_comm a b,
        are_conflicting_symm r a b,
        ==→eq a x,
        ==→eq b x,
      ))

-- A pair of `all_conflicts` is a conflict of two listed experts.
IsFound : ConflictRegistry → List ExpertId → Pair → Type 0
IsFound r l (a, b) =
    (has a l ≡ true) × (has b l ≡ true) × (are_conflicting r a b ≡ true) × (ltb a b ≡ true)

IsFound-pair :
    (r : ConflictRegistry) (x b : ExpertId) (l : List ExpertId)
    → are_conflicting r x b ≡ true
    → IsFound r (x ∷ b ∷ l) (canonical x b)
unfolding IsFound canonical has are_conflicting
IsFound-pair r x b l c = ground arith

IsFound-first :
    (r : ConflictRegistry) (x : ExpertId) (l : List ExpertId) (c d : ExpertId)
    → IsFound r l (c, d)
    → IsFound r (x ∷ l) (c, d)
unfolding IsFound has
IsFound-first r x l c d (h, k, e, o) = (ground arith, ground arith, e, o)

IsFound-second :
    (r : ConflictRegistry) (x b : ExpertId) (l : List ExpertId) (c d : ExpertId)
    → IsFound r (x ∷ l) (c, d)
    → IsFound r (x ∷ b ∷ l) (c, d)
unfolding IsFound has
IsFound-second r x b l c d (h, k, e, o) = (ground arith, ground arith, e, o)

IsFound-conflicts_with :
    (r : ConflictRegistry) (x : ExpertId) (l : List ExpertId) (c d : ExpertId)
    → has_pair (c, d) (conflicts_with r x l) ≡ true
    → IsFound r (x ∷ l) (c, d)
unfolding has_pair conflicts_with
IsFound-conflicts_with r x [] c d h = cc
IsFound-conflicts_with r x (b ∷ l) c d h =
    let further : has_pair (c, d) (conflicts_with r x l) ≡ true → IsFound r (x ∷ b ∷ l) (c, d) =
      λ e. IsFound-second r x b l c d (IsFound-conflicts_with r x l c d e) in
    if_intro (λ ps. has_pair (c, d) ps ≡ true → IsFound r (x ∷ b ∷ l) (c, d))
      (are_conflicting r x b)
      (λ e h'. elim (||-true _ _ h') [
        | inl q ↦ rw (pair_eq-eq (c, d) (canonical x b) q) (IsFound-pair r x b l e)
        | inr q ↦ further q
      ])
      (λ _ h'. further h') h

IsFound-all_conflicts :
    (r : ConflictRegistry) (l : List ExpertId) (p : Pair)
    → has_pair p (all_conflicts r l) ≡ true
    → IsFound r l p
unfolding IsFound has_pair all_conflicts
IsFound-all_conflicts r [] (c, d) h = cc
IsFound-all_conflicts r (x ∷ l) (c, d) h =
    elim (||-true _ _
      (sym (has_pair-append (c, d) (conflicts_with r x l) (all_conflicts r l)) ∙ h)) [
        | inl q ↦ IsFound-conflicts_with r x l c d q
        | inr q ↦ IsFound-first r x l c d (IsFound-all_conflicts r l (c, d) q)
      ]

-- `find_conflicts` lists exactly the conflicting pairs of the experts given, smaller identifier first.
pub find_conflicts_iff :
    (r : ConflictRegistry) (experts : List ExpertId) (a b : ExpertId)
    → has_pair (a, b) (find_conflicts r experts) ≡ true
      ↔ (has a experts ≡ true)
        × (has b experts ≡ true)
        × (are_conflicting r a b ≡ true)
        × (ltb a b ≡ true)
unfolding IsFound
find_conflicts_iff r experts a b = (
  λ h. IsFound-all_conflicts r experts (a, b) (sym (has_pair-find_conflicts r experts (a, b)) ∙ h),
  λ (h, k, c, o).
      has_pair-find_conflicts r experts (a, b)
      ∙ (ap (λ p. has_pair p (all_conflicts r experts)) (sym (canonical_lt a b o))
          ∙ has_pair-all_conflicts r a b experts h k c),
)
