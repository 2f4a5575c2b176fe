-- ===== src/Nand/Filter/Laws.antt =====
-- What the filter admits, and why it suppresses the rest.
use hyperkitty_constraint_ds.Prelude.{
  ◌≡◌, ◌⊎◌, inl, inr, refl, ap, ◌∙◌, Bool, true, false, not, ◌&&◌, ◌||◌, List, [], ◌∷◌, ltb, ◌==◌,
  ==→eq, ||-true, if_intro, arith,
}
use hyperkitty_constraint_ds.Nand.Conflicts.{
  ExpertId, Pair, ConflictRegistry, has_pair, has, are_conflicting, find_conflicts,
}
use hyperkitty_constraint_ds.Nand.Conflicts.Laws.{
  find_conflicts_iff, are_conflicting_symm, pair_eq-ids, pair_eq_refl,
}
use hyperkitty_constraint_ds.Nand.Filter.{
  ExpertActivation, insert_by_id, sort_by_id, ids, keep, active, weight_of, loser, resolve,
  suppressed_ids, filter,
}

module _ {W : Type 0} where
  has-insert_by_id :
      (i : ExpertId) (x : ExpertActivation W) (l : List (ExpertActivation W))
      → has i (ids (insert_by_id x l)) ≡ ((i == x.id) || has i (ids l))
  unfolding has ids insert_by_id
  has-insert_by_id i x [] = refl
  has-insert_by_id i x (y ∷ l) = ground (arith, has-insert_by_id i x l)

  has-sort_by_id :
      (i : ExpertId) (l : List (ExpertActivation W)) → has i (ids (sort_by_id l)) ≡ has i (ids l)
  unfolding has ids sort_by_id
  has-sort_by_id i [] = refl
  has-sort_by_id i (x ∷ l) =
      has-insert_by_id i x (sort_by_id l) ∙ ap (λ b. (i == x.id) || b) (has-sort_by_id i l)

module _ {W : Type 0} (lt : W → W → Bool) (zero : W) where
  -- The suppressed experts stay suppressed.
  has-resolve :
      (l : List (ExpertActivation W)) (cs : List Pair) (s : List ExpertId) (i : ExpertId)
      → has i s ≡ true
      → has i (resolve lt zero l cs s) ≡ true
  unfolding resolve has
  has-resolve l [] s i h = h
  has-resolve l ((a, b) ∷ cs) s i h =
      if_intro (λ g. has i g ≡ true) (has a s || has b s) (λ _. has-resolve l cs s i h)
        (λ _. has-resolve l cs (loser lt zero l (a, b) ∷ s) i (ground arith))

  -- The loser is one of the two.
  loser-has :
      (l : List (ExpertActivation W)) (a b : ExpertId) (s : List ExpertId)
      → (has a (loser lt zero l (a, b) ∷ s) || has b (loser lt zero l (a, b) ∷ s)) ≡ true
  unfolding loser has
  loser-has l a b s = ground arith

  still-has :
      (l : List (ExpertActivation W)) (cs : List Pair) (s : List ExpertId) (a b : ExpertId)
      → (has a s || has b s) ≡ true
      → (has a (resolve lt zero l cs s) || has b (resolve lt zero l cs s)) ≡ true
  still-has l cs s a b h = ground (arith, has-resolve l cs s a, has-resolve l cs s b)

  -- Of every conflict one expert is suppressed.
  resolve-has :
      (l : List (ExpertActivation W)) (cs : List Pair) (s : List ExpertId) (a b : ExpertId)
      → has_pair (a, b) cs ≡ true
      → (has a (resolve lt zero l cs s) || has b (resolve lt zero l cs s)) ≡ true
  unfolding resolve has_pair
  resolve-has l [] s a b h = cc
  resolve-has l ((c, d) ∷ cs) s a b h = elim (||-true _ _ h) [
    | inl q ↦
        let (same_a, same_b) = pair_eq-ids a b c d q in
        rw (same_a, same_b)
          (if_intro (λ g. (has c g || has d g) ≡ true) (has c s || has d s)
            (λ e. still-has l cs s c d e)
            (λ _. still-has l cs (loser lt zero l (c, d) ∷ s) c d (loser-has l c d s)))
    | inr q ↦
        if_intro (λ g. (has a g || has b g) ≡ true) (has c s || has d s)
          (λ _. resolve-has l cs s a b q) (λ _. resolve-has l cs (loser lt zero l (c, d) ∷ s) a b q)
  ]

  -- A conflict of the expert with one that does not weigh less.
  Loses : List (ExpertActivation W) → List Pair → ExpertId → Type 0
  Loses l cs i =
      (j : ExpertId) × ((has_pair (i, j) cs || has_pair (j, i) cs) ≡ true)
      × (lt (weight_of zero j l) (weight_of zero i l) ≡ false)

  later :
      (c d : ExpertId) (l : List (ExpertActivation W)) (cs : List Pair) (s : List ExpertId)
      (i : ExpertId)
      → (has i s ≡ true) ⊎ Loses l cs i
      → (has i s ≡ true) ⊎ Loses l ((c, d) ∷ cs) i
  unfolding has_pair Loses
  later c d l cs s i (inl h) = inl h
  later c d l cs s i (inr (j, m, o)) = inr (j, ground arith, o)

  loser_lem :
      ((x y : W) → lt x y ≡ true → lt y x ≡ false)
      → (l : List (ExpertActivation W)) (c d : ExpertId)
      → ((loser lt zero l (c, d) ≡ c) × (lt (weight_of zero d l) (weight_of zero c l) ≡ false))
        ⊎ ((loser lt zero l (c, d) ≡ d) × (lt (weight_of zero c l) (weight_of zero d l) ≡ false))
  unfolding loser
  loser_lem asym l c d = ground (
    arith,
    asym (weight_of zero c l) (weight_of zero d l),
    asym (weight_of zero d l) (weight_of zero c l),
  )

  loser-Loses :
      ((x y : W) → lt x y ≡ true → lt y x ≡ false)
      → (l : List (ExpertActivation W)) (c d : ExpertId) (cs : List Pair) (i : ExpertId)
      → i ≡ loser lt zero l (c, d)
      → Loses l ((c, d) ∷ cs) i
  unfolding has_pair Loses
  loser-Loses asym l c d cs i h = elim (loser_lem asym l c d) [
    | inl (e, o) ↦ rw (h ∙ e) (d, ground (arith, pair_eq_refl (c, d)), o)
    | inr (e, o) ↦ rw (h ∙ e) (c, ground (arith, pair_eq_refl (c, d)), o)
  ]

  -- A suppressed expert lost a conflict: to one of at least its weight, when `<` is asymmetric.
  resolve-Loses :
      ((x y : W) → lt x y ≡ true → lt y x ≡ false)
      → (l : List (ExpertActivation W)) (cs : List Pair) (s : List ExpertId) (i : ExpertId)
      → has i (resolve lt zero l cs s) ≡ true
      → (has i s ≡ true) ⊎ Loses l cs i
  unfolding resolve has
  resolve-Loses asym l [] s i h = inl h
  resolve-Loses asym l ((c, d) ∷ cs) s i h =
      if_intro (λ g. has i g ≡ true → (has i s ≡ true) ⊎ Loses l ((c, d) ∷ cs) i)
        (has c s || has d s) (λ _ h'. later c d l cs s i (resolve-Loses asym l cs s i h'))
        (λ _ h'.
          elim (later c d l cs (loser lt zero l (c, d) ∷ s) i
            (resolve-Loses asym l cs (loser lt zero l (c, d) ∷ s) i h')) [
              | inl e ↦ elim (||-true _ _ e) [
                | inl q ↦ inr (loser-Loses asym l c d cs i (==→eq _ _ q))
                | inr q ↦ inl q
              ]
              | inr q ↦ inr q
            ])
        h

  has-keep :
      (p : ExpertId → Bool) (i : ExpertId) (l : List (ExpertActivation W))
      → has i (ids (keep lt zero p l)) ≡ (p i && has i (ids (keep lt zero (λ _. true) l)))
  unfolding has ids keep
  has-keep p i [] = ground arith
  has-keep p i (a ∷ l) = ground (arith, has-keep p i l, ap p (==→eq i a.id _))

  filter-keep :
      (r : ConflictRegistry) (l : List (ExpertActivation W))
      → filter lt zero r l ≡ keep lt zero (λ i. not (has i (suppressed_ids lt zero r l))) l
  unfolding filter keep
  filter-keep r [] = refl
  filter-keep r (a ∷ l) = refl

  has-active :
      (i : ExpertId) (l : List (ExpertActivation W))
      → has i (ids (active lt zero l)) ≡ has i (ids (keep lt zero (λ _. true) l))
  unfolding active
  has-active i l = has-sort_by_id i (keep lt zero (λ _. true) l)

  -- An expert is admitted when it is active and not suppressed.
  has-filter :
      (r : ConflictRegistry) (l : List (ExpertActivation W)) (i : ExpertId)
      → has i (ids (filter lt zero r l))
        ≡ (not (has i (suppressed_ids lt zero r l)) && has i (ids (active lt zero l)))
  has-filter r l i =
      rw (filter-keep r l, has-active i l)
        (has-keep (λ i. not (has i (suppressed_ids lt zero r l))) i l)

  apart-ordered :
      (r : ConflictRegistry) (l : List (ExpertActivation W)) (a b : ExpertId)
      → has a (ids (filter lt zero r l)) ≡ true
      → has b (ids (filter lt zero r l)) ≡ true
      → ltb a b ≡ true
      → are_conflicting r a b ≡ false
  unfolding suppressed_ids
  apart-ordered r l a b h k o =
      let cs = find_conflicts r (ids (active lt zero l)) in
      ground (
        arith,
        has-filter r l a,
        has-filter r l b,
        (find_conflicts_iff r (ids (active lt zero l)) a b).1,
        resolve-has (active lt zero l) cs [] a b,
      )

  -- Two admitted experts never conflict.
  pub filter-apart :
      (r : ConflictRegistry) (activations : List (ExpertActivation W)) (a b : ExpertId)
      → has a (ids (filter lt zero r activations)) ≡ true
      → has b (ids (filter lt zero r activations)) ≡ true
      → are_conflicting r a b ≡ false
  filter-apart r l a b h k = ground (
    arith,
    apart-ordered r l a b h k,
    apart-ordered r l b a k h,
    are_conflicting_symm r a b,
    ==→eq a b,
  )

  -- When `<` of the weights is asymmetric, an active expert that is not admitted conflicts with an
  -- active one that does not weigh less.
  pub filter-loses :
      ((x y : W) → lt x y ≡ true → lt y x ≡ false)
      → (r : ConflictRegistry) (activations : List (ExpertActivation W)) (i : ExpertId)
      → has i (ids (active lt zero activations)) ≡ true
      → has i (ids (filter lt zero r activations)) ≡ false
      → (j : ExpertId) × (has j (ids (active lt zero activations)) ≡ true)
        × (are_conflicting r i j ≡ true)
        × (lt
              (weight_of zero j (active lt zero activations))
              (weight_of zero i (active lt zero activations))
            ≡ false)
  unfolding suppressed_ids has Loses
  filter-loses asym r l i h k =
      let cs = find_conflicts r (ids (active lt zero l)) in
      let gone : has i (suppressed_ids lt zero r l) ≡ true = ground (arith, has-filter r l i) in
      elim (resolve-Loses asym (active lt zero l) cs [] i gone) [
        | inl e ↦ cc
        | inr (j, m, o) ↦
            let found = find_conflicts_iff r (ids (active lt zero l)) in
            let mine = (found i j).0 in
            let theirs = (found j i).0 in
            (
              j,
              elim (||-true _ _ m) [ inl e ↦ (mine e).1 | inr e ↦ (theirs e).0 ],
              elim (||-true _ _ m) [
                | inl e ↦ (mine e).2
                | inr e ↦ (are_conflicting_symm r i j).0 ∙ (theirs e).2
              ],
              o,
            )
      ]
