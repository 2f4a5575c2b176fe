-- ===== src/Prelude/Places.antt =====
-- Where `find` of a `str` finds a pattern.
use hyperkitty_constraint_ds.Prelude.{
  ℕ, suc, ◌≤◌, ◌≡◌, ◌↔◌, inl, inr, refl, sym, ap, ◌∙◌, Text, true, false, Option, none, some,
  some_eq, [], ◌∷◌, ◌++◌, length, append_assoc, Bool-cases, arith,
}
use hyperkitty_constraint_ds.Prelude.Search.{
  HasPattern, contains, lacks_iff, find, starts_with, starts_with-append, starts_with-prefix,
}

-- The text from the first place of a pattern on: no place of the pattern is before it.
abbrev pub IsFirst : Text → Text → Text → Type 0
IsFirst pattern s rest =
    (before : Text) × (s ≡ before ++ rest)
    × ((after : Text) × (rest ≡ pattern ++ after))
    × ((x y : Text) → s ≡ x ++ pattern ++ y → length before ≤ length x)

starts_with-eq : (s pattern after : Text) → s ≡ pattern ++ after → starts_with s pattern ≡ true
starts_with-eq s pattern after e =
    ap (λ t. starts_with t pattern) e ∙ starts_with-append pattern after

placed :
    (s before rest pattern after : Text)
    → s ≡ before ++ rest
    → rest ≡ pattern ++ after
    → s ≡ before ++ pattern ++ after
placed s before rest pattern after e here =
    e ∙ ap (λ t. before ++ t) here ∙ sym (append_assoc before pattern after)

-- A place behind the first character.
tail_place :
    (c : ℕ) (s pattern x y : Text)
    → starts_with (c ∷ s) pattern ≡ false
    → c ∷ s ≡ x ++ pattern ++ y
    → (z : Text) × (length x ≡ suc (length z)) × (s ≡ z ++ pattern ++ y)
tail_place c s pattern [] y f e = let t = starts_with-eq (c ∷ s) pattern y e in cc
tail_place c s pattern (d ∷ x) y f e = (x, refl, cc)

-- What `find` answers.
abbrev Finds : Text → Text → Option Text → Type 0
Finds pattern s (some rest) = IsFirst pattern s rest
Finds pattern s none = ¬ (HasPattern s pattern)

find-Finds : (s pattern : Text) → Finds pattern s (find s pattern)
unfolding find contains
find-Finds [] pattern = elim (Bool-cases (starts_with [] pattern)) [
  | inl t ↦ rw t ([], refl, starts_with-prefix [] pattern t, λ x y e. ground arith)
  | inr f ↦ rw f ((lacks_iff [] pattern).0 f)
]
find-Finds (c ∷ s) pattern = elim (Bool-cases (starts_with (c ∷ s) pattern)) [
  | inl t ↦ rw t ([], refl, starts_with-prefix (c ∷ s) pattern t, λ x y e. ground arith)
  | inr f ↦ rw f (later c s pattern (find s pattern) f (find-Finds s pattern))
]
  where
    later :
        (c : ℕ) (s pattern : Text) (o : Option Text)
        → starts_with (c ∷ s) pattern ≡ false
        → Finds pattern s o
        → Finds pattern (c ∷ s) o
    later c s pattern none f n =
        λ (x, y, e). let (z, one, rest) = tail_place c s pattern x y f e in n (z, y, rest)
    later c s pattern (some rest) f (before, e, here, least) = (
      c ∷ before,
      ap (λ t. c ∷ t) e,
      here,
      λ x y at.
          let (z, one, behind) = tail_place c s pattern x y f at in
          ground (arith, one, least z y behind),
    )

same_end : (a b r t : Text) → a ++ r ≡ b ++ t → length a ≡ length b → r ≡ t
same_end [] [] r t e l = e
same_end [] (d ∷ b) r t e l = ground arith
same_end (c ∷ a) [] r t e l = ground arith
same_end (c ∷ a) (d ∷ b) r t e l = same_end a b r t (cc) (omega (arith, l))

IsFirst-unique : (pattern s r t : Text) → IsFirst pattern s r → IsFirst pattern s t → r ≡ t
IsFirst-unique pattern s r t (a, e, (x, here), least) (b, f, (y, there), least') =
    same_end a b r t (sym e ∙ f) (
      ground (
        arith,
        least b y (placed s b t pattern y f there),
        least' a x (placed s a r pattern x e here),
      ))

pub find-none_iff : (s pattern : Text) → (find s pattern ≡ none) ↔ ¬ (HasPattern s pattern)
find-none_iff s pattern = by_answer (find s pattern) (find-Finds s pattern)
  where
    by_answer : (o : Option Text) → Finds pattern s o → (o ≡ none) ↔ ¬ (HasPattern s pattern)
    by_answer none n = (λ h. n, λ h. refl)
    by_answer (some rest) (before, e, (after, here), least) =
        (λ h. cc, λ n. elim (n (before, after, placed s before rest pattern after e here)) [ ])

-- `find` answers with the text from the first place of the pattern on.
pub find_iff : (s pattern rest : Text) → (find s pattern ≡ some rest) ↔ IsFirst pattern s rest
find_iff s pattern rest = by_answer (find s pattern) (find-Finds s pattern)
  where
    by_answer : (o : Option Text) → Finds pattern s o → (o ≡ some rest) ↔ IsFirst pattern s rest
    by_answer none n = (
      λ h. cc,
      λ (before, e, (after, here), least).
          elim (n (before, after, placed s before rest pattern after e here)) [ ],
    )
    by_answer (some found) first = (
      λ h. rw (some_eq h) at first,
      λ given. ap some (IsFirst-unique pattern s found rest first given),
    )
