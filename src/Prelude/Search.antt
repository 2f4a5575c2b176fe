-- ===== src/Prelude/Search.antt =====
-- Searches in a text, as `str` has them: `starts_with`, `contains`, `find`, `lines` and `join`.
use Prim.Native.Nat.{ℕ}
use mathlib.Core.Path.{◌≡◌, refl, ap, ◌∙◌}
use mathlib.Core.Bool.{Bool, true, false, ◌&&◌, ◌||◌}
use mathlib.Core.List.{List, [], ◌∷◌, ◌++◌}
use mathlib.Core.Option.{Option, none, some}
use mathlib.Core.Logic.{◌↔◌, inl, inr}
use native.Mathlib.Omega.{arith}
use hyperkitty_constraint_ds.Prelude.Tests.{
  ◌==◌, eq→==, ==→eq, if◌then◌else◌, Bool-cases, &&-true, ||-true,
}
use hyperkitty_constraint_ds.Prelude.Texts.{Text}

unfoldable pub starts_with : Text → Text → Bool
starts_with s [] = true
starts_with [] (p ∷ pattern) = false
starts_with (c ∷ s) (p ∷ pattern) = (c == p) && starts_with s pattern

-- The text from the first place of a pattern.
unfoldable pub find : Text → Text → Option Text
unfolding starts_with
find [] pattern = if starts_with [] pattern then some [] else none
find (c ∷ s) pattern =
    let rest = find s pattern in if starts_with (c ∷ s) pattern then some (c ∷ s) else rest

unfoldable pub contains : Text → Text → Bool
unfolding starts_with
contains [] pattern = starts_with [] pattern
contains (c ∷ s) pattern = starts_with (c ∷ s) pattern || contains s pattern

-- A character in front of the first line.
unfoldable pub push_char : ℕ → List Text → List Text
push_char c [] = (c ∷ []) ∷ []
push_char c (line ∷ rest) = (c ∷ line) ∷ rest

-- A line ends at a line feed, which a carriage return may precede.
unfoldable pub lines : Text → List Text
unfolding push_char starts_with
lines [] = []
lines (c ∷ s) =
    let rest = lines s in
    if c == 10
    then [] ∷ rest
    else if c == 13 && starts_with s (10 ∷ [])
    then rest
    else push_char c rest

unfoldable pub join_lines : List Text → Text
join_lines [] = []
join_lines (line ∷ []) = line
join_lines (line ∷ next ∷ rest) = line ++ 10 ∷ join_lines (next ∷ rest)

-- A text with a pattern in it.
abbrev pub HasPattern : Text → Text → Type 0
HasPattern s pattern = (before : Text) × (after : Text) × (s ≡ before ++ pattern ++ after)

pub starts_with-append : (pattern after : Text) → starts_with (pattern ++ after) pattern ≡ true
unfolding starts_with
starts_with-append [] after = refl
starts_with-append (p ∷ pattern) after = rw (eq→== p p refl, starts_with-append pattern after) refl

pub starts_with-prefix :
    (s pattern : Text) → starts_with s pattern ≡ true → (after : Text) × (s ≡ pattern ++ after)
unfolding starts_with
starts_with-prefix s [] h = (s, refl)
starts_with-prefix [] (p ∷ pattern) h = cc
starts_with-prefix (c ∷ s) (p ∷ pattern) h =
    let (e, rest) = &&-true (c == p) (starts_with s pattern) h in
    let (after, f) = starts_with-prefix s pattern rest in
    (after, ap (λ d. d ∷ s) (==→eq c p e) ∙ ap (λ t. p ∷ t) f)

contains-HasPattern : (s pattern : Text) → contains s pattern ≡ true → HasPattern s pattern
unfolding contains
contains-HasPattern [] pattern h =
    let (after, e) = starts_with-prefix [] pattern h in ([], after, e)
contains-HasPattern (c ∷ s) pattern h =
    elim (||-true (starts_with (c ∷ s) pattern) (contains s pattern) h) [
      | inl here ↦ let (after, e) = starts_with-prefix (c ∷ s) pattern here in ([], after, e)
      | inr later ↦
          let (before, after, e) = contains-HasPattern s pattern later in
          (c ∷ before, after, ap (λ t. c ∷ t) e)
    ]

contains-append :
    (before pattern after : Text) → contains (before ++ pattern ++ after) pattern ≡ true
unfolding contains
contains-append [] [] [] = refl
contains-append [] [] (c ∷ after) = refl
contains-append [] (p ∷ pattern) after = rw (starts_with-append (p ∷ pattern) after) refl
contains-append (c ∷ before) pattern after =
    rw (contains-append before pattern after) (ground arith)

-- `contains` finds a pattern exactly where the text has it.
pub contains_iff : (s pattern : Text) → (contains s pattern ≡ true) ↔ HasPattern s pattern
contains_iff s pattern = (
  contains-HasPattern s pattern,
  λ (before, after, e). ap (λ t. contains t pattern) e ∙ contains-append before pattern after,
)

-- `contains` is false exactly where the text lacks the pattern.
pub lacks_iff : (s pattern : Text) → (contains s pattern ≡ false) ↔ ¬ (HasPattern s pattern)
lacks_iff s pattern = (
  λ h found. let t = (contains_iff s pattern).1 found in cc,
  λ n. elim (Bool-cases (contains s pattern)) [
    | inl t ↦ elim (n ((contains_iff s pattern).0 t)) [ ]
    | inr f ↦ f
  ],
)
