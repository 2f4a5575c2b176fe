-- ===== src/Ere/Searches.antt =====
-- When the gate of rust/crates/hyperkitty-ere/src/p3_loops.rs passes an artifact.
use hyperkitty_constraint_ds.Prelude.{
  ◌≡◌, ◌↔◌, ◌⊎◌, inl, inr, refl, Text, codes, Bool, true, false, not, ◌&&◌, ◌||◌, List, [], ◌∷◌,
  ◌++◌, take, if◌then◌else◌, is_empty,
}
use hyperkitty_constraint_ds.Prelude.Search.{
  contains, contains_iff, lacks_iff, HasPattern, lines, join_lines,
}
use hyperkitty_constraint_ds.Ere.Loops.{opens_endless, has_endless, check_loops}
use hyperkitty_constraint_ds.Ere.Gates.{is_empty_iff, append-nil_iff}

-- A finding under a test is missing exactly when the test fails.
pub finding_iff : (b : Bool) (t : Text) → ((if b then t ∷ [] else []) ≡ []) ↔ (b ≡ false)
finding_iff true t = (λ h. cc, λ h. cc)
finding_iff false t = (λ h. refl, λ h. refl)

pub or_false_iff : (a b : Bool) → ((a || b) ≡ false) ↔ ((a ≡ false) × (b ≡ false))
or_false_iff true b = (λ h. cc, λ h. let t = h.0 in cc)
or_false_iff false b = (λ h. (refl, h), λ h. h.1)

-- Each line that opens a loop has a `break` or a `return` in the 50 lines from it on.
abbrev pub LoopsEnd : List Text → Type 0
LoopsEnd [] = Unit
LoopsEnd (line ∷ rest) =
    (¬ (HasPattern line (codes "loop {"))
      ⊎ (HasPattern (join_lines (take 50 (line ∷ rest))) (codes "break")
          ⊎ HasPattern (join_lines (take 50 (line ∷ rest))) (codes "return")))
    × LoopsEnd rest

endless_iff :
    (a b c : Bool) → ((a && (not b && not c)) ≡ false) ↔ ((a ≡ false) ⊎ ((b ≡ true) ⊎ (c ≡ true)))
endless_iff false b c = (λ h. inl refl, λ h. refl)
endless_iff true true c = (λ h. inr (inl refl), λ h. refl)
endless_iff true false true = (λ h. inr (inr refl), λ h. refl)
endless_iff true false false =
    (λ h. cc, λ h. elim h [ inl t ↦ cc | inr k ↦ elim k [ inl t ↦ cc | inr t ↦ cc ] ])

has_endless_iff : (ls : List Text) → (has_endless ls ≡ false) ↔ LoopsEnd ls
unfolding has_endless opens_endless
has_endless_iff [] = (λ h. tt, λ h. refl)
has_endless_iff (line ∷ rest) =
    let block = join_lines (take 50 (line ∷ rest)) in
    let opens = lacks_iff line (codes "loop {") in
    let breaks = contains_iff block (codes "break") in
    let returns = contains_iff block (codes "return") in
    let here =
      endless_iff (contains line (codes "loop {")) (contains block (codes "break"))
        (contains block (codes "return")) in
    let ih = has_endless_iff rest in
    let both = or_false_iff (opens_endless (line ∷ rest)) (has_endless rest) in
    (
      λ h.
          let (first, others) = both.0 h in
          (
            elim (here.0 first) [
              | inl n ↦ inl (opens.0 n)
              | inr k ↦ inr (elim k [ inl t ↦ inl (breaks.0 t) | inr t ↦ inr (returns.0 t) ])
            ],
            ih.0 others,
          ),
      λ h. both.1 (
        here.1 (elim h.0 [
          | inl n ↦ inl (opens.1 n)
          | inr k ↦ inr (elim k [ inl t ↦ inl (breaks.1 t) | inr t ↦ inr (returns.1 t) ])
        ]),
        ih.1 h.1,
      ),
    )

and_false_iff : (a b : Bool) → ((a && b) ≡ false) ↔ ((a ≡ false) ⊎ (b ≡ false))
and_false_iff false b = (λ h. inl refl, λ h. refl)
and_false_iff true b = (λ h. inr h, λ h. elim h [ inl t ↦ cc | inr f ↦ f ])

-- No loop without an end, as far as the gate looks.
abbrev pub IsLoopSafe : Text → Type 0
IsLoopSafe artifact =
    (¬ (HasPattern artifact (codes "while(true)")))
    × (¬ (HasPattern artifact (codes "while (true)")))
    × (¬ (HasPattern artifact (codes "for(;;)")))
    × (¬ (HasPattern artifact (codes "for (;;)")))
    × (¬ (HasPattern artifact (codes "loop {")) ⊎ LoopsEnd (lines artifact))

three_iff :
    (xs ys zs : List Text)
    → (is_empty (xs ++ ys ++ zs) ≡ true) ↔ ((xs ≡ []) × (ys ≡ []) × (zs ≡ []))
three_iff xs ys zs =
    let empty = is_empty_iff (xs ++ ys ++ zs) in
    let last = append-nil_iff (xs ++ ys) zs in
    let first = append-nil_iff xs ys in
    (
      λ h. let (rest, c) = last.0 (empty.0 h) in let (a, b) = first.0 rest in (a, b, c),
      λ (a, b, c). empty.1 (last.1 (first.1 (a, b), c)),
    )

-- The gate against endless loops passes an artifact exactly when it has no `while(true)` and no
-- `for(;;)`, spaced or not, and each of its lines that opens a `loop` has a `break` or a `return` in the
-- 50 lines from it on.
pub check_loops_iff : (artifact : Text) → ((check_loops artifact).0 ≡ true) ↔ IsLoopSafe artifact
unfolding check_loops
check_loops_iff artifact =
    let w = contains artifact (codes "while(true)") in
    let v = contains artifact (codes "while (true)") in
    let f = contains artifact (codes "for(;;)") in
    let g = contains artifact (codes "for (;;)") in
    let l = contains artifact (codes "loop {") in
    let e = has_endless (lines artifact) in
    let whiles = finding_iff (w || v) (codes "Infinite loop: while(true) detected") in
    let fors = finding_iff (f || g) (codes "Infinite loop: for(;;) detected") in
    let loops =
      finding_iff (l && e) (codes "Potential infinite loop: loop {} without break/return") in
    let parts = three_iff _ _ _ in
    let ends = has_endless_iff (lines artifact) in
    (
      λ h.
          let (a, b, c) = parts.0 h in
          let (w0, v0) = (or_false_iff w v).0 (whiles.0 a) in
          let (f0, g0) = (or_false_iff f g).0 (fors.0 b) in
          (
            (lacks_iff artifact (codes "while(true)")).0 w0,
            (lacks_iff artifact (codes "while (true)")).0 v0,
            (lacks_iff artifact (codes "for(;;)")).0 f0,
            (lacks_iff artifact (codes "for (;;)")).0 g0,
            elim ((and_false_iff l e).0 (loops.0 c)) [
              | inl n ↦ inl ((lacks_iff artifact (codes "loop {")).0 n)
              | inr n ↦ inr (ends.0 n)
            ],
          ),
      λ (a, b, c, d, k). parts.1 (
        whiles.1 (
            (or_false_iff w v).1 (
              (lacks_iff artifact (codes "while(true)")).1 a,
              (lacks_iff artifact (codes "while (true)")).1 b,
            )),
        fors.1 (
            (or_false_iff f g).1 (
              (lacks_iff artifact (codes "for(;;)")).1 c,
              (lacks_iff artifact (codes "for (;;)")).1 d,
            )),
        loops.1 (
            (and_false_iff l e).1 (elim k [
              | inl n ↦ inl ((lacks_iff artifact (codes "loop {")).1 n)
              | inr n ↦ inr (ends.1 n)
            ])),
      ),
    )
