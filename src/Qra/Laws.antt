-- ===== src/Qra/Laws.antt =====
-- The table's rows, and where the two evolutions end.
use hyperkitty_constraint_ds.Prelude.{
  ℕ, suc, ◌≤◌, ◌≡◌, refl, sym, ap, ◌∙◌, Bool, true, false, not, ◌&&◌, Option, none, some, List, [],
  ◌∷◌, ◌++◌, append-nil, append_assoc, length, all, leb, arith,
}
use hyperkitty_constraint_ds.Core.{Result.ok}
use hyperkitty_constraint_ds.Glyph.{
  Glyph, pi, gamma, delta, omega, lambda, psi, index, all_glyphs, is_absorber,
}
use hyperkitty_constraint_ds.Glyph.Codes.{all_glyphs-all}
use hyperkitty_constraint_ds.Qra.{next_glyph}
use hyperkitty_constraint_ds.Qra.Witness.{Witness, WitnessHistory, exhaust, is_invalid_fixed_point}
use hyperkitty_constraint_ds.Qra.Dispatch.{
  DispatchResult, new, is_valid_pair, batch_loop, batch_result, dispatch, dispatch_batch,
}

-- `Omega` absorbs on the left and on the right, and `Lambda` on the left is the identity.
pub next_glyph-rows :
    (g : Glyph)
    → (next_glyph omega g ≡ some omega)
      × (next_glyph g omega ≡ some omega)
      × (next_glyph lambda g ≡ some g)
unfolding next_glyph
next_glyph-rows pi = (refl, refl, refl)
next_glyph-rows gamma = (refl, refl, refl)
next_glyph-rows delta = (refl, refl, refl)
next_glyph-rows omega = (refl, refl, refl)
next_glyph-rows lambda = (refl, refl, refl)
next_glyph-rows psi = (refl, refl, refl)

iff : Bool → Bool → Bool
iff true b = b
iff false b = not b

-- A run that ends in the state that its flags say, in at most three steps.
ends : Witness → Option WitnessHistory → Bool
unfolding iff is_invalid_fixed_point
ends w none = false
ends w (some h) =
    iff h.fixed_point (is_invalid_fixed_point w)
    && (iff h.exhausted (not (is_invalid_fixed_point w)) && leb (length h.states) 4)

exhaust_table :
    (n : ℕ)
    → all
        (λ a.
          all
            (λ b.
              all
                (λ c.
                  ends
                    (record { first = a; second = b; third = c })
                    (exhaust
                      (suc (suc (suc (suc n))))
                      (record { first = a; second = b; third = c })))
                all_glyphs)
            all_glyphs)
        all_glyphs
      ≡ true
unfolding exhaust ends all_glyphs
exhaust_table n = refl

ends-some :
    (w : Witness) (o : Option WitnessHistory)
    → ends w o ≡ true
    → (h : WitnessHistory) × (o ≡ some h)
      × (h.exhausted ≡ not (is_invalid_fixed_point w))
      × (h.fixed_point ≡ is_invalid_fixed_point w)
      × (length h.states ≤ 4)
unfolding ends iff
ends-some w none e = cc
ends-some w (some h) e = (h, refl, ground arith, ground arith, ground arith)

-- The loop of `exhaust` ends within three steps of evolution from every witness: at the fixed point
-- of three `Lambda`s if it starts there, and with an exhausted witness otherwise.
pub exhaust-ends :
    (n : ℕ) (w : Witness)
    → (h : WitnessHistory) × (exhaust (suc (suc (suc (suc n)))) w ≡ some h)
      × (h.exhausted ≡ not (is_invalid_fixed_point w))
      × (h.fixed_point ≡ is_invalid_fixed_point w)
      × (length h.states ≤ 4)
exhaust-ends n w = ends-some w (exhaust (suc (suc (suc (suc n)))) w) (
    all_glyphs-all _ (all_glyphs-all _ (all_glyphs-all _ (exhaust_table n) w.first) w.second)
      w.third)

has_next : Option Glyph → Bool
has_next none = false
has_next (some g) = true

next_table : all (λ a. all (λ b. has_next (next_glyph a b)) all_glyphs) all_glyphs ≡ true
unfolding next_glyph has_next all_glyphs
next_table = refl

has_next-some : (o : Option Glyph) → has_next o ≡ true → (g : Glyph) × (o ≡ some g)
unfolding has_next
has_next-some none h = cc
has_next-some (some g) h = (g, refl)

-- The table has an entry for every pair.
pub next_glyph-total : (a b : Glyph) → (g : Glyph) × (next_glyph a b ≡ some g)
next_glyph-total a b =
    has_next-some (next_glyph a b) (all_glyphs-all _ (all_glyphs-all _ next_table a) b)

-- A pair's result holds the pair and the table's entry for it.
Answers : Glyph × Glyph → DispatchResult → Type 0
Answers (a, b) r =
    (r.current ≡ a)
    × (r.previous ≡ b)
    × (next_glyph a b ≡ some r.next)
    × (r.absorbed ≡ is_absorber r.next)

pub AllAnswer : List (Glyph × Glyph) → List DispatchResult → Type 0
unfolding Answers
AllAnswer [] [] = Unit
AllAnswer (p ∷ ps) (r ∷ rs) = Answers p r × AllAnswer ps rs
AllAnswer _ _ = ⊥

is_valid_pair_lem : (a b : Glyph) → is_valid_pair a b ≡ true
unfolding is_valid_pair index
is_valid_pair_lem pi b = refl
is_valid_pair_lem gamma b = refl
is_valid_pair_lem delta b = refl
is_valid_pair_lem omega b = refl
is_valid_pair_lem lambda b = refl
is_valid_pair_lem psi b = refl

batch_loop-AllAnswer :
    (ps : List (Glyph × Glyph)) (acc : List DispatchResult)
    → (rs : List DispatchResult) × (batch_loop ps acc ≡ some (acc ++ rs)) × AllAnswer ps rs
unfolding batch_loop AllAnswer Answers new
batch_loop-AllAnswer [] acc = ([], ap some (sym (append-nil acc)), tt)
batch_loop-AllAnswer ((a, b) ∷ ps) acc =
    let (g, e) = next_glyph-total a b in
    let r : DispatchResult = record {
      current = a;
      previous = b;
      next = g;
      absorbed = is_absorber g;
      is_valid = true;
    } in
    let (rs, f, v) = batch_loop-AllAnswer ps (acc ++ (r ∷ [])) in
    (
      r ∷ rs,
      rw (is_valid_pair_lem a b, e) (f ∙ ap some (append_assoc acc (r ∷ []) rs)),
      ((refl, refl, e, refl), v),
    )

batch_result_ok :
    (p : Glyph × Glyph) (ps : List (Glyph × Glyph)) (rs : List DispatchResult)
    → AllAnswer (p ∷ ps) rs
    → batch_result rs ≡ ok rs
unfolding AllAnswer batch_result
batch_result_ok p ps [] v = elim v [ ]
batch_result_ok p ps (r ∷ rs) v = refl

-- A batch of pairs, unless it is empty, gives one result for each pair, in order, and never fails.
pub dispatch_batch-AllAnswer :
    (p : Glyph × Glyph) (ps : List (Glyph × Glyph))
    → (rs : List DispatchResult) × (dispatch_batch (p ∷ ps) ≡ some (ok rs)) × AllAnswer (p ∷ ps) rs
unfolding dispatch_batch
dispatch_batch-AllAnswer p ps =
    let (rs, f, v) = batch_loop-AllAnswer (p ∷ ps) [] in
    (rs, rw f (ap some (batch_result_ok p ps rs v)), v)

-- The dispatcher answers with the table's entry.
pub dispatch-next_glyph :
    (a b g : Glyph)
    → next_glyph a b ≡ some g
    → dispatch a b
      ≡ some (
          ok (record {
            current = a;
            previous = b;
            next = g;
            absorbed = is_absorber g;
            is_valid = true;
          }))
unfolding dispatch new
dispatch-next_glyph a b g e = rw (is_valid_pair_lem a b, e) refl
