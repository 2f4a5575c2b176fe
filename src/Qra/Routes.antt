-- ===== src/Qra/Routes.antt =====
-- Where `route_to_convergence` of rust/crates/hyperkitty-routing/src/qra_dispatch.rs leads.
use hyperkitty_constraint_ds.Prelude.{
  ℕ, zero, suc, ◌≤◌, ◌≡◌, ◌≢◌, ◌↔◌, ◌⊎◌, inl, inr, Bool-cases, refl, sym, ap, ◌∙◌, true, some, List,
  [], ◌∷◌, ◌++◌, append-nil, append_assoc, length, replicate, arith,
}
use hyperkitty_constraint_ds.Core.{Result.ok}
use hyperkitty_constraint_ds.Glyph.{Glyph, pi, gamma, delta, omega, lambda, psi, is_absorber}
use hyperkitty_constraint_ds.Qra.{next_glyph}
use hyperkitty_constraint_ds.Qra.Dispatch.{route_loop, route_to_convergence}
use hyperkitty_constraint_ds.Qra.Laws.{next_glyph-total, dispatch-next_glyph}

-- The glyphs behind `current`, each the table's entry for the two before it, and each behind a glyph
-- that does not absorb.
abbrev pub IsRoute : Glyph → Glyph → List Glyph → Type 0
IsRoute current previous [] = Unit
IsRoute current previous (g ∷ gs) =
    (current ≢ omega) × (next_glyph current previous ≡ some g) × IsRoute g current gs

-- The last glyph of a route.
abbrev pub last_of : Glyph → List Glyph → Glyph
last_of current [] = current
last_of current (g ∷ gs) = last_of g gs

is_absorber_iff : (g : Glyph) → (is_absorber g ≡ true) ↔ (g ≡ omega)
unfolding is_absorber
is_absorber_iff pi = (λ h. cc, λ h. cc)
is_absorber_iff gamma = (λ h. cc, λ h. cc)
is_absorber_iff delta = (λ h. cc, λ h. cc)
is_absorber_iff omega = (λ h. refl, λ h. refl)
is_absorber_iff lambda = (λ h. cc, λ h. cc)
is_absorber_iff psi = (λ h. cc, λ h. cc)

-- Whatever the limit, the loop follows the table, until the absorber or the limit.
pub route_loop-IsRoute :
    (n : ℕ) (current previous : Glyph) (states : List Glyph)
    → (gs : List Glyph) × (route_loop n current previous states ≡ some (ok (states ++ gs)))
      × IsRoute current previous gs
      × (length gs ≤ n)
      × ((last_of current gs ≡ omega) ⊎ (length gs ≡ n))
unfolding route_loop
route_loop-IsRoute zero current previous states =
    ([], ap (λ l. some (ok l)) (sym (append-nil states)), tt, ground arith, inr refl)
route_loop-IsRoute (suc n) current previous states = elim (Bool-cases (is_absorber current)) [
  | inl done ↦ (
    [],
    rw done (ap (λ l. some (ok l)) (sym (append-nil states))),
    tt,
    ground arith,
    inl ((is_absorber_iff current).0 done),
  )
  | inr going ↦
      let (g, e) = next_glyph-total current previous in
      let (gs, f, route, short, ended) = route_loop-IsRoute n g current (states ++ (g ∷ [])) in
      (
        g ∷ gs,
        rw (going, dispatch-next_glyph current previous g e, route_loop)
            (f ∙ ap (λ l. some (ok l)) (append_assoc states (g ∷ []) gs)),
        ((λ same. let t = (is_absorber_iff current).1 same in cc), e, route),
        ground (arith, short),
        elim ended [ inl here ↦ inl here | inr full ↦ inr (ap suc full) ],
      )
]

-- From two `Lambda`s there is only `Lambda`.
lambda_route : (gs : List Glyph) → IsRoute lambda lambda gs → gs ≡ replicate (length gs) lambda
unfolding next_glyph
lambda_route [] h = refl
lambda_route (g ∷ gs) (going, e, rest) =
    let same : lambda ≡ g = cc in
    let behind : IsRoute lambda lambda gs = rw (← same) at rest in
    rw (← same) (ap (λ l. lambda ∷ l) (lambda_route gs behind))

lambda_last : (n : ℕ) → last_of lambda (replicate n lambda) ≡ lambda
lambda_last zero = refl
lambda_last (suc n) = lambda_last n

-- The run from a glyph other than `Lambda`.
converges :
    (g : Glyph)
    → g ≢ lambda
    → (gs : List Glyph) × (route_to_convergence g ≡ some (ok (g ∷ gs)))
      × (last_of g gs ≡ omega)
      × (length gs ≤ 2)
unfolding route_to_convergence route_loop
converges pi n = (_, refl, refl, ground arith)
converges gamma n = (_, refl, refl, ground arith)
converges delta n = (_, refl, refl, ground arith)
converges omega n = (_, refl, refl, ground arith)
converges lambda n = elim (n refl) [ ]
converges psi n = (_, refl, refl, ground arith)

lambda-dec : (g : Glyph) → (g ≡ lambda) ⊎ (g ≢ lambda)
lambda-dec pi = inr (λ h. cc)
lambda-dec gamma = inr (λ h. cc)
lambda-dec delta = inr (λ h. cc)
lambda-dec omega = inr (λ h. cc)
lambda-dec lambda = inl refl
lambda-dec psi = inr (λ h. cc)

-- Where a route ends that takes a hundred steps unless it meets `Omega` before.
ends_at :
    (g : Glyph) (gs : List Glyph)
    → route_to_convergence g ≡ some (ok (g ∷ gs))
    → IsRoute g lambda gs
    → ((last_of g gs ≡ omega) ⊎ (length gs ≡ 100))
    → ((g ≢ lambda) × (last_of g gs ≡ omega) × (length gs ≤ 2))
      ⊎ ((g ≡ lambda) × (gs ≡ replicate 100 lambda))
ends_at g gs f route ended = elim (lambda-dec g) [
  | inr other ↦
      let (hs, run, last, few) = converges g other in
      let same : hs ≡ gs = cc in inl (other, rw same at last, rw same at few)
  | inl start ↦
      let from_lambda : IsRoute lambda lambda gs = rw start at route in
      let all_lambda = lambda_route gs from_lambda in
      let stays : last_of lambda gs ≡ lambda =
        ap (last_of lambda) all_lambda ∙ lambda_last (length gs) in
      let full : length gs ≡ 100 = elim ended [
        | inr full ↦ full
        | inl absorbed ↦ let met : last_of lambda gs ≡ omega = rw start at absorbed in cc
      ] in
      inr (start, all_lambda ∙ ap (λ n. replicate n lambda) full)
]

-- The routing gives the start and then, for each glyph, the table's entry for the two before it, of
-- which the first is `Lambda`, and goes on behind no `Omega`. From a start other than `Lambda` it
-- ends at `Omega` after two steps at most; from `Lambda` it takes a hundred steps, all to `Lambda`.
pub route_to_convergence-ends :
    (g : Glyph)
    → (gs : List Glyph) × (route_to_convergence g ≡ some (ok (g ∷ gs)))
      × IsRoute g lambda gs
      × (((g ≢ lambda) × (last_of g gs ≡ omega) × (length gs ≤ 2))
          ⊎ ((g ≡ lambda) × (gs ≡ replicate 100 lambda)))
unfolding route_to_convergence
route_to_convergence-ends g =
    let (gs, f, route, short, ended) = route_loop-IsRoute 100 g lambda (g ∷ []) in
    (gs, f, route, ends_at g gs f route ended)
