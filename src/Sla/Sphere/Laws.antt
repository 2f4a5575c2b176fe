-- ===== src/Sla/Sphere/Laws.antt =====
-- The maps are inverse to each other on the six points.
use hyperkitty_constraint_ds.Prelude.{
  ◌≡◌, ◌↔◌, refl, sym, ap, ◌∙◌, true, Option, none, some, ◌==◌, not, inl, inr, Option-cases,
  some_eq, if_intro, arith,
}
use hyperkitty_constraint_ds.Glyph.{Glyph, pi, gamma, delta, omega, lambda, psi}
use hyperkitty_constraint_ds.Qra.{◌>>=◌}
use hyperkitty_constraint_ds.Sla.Ledger.{Ledger}
use hyperkitty_constraint_ds.Sla.Sphere.{
  Vec3, vec3, vec3_from_glyph, glyph_from_vec3, matches, norm_sq, k_qlg, minus_one, qlg_to_sla,
  qra_to_qlg, sla_to_qra, round_trip_qlg, ReconciliationCertificate, reconcile, is_valid,
}

matches-eq : (v p : Vec3) → matches v p ≡ true → v ≡ p
unfolding matches
matches-eq v p h =
    let x_eq : v.x ≡ p.x = ground arith in
    let y_eq : v.y ≡ p.y = ground arith in
    let z_eq : v.z ≡ p.z = ground arith in rw (x_eq, y_eq, z_eq) refl

glyph_from_vec3-some : (v : Vec3) (g : Glyph) → glyph_from_vec3 v ≡ some g → v ≡ vec3_from_glyph g
unfolding glyph_from_vec3 vec3_from_glyph
glyph_from_vec3-some v pi h = matches-eq v (vec3 1 0 0) (ground arith)
glyph_from_vec3-some v gamma h = matches-eq v (vec3 minus_one 0 0) (ground arith)
glyph_from_vec3-some v delta h = matches-eq v (vec3 0 1 0) (ground arith)
glyph_from_vec3-some v omega h = matches-eq v (vec3 0 0 minus_one) (ground arith)
glyph_from_vec3-some v lambda h = matches-eq v (vec3 0 0 1) (ground arith)
glyph_from_vec3-some v psi h = matches-eq v (vec3 0 minus_one 0) (ground arith)

glyph_from_vec3-vec3_from_glyph : (g : Glyph) → glyph_from_vec3 (vec3_from_glyph g) ≡ some g
unfolding glyph_from_vec3 vec3_from_glyph
glyph_from_vec3-vec3_from_glyph pi = refl
glyph_from_vec3-vec3_from_glyph gamma = refl
glyph_from_vec3-vec3_from_glyph delta = refl
glyph_from_vec3-vec3_from_glyph omega = refl
glyph_from_vec3-vec3_from_glyph lambda = refl
glyph_from_vec3-vec3_from_glyph psi = refl

-- A point stands for a glyph exactly when it is the point of that glyph.
pub glyph_from_vec3_iff :
    (v : Vec3) (g : Glyph) → glyph_from_vec3 v ≡ some g ↔ (v ≡ vec3_from_glyph g)
glyph_from_vec3_iff v g =
    (glyph_from_vec3-some v g, λ e. ap glyph_from_vec3 e ∙ glyph_from_vec3-vec3_from_glyph g)

-- Every glyph is carried to its point, to a balanced ledger and back, and its certificate is valid.
pub reconcile-valid :
    (g : Glyph)
    → (c : ReconciliationCertificate) × (reconcile g ≡ some c)
      × (is_valid c ≡ true)
      × (c.qra_target ≡ g)
      × (c.qlg_point ≡ vec3_from_glyph g)
unfolding reconcile is_valid
reconcile-valid pi = (_, refl, refl, refl, refl)
reconcile-valid gamma = (_, refl, refl, refl, refl)
reconcile-valid delta = (_, refl, refl, refl, refl)
reconcile-valid omega = (_, refl, refl, refl, refl)
reconcile-valid lambda = (_, refl, refl, refl, refl)
reconcile-valid psi = (_, refl, refl, refl, refl)

round_trip_points : (g : Glyph) → round_trip_qlg (vec3_from_glyph g) ≡ some (vec3_from_glyph g)
unfolding round_trip_qlg vec3_from_glyph
round_trip_points pi = refl
round_trip_points gamma = refl
round_trip_points delta = refl
round_trip_points omega = refl
round_trip_points lambda = refl
round_trip_points psi = refl

round_trip_none : (v : Vec3) → glyph_from_vec3 v ≡ none → round_trip_qlg v ≡ none
unfolding round_trip_qlg qlg_to_sla
round_trip_none v e = rw e (
    if_intro (λ (o : Option Ledger). (o >>= λ l. sla_to_qra l >>= λ g. some (qra_to_qlg g)) ≡ none)
      (not (norm_sq v == k_qlg)) (λ _. refl) (λ _. refl))

-- The round trip through the ledger accepts exactly the six points and gives each back.
pub round_trip_qlg_iff :
    (v w : Vec3) → round_trip_qlg v ≡ some w ↔ ((g : Glyph) × (v ≡ vec3_from_glyph g) × (w ≡ v))
round_trip_qlg_iff v w = (
  λ h. elim (Option-cases (glyph_from_vec3 v)) [
    | inl e ↦ let none_some : none ≡ some w = sym (round_trip_none v e) ∙ h in cc
    | inr (g, e) ↦
        let point = glyph_from_vec3-some v g e in
        let back : some w ≡ some v =
          sym h ∙ (ap round_trip_qlg point ∙ (round_trip_points g ∙ ap some (sym point))) in
        (g, point, some_eq back)
  ],
  λ (g, e, f). ap round_trip_qlg e ∙ (round_trip_points g ∙ ap some (sym (f ∙ e))),
)
