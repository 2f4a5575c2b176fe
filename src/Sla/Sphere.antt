-- ===== src/Sla/Sphere.antt =====
-- hyperkitty-qlg (rust/crates/hyperkitty-qlg/src/lib.rs): the six points of the sphere, and
-- hyperkitty-isomorphism (rust/crates/hyperkitty-isomorphism/src/lib.rs): the maps between glyphs,
-- points and ledgers. An outer `none` of a reconciliation is the `None` of the source.
pub mod Laws
use hyperkitty_constraint_ds.Prelude.{
  ℕ, ◌+◌, ◌-◌, ◌*◌, ◌%◌, Bool, true, false, not, ◌&&◌, Option, none, some, List, [], ◌∷◌, all, ◌==◌,
  if◌then◌else◌,
}
use hyperkitty_constraint_ds.Glyph.{
  Glyph, pi, gamma, delta, omega, lambda, psi, index, by_index, glyph_eq, all_glyphs,
}
use hyperkitty_constraint_ds.Qra.{next_glyph, ◌>>=◌}
use hyperkitty_constraint_ds.Sla.Ledger.{Ledger, modulus, add, neg, new, is_balanced}

-- The coordinates are `i64` words.
pub record Vec3 : Type 0 where
  pub x : ℕ
  pub y : ℕ
  pub z : ℕ

-- `-1`
abbrev pub minus_one : ℕ
minus_one = 18446744073709551615

abbrev pub k_qlg : ℕ
k_qlg = 1

unfoldable pub mul : ℕ → ℕ → ℕ
mul a b = (a * b) % modulus

unfoldable pub dot : Vec3 → Vec3 → ℕ
unfolding mul add
dot v o = add (add (mul v.x o.x) (mul v.y o.y)) (mul v.z o.z)

unfoldable pub norm_sq : Vec3 → ℕ
unfolding dot
norm_sq v = dot v v

unfoldable pub is_canonical : Vec3 → Bool
unfolding norm_sq
is_canonical v = norm_sq v == k_qlg

unfoldable pub opposite : Vec3 → Vec3
unfolding neg
opposite v = record { x = neg v.x; y = neg v.y; z = neg v.z }

abbrev pub vec3 : ℕ → ℕ → ℕ → Vec3
vec3 x y z = record { x = x; y = y; z = z }

unfoldable pub vec3_from_glyph : Glyph → Vec3
vec3_from_glyph pi = vec3 1 0 0
vec3_from_glyph gamma = vec3 minus_one 0 0
vec3_from_glyph delta = vec3 0 1 0
vec3_from_glyph psi = vec3 0 minus_one 0
vec3_from_glyph lambda = vec3 0 0 1
vec3_from_glyph omega = vec3 0 0 minus_one

-- The match of a triple pattern.
unfoldable pub matches : Vec3 → Vec3 → Bool
matches v p = (v.x == p.x) && ((v.y == p.y) && (v.z == p.z))

unfoldable pub glyph_from_vec3 : Vec3 → Option Glyph
unfolding matches
glyph_from_vec3 v =
    if matches v (vec3 1 0 0)
    then some pi
    else (if matches v (vec3 minus_one 0 0)
        then some gamma
        else (if matches v (vec3 0 1 0)
            then some delta
            else (if matches v (vec3 0 minus_one 0)
                then some psi
                else (if matches v (vec3 0 0 1)
                    then some lambda
                    else (if matches v (vec3 0 0 minus_one) then some omega else none)))))

unfoldable pub canonical_points : List Vec3
canonical_points =
    vec3 1 0 0
    ∷ vec3 minus_one 0 0
    ∷ vec3 0 1 0
    ∷ vec3 0 minus_one 0
    ∷ vec3 0 0 1
    ∷ vec3 0 0 minus_one
    ∷ []

unfoldable pub ledger_from_glyph : Glyph → Ledger
unfolding index vec3_from_glyph new
ledger_from_glyph g = new (index g) (vec3_from_glyph g).x k_qlg

unfoldable pub qlg_to_sla : Vec3 → Option Ledger
unfolding norm_sq glyph_from_vec3 index new add
qlg_to_sla v =
    let found = glyph_from_vec3 v >>= λ g. some (new (index g) (add (index g) 1) k_qlg) in
    if not (norm_sq v == k_qlg) then none else found

unfoldable pub qlg_to_qra : Vec3 → Option Glyph
unfolding glyph_from_vec3
qlg_to_qra v = glyph_from_vec3 v

unfoldable pub qra_to_qlg : Glyph → Vec3
unfolding vec3_from_glyph
qra_to_qlg g = vec3_from_glyph g

-- `(l.delta - 1) as usize` keeps the 64 bits.
unfoldable pub sla_to_qra : Ledger → Option Glyph
unfolding is_balanced by_index add
sla_to_qra l =
    if not (is_balanced l)
    then none
    else (if not (l.omega == k_qlg) then none else by_index (add l.delta minus_one))

unfoldable pub qra_to_sla : Glyph → Ledger
unfolding ledger_from_glyph
qra_to_sla g = ledger_from_glyph g

unfoldable pub round_trip_qlg : Vec3 → Option Vec3
unfolding qlg_to_sla sla_to_qra qra_to_qlg
round_trip_qlg v = qlg_to_sla v >>= λ l. sla_to_qra l >>= λ g. some (qra_to_qlg g)

pub record ReconciliationCertificate : Type 0 where
  pub glyph : Glyph
  pub qlg_point : Vec3
  pub sla_ledger : Ledger
  pub qlg_norm_sq : ℕ
  pub sla_balanced : Bool
  pub sla_omega : ℕ
  pub qra_target : Glyph
  pub isomorphism_holds : Bool

unfoldable pub is_valid : ReconciliationCertificate → Bool
is_valid c =
    c.isomorphism_holds && (c.sla_balanced && ((c.qlg_norm_sq == k_qlg) && (c.sla_omega == k_qlg)))

unfoldable pub reconcile : Glyph → Option ReconciliationCertificate
unfolding qra_to_qlg qlg_to_sla sla_to_qra glyph_eq norm_sq is_balanced
reconcile g =
    let point = qra_to_qlg g in
    qlg_to_sla point >>= λ ledger. sla_to_qra ledger >>= λ target. some (record {
      glyph = g;
      qlg_point = point;
      sla_ledger = ledger;
      qlg_norm_sq = norm_sq point;
      sla_balanced = is_balanced ledger;
      sla_omega = ledger.omega;
      qra_target = target;
      isomorphism_holds =
          glyph_eq target g && ((norm_sq point == k_qlg) && (ledger.omega == k_qlg));
    })

unfoldable pub reconcile_transition : Glyph → Glyph → Option (Option ReconciliationCertificate)
unfolding next_glyph reconcile
reconcile_transition current previous =
    next_glyph current previous >>= λ next. some (reconcile next)

-- `round_trip_qlg(v) == Some(*v)`
unfoldable pub is_recovered : Vec3 → Option Vec3 → Bool
unfolding matches
is_recovered v none = false
is_recovered v (some w) = matches w v

unfoldable pub validate_central_isomorphism : Bool
unfolding canonical_points is_recovered round_trip_qlg
validate_central_isomorphism = all (λ v. is_recovered v (round_trip_qlg v)) canonical_points

-- `expect` of each certificate: an outer `none` is a panic.
unfoldable pub certificates : List Glyph → Option (List ReconciliationCertificate)
unfolding reconcile
certificates [] = some []
certificates (g ∷ gs) = reconcile g >>= λ c. certificates gs >>= λ cs. some (c ∷ cs)

unfoldable pub reconcile_all : Option (List ReconciliationCertificate)
unfolding certificates all_glyphs
reconcile_all = certificates all_glyphs

unfoldable pub validate_full_reconciliation : Option Bool
unfolding reconcile_all is_valid
validate_full_reconciliation = reconcile_all >>= λ cs. some (all is_valid cs)

-- `QLGCertificate`
pub record PointCertificate : Type 0 where
  pub point : Vec3
  pub norm : ℕ
  pub is_point : Bool

unfoldable pub point_certificate : Vec3 → PointCertificate
unfolding norm_sq
point_certificate p = record { point = p; norm = norm_sq p; is_point = norm_sq p == k_qlg }

unfoldable pub validate_point : PointCertificate → Bool
validate_point c = (c.norm == k_qlg) && c.is_point
