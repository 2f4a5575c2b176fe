-- ===== src/Ere/Signs.antt =====
-- The texts that the gate of rust/crates/hyperkitty-ere/src/p4_telemetry.rs looks for, and when it
-- finds them.
use hyperkitty_constraint_ds.Prelude.{
  ◌≡◌, ◌↔◌, ◌⊎◌, not, any, any-append, ||-true, &&-true, sym, inl, inr, refl, ◌∙◌, Text, codes,
  true, false, ◌&&◌, List, [], ◌∷◌, Bool-cases, arith,
}
use hyperkitty_constraint_ds.Prelude.Search.{contains, contains_iff, HasPattern}
use hyperkitty_constraint_ds.Ere.Telemetry.{
  has_tracking_pixel, is_external, is_allowlisted, allowlisted_domains,
}

-- One of the patterns is in the text.
abbrev pub HasAny : Text → List Text → Type 0
HasAny s [] = ⊥
HasAny s (pattern ∷ patterns) = HasPattern s pattern ⊎ HasAny s patterns

any_iff : (s : Text) (patterns : List Text) → (any (contains s) patterns ≡ true) ↔ HasAny s patterns
any_iff s [] = (λ h. cc, λ h. elim h [ ])
any_iff s (pattern ∷ patterns) =
    let here = contains_iff s pattern in
    let ih = any_iff s patterns in
    (
      λ h. elim (||-true (contains s pattern) (any (contains s) patterns) h) [
        | inl t ↦ inl (here.0 t)
        | inr t ↦ inr (ih.0 t)
      ],
      λ h. elim h [ inl p ↦ rw (here.1 p) refl | inr q ↦ ground (arith, ih.1 q) ],
    )

-- The trackers that the gate knows.
abbrev pub trackers : List Text
trackers =
    codes "google-analytics"
    ∷ codes "analytics.google"
    ∷ codes "gtag"
    ∷ codes "ga.js"
    ∷ codes "mixpanel"
    ∷ codes "segment.com"
    ∷ codes "amplitude"
    ∷ codes "heap.io"
    ∷ codes "intercom"
    ∷ codes "fullstory"
    ∷ codes "datadog"
    ∷ codes "new relic"
    ∷ codes "sentry.io"
    ∷ codes "crashlytics"
    ∷ codes "firebase"
    ∷ codes "hotjar"
    ∷ codes "inspectlet"
    ∷ codes "mouseflow"
    ∷ codes "kissmetrics"
    ∷ codes "optimizely"
    ∷ []

-- The texts of which a URL that is let through has one.
abbrev pub let_through : List Text
let_through =
    codes "github.com"
    ∷ codes "api.github.com"
    ∷ codes "raw.githubusercontent.com"
    ∷ codes "npm.org"
    ∷ codes "registry.npmjs.org"
    ∷ codes "crates.io"
    ∷ codes "docs.rs"
    ∷ codes "locahost"
    ∷ codes "127.0.0.1"
    ∷ codes "localhost"
    ∷ []

-- The texts of a picture of one pixel, and those that go with them.
abbrev pub pixel_sizes : List Text
pixel_sizes = codes "1x1" ∷ codes "1\"" ∷ codes "1'" ∷ []

abbrev pub pixel_signs : List Text
pixel_signs = codes "gif" ∷ codes "pixel" ∷ codes "width" ∷ codes "height" ∷ []

pub pixel_iff :
    (artifact : Text)
    → (has_tracking_pixel artifact ≡ false)
      ↔ ¬ (HasAny artifact pixel_sizes × HasAny artifact pixel_signs)
unfolding has_tracking_pixel
pixel_iff artifact =
    let sizes = any_iff artifact pixel_sizes in
    let signs = any_iff artifact pixel_signs in
    let both : has_tracking_pixel artifact
        ≡ (any (contains artifact) pixel_sizes && any (contains artifact) pixel_signs) =
      ground arith in
    (
      λ h (a, b). let s = sizes.1 a in let t = signs.1 b in ground (arith, both, s, t),
      λ n. elim (Bool-cases (has_tracking_pixel artifact)) [
        | inr f ↦ f
        | inl t ↦
            let (a, b) = &&-true (any (contains artifact) pixel_sizes) _ (sym both ∙ t) in
            elim (n (sizes.0 a, signs.0 b)) [ ]
      ],
    )

pub external_iff : (url : Text) → (is_external url ≡ false) ↔ HasAny url let_through
unfolding is_allowlisted allowlisted_domains
external_iff url =
    let listed = any_iff url let_through in
    let opposite : is_external url ≡ not (any (contains url) let_through) =
      ground (arith, any-append (contains url) allowlisted_domains (codes "localhost" ∷ [])) in
    (λ h. listed.0 (ground (arith, opposite)), λ h. ground (arith, opposite, listed.1 h))
