-- ===== src/Ere/Requests.antt =====
-- When the gate of rust/crates/hyperkitty-ere/src/p4_telemetry.rs passes an artifact.
use hyperkitty_constraint_ds.Prelude.{
  ℕ, ◌≡◌, ◌↔◌, ◌⊎◌, some_eq, sym, inl, inr, refl, ◌∙◌, Text, codes, Bool, true, false, ◌&&◌, Option,
  none, some, List, [], ◌∷◌, ◌++◌, All, Bool-cases, is_empty, arith, ◌==◌,
}
use hyperkitty_constraint_ds.Prelude.Search.{
  contains, contains_iff, lacks_iff, HasPattern, find, starts_with,
}
use hyperkitty_constraint_ds.Ere.Telemetry.{
  telemetry_patterns, pattern_findings, has_tracking_pixel, first_url, seen_url, is_external,
  url_findings, requests_from, check_external_requests, check_telemetry,
}
use hyperkitty_constraint_ds.Ere.Urls.{IsSeen, seen_url_iff, option_cases}
use hyperkitty_constraint_ds.Ere.Signs.{
  HasAny, trackers, let_through, pixel_sizes, pixel_signs, pixel_iff, external_iff,
}
use hyperkitty_constraint_ds.Ere.Gates.{is_empty_iff, append-nil_iff}
use hyperkitty_constraint_ds.Ere.Searches.{finding_iff, or_false_iff}

-- None of the patterns is in the text.
abbrev pub LacksAll : Text → List Text → Type 0
LacksAll s = All (λ pattern. ¬ (HasPattern s pattern))

pattern_findings_iff :
    (lower : Text) (patterns : List Text)
    → (pattern_findings lower patterns ≡ []) ↔ LacksAll lower patterns
unfolding pattern_findings
pattern_findings_iff lower [] = (λ h. tt, λ h. refl)
pattern_findings_iff lower (pattern ∷ patterns) =
    let ih = pattern_findings_iff lower patterns in
    let here = lacks_iff lower pattern in
    elim (Bool-cases (contains lower pattern)) [
      | inl t ↦ rw t (λ h. cc, λ h. elim (h.0 ((contains_iff lower pattern).0 t)) [ ])
      | inr f ↦ rw f (λ h. (here.0 f, ih.0 h), λ h. ih.1 h.1)
    ]

-- The URL is missing, or it does not count as external.
abbrev IsLetThrough : Option Text → Type 0
IsLetThrough none = Unit
IsLetThrough (some url) = is_external url ≡ false

url_findings_iff : (o : Option Text) → (url_findings o ≡ []) ↔ IsLetThrough o
unfolding url_findings
url_findings_iff none = (λ h. tt, λ h. refl)
url_findings_iff (some url) =
    finding_iff (is_external url) (codes "External request to non-allowlisted domain: " ++ url)

-- Without a round the text has no URL.
starts_with-longer :
    (s : Text)
    → starts_with s (codes "ht") ≡ false
    → (rest : Text) → starts_with s (codes "ht" ++ rest) ≡ false
unfolding starts_with
starts_with-longer [] h rest = refl
starts_with-longer (a ∷ []) h rest = ground arith
starts_with-longer (a ∷ b ∷ s) h rest = ground arith

find-none : (s rest : Text) → contains s (codes "ht") ≡ false → find s (codes "ht" ++ rest) ≡ none
unfolding find contains
find-none [] rest h = refl
find-none (c ∷ s) rest h =
    let (here, later) =
      (or_false_iff (starts_with (c ∷ s) (codes "ht")) (contains s (codes "ht"))).0 h in
    rw (starts_with-longer (c ∷ s) here rest, find-none s rest later) refl

requests_from_none :
    (f s : Text) (others : List Text)
    → requests_from (f ∷ others) s ≡ []
    → contains s (codes "ht") ≡ false
unfolding requests_from contains starts_with
requests_from_none f [] others h = refl
requests_from_none f (c ∷ s) others h = elim (Bool-cases ((c == 104) && starts_with s (116 ∷ []))) [
  | inl t ↦ let e = rw t at h in cc
  | inr n ↦ rw n (requests_from_none f s others (rw n at h))
]

requests_from_nothing : (s : Text) → requests_from [] s ≡ []
unfolding requests_from
requests_from_nothing [] = refl
requests_from_nothing (c ∷ s) = elim (Bool-cases ((c == 104) && starts_with s (116 ∷ []))) [
  | inl t ↦ rw t (requests_from_nothing s)
  | inr n ↦ rw n (requests_from_nothing s)
]

seen_url-none :
    (is_whitespace : ℕ → Bool) (artifact : Text)
    → contains artifact (codes "ht") ≡ false
    → seen_url is_whitespace artifact ≡ none
unfolding seen_url first_url
seen_url-none is_whitespace artifact h =
    let plain : find artifact (codes "http://") ≡ none = find-none artifact (codes "tp://") h in
    let secure : find artifact (codes "https://") ≡ none = find-none artifact (codes "tps://") h in
    rw (plain, seen_url) (rw (secure, seen_url) refl)

requests_iff :
    (is_whitespace : ℕ → Bool) (artifact : Text) (pushed : List Text)
    → pushed ≡ url_findings (seen_url is_whitespace artifact)
    → (requests_from pushed artifact ≡ []) ↔ (pushed ≡ [])
requests_iff is_whitespace artifact [] e = (λ h. refl, λ h. requests_from_nothing artifact)
requests_iff is_whitespace artifact (f ∷ others) e = (
  λ h.
      e
      ∙ (url_findings_iff (seen_url is_whitespace artifact)).1 (
          let_through (seen_url is_whitespace artifact)
            (seen_url-none is_whitespace artifact (requests_from_none f artifact others h))),
  λ h. cc,
)
  where
    let_through : (o : Option Text) → o ≡ none → IsLetThrough o
    let_through none e = tt
    let_through (some url) e = cc

four_iff :
    (ws xs ys zs : List Text)
    → (is_empty (ws ++ xs ++ ys ++ zs) ≡ true) ↔ ((ws ≡ []) × (xs ≡ []) × (ys ≡ []) × (zs ≡ []))
four_iff ws xs ys zs =
    let empty = is_empty_iff (ws ++ xs ++ ys ++ zs) in
    let last = append-nil_iff (ws ++ xs ++ ys) zs in
    let third = append-nil_iff (ws ++ xs) ys in
    let first = append-nil_iff ws xs in
    (
      λ h.
          let (abc, d) = last.0 (empty.0 h) in
          let (ab, c) = third.0 abc in let (a, b) = first.0 ab in (a, b, c, d),
      λ (a, b, c, d). empty.1 (last.1 (third.1 (first.1 (a, b), c), d)),
    )

-- The artifact has no URL that ends, or its first one is let through.
abbrev pub IsQuietAbroad : (ℕ → Bool) → Text → Type 0
IsQuietAbroad is_whitespace artifact =
    (¬ ((url : Text) × IsSeen is_whitespace artifact url))
    ⊎ ((url : Text) × IsSeen is_whitespace artifact url × HasAny url let_through)

IsLetThrough-IsQuietAbroad :
    (is_whitespace : ℕ → Bool) (artifact : Text)
    → IsLetThrough (seen_url is_whitespace artifact) ↔ IsQuietAbroad is_whitespace artifact
IsLetThrough-IsQuietAbroad is_whitespace artifact =
    let seen = seen_url_iff is_whitespace artifact in
    elim (option_cases (seen_url is_whitespace artifact)) [
      | inl n ↦ rw n (λ h. inl (λ (url, at). let t = (seen url).1 at in cc), λ h. tt)
      | inr (found, e) ↦ rw e (
        λ h. inr (found, (seen found).0 e, (external_iff found).0 h),
        λ h. elim h [
          | inl no_url ↦ elim (no_url (found, (seen found).0 e)) [ ]
          | inr (url, at, listed) ↦
              let same : url ≡ found = some_eq (sym ((seen url).1 at) ∙ e) in
              (external_iff found).1 (rw same at listed)
        ],
      )
    ]

-- No telemetry, as far as the gate looks.
abbrev pub IsUntracked : (ℕ → Bool) → (Text → Text) → Text → Type 0
IsUntracked is_whitespace to_lowercase artifact =
    (¬ (HasPattern artifact (codes "sendBeacon")))
    × LacksAll (to_lowercase artifact) trackers
    × (¬ (HasAny artifact pixel_sizes × HasAny artifact pixel_signs))
    × IsQuietAbroad is_whitespace artifact

-- The gate against telemetry passes an artifact exactly when it has no `sendBeacon`, its lower case
-- has none of the trackers, it does not have both a size and a sign of a tracking pixel, and its first
-- URL is missing, has no end, or has one of the texts that are let through. The first URL starts at
-- the first `http://`, or, without any, at the first `https://`, and ends before whitespace, a quote
-- or a closing parenthesis: the URLs after it are not looked at.
pub check_telemetry_iff :
    (is_whitespace : ℕ → Bool) (to_lowercase : Text → Text) (artifact : Text)
    → ((check_telemetry is_whitespace to_lowercase artifact).0 ≡ true)
      ↔ IsUntracked is_whitespace to_lowercase artifact
unfolding check_telemetry check_external_requests telemetry_patterns
check_telemetry_iff is_whitespace to_lowercase artifact =
    let url = seen_url is_whitespace artifact in
    let beacon =
      finding_iff (contains artifact (codes "sendBeacon"))
        (codes "sendBeacon() detected - potential telemetry") in
    let sends = lacks_iff artifact (codes "sendBeacon") in
    let patterns = pattern_findings_iff (to_lowercase artifact) trackers in
    let picture =
      finding_iff (has_tracking_pixel artifact) (codes "Tracking pixel (1x1 gif/image) detected") in
    let pixel = pixel_iff artifact in
    let request = requests_iff is_whitespace artifact (url_findings url) refl in
    let through = url_findings_iff url in
    let abroad = IsLetThrough-IsQuietAbroad is_whitespace artifact in
    let parts = four_iff _ _ _ _ in
    (
      λ h.
          let (a, b, c, d) = parts.0 h in
          (
            sends.0 (beacon.0 a),
            patterns.0 b,
            pixel.0 (picture.0 c),
            abroad.0 (through.0 (request.0 d)),
          ),
      λ (a, b, c, d). parts.1 (
        beacon.1 (sends.1 a),
        patterns.1 b,
        picture.1 (pixel.1 c),
        request.1 (through.1 (abroad.1 d)),
      ),
    )
