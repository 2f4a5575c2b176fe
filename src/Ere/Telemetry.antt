-- ===== src/Ere/Telemetry.antt =====
-- rust/crates/hyperkitty-ere/src/p4_telemetry.rs: the gate against telemetry. Whitespace and
-- `to_lowercase` are Rust's, and parameters.
use hyperkitty_constraint_ds.Prelude.{
  is_empty, ℕ, Text, codes, Bool, not, ◌&&◌, ◌||◌, Option, none, some, List, [], ◌∷◌, ◌++◌, any,
  if◌then◌else◌, ◌==◌,
}
use hyperkitty_constraint_ds.Prelude.Search.{contains, find, starts_with}

unfoldable pub telemetry_patterns : List Text
telemetry_patterns =
    codes "google-analytics"
    ∷ codes "analytics.google"
    ∷ codes "gtag"
    ∷ codes "ga.js"
    ∷ codes "mixpanel"
    ∷ codes "segment.com"
    ∷ codes "amplitude"
    ∷ codes "heap.io"
    ∷ codes "intercom"
    ∷ codes "fullstory"
    ∷ codes "datadog"
    ∷ codes "new relic"
    ∷ codes "sentry.io"
    ∷ codes "crashlytics"
    ∷ codes "firebase"
    ∷ codes "hotjar"
    ∷ codes "inspectlet"
    ∷ codes "mouseflow"
    ∷ codes "kissmetrics"
    ∷ codes "optimizely"
    ∷ []

unfoldable pub allowlisted_domains : List Text
allowlisted_domains =
    codes "github.com"
    ∷ codes "api.github.com"
    ∷ codes "raw.githubusercontent.com"
    ∷ codes "npm.org"
    ∷ codes "registry.npmjs.org"
    ∷ codes "crates.io"
    ∷ codes "docs.rs"
    ∷ codes "locahost"
    ∷ codes "127.0.0.1"
    ∷ []

unfoldable pub is_allowlisted : Text → Bool
unfolding contains allowlisted_domains
is_allowlisted url = any (contains url) allowlisted_domains

-- The loop over the patterns left.
unfoldable pub pattern_findings : Text → List Text → List Text
unfolding contains
pattern_findings lower [] = []
pattern_findings lower (pattern ∷ patterns) =
    let rest = pattern_findings lower patterns in
    if contains lower pattern
    then (codes "Telemetry pattern '" ++ pattern ++ codes "' detected") ∷ rest
    else rest

unfoldable pub has_tracking_pixel : Text → Bool
unfolding contains
has_tracking_pixel artifact =
    (contains artifact (codes "1x1")
      || (contains artifact (codes "1\"") || contains artifact (codes "1'")))
    && (contains artifact (codes "gif")
        || (contains artifact (codes "pixel")
            || (contains artifact (codes "width") || contains artifact (codes "height"))))

-- `find("http://").or_else(|| find("https://"))`, as the text from there on.
unfoldable pub first_url : Text → Option Text
unfolding find
first_url artifact = elim (find artifact (codes "http://")) [
  | none ↦ find artifact (codes "https://")
  | some rest ↦ some rest
]

abbrev pub is_external : Text → Bool
is_external url =
    not (is_allowlisted url)
    && (not (contains url (codes "localhost")) && not (contains url (codes "127.0.0.1")))

-- What one round of the loop pushes.
unfoldable pub url_findings : Option Text → List Text
unfolding is_allowlisted contains
url_findings none = []
url_findings (some url) =
    if is_external url
    then (codes "External request to non-allowlisted domain: " ++ url) ∷ []
    else []

-- The loop over the characters left: a round for each `h` before a `t`.
unfoldable pub requests_from : List Text → Text → List Text
unfolding starts_with
requests_from pushed [] = []
requests_from pushed (ch ∷ chars) =
    let later = requests_from pushed chars in
    if ch == b'h' && starts_with chars (b't' ∷ []) then pushed ++ later else later

module _ (is_whitespace : ℕ → Bool) where
  -- A character that ends a URL.
  abbrev pub ends_url : ℕ → Bool
  ends_url c = is_whitespace c || (c == b'"' || (c == b'\'' || c == b')'))

  -- The text before the first character that ends a URL, if there is one.
  unfoldable pub until_end : Text → Option Text
  until_end [] = none
  until_end (c ∷ s) =
      let rest = until_end s in
      if ends_url c then some [] else elim rest [ none ↦ none | some url ↦ some (c ∷ url) ]

  -- The URL that every round of the loop of `check_external_requests` looks at.
  unfoldable pub seen_url : Text → Option Text
  unfolding first_url until_end
  seen_url artifact = elim (first_url artifact) [ none ↦ none | some rest ↦ until_end rest ]

  unfoldable pub check_external_requests : Text → List Text
  unfolding requests_from url_findings seen_url
  check_external_requests artifact = requests_from (url_findings (seen_url artifact)) artifact

  module _ (to_lowercase : Text → Text) where
    unfoldable pub check_telemetry : Text → Bool × List Text
    unfolding contains pattern_findings telemetry_patterns has_tracking_pixel
        check_external_requests
    check_telemetry artifact =
        let beacon =
          if contains artifact (codes "sendBeacon")
          then codes "sendBeacon() detected - potential telemetry" ∷ []
          else [] in
        let patterns = pattern_findings (to_lowercase artifact) telemetry_patterns in
        let pixel =
          if has_tracking_pixel artifact
          then codes "Tracking pixel (1x1 gif/image) detected" ∷ []
          else [] in
        let findings = beacon ++ patterns ++ pixel ++ check_external_requests artifact in
        (is_empty findings, findings)
