-- ===== src/Ere/Urls.antt =====
-- The URL that `check_external_requests` of rust/crates/hyperkitty-ere/src/p4_telemetry.rs looks at,
-- described by its place in the text.
use hyperkitty_constraint_ds.Prelude.{
  ℕ, ◌≡◌, ◌≢◌, ◌↔◌, ◌⊎◌, inl, inr, refl, sym, ap, ◌∙◌, Text, codes, Bool, true, Option, none, some,
  some_eq, [], ◌∷◌, ◌++◌, All, Bool-cases, arith,
}
use hyperkitty_constraint_ds.Prelude.Search.{HasPattern, find}
use hyperkitty_constraint_ds.Prelude.Places.{IsFirst, find-none_iff, find_iff}
use hyperkitty_constraint_ds.Ere.Telemetry.{first_url, ends_url, until_end, seen_url}

pub option_cases : {A : Type 0} (o : Option A) → (o ≡ none) ⊎ ((a : A) × (o ≡ some a))
option_cases none = inl refl
option_cases (some a) = inr (a, refl)

-- The text from the first `http://` on, or, without any, from the first `https://` on.
abbrev pub IsFirstUrl : Text → Text → Type 0
IsFirstUrl artifact rest =
    IsFirst (codes "http://") artifact rest
    ⊎ ((¬ (HasPattern artifact (codes "http://"))) × IsFirst (codes "https://") artifact rest)

first_url_iff : (artifact rest : Text) → (first_url artifact ≡ some rest) ↔ IsFirstUrl artifact rest
unfolding first_url
first_url_iff artifact rest =
    let plain = find_iff artifact (codes "http://") rest in
    let secure = find_iff artifact (codes "https://") rest in
    let missing = find-none_iff artifact (codes "http://") in
    elim (option_cases (find artifact (codes "http://"))) [
      | inl n ↦
          rw (n, first_url)
            (
              λ h. inr (missing.0 n, secure.0 h),
              λ q. elim q [
                | inl first ↦ let t = plain.1 first in cc
                | inr (lacks, first) ↦ secure.1 first
              ],
            )
      | inr (r, e) ↦
          rw (e, first_url)
            (
              λ h. inl (plain.0 (e ∙ h)),
              λ q. elim q [
                | inl first ↦ sym e ∙ plain.1 first
                | inr (lacks, first) ↦ let t = missing.1 lacks in cc
              ],
            )
    ]

module _ (is_whitespace : ℕ → Bool) where
  -- Whitespace, a double or a single quote, or a closing parenthesis.
  abbrev pub IsEnd : ℕ → Type 0
  IsEnd c = (is_whitespace c ≡ true) ⊎ (c ≡ 34) ⊎ (c ≡ 39) ⊎ (c ≡ 41)

  -- The text before the first character that ends a URL.
  abbrev pub EndsAt : Text → Text → Type 0
  EndsAt rest url =
      (c : ℕ) × (more : Text) × (rest ≡ url ++ c ∷ more) × IsEnd c × All (λ d. ¬ (IsEnd d)) url

  ends_url_iff : (c : ℕ) → (ends_url is_whitespace c ≡ true) ↔ IsEnd c
  ends_url_iff c = (λ h. ground arith, λ h. ground arith)

  prefixed : ℕ → Option Text → Option Text
  prefixed d none = none
  prefixed d (some url) = some (d ∷ url)

  prefixed-nil : (d : ℕ) (o : Option Text) → prefixed d o ≢ some []
  unfolding prefixed
  prefixed-nil d none h = cc
  prefixed-nil d (some url) h = let t = some_eq h in cc

  prefixed-cons :
      (d u : ℕ) (url : Text) (o : Option Text)
      → prefixed d o ≡ some (u ∷ url)
      → (d ≡ u) × (o ≡ some url)
  unfolding prefixed
  prefixed-cons d u url none h = cc
  prefixed-cons d u url (some found) h =
      let t : d ∷ found ≡ u ∷ url = some_eq h in let tail : found ≡ url = cc in (cc, ap some tail)

  until_end_iff : (s url : Text) → (until_end is_whitespace s ≡ some url) ↔ EndsAt s url
  unfolding until_end prefixed
  until_end_iff [] [] = (λ h. cc, λ (c, more, e, rest, more_rest). cc)
  until_end_iff [] (d ∷ url) = (λ h. cc, λ (c, more, e, rest, more_rest). cc)
  until_end_iff (d ∷ s) [] = elim (Bool-cases (ends_url is_whitespace d)) [
    | inl t ↦ rw t (λ h. (d, s, refl, (ends_url_iff d).0 t, tt), λ h. refl)
    | inr f ↦ rw f (
      λ h. elim (prefixed-nil d (until_end is_whitespace s) h) [ ],
      λ (c, more, e, end, others).
          let same : c ≡ d = cc in let t = (ends_url_iff d).1 (rw same at end) in cc,
    )
  ]
  until_end_iff (d ∷ s) (u ∷ url) = elim (Bool-cases (ends_url is_whitespace d)) [
    | inl t ↦ rw t (
      λ h. cc,
      λ (c, more, e, end, others).
          let same : d ≡ u = cc in elim (others.0 (rw same at ((ends_url_iff d).0 t))) [ ],
    )
    | inr f ↦ rw f (
      λ h.
          let (same, found) = prefixed-cons d u url (until_end is_whitespace s) h in
          let (c, more, e, end, others) = (until_end_iff s url).0 found in
          (
            c,
            more,
            ap (λ x. x ∷ s) same ∙ ap (λ x. u ∷ x) e,
            end,
            ((λ ended. let t = (ends_url_iff d).1 (rw (← same) at ended) in cc), others),
          ),
      λ (c, more, e, end, others).
          let same : d ≡ u = cc in
          let behind : s ≡ url ++ c ∷ more = cc in
          let found = (until_end_iff s url).1 (c, more, behind, end, others.1) in
          ap (prefixed d) found ∙ ap (λ x. some (x ∷ url)) same,
    )
  ]

  -- The first URL of `http://`, or, without any, of `https://`, up to its end.
  abbrev pub IsSeen : Text → Text → Type 0
  IsSeen artifact url = (rest : Text) × IsFirstUrl artifact rest × EndsAt rest url

  pub seen_url_iff :
      (artifact url : Text) → (seen_url is_whitespace artifact ≡ some url) ↔ IsSeen artifact url
  unfolding seen_url
  seen_url_iff artifact url =
      let first = first_url_iff artifact in
      elim (option_cases (first_url artifact)) [
        | inl n ↦
            rw (n, seen_url) (λ h. cc, λ (rest, place, ends). let t = (first rest).1 place in cc)
        | inr (r, e) ↦
            rw (e, seen_url)
              (
                λ h. (r, (first r).0 e, (until_end_iff r url).0 h),
                λ (rest, place, ends).
                    let same : rest ≡ r = some_eq (sym ((first rest).1 place) ∙ e) in
                    (until_end_iff r url).1 (rw same at ends),
              )
      ]
