-- ===== src/Ere/Gates.antt =====
-- When the gates of rust/crates/hyperkitty-ere/src pass an artifact.
use hyperkitty_constraint_ds.Prelude.{
  ℕ, ◌+◌, ◌≡◌, ◌↔◌, ◌⊎◌, inl, inr, refl, Text, Bool, true, List, [], ◌∷◌, ◌++◌, All, Bool-cases,
  is_empty,
}
use hyperkitty_constraint_ds.Prelude.Search.{lines}
use hyperkitty_constraint_ds.Ere.Rules.{line_findings, IsClear, line_findings_iff}
use hyperkitty_constraint_ds.Ere.Secrets.{secret_rules, secrets_from, check_secrets}
use hyperkitty_constraint_ds.Ere.Evals.{eval_rules, is_comment, evals_from, check_eval}

pub is_empty_iff : {A : Type 0} (xs : List A) → (is_empty xs ≡ true) ↔ (xs ≡ [])
is_empty_iff [] = (λ h. refl, λ h. refl)
is_empty_iff (x ∷ xs) = (λ h. cc, λ h. cc)

pub append-nil_iff : {A : Type 0} (xs ys : List A) → (xs ++ ys ≡ []) ↔ ((xs ≡ []) × (ys ≡ []))
append-nil_iff [] ys = (λ h. (refl, h), λ h. h.1)
append-nil_iff (x ∷ xs) ys = (λ h. cc, λ h. let t = h.0 in cc)

secrets_from_iff :
    (is_match : Text → Text → Bool) (line_no : ℕ) (ls : List Text)
    → (secrets_from is_match line_no ls ≡ []) ↔ All (IsClear is_match secret_rules) ls
unfolding secrets_from
secrets_from_iff is_match line_no [] = (λ h. tt, λ h. refl)
secrets_from_iff is_match line_no (line ∷ ls) =
    let here = line_findings_iff is_match line_no line secret_rules in
    let ih = secrets_from_iff is_match (line_no + 1) ls in
    let split =
      append-nil_iff (line_findings is_match line_no line secret_rules)
        (secrets_from is_match (line_no + 1) ls) in
    (λ h. (here.0 (split.0 h).0, ih.0 (split.0 h).1), λ h. split.1 (here.1 h.0, ih.1 h.1))

-- The gate against secrets passes an artifact exactly when no secret rule matches one of its lines.
pub check_secrets_iff :
    (is_match : Text → Text → Bool) (artifact : Text)
    → ((check_secrets is_match artifact).0 ≡ true)
      ↔ All (IsClear is_match secret_rules) (lines artifact)
unfolding check_secrets
check_secrets_iff is_match artifact =
    let empty = is_empty_iff (secrets_from is_match 1 (lines artifact)) in
    let each = secrets_from_iff is_match 1 (lines artifact) in
    (λ h. each.0 (empty.0 h), λ h. empty.1 (each.1 h))

-- A line that starts a comment, or that no rule matches.
abbrev pub IsQuiet : (ℕ → Bool) → (Text → Text → Bool) → Text → Type 0
IsQuiet is_whitespace is_match line =
    (is_comment is_whitespace line ≡ true) ⊎ IsClear is_match eval_rules line

evals_from_iff :
    (is_whitespace : ℕ → Bool) (is_match : Text → Text → Bool) (line_no : ℕ) (ls : List Text)
    → (evals_from is_whitespace is_match line_no ls ≡ []) ↔ All (IsQuiet is_whitespace is_match) ls
unfolding evals_from
evals_from_iff is_whitespace is_match line_no [] = (λ h. tt, λ h. refl)
evals_from_iff is_whitespace is_match line_no (line ∷ ls) =
    let here = line_findings_iff is_match line_no line eval_rules in
    let ih = evals_from_iff is_whitespace is_match (line_no + 1) ls in
    let split =
      append-nil_iff (line_findings is_match line_no line eval_rules)
        (evals_from is_whitespace is_match (line_no + 1) ls) in
    elim (Bool-cases (is_comment is_whitespace line)) [
      | inl c ↦ rw c (λ h. (inl refl, ih.0 h), λ h. ih.1 h.1)
      | inr n ↦ rw n (
        λ h. (inr (here.0 (split.0 h).0), ih.0 (split.0 h).1),
        λ q. split.1 (
          here.1 (elim q.0 as (λ _. IsClear is_match eval_rules line) [ inl t ↦ cc | inr k ↦ k ]),
          ih.1 q.1,
        ),
      )
    ]

-- The gate against evaluated code passes an artifact exactly when each of its lines is a comment or
-- is matched by no rule.
pub check_eval_iff :
    (is_whitespace : ℕ → Bool) (is_match : Text → Text → Bool) (artifact : Text)
    → ((check_eval is_whitespace is_match artifact).0 ≡ true)
      ↔ All (IsQuiet is_whitespace is_match) (lines artifact)
unfolding check_eval
check_eval_iff is_whitespace is_match artifact =
    let empty = is_empty_iff (evals_from is_whitespace is_match 1 (lines artifact)) in
    let each = evals_from_iff is_whitespace is_match 1 (lines artifact) in
    (λ h. each.0 (empty.0 h), λ h. empty.1 (each.1 h))
