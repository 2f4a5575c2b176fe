-- ===== src/Ere/Rules.antt =====
-- The rules of a line gate of rust/crates/hyperkitty-ere/src: a pattern of the crate `regex`, and the
-- message of a line that it matches. Whether a pattern matches is a parameter.
use hyperkitty_constraint_ds.Prelude.{
  ℕ, ◌≡◌, ◌↔◌, refl, Text, codes, Bool, false, List, [], ◌∷◌, ◌++◌, if◌then◌else◌, All, Bool-cases,
  inl, inr,
}
use hyperkitty_constraint_ds.Prelude.Decimal.{decimal}

-- A pattern with its message.
abbrev pub Rule : Type 0
Rule = Text × Text

-- `format!("Line {}: …", line_no)`
abbrev pub line_finding : ℕ → Text → Text
line_finding line_no message = codes "Line " ++ decimal line_no ++ codes ": " ++ message

module _ (is_match : Text → Text → Bool) where
  -- The findings of the rules left, on one line.
  unfoldable pub line_findings : ℕ → Text → List Rule → List Text
  unfolding decimal
  line_findings line_no line [] = []
  line_findings line_no line (rule ∷ rules) =
      let rest = line_findings line_no line rules in
      if is_match rule.0 line then line_finding line_no rule.1 ∷ rest else rest

  -- No rule matches the line.
  abbrev pub IsClear : List Rule → Text → Type 0
  IsClear rules line = All (λ rule. is_match rule.0 line ≡ false) rules

  pub line_findings_iff :
      (line_no : ℕ) (line : Text) (rules : List Rule)
      → (line_findings line_no line rules ≡ []) ↔ IsClear rules line
  unfolding line_findings
  line_findings_iff line_no line [] = (λ h. tt, λ h. refl)
  line_findings_iff line_no line (rule ∷ rules) =
      let ih = line_findings_iff line_no line rules in
      elim (Bool-cases (is_match rule.0 line)) [
        | inl m ↦ rw m (λ h. cc, λ h. let t = h.0 in cc)
        | inr n ↦ rw n (λ h. (refl, ih.0 h), λ h. ih.1 h.1)
      ]
