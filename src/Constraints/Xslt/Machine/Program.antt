-- ===== src/Constraints/Xslt/Machine/Program.antt =====
-- `to_constraint_program` of rust/crates/hyperkitty-constraints/src/xslt_processor.rs. The order in
-- which the registry's map is iterated is a parameter.
use hyperkitty_constraint_ds.Prelude.{
  ◌≡◌, ◌≢◌, ◌↔◌, ◌⊎◌, ◌&&◌, inl, inr, refl, ◌∙◌, Text, codes, Bool, true, false, List, [], ◌∷◌,
  ◌++◌, all, All, ap, sym, not, &&-true, arith, if◌then◌else◌, all-append,
}
use hyperkitty_constraint_ds.Prelude.Maps.{HashMap, all-Perm}
use mathlib.Core.List.{Perm}
use hyperkitty_constraint_ds.Core.{Result, ok}
use hyperkitty_constraint_ds.Constraints.Ast.{
  Constraint, ConstraintProgram, OtherwiseAction, reject, accept, predicate, new_constraint,
  add_requirement, new_program, add_constraint, evaluate_constraint, evaluate_program, Bindings,
  bound, is_accept, evaluate_requirement,
}
use hyperkitty_constraint_ds.Constraints.Evaluator.{evaluate}
use hyperkitty_constraint_ds.Constraints.Xslt.Kinds.{
  Polarity, positive, negative, neutral, kind_as_str,
}
use hyperkitty_constraint_ds.Constraints.Xslt.Registry.{Invariant}
use hyperkitty_constraint_ds.Constraints.Xslt.Machine.{FormalizationMachine}

unfoldable pub otherwise_action : Polarity → OtherwiseAction
otherwise_action negative = reject
otherwise_action positive = accept
otherwise_action neutral = accept

abbrev pub check_name : Text → Text
check_name id = codes "check_" ++ id

-- The constraint of an entry of the registry.
unfoldable pub invariant_constraint : Text × Invariant → Constraint
unfolding kind_as_str otherwise_action new_constraint add_requirement
invariant_constraint e =
    add_requirement
      (new_constraint (kind_as_str e.1.kind ++ codes "-" ++ e.0) e.0
        (otherwise_action e.1.polarity))
      (predicate (check_name e.0))

-- The loop over the entries left.
unfoldable pub add_constraints : ConstraintProgram → List (Text × Invariant) → ConstraintProgram
unfolding invariant_constraint add_constraint
add_constraints p [] = p
add_constraints p (e ∷ es) = add_constraints (add_constraint p (invariant_constraint e)) es

module _ (order : HashMap Text Invariant → List (Text × Invariant)) where
  unfoldable pub to_constraint_program : FormalizationMachine → Result ConstraintProgram
  unfolding add_constraints new_program
  to_constraint_program m = ok (add_constraints new_program (order m.registry.invariants))

-- An invariant that is negative has its check bound to true.
abbrev pub IsMet : Bindings → Text × Invariant → Type 0
IsMet b e = (e.1.polarity ≢ negative) ⊎ (bound b (check_name e.0) ≡ true)

-- A map is iterated in some order of its entries.
abbrev pub IsOrder : (HashMap Text Invariant → List (Text × Invariant)) → Type 0
IsOrder order = (entries : HashMap Text Invariant) → Perm (order entries) entries

requirement_iff :
    (p : Polarity) (v : Bool)
    → ((if not v then is_accept (otherwise_action p) else true) ≡ true)
      ↔ ((p ≢ negative) ⊎ (v ≡ true))
unfolding otherwise_action
requirement_iff p true = (λ h. inr refl, λ h. refl)
requirement_iff positive false = (λ h. inl (λ e. cc), λ h. refl)
requirement_iff neutral false = (λ h. inl (λ e. cc), λ h. refl)
requirement_iff negative false = (λ h. cc, λ h. elim h [ inl n ↦ elim (n refl) [ ] | inr e ↦ e ])

-- `Constraint::evaluate` on the constraint of an entry.
holds_entry : Bindings → Text × Invariant → Bool
unfolding evaluate_constraint invariant_constraint
holds_entry b e = evaluate_constraint b (invariant_constraint e)

holds_entries_iff :
    (b : Bindings) (es : List (Text × Invariant))
    → (all (holds_entry b) es ≡ true) ↔ All (IsMet b) es
unfolding holds_entry evaluate_requirement
holds_entries_iff b [] = (λ h. tt, λ h. refl)
holds_entries_iff b (e ∷ es) =
    let ih = holds_entries_iff b es in
    let at = requirement_iff e.1.polarity (bound b (check_name e.0)) in
    (
      λ h.
          let (first, rest) = &&-true (holds_entry b e) (all (holds_entry b) es) h in
          (at.0 first, ih.0 rest),
      λ h. rw (at.1 h.0, ih.1 h.1) refl,
    )

all-add_constraints :
    (b : Bindings) (p : ConstraintProgram) (es : List (Text × Invariant))
    → all (evaluate_constraint b) (add_constraints p es).constraints
      ≡ (all (evaluate_constraint b) p.constraints && all (holds_entry b) es)
unfolding add_constraints holds_entry
all-add_constraints b p [] = ground arith
all-add_constraints b p (e ∷ es) =
    let ih = all-add_constraints b (add_constraint p (invariant_constraint e)) es in
    let last = all-append (evaluate_constraint b) p.constraints (invariant_constraint e ∷ []) in
    ground (arith, ih, last)

ok_true : (v : Bool) → ok v ≡ ok true → v ≡ true
ok_true v e = cc

-- The program of a machine always exists, and whatever order its invariants are visited in, it
-- evaluates to true exactly when every registered invariant of negative polarity has its check
-- `check_<id>` bound to true.
pub evaluate-to_constraint_program :
    (order : HashMap Text Invariant → List (Text × Invariant)) (m : FormalizationMachine)
    (b : Bindings)
    → IsOrder order
    → (p : ConstraintProgram) × (to_constraint_program order m ≡ ok p)
      × ((evaluate (record { program = p }) b ≡ ok true) ↔ All (IsMet b) m.registry.invariants)
unfolding to_constraint_program evaluate evaluate_program new_program
evaluate-to_constraint_program order m b h =
    let entries = m.registry.invariants in
    let visited = all-add_constraints b new_program (order entries) in
    let same = all-Perm (holds_entry b) (order entries) entries (h entries) in
    let iff = holds_entries_iff b entries in
    (
      add_constraints new_program (order entries),
      refl,
      (λ t. iff.0 (sym same ∙ sym visited ∙ ok_true _ t), λ t. ap ok (visited ∙ same ∙ iff.1 t)),
    )
