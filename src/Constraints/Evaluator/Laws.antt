-- ===== src/Constraints/Evaluator/Laws.antt =====
-- What an evaluation says of the constraints of a program, and what it does not depend on.
use hyperkitty_constraint_ds.Prelude.{
  ◌≤◌, ◌≡◌, ◌↔◌, ◌⊎◌, inl, inr, refl, Text, codes, Bool, true, false, Option, none, some, some_eq,
  Bool-cases, All-map, List, [], ◌∷◌, ◌++◌, arith, length, All, if_intro, ap, &&-true, all, text_eq,
  text_eq-eq, text_eq-ne, ◌≢◌,
}
use hyperkitty_constraint_ds.Core.{Result, ok, err, no_fuel}
use hyperkitty_constraint_ds.Constraints.Ast.{
  OtherwiseAction, accept, Requirement, predicate, check, Constraint, Bindings, bound,
  evaluate_requirement, evaluate_requires, evaluate_constraint, evaluate_program,
}
use hyperkitty_constraint_ds.Constraints.Evaluator.{
  Evaluator, evaluate, evaluate_named, constraint_not_found, evaluate_by_name, count_true,
  count_passing,
}

-- A predicate is met when its name is bound to true. The check `always_true` is met, the check
-- `always_false` is not, and any other is met as a predicate of its name is.
abbrev pub IsMet : Bindings → Requirement → Type 0
IsMet b (predicate name) = b name ≡ some true
IsMet b (check name) =
    (name ≡ codes "always_true") ⊎ ((name ≢ codes "always_false") × (b name ≡ some true))

-- A constraint holds when its requirements are all met, or when it accepts otherwise.
abbrev pub Holds : Bindings → Constraint → Type 0
Holds b c = All (IsMet b) c.requires ⊎ (c.otherwise ≡ accept)

bound_iff : (b : Bindings) (name : Text) → (bound b name ≡ true) ↔ (b name ≡ some true)
bound_iff b name = of_value (b name)
  where
    of_value :
        (o : Option Bool)
        → ((elim o as (λ _. Bool) [ none ↦ false | some v ↦ v ]) ≡ true) ↔ (o ≡ some true)
    of_value none = (λ h. cc, λ h. cc)
    of_value (some v) = (λ h. ap some h, λ h. some_eq h)

evaluate_requirement_iff :
    (b : Bindings) (r : Requirement) → (evaluate_requirement b r ≡ true) ↔ IsMet b r
unfolding evaluate_requirement
evaluate_requirement_iff b (predicate name) = bound_iff b name
evaluate_requirement_iff b (check name) = elim (Bool-cases (text_eq name (codes "always_true"))) [
  | inl t ↦ rw t (λ h. inl (text_eq-eq name (codes "always_true") t), λ h. refl)
  | inr f ↦
      let other = text_eq-ne name (codes "always_true") f in
      elim (Bool-cases (text_eq name (codes "always_false"))) [
        | inl t ↦
            rw (f, t)
              (
                λ h. cc,
                λ h. elim h [
                  | inl same ↦ elim (other same) [ ]
                  | inr (differs, value) ↦
                      elim (differs (text_eq-eq name (codes "always_false") t)) [ ]
                ],
              )
        | inr g ↦
            rw (f, g)
              (
                λ h. inr (text_eq-ne name (codes "always_false") g, (bound_iff b name).0 h),
                λ h. elim h [
                  | inl same ↦ elim (other same) [ ]
                  | inr (differs, value) ↦ (bound_iff b name).1 value
                ],
              )
      ]
]

evaluate_requires_iff :
    (b : Bindings) (o : OtherwiseAction) (rs : List Requirement)
    → (evaluate_requires b o rs ≡ true)
      ↔ (All (λ r. evaluate_requirement b r ≡ true) rs ⊎ (o ≡ accept))
unfolding evaluate_requires
evaluate_requires_iff b o [] = (λ h. inl tt, λ h. refl)
evaluate_requires_iff b o (r ∷ rs) =
    let ih = evaluate_requires_iff b o rs in (λ h. ground (arith, ih.0), λ h. ground (arith, ih.1))

evaluate_constraint_iff :
    (b : Bindings) (c : Constraint) → (evaluate_constraint b c ≡ true) ↔ Holds b c
unfolding evaluate_constraint
evaluate_constraint_iff b c =
    let each = evaluate_requires_iff b c.otherwise c.requires in
    (
      λ h. elim (each.0 h) [
        | inl met ↦ inl (All-map _ (λ r t. (evaluate_requirement_iff b r).0 t) c.requires met)
        | inr accepts ↦ inr accepts
      ],
      λ h. each.1 (elim h [
        | inl met ↦ inl (All-map _ (λ r t. (evaluate_requirement_iff b r).1 t) c.requires met)
        | inr accepts ↦ inr accepts
      ]),
    )

all_iff :
    (b : Bindings) (cs : List Constraint)
    → (all (evaluate_constraint b) cs ≡ true) ↔ All (Holds b) cs
all_iff b [] = (λ h. tt, λ h. refl)
all_iff b (c ∷ cs) =
    let ih = all_iff b cs in
    let at = evaluate_constraint_iff b c in
    (
      λ h. let (first, rest) = &&-true _ _ h in (at.0 first, ih.0 rest),
      λ h. ground (arith, at.1 h.0, ih.1 h.1),
    )

-- The evaluator answers for every program and all bindings, without an error, and its answer is true
-- exactly when each constraint of the program has all its requirements met or says `otherwise accept`.
-- A requirement is met when its name is bound to true; but the check `always_true` is always met, and
-- the check `always_false` never.
pub evaluate_iff :
    (e : Evaluator) (b : Bindings)
    → (v : Bool) × (evaluate e b ≡ ok v) × ((v ≡ true) ↔ All (Holds b) e.program.constraints)
unfolding evaluate evaluate_program
evaluate_iff e b = (_, refl, all_iff b e.program.constraints)

count_true-le : (b : Bindings) (cs : List Constraint) → count_true b cs ≤ length cs
unfolding count_true
count_true-le b [] = omega arith
count_true-le b (c ∷ cs) = ground (arith, count_true-le b cs)

count_true-full :
    (b : Bindings) (cs : List Constraint)
    → (count_true b cs ≡ length cs) ↔ (all (evaluate_constraint b) cs ≡ true)
unfolding count_true
count_true-full b [] = (λ h. refl, λ h. refl)
count_true-full b (c ∷ cs) =
    let ih = count_true-full b cs in
    (λ h. ground (arith, ih.0, count_true-le b cs), λ h. ground (arith, ih.1))

-- `count_passing` is at most the number of constraints, and equals it exactly when the program
-- evaluates to true.
pub count_passing_bounds :
    (e : Evaluator) (b : Bindings)
    → (count_passing e b ≤ length e.program.constraints)
      × ((count_passing e b ≡ length e.program.constraints) ↔ (evaluate e b ≡ ok true))
unfolding count_passing evaluate evaluate_program
count_passing_bounds e b =
    let full = count_true-full b e.program.constraints in
    (count_true-le b e.program.constraints, (λ h. cc (full.0 h), λ h. full.1 (cc)))

-- The first constraint of a name, with those before it having other names.
abbrev pub IsFirstNamed : Text → Constraint → List Constraint → Type 0
IsFirstNamed name c cs =
    (before : List Constraint) × (after : List Constraint) × (cs ≡ before ++ c ∷ after)
    × All (λ d. d.name ≢ name) before
    × (c.name ≡ name)

abbrev pub NamedAs : Text → Bindings → List Constraint → Result Bool → Type 0
NamedAs name b cs (ok v) = (c : Constraint) × IsFirstNamed name c cs × (v ≡ evaluate_constraint b c)
NamedAs name b cs (err e) = All (λ d. d.name ≢ name) cs × (e ≡ constraint_not_found name)
NamedAs name b cs no_fuel = ⊥

NamedAs-cons :
    (name : Text) (b : Bindings) (c : Constraint) (cs : List Constraint) (r : Result Bool)
    → c.name ≢ name
    → NamedAs name b cs r
    → NamedAs name b (c ∷ cs) r
NamedAs-cons name b c cs (ok v) n (d, (before, after, e, others, same), q) =
    (d, (c ∷ before, after, ap (λ l. c ∷ l) e, (n, others), same), q)
NamedAs-cons name b c cs (err x) n (others, e) = ((n, others), e)
NamedAs-cons name b c cs no_fuel n h = h

evaluate_named-NamedAs :
    (name : Text) (b : Bindings) (cs : List Constraint)
    → NamedAs name b cs (evaluate_named name b cs)
unfolding evaluate_named
evaluate_named-NamedAs name b [] = (tt, refl)
evaluate_named-NamedAs name b (c ∷ cs) =
    if_intro (NamedAs name b (c ∷ cs)) (text_eq c.name name)
      (λ same. (c, ([], cs, refl, tt, text_eq-eq c.name name same), refl))
      (λ n.
        NamedAs-cons name b c cs _ (text_eq-ne c.name name n) (evaluate_named-NamedAs name b cs))

-- `evaluate_constraint` by name gives the value of the first constraint with that name, and the
-- error with the name asked for when no constraint has it.
pub evaluate_by_name-NamedAs :
    (e : Evaluator) (name : Text) (b : Bindings)
    → NamedAs name b e.program.constraints (evaluate_by_name e name b)
unfolding evaluate_by_name
evaluate_by_name-NamedAs e name b = evaluate_named-NamedAs name b e.program.constraints
