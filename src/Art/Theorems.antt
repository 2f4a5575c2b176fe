-- ===== src/Art/Theorems.antt =====
-- rust/crates/hyperkitty-art/src/theorem_ast.rs: the theorems that are drawn.
use hyperkitty_constraint_ds.Prelude.{Text, String, codes, Option, some, List, [], ◌∷◌}

pub data TheoremKind : Type 0 where
  qlg_sphere sla_balance qra_identity qra_absorber witness_exhaustion : TheoremKind
  tripartite_iso jordan_commutativity nand_completeness : TheoremKind
  custom : Text → TheoremKind

pub record ProofStep : Type 0 where
  pub name : Text
  pub description : Text
  pub visual_hint : Option Text

pub record TheoremAst : Type 0 where
  pub name : Text
  pub kind : TheoremKind
  pub proof_steps : List ProofStep

abbrev step : String → String → String → ProofStep
step name description hint = record {
  name = codes name;
  description = codes description;
  visual_hint = some (codes hint);
}

abbrev pub qlg_sphere_ast : TheoremAst
qlg_sphere_ast = record {
  name = codes "QLG Sphere Invariant";
  kind = qlg_sphere;
  proof_steps =
      step "Canonical Closure" "All canonical points lie on unit sphere" "sphere"
      ∷ step "Evolution Preservation" "Evolution preserves sphere distance" "rotation"
      ∷ [];
}

abbrev pub sla_balance_ast : TheoremAst
sla_balance_ast = record {
  name = codes "SLA Balance Axiom";
  kind = sla_balance;
  proof_steps = step "Debit-Credit Axiom" "For every debit, credit exists" "balance_scale" ∷ [];
}

abbrev pub qra_identity_ast : TheoremAst
qra_identity_ast = record {
  name = codes "QRA Identity Row";
  kind = qra_identity;
  proof_steps = step "Row Construction" "Identity matrix row property" "matrix" ∷ [];
}

abbrev pub witness_exhaustion_ast : TheoremAst
witness_exhaustion_ast = record {
  name = codes "Witness Exhaustion";
  kind = witness_exhaustion;
  proof_steps =
      step "Iteration 1" "First evolution step" "arrow"
      ∷ step "Iteration 2" "Second evolution step reaching [Ω,Ω,Ω]" "checkmark"
      ∷ [];
}

abbrev pub jordan_commutativity_ast : TheoremAst
jordan_commutativity_ast = record {
  name = codes "Jordan Commutativity";
  kind = jordan_commutativity;
  proof_steps = step "Product Symmetry" "Spin factor product is commutative" "symmetric" ∷ [];
}

abbrev pub nand_completeness_ast : TheoremAst
nand_completeness_ast = record {
  name = codes "NAND Completeness";
  kind = nand_completeness;
  proof_steps =
      step "NOT from NAND" "Derive NOT gate" "gate"
      ∷ step "AND from NAND" "Derive AND gate" "gate"
      ∷ step "OR from NAND" "Derive OR gate" "gate"
      ∷ [];
}
