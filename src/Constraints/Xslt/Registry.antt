-- ===== src/Constraints/Xslt/Registry.antt =====
-- `Invariant` and `InvariantRegistry` of
-- rust/crates/hyperkitty-constraints/src/xslt_processor.rs.
pub mod Laws
use hyperkitty_constraint_ds.Prelude.{ℕ, Text, Option, []}
use hyperkitty_constraint_ds.Prelude.Maps.{text_key, HashMap, insert, lookup}
use hyperkitty_constraint_ds.Constraints.Xslt.Kinds.{ConstraintKind, Polarity}

pub record Invariant : Type 0 where
  pub id : Text
  pub kind : ConstraintKind
  pub polarity : Polarity
  pub normalized_expr : Text
  pub inverted_expr : Text
  pub source_class : Text

pub record InvariantRegistry : Type 0 where
  pub invariants : HashMap Text Invariant
  pub project_name : Text
  pub organization : Text
  pub formalization_order : Text
  pub agda_iteration_multiplicity : ℕ

unfoldable pub new_registry : Text → Text → Text → ℕ → InvariantRegistry
new_registry project organization order multiplicity = record {
  invariants = [];
  project_name = project;
  organization = organization;
  formalization_order = order;
  agda_iteration_multiplicity = multiplicity;
}

unfoldable pub add_invariant : InvariantRegistry → Invariant → InvariantRegistry
unfolding insert
add_invariant r i = record r { invariants = insert i.id i r.invariants }

unfoldable pub get_invariant : InvariantRegistry → Text → Option Invariant
unfolding lookup
get_invariant r id = lookup id r.invariants
