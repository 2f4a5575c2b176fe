-- ===== src/Routing/State.antt =====
-- rust/crates/hyperkitty-routing/src/pipeline.rs: the state that the stages pass on, the names of
-- the stages, and the numbers that they take from the count of tokens.
use hyperkitty_constraint_ds.Prelude.{
  ℕ, zero, suc, ◌+◌, ◌*◌, ◌%◌, ◌^◌, Text, codes, Bool, true, Option, none, List, [], ◌∷◌,
  if◌then◌else◌, ltb,
}
use hyperkitty_constraint_ds.Prelude.Maps.{HashMap, number_key}
use hyperkitty_constraint_ds.Routing.Nodes.{RoutingNode}

pub record PipelineState (F : Type 0) : Type 0 where
  pub input : Text
  pub tokens : List Text
  pub ast : Option Text
  pub graph : Option Text
  pub jordan : Option Text
  pub jacobian : Option Text
  pub constraints_valid : Bool
  pub activation_set : List ℕ
  pub routing_nodes : List (RoutingNode F)
  pub filtered_nodes : List (RoutingNode F)
  pub dispatch_results : HashMap ℕ Text
  pub merged_output : Text

unfoldable pub new_state : {F : Type 0} → Text → PipelineState F
new_state input = record {
  input = input;
  tokens = [];
  ast = none;
  graph = none;
  jordan = none;
  jacobian = none;
  constraints_valid = true;
  activation_set = [];
  routing_nodes = [];
  filtered_nodes = [];
  dispatch_results = [];
  merged_output = [];
}

-- `RoutingPipeline::new().stages`
unfoldable pub stages : List Text
stages =
    codes "RegexParser"
    ∷ codes "ASTBuilder"
    ∷ codes "SymbolicGraph"
    ∷ codes "JordanTransformer"
    ∷ codes "JacobianLens"
    ∷ codes "ConstraintEval"
    ∷ codes "SparseActivation"
    ∷ codes "RoutingNodes"
    ∷ codes "NANDFilter"
    ∷ codes "AgentDispatch"
    ∷ codes "MergeOutput"
    ∷ []

-- `len().max(1)`
abbrev pub at_least_one : ℕ → ℕ
at_least_one zero = 1
at_least_one (suc n) = suc n

-- The activations `i * 1000 + len` from an index, for as many as are left.
unfoldable pub activations_from : ℕ → ℕ → ℕ → List ℕ
activations_from len i zero = []
activations_from len i (suc left) = (i * 1000 + len) % 2 ^ 64 ∷ activations_from len (i + 1) left

-- `(0..len.min(5))`
abbrev pub at_most_five : ℕ → ℕ
at_most_five n = if ltb n 5 then n else 5
