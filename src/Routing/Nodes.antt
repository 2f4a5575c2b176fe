-- ===== src/Routing/Nodes.antt =====
-- rust/crates/hyperkitty-routing/src/nodes.rs: a node that executes a route.
use hyperkitty_constraint_ds.Prelude.{
  is_empty, ℕ, Text, codes, Bool, ◌&&◌, not, ◌++◌, if◌then◌else◌,
}
use hyperkitty_constraint_ds.Core.{Result, ok, err, invalid_route}
use hyperkitty_constraint_ds.Routing.Platform.{Platform}

pub record RoutingNode (F : Type 0) : Type 0 where
  pub id : ℕ
  pub name : Text
  pub weight : F
  pub enabled : Bool

unfoldable pub set_enabled : {F : Type 0} → RoutingNode F → Bool → RoutingNode F
set_enabled node enabled = record node { enabled = enabled }

module _ (p : Platform) where
  unfoldable pub new_node : ℕ → Text → p.Float → RoutingNode p.Float
  new_node id name weight = record {
    id = id;
    name = name;
    weight = weight;
    enabled = p.lt p.zero weight;
  }

  unfoldable pub execute : RoutingNode p.Float → Text → Result Text
  execute node input =
      if not node.enabled
      then err invalid_route
      else ok (
          node.name
          ++ codes "(weight: "
          ++ p.display_four node.weight
          ++ codes ", input: '"
          ++ input
          ++ codes "' )")

  unfoldable pub is_valid : RoutingNode p.Float → Bool
  is_valid node = node.enabled && (p.lt p.zero node.weight && not (is_empty node.name))
