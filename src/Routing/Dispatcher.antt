-- ===== src/Routing/Dispatcher.antt =====
-- rust/crates/hyperkitty-routing/src/dispatch.rs: the dispatcher and its execution count, a `usize`
-- of 64 bits that wraps in a release build.
use hyperkitty_constraint_ds.Prelude.{
  is_empty, ℕ, ◌+◌, ◌%◌, ◌^◌, Text, codes, List, [], ◌∷◌, ◌++◌, if◌then◌else◌,
}
use hyperkitty_constraint_ds.Prelude.Decimal.{decimal}
use hyperkitty_constraint_ds.Prelude.Maps.{HashMap, insert, number_key}
use hyperkitty_constraint_ds.Core.{Result, ok, err, no_valid_routes, parse_error, literal}
use hyperkitty_constraint_ds.Routing.Platform.{Platform}
use hyperkitty_constraint_ds.Routing.Nodes.{RoutingNode, is_valid}

pub record Dispatcher : Type 0 where
  pub execution_count : ℕ

unfoldable pub new_dispatcher : Dispatcher
new_dispatcher = record { execution_count = 0 }

unfoldable pub reset : Dispatcher → Dispatcher
reset d = record d { execution_count = 0 }

-- `self.execution_count += 1`
unfoldable pub count_execution : Dispatcher → Dispatcher
count_execution d = record d { execution_count = (d.execution_count + 1) % 2 ^ 64 }

unfoldable pub dispatch : Dispatcher → ℕ → Text → Dispatcher × Result Text
unfolding count_execution decimal
dispatch d node_id message =
    if is_empty message
    then (d, err (parse_error (literal "empty_message")))
    else let counted : Dispatcher = count_execution d in
      (
        counted,
        ok (
            codes "dispatch_"
            ++ decimal counted.execution_count
            ++ codes "(node: "
            ++ decimal node_id
            ++ codes ", msg: '"
            ++ message
            ++ codes "', exec: "
            ++ decimal counted.execution_count
            ++ codes ")"),
      )

module _ (p : Platform) where
  -- The text of one execution of a batch, after it is counted.
  unfoldable pub execution_text : ℕ → RoutingNode p.Float → Text
  unfolding decimal
  execution_text count node =
      codes "batch_exec_"
      ++ decimal count
      ++ codes "(node: "
      ++ decimal node.id
      ++ codes ", name: "
      ++ node.name
      ++ codes ", weight: "
      ++ p.display_four node.weight
      ++ codes ")"

  -- One round of the loop: a valid node is counted, and its text becomes the result of its id.
  unfoldable pub dispatch_node :
      Dispatcher × HashMap ℕ Text → RoutingNode p.Float → Dispatcher × HashMap ℕ Text
  unfolding count_execution execution_text is_valid insert
  dispatch_node (d, results) node =
      if is_valid p node
      then (
        count_execution d,
        insert node.id (execution_text (count_execution d).execution_count node) results,
      )
      else (d, results)

  unfoldable pub dispatch_nodes :
      Dispatcher × HashMap ℕ Text → List (RoutingNode p.Float) → Dispatcher × HashMap ℕ Text
  unfolding dispatch_node
  dispatch_nodes state [] = state
  dispatch_nodes state (node ∷ nodes) = dispatch_nodes (dispatch_node state node) nodes

  -- The answer of a batch whose loop is done.
  unfoldable pub batch_answer : HashMap ℕ Text → Result (HashMap ℕ Text)
  batch_answer [] = err no_valid_routes
  batch_answer (e ∷ results) = ok (e ∷ results)

  unfoldable pub dispatch_batch :
      Dispatcher → List (RoutingNode p.Float) → Text → Dispatcher × Result (HashMap ℕ Text)
  unfolding dispatch_nodes batch_answer
  dispatch_batch d nodes message =
      if is_empty nodes
      then (d, err no_valid_routes)
      else if is_empty message
      then (d, err (parse_error (literal "empty_message")))
      else let (after, results) = dispatch_nodes (d, []) nodes in (after, batch_answer results)
