-- ===== src/Routing/Pipeline.antt =====
-- rust/crates/hyperkitty-routing/src/pipeline.rs and the entry points of lib.rs: the eleven stages, in
-- order, on the state that they pass on.
pub mod Executions
pub mod Laws
use hyperkitty_constraint_ds.Prelude.{
  is_empty, is_some, ℕ, zero, suc, ◌+◌, ◌-◌, ◌*◌, ◌/◌, ◌%◌, ◌^◌, Text, codes, Bool, ◌&&◌, true,
  false, not, Option, none, some, List, [], ◌∷◌, ◌++◌, length, if◌then◌else◌, ltb,
}
use hyperkitty_constraint_ds.Prelude.Decimal.{decimal}
use hyperkitty_constraint_ds.Prelude.Maps.{HashMap, insert, number_key}
use hyperkitty_constraint_ds.Core.{
  Result, ok, err, no_fuel, ◌>>=◌, no_valid_routes, parse_error, invariant_violated, custom,
  literal, Error, display_error,
}
use hyperkitty_constraint_ds.Routing.Words.{split_whitespace, join}
use hyperkitty_constraint_ds.Routing.Platform.{Platform, route_weight}
use hyperkitty_constraint_ds.Routing.Nodes.{RoutingNode, new_node, execute}
use hyperkitty_constraint_ds.Routing.Dispatcher.{Dispatcher}
use hyperkitty_constraint_ds.Routing.State.{
  PipelineState, new_state, stages, at_least_one, activations_from, at_most_five,
}

module _ (p : Platform) where
  unfoldable pub stage_regex_parser : PipelineState p.Float → Result (PipelineState p.Float)
  unfolding split_whitespace
  stage_regex_parser state =
      let tokens = split_whitespace p state.input in
      if is_empty tokens
      then err (parse_error (literal "empty_token_stream"))
      else ok (record state { tokens = tokens })

  unfoldable pub stage_ast_builder : PipelineState p.Float → Result (PipelineState p.Float)
  unfolding decimal
  stage_ast_builder state = ok (record state {
    ast = some (
        codes "AST(tokens: "
        ++ p.debug_texts state.tokens
        ++ codes ", depth: "
        ++ decimal (length state.tokens)
        ++ codes ")");
  })

  unfoldable pub stage_symbolic_graph : PipelineState p.Float → Result (PipelineState p.Float)
  unfolding decimal
  stage_symbolic_graph state =
      let graph_size = at_least_one (length state.tokens) in
      ok (record state {
        graph = some (
            codes "Graph(nodes: "
            ++ decimal graph_size
            ++ codes ", edges: "
            ++ decimal ((graph_size * (graph_size - 1)) % 2 ^ 64 / 2)
            ++ codes ", weight_sum: "
            ++ p.display (p.mul (p.of_nat graph_size) p.three_halves)
            ++ codes ")");
      })

  unfoldable pub stage_jordan_transformer : PipelineState p.Float → Result (PipelineState p.Float)
  unfolding decimal
  stage_jordan_transformer state =
      let graph_nodes = at_least_one (length state.tokens) in
      let spectral_radius = p.mul (p.of_nat graph_nodes) p.euler in
      ok (record state {
        jordan = some (
            codes "Jordan(spectral_radius: "
            ++ p.display_four spectral_radius
            ++ codes ", blocks: "
            ++ decimal (graph_nodes / 2 + 1)
            ++ codes ", determinant: "
            ++ p.display_four (p.ln spectral_radius)
            ++ codes ")");
      })

  unfoldable pub stage_jacobian_lens : PipelineState p.Float → Result (PipelineState p.Float)
  unfolding decimal
  stage_jacobian_lens state =
      let sensitivity = p.div (p.of_nat (length state.tokens)) p.ten in
      ok (record state {
        jacobian = some (
            codes "Jacobian(sensitivity: "
            ++ p.display_four sensitivity
            ++ codes ", dead_paths: "
            ++ decimal (if p.lt sensitivity p.half then 2 else 0)
            ++ codes ", rank: "
            ++ decimal (length state.tokens)
            ++ codes ")");
      })

  unfoldable pub stage_constraint_eval : PipelineState p.Float → Result (PipelineState p.Float)
  stage_constraint_eval state =
      let all_valid =
        not (is_empty state.tokens)
        && (is_some state.ast && (is_some state.graph && is_some state.jordan)) in
      if not all_valid
      then err (invariant_violated (literal "constraint_violation"))
      else ok (record state { constraints_valid = all_valid })

  unfoldable pub stage_sparse_activation : PipelineState p.Float → Result (PipelineState p.Float)
  unfolding activations_from
  stage_sparse_activation state =
      let len = length state.tokens in
      let activation_set = activations_from len 0 (at_most_five len) in
      if is_empty activation_set
      then err no_valid_routes
      else ok (record state { activation_set = activation_set })

  -- `enumerate().map(…)` from an index.
  unfoldable pub nodes_from : ℕ → List ℕ → List (RoutingNode p.Float)
  unfolding new_node decimal
  nodes_from idx [] = []
  nodes_from idx (id ∷ ids) =
      new_node p id (codes "route_" ++ decimal idx) (route_weight p idx) ∷ nodes_from (idx + 1) ids

  unfoldable pub stage_routing_nodes : PipelineState p.Float → Result (PipelineState p.Float)
  unfolding nodes_from
  stage_routing_nodes state =
      let routing_nodes = nodes_from 0 state.activation_set in
      if is_empty routing_nodes
      then err no_valid_routes
      else ok (record state { routing_nodes = routing_nodes })

  -- `filter(|node| node.weight > 0.3)`
  unfoldable pub compatible : List (RoutingNode p.Float) → List (RoutingNode p.Float)
  compatible [] = []
  compatible (node ∷ nodes) =
      let rest = compatible nodes in if p.lt p.three_tenths node.weight then node ∷ rest else rest

  unfoldable pub stage_nand_filter : PipelineState p.Float → Result (PipelineState p.Float)
  unfolding compatible
  stage_nand_filter state =
      let filtered_nodes = compatible state.routing_nodes in
      if is_empty filtered_nodes
      then err no_valid_routes
      else ok (record state { filtered_nodes = filtered_nodes })

  -- The result that is kept of an execution.
  unfoldable pub execution_result : Result Text → Text
  unfolding display_error
  execution_result (ok text) = text
  execution_result (err e) = codes "error: " ++ display_error p.message_text e
  execution_result Result.no_fuel = []

  unfoldable pub execute_all : Text → HashMap ℕ Text → List (RoutingNode p.Float) → HashMap ℕ Text
  unfolding execute execution_result insert
  execute_all input results [] = results
  execute_all input results (node ∷ nodes) =
      execute_all input (insert node.id (execution_result (execute p node input)) results) nodes

  unfoldable pub stage_agent_dispatch : PipelineState p.Float → Result (PipelineState p.Float)
  unfolding execute_all
  stage_agent_dispatch state =
      let results = execute_all state.input state.dispatch_results state.filtered_nodes in
      if is_empty results
      then err (custom (literal "no_dispatch_results"))
      else ok (record state { dispatch_results = results })

  -- `format!("[{}]: {}", id, result)` of the results.
  unfoldable pub result_lines : List (ℕ × Text) → List Text
  unfolding decimal
  result_lines [] = []
  result_lines (e ∷ es) = (codes "[" ++ decimal e.0 ++ codes "]: " ++ e.1) ∷ result_lines es

  unfoldable pub stage_merge_output : PipelineState p.Float → Result (PipelineState p.Float)
  unfolding decimal stages result_lines join
  stage_merge_output state = ok (record state {
    merged_output =
        codes "routed(input: '"
        ++ state.input
        ++ codes "', stages: "
        ++ decimal (length stages)
        ++ codes ", results: "
        ++ join (codes " | ") (result_lines (p.order state.dispatch_results))
        ++ codes ")";
  })

  unfoldable pub process : Text → Result Text
  unfolding new_state stage_regex_parser stage_ast_builder stage_symbolic_graph
      stage_jordan_transformer stage_jacobian_lens stage_constraint_eval stage_sparse_activation
      stage_routing_nodes stage_nand_filter stage_agent_dispatch stage_merge_output
  process input = do
    parsed ← stage_regex_parser (new_state input)
    built ← stage_ast_builder parsed
    graphed ← stage_symbolic_graph built
    transformed ← stage_jordan_transformer graphed
    seen ← stage_jacobian_lens transformed
    evaluated ← stage_constraint_eval seen
    activated ← stage_sparse_activation evaluated
    routed ← stage_routing_nodes activated
    filtered ← stage_nand_filter routed
    dispatched ← stage_agent_dispatch filtered
    merged ← stage_merge_output dispatched
    ok merged.merged_output

  unfoldable pub route_message : Text → Result Text
  unfolding process
  route_message input = process input

  -- The dispatcher is not used.
  unfoldable pub route_with_dispatcher : Text → Dispatcher → Result Text
  unfolding route_message
  route_with_dispatcher input dispatcher = route_message input
