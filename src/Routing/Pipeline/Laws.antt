-- ===== src/Routing/Pipeline/Laws.antt =====
-- What the pipeline answers, for every input.
use hyperkitty_constraint_ds.Prelude.{
  is_empty, ℕ, zero, suc, ◌^◌, ◌<◌, ◌≤◌, ◌≡◌, ◌↔◌, Bool-cases, All, inl, inr, refl, ◌∙◌, ap, Text,
  codes, true, false, List, [], ◌∷◌, ◌++◌, length, ltb-ge, arith,
}
use hyperkitty_constraint_ds.Prelude.Decimal.{decimal}
use hyperkitty_constraint_ds.Prelude.Maps.{number_key}
use hyperkitty_constraint_ds.Core.{Result, ok, err, parse_error, literal}
use hyperkitty_constraint_ds.Routing.Platform.{Platform, IsPlatform}
use hyperkitty_constraint_ds.Routing.Nodes.{RoutingNode}
use hyperkitty_constraint_ds.Routing.Words.{pieces, push_word, split_whitespace, join}
use hyperkitty_constraint_ds.Routing.State.{activations_from, at_most_five, new_state, stages}
use hyperkitty_constraint_ds.Routing.Pipeline.{
  nodes_from, compatible, execute_all, result_lines, process, stage_regex_parser, stage_ast_builder,
  stage_symbolic_graph, stage_jordan_transformer, stage_jacobian_lens, stage_constraint_eval,
  stage_sparse_activation, stage_routing_nodes, stage_nand_filter, stage_agent_dispatch,
  stage_merge_output,
}
use hyperkitty_constraint_ds.Routing.Pipeline.Executions.{
  route_results, at_most_three, dispatched-eq,
}

module _ (p : Platform) (input : Text) where
  -- The text of the results of an input of `n` words.
  abbrev pub merged : ℕ → Text
  merged n =
      codes "routed(input: '"
      ++ input
      ++ codes "', stages: "
      ++ decimal 11
      ++ codes ", results: "
      ++ join (codes " | ")
          (result_lines p (p.order (route_results p input n 0 (at_most_three p input n))))
      ++ codes ")"

-- The answer of the pipeline for the words of its input.
abbrev pub answer : (p : Platform) → Text → List Text → Result Text
answer p input [] = err (parse_error (literal "empty_token_stream"))
answer p input (t ∷ ts) = ok (merged p input (suc (length ts)))

is_empty-execute_all :
    (p : Platform) (input : Text) (nodes : List (RoutingNode p.Float))
    → is_empty (execute_all p input [] nodes) ≡ false
    → is_empty nodes ≡ false
unfolding execute_all
is_empty-execute_all p input [] h = h
is_empty-execute_all p input (node ∷ nodes) h = refl

is_empty-compatible :
    (p : Platform) (nodes : List (RoutingNode p.Float))
    → is_empty (compatible p nodes) ≡ false
    → is_empty nodes ≡ false
unfolding compatible
is_empty-compatible p [] h = h
is_empty-compatible p (node ∷ nodes) h = refl

is_empty-nodes_from :
    (p : Platform) (i : ℕ) (ids : List ℕ)
    → is_empty (nodes_from p i ids) ≡ false
    → is_empty ids ≡ false
unfolding nodes_from
is_empty-nodes_from p i [] h = h
is_empty-nodes_from p i (id ∷ ids) h = refl

is_empty-route_results_many :
    (p : Platform) (input : Text) (n : ℕ)
    → 3 ≤ n
    → is_empty (route_results p input n 0 (at_most_three p input n)) ≡ false
unfolding route_results
is_empty-route_results_many p input n l = rw (ltb-ge n 3 l) refl

is_empty-route_results :
    (p : Platform) (input : Text) (k : ℕ)
    → is_empty (route_results p input (suc k) 0 (at_most_three p input (suc k))) ≡ false
unfolding route_results
is_empty-route_results p input zero = refl
is_empty-route_results p input (suc zero) = refl
is_empty-route_results p input (suc (suc k)) =
    is_empty-route_results_many p input (suc (suc (suc k))) (omega arith)

split_whitespace_iff :
    (p : Platform) (s : Text) → (split_whitespace p s ≡ []) ↔ All (λ c. p.is_whitespace c ≡ true) s
unfolding split_whitespace pieces push_word
split_whitespace_iff p [] = (λ h. tt, λ h. refl)
split_whitespace_iff p (c ∷ s) =
    let ih = split_whitespace_iff p s in
    elim (Bool-cases (p.is_whitespace c)) [
      | inl w ↦ rw w (λ h. (refl, ih.0 h), λ h. ih.1 h.1)
      | inr n ↦ rw n (λ h. cc, λ h. let t = h.0 in cc)
    ]

process_words :
    (p : Platform) (input : Text) (words : List Text)
    → split_whitespace p input ≡ words
    → IsPlatform p
    → length words < 2 ^ 63
    → process p input ≡ answer p input words
unfolding process stage_regex_parser new_state stage_ast_builder stage_symbolic_graph
    stage_jordan_transformer stage_jacobian_lens stage_constraint_eval stage_sparse_activation
    stage_routing_nodes stage_nand_filter stage_agent_dispatch stage_merge_output stages
process_words p input [] e h m = rw e refl
process_words p input (t ∷ ts) e h m =
    let n = suc (length ts) in
    let same = dispatched-eq p input (length ts) h m in
    let results = ap is_empty same ∙ is_empty-route_results p input (length ts) in
    let acts = activations_from n 0 (at_most_five n) in
    let nodes = nodes_from p 0 acts in
    let few = is_empty-execute_all p input (compatible p nodes) results in
    let some_nodes = is_empty-compatible p nodes few in
    let some_acts = is_empty-nodes_from p 0 acts some_nodes in
    rw e (rw some_acts (rw some_nodes (rw few (rw results (rw same refl)))))

-- The pipeline fails, with `empty_token_stream`, exactly on an input of whitespace. Otherwise it
-- answers with the input and the executions of its first three routes, or of as many as the input has
-- words, in the order in which their map is iterated: route `i` has the id `1000 * i` plus the number
-- of words and the weight `1 / (i + 1)`. The number of words is below `2 ^ 63`.
pub process_lem :
    (p : Platform) (input : Text)
    → IsPlatform p
    → length (split_whitespace p input) < 2 ^ 63
    → (process p input ≡ answer p input (split_whitespace p input))
      × ((split_whitespace p input ≡ []) ↔ All (λ c. p.is_whitespace c ≡ true) input)
process_lem p input h m =
    (process_words p input (split_whitespace p input) refl h m, split_whitespace_iff p input)
