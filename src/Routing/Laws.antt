-- ===== src/Routing/Laws.antt =====
-- What a batch of the dispatcher executes and counts.
use hyperkitty_constraint_ds.Prelude.{
  is_some, is_empty, not, ℕ, suc, ◌+◌, ◌%◌, ◌^◌, ◌<◌, ◌≡◌, ◌≢◌, refl, ◌∙◌, ap, Text, Bool, true,
  false, ◌&&◌, ◌||◌, Option, some, List, [], ◌∷◌, if◌then◌else◌, Bool-cases, inl, inr, any, ◌==◌,
  eq→==, sym, arith,
}
use hyperkitty_constraint_ds.Core.{ok, err, no_valid_routes}
use hyperkitty_constraint_ds.Prelude.Maps.{
  HashMap, IsMap, lookup, insert, lookup-insert, insert-IsMap, number_key,
}
use hyperkitty_constraint_ds.Routing.Platform.{Platform}
use hyperkitty_constraint_ds.Routing.Nodes.{RoutingNode, is_valid}
use hyperkitty_constraint_ds.Routing.Dispatcher.{
  Dispatcher, count_execution, execution_text, dispatch_node, dispatch_nodes, batch_answer,
  dispatch_batch,
}

module _ (p : Platform) where
  -- A node that runs: enabled, of a weight above zero, and with a name.
  abbrev pub runs : RoutingNode p.Float → Bool
  runs node = node.enabled && (p.lt p.zero node.weight && not (is_empty node.name))

  pub count_valid : List (RoutingNode p.Float) → ℕ
  count_valid [] = 0
  count_valid (node ∷ nodes) = let rest = count_valid nodes in if runs node then suc rest else rest

  -- A valid node of the id.
  pub is_valid_at : ℕ → RoutingNode p.Float → Bool
  is_valid_at id node = runs node && (node.id == id)

  dispatch_node-valid :
      (d : Dispatcher) (m : HashMap ℕ Text) (node : RoutingNode p.Float)
      → runs node ≡ true
      → dispatch_node p (d, m) node ≡ (
        count_execution d,
        insert node.id (execution_text p (count_execution d).execution_count node) m,
      )
  unfolding dispatch_node is_valid
  dispatch_node-valid d m node v = rw v refl

  dispatch_node-invalid :
      (d : Dispatcher) (m : HashMap ℕ Text) (node : RoutingNode p.Float)
      → runs node ≡ false
      → dispatch_node p (d, m) node ≡ (d, m)
  unfolding dispatch_node is_valid
  dispatch_node-invalid d m node n = rw n refl

  is_some-if :
      (b : Bool) (v : Text) (o : Option Text) → is_some (if b then some v else o) ≡ (b || is_some o)
  is_some-if true v o = refl
  is_some-if false v o = refl

  is_some-insert :
      (k : ℕ) (v : Text) (m : HashMap ℕ Text) (j : ℕ)
      → is_some (lookup j (insert k v m)) ≡ ((k == j) || is_some (lookup j m))
  is_some-insert k v m j = ap is_some (lookup-insert k v m j) ∙ is_some-if (k == j) v (lookup j m)

  -- A node with an id is valid when one is valid.
  some_valid :
      (id : ℕ) (nodes : List (RoutingNode p.Float))
      → any (is_valid_at id) nodes ≡ true
      → any runs nodes ≡ true
  unfolding is_valid_at
  some_valid id [] h = h
  some_valid id (node ∷ nodes) h = ground (arith, some_valid id nodes)

  none_valid :
      (nodes : List (RoutingNode p.Float))
      → ((id : ℕ) → false ≡ any (is_valid_at id) nodes)
      → any runs nodes ≡ false
  unfolding is_valid_at
  none_valid [] h = refl
  none_valid (node ∷ nodes) h =
      let here = h node.id in
      let later = none_valid nodes (λ id. ground (arith, h id)) in
      ground (arith, eq→== node.id node.id refl)

  first_found : (e : ℕ × Text) (m : HashMap ℕ Text) → is_some (lookup e.0 (e ∷ m)) ≡ true
  unfolding lookup
  first_found e m = rw (eq→== e.0 e.0 refl) refl

  -- What holds of the loop's state for the nodes that it went through.
  record IsBatch (d : Dispatcher) (m : HashMap ℕ Text) (nodes : List (RoutingNode p.Float))
      (after : Dispatcher × HashMap ℕ Text) : Type 0 where
    pub counted : after.0.execution_count ≡ (d.execution_count + count_valid nodes) % 2 ^ 64
    pub one_entry : IsMap after.1
    pub keys :
        (id : ℕ)
        → is_some (lookup id after.1) ≡ (is_some (lookup id m) || any (is_valid_at id) nodes)

  or_assoc : (a b c : Bool) → ((a || b) || c) ≡ (b || (a || c))
  or_assoc a b c = ground arith

  dispatch_nodes-IsBatch :
      (d : Dispatcher) (m : HashMap ℕ Text) (nodes : List (RoutingNode p.Float))
      → d.execution_count < 2 ^ 64
      → IsMap m
      → IsBatch d m nodes (dispatch_nodes p (d, m) nodes)
  unfolding dispatch_nodes count_valid is_valid_at count_execution
  dispatch_nodes-IsBatch d m [] l h = record {
    counted = omega (arith, l);
    one_entry = h;
    keys = λ id. ground arith;
  }
  dispatch_nodes-IsBatch d m (node ∷ nodes) l h = elim (Bool-cases (runs node)) [
    | inl v ↦
        let text = execution_text p (count_execution d).execution_count node in
        let ih =
          dispatch_nodes-IsBatch (count_execution d) (insert node.id text m) nodes (omega arith)
            (insert-IsMap node.id text m h) in
        rw (dispatch_node-valid d m node v) (record {
          counted = ih.counted ∙ rw v (omega arith);
          one_entry = ih.one_entry;
          keys = λ id.
              ih.keys id
              ∙ rw (is_some-insert node.id text m id, v)
                  (or_assoc (node.id == id) (is_some (lookup id m)) (any (is_valid_at id) nodes));
        })
    | inr n ↦
        let ih = dispatch_nodes-IsBatch d m nodes l h in
        rw (dispatch_node-invalid d m node n) (record {
          counted = ih.counted ∙ rw n refl;
          one_entry = ih.one_entry;
          keys = λ id. ih.keys id ∙ rw n refl;
        })
  ]

module _ (p : Platform) where
  -- A map without a valid node's id has no entry, and one with it has some.
  batch_answer-nodes :
      (results : HashMap ℕ Text) (nodes : List (RoutingNode p.Float))
      → ((id : ℕ) → is_some (lookup id results) ≡ any (is_valid_at p id) nodes)
      → batch_answer p results ≡ (if any (runs p) nodes then ok results else err no_valid_routes)
  unfolding batch_answer lookup
  batch_answer-nodes [] nodes keys = rw (none_valid p nodes keys) refl
  batch_answer-nodes (e ∷ results) nodes keys =
      rw (some_valid p e.0 nodes (sym (keys e.0) ∙ first_found p e results)) refl

-- A node is valid when it is enabled and has a weight above zero and a name. A batch of some nodes and
-- a message counts, with the wrap of 64 bits, one execution for each valid node. With a valid node it
-- answers with a map that has one entry for the id of each valid node and no other; without one it
-- answers with `NoValidRoutes`. The count before is below `2 ^ 64`.
pub dispatch_batch_lem :
    (p : Platform) (d : Dispatcher) (nodes : List (RoutingNode p.Float)) (message : Text)
    → nodes ≢ []
    → message ≢ []
    → d.execution_count < 2 ^ 64
    → (results : HashMap ℕ Text) × (dispatch_batch p d nodes message ≡ (
      record { execution_count = (d.execution_count + count_valid p nodes) % 2 ^ 64 },
      if any (runs p) nodes then ok results else err no_valid_routes,
    ))
      × IsMap results
      × ((id : ℕ) → is_some (lookup id results) ≡ any (is_valid_at p id) nodes)
unfolding dispatch_batch is_valid_at lookup
dispatch_batch_lem p d [] message a b l = elim (a refl) [ ]
dispatch_batch_lem p d (node ∷ nodes) [] a b l = elim (b refl) [ ]
dispatch_batch_lem p d (node ∷ nodes) (c ∷ cs) a b l =
    let all_nodes = node ∷ nodes in
    let after = dispatch_nodes p (d, []) all_nodes in
    let batch = dispatch_nodes-IsBatch p d [] all_nodes l tt in
    (
      after.1,
      ap (λ n. (record { execution_count = n }, batch_answer p after.1)) batch.counted
          ∙ ap
              (λ r. (
                record { execution_count = (d.execution_count + count_valid p all_nodes) % 2 ^ 64 },
                r,
              ))
              (batch_answer-nodes p after.1 all_nodes batch.keys),
      batch.one_entry,
      batch.keys,
    )
