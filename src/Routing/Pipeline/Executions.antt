-- ===== src/Routing/Pipeline/Executions.antt =====
-- What the stages behind the parser compute: the results of the routes.
use hyperkitty_constraint_ds.Prelude.{
  ℕ, zero, suc, ◌+◌, ◌*◌, ◌%◌, ◌^◌, ◌<◌, ◌≤◌, ◌≡◌, refl, ◌∙◌, ap, Text, codes, false, List, [], ◌∷◌,
  ◌++◌, length, if◌then◌else◌, ltb, ltb-ge, ◌==◌, arith,
}
use hyperkitty_constraint_ds.Prelude.Decimal.{decimal}
use hyperkitty_constraint_ds.Prelude.Maps.{HashMap, insert, number_key}
use hyperkitty_constraint_ds.Routing.Platform.{Platform, IsPlatform, route_weight}
use hyperkitty_constraint_ds.Routing.Nodes.{RoutingNode, new_node, execute}
use hyperkitty_constraint_ds.Routing.State.{activations_from, at_most_five}
use hyperkitty_constraint_ds.Routing.Pipeline.{
  nodes_from, compatible, execute_all, execution_result,
}

module _ (p : Platform) (input : Text) where
  -- The text of the route at an index.
  pub route_text : ℕ → Text
  unfolding decimal
  route_text i =
      (codes "route_" ++ decimal i)
      ++ codes "(weight: "
      ++ p.display_four (route_weight p i)
      ++ codes ", input: '"
      ++ input
      ++ codes "' )"

  -- The results of the routes from an index, for as many as are left, of an input of `n` words.
  unfoldable pub route_results : ℕ → ℕ → ℕ → HashMap ℕ Text
  unfolding route_text
  route_results n i zero = []
  route_results n i (suc left) = (i * 1000 + n, route_text i) ∷ route_results n (i + 1) left

  abbrev route : ℕ → ℕ → RoutingNode p.Float
  route id i = new_node p id (codes "route_" ++ decimal i) (route_weight p i)

  execute-route :
      (id i : ℕ)
      → IsPlatform p
      → i < 5
      → execution_result p (execute p (route id i) input) ≡ route_text i
  unfolding execution_result execute new_node route_text
  execute-route id i h l = rw (h.positive i l) refl

  small_key : (i n : ℕ) → i < 5 → n < 2 ^ 63 → (i * 1000 + n) % 2 ^ 64 ≡ i * 1000 + n
  small_key i n l m = omega arith

  -- The nodes of the first three routes, of the activations from an index.
  kept : ℕ → List ℕ → List (RoutingNode p.Float)
  unfolding new_node
  kept i [] = []
  kept i (id ∷ ids) = let rest = kept (i + 1) ids in if ltb i 3 then route id i ∷ rest else rest

  compatible-nodes_from :
      (i : ℕ) (ids : List ℕ)
      → IsPlatform p
      → i + length ids ≤ 5
      → compatible p (nodes_from p i ids) ≡ kept i ids
  unfolding compatible nodes_from new_node kept
  compatible-nodes_from i [] h l = refl
  compatible-nodes_from i (id ∷ ids) h l =
      rw (h.above i (omega (arith, l)), compatible-nodes_from (i + 1) ids h (omega (arith, l))) refl

  execute_one :
      (a : ℕ) → IsPlatform p → execute_all p input [] (route a 0 ∷ []) ≡ (a, route_text 0) ∷ []
  unfolding execute_all insert new_node
  execute_one a h = ap (λ t. (a, t) ∷ []) (execute-route a 0 h (omega arith))

  execute_two :
      (a b : ℕ)
      → IsPlatform p
      → (a == b) ≡ false
      → execute_all p input [] (route a 0 ∷ route b 1 ∷ [])
        ≡ (a, route_text 0) ∷ (b, route_text 1) ∷ []
  unfolding execute_all insert new_node
  execute_two a b h ab =
      rw (execute-route a 0 h (omega arith), execute-route b 1 h (omega arith), ab) refl

  execute_three :
      (a b c : ℕ)
      → IsPlatform p
      → (a == b) ≡ false
      → (a == c) ≡ false
      → (b == c) ≡ false
      → execute_all p input [] (route a 0 ∷ route b 1 ∷ route c 2 ∷ [])
        ≡ (a, route_text 0) ∷ (b, route_text 1) ∷ (c, route_text 2) ∷ []
  unfolding execute_all insert new_node
  execute_three a b c h ab ac bc = rw ab (
      rw (ac, bc)
        (rw
          (
            execute-route a 0 h (omega arith),
            execute-route b 1 h (omega arith),
            execute-route c 2 h (omega arith),
          )
          refl))

  key : ℕ → ℕ → ℕ
  key i n = (i * 1000 + n) % 2 ^ 64

  distinct_keys : (i j n : ℕ) → i < j → j < 5 → n < 2 ^ 63 → (key i n == key j n) ≡ false
  unfolding key
  distinct_keys i j n l k m =
      rw (small_key i n (omega (arith, l, k)) m, small_key j n k m) (ground (arith, l))

  execute_three-key :
      (n : ℕ)
      → IsPlatform p
      → n < 2 ^ 63
      → execute_all p input [] (route (key 0 n) 0 ∷ route (key 1 n) 1 ∷ route (key 2 n) 2 ∷ [])
        ≡ route_results n 0 3
  unfolding key route_results
  execute_three-key n h m =
      execute_three (key 0 n) (key 1 n) (key 2 n) h
        (distinct_keys 0 1 n (omega arith) (omega arith) m)
        (distinct_keys 0 2 n (omega arith) (omega arith) m)
        (distinct_keys 1 2 n (omega arith) (omega arith) m)
      ∙ rw
          (
            small_key 0 n (omega arith) m,
            small_key 1 n (omega arith) m,
            small_key 2 n (omega arith) m,
          )
          refl

  execute_two-key :
      (n : ℕ)
      → IsPlatform p
      → n < 2 ^ 63
      → execute_all p input [] (route (key 0 n) 0 ∷ route (key 1 n) 1 ∷ []) ≡ route_results n 0 2
  unfolding key route_results
  execute_two-key n h m =
      execute_two (key 0 n) (key 1 n) h (distinct_keys 0 1 n (omega arith) (omega arith) m)
      ∙ rw (small_key 0 n (omega arith) m, small_key 1 n (omega arith) m) refl

  execute_one-key :
      (n : ℕ)
      → IsPlatform p
      → n < 2 ^ 63
      → execute_all p input [] (route (key 0 n) 0 ∷ []) ≡ route_results n 0 1
  unfolding key route_results
  execute_one-key n h m = execute_one (key 0 n) h ∙ rw (small_key 0 n (omega arith) m) refl

  abbrev pub at_most_three : ℕ → ℕ
  at_most_three n = if ltb n 3 then n else 3

  -- The results of the execution stage, from the number of words.
  abbrev pub dispatched : ℕ → HashMap ℕ Text
  dispatched n =
      execute_all p input [] (compatible p (nodes_from p 0 (activations_from n 0 (at_most_five n))))

  execute-kept_many :
      (n : ℕ)
      → IsPlatform p
      → n < 2 ^ 63
      → 5 ≤ n
      → execute_all p input [] (kept 0 (activations_from n 0 (at_most_five n)))
        ≡ route_results n 0 (at_most_three n)
  unfolding activations_from kept key
  execute-kept_many n h m l =
      rw (ltb-ge n 5 l, ltb-ge n 3 (omega (arith, l))) (execute_three-key n h m)

  execute-kept :
      (k : ℕ)
      → IsPlatform p
      → suc k < 2 ^ 63
      → execute_all p input [] (kept 0 (activations_from (suc k) 0 (at_most_five (suc k))))
        ≡ route_results (suc k) 0 (at_most_three (suc k))
  unfolding activations_from kept key
  execute-kept zero h m = execute_one-key 1 h m
  execute-kept (suc zero) h m = execute_two-key 2 h m
  execute-kept (suc (suc zero)) h m = execute_three-key 3 h m
  execute-kept (suc (suc (suc zero))) h m = execute_three-key 4 h m
  execute-kept (suc (suc (suc (suc k)))) h m =
      execute-kept_many (suc (suc (suc (suc (suc k))))) h m (omega arith)

  length-activations_from : (n i left : ℕ) → length (activations_from n i left) ≡ left
  unfolding activations_from
  length-activations_from n i zero = refl
  length-activations_from n i (suc left) = ap suc (length-activations_from n (i + 1) left)

  at_most_five-le : (n : ℕ) → at_most_five n ≤ 5
  at_most_five-le n = ground arith

  pub dispatched-eq :
      (k : ℕ)
      → IsPlatform p
      → suc k < 2 ^ 63
      → dispatched (suc k) ≡ route_results (suc k) 0 (at_most_three (suc k))
  dispatched-eq k h m =
      let few = length-activations_from (suc k) 0 (at_most_five (suc k)) in
      ap (execute_all p input []) (
        compatible-nodes_from 0 (activations_from (suc k) 0 (at_most_five (suc k))) h
          (omega (arith, few, at_most_five-le (suc k))))
      ∙ execute-kept k h m
