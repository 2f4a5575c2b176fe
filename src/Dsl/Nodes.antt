-- ===== src/Dsl/Nodes.antt =====
-- rust/crates/hyperkitty-ast/src: the node types (nodes.rs), the weights of edges, in tenths
-- (weights.rs), and the validation of a graph (validation.rs). `Error` of hyperkitty-core has no
-- variant `InvalidAST`: the error of `validate` is a type of its own.
use hyperkitty_constraint_ds.Prelude.{
  ℕ, ◌≡◌, ◌↔◌, ◌⊎◌, inl, inr, refl, Text, Bool, true, false, not, ◌&&◌, Option, none, some, List,
  [], ◌∷◌, ◌++◌, get_elem?, All, if◌then◌else◌, Bool-cases, some_eq,
}
use hyperkitty_constraint_ds.Core.{Message, literal, text}

pub data NodeType : Type 0 where
  intent constraint language entity route proof_requirement state_transition : NodeType
  word path_ref number function_ref string_literal binary_payload : NodeType

unfoldable pub is_structural : NodeType → Bool
is_structural intent = true
is_structural constraint = true
is_structural language = true
is_structural entity = true
is_structural route = true
is_structural proof_requirement = true
is_structural state_transition = true
is_structural _ = false

unfoldable pub is_payload : NodeType → Bool
unfolding is_structural
is_payload t = not (is_structural t)

pub record AstNode : Type 0 where
  pub node_type : NodeType
  pub label : Text
  pub metadata : List (Text × Text)

unfoldable pub new_node : NodeType → Text → AstNode
new_node t label = record { node_type = t; label = label; metadata = [] }

unfoldable pub weight : AstNode → ℕ
unfolding is_structural
weight n = if is_structural n.node_type then 10 else 0

unfoldable pub add_metadata : AstNode → Text → Text → AstNode
add_metadata n key value = record n { metadata = n.metadata ++ (key, value) ∷ [] }

-- The weight of an edge, by whether it leaves a payload and whether it enters a structural node.
unfoldable pub weight_of : Bool → Bool → ℕ
weight_of true true = 0
weight_of false true = 1
weight_of false false = 5
weight_of true false = 0

unfoldable pub edge_weight : AstNode → AstNode → ℕ
unfolding weight_of is_payload
edge_weight a b = weight_of (is_payload a.node_type) (is_structural b.node_type)

unfoldable pub has_dangerous_pattern : AstNode → AstNode → Bool
unfolding is_payload
has_dangerous_pattern a b = is_payload a.node_type && is_structural b.node_type

pub data Validation : Type 0 where
  valid : Validation
  invalid_ast : Message → Validation

-- The checks of an edge whose ends are looked up, for the result of the edges after it.
unfoldable pub check_ends : Option AstNode → Option AstNode → Validation → Validation
unfolding has_dangerous_pattern
check_ends (some a) (some b) rest =
    if has_dangerous_pattern a b
    then invalid_ast
        (record { format = "Dangerous pattern: {} → {}"; args = text a.label ∷ text b.label ∷ [] })
    else rest
check_ends _ _ rest = invalid_ast (literal "Edge index out of bounds")

unfoldable pub validate : List AstNode → List (ℕ × ℕ) → Validation
unfolding check_ends
validate nodes [] = valid
validate nodes (e ∷ edges) =
    check_ends (get_elem? nodes e.0) (get_elem? nodes e.1) (validate nodes edges)

-- An edge between nodes of the graph that does not lead from a payload to a structural node.
abbrev pub IsSafe : List AstNode → ℕ × ℕ → Type 0
IsSafe nodes e =
    (a : AstNode) × (b : AstNode) × (get_elem? nodes e.0 ≡ some a)
    × (get_elem? nodes e.1 ≡ some b)
    × ((is_structural a.node_type ≡ true) ⊎ (is_structural b.node_type ≡ false))

safe_iff : (s t : Bool) → ((not s && t) ≡ false) ↔ ((s ≡ true) ⊎ (t ≡ false))
safe_iff true t = (λ h. inl refl, λ h. refl)
safe_iff false t = (λ h. inr h, λ h. elim h [ inl e ↦ cc | inr e ↦ e ])

check_ends_iff :
    (o p : Option AstNode) (rest : Validation)
    → (check_ends o p rest ≡ valid) ↔ (
        ((a : AstNode) × (b : AstNode) × (o ≡ some a)
          × (p ≡ some b)
          × ((is_structural a.node_type ≡ true) ⊎ (is_structural b.node_type ≡ false)))
        × (rest ≡ valid))
unfolding check_ends has_dangerous_pattern is_payload
check_ends_iff none p rest = (λ h. cc, λ ((a, b, e, f, g), h). cc)
check_ends_iff (some a) none rest = (λ h. cc, λ ((c, b, e, f, g), h). cc)
check_ends_iff (some a) (some b) rest =
    let danger = not (is_structural a.node_type) && is_structural b.node_type in
    let iff = safe_iff (is_structural a.node_type) (is_structural b.node_type) in
    elim (Bool-cases danger) [
      | inl t ↦ rw t (
        λ h. cc,
        λ ((c, d, e, f, g), h).
            let n : danger ≡ false =
              rw (some_eq e, some_eq f)
                ((safe_iff (is_structural c.node_type) (is_structural d.node_type)).1 g) in
            cc,
      )
      | inr n ↦ rw n (λ h. ((a, b, refl, refl, iff.0 n), h), λ k. k.1)
    ]

-- A graph is valid exactly when each of its edges joins two of its nodes and none leads from a payload
-- to a structural node.
pub validate_iff :
    (nodes : List AstNode) (edges : List (ℕ × ℕ))
    → (validate nodes edges ≡ valid) ↔ All (IsSafe nodes) edges
unfolding validate
validate_iff nodes [] = (λ h. tt, λ h. refl)
validate_iff nodes (e ∷ edges) =
    let ih = validate_iff nodes edges in
    let here = check_ends_iff (get_elem? nodes e.0) (get_elem? nodes e.1) (validate nodes edges) in
    (λ h. let (safe, rest) = here.0 h in (safe, ih.0 rest), λ h. here.1 (h.0, ih.1 h.1))
