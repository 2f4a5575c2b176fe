-- ===== src/Art/Scene.antt =====
-- rust/crates/hyperkitty-art/src/scene_graph.rs: the tree of nodes that a theorem is drawn as.
use hyperkitty_constraint_ds.Prelude.{
  ℕ, zero, suc, ◌+◌, Text, codes, Option, none, some, List, [], ◌∷◌, ◌++◌,
}
use hyperkitty_constraint_ds.Prelude.Decimal.{decimal}
use hyperkitty_constraint_ds.Art.Platform.{Platform}
use hyperkitty_constraint_ds.Art.Theorems.{
  TheoremKind, qlg_sphere, sla_balance, qra_identity, qra_absorber, witness_exhaustion,
  tripartite_iso, jordan_commutativity, nand_completeness, custom, TheoremAst,
}

-- Each field is a byte.
pub record Color : Type 0 where
  pub r : ℕ
  pub g : ℕ
  pub b : ℕ
  pub a : ℕ

unfoldable pub rgb : ℕ → ℕ → ℕ → Color
rgb r g b = record { r = r; g = g; b = b; a = 255 }

unfoldable pub rgba : ℕ → ℕ → ℕ → ℕ → Color
rgba r g b a = record { r = r; g = g; b = b; a = a }

unfoldable pub theorem_color : TheoremKind → Color
unfolding rgb
theorem_color qlg_sphere = rgb 70 130 180
theorem_color sla_balance = rgb 34 139 34
theorem_color qra_identity = rgb 220 20 60
theorem_color qra_absorber = rgb 139 69 19
theorem_color witness_exhaustion = rgb 255 165 0
theorem_color tripartite_iso = rgb 128 0 128
theorem_color jordan_commutativity = rgb 0 128 128
theorem_color nand_completeness = rgb 255 20 147
theorem_color (custom name) = rgb 128 128 128

pub record Transform (F : Type 0) : Type 0 where
  pub x : F
  pub y : F
  pub z : F
  pub scale : F
  pub rotation : F

pub data NodeGeometry (F : Type 0) : Type 0 where
  sphere : (radius : F) → NodeGeometry F
  cube : (size : F) → NodeGeometry F
  plane : (width height : F) → NodeGeometry F
  point : (radius : F) → NodeGeometry F
  line : (x1 y1 x2 y2 : F) → NodeGeometry F
  text : (content : Text) → (font_size : F) → NodeGeometry F
  group : NodeGeometry F

-- What a node holds beside its children.
pub record NodeData (F : Type 0) : Type 0 where
  pub id : Text
  pub geometry : NodeGeometry F
  pub transform : Transform F
  pub color : Color
  pub label : Option Text

mutual
  pub data Node (F : Type 0) : Type 0 where
    node : NodeData F → Nodes F → Node F

  pub data Nodes (F : Type 0) : Type 0 where
    leaf : Nodes F
    child : Node F → Nodes F → Nodes F

-- The bounds are `x_min`, `y_min`, `x_max` and `y_max`.
pub record SceneGraph (F : Type 0) : Type 0 where
  pub name : Text
  pub root : Node F
  pub x_min : F
  pub y_min : F
  pub x_max : F
  pub y_max : F

module _ (p : Platform) where
  unfoldable pub translated : p.Float → p.Float → Transform p.Float
  translated x y = record {
    x = x;
    y = y;
    z = p.of_nat 0;
    scale = p.of_nat 1;
    rotation = p.of_nat 0;
  }

  unfoldable pub identity : Transform p.Float
  identity = record {
    x = p.of_nat 0;
    y = p.of_nat 0;
    z = p.of_nat 0;
    scale = p.of_nat 1;
    rotation = p.of_nat 0;
  }

  -- The root of `SceneGraph::new`, without its children.
  unfoldable pub root_data : NodeData p.Float
  unfolding identity rgb
  root_data = record {
    id = codes "root";
    geometry = group;
    transform = identity;
    color = rgb 255 255 255;
    label = none;
  }

  unfoldable pub new_scene : Text → SceneGraph p.Float
  unfolding root_data
  new_scene name = record {
    name = name;
    root = node root_data leaf;
    x_min = p.of_nat 0;
    y_min = p.of_nat 0;
    x_max = p.of_nat 100;
    y_max = p.of_nat 100;
  }

  unfoldable pub qlg_sphere_scene : SceneGraph p.Float
  unfolding root_data theorem_color
  qlg_sphere_scene = record {
    name = codes "QLG Sphere";
    root =
        node
          (record root_data {
            geometry = sphere (p.of_nat 50);
            color = theorem_color qlg_sphere;
            label = some (codes "x² + y² + z² = 1");
          })
          leaf;
    x_min = p.neg (p.of_nat 60);
    y_min = p.neg (p.of_nat 60);
    x_max = p.of_nat 60;
    y_max = p.of_nat 60;
  }

  -- A scene whose root is a group of the nodes, with the bounds `-width`, `-30`, `width` and `30`.
  unfoldable pub group_scene : Text → Nodes p.Float → ℕ → SceneGraph p.Float
  unfolding root_data
  group_scene name nodes width = record {
    name = name;
    root = node root_data nodes;
    x_min = p.neg (p.of_nat width);
    y_min = p.neg (p.of_nat 30);
    x_max = p.of_nat width;
    y_max = p.of_nat 30;
  }

  -- A node without children.
  unfoldable pub leaf_node : Text → NodeGeometry p.Float → p.Float → Color → Text → Node p.Float
  unfolding translated
  leaf_node id geometry x color label =
      node
        (record {
          id = id;
          geometry = geometry;
          transform = translated x (p.of_nat 0);
          color = color;
          label = some label;
        })
        leaf

  unfoldable pub sla_balance_scene : SceneGraph p.Float
  unfolding group_scene leaf_node rgb
  sla_balance_scene =
      let size = cube (p.of_nat 20) in
      let debit =
        leaf_node (codes "debit") size (p.neg (p.of_nat 25)) (rgb 220 20 60) (codes "Debit (δ)") in
      let credit =
        leaf_node (codes "credit") size (p.of_nat 25) (rgb 34 139 34) (codes "Credit (ι)") in
      group_scene (codes "SLA Balance") (child debit (child credit leaf)) 50

  -- `(i as f64 - 1.0) * 30.0`
  abbrev pub column : ℕ → p.Float
  column i = p.mul (p.sub (p.of_nat i) (p.of_nat 1)) (p.of_nat 30)

  -- The nodes of the steps from an index, for as many as are left.
  unfoldable pub step_nodes : ℕ → ℕ → Nodes p.Float
  unfolding leaf_node rgb decimal
  step_nodes step zero = leaf
  step_nodes step (suc left) =
      child
        (leaf_node (codes "step_" ++ decimal step) (point (p.of_nat 8)) (column step)
          (rgb 255 165 0) (codes "Step " ++ decimal step))
        (step_nodes (step + 1) left)

  unfoldable pub witness_exhaustion_scene : SceneGraph p.Float
  unfolding group_scene step_nodes
  witness_exhaustion_scene = group_scene (codes "Witness Exhaustion") (step_nodes 0 3) 40

  unfoldable pub gate_nodes : ℕ → List Text → Nodes p.Float
  unfolding leaf_node rgb
  gate_nodes i [] = leaf
  gate_nodes i (gate ∷ gates) =
      child
        (leaf_node (codes "gate_" ++ gate) (cube (p.of_nat 15)) (column i) (rgb 255 20 147) gate)
        (gate_nodes (i + 1) gates)

  unfoldable pub nand_completeness_scene : SceneGraph p.Float
  unfolding group_scene gate_nodes
  nand_completeness_scene =
      let gates = codes "NOT" ∷ codes "AND" ∷ codes "OR" ∷ [] in
      group_scene (codes "NAND Completeness") (gate_nodes 0 gates) 50

  unfoldable pub generic_theorem_scene : Text → SceneGraph p.Float
  unfolding new_scene root_data
  generic_theorem_scene name = record (new_scene name) {
    root = node (record root_data { label = some name }) leaf;
  }

  unfoldable pub from_theorem : TheoremAst → SceneGraph p.Float
  unfolding qlg_sphere_scene sla_balance_scene witness_exhaustion_scene nand_completeness_scene
      generic_theorem_scene
  from_theorem theorem = elim theorem.kind [
    | qlg_sphere ↦ qlg_sphere_scene
    | sla_balance ↦ sla_balance_scene
    | witness_exhaustion ↦ witness_exhaustion_scene
    | nand_completeness ↦ nand_completeness_scene
    | _ ↦ generic_theorem_scene theorem.name
  ]
