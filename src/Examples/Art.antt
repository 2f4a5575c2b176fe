-- ===== src/Examples/Art.antt =====
-- Runs of rust/crates/hyperkitty-art/src, with small stand-ins for what it takes from elsewhere.
use hyperkitty_constraint_ds.Prelude.{
  ℕ, ◌-◌, ◌*◌, ◌/◌, ◌≡◌, refl, ap, true, Text, codes, Option, none, some, List, [], ◌∷◌, length,
  ◌++◌,
}
use hyperkitty_constraint_ds.Prelude.Decimal.{decimal}
use hyperkitty_constraint_ds.Worm.Bytes.{Bytes}
use hyperkitty_constraint_ds.Art.Platform.{Platform, IsPlatform, ok}
use hyperkitty_constraint_ds.Art.Theorems.{sla_balance_ast}
use hyperkitty_constraint_ds.Art.Scene.{sla_balance_scene}
use hyperkitty_constraint_ds.Art.Renderer.{
  data_elements, scene_to_canvas_elements, canvas, new_renderer, render,
}
use hyperkitty_constraint_ds.Art.Receipt.{new_pipeline, render_pipeline, verify_artifact}
use hyperkitty_constraint_ds.Art.Laws.{
  preorder, flat_map, scene_to_canvas_elements-preorder, render_pipeline_lem,
}

-- JSON values, with an array as a chain of entries and an object as a chain of fields.
data Json : Type 0 where
  string : Text → Json
  number : ℕ → Json
  empty : Json
  entry : Json → Json → Json
  field : Text → Json → Json → Json

abbrev array : List Json → Json
array [] = empty
array (v ∷ vs) = entry v (array vs)

abbrev object : List (Text × Json) → Json
object [] = empty
object (f ∷ fs) = field f.0 f.1 (object fs)

abbrev prefix_with : Json → Option (List Json) → Option (List Json)
prefix_with v none = none
prefix_with v (some l) = some (v ∷ l)

abbrev as_array : Json → Option (List Json)
as_array empty = some []
as_array (entry v vs) = prefix_with v (as_array vs)
as_array _ = none

array_lem : (vs : List Json) → as_array (array vs) ≡ some vs
array_lem [] = refl
array_lem (v ∷ vs) = ap (prefix_with v) (array_lem vs)

abbrev json_text : Json → Text
json_text (string s) = s
json_text (number n) = decimal n
json_text empty = []
json_text (entry v vs) = json_text v ++ codes "," ++ json_text vs
json_text (field name v vs) = name ++ codes ":" ++ json_text v ++ codes "," ++ json_text vs

abbrev small : Platform
small = record {
  Float = ℕ;
  of_nat = λ n. n;
  neg = λ n. 100 - n;
  sub = λ m n. m - n;
  mul = λ m n. m * n;
  div = λ m n. m / n;
  display = decimal;
  text_of_i32 = decimal;
  into_bytes = λ s. s;
  hex_digest = λ bytes. ok (codes "digest" ++ bytes);
  Value = Json;
  string = string;
  number = number;
  array = array;
  object = object;
  as_array = as_array;
  to_string = json_text;
}

small-IsPlatform : IsPlatform small
small-IsPlatform = record { hashes = λ bytes. (_, refl); array_lem = array_lem }

scene_to_canvas_elements-preorder_example :
    scene_to_canvas_elements small (sla_balance_scene small).root
    ≡ ok (array (flat_map (data_elements small) (preorder (sla_balance_scene small).root)))
scene_to_canvas_elements-preorder_example =
    scene_to_canvas_elements-preorder small small-IsPlatform (sla_balance_scene small).root

render_pipeline_lem_example :
    let v = new_pipeline small sla_balance_ast in
    let next = (render_pipeline small v canvas).0 in
    (bytes : Bytes) × (render small (new_renderer canvas) v.scene ≡ ok bytes)
    × ((render_pipeline small v canvas).1 ≡ ok bytes)
    × (next.rendered ≡ bytes)
    × (next.theorem ≡ v.theorem)
    × (next.scene ≡ v.scene)
    × (next.receipt.theorem_name ≡ v.theorem.name)
    × (next.receipt.format ≡ canvas)
    × (small.hex_digest bytes ≡ ok next.receipt.hash)
    × (next.receipt.size ≡ length bytes)
    × (verify_artifact small next.receipt bytes ≡ ok true)
render_pipeline_lem_example =
    render_pipeline_lem small small-IsPlatform (new_pipeline small sla_balance_ast) canvas
