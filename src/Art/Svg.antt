-- ===== src/Art/Svg.antt =====
-- `render_svg` and `render_node_svg` of rust/crates/hyperkitty-art/src/renderer.rs.
use hyperkitty_constraint_ds.Prelude.{Text, codes, Option, none, some, [], ◌++◌}
use hyperkitty_constraint_ds.Prelude.Decimal.{decimal}
use hyperkitty_constraint_ds.Worm.Bytes.{Bytes}
use hyperkitty_constraint_ds.Art.Platform.{Platform, Outcome, ok, ◌>>=◌}
use hyperkitty_constraint_ds.Art.Scene.{
  Color, NodeGeometry, sphere, cube, plane, point, line, text, group, NodeData, Node, node, Nodes,
  leaf, child, SceneGraph,
}

-- `rgb({}, {}, {})`
unfoldable pub rgb_text : Color → Text
unfolding decimal
rgb_text c =
    codes "rgb("
    ++ decimal c.r
    ++ codes ", "
    ++ decimal c.g
    ++ codes ", "
    ++ decimal c.b
    ++ codes ")"

module _ (p : Platform) where
  -- An attribute whose value is a number as an `i32`.
  unfoldable pub attribute : Text → p.Float → Text
  attribute name x = codes " " ++ name ++ codes "=\"" ++ p.text_of_i32 x ++ codes "\""

  unfoldable pub fill : Color → Text
  unfolding rgb_text
  fill c = codes " fill=\"" ++ rgb_text c ++ codes "\""

  unfoldable pub opacity : Color → Text
  opacity c = codes " opacity=\"" ++ p.display (p.div (p.of_nat c.a) (p.of_nat 255)) ++ codes "\""

  abbrev pub stroke : Text
  stroke = codes " stroke=\"black\" stroke-width=\"1\"/>\n"

  -- The element of a node's geometry, at a place.
  unfoldable pub geometry_svg : NodeGeometry p.Float → Color → p.Float → p.Float → Text
  unfolding attribute fill opacity rgb_text
  geometry_svg (sphere radius) c x y =
      codes "  <circle"
      ++ attribute (codes "cx") x
      ++ attribute (codes "cy") y
      ++ attribute (codes "r") radius
      ++ fill c
      ++ opacity c
      ++ stroke
  geometry_svg (cube size) c x y =
      let half = p.div size (p.of_nat 2) in
      codes "  <rect"
      ++ attribute (codes "x") (p.sub x half)
      ++ attribute (codes "y") (p.sub y half)
      ++ attribute (codes "width") size
      ++ attribute (codes "height") size
      ++ fill c
      ++ opacity c
      ++ stroke
  geometry_svg (point radius) c x y =
      codes "  <circle"
      ++ attribute (codes "cx") x
      ++ attribute (codes "cy") y
      ++ attribute (codes "r") radius
      ++ fill c
      ++ opacity c
      ++ codes "/>\n"
  geometry_svg (plane width height) c x y =
      codes "  <rect"
      ++ attribute (codes "x") (p.sub x (p.div width (p.of_nat 2)))
      ++ attribute (codes "y") (p.sub y (p.div height (p.of_nat 2)))
      ++ attribute (codes "width") width
      ++ attribute (codes "height") height
      ++ fill c
      ++ opacity c
      ++ stroke
  geometry_svg (line x1 y1 x2 y2) c x y =
      codes "  <line"
      ++ attribute (codes "x1") x1
      ++ attribute (codes "y1") y1
      ++ attribute (codes "x2") x2
      ++ attribute (codes "y2") y2
      ++ codes " stroke=\""
      ++ rgb_text c
      ++ codes "\" stroke-width=\"2\"/>\n"
  geometry_svg (text content font_size) c x y =
      codes "  <text"
      ++ attribute (codes "x") x
      ++ attribute (codes "y") y
      ++ attribute (codes "font-size") font_size
      ++ fill c
      ++ codes ">"
      ++ content
      ++ codes "</text>\n"
  geometry_svg group c x y = []

  unfoldable pub label_svg : Option Text → p.Float → p.Float → Text
  unfolding attribute
  label_svg none x y = []
  label_svg (some label) x y =
      codes "  <text"
      ++ attribute (codes "x") (p.sub x (p.of_nat 10))
      ++ attribute (codes "y") (p.sub y (p.of_nat 20))
      ++ codes " font-size=\"12\" fill=\"black\">"
      ++ label
      ++ codes "</text>\n"

  -- What a node adds to the text before its children do.
  unfoldable pub data_svg : NodeData p.Float → p.Float → p.Float → Text
  unfolding geometry_svg label_svg
  data_svg d x_offset y_offset =
      let x = p.sub d.transform.x x_offset in
      let y = p.sub d.transform.y y_offset in
      geometry_svg d.geometry d.color x y ++ label_svg d.label x y

  -- The text is passed on in place of the `&mut String`.
  unfoldable mutual
    unfolding data_svg

    pub render_node_svg : Node p.Float → Text → p.Float → p.Float → Outcome Text
    render_node_svg (node d children) svg x_offset y_offset =
        render_children children (svg ++ data_svg d x_offset y_offset) x_offset y_offset

    pub render_children : Nodes p.Float → Text → p.Float → p.Float → Outcome Text
    render_children leaf svg x_offset y_offset = ok svg
    render_children (child n ns) svg x_offset y_offset = do
      svg' ← render_node_svg n svg x_offset y_offset
      render_children ns svg' x_offset y_offset

  unfoldable pub svg_head : SceneGraph p.Float → Text
  svg_head scene =
      let width = p.text_of_i32 (p.sub scene.x_max scene.x_min) in
      let height = p.text_of_i32 (p.sub scene.y_max scene.y_min) in
      codes "<?xml version=\"1.0\" encoding=\"UTF-8\"?>\n"
      ++ codes "<svg xmlns=\"http://www.w3.org/2000/svg\" width=\""
      ++ width
      ++ codes "\" height=\""
      ++ height
      ++ codes "\" viewBox=\""
      ++ p.text_of_i32 scene.x_min
      ++ codes " "
      ++ p.text_of_i32 scene.y_min
      ++ codes " "
      ++ width
      ++ codes " "
      ++ height
      ++ codes "\">\n  <title>"
      ++ scene.name
      ++ codes "</title>\n  <rect width=\""
      ++ width
      ++ codes "\" height=\""
      ++ height
      ++ codes "\" fill=\"white\"/>\n"

  unfoldable pub render_svg : SceneGraph p.Float → Outcome Bytes
  unfolding render_node_svg svg_head
  render_svg scene = do
    svg ← render_node_svg scene.root (svg_head scene) scene.x_min scene.y_min
    ok (p.into_bytes (svg ++ codes "</svg>\n"))
