-- ===== src/Art/Renderer.antt =====
-- rust/crates/hyperkitty-art/src/renderer.rs: the formats, and the renderings that are JSON.
use hyperkitty_constraint_ds.Prelude.{Text, codes, none, some, List, [], ◌∷◌, ◌++◌}
use hyperkitty_constraint_ds.Worm.Bytes.{Bytes}
use hyperkitty_constraint_ds.Art.Platform.{Platform, Outcome, ok, ◌>>=◌}
use hyperkitty_constraint_ds.Art.Scene.{
  sphere, cube, NodeData, Node, node, Nodes, leaf, child, SceneGraph,
}
use hyperkitty_constraint_ds.Art.Svg.{rgb_text, render_svg}

pub data RenderFormat : Type 0 where
  svg canvas webgl png pdf gif webm : RenderFormat

pub record Renderer : Type 0 where
  pub format : RenderFormat

unfoldable pub new_renderer : RenderFormat → Renderer
new_renderer format = record { format = format }

unfoldable pub mime_type : RenderFormat → Text
mime_type svg = codes "image/svg+xml"
mime_type canvas = codes "application/json"
mime_type webgl = codes "application/json"
mime_type png = codes "image/png"
mime_type pdf = codes "application/pdf"
mime_type gif = codes "image/gif"
mime_type webm = codes "video/webm"

unfoldable pub extension : RenderFormat → Text
extension svg = codes "svg"
extension canvas = codes "json"
extension webgl = codes "json"
extension png = codes "png"
extension pdf = codes "pdf"
extension gif = codes "gif"
extension webm = codes "webm"

module _ (p : Platform) where
  -- The elements that a node's geometry pushes.
  unfoldable pub data_elements : NodeData p.Float → List p.Value
  unfolding rgb_text
  data_elements d = elim d.geometry [
    | sphere radius ↦
        p.object (
          (codes "type", p.string (codes "circle"))
          ∷ (codes "x", p.number d.transform.x)
          ∷ (codes "y", p.number d.transform.y)
          ∷ (codes "radius", p.number radius)
          ∷ (codes "fill", p.string (rgb_text d.color))
          ∷ [])
        ∷ []
    | cube size ↦
        p.object (
          (codes "type", p.string (codes "rect"))
          ∷ (codes "x", p.number (p.sub d.transform.x (p.div size (p.of_nat 2))))
          ∷ (codes "y", p.number (p.sub d.transform.y (p.div size (p.of_nat 2))))
          ∷ (codes "width", p.number size)
          ∷ (codes "height", p.number size)
          ∷ (codes "fill", p.string (rgb_text d.color))
          ∷ [])
        ∷ []
    | _ ↦ []
  ]

  -- `elements.extend(arr)`, when the value is an array.
  unfoldable pub extend : List p.Value → p.Value → List p.Value
  extend elements value = elim (p.as_array value) [ none ↦ elements | some arr ↦ elements ++ arr ]

  unfoldable mutual
    unfolding data_elements extend

    pub scene_to_canvas_elements : Node p.Float → Outcome p.Value
    scene_to_canvas_elements (node d children) = do
      elements ← extend_children children (data_elements d)
      ok (p.array elements)

    pub extend_children : Nodes p.Float → List p.Value → Outcome (List p.Value)
    extend_children leaf elements = ok elements
    extend_children (child n ns) elements = do
      value ← scene_to_canvas_elements n
      extend_children ns (extend elements value)

  abbrev bytes_of : p.Value → Bytes
  bytes_of value = p.into_bytes (p.to_string value)

  unfoldable pub render_canvas : SceneGraph p.Float → Outcome Bytes
  unfolding scene_to_canvas_elements
  render_canvas scene = do
    elements ← scene_to_canvas_elements scene.root
    ok (
        bytes_of (
          p.object (
            (codes "type", p.string (codes "canvas_2d"))
            ∷ (codes "scene", p.string scene.name)
            ∷ (codes "format", p.string (codes "JSON"))
            ∷ (
              codes "bounds",
              p.object (
                  (codes "x_min", p.number scene.x_min)
                  ∷ (codes "y_min", p.number scene.y_min)
                  ∷ (codes "x_max", p.number scene.x_max)
                  ∷ (codes "y_max", p.number scene.y_max)
                  ∷ []),
            )
            ∷ (codes "elements", elements)
            ∷ [])))

  unfoldable pub render_webgl : SceneGraph p.Float → Outcome Bytes
  render_webgl scene = ok (
      bytes_of (
        p.object (
          (codes "type", p.string (codes "webgl"))
          ∷ (codes "format", p.string (codes "GLSL + JSON"))
          ∷ (
            codes "capabilities",
            p.array (
                p.string (codes "3D")
                ∷ p.string (codes "lighting")
                ∷ p.string (codes "texture_mapping")
                ∷ []),
          )
          ∷ (codes "note", p.string (codes "Render as GLTF with Khronos materials"))
          ∷ [])))

  unfoldable pub render_png_spec : SceneGraph p.Float → Outcome Bytes
  render_png_spec scene = ok (
      bytes_of (
        p.object (
          (codes "type", p.string (codes "png_specification"))
          ∷ (
            codes "note",
            p.string (codes "Use headless Chromium or Puppeteer to render SVG → PNG"),
          )
          ∷ (codes "pipeline", p.string (codes "SVG → rasterize(96 DPI) → PNG"))
          ∷ [])))

  unfoldable pub render_pdf_spec : SceneGraph p.Float → Outcome Bytes
  render_pdf_spec scene = ok (
      bytes_of (
        p.object (
          (codes "type", p.string (codes "pdf_specification"))
          ∷ (codes "note", p.string (codes "Use wkhtmltopdf or similar to generate PDF from SVG"))
          ∷ (codes "pipeline", p.string (codes "SVG → PDF renderer → PDF"))
          ∷ [])))

  unfoldable pub render_gif_spec : SceneGraph p.Float → Outcome Bytes
  render_gif_spec scene = ok (
      bytes_of (
        p.object (
          (codes "type", p.string (codes "gif_specification"))
          ∷ (
            codes "note",
            p.string (codes "Render animation frames from scene graph transformations"),
          )
          ∷ (
            codes "pipeline",
            p.string (codes "Scene → interpolate keyframes → render each → GIF encode"),
          )
          ∷ [])))

  unfoldable pub render_webm_spec : SceneGraph p.Float → Outcome Bytes
  render_webm_spec scene = ok (
      bytes_of (
        p.object (
          (codes "type", p.string (codes "webm_specification"))
          ∷ (codes "note", p.string (codes "Generate video from animated proof steps"))
          ∷ (codes "codec", p.string (codes "VP8 or VP9"))
          ∷ (codes "pipeline", p.string (codes "Scene → render frames → encode WebM"))
          ∷ [])))

  unfoldable pub render : Renderer → SceneGraph p.Float → Outcome Bytes
  unfolding render_canvas render_webgl render_png_spec render_pdf_spec render_gif_spec
      render_webm_spec
  render self scene = elim self.format [
    | svg ↦ render_svg p scene
    | canvas ↦ render_canvas scene
    | webgl ↦ render_webgl scene
    | png ↦ render_png_spec scene
    | pdf ↦ render_pdf_spec scene
    | gif ↦ render_gif_spec scene
    | webm ↦ render_webm_spec scene
  ]
