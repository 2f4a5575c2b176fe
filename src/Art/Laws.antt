-- ===== src/Art/Laws.antt =====
-- rust/crates/hyperkitty-art/src: what the drawings of a scene hold, and that a rendering is sealed.
use hyperkitty_constraint_ds.Prelude.{
  Text, codes, true, ◌&&◌, ◌≡◌, refl, ap, List, [], ◌∷◌, ◌++◌, text_eq, text_eq_refl, ◌==◌, length,
  arith, append_assoc, append-nil,
}
use hyperkitty_constraint_ds.Worm.Bytes.{Bytes}
use hyperkitty_constraint_ds.Art.Platform.{Platform, IsPlatform, Outcome, ok, ◌>>=◌}
use hyperkitty_constraint_ds.Art.Scene.{NodeData, Node, node, Nodes, leaf, child, SceneGraph}
use hyperkitty_constraint_ds.Art.Svg.{
  data_svg, render_node_svg, render_children, svg_head, render_svg,
}
use hyperkitty_constraint_ds.Art.Renderer.{
  data_elements, extend, scene_to_canvas_elements, extend_children, render_canvas, RenderFormat,
  svg, canvas, webgl, png, pdf, gif, webm, new_renderer, render, render_webgl, render_png_spec,
  render_pdf_spec, render_gif_spec, render_webm_spec,
}
use hyperkitty_constraint_ds.Art.Receipt.{
  ArtifactReceipt, VisualizationPipeline, new_receipt, verify_artifact, render_pipeline,
}

-- The nodes of a tree, each before its children.
unfoldable mutual
  pub preorder : {F : Type 0} → Node F → List (NodeData F)
  preorder (node d ns) = d ∷ preorder_all ns

  pub preorder_all : {F : Type 0} → Nodes F → List (NodeData F)
  preorder_all leaf = []
  preorder_all (child n ns) = preorder n ++ preorder_all ns

abbrev pub flat_map : {A B : Type 0} → (A → List B) → List A → List B
flat_map f [] = []
flat_map f (x ∷ xs) = f x ++ flat_map f xs

flat_map-append :
    {A B : Type 0}
    → (f : A → List B) (xs ys : List A) → flat_map f (xs ++ ys) ≡ flat_map f xs ++ flat_map f ys
flat_map-append f [] ys = refl
flat_map-append f (x ∷ xs) ys =
    rw (flat_map-append f xs ys, append_assoc (f x) (flat_map f xs) (flat_map f ys)) refl

module _ (p : Platform) where
  mutual
    unfolding render_node_svg render_children preorder preorder_all

    render_node_svg-preorder :
        (n : Node p.Float) (s : Text) (x y : p.Float)
        → render_node_svg p n s x y ≡ ok (s ++ flat_map (λ d. data_svg p d x y) (preorder n))
    render_node_svg-preorder (node d ns) s x y =
        rw (render_children-preorder ns (s ++ data_svg p d x y) x y)
          (ap ok (append_assoc s (data_svg p d x y) _))

    render_children-preorder :
        (ns : Nodes p.Float) (s : Text) (x y : p.Float)
        → render_children p ns s x y ≡ ok (s ++ flat_map (λ d. data_svg p d x y) (preorder_all ns))
    render_children-preorder leaf s x y = ap ok (rw (append-nil s) refl)
    render_children-preorder (child n ns) s x y =
        rw
          (
            render_node_svg-preorder n s x y,
            render_children-preorder ns (s ++ flat_map (λ d. data_svg p d x y) (preorder n)) x y,
            flat_map-append (λ d. data_svg p d x y) (preorder n) (preorder_all ns),
          )
          (ap ok (append_assoc s _ _))

  -- The SVG picture of a scene is the head, the elements and labels of the nodes of its tree, each
  -- before its children, and the end: rendering does not fail.
  pub render_svg-preorder :
      (scene : SceneGraph p.Float)
      → let nodes = flat_map (λ d. data_svg p d scene.x_min scene.y_min) (preorder scene.root) in
        render_svg p scene ≡ ok (p.into_bytes ((svg_head p scene ++ nodes) ++ codes "</svg>\n"))
  unfolding render_svg
  render_svg-preorder scene =
      rw (render_node_svg-preorder scene.root (svg_head p scene) scene.x_min scene.y_min) refl

  module _ (documented : IsPlatform p) where
    extend-array :
        (elements values : List p.Value) → extend p elements (p.array values) ≡ elements ++ values
    unfolding extend
    extend-array elements values = rw (extend, documented.array_lem values) refl

    mutual
      unfolding scene_to_canvas_elements extend_children preorder preorder_all

      elements-preorder :
          (n : Node p.Float)
          → scene_to_canvas_elements p n ≡ ok (p.array (flat_map (data_elements p) (preorder n)))
      elements-preorder (node d ns) = rw (extend_children-preorder ns (data_elements p d)) refl

      extend_children-preorder :
          (ns : Nodes p.Float) (l : List p.Value)
          → extend_children p ns l ≡ ok (l ++ flat_map (data_elements p) (preorder_all ns))
      extend_children-preorder leaf l = ap ok (rw (append-nil l) refl)
      extend_children-preorder (child n ns) l =
          let drawn = flat_map (data_elements p) (preorder n) in
          let first : extend_children p (child n ns) l
              ≡ extend_children p ns (extend p l (p.array drawn)) =
            rw (elements-preorder n) refl in
          rw
            (
              first,
              extend-array l drawn,
              extend_children-preorder ns (l ++ drawn),
              flat_map-append (data_elements p) (preorder n) (preorder_all ns),
            )
            (ap ok (append_assoc l _ _))

    -- The canvas elements of a tree are those of its nodes, each node's before its children's. Reading
    -- an array gives its values.
    pub scene_to_canvas_elements-preorder :
        (n : Node p.Float)
        → scene_to_canvas_elements p n ≡ ok (p.array (flat_map (data_elements p) (preorder n)))
    scene_to_canvas_elements-preorder n = elements-preorder n

    answers :
        {X Y : Type 0} {o : Outcome X} {x : X}
        → o ≡ ok x
        → (f : X → Y) → (y : Y) × ((o >>= λ a. ok (f a)) ≡ ok y)
    answers {x} e f = (f x, rw e refl)

    -- Every format renders.
    render_lem :
        (f : RenderFormat) (scene : SceneGraph p.Float)
        → (bytes : Bytes) × (render p (new_renderer f) scene ≡ ok bytes)
    unfolding render new_renderer render_canvas render_webgl render_png_spec render_pdf_spec
        render_gif_spec render_webm_spec
    render_lem svg scene = (_, render_svg-preorder scene)
    render_lem canvas scene = answers (elements-preorder scene.root) _
    render_lem webgl scene = (_, refl)
    render_lem png scene = (_, refl)
    render_lem pdf scene = (_, refl)
    render_lem gif scene = (_, refl)
    render_lem webm scene = (_, refl)

    render_pipeline-eq :
        (v : VisualizationPipeline p) (f : RenderFormat) (bytes : Bytes) (hash : Text)
        → render p (new_renderer f) v.scene ≡ ok bytes
        → p.hex_digest bytes ≡ ok hash
        → render_pipeline p v f ≡ (
          record v {
            rendered = bytes;
            receipt = record {
              theorem_name = v.theorem.name;
              format = f;
              hash = hash;
              size = length bytes;
            };
          },
          ok bytes,
        )
    unfolding render_pipeline
    render_pipeline-eq v f bytes hash drawn hashed = rw (render_pipeline, drawn, hashed) refl

    verify_artifact-hashed :
        (r : ArtifactReceipt) (bytes : Bytes)
        → p.hex_digest bytes ≡ ok r.hash
        → r.size ≡ length bytes
        → verify_artifact p r bytes ≡ ok true
    unfolding verify_artifact new_receipt
    verify_artifact-hashed r bytes hashed sized =
        let same : (text_eq r.hash r.hash && (length bytes == r.size)) ≡ true =
          ground (arith, text_eq_refl r.hash, sized) in
        rw hashed (ap ok same)

    -- Rendering succeeds in every format with the bytes that the renderer makes of the scene. It keeps
    -- the theorem and the scene, and leaves the bytes with a receipt that has the theorem's name, the
    -- format, and the bytes' hash and length, and that accepts them. Hashing does not fail, and reading
    -- an array gives its values.
    pub render_pipeline_lem :
        (v : VisualizationPipeline p) (f : RenderFormat)
        → let next = (render_pipeline p v f).0 in
          (bytes : Bytes) × (render p (new_renderer f) v.scene ≡ ok bytes)
          × ((render_pipeline p v f).1 ≡ ok bytes)
          × (next.rendered ≡ bytes)
          × (next.theorem ≡ v.theorem)
          × (next.scene ≡ v.scene)
          × (next.receipt.theorem_name ≡ v.theorem.name)
          × (next.receipt.format ≡ f)
          × (p.hex_digest bytes ≡ ok next.receipt.hash)
          × (next.receipt.size ≡ length bytes)
          × (verify_artifact p next.receipt bytes ≡ ok true)
    render_pipeline_lem v f =
        let drawn = render_lem f v.scene in
        let hashed = documented.hashes drawn.0 in
        let drawn_eq = render_pipeline-eq v f drawn.0 hashed.0 drawn.1 hashed.1 in
        (
          drawn.0,
          drawn.1,
          rw drawn_eq refl,
          rw drawn_eq refl,
          rw drawn_eq refl,
          rw drawn_eq refl,
          rw drawn_eq refl,
          rw drawn_eq refl,
          rw drawn_eq hashed.1,
          rw drawn_eq refl,
          rw drawn_eq (verify_artifact-hashed _ drawn.0 hashed.1 refl),
        )
