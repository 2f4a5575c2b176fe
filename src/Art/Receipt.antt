-- ===== src/Art/Receipt.antt =====
-- rust/crates/hyperkitty-art/src: the receipts of receipt.rs and the pipeline of lib.rs.
use hyperkitty_constraint_ds.Prelude.{ℕ, Text, Bool, ◌&&◌, [], ◌==◌, length, text_eq}
use hyperkitty_constraint_ds.Worm.Bytes.{Bytes}
use hyperkitty_constraint_ds.Art.Platform.{Platform, Outcome, ok, err, ◌>>=◌}
use hyperkitty_constraint_ds.Art.Theorems.{TheoremAst}
use hyperkitty_constraint_ds.Art.Scene.{SceneGraph, from_theorem}
use hyperkitty_constraint_ds.Art.Renderer.{RenderFormat, svg, new_renderer, render}

pub record ArtifactReceipt : Type 0 where
  pub theorem_name : Text
  pub format : RenderFormat
  pub hash : Text
  pub size : ℕ

unfoldable pub default_receipt : ArtifactReceipt
default_receipt = record { theorem_name = []; format = svg; hash = []; size = 0 }

pub record VisualizationPipeline (p : Platform) : Type 0 where
  pub theorem : TheoremAst
  pub scene : SceneGraph p.Float
  pub rendered : Bytes
  pub receipt : ArtifactReceipt

module _ (p : Platform) where
  unfoldable pub new_receipt : Text → RenderFormat → Bytes → Outcome ArtifactReceipt
  new_receipt theorem_name format artifact = do
    hash ← p.hex_digest artifact
    ok (record {
      theorem_name = theorem_name;
      format = format;
      hash = hash;
      size = length artifact;
    })

  unfoldable pub receipt_from_artifact : Text → RenderFormat → Bytes → Outcome ArtifactReceipt
  unfolding new_receipt
  receipt_from_artifact theorem_name format artifact = new_receipt theorem_name format artifact

  unfoldable pub verify_artifact : ArtifactReceipt → Bytes → Outcome Bool
  unfolding new_receipt text_eq
  verify_artifact self artifact = do
    receipt ← new_receipt self.theorem_name self.format artifact
    ok (text_eq receipt.hash self.hash && (receipt.size == self.size))

  unfoldable pub new_pipeline : TheoremAst → VisualizationPipeline p
  unfolding from_theorem default_receipt
  new_pipeline theorem = record {
    theorem = theorem;
    scene = from_theorem p theorem;
    rendered = [];
    receipt = default_receipt;
  }

  -- The pipeline after the call, and what the call answers.
  unfoldable pub render_pipeline :
      VisualizationPipeline p → RenderFormat → VisualizationPipeline p × Outcome Bytes
  unfolding render new_renderer
  render_pipeline self format = elim (render p (new_renderer format) self.scene) [
    | err message ↦ (self, err message)
    | ok rendered ↦
        let drawn = record self { rendered = rendered } in
        elim (p.hex_digest rendered) [
          | err message ↦ (drawn, err message)
          | ok hash ↦ (
            record drawn {
              receipt = record {
                theorem_name = self.theorem.name;
                format = format;
                hash = hash;
                size = length rendered;
              };
            },
            ok rendered,
          )
        ]
  ]
