-- ===== src/Routing/Platform.antt =====
-- What the routing crate takes from Rust's standard library: `f64` with its constants and texts, the
-- texts of `format!`, whitespace, and the order in which a `HashMap` is iterated.
use hyperkitty_constraint_ds.Prelude.{ℕ, ◌<◌, ◌≡◌, Text, Bool, true, List, ltb}
use hyperkitty_constraint_ds.Prelude.Maps.{HashMap}
use hyperkitty_constraint_ds.Core.{Message}

-- The constants are those of their names; `euler` is the literal 2.71828.
pub record Platform : Type 1 where
  pub Float : Type 0
  pub zero : Float
  pub one : Float
  pub three_tenths : Float
  pub half : Float
  pub three_halves : Float
  pub euler : Float
  pub ten : Float
  pub lt : Float → Float → Bool
  pub of_nat : ℕ → Float
  pub add : Float → Float → Float
  pub mul : Float → Float → Float
  pub div : Float → Float → Float
  pub ln : Float → Float
  pub display : Float → Text
  pub display_four : Float → Text
  pub debug_texts : List Text → Text
  pub message_text : Message → Text
  pub is_whitespace : ℕ → Bool
  pub order : HashMap ℕ Text → List (ℕ × Text)

-- The weight of the route at an index: `1.0 / (idx as f64 + 1.0)`.
abbrev pub route_weight : (p : Platform) → ℕ → p.Float
route_weight p i = p.div p.one (p.add (p.of_nat i) p.one)

-- The quotients 1, 1/2, 1/3, 1/4 and 1/5 of `f64` are positive, and the first three are above 0.3.
pub record IsPlatform (p : Platform) : Type 0 where
  pub positive : (i : ℕ) → i < 5 → p.lt p.zero (route_weight p i) ≡ true
  pub above : (i : ℕ) → i < 5 → p.lt p.three_tenths (route_weight p i) ≡ ltb i 3
