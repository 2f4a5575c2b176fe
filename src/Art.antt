-- ===== src/Art.antt =====
-- hyperkitty-art (rust/crates/hyperkitty-art/src): theorems drawn as scenes, and sealed pictures.
pub mod Platform
pub mod Theorems
pub mod Scene
pub mod Svg
pub mod Renderer
pub mod Receipt
pub mod Laws
