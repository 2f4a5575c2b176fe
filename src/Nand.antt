-- ===== src/Nand.antt =====
-- hyperkitty-nand (rust/crates/hyperkitty-nand/src): gates, NAND formulas, and the conflict filter.
pub mod Primitive
pub mod Boolean
pub mod Conflicts
pub mod Filter
