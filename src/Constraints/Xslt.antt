-- ===== src/Constraints/Xslt.antt =====
-- rust/crates/hyperkitty-constraints/src/xslt_processor.rs: the formalization of invariants by three
-- provers, and the obligations between their artifacts.
pub mod Kinds
pub mod Registry
pub mod Artifacts
pub mod Machine
