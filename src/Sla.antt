-- ===== src/Sla.antt =====
-- hyperkitty-sla (rust/crates/hyperkitty-sla/src/lib.rs): ledgers. An `i64` and a `u64` are the
-- natural number of their 64 bits, in two's complement; `+` and `-` wrap, as in a release build.
pub mod Ledger
pub mod Balance
pub mod Sphere
