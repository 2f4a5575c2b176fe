-- ===== src/Runtime.antt =====
-- hyperkitty-runtime (rust/crates/hyperkitty-runtime/src): the validity gates, the reconciliation
-- protocol and the record that crosses to C--; and the registry of nonces of hyperkitty-magma.
pub mod Float
pub mod Validity
pub mod Reconciliation
pub mod Bridge
pub mod Nonce
pub mod World
pub mod Laws
