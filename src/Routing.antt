-- ===== src/Routing.antt =====
-- hyperkitty-routing (rust/crates/hyperkitty-routing/src): the expert pipeline and its dispatcher.
pub mod Platform
pub mod Words
pub mod Nodes
pub mod Dispatcher
pub mod State
pub mod Pipeline
pub mod Laws
