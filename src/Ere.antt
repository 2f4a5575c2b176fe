-- ===== src/Ere.antt =====
-- hyperkitty-ere (rust/crates/hyperkitty-ere/src): the gates that an artifact passes, and the receipt.
pub mod Rules
pub mod Secrets
pub mod Evals
pub mod Loops
pub mod Telemetry
pub mod Receipt
pub mod Gates
pub mod Searches
pub mod Signs
pub mod Urls
pub mod Requests
pub mod Laws
