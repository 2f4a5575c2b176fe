-- ===== src/Continuity.antt =====
-- hyperkitty-continuity and hyperkitty-magma (rust/crates): the state that agents keep and the
-- envelopes that they exchange.
pub mod Bitmask
pub mod Memory
pub mod Envelope
