-- ===== src/Worm.antt =====
-- hyperkitty-worm (rust/crates/hyperkitty-worm/src): the binary records of the write-once log and
-- the hash chain that they form.
pub mod Bytes
pub mod Header
pub mod Record
pub mod Chain
