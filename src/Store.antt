-- ===== src/Store.antt =====
-- crates/truefix-store/src: the message store in memory.
pub mod Memory
mod Examples
