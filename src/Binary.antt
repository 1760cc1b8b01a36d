-- ===== src/Binary.antt =====
-- crates/truefix-binary/src/fast: the FAST primitives.
pub mod Errors
pub mod Varint
pub mod PresenceMap
mod Examples
