-- ===== src/Core.antt =====
-- crates/truefix-core/src: the FIX message model and the SOH wire codec.
pub mod Tags
pub mod Errors
pub mod FieldMap
pub mod Times
pub mod Message
pub mod Encode
pub mod Decode
pub mod Groups
pub mod Framing
mod Examples
