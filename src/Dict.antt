-- ===== src/Dict.antt =====
-- crates/truefix-dict/src: the data dictionary and the validation of messages against it.
pub mod Model
pub mod Values
pub mod Header
pub mod Version
pub mod Fixt
pub mod Fields
pub mod Structured
pub mod Flat
pub mod Outcome
pub mod Passes
pub mod Holds
pub mod Validate
mod Examples
