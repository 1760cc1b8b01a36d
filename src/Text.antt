-- ===== src/Text.antt =====
-- Rust's text primitives that the sources use: UTF-8 validity (`core::str::from_utf8`), decimal
-- parsing (`str::parse`) and decimal printing (`to_string`, and `write_tag` of
-- crates/truefix-core/src/codec/encode.rs).
pub mod Utf8
pub mod Decimal
