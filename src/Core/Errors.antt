-- ===== src/Core/Errors.antt =====
-- `DecodeError` of crates/truefix-core/src/error.rs.
use Prim.Native.String.{String}
use truefix.Base.{ℕ}

pub data DecodeError : Type 0 where
  empty : DecodeError
  missing_begin_string : DecodeError
  invalid_body_length : DecodeError
  zero_body_length : DecodeError
  -- declared, max
  body_length_too_large : ℕ → ℕ → DecodeError
  -- max
  group_nesting_too_deep : ℕ → DecodeError
  -- declared, actual
  body_length_mismatch : ℕ → ℕ → DecodeError
  missing_msg_type : DecodeError
  missing_checksum : DecodeError
  -- declared, computed
  checksum_mismatch : ℕ → ℕ → DecodeError
  -- offset, reason
  garbled_field : ℕ → String → DecodeError
  -- offset
  truncated : ℕ → DecodeError
  -- offset
  invalid_tag : ℕ → DecodeError
