-- ===== src/Binary/Errors.antt =====
-- `FastCodecError` of crates/truefix-binary/src/fast/error.rs.
use truefix.Base.{ℕ, String}

pub data FastCodecError : Type 0 where
  -- offset
  truncated : ℕ → FastCodecError
  -- offset
  invalid_stop_bit : ℕ → FastCodecError
  -- field, offset
  presence_map_mismatch : ℕ → ℕ → FastCodecError
  -- id
  unknown_template_id : ℕ → FastCodecError
  -- field, reason
  unsupported_value : ℕ → String → FastCodecError
