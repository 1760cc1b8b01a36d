-- ===== src/Core/Framing.antt =====
-- crates/truefix-core/src/framing.rs: complete messages at the front of a byte stream.
pub mod Laws
pub mod Stream
use truefix.Base.{
  ℕ, zero, suc, ◌+◌, ◌-◌, ◌*◌, ◌≤◌, ◌<◌, ◌≡◌, refl, Bool, true, false, not, List, [], ◌∷◌, ◌++◌,
  Option, none, some, Bytes, codes, length, take, drop, get_elem?, ◌==◌, ltb, if◌then◌else◌, Result,
  ok, err, ◌>>=◌, ◌>>◌, fail_if, ok_or, ◌&&◌, ◌||◌,
}
use truefix.Text.Utf8.{is_utf8}
use truefix.Text.Decimal.{parse_usize, max_u64, is_digit}
use truefix.Core.Tags.{soh}
use truefix.Core.Errors.{
  DecodeError, missing_begin_string, invalid_body_length, zero_body_length, body_length_too_large,
}

abbrev pub max_body_len : ℕ
max_body_len = 16 * 1024 * 1024

-- The first position of a byte.
unfoldable pub find : Bytes → ℕ → Option ℕ
find [] needle = none
find (b ∷ bs) needle =
    let rest = find bs needle in
    if b == needle then some 0 else (elim rest [ none ↦ none | some i ↦ some (suc i) ])

-- `strip_prefix`.
unfoldable pub strip_prefix : Bytes → Bytes → Option Bytes
strip_prefix [] s = some s
strip_prefix (p ∷ ps) [] = none
strip_prefix (p ∷ ps) (c ∷ s) = if p == c then strip_prefix ps s else none

unfoldable pub starts_with : Bytes → Bytes → Bool
unfolding strip_prefix
starts_with p s = elim (strip_prefix p s) [ none ↦ false | some r ↦ true ]

-- A digit, a dot and a digit in front.
unfoldable pub version_shape : Bytes → Bool
version_shape (d1 ∷ dot ∷ d2 ∷ r) = is_digit d1 && (dot == b'.' && is_digit d2)
version_shape _ = false

unfoldable pub begin_string_rest : Bytes → Option Bytes
unfolding strip_prefix
begin_string_rest s = elim (strip_prefix (codes "FIXT.") s) [
  | some rest ↦ some rest
  | none ↦ strip_prefix (codes "FIX.") s
]

unfoldable pub looks_like_fix_begin_string : Bytes → Bool
unfolding begin_string_rest version_shape
looks_like_fix_begin_string value =
    is_utf8 value
    && (elim (begin_string_rest value) [ none ↦ false | some rest ↦ version_shape rest ])

-- `a.checked_add(b)` for a usize.
unfoldable pub checked_add : ℕ → ℕ → Option ℕ
checked_add a b = if ltb max_u64 (a + b) then none else some (a + b)

unfoldable pub frame_total : ℕ → ℕ → ℕ → Result ℕ DecodeError
unfolding checked_add
frame_total soh1 soh2_rel body_len = do
  let overflow = body_length_too_large body_len max_body_len
  a ← ok_or (checked_add soh1 1) overflow
  b ← ok_or (checked_add a soh2_rel) overflow
  body_start ← ok_or (checked_add b 1) overflow
  c ← ok_or (checked_add body_start body_len) overflow
  ok_or (checked_add c 7) overflow

-- The declared BodyLength of the field in front of the second SOH.
unfoldable pub frame_body_length : Bytes → Result ℕ DecodeError
unfolding starts_with
frame_body_length bl_field = do
  fail_if (not (starts_with (codes "9=") bl_field)) invalid_body_length
  body_len ← ok_or (parse_usize (drop 2 bl_field)) invalid_body_length
  fail_if (body_len == 0) zero_body_length
  fail_if (ltb max_body_len body_len) (body_length_too_large body_len max_body_len)
  ok body_len

-- The trailer at the computed place: `10=`, and SOH as the last byte.
unfoldable pub check_trailer : Bytes → ℕ → Result (Option ℕ) DecodeError
unfolding starts_with
check_trailer buf total = if ltb (length buf) total then ok none else do
  fail_if (not (starts_with (codes "10=") (drop (total - 7) buf))) invalid_body_length
  fail_if (elim (get_elem? buf (total - 1)) [ none ↦ true | some b ↦ not (b == soh) ])
      invalid_body_length
  ok (some total)

-- The part of `frame_length` behind the second SOH, whose place in `after8` is given, if any.
unfoldable pub frame_second : Bytes → ℕ → Bytes → Option ℕ → Result (Option ℕ) DecodeError
frame_second buf soh1 after8 none = ok none
frame_second buf soh1 after8 (some soh2_rel) = do
  body_len ← frame_body_length (take soh2_rel after8)
  total ← frame_total soh1 soh2_rel body_len
  check_trailer buf total

-- The part behind the first SOH, whose place in the buffer is given, if any.
unfoldable pub frame_first : Bytes → Option ℕ → Result (Option ℕ) DecodeError
frame_first buf none = ok none
frame_first buf (some soh1) = do
  fail_if (not (starts_with (codes "8=") buf)) missing_begin_string
  fail_if (not (looks_like_fix_begin_string (drop 2 (take soh1 buf)))) missing_begin_string
  frame_second buf soh1 (drop (soh1 + 1) buf) (find (drop (soh1 + 1) buf) soh)

-- `Ok(None)`: more bytes are needed. `Ok(Some(n))`: the first `n` bytes are a message.
unfoldable pub frame_length : Bytes → Result (Option ℕ) DecodeError
frame_length buf = frame_first buf (find buf soh)
