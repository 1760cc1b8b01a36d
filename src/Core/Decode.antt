-- ===== src/Core/Decode.antt =====
-- crates/truefix-core/src/codec/decode.rs: the tokenizer, its validation, and the flat decoder.
-- The loop's position in the input is the pair of the offset and the bytes that are left.
pub mod Tokens
pub mod Grammar
pub mod Total
pub mod Accepted
pub mod Validate
pub mod Canonical
pub mod RoundTrip
pub mod Framed
use Prim.Native.String.{String}
use truefix.Base.{
  ℕ, zero, suc, ◌+◌, ◌-◌, ◌≤◌, ◌<◌, ◌≡◌, refl, Bool, true, false, not, List, [], ◌∷◌, ◌++◌, Option,
  none, some, Bytes, codes, length, take, drop, get_elem?, ◌==◌, ltb, if◌then◌else◌, Result, ok,
  err, stuck, ◌>>=◌, ◌>>◌, fail_if, ok_or, last?, ◌||◌, ◌&&◌,
}
use truefix.Text.Decimal.{parse_u32, parse_usize, max_u64, is_digit}
use truefix.Core.Tags.{
  soh, data_field_for_length, begin_string, body_length, msg_type, check_sum, section_of,
  is_trailer, is_header,
}
use truefix.Core.Errors.{
  DecodeError, garbled_field, invalid_tag, truncated, empty, missing_begin_string,
  invalid_body_length, body_length_too_large, missing_msg_type, missing_checksum,
  body_length_mismatch, checksum_mismatch,
}
use truefix.Core.FieldMap.{Field, add_field}
use truefix.Core.Message.{Message, new_message}
use truefix.Core.Encode.{checksum_of}
use truefix.Core.Framing.{max_body_len}
use Prim.Native.Nat.{max}

-- A tokenized field: tag, value bytes, and the offset where the field began.
pub record Token : Type 0 where
  pub tag : ℕ
  pub value : Bytes
  pub offset : ℕ

-- The first position of a byte.
unfoldable pub memchr : Bytes → ℕ → Option ℕ
memchr [] needle = none
memchr (b ∷ bs) needle =
    let rest = memchr bs needle in
    if b == needle then some 0 else (elim rest [ none ↦ none | some i ↦ some (suc i) ])

-- `pending_data`: the tag that a length applies to, and the length.
abbrev pub Pending : Type 0
Pending = Option (ℕ × ℕ)

-- The length of the data field at hand, if one is pending.
unfoldable pub take_pending : Pending → ℕ → ℕ → Result (Option ℕ) DecodeError
take_pending none tag start = ok none
take_pending (some (expected_tag, len)) tag start =
    if expected_tag == tag
    then ok (some len)
    else err
        (garbled_field start "data field does not match its declared length field's partner tag")

-- The byte behind a sized value must be SOH.
unfoldable pub check_terminator : Bytes → ℕ → ℕ → Result (Bytes × ℕ) DecodeError
check_terminator after len val_end = elim (get_elem? after len) [
  | none ↦ err (garbled_field val_end "data field not terminated by SOH")
  | some b ↦
      if b == soh
      then ok (take len after, len + 1)
      else err (garbled_field val_end "data field not terminated by SOH")
]

-- The value at the front of `after`, and how many bytes it takes with its SOH. `start` is the offset
-- of the field and `val_start` that of the value.
unfoldable pub read_value : Option ℕ → Bytes → ℕ → ℕ → Result (Bytes × ℕ) DecodeError
unfolding check_terminator memchr
read_value (some len) after start val_start =
    if ltb max_u64 (val_start + len)
    then err (garbled_field start "data length overflow")
    else if ltb (length after) len
    then err (truncated val_start)
    else check_terminator after len (val_start + len)
read_value none after start val_start = elim (memchr after soh) [
  | none ↦ err (garbled_field val_start "field not terminated by SOH")
  | some soh_rel ↦ ok (take soh_rel after, soh_rel + 1)
]

-- What a field leaves pending for the next one.
unfoldable pub next_pending : ℕ → Bytes → ℕ → Result Pending DecodeError
next_pending tag value start = elim (data_field_for_length tag) [
  | none ↦ ok none
  | some expected_tag ↦ elim (parse_usize value) [
    | none ↦ err (garbled_field start "data-length field value is not a valid non-negative integer")
    | some len ↦ ok (some (expected_tag, len))
  ]
]

-- One round of the loop: the token at the front of `rest`, the next position, the bytes from there
-- on, and `pending_data`.
unfoldable pub tokenize_field :
    Bytes → ℕ → Pending → Result (Token × ℕ × Bytes × Pending) DecodeError
unfolding memchr take_pending read_value next_pending
tokenize_field rest start pending = do
  eq_rel ← ok_or (memchr rest b'=') (garbled_field start "missing '=' in field")
  tag ← ok_or (parse_u32 (take eq_rel rest)) (invalid_tag start)
  fail_if (tag == 0) (invalid_tag start)
  data_len ← take_pending pending tag start
  (value, used) ← read_value data_len (drop (eq_rel + 1) rest) start (start + eq_rel + 1)
  pending' ← next_pending tag value start
  ok (
    record { tag = tag; value = value; offset = start },
    start + eq_rel + 1 + used,
    drop used (drop (eq_rel + 1) rest),
    pending',
  )

-- The loop. Each round takes at least the `=` and the SOH of a field.
unfoldable pub tokenize_loop : ℕ → Bytes → ℕ → Pending → Result (List Token) DecodeError
unfolding tokenize_field
tokenize_loop fuel [] pos pending = ok []
tokenize_loop zero (b ∷ bs) pos pending = stuck
tokenize_loop (suc fuel) (b ∷ bs) pos pending = do
  (token, next, rest, pending') ← tokenize_field (b ∷ bs) pos pending
  tokens ← tokenize_loop fuel rest next pending'
  ok (token ∷ tokens)

unfoldable pub tokenize : Bytes → Result (List Token) DecodeError
unfolding tokenize_loop
tokenize input = tokenize_loop (length input) input 0 none

-- `tokenize_validated`, with the input's tokens at hand.
unfoldable pub first_is_begin_string : List Token → Result (Unit {0}) DecodeError
first_is_begin_string [] = err empty
first_is_begin_string (t ∷ ts) = fail_if (not (t.tag == begin_string)) missing_begin_string

-- The declared BodyLength, from the second field.
unfoldable pub declared_body_length : List Token → Result ℕ DecodeError
declared_body_length tokens = do
  second ← ok_or (get_elem? tokens 1) invalid_body_length
  fail_if (not (second.tag == body_length)) invalid_body_length
  declared ← ok_or (parse_usize second.value) invalid_body_length
  fail_if (ltb max_body_len declared) (body_length_too_large declared max_body_len)
  ok declared

unfoldable pub has_tag : ℕ → List Token → Bool
has_tag tag [] = false
has_tag tag (t ∷ ts) = t.tag == tag || has_tag tag ts

unfoldable pub all_digits : Bytes → Bool
all_digits [] = true
all_digits (b ∷ bs) = is_digit b && all_digits bs

-- The declared CheckSum and its field's offset, from the last field.
unfoldable pub declared_checksum : List Token → Result (ℕ × ℕ) DecodeError
unfolding all_digits
declared_checksum tokens = do
  last ← ok_or (last? tokens) missing_checksum
  fail_if (not (last.tag == check_sum)) missing_checksum
  fail_if (not (length last.value == 3) || not (all_digits last.value)) missing_checksum
  declared ← ok_or (parse_u32 last.value) missing_checksum
  ok (declared, last.offset)

-- The offset of the third field, or of the CheckSum field where there is none.
unfoldable pub body_start_of : List Token → ℕ → ℕ
body_start_of tokens cs_offset = elim (get_elem? tokens 2) [ none ↦ cs_offset | some t ↦ t.offset ]

-- `cs_offset.checked_sub(body_start)`.
unfoldable pub actual_body_length : List Token → ℕ → Result ℕ DecodeError
unfolding body_start_of
actual_body_length tokens cs_offset =
    if ltb cs_offset (body_start_of tokens cs_offset)
    then err invalid_body_length
    else ok (cs_offset - body_start_of tokens cs_offset)

unfoldable pub validate : Bytes → List Token → Result (Unit {0}) DecodeError
validate input tokens = do
  first_is_begin_string tokens
  declared_bl ← declared_body_length tokens
  fail_if (not (has_tag msg_type tokens)) missing_msg_type
  (declared_cs, cs_offset) ← declared_checksum tokens
  actual_bl ← actual_body_length tokens cs_offset
  fail_if (not (actual_bl == declared_bl)) (body_length_mismatch declared_bl actual_bl)
  fail_if (ltb (length input) cs_offset) missing_checksum
  let computed = checksum_of (take cs_offset input)
  fail_if (not (computed == declared_cs)) (checksum_mismatch declared_cs computed)

unfoldable pub tokenize_validated : Bytes → Result (List Token) DecodeError
tokenize_validated [] = err empty
tokenize_validated (b ∷ bs) = do tokens ← tokenize (b ∷ bs); validate (b ∷ bs) tokens; ok tokens

-- Whether a field breaks the wire order: its section comes before one already seen, or it is the
-- third field and not MsgType.
unfoldable pub breaks_order : ℕ → ℕ → ℕ → Bool
breaks_order i max_section tag =
    ltb (section_of tag) max_section || (i == 2 && not (tag == msg_type))

-- The field is put in its section.
unfoldable pub place : Message → Field → Message
place m f =
    if is_trailer f.tag
    then record m { trailer = add_field m.trailer f }
    else if is_header f.tag
    then record m { header = add_field m.header f }
    else record m { body = add_field m.body f }

-- The loop of `decode`, from the `i`th token on.
unfoldable pub decode_loop : ℕ → ℕ → Message → List Token → Message
unfolding breaks_order place
decode_loop i max_section m [] = m
decode_loop i max_section m (t ∷ ts) =
    let out = m.fields_out_of_order || breaks_order i max_section t.tag in
    decode_loop (suc i) (max max_section (section_of t.tag))
      (record (place m (record { tag = t.tag; value = t.value })) { fields_out_of_order = out }) ts

unfoldable pub decode : Bytes → Result Message DecodeError
decode input = do tokens ← tokenize_validated input; ok (decode_loop 0 0 new_message tokens)
