-- ===== src/Core/Decode/RoundTrip.antt =====
-- `decode` after `encode` (crates/truefix-core/src/codec).
use truefix.Base.{
  ◌≤◌, ◌<◌, ◌≡◌, refl, ap, ◌∙◌, inl, List, [], ◌∷◌, ◌++◌, append_assoc, none, Bytes, length,
  length-append, All-append, Lacks, ok, arith,
}
use truefix.Text.Decimal.{max_u64}
use truefix.Text.Decimal.RoundTrip.{to_string-Lacks}
use truefix.Core.Tags.{soh, data_field_for_length}
use truefix.Core.FieldMap.{Field}
use truefix.Core.Message.{Message, new_message}
use truefix.Core.Encode.{render_raw, pad3, encode}
use truefix.Core.Encode.Wire.{
  render_fields, wire_fields, middle_fields, begin_field, length_field, front_fields,
  checksum_field, encode-wire,
}
use truefix.Core.Framing.{max_body_len}
use truefix.Core.Decode.{
  Token, next_pending, tokenize, validate, tokenize_validated, decode, decode_loop,
}
use truefix.Core.Decode.Tokens.{
  tokens_at, IsWire, IsWire-append, tokenize-render_fields, length-render_raw,
}
use truefix.Core.Decode.Validate.{validate-render_fields}
use truefix.Core.Decode.Canonical.{
  AllIn, header_rest, type_field, trailer_rest, canonical, decode_loop_sections, first_three,
  checksum_section, built,
}

-- What `encode` needs of a message so that its bytes can be read back: each value can stand on the
-- wire, each region holds tags of its section, and the sizes are in range.
pub record IsEncodable (m : Message) : Type 0 where
  pub begin_fits : Lacks soh (begin_field m).value
  pub wire : IsWire none (middle_fields m)
  pub in_header : AllIn 0 (header_rest m)
  pub in_body : AllIn 1 (wire_fields m.body [])
  pub in_trailer : AllIn 2 (trailer_rest m)
  pub body_bound : length (render_fields (middle_fields m)) ≤ max_body_len
  pub total_bound : length (encode m) ≤ max_u64

abbrev pub all_fields : Message → List Field
all_fields m = front_fields m ++ checksum_field m ∷ []

decode_loop-all_fields :
    (m : Message)
    → IsEncodable m
    → decode_loop 0 0 new_message (tokens_at 0 (all_fields m)) ≡ canonical m
unfolding canonical front_fields middle_fields tokens_at
decode_loop-all_fields m h =
    ap
      (λ fs.
        decode_loop 0 0 new_message
          (tokens_at 0 (begin_field m ∷ length_field m ∷ type_field m ∷ fs)))
      regroup
    ∙ (first_three (begin_field m) (length_field m) (type_field m) _ _ _
          (unfold begin_field in refl) (unfold length_field in refl) refl
        ∙ (decode_loop_sections (header_rest m) (wire_fields m.body [])
              (trailer_rest m ++ checksum_field m ∷ []) _ _ h.in_header h.in_body
              (All-append _ (trailer_rest m) (checksum_field m ∷ []) h.in_trailer
                (checksum_section m, tt))
            ∙ built (begin_field m) (length_field m) (type_field m) (header_rest m)
                (wire_fields m.body []) (trailer_rest m ++ checksum_field m ∷ []) h.in_header
                h.in_body
                (All-append _ (trailer_rest m) (checksum_field m ∷ []) h.in_trailer
                  (checksum_section m, tt))))
  where
    regroup :
        (header_rest m ++ (wire_fields m.body [] ++ trailer_rest m)) ++ checksum_field m ∷ []
        ≡ header_rest m ++ (wire_fields m.body [] ++ (trailer_rest m ++ checksum_field m ∷ []))
    regroup = simp append_assoc

pad3-Lacks : (s : Bytes) → Lacks soh s → Lacks soh (pad3 s)
unfolding pad3
pad3-Lacks s h = ground arith

checksum-Lacks : (m : Message) → Lacks soh (checksum_field m).value
unfolding checksum_field
checksum-Lacks m = pad3-Lacks _ (to_string-Lacks soh _ (inl (omega arith)))

all_fields-IsWire : (m : Message) → IsEncodable m → IsWire none (all_fields m)
unfolding begin_field length_field next_pending data_field_for_length middle_fields front_fields
    checksum_field
all_fields-IsWire m h =
    IsWire-append none (front_fields m) (checksum_field m ∷ [])
      (
        omega arith,
        omega arith,
        h.begin_fits,
        (
          none,
          refl,
          (
            omega arith,
            omega arith,
            to_string-Lacks soh _ (inl (omega arith)),
            (none, refl, h.wire),
          ),
        ),
      )
      (omega arith, omega arith, checksum-Lacks m, (none, refl, refl))

tokenize_validated_ok :
    (input : Bytes) (ts : List Token)
    → 0 < length input
    → tokenize input ≡ ok ts
    → validate input ts ≡ ok tt
    → tokenize_validated input ≡ ok ts
unfolding tokenize_validated
tokenize_validated_ok [] ts h e v = absurd (omega arith)
tokenize_validated_ok (b ∷ bs) ts h e v = rw e (rw v)

encode_parts_valid :
    (m : Message)
    → IsEncodable m
    → validate (render_fields (all_fields m)) (tokens_at 0 (all_fields m)) ≡ ok tt
unfolding front_fields middle_fields begin_field length_field checksum_field type_field header_rest
    trailer_rest
encode_parts_valid m h =
    validate-render_fields (begin_field m) (length_field m) (type_field m) (checksum_field m)
      (header_rest m ++ (wire_fields m.body [] ++ trailer_rest m)) refl refl refl h.body_bound refl
      refl refl

encode-nonempty : (m : Message) → 0 < length (render_fields (all_fields m))
unfolding front_fields render_fields
encode-nonempty m = omega (
  arith,
  length-append (render_raw (begin_field m).tag (begin_field m).value)
      (render_fields (length_field m ∷ (middle_fields m ++ checksum_field m ∷ []))),
  length-render_raw (begin_field m).tag (begin_field m).value,
)

-- The decoder's tokens of an encoded message.
pub tokenize_validated-encode :
    (m : Message) → IsEncodable m → tokenize_validated (encode m) ≡ ok (tokens_at 0 (all_fields m))
tokenize_validated-encode m h = rw encode-wire (
    tokenize_validated_ok (render_fields (all_fields m)) (tokens_at 0 (all_fields m))
      (encode-nonempty m)
      (tokenize-render_fields (all_fields m) (all_fields-IsWire m h)
        (rw encode-wire at h.total_bound))
      (encode_parts_valid m h))

-- A message that can stand on the wire is decoded, from its encoding, to `canonical m`: its fields
-- region by region and in order, a group as its plain fields, with BeginString, BodyLength, MsgType
-- and CheckSum as the encoder writes them. The conditions (`IsEncodable`): the BeginString's value
-- has no SOH; every other field has a tag of 32 bits that is not 0, and a value without SOH or, right
-- behind the length field of its tag, a value of the length declared there, and no length is left
-- open; the header, the body and the trailer hold tags of their own section only; BodyLength is at
-- most `max_body_len`; and the length of the whole fits a usize.
pub decode-encode : (m : Message) → IsEncodable m → decode (encode m) ≡ ok (canonical m)
unfolding decode
decode-encode m h = rw (tokenize_validated-encode m h) (ap ok (decode_loop-all_fields m h))
