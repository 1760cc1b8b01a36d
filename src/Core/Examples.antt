-- ===== src/Core/Examples.antt =====
-- The theorems of the codec at one message: a Heartbeat whose body carries raw data with an SOH byte
-- inside (crates/truefix-core/src).
use truefix.Base.{
  ℕ, ◌≡◌, ◌≢◌, ◌↔◌, refl, true, false, List, [], ◌∷◌, ◌++◌, none, some, Bytes, codes, length, take,
  drop, ltb, ap, Lacks, contains, ok, stuck, arith, if◌then◌else◌,
}
use truefix.Text.Utf8.{from_utf8, is_utf8}
use truefix.Text.Decimal.{write_tag, to_string, is_digit, parse_usize, parse_u32}
use truefix.Core.Tags.{data_field_for_length, section_of, is_header, is_trailer}
use truefix.Core.FieldMap.{Field, end, member, field, get}
use truefix.Core.Message.{Message, new_message}
use truefix.Core.Encode.{encode, render_members, value_or_default, render_raw, checksum_of, pad3}
use truefix.Core.Encode.Wire.{wire_fields, middle_fields, begin_field, render_fields}
use truefix.Core.Framing.{
  frame_length, looks_like_fix_begin_string, frame_first, find, starts_with, frame_second,
  frame_body_length, frame_total, check_trailer,
}
use truefix.Core.Decode.{Token, decode, decode_loop, next_pending, tokenize}
use truefix.Core.Decode.Tokens.{tokens_at}
use truefix.Core.Decode.Grammar.{Spells, tokenize_iff}
use truefix.Core.Decode.Accepted.{IsValid, decode_sound}
use truefix.Core.Decode.Total.{decode-ne-stuck}
use truefix.Text.Decimal.RoundTrip.{parse_u32-write_tag}
use truefix.Core.Framing.Laws.{FrameParts, frame_length_sound}
use truefix.Core.Framing.Stream.{frame_length_prefix}
use truefix.Core.Decode.Canonical.{canonical, header_rest, type_field, trailer_rest}
use truefix.Core.Decode.RoundTrip.{all_fields, IsEncodable, decode-encode}
use truefix.Core.Decode.Framed.{
  frame_length-encode, sent-Receives, sent, Receives, canonicals, AreSendable,
}

abbrev fld : ℕ → Bytes → Field
fld t v = record { tag = t; value = v }

-- Three bytes of raw data, the second of which is SOH.
abbrev raw : Bytes
raw = b'a' ∷ 1 ∷ b'b' ∷ []

abbrev heartbeat : Message
heartbeat = record {
  header =
      member (field (fld 8 (codes "FIX.4.2")))
        (member (field (fld 35 (codes "0"))) (member (field (fld 49 (codes "A"))) end));
  body = member (field (fld 95 (codes "3"))) (member (field (fld 96 raw)) end);
  trailer = end;
  fields_out_of_order = false;
}

-- A test for the absence of a byte.
contains-Lacks : (b : ℕ) (l : Bytes) → contains l b ≡ false → Lacks b l
unfolding contains
contains-Lacks b [] h = tt
contains-Lacks b (c ∷ l) h = (ground arith, contains-Lacks b l (ground arith))

abbrev heartbeat_bytes : Bytes
heartbeat_bytes =
    codes "8=FIX.4.2"
    ++ 1
      ∷ (codes "9=22"
          ++ 1
            ∷ (codes "35=0"
                ++ 1
                  ∷ (codes "49=A"
                      ++ 1
                        ∷ (codes "95=3"
                            ++ 1
                              ∷ (codes "96=a"
                                  ++ 1 ∷ (codes "b" ++ 1 ∷ (codes "10=012" ++ 1 ∷ [])))))))

encode-heartbeat : encode heartbeat ≡ heartbeat_bytes
unfolding encode get value_or_default render_members contains render_raw write_tag to_string
    checksum_of pad3
encode-heartbeat = refl

heartbeat-IsEncodable : IsEncodable heartbeat
unfolding begin_field middle_fields header_rest type_field trailer_rest wire_fields get
    value_or_default contains next_pending data_field_for_length parse_usize from_utf8 section_of
    is_header is_trailer render_fields render_raw write_tag
heartbeat-IsEncodable = record {
  begin_fits = contains-Lacks 1 (codes "FIX.4.2") refl;
  wire = (
    omega arith,
    omega arith,
    contains-Lacks 1 (codes "0") refl,
    (
      none,
      refl,
      (
        omega arith,
        omega arith,
        contains-Lacks 1 (codes "A") refl,
        (
          none,
          refl,
          (
            omega arith,
            omega arith,
            contains-Lacks 1 (codes "3") refl,
            (some (96, 3), refl, (omega arith, omega arith, (refl, refl), (none, refl, refl))),
          ),
        ),
      ),
    ),
  );
  in_header = (refl, tt);
  in_body = (refl, (refl, tt));
  in_trailer = tt;
  body_bound = omega arith;
  total_bound = rw encode-heartbeat (omega arith);
}

decode-encode_example : decode (encode heartbeat) ≡ ok (canonical heartbeat)
decode-encode_example = decode-encode heartbeat heartbeat-IsEncodable

heartbeat_version : looks_like_fix_begin_string (begin_field heartbeat).value ≡ true
unfolding looks_like_fix_begin_string begin_field value_or_default get is_utf8 is_digit
heartbeat_version = refl

frame_length-encode_example : frame_length (take 20 heartbeat_bytes) ≡ (
    if ltb 20 (length (encode heartbeat)) then ok none else ok (some (length (encode heartbeat))))
frame_length-encode_example =
    frame_length-encode heartbeat (take 20 heartbeat_bytes) (drop 20 heartbeat_bytes) []
      heartbeat-IsEncodable heartbeat_version (ap (λ x. x ++ []) encode-heartbeat)

abbrev two_heartbeats : List Message
two_heartbeats = heartbeat ∷ heartbeat ∷ []

sent-Receives_example :
    Receives (sent two_heartbeats ++ (b'8' ∷ [])) (canonicals two_heartbeats) (b'8' ∷ [])
unfolding AreSendable
sent-Receives_example =
    sent-Receives two_heartbeats (b'8' ∷ [])
      ((heartbeat-IsEncodable, heartbeat_version), ((heartbeat-IsEncodable, heartbeat_version), tt))

-- The heartbeat's bytes are a frame.
heartbeat_frame : frame_length heartbeat_bytes ≡ ok (some 44)
unfolding frame_length parse_usize from_utf8 looks_like_fix_begin_string frame_first find
    starts_with frame_second frame_body_length frame_total check_trailer
heartbeat_frame = refl

frame_length_prefix_example : frame_length (take 30 heartbeat_bytes) ≡ ok none
frame_length_prefix_example =
    frame_length_prefix (take 30 heartbeat_bytes) (drop 30 heartbeat_bytes) 44 heartbeat_frame

frame_length_sound_example : FrameParts heartbeat_bytes 44
frame_length_sound_example = frame_length_sound heartbeat_bytes 44 heartbeat_frame

heartbeat_decodes : decode heartbeat_bytes ≡ ok (canonical heartbeat)
heartbeat_decodes = rw (← encode-heartbeat) (decode-encode heartbeat heartbeat-IsEncodable)

decode_sound_example :
    (ts : List Token) × Spells none heartbeat_bytes 0 ts
    × IsValid heartbeat_bytes ts
    × (canonical heartbeat ≡ decode_loop 0 0 new_message ts)
decode_sound_example = decode_sound heartbeat_bytes (canonical heartbeat) heartbeat_decodes

tokenize_iff_example :
    (tokenize heartbeat_bytes ≡ ok (tokens_at 0 (all_fields heartbeat)))
    ↔ Spells none heartbeat_bytes 0 (tokens_at 0 (all_fields heartbeat))
tokenize_iff_example =
    tokenize_iff heartbeat_bytes (tokens_at 0 (all_fields heartbeat)) (omega arith)

decode-ne-stuck_example : decode (take 20 heartbeat_bytes) ≢ stuck
decode-ne-stuck_example = decode-ne-stuck (take 20 heartbeat_bytes)

parse_u32-write_tag_example : parse_u32 (write_tag 5000) ≡ some 5000
parse_u32-write_tag_example = parse_u32-write_tag 5000 (omega arith)
