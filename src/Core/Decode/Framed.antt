-- ===== src/Core/Decode/Framed.antt =====
-- Encoded messages on a byte stream: `frame_length` finds exactly the bytes of the first one
-- (crates/truefix-core/src/framing.rs over codec/encode.rs).
use truefix.Base.{
  ℕ, suc, ◌+◌, ◌-◌, ◌≤◌, ◌<◌, ◌≡◌, refl, sym, ap, ◌∙◌, inl, true, [], ◌∷◌, ◌++◌, append_assoc, none,
  some, Bytes, codes, length, length-append, take, drop, take_append_length, drop_append_length,
  List, get_elem?, Lacks, ltb, le→ltb_false, ok, arith, if◌then◌else◌,
}
use native.Mathlib.Numerals.{add-one}
use truefix.Text.Decimal.{parse_usize, max_u64, write_tag}
use truefix.Text.Decimal.RoundTrip.{parse_usize-to_string, to_string-Lacks}
use truefix.Core.Tags.{soh}
use truefix.Core.Message.{Message}
use truefix.Core.Encode.{render_raw, encode}
use truefix.Core.Encode.Wire.{
  render_fields, render_fields-append, middle_fields, begin_field, length_field, front_fields,
  checksum_field, encode-wire,
}
use truefix.Core.Framing.{
  max_body_len, find, starts_with, looks_like_fix_begin_string, frame_total, frame_body_length,
  check_trailer, frame_second, frame_first, frame_length,
}
use truefix.Core.Framing.Stream.{frame_length_prefix, frame_length-append}
use truefix.Core.Decode.{decode}
use mathlib.Core.Path.{subst}
use truefix.Core.Decode.Validate.{pad3_lem, checksum_of-lt}
use truefix.Core.Decode.RoundTrip.{IsEncodable, decode-encode}
use truefix.Core.Decode.Canonical.{canonical}

find-append-Lacks :
    (p : Bytes) (b : ℕ) (r : Bytes) → Lacks b p → find (p ++ b ∷ r) b ≡ some (length p)
unfolding find
find-append-Lacks [] b r h = ground arith
find-append-Lacks (c ∷ p) b r h = ground (arith, find-append-Lacks p b r)

drop_past : (p : Bytes) (b : ℕ) (r : Bytes) → drop (suc (length p)) (p ++ b ∷ r) ≡ r
drop_past [] b r = refl
drop_past (c ∷ p) b r = drop_past p b r

get_elem?-last : (p : Bytes) (b : ℕ) → get_elem? (p ++ b ∷ []) (length p) ≡ some b
get_elem?-last [] b = refl
get_elem?-last (c ∷ p) b = get_elem?-last p b

check_trailer-append :
    (pre cs : Bytes) (n : ℕ)
    → length cs ≡ 3
    → n ≡ length pre + 7
    → check_trailer (pre ++ b'1' ∷ b'0' ∷ b'=' ∷ (cs ++ soh ∷ [])) n ≡ ok (some n)
unfolding check_trailer
check_trailer-append pre cs n h e =
    rw
      (
        le→ltb_false (length (pre ++ tail)) n fits,
        at_trailer,
        drop_append_length pre tail,
        regroup,
        at_last,
        get_elem?-last before soh,
      )
      (ground arith)
  where
    tail : Bytes
    tail = b'1' ∷ b'0' ∷ b'=' ∷ (cs ++ soh ∷ [])

    before : Bytes
    before = pre ++ b'1' ∷ b'0' ∷ b'=' ∷ cs

    fits : n ≤ length (pre ++ tail)
    fits = omega (arith, length-append pre tail, length-append cs (soh ∷ []))

    at_trailer : n - 7 ≡ length pre
    at_trailer = omega arith

    at_last : n - 1 ≡ length before
    at_last = omega (arith, length-append pre (b'1' ∷ b'0' ∷ b'=' ∷ cs))

    regroup : pre ++ tail ≡ before ++ soh ∷ []
    regroup = simp append_assoc

check_trailer_at :
    (w pre cs : Bytes) (n : ℕ)
    → w ≡ pre ++ b'1' ∷ b'0' ∷ b'=' ∷ (cs ++ soh ∷ [])
    → length cs ≡ 3
    → n ≡ length pre + 7
    → check_trailer w n ≡ ok (some n)
check_trailer_at w pre cs n e h hn = rw e (check_trailer-append pre cs n h hn)

-- The four parts of an encoded message, from their values.
module _ (v d mid cs : Bytes) where
  abbrev trailer_bytes : Bytes
  trailer_bytes = b'1' ∷ b'0' ∷ b'=' ∷ (cs ++ soh ∷ [])

  abbrev after_begin : Bytes
  after_begin = b'9' ∷ b'=' ∷ (d ++ soh ∷ (mid ++ trailer_bytes))

  abbrev whole_bytes : Bytes
  whole_bytes = b'8' ∷ b'=' ∷ (v ++ soh ∷ after_begin)

  length_whole : length cs ≡ 3 → length whole_bytes ≡ length v + length d + length mid + 13
  length_whole h = omega (
    arith,
    length-append v (soh ∷ after_begin),
    length-append d (soh ∷ (mid ++ trailer_bytes)),
    length-append mid trailer_bytes,
    length-append cs (soh ∷ []),
  )

  trailer_lem :
      length cs ≡ 3
      → check_trailer whole_bytes (length whole_bytes) ≡ ok (some (length whole_bytes))
  trailer_lem h = check_trailer_at whole_bytes pre cs (length whole_bytes) split h (
      omega (
        arith,
        ap (length {0}) split,
        length-append pre trailer_bytes,
        length-append cs (soh ∷ []),
      ))
    where
      pre : Bytes
      pre = b'8' ∷ b'=' ∷ (v ++ soh ∷ b'9' ∷ b'=' ∷ (d ++ soh ∷ mid))

      split : whole_bytes ≡ pre ++ trailer_bytes
      split = simp append_assoc

  body_lem :
      parse_usize d ≡ some (length mid)
      → 0 < length mid
      → length mid ≤ max_body_len
      → frame_body_length (b'9' ∷ b'=' ∷ d) ≡ ok (length mid)
  unfolding frame_body_length
  body_lem e pos bound = rw e (ground arith)

  total_lem :
      length cs ≡ 3
      → length whole_bytes ≤ max_u64
      → frame_total (suc (suc (length v))) (suc (suc (length d))) (length mid)
        ≡ ok (length whole_bytes)
  unfolding frame_total
  total_lem h bound = ground (arith, length_whole h)

  begins : starts_with (codes "8=") whole_bytes ≡ true
  unfolding starts_with
  begins = refl

  second_lem :
      Lacks soh d
      → parse_usize d ≡ some (length mid)
      → 0 < length mid
      → length mid ≤ max_body_len
      → length cs ≡ 3
      → length whole_bytes ≤ max_u64
      → frame_second whole_bytes (suc (suc (length v))) after_begin (find after_begin soh)
        ≡ ok (some (length whole_bytes))
  unfolding frame_second
  second_lem ld hd pos bound hc total =
      rw
        (
          find-append-Lacks (b'9' ∷ b'=' ∷ d) soh (mid ++ trailer_bytes)
              (omega arith, (omega arith, ld)),
          take_append_length d (soh ∷ (mid ++ trailer_bytes)),
          body_lem hd pos bound,
          total_lem hc total,
        )
        (trailer_lem hc)

  -- The frame of the whole.
  frame_whole :
      Lacks soh v
      → looks_like_fix_begin_string v ≡ true
      → Lacks soh d
      → parse_usize d ≡ some (length mid)
      → 0 < length mid
      → length mid ≤ max_body_len
      → length cs ≡ 3
      → length whole_bytes ≤ max_u64
      → frame_length whole_bytes ≡ ok (some (length whole_bytes))
  unfolding frame_length frame_first
  frame_whole lv hv ld hd pos bound hc total =
      rw
        (
          find-append-Lacks (b'8' ∷ b'=' ∷ v) soh after_begin (omega arith, (omega arith, lv)),
          take_append_length v (soh ∷ after_begin),
          hv,
          begins,
          add-one (length (b'8' ∷ b'=' ∷ v)),
          drop_past (b'8' ∷ b'=' ∷ v) soh after_begin,
        )
        (second_lem ld hd pos bound hc total)

encode-whole_bytes :
    (m : Message)
    → render_fields (front_fields m ++ checksum_field m ∷ [])
      ≡ whole_bytes
          (begin_field m).value
          (length_field m).value
          (render_fields (middle_fields m))
          (checksum_field m).value
unfolding front_fields render_fields render_raw write_tag begin_field length_field checksum_field
encode-whole_bytes m =
    rw (render_fields-append (middle_fields m) (checksum_field m ∷ [])) (simp append_assoc)

middle_fields-nonempty : (m : Message) → 0 < length (render_fields (middle_fields m))
unfolding middle_fields render_fields render_raw write_tag
middle_fields-nonempty m = omega arith

length_field-Lacks : (m : Message) → Lacks soh (length_field m).value
unfolding length_field
length_field-Lacks m = to_string-Lacks soh _ (inl (omega arith))

length_field-parse :
    (m : Message)
    → length (render_fields (middle_fields m)) ≤ max_u64
    → parse_usize (length_field m).value ≡ some (length (render_fields (middle_fields m)))
unfolding length_field
length_field-parse m h = parse_usize-to_string _ h

length-checksum_field : (m : Message) → length (checksum_field m).value ≡ 3
unfolding checksum_field
length-checksum_field m = (pad3_lem _ (checksum_of-lt _)).0

encode_frame :
    (m : Message)
    → IsEncodable m
    → looks_like_fix_begin_string (begin_field m).value ≡ true
    → frame_length (encode m) ≡ ok (some (length (encode m)))
encode_frame m h hv =
    subst (λ w. frame_length w ≡ ok (some (length w))) (sym same)
      (framed (rw same at h.total_bound))
  where
    v : Bytes
    v = (begin_field m).value

    d : Bytes
    d = (length_field m).value

    mid : Bytes
    mid = render_fields (middle_fields m)

    cs : Bytes
    cs = (checksum_field m).value

    same : encode m ≡ whole_bytes v d mid cs
    same = encode-wire m ∙ encode-whole_bytes m

    framed :
        length (whole_bytes v d mid cs) ≤ max_u64
        → frame_length (whole_bytes v d mid cs) ≡ ok (some (length (whole_bytes v d mid cs)))
    framed total =
        frame_whole v d mid cs h.begin_fits hv (length_field-Lacks m)
          (length_field-parse m (omega (arith, h.body_bound))) (middle_fields-nonempty m)
          h.body_bound (length-checksum_field m) total

-- For a message that is `IsEncodable` and whose BeginString looks like a FIX version, a stream that
-- starts with its encoding is cut exactly behind it: before its last byte has arrived more bytes are
-- asked for, and then its length is the answer, whatever follows.
pub frame_length-encode :
    (m : Message) (p rest more : Bytes)
    → IsEncodable m
    → looks_like_fix_begin_string (begin_field m).value ≡ true
    → encode m ++ more ≡ p ++ rest
    → frame_length p
      ≡ (if ltb (length p) (length (encode m)) then ok none else ok (some (length (encode m))))
frame_length-encode m p rest more h hv e =
    frame_length_prefix p rest (length (encode m))
      (rw (← e) (frame_length-append more (encode m) (encode_frame m h hv) (λ x. cc)))

-- Messages that can be encoded and framed.
unfoldable pub AreSendable : List Message → Type 0
AreSendable [] = Unit
AreSendable (m ∷ ms) =
    (IsEncodable m × (looks_like_fix_begin_string (begin_field m).value ≡ true)) × AreSendable ms

-- Their encodings, one behind the other, as the peer writes them to the connection.
unfoldable pub sent : List Message → Bytes
unfolding encode
sent [] = []
sent (m ∷ ms) = encode m ++ sent ms

-- What the reader of a stream gets: frame by frame a message, and then what is left.
unfoldable pub Receives : Bytes → List Message → Bytes → Type 0
Receives stream [] left = stream ≡ left
Receives stream (m ∷ ms) left =
    (n : ℕ) × (frame_length stream ≡ ok (some n))
    × (decode (take n stream) ≡ ok m)
    × Receives (drop n stream) ms left

-- The messages as they come back.
unfoldable pub canonicals : List Message → List Message
unfolding canonical
canonicals [] = []
canonicals (m ∷ ms) = canonical m ∷ canonicals ms

-- Messages sent one behind the other are received in the same order, each cut out of the stream by
-- `frame_length` and decoded, and what follows the last one is left over, whatever it is. Every
-- message has to be `IsEncodable`, and its BeginString to look like a FIX version; it comes back as
-- `canonical m`: its fields region by region, a group as its plain fields, and BeginString,
-- BodyLength, MsgType and CheckSum as the encoder writes them.
pub sent-Receives :
    (ms : List Message) (more : Bytes)
    → AreSendable ms
    → Receives (sent ms ++ more) (canonicals ms) more
unfolding Receives sent AreSendable canonicals
sent-Receives [] more h = refl
sent-Receives (m ∷ ms) more ((h, hv), hs) = rw (append_assoc (encode m) (sent ms) more) (
  length (encode m),
  frame_length-append (sent ms ++ more) (encode m) (encode_frame m h hv) (λ x. cc),
  rw (take_append_length (encode m) (sent ms ++ more)) (decode-encode m h),
  rw (drop_append_length (encode m) (sent ms ++ more)) (sent-Receives ms more hs),
)
