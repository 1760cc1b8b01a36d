-- ===== src/Core/Decode/Canonical.antt =====
-- The message that `decode` builds, section by section, from tokens in wire order
-- (codec/decode.rs).
use truefix.Base.{
  ℕ, suc, ◌+◌, ◌≤◌, ◌≡◌, refl, ap, ◌∙◌, false, List, [], ◌∷◌, ◌++◌, ◌||◌, append-nil, append_assoc,
  length, All, arith,
}
use Prim.Native.Nat.{max}
use truefix.Core.Tags.{
  begin_string, body_length, msg_type, check_sum, section_of, is_header, is_trailer,
}
use truefix.Core.FieldMap.{FieldMap, Field, end, member, field, add_field, get}
use truefix.Core.Message.{Message, new_message}
use truefix.Core.Encode.{render_raw, value_or_default}
use truefix.Core.Encode.Wire.{render_fields, wire_fields, begin_field, length_field, checksum_field}
use truefix.Core.Decode.{Token, decode_loop, place, breaks_order}
use truefix.Core.Decode.Tokens.{tokens_at}
use truefix.Core.Decode.Validate.{tokens_at-append}

-- A map of plain fields.
unfoldable pub from_fields : List Field → FieldMap
from_fields [] = end
from_fields (f ∷ fs) = member (field f) (from_fields fs)

push_all : FieldMap → List Field → FieldMap
push_all ms [] = ms
push_all ms (f ∷ fs) = push_all (add_field ms f) fs

add_field-from_fields :
    (fs : List Field) (g : Field) → add_field (from_fields fs) g ≡ from_fields (fs ++ g ∷ [])
unfolding add_field from_fields
add_field-from_fields [] g = refl
add_field-from_fields (f ∷ fs) g = ap (member (field f)) (add_field-from_fields fs g)

push_all-from_fields : (fs gs : List Field) → push_all (from_fields fs) gs ≡ from_fields (fs ++ gs)
unfolding push_all
push_all-from_fields fs [] = rw append-nil
push_all-from_fields fs (g ∷ gs) =
    rw (add_field-from_fields fs g) (push_all-from_fields (fs ++ g ∷ []) gs ∙ rw append_assoc)

push_all_end : (fs : List Field) → push_all end fs ≡ from_fields fs
unfolding from_fields
push_all_end fs = push_all-from_fields [] fs

-- All fields stand in one section: 0 is the header, 1 the body, 2 the trailer.
abbrev pub AllIn : ℕ → List Field → Type 0
AllIn k = All (λ f. section_of f.tag ≡ k)

pub place_all : Message → List Field → Message
place_all m [] = m
place_all m (f ∷ fs) = place_all (place m f) fs

in_order_flag :
    (k i mx : ℕ) (m : Message) (f : Field)
    → 3 ≤ i
    → mx ≤ k
    → section_of f.tag ≡ k
    → (m.fields_out_of_order || breaks_order i mx f.tag) ≡ (place m f).fields_out_of_order
unfolding place breaks_order
in_order_flag k i mx m f hi hm hf = ground arith

-- A token whose section is not before those seen, from the fourth on.
decode_loop_step :
    (k i mx : ℕ) (f : Field) (offset : ℕ) (m : Message) (ts : List Token)
    → 3 ≤ i
    → mx ≤ k
    → section_of f.tag ≡ k
    → decode_loop i mx m (record { tag = f.tag; value = f.value; offset = offset } ∷ ts)
      ≡ decode_loop (suc i) k (place m f) ts
unfolding decode_loop
decode_loop_step k i mx f offset m ts hi hm hf = rw (last_section, keeps_flag)
  where
    last_section : max mx (section_of f.tag) ≡ k
    last_section = omega arith

    keeps_flag :
        (m.fields_out_of_order || breaks_order i mx f.tag) ≡ (place m f).fields_out_of_order
    keeps_flag = in_order_flag k i mx m f hi hm hf

decode_loop_block :
    (k : ℕ) (fs : List Field) (ts : List Token) (s i mx : ℕ) (m : Message)
    → 3 ≤ i
    → mx ≤ k
    → AllIn k fs
    → (j mx' : ℕ) × (3 ≤ j)
      × (mx' ≤ k)
      × (decode_loop i mx m (tokens_at s fs ++ ts) ≡ decode_loop j mx' (place_all m fs) ts)
unfolding tokens_at place_all
decode_loop_block k [] ts s i mx m hi hm h = (i, mx, hi, hm, refl)
decode_loop_block k (f ∷ fs) ts s i mx m hi hm (hf, h) =
    let n = length (render_raw f.tag f.value) in
    let (j, mx', hj, hm', e) =
      decode_loop_block k fs ts (s + n) (suc i) k (place m f) (omega arith) (omega arith) h in
    (j, mx', hj, hm', decode_loop_step k i mx f s m _ hi hm hf ∙ e)

-- The message that `decode` builds from the fields of `encode m`: the header with BeginString,
-- BodyLength and MsgType in front, the body, and the trailer with CheckSum behind.
unfoldable pub header_rest : Message → List Field
header_rest m = wire_fields m.header (begin_string ∷ body_length ∷ msg_type ∷ [])

unfoldable pub type_field : Message → Field
type_field m = record { tag = msg_type; value = value_or_default (get m.header msg_type) }

unfoldable pub trailer_rest : Message → List Field
trailer_rest m = wire_fields m.trailer (check_sum ∷ [])

unfoldable pub canonical : Message → Message
unfolding header_rest type_field trailer_rest
canonical m = record {
  header = from_fields (begin_field m ∷ length_field m ∷ type_field m ∷ header_rest m);
  body = from_fields (wire_fields m.body []);
  trailer = from_fields (trailer_rest m ++ checksum_field m ∷ []);
  fields_out_of_order = false;
}

place-header :
    (m : Message) (f : Field)
    → section_of f.tag ≡ 0
    → place m f ≡ record m { header = add_field m.header f }
unfolding place section_of
place-header m f h = ground arith

place_all-header :
    (m : Message) (fs : List Field)
    → AllIn 0 fs
    → place_all m fs ≡ record m { header = push_all m.header fs }
unfolding place_all push_all
place_all-header m [] h = refl
place_all-header m (f ∷ fs) (hf, h) =
    rw (place-header m f hf) (place_all-header (record m { header = add_field m.header f }) fs h)

place-body :
    (m : Message) (f : Field)
    → section_of f.tag ≡ 1
    → place m f ≡ record m { body = add_field m.body f }
unfolding place section_of
place-body m f h = ground arith

place_all-body :
    (m : Message) (fs : List Field)
    → AllIn 1 fs
    → place_all m fs ≡ record m { body = push_all m.body fs }
unfolding place_all push_all
place_all-body m [] h = refl
place_all-body m (f ∷ fs) (hf, h) =
    rw (place-body m f hf) (place_all-body (record m { body = add_field m.body f }) fs h)

place-trailer :
    (m : Message) (f : Field)
    → section_of f.tag ≡ 2
    → place m f ≡ record m { trailer = add_field m.trailer f }
unfolding place section_of
place-trailer m f h = ground arith

place_all-trailer :
    (m : Message) (fs : List Field)
    → AllIn 2 fs
    → place_all m fs ≡ record m { trailer = push_all m.trailer fs }
unfolding place_all push_all
place_all-trailer m [] h = refl
place_all-trailer m (f ∷ fs) (hf, h) =
    rw (place-trailer m f hf)
      (place_all-trailer (record m { trailer = add_field m.trailer f }) fs h)

-- The fields behind the third, section by section.
pub decode_loop_sections :
    (hs bs ts : List Field) (s : ℕ) (m : Message)
    → AllIn 0 hs
    → AllIn 1 bs
    → AllIn 2 ts
    → decode_loop 3 0 m (tokens_at s (hs ++ (bs ++ ts)))
      ≡ place_all (place_all (place_all m hs) bs) ts
decode_loop_sections hs bs ts s m hh hb ht =
    let n1 = s + length (render_fields hs) in
    let n2 = n1 + length (render_fields bs) in
    let c = tokens_at n2 ts ++ [] in
    let (i, x, hi, hx, e1) =
      decode_loop_block 0 hs (tokens_at n1 bs ++ c) s 3 0 m (omega arith) (omega arith) hh in
    let (j, y, hj, hy, e2) = decode_loop_block 1 bs c n1 i x (place_all m hs) hi (omega arith) hb in
    let (k, z, hk, hz, e3) =
      decode_loop_block 2 ts [] n2 j y (place_all (place_all m hs) bs) hj (omega arith) ht in
    ap (decode_loop 3 0 m) split ∙ e1 ∙ e2 ∙ e3 ∙ unfold decode_loop in refl
  where
    split :
        tokens_at s (hs ++ (bs ++ ts))
        ≡ tokens_at s hs
          ++ (tokens_at (s + length (render_fields hs)) bs
              ++ (tokens_at (s + length (render_fields hs) + length (render_fields bs)) ts ++ []))
    split = simp (tokens_at-append, append-nil)

pub first_three :
    (b l t : Field) (ts : List Token) (n1 n2 : ℕ)
    → b.tag ≡ begin_string
    → l.tag ≡ body_length
    → t.tag ≡ msg_type
    → decode_loop 0 0 new_message (
        record { tag = b.tag; value = b.value; offset = 0 }
        ∷ record { tag = l.tag; value = l.value; offset = n1 }
        ∷ record { tag = t.tag; value = t.value; offset = n2 }
        ∷ ts)
      ≡ decode_loop 3 0 (record new_message { header = from_fields (b ∷ l ∷ t ∷ []) }) ts
unfolding decode_loop place breaks_order section_of is_header is_trailer from_fields add_field
first_three b l t ts n1 n2 hb hl ht = rw (hb, hl, ht)

pub checksum_section : (m : Message) → section_of (checksum_field m).tag ≡ 2
unfolding checksum_field section_of is_trailer
checksum_section m = refl

pub built :
    (b l t : Field) (hs bs ts : List Field)
    → AllIn 0 hs
    → AllIn 1 bs
    → AllIn 2 ts
    → place_all
        (place_all (place_all (record new_message { header = from_fields (b ∷ l ∷ t ∷ []) }) hs) bs)
        ts
      ≡ record {
        header = from_fields (b ∷ l ∷ t ∷ hs);
        body = from_fields bs;
        trailer = from_fields ts;
        fields_out_of_order = false;
      }
built b l t hs bs ts hh hb ht =
    rw (place_all-header _ hs hh, place_all-body _ bs hb, place_all-trailer _ ts ht)
      (rw (push_all-from_fields (b ∷ l ∷ t ∷ []) hs, push_all_end bs, push_all_end ts))
