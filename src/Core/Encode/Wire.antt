-- ===== src/Core/Encode/Wire.antt =====
-- What the encoder writes, as a list of plain fields: a group stands as its count field and the
-- fields of its entries, in order.
use truefix.Base.{
  ℕ, ◌≡◌, refl, List, [], ◌∷◌, ◌++◌, append-nil, append_assoc, none, Bytes, length, if◌then◌else◌,
  contains, arith,
}
use truefix.Text.Decimal.{to_string}
use truefix.Core.Tags.{begin_string, body_length, msg_type, check_sum}
use truefix.Core.FieldMap.{
  FieldMap, Field, Member, Entries, end, member, field, group, nil, cons, get,
}
use truefix.Core.Message.{Message}
use truefix.Core.Encode.{
  render_raw, group_count_to_emit, render_members, render_member, render_entries, value_or_default,
  checksum_of, pad3, middle_of, before_checksum, with_checksum, encode,
}

unfoldable pub render_fields : List Field → Bytes
render_fields [] = []
render_fields (f ∷ fs) = render_raw f.tag f.value ++ render_fields fs

pub render_fields-append :
    (fs gs : List Field) → render_fields (fs ++ gs) ≡ render_fields fs ++ render_fields gs
unfolding render_fields
render_fields-append [] gs = refl
render_fields-append (f ∷ fs) gs = simp (render_fields-append fs, append_assoc)

-- The plain fields of a map, those with a tag in `skip` left out at the top level.
unfoldable mutual
  pub wire_fields : FieldMap → List ℕ → List Field
  wire_fields end skip = []
  wire_fields (member m ms) skip = wire_member m skip ++ wire_fields ms skip

  pub wire_member : Member → List ℕ → List Field
  wire_member (field f) skip = if contains skip f.tag then [] else f ∷ []
  wire_member (group c es d) skip =
      record { tag = c; value = group_count_to_emit es d } ∷ wire_entries es

  pub wire_entries : Entries → List Field
  wire_entries nil = []
  wire_entries (cons e es) = wire_fields e [] ++ wire_entries es

mutual
  unfolding render_members wire_fields render_fields

  pub render_members-wire :
      (ms : FieldMap) (skip : List ℕ) → render_members ms skip ≡ render_fields (wire_fields ms skip)
  render_members-wire end skip = refl
  render_members-wire (member m ms) skip =
      simp (render_fields-append, render_member-wire m skip, render_members-wire ms skip)

  render_member-wire :
      (m : Member) (skip : List ℕ) → render_member m skip ≡ render_fields (wire_member m skip)
  render_member-wire (field f) skip = ground (arith, append-nil (render_raw f.tag f.value))
  render_member-wire (group c es d) skip = rw (render_entries-wire es)

  render_entries-wire : (es : Entries) → render_entries es ≡ render_fields (wire_entries es)
  render_entries-wire nil = refl
  render_entries-wire (cons e es) =
      simp (render_fields-append, render_members-wire e [], render_entries-wire es)

-- The fields that BodyLength counts.
unfoldable pub middle_fields : Message → List Field
middle_fields m =
    record { tag = msg_type; value = value_or_default (get m.header msg_type) }
    ∷ (wire_fields m.header (begin_string ∷ body_length ∷ msg_type ∷ [])
        ++ (wire_fields m.body [] ++ wire_fields m.trailer (check_sum ∷ [])))

pub middle_of-wire : (m : Message) → middle_of m none ≡ render_fields (middle_fields m)
unfolding middle_of middle_fields render_fields
middle_of-wire m = simp (render_fields-append, render_members-wire)

unfoldable pub begin_field : Message → Field
begin_field m = record { tag = begin_string; value = value_or_default (get m.header begin_string) }

-- The BodyLength field that the encoder computes.
unfoldable pub length_field : Message → Field
length_field m = record {
  tag = body_length;
  value = to_string (length (render_fields (middle_fields m)));
}

-- The fields in front of the CheckSum field, and that field.
unfoldable pub front_fields : Message → List Field
front_fields m = begin_field m ∷ length_field m ∷ middle_fields m

unfoldable pub checksum_field : Message → Field
checksum_field m = record {
  tag = check_sum;
  value = pad3 (to_string (checksum_of (render_fields (front_fields m))));
}

before_checksum-wire :
    (m : Message)
    → before_checksum (value_or_default (get m.header begin_string)) (middle_of m none)
      ≡ render_fields (front_fields m)
unfolding before_checksum front_fields begin_field length_field render_fields
before_checksum-wire m = rw (middle_of-wire m)

with_checksum-wire :
    (m : Message)
    → with_checksum (render_fields (front_fields m))
      ≡ render_fields (front_fields m ++ checksum_field m ∷ [])
unfolding with_checksum checksum_field
with_checksum-wire m = rw (render_fields-append, last_field (checksum_field m))
  where
    last_field : (f : Field) → render_fields (f ∷ []) ≡ render_raw f.tag f.value
    last_field f = unfold render_fields in append-nil _

encode-parts :
    (m : Message)
    → encode m
      ≡ with_checksum
          (before_checksum (value_or_default (get m.header begin_string)) (middle_of m none))
unfolding encode
encode-parts m = refl

-- An encoded message is its plain fields one after the other.
pub encode-wire : (m : Message) → encode m ≡ render_fields (front_fields m ++ checksum_field m ∷ [])
encode-wire m = rw (encode-parts, before_checksum-wire) (with_checksum-wire m)
