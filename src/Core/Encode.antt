-- ===== src/Core/Encode.antt =====
-- crates/truefix-core/src/codec/encode.rs. A function of the source that appends to `out` returns
-- here the bytes that it appends.
pub mod Wire
use truefix.Base.{
  ℕ, zero, suc, ◌+◌, ◌-◌, ◌%◌, ◌^◌, ◌≡◌, refl, Bool, true, false, not, List, [], ◌∷◌, ◌++◌, Option,
  none, some, Bytes, codes, length, ◌==◌, if◌then◌else◌, contains, ltb,
}
use truefix.Base.Int.{ℤ, pos}
use truefix.Text.Decimal.{write_tag, to_string, to_string_signed}
use truefix.Core.Tags.{begin_string, body_length, msg_type, check_sum, soh}
use truefix.Core.FieldMap.{
  FieldMap, Field, Member, Entries, end, member, field, group, nil, cons, count_entries, get,
}
use truefix.Core.Message.{Message}

abbrev pub equals : ℕ
equals = b'='

unfoldable pub render_raw : ℕ → Bytes → Bytes
render_raw tag value = write_tag tag ++ equals ∷ (value ++ soh ∷ [])

-- The declared count if one was recorded, and else the number of entries.
unfoldable pub group_count_to_emit : Entries → Option ℤ → Bytes
group_count_to_emit es none = to_string (count_entries es)
group_count_to_emit es (some n) = to_string_signed n

-- `render_members`, the case of one member, and the loop over a group's entries.
unfoldable mutual
  pub render_members : FieldMap → List ℕ → Bytes
  render_members end skip = []
  render_members (member m ms) skip = render_member m skip ++ render_members ms skip

  pub render_member : Member → List ℕ → Bytes
  render_member (field f) skip = if contains skip f.tag then [] else render_raw f.tag f.value
  render_member (group c es d) skip = render_raw c (group_count_to_emit es d) ++ render_entries es

  pub render_entries : Entries → Bytes
  render_entries nil = []
  render_entries (cons e es) = render_members e [] ++ render_entries es

unfoldable pub render_one_member : Member → Bytes
render_one_member (field f) = render_raw f.tag f.value
render_one_member (group c es d) = render_raw c (group_count_to_emit es d) ++ render_entries es

unfoldable pub tag_of : Member → ℕ
tag_of (field f) = f.tag
tag_of (group c es d) = c

-- The inner loop of `render_members_ordered`: the members with the wanted tag.
render_wanted : FieldMap → ℕ → Bytes
render_wanted end wanted = []
render_wanted (member m ms) wanted =
    (if tag_of m == wanted then render_one_member m else []) ++ render_wanted ms wanted

-- Its last loop: the members whose tag was not emitted.
render_rest : FieldMap → List ℕ → Bytes
render_rest end emitted = []
render_rest (member m ms) emitted =
    (if contains emitted (tag_of m) then [] else render_one_member m) ++ render_rest ms emitted

-- The loop over `order` and the last loop behind it. The set `emitted` is the list of its elements.
render_from : FieldMap → List ℕ → List ℕ → Bytes
unfolding render_wanted render_rest
render_from ms [] emitted = render_rest ms emitted
render_from ms (wanted ∷ order) emitted =
    let rest =
      render_from ms order (if contains emitted wanted then emitted else wanted ∷ emitted) in
    if contains emitted wanted then rest else render_wanted ms wanted ++ rest

unfoldable pub render_members_ordered : FieldMap → List ℕ → Bytes
unfolding render_from
render_members_ordered ms order = render_from ms order []

-- `f.value_bytes().to_vec()`, or no bytes where the field is missing.
unfoldable pub value_or_default : Option Field → Bytes
value_or_default none = []
value_or_default (some f) = f.value

unfoldable pub sum : Bytes → ℕ
sum [] = 0
sum (b ∷ bs) = b + sum bs

-- The sum of the bytes in a u64, `& 0xFF`.
unfoldable pub checksum_of : Bytes → ℕ
unfolding sum
checksum_of bytes = sum bytes % 2 ^ 64 % 256

-- `format!("{checksum:03}")`.
unfoldable pub pad3 : Bytes → Bytes
pad3 s =
    if length s == 1
    then b'0' ∷ b'0' ∷ s
    else if length s == 2
    then b'0' ∷ s
    else if length s == 0
    then b'0' ∷ b'0' ∷ b'0' ∷ []
    else s

render_body : FieldMap → Option (List ℕ) → Bytes
render_body body none = render_members body []
render_body body (some order) = render_members_ordered body order

-- What BodyLength counts.
pub middle_of : Message → Option (List ℕ) → Bytes
unfolding render_body value_or_default
middle_of m field_order =
    render_raw msg_type (value_or_default (get m.header msg_type))
    ++ (render_members m.header (begin_string ∷ body_length ∷ msg_type ∷ [])
        ++ (render_body m.body field_order ++ render_members m.trailer (check_sum ∷ [])))

-- What stands in front of the CheckSum field, for a given middle part.
pub before_checksum : Bytes → Bytes → Bytes
before_checksum begin middle =
    render_raw begin_string begin ++ (render_raw body_length (to_string (length middle)) ++ middle)

pub with_checksum : Bytes → Bytes
unfolding checksum_of pad3
with_checksum out = out ++ render_raw check_sum (pad3 (to_string (checksum_of out)))

unfoldable pub encode_with_order : Message → Option (List ℕ) → Bytes
unfolding middle_of before_checksum with_checksum value_or_default
encode_with_order m field_order =
    with_checksum
      (before_checksum (value_or_default (get m.header begin_string)) (middle_of m field_order))

unfoldable pub encode : Message → Bytes
unfolding encode_with_order
encode m = encode_with_order m none
