-- ===== src/Dict/Validate.antt =====
-- `DataDictionary::validate`, `validate_groups` and `present` of
-- crates/truefix-dict/src/validate.rs. The texts of the errors are left out.
pub mod Typed
pub mod Listed
pub mod Layers
pub mod Total
pub mod EachField
pub mod AllFields
pub mod Described
pub mod Unskipped
pub mod Accepted
pub mod Decoded
use truefix.Base.{
  ℕ, zero, suc, ◌≡◌, refl, Bool, true, false, not, ◌&&◌, ◌||◌, List, [], ◌∷◌, ◌++◌, Option, none,
  some, Bytes, codes, same_bytes, and_then, contains, is_none, length, leb, ◌==◌, if◌then◌else◌,
  Result, ok, err, stuck, ◌>>◌, ◌>>=◌, fail_if, ok_or,
}
use truefix.Base.Maps.{BTreeMap}
use truefix.Core.Tags.{begin_string, check_sum}
use truefix.Core.FieldMap.{FieldMap, Field, Member, end, member, field, group, get, fields}
use truefix.Core.Message.{Message, msg_type}
use truefix.Core.Times.{Crates, as_str}
use truefix.Dict.Model.{
  DataDictionary, FieldDef, GroupDef, MessageDef, VersionMeta, ValidationOptions, ValidationError,
  field_def, message_def, group_def, is_trailer_tag, contains_member, session, business,
  header_required_tags, trailer_required_tags, value_is_incorrect, tag_out_of_required_order,
  required_tag_missing, invalid_msg_type, tag_appears_more_than_once, tag_specified_without_value,
  invalid_tag_number, tag_not_defined_for_message_type,
}
use truefix.Dict.Header.{is_header}
use truefix.Dict.Values.{ok_and}
use truefix.Dict.Version.{parse_fix_begin_string}
use truefix.Dict.Fields.{Checked, check_value, has_no_value}
use truefix.Dict.Structured.{find_structured_group_with_next, validate_structured_group, member_tag}
use truefix.Dict.Flat.{validate_flat_groups}

-- The metadata of the dictionary, or its version text read as such.
unfoldable pub effective_version : DataDictionary → Option VersionMeta
unfolding parse_fix_begin_string
effective_version self = elim (self.version_meta) [
  | some meta ↦ some meta
  | none ↦ parse_fix_begin_string self.version
]

unfoldable pub same_option : Option ℕ → Option ℕ → Bool
same_option none none = true
same_option (some a) (some b) = a == b
same_option _ _ = false

unfoldable pub same_version : VersionMeta → VersionMeta → Bool
unfolding same_option
same_version v w =
    (v.major == w.major && v.minor == w.minor)
    && (same_option v.service_pack w.service_pack && same_option v.extension_pack w.extension_pack)

-- `message.header.get(tag).and_then(|f| f.as_str().ok())`.
unfoldable pub header_text : Message → ℕ → Option Bytes
unfolding get as_str
header_text message tag = and_then (get message.header tag) as_str

-- Both versions can be read, and they differ.
unfoldable pub version_differs : DataDictionary → Message → Bool
unfolding effective_version header_text ok_and same_version parse_fix_begin_string
version_differs self message = ok_and (effective_version self) λ expected.
    ok_and (and_then (header_text message begin_string) parse_fix_begin_string)
      λ found. not (same_version found expected)

unfoldable pub is_poss_dup : Message → Bool
unfolding header_text ok_and
is_poss_dup message = ok_and (header_text message 43) λ text. same_bytes text (codes "Y")

unfoldable pub check_poss_dup : ValidationOptions → Message → Checked
unfolding is_poss_dup get
check_poss_dup opts message = elim (is_poss_dup message) [
  | false ↦ ok tt
  | true ↦
      fail_if (not opts.allow_pos_dup) (session value_is_incorrect (some 43))
      >> fail_if (opts.requires_orig_sending_time && is_none (get message.header 122))
          (session required_tag_missing (some 122))
]

abbrev pub udf_start : ℕ
udf_start = 5000

-- The routing tags that may be empty.
abbrev pub reverse_route_tags : List ℕ
reverse_route_tags = 115 ∷ 116 ∷ 128 ∷ 129 ∷ 144 ∷ 145 ∷ []

-- A tag that is no group's member is counted: `seen_once.insert(tag)`.
unfoldable pub is_counted : ValidationOptions → MessageDef → ℕ → Bool
unfolding contains
is_counted opts mdef tag = opts.check_repeated_tags && not (contains mdef.member_tags tag)

-- `seen_once` after the insertion.
unfoldable pub seen_after : ValidationOptions → MessageDef → List ℕ → ℕ → List ℕ
unfolding is_counted
seen_after opts mdef seen tag = if is_counted opts mdef tag then tag ∷ seen else seen

-- `is_envelope_framing_field`.
unfoldable pub is_envelope : ℕ → Bool
is_envelope tag = tag == begin_string || tag == check_sum

-- A user-defined field that is not validated.
unfoldable pub is_skipped : ValidationOptions → ℕ → Bool
is_skipped opts tag = leb udf_start tag && not opts.validate_user_defined_fields

unfoldable pub is_bare : ValidationOptions → Field → Bool
unfolding has_no_value contains
is_bare opts f =
    opts.validate_fields_have_values && (has_no_value f && not (contains reverse_route_tags f.tag))

module _ (crates : Crates) (self : DataDictionary) (opts : ValidationOptions) where
  -- `belongs`.
  unfoldable pub belongs : MessageDef → ℕ → Result Bool ValidationError
  unfolding is_header is_trailer_tag contains_member
  belongs mdef tag = do
    in_header ← is_header self tag
    elim in_header [
      | true ↦ ok true
      | false ↦ ok (is_trailer_tag self tag || contains_member mdef tag)
    ]

  -- A field that the dictionary defines.
  unfoldable pub check_defined : MessageDef → FieldDef → Field → Checked
  unfolding is_envelope check_value belongs
  check_defined mdef def f = do
    elim (opts.check_field_types && not (is_envelope f.tag)) [
      | true ↦ check_value crates self def f
      | false ↦ ok tt
    ]
    is_member ← belongs mdef f.tag
    fail_if (not is_member && not opts.allow_unknown_msg_fields)
        (session tag_not_defined_for_message_type (some f.tag))

  -- One round of the loop over the fields, for a field that is not skipped.
  unfoldable pub check_field : MessageDef → List ℕ → Field → Checked
  unfolding is_counted contains is_bare field_def check_defined
  check_field mdef seen f = do
    fail_if (is_counted opts mdef f.tag && contains seen f.tag)
        (session tag_appears_more_than_once (some f.tag))
    fail_if (is_bare opts f) (session tag_specified_without_value (some f.tag))
    elim (field_def self f.tag) [
      | none ↦ fail_if (not opts.allow_unknown_msg_fields) (session invalid_tag_number (some f.tag))
      | some def ↦ check_defined mdef def f
    ]

  -- The loop, with the set `seen_once`.
  unfoldable pub check_fields : MessageDef → List ℕ → List Field → Checked
  unfolding is_skipped seen_after check_field
  check_fields mdef seen [] = ok tt
  check_fields mdef seen (f ∷ fs) = elim (is_skipped opts f.tag) [
    | true ↦ check_fields mdef seen fs
    | false ↦ do check_field mdef seen f; check_fields mdef (seen_after opts mdef seen f.tag) fs
  ]

  -- The first group of a section with the count tag, where there is one.
  unfoldable pub check_structured : FieldMap → ℕ → Checked
  unfolding find_structured_group_with_next validate_structured_group
  check_structured section count_tag = elim (find_structured_group_with_next section count_tag) [
    | none ↦ ok tt
    | some (es, declared, next) ↦
        validate_structured_group crates self opts es declared next count_tag
  ]

  unfoldable pub check_all_structured : Message → BTreeMap GroupDef → Checked
  unfolding check_structured
  check_all_structured message [] = ok tt
  check_all_structured message ((count_tag, gdef) ∷ groups) = do
    check_structured message.header count_tag
    check_structured message.body count_tag
    check_all_structured message groups

  unfoldable pub check_flat : FieldMap → Checked
  unfolding fields validate_flat_groups
  check_flat section =
      validate_flat_groups crates self opts (length (fields section)) (fields section)

  unfoldable pub validate_groups : Message → Checked
  unfolding check_all_structured check_flat
  validate_groups message = do
    check_all_structured message self.groups
    check_flat message.header
    check_flat message.body

-- `present_in` and `present`: a field or a group with the tag.
unfoldable pub present_in : FieldMap → ℕ → Bool
unfolding member_tag
present_in end tag = false
present_in (member m ms) tag = member_tag m == tag || present_in ms tag

unfoldable pub present : Message → ℕ → Bool
unfolding present_in
present message tag =
    present_in message.header tag || (present_in message.body tag || present_in message.trailer tag)

unfoldable pub check_required : Message → List ℕ → Checked
unfolding present
check_required message [] = ok tt
check_required message (tag ∷ tags) = do
  fail_if (not (present message tag)) (session required_tag_missing (some tag))
  check_required message tags

unfoldable pub check_all_required : ValidationOptions → MessageDef → Message → Checked
unfolding check_required
check_all_required opts mdef message = elim (opts.check_required_fields) [
  | false ↦ ok tt
  | true ↦ do
    check_required message mdef.required
    elim (opts.check_required_envelope_fields) [
      | false ↦ ok tt
      | true ↦
          check_required message header_required_tags
          >> check_required message trailer_required_tags
    ]
]

-- The header's fields, then the body's, then the trailer's.
unfoldable pub all_fields : Message → List Field
unfolding fields
all_fields message = fields message.header ++ fields message.body ++ fields message.trailer

module _ (crates : Crates) (self : DataDictionary) (opts : ValidationOptions) where
  -- What follows once the message's definition is known.
  unfoldable pub validate_against : Message → MessageDef → Checked
  unfolding check_fields all_fields validate_groups check_all_required
  validate_against message mdef = do
    check_fields crates self opts mdef [] (all_fields message)
    elim (opts.check_groups) [ true ↦ validate_groups crates self opts message | false ↦ ok tt ]
    check_all_required opts mdef message

  -- All checks of a message, when the master switch is on.
  unfoldable pub validate_message : Message → Checked
  unfolding version_differs check_poss_dup msg_type message_def validate_against
  validate_message message = do
    fail_if (version_differs self message) (session value_is_incorrect (some 8))
    fail_if (opts.validate_fields_out_of_order && message.fields_out_of_order)
        (session tag_out_of_required_order none)
    check_poss_dup opts message
    type_text ← ok_or (msg_type message) (session invalid_msg_type (some 35))
    mdef ← ok_or (message_def self type_text) (business invalid_msg_type (some 35))
    validate_against message mdef

  unfoldable pub validate : Message → Checked
  unfolding validate_message
  validate message = elim (opts.validate_incoming_message) [
    | false ↦ ok tt
    | true ↦ validate_message message
  ]
