-- ===== src/Dict/Model.antt =====
-- The dictionary and the validation types, of crates/truefix-dict/src/model.rs.
use truefix.Base.{
  ℕ, Bool, true, false, ◌||◌, List, [], ◌∷◌, Option, none, some, Bytes, same_bytes, contains,
  if◌then◌else◌,
}
use truefix.Base.Maps.{BTreeMap, find_key}
use truefix.Core.Groups.{GroupSpec}
use truefix.Core.Tags.{begin_string, body_length, msg_type, check_sum}

-- `FieldType`.
pub data FieldType : Type 0 where
  int length_type seq_num num_in_group float price qty amt percentage char boolean : FieldType
  string data_type utc_timestamp utc_time_only utc_date_only month_year : FieldType
  price_offset local_mkt_date day_of_month utc_date time currency exchange : FieldType
  multiple_value_string multiple_string_value multiple_char_value country : FieldType

-- `FieldDef`; the labels of its values are left out.
pub record FieldDef : Type 0 where
  pub tag : ℕ
  pub name : Bytes
  pub field_type : FieldType
  pub values : List Bytes
  pub open_enum : Bool

-- `BTreeMap<String, _>`: an association list.
abbrev pub StringMap {ℓ} : Type ℓ → Type ℓ
StringMap A = List (Bytes × A)

unfoldable pub find_name {ℓ} : {A : Type ℓ} → StringMap A → Bytes → Option A
find_name [] key = none
find_name ((k, v) ∷ m) key = if same_bytes k key then some v else find_name m key

-- `MessageDef`; `member_tags` also has the tags of the nested groups.
pub record MessageDef : Type 0 where
  pub name : Bytes
  pub required : List ℕ
  pub optional : List ℕ
  pub member_tags : List ℕ

unfoldable pub allows_tag : MessageDef → ℕ → Bool
allows_tag m tag = contains m.required tag || contains m.optional tag

unfoldable pub contains_member : MessageDef → ℕ → Bool
unfolding allows_tag
contains_member m tag = allows_tag m tag || contains m.member_tags tag

-- `GroupDef`. Of the child dictionary only the registry of its fields is kept, which is all that
-- the validation asks of it.
pub record GroupDef : Type 0 where
  pub delimiter : ℕ
  pub members : List ℕ
  pub required : List ℕ
  pub child : Option (BTreeMap FieldDef)

-- `VersionMeta`.
pub record VersionMeta : Type 0 where
  pub major : ℕ
  pub minor : ℕ
  pub service_pack : Option ℕ
  pub extension_pack : Option ℕ

-- `DataDictionary`: the parts that a validation reads.
pub record DataDictionary : Type 0 where
  pub version : Bytes
  pub fields : BTreeMap FieldDef
  pub messages : StringMap MessageDef
  pub header : List ℕ
  pub trailer : List ℕ
  pub groups : BTreeMap GroupDef
  pub version_meta : Option VersionMeta

unfoldable pub field_def : DataDictionary → ℕ → Option FieldDef
field_def self tag = find_key self.fields tag

unfoldable pub message_def : DataDictionary → Bytes → Option MessageDef
message_def self msg_type = find_name self.messages msg_type

unfoldable pub group_def : DataDictionary → ℕ → Option GroupDef
group_def self count_tag = find_key self.groups count_tag

-- `groups.contains_key`.
unfoldable pub is_group_count : DataDictionary → ℕ → Bool
unfolding group_def
is_group_count self tag = elim (group_def self tag) [ none ↦ false | some g ↦ true ]

unfoldable pub is_trailer_tag : DataDictionary → ℕ → Bool
is_trailer_tag self tag = contains self.trailer tag

-- What the group decoder asks of a dictionary.
unfoldable pub group_of : DataDictionary → GroupSpec
unfolding group_def
group_of self count_tag = elim (group_def self count_tag) [
  | none ↦ none
  | some g ↦ some (g.delimiter, g.members)
]

abbrev pub header_required_tags : List ℕ
header_required_tags = begin_string ∷ body_length ∷ msg_type ∷ []

abbrev pub trailer_required_tags : List ℕ
trailer_required_tags = check_sum ∷ []

-- `RejectReason` and its number in SessionRejectReason(373).
pub data RejectReason : Type 0 where
  invalid_tag_number required_tag_missing tag_not_defined_for_message_type : RejectReason
  undefined_tag tag_specified_without_value value_is_incorrect : RejectReason
  incorrect_data_format invalid_msg_type tag_appears_more_than_once : RejectReason
  tag_out_of_required_order repeating_group_fields_out_of_order : RejectReason
  incorrect_num_in_group_count : RejectReason

unfoldable pub code : RejectReason → ℕ
code invalid_tag_number = 0
code required_tag_missing = 1
code tag_not_defined_for_message_type = 2
code undefined_tag = 3
code tag_specified_without_value = 4
code value_is_incorrect = 5
code incorrect_data_format = 6
code invalid_msg_type = 11
code tag_appears_more_than_once = 13
code tag_out_of_required_order = 14
code repeating_group_fields_out_of_order = 15
code incorrect_num_in_group_count = 16

-- `ValidationError`, without its text.
pub record ValidationError : Type 0 where
  pub reason : RejectReason
  pub ref_tag : Option ℕ
  pub business : Bool

abbrev pub session : RejectReason → Option ℕ → ValidationError
session reason ref_tag = record { reason = reason; ref_tag = ref_tag; business = false }

abbrev pub business : RejectReason → Option ℕ → ValidationError
business reason ref_tag = record { reason = reason; ref_tag = ref_tag; business = true }

-- `ValidationOptions`.
pub record ValidationOptions : Type 0 where
  pub validate_fields_have_values : Bool
  pub validate_user_defined_fields : Bool
  pub allow_unknown_msg_fields : Bool
  pub check_required_fields : Bool
  pub check_field_types : Bool
  pub check_groups : Bool
  pub first_field_in_group_is_delimiter : Bool
  pub validate_unordered_group_fields : Bool
  pub check_repeated_tags : Bool
  pub validate_fields_out_of_order : Bool
  pub validate_checksum : Bool
  pub validate_incoming_message : Bool
  pub allow_pos_dup : Bool
  pub requires_orig_sending_time : Bool
  pub check_required_envelope_fields : Bool

abbrev pub default_options : ValidationOptions
default_options = record {
  validate_fields_have_values = true;
  validate_user_defined_fields = false;
  allow_unknown_msg_fields = false;
  check_required_fields = true;
  check_field_types = true;
  check_groups = true;
  first_field_in_group_is_delimiter = true;
  validate_unordered_group_fields = true;
  check_repeated_tags = true;
  validate_fields_out_of_order = false;
  validate_checksum = true;
  validate_incoming_message = true;
  allow_pos_dup = true;
  requires_orig_sending_time = false;
  check_required_envelope_fields = false;
}
