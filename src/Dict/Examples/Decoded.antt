-- ===== src/Dict/Examples/Decoded.antt =====
-- A message read from the wire with the groups of the dictionary, and then validated.
use truefix.Base.{ℕ, ◌≡◌, refl, Bytes, codes, contains, [], ◌∷◌, ◌++◌, some, ok}
use truefix.Base.Int.{pos}
use truefix.Base.Maps.{find_key}
use truefix.Core.FieldMap.{
  Member, end, member, field, group, nil, cons, add_field, add_group, add_entry, new_group,
}
use truefix.Core.Message.{Message, new_message}
use truefix.Core.Encode.{checksum_of}
use truefix.Core.Decode.{
  tokenize, tokenize_validated, memchr, take_pending, read_value, check_terminator, next_pending,
  validate, first_is_begin_string, declared_body_length, has_tag, declared_checksum, all_digits,
  actual_body_length, body_start_of,
}
use truefix.Core.Groups.{decode_with_groups, group_sections}
use truefix.Text.Utf8.{from_utf8}
use truefix.Text.Decimal.{parse_i64, parse_u32, parse_usize, is_digit}
use truefix.Core.Tags.{data_field_for_length, section_of, is_header, is_trailer}
use truefix.Dict.Model.{default_options, group_of}
use truefix.Dict.Validate.{check_flat}
use truefix.Dict.Validate.Decoded.{check_flat-decode_with_groups}
use truefix.Dict.Examples.{crates, dict}

abbrev wire : Bytes
wire =
    codes "8=FIX.4.4"
    ++ 1 ∷ codes "9=17"
    ++ 1 ∷ codes "35=D"
    ++ 1 ∷ codes "453=1"
    ++ 1 ∷ codes "448=A"
    ++ 1 ∷ codes "10=020"
    ++ 1 ∷ []

abbrev fld : ℕ → Bytes → Member
fld tag value = field (record { tag = tag; value = value })

abbrev read : Message
read = record new_message {
  header =
      member (fld 8 (codes "FIX.4.4"))
        (member (fld 9 (codes "17")) (member (fld 35 (codes "D")) end));
  body = member (group 453 (cons (member (fld 448 (codes "A")) end) nil) (some (pos 1))) end;
  trailer = member (fld 10 (codes "020")) end;
}

read_wire : decode_with_groups wire (group_of dict) ≡ ok read
unfolding decode_with_groups tokenize_validated tokenize memchr parse_u32 from_utf8 take_pending
    read_value check_terminator next_pending data_field_for_length parse_usize validate
    first_is_begin_string declared_body_length has_tag declared_checksum all_digits is_digit
    actual_body_length body_start_of checksum_of group_sections section_of is_header is_trailer
    add_field add_group add_entry new_group contains parse_i64 group_of find_key
read_wire = refl

check_flat-decode_with_groups_example :
    (check_flat crates dict default_options read.header ≡ ok tt)
    × (check_flat crates dict default_options read.body ≡ ok tt)
check_flat-decode_with_groups_example =
    check_flat-decode_with_groups crates dict default_options wire read read_wire
