-- ===== src/Core/Groups/Examples.antt =====
-- The theorems on groups and on field maps at an order with two parties (crates/truefix-core/src).
use truefix.Base.{
  ℕ, ◌≡◌, ◌≢◌, refl, false, [], ◌∷◌, ◌++◌, none, some, Bytes, codes, ok, stuck, inl, inr, ◌==◌,
  if◌then◌else◌, contains,
}
use truefix.Base.Int.{pos}
use truefix.Text.Utf8.{from_utf8}
use truefix.Text.Decimal.{parse_usize, parse_u32, parse_i64, to_string_signed, is_digit}
use truefix.Core.Tags.{section_of, is_header, is_trailer, data_field_for_length}
use truefix.Core.FieldMap.{
  FieldMap, Field, end, member, field, group, nil, cons, get, set, get_group, replace_group,
  remove_group, add_field, add_group, add_entry, new_group,
}
use truefix.Core.FieldMap.Laws.{set_lem, count_tag}
use truefix.Core.FieldMap.Editors.{replace_group_lem, WritesEntry, get_group-remove_group}
use truefix.Core.Message.{Message, new_message, reverse_route}
use truefix.Core.Message.Routing.{reverse_route_lem, value_of}
use truefix.Core.Encode.{checksum_of, render_members}
use truefix.Core.Encode.Wire.{wire_fields}
use truefix.Core.Decode.{
  decode, tokenize, tokenize_validated, memchr, take_pending, read_value, check_terminator,
  next_pending, validate, first_is_begin_string, declared_body_length, has_tag, declared_checksum,
  all_digits, actual_body_length, body_start_of, decode_loop,
}
use truefix.Core.Groups.{GroupSpec, decode_with_groups, restructure_groups, group_sections}
use truefix.Core.Groups.Total.{decode_with_groups-ne-stuck}
use truefix.Core.Groups.Agreement.{decode_with_groups_agrees, restructure_groups_keeps}

abbrev fld : ℕ → Bytes → Field
fld t v = record { tag = t; value = v }

-- NoPartyIDs, led by PartyID, with PartyIDSource.
abbrev parties : GroupSpec
parties t = if t == 453 then some (448, 448 ∷ 447 ∷ []) else none

abbrev order_bytes : Bytes
order_bytes =
    codes "8=FIX.4.2"
    ++ 1
      ∷ (codes "9=34"
          ++ 1
            ∷ (codes "35=D"
                ++ 1
                  ∷ (codes "453=2"
                      ++ 1
                        ∷ (codes "448=A"
                            ++ 1
                              ∷ (codes "447=B"
                                  ++ 1
                                    ∷ (codes "448=C"
                                        ++ 1
                                          ∷ (codes "58=x" ++ 1 ∷ (codes "10=117" ++ 1 ∷ []))))))))

abbrev order_header : FieldMap
order_header =
    member (field (fld 8 (codes "FIX.4.2")))
      (member (field (fld 9 (codes "34"))) (member (field (fld 35 (codes "D"))) end))

abbrev order_trailer : FieldMap
order_trailer = member (field (fld 10 (codes "117"))) end

abbrev flat_body : FieldMap
flat_body = member (field (fld 453 (codes "2"))) (
    member (field (fld 448 (codes "A"))) (
      member (field (fld 447 (codes "B")))
        (member (field (fld 448 (codes "C"))) (member (field (fld 58 (codes "x"))) end))))

abbrev grouped_body : FieldMap
grouped_body =
    member
      (group 453
        (cons (member (field (fld 448 (codes "A"))) (member (field (fld 447 (codes "B"))) end))
          (cons (member (field (fld 448 (codes "C"))) end) nil))
        (some (pos 2)))
      (member (field (fld 58 (codes "x"))) end)

abbrev flat_order : Message
flat_order = record {
  header = order_header;
  body = flat_body;
  trailer = order_trailer;
  fields_out_of_order = false;
}

abbrev grouped_order : Message
grouped_order = record {
  header = order_header;
  body = grouped_body;
  trailer = order_trailer;
  fields_out_of_order = false;
}

decode_order : decode order_bytes ≡ ok flat_order
unfolding decode tokenize_validated tokenize memchr parse_u32 from_utf8 take_pending read_value
    check_terminator next_pending data_field_for_length parse_usize validate first_is_begin_string
    declared_body_length has_tag declared_checksum all_digits is_digit actual_body_length
    body_start_of checksum_of decode_loop section_of is_header is_trailer add_field
decode_order = refl

group_order : decode_with_groups order_bytes parties ≡ ok grouped_order
unfolding decode_with_groups tokenize_validated tokenize memchr parse_u32 from_utf8 take_pending
    read_value check_terminator next_pending data_field_for_length parse_usize validate
    first_is_begin_string declared_body_length has_tag declared_checksum all_digits is_digit
    actual_body_length body_start_of checksum_of group_sections section_of is_header is_trailer
    add_field add_group add_entry new_group contains parse_i64
group_order = refl

restructure_order : restructure_groups flat_body parties ≡ ok grouped_body
unfolding restructure_groups from_utf8 add_field add_group add_entry new_group contains parse_i64
restructure_order = refl

decode_with_groups_agrees_example :
    (false ≡ false)
    × (wire_fields order_header [] ≡ wire_fields order_header [])
    × (wire_fields grouped_body [] ≡ wire_fields flat_body [])
    × (wire_fields order_trailer [] ≡ wire_fields order_trailer [])
unfolding wire_fields contains parse_i64 from_utf8 to_string_signed
decode_with_groups_agrees_example =
    decode_with_groups_agrees order_bytes parties grouped_order flat_order decode_order group_order
      (inl refl, (inl refl, (inl refl, tt)))
      (inr (pos 2, refl, refl), (inl refl, (inl refl, (inl refl, (inl refl, tt))))) (inl refl, tt)

restructure_groups_keeps_example : render_members grouped_body [] ≡ render_members flat_body []
unfolding wire_fields contains parse_i64 from_utf8 to_string_signed
restructure_groups_keeps_example =
    restructure_groups_keeps flat_body grouped_body parties
      (inr (pos 2, refl, refl), (inl refl, (inl refl, (inl refl, (inl refl, tt)))))
      restructure_order

decode_with_groups-ne-stuck_example :
    (decode_with_groups order_bytes parties ≢ stuck)
    × (restructure_groups flat_body parties ≢ stuck)
decode_with_groups-ne-stuck_example = decode_with_groups-ne-stuck order_bytes flat_body parties

set_lem_example :
    (get (set flat_body (fld 448 (codes "Z"))) 448 ≡ some (fld 448 (codes "Z")))
    × (count_tag 448 (set flat_body (fld 448 (codes "Z"))) ≡ 1)
set_lem_example = set_lem flat_body (fld 448 (codes "Z")) 448

replace_group_lem_example :
    WritesEntry grouped_body 453 1 end (replace_group grouped_body 453 1 end)
replace_group_lem_example = replace_group_lem grouped_body 453 1 end

get_group-remove_group_example :
    get_group (remove_group grouped_body 453 0) 453 0 ≡ get_group grouped_body 453 1
unfolding get_group
get_group-remove_group_example = get_group-remove_group grouped_body 453 453 0 0

abbrev routed : Message
routed = record new_message { header = member (field (fld 115 (codes "DESK"))) end }

reverse_route_lem_example :
    value_of (reverse_route new_message routed).header 128 ≡ some (codes "DESK")
unfolding get
reverse_route_lem_example = reverse_route_lem new_message routed 128
