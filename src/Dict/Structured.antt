-- ===== src/Dict/Structured.antt =====
-- `validate_structured_group` and `present_in_structured_entry` of
-- crates/truefix-dict/src/validate.rs: the groups that the decoder has put together.
pub mod Total
pub mod Good
pub mod Sound
use truefix.Base.{
  ℕ, zero, suc, ◌+◌, ◌-◌, ◌^◌, ◌≡◌, refl, Bool, true, false, not, ◌&&◌, ◌||◌, List, [], ◌∷◌, Option,
  none, some, contains, ltb, ◌==◌, if◌then◌else◌, Result, ok, err, ◌>>◌, ◌>>=◌, fail_if,
}
use truefix.Base.Int.{ℤ, pos, negsuc}
use truefix.Core.FieldMap.{
  FieldMap, Field, Member, Entries, end, member, field, group, nil, cons, count_entries, get,
  group_entries, is_some,
}
use truefix.Core.Times.{Crates}
use truefix.Dict.Model.{
  DataDictionary, GroupDef, ValidationOptions, ValidationError, group_def, is_group_count, session,
  repeating_group_fields_out_of_order, incorrect_num_in_group_count, required_tag_missing,
}
use truefix.Dict.Fields.{Checked, check_group_field_value}

-- The tag of a member: a group's is its count tag.
unfoldable pub member_tag : Member → ℕ
member_tag (field f) = f.tag
member_tag (group c es d) = c

unfoldable pub first_member : FieldMap → Option Member
first_member end = none
first_member (member m ms) = some m

-- `find_structured_group_with_next`: the first group with the count tag, and what follows it.
unfoldable pub find_structured_group_with_next :
    FieldMap → ℕ → Option (Entries × Option ℤ × Option Member)
unfolding first_member
find_structured_group_with_next end c = none
find_structured_group_with_next (member (field f) ms) c = find_structured_group_with_next ms c
find_structured_group_with_next (member (group ct es d) ms) c =
    let rest = find_structured_group_with_next ms c in
    if ct == c then some (es, d, first_member ms) else rest

-- `members.iter().position(|&m| m == tag)`.
unfoldable pub position : List ℕ → ℕ → Option ℕ
position [] tag = none
position (m ∷ ms) tag =
    let rest = position ms tag in
    if m == tag then some 0 else elim rest [ none ↦ none | some i ↦ some (suc i) ]

unfoldable pub is_count : ℤ → ℕ → Bool
is_count (pos n) count = n == count
is_count (negsuc n) count = false

-- `declared as usize`: a negative number wraps round.
unfoldable pub as_usize : ℤ → ℕ
as_usize (pos n) = n
as_usize (negsuc n) = 2 ^ 64 - 1 - n

-- What stands behind a group that is too short is a member of the group's entries.
unfoldable pub lacks_delimiter : GroupDef → ℤ → ℕ → Option Member → Bool
unfolding as_usize member_tag contains
lacks_delimiter gdef declared count none = false
lacks_delimiter gdef declared count (some next) =
    ltb count (as_usize declared) && contains gdef.members (member_tag next)

unfoldable pub check_declared_count :
    ValidationOptions → GroupDef → ℕ → Option ℤ → ℕ → Option Member → Checked
unfolding is_count lacks_delimiter
check_declared_count opts gdef count_tag none count next = ok tt
check_declared_count opts gdef count_tag (some declared) count next =
    elim (is_count declared count) [
      | true ↦ ok tt
      | false ↦
          fail_if
            (opts.first_field_in_group_is_delimiter && lacks_delimiter gdef declared count next)
            (session repeating_group_fields_out_of_order (some gdef.delimiter))
          >> err (session incorrect_num_in_group_count (some count_tag))
    ]

unfoldable pub has_entries : Option Entries → Bool
has_entries (some (cons e es)) = true
has_entries _ = false

unfoldable pub present_in_structured_entry : DataDictionary → FieldMap → ℕ → Bool
unfolding is_group_count get has_entries group_entries
present_in_structured_entry self entry tag = elim (is_group_count self tag) [
  | true ↦ has_entries (group_entries entry tag)
  | false ↦ is_some (get entry tag)
]

-- The loop over the required tags of an entry.
unfoldable pub check_entry_required : DataDictionary → FieldMap → List ℕ → Checked
unfolding present_in_structured_entry
check_entry_required self entry [] = ok tt
check_entry_required self entry (tag ∷ tags) = do
  fail_if (not (present_in_structured_entry self entry tag))
      (session required_tag_missing (some tag))
  check_entry_required self entry tags

-- `Option::or` of the member behind and the one behind the enclosing group.
unfoldable pub or_next : Option Member → Option Member → Option Member
or_next (some m) next = some m
or_next none next = next

-- A field of an entry is looked at when one of the two options is on.
unfoldable pub check_member_field :
    Crates → DataDictionary → ValidationOptions → GroupDef → Field → Checked
unfolding check_group_field_value
check_member_field crates self opts gdef f =
    elim (opts.check_field_types || opts.validate_fields_have_values) [
      | true ↦ check_group_field_value crates self opts gdef f
      | false ↦ ok tt
    ]

unfoldable pub check_order : ValidationOptions → ℕ → ℕ → ℕ → Checked
check_order opts idx last_idx tag =
    fail_if (opts.validate_unordered_group_fields && ltb idx last_idx)
      (session repeating_group_fields_out_of_order (some tag))

unfoldable pub check_required_in :
    DataDictionary → ValidationOptions → GroupDef → FieldMap → Checked
unfolding check_entry_required
check_required_in self opts gdef entry = elim (opts.check_required_fields) [
  | true ↦ check_entry_required self entry gdef.required
  | false ↦ ok tt
]

module _ (crates : Crates) (self : DataDictionary) (opts : ValidationOptions) where
  -- What is checked of a whole group; the loop over its entries follows. A group that the dictionary
  -- does not define is not looked at.
  unfoldable pub enter_group : Option ℤ → ℕ → Option Member → ℕ → (GroupDef → Checked) → Checked
  unfolding group_def check_declared_count
  enter_group declared count next count_tag each = elim (group_def self count_tag) [
    | none ↦ ok tt
    | some gdef ↦ check_declared_count opts gdef count_tag declared count next >> each gdef
  ]

  unfoldable mutual
    unfolding enter_group check_required_in position check_order check_member_field or_next
        first_member

    pub validate_entries : Entries → GroupDef → Option Member → Checked
    validate_entries nil gdef next = ok tt
    validate_entries (cons e es) gdef next = do
      validate_members e gdef 0 next
      check_required_in self opts gdef e
      validate_entries es gdef next

    -- The members of one entry, from the index of the one before on. A tag that the group does not
    -- list is passed over.
    pub validate_members : FieldMap → GroupDef → ℕ → Option Member → Checked
    validate_members end gdef last_idx next = ok tt
    validate_members (member (field f) ms) gdef last_idx next = elim (position gdef.members f.tag) [
      | none ↦ validate_members ms gdef last_idx next
      | some idx ↦
          check_order opts idx last_idx f.tag
          >> (check_member_field crates self opts gdef f >> validate_members ms gdef idx next)
    ]
    validate_members (member (group ct es d) ms) gdef last_idx next =
        elim (position gdef.members ct) [
          | none ↦ validate_members ms gdef last_idx next
          | some idx ↦
              check_order opts idx last_idx ct
              >> (enter_group d (count_entries es) (or_next (first_member ms) next) ct
                    (λ nested. validate_entries es nested (or_next (first_member ms) next))
                  >> validate_members ms gdef idx next)
        ]

  unfoldable pub validate_structured_group : Entries → Option ℤ → Option Member → ℕ → Checked
  unfolding enter_group validate_entries
  validate_structured_group es declared next count_tag =
      enter_group declared (count_entries es) next count_tag λ gdef. validate_entries es gdef next
