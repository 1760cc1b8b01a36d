-- ===== src/Dict/Structured/Total.antt =====
-- The structured walk always returns, and what it refuses is of the session level.
use truefix.Base.{ℕ, List, [], ◌∷◌, Option, none, some, ◌||◌}
use truefix.Base.Int.{ℤ}
use truefix.Core.FieldMap.{
  FieldMap, Field, Member, Entries, end, member, field, group, nil, cons, count_entries,
}
use truefix.Core.Times.{Crates}
use truefix.Dict.Model.{
  DataDictionary, GroupDef, FieldDef, ValidationOptions, group_def, value_is_incorrect,
}
use truefix.Dict.Outcome.{
  ok-Returns, err-Returns, Returns, guard-Returns, then-Returns, fail_if-Returns,
}
use truefix.Dict.Fields.{
  test_rule, option_rule, Checked, check_value, check_group_field_value, group_field_def,
  is_not_listed,
}
use truefix.Dict.Structured.{
  check_declared_count, is_count, check_entry_required, check_member_field, check_order,
  check_required_in, enter_group, validate_structured_group, validate_entries, validate_members,
  position, or_next, first_member,
}

pub check_value-Returns :
    (crates : Crates) (self : DataDictionary) (def : FieldDef) (f : Field)
    → Returns (check_value crates self def f)
unfolding check_value
check_value-Returns crates self def f =
    guard-Returns _ _ _ _ (fail_if-Returns (is_not_listed def f) value_is_incorrect (some f.tag))

module _ (crates : Crates) (self : DataDictionary) (opts : ValidationOptions) where
  check_group_field_value-Returns :
      (gdef : GroupDef) (f : Field) → Returns (check_group_field_value crates self opts gdef f)
  unfolding check_group_field_value
  check_group_field_value-Returns gdef f = guard-Returns _ _ _ _ (
      test_rule Returns (opts.check_field_types) _ _
        (λ _.
          option_rule Returns (group_field_def self gdef f.tag) _ _ (λ _. ok-Returns tt)
            λ def _. check_value-Returns crates self def f)
        λ _. ok-Returns tt)

  pub check_member_field-Returns :
      (gdef : GroupDef) (f : Field) → Returns (check_member_field crates self opts gdef f)
  unfolding check_member_field
  check_member_field-Returns gdef f =
      test_rule Returns (opts.check_field_types || opts.validate_fields_have_values) _ _
        (λ _. check_group_field_value-Returns gdef f) λ _. ok-Returns tt

  check_entry_required-Returns :
      (entry : FieldMap) (tags : List ℕ) → Returns (check_entry_required self entry tags)
  unfolding check_entry_required
  check_entry_required-Returns entry [] = ok-Returns tt
  check_entry_required-Returns entry (tag ∷ tags) =
      guard-Returns _ _ _ _ (check_entry_required-Returns entry tags)

  check_required_in-Returns :
      (gdef : GroupDef) (entry : FieldMap) → Returns (check_required_in self opts gdef entry)
  unfolding check_required_in
  check_required_in-Returns gdef entry =
      test_rule Returns (opts.check_required_fields) _ _
        (λ _. check_entry_required-Returns entry gdef.required) λ _. ok-Returns tt

  check_declared_count-Returns :
      (gdef : GroupDef) (tag : ℕ) (declared : Option ℤ) (count : ℕ) (next : Option Member)
      → Returns (check_declared_count opts gdef tag declared count next)
  unfolding check_declared_count
  check_declared_count-Returns gdef tag none count next = ok-Returns tt
  check_declared_count-Returns gdef tag (some declared) count next =
      test_rule Returns (is_count declared count) _ _ (λ _. ok-Returns tt)
        λ _. guard-Returns _ _ _ _ (err-Returns _ _)

  enter_group-Returns :
      (declared : Option ℤ) (count : ℕ) (next : Option Member) (tag : ℕ) (each : GroupDef → Checked)
      → ((g : GroupDef) → Returns (each g))
      → Returns (enter_group crates self opts declared count next tag each)
  unfolding enter_group
  enter_group-Returns declared count next tag each h =
      option_rule Returns (group_def self tag) _ _ (λ _. ok-Returns tt)
        λ g _. then-Returns _ _ (check_declared_count-Returns g tag declared count next) (h g)

  mutual
    unfolding validate_entries check_order

    entries-Returns :
        (es : Entries) (gdef : GroupDef) (next : Option Member)
        → Returns (validate_entries crates self opts es gdef next)
    entries-Returns nil gdef next = ok-Returns tt
    entries-Returns (cons e es) gdef next =
        then-Returns _ _ (members-Returns e gdef 0 next)
          (then-Returns _ _ (check_required_in-Returns gdef e) (entries-Returns es gdef next))

    members-Returns :
        (ms : FieldMap) (gdef : GroupDef) (last_idx : ℕ) (next : Option Member)
        → Returns (validate_members crates self opts ms gdef last_idx next)
    members-Returns end gdef last_idx next = ok-Returns tt
    members-Returns (member (field f) ms) gdef last_idx next =
        option_rule Returns (position gdef.members f.tag) _ _
          (λ _. members-Returns ms gdef last_idx next)
          λ idx _. guard-Returns _ _ _ _ (
            then-Returns _ _ (check_member_field-Returns gdef f) (members-Returns ms gdef idx next))
    members-Returns (member (group ct es d) ms) gdef last_idx next =
        option_rule Returns (position gdef.members ct) _ _
          (λ _. members-Returns ms gdef last_idx next)
          λ idx _. guard-Returns _ _ _ _ (
            then-Returns _ _
              (enter_group-Returns d (count_entries es) (or_next (first_member ms) next) ct _
                λ g. entries-Returns es g (or_next (first_member ms) next))
              (members-Returns ms gdef idx next))

  pub validate_structured_group-Returns :
      (es : Entries) (declared : Option ℤ) (next : Option Member) (tag : ℕ)
      → Returns (validate_structured_group crates self opts es declared next tag)
  unfolding validate_structured_group
  validate_structured_group-Returns es declared next tag =
      enter_group-Returns declared (count_entries es) next tag
        (λ gdef. validate_entries crates self opts es gdef next) λ g. entries-Returns es g next
