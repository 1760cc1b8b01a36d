-- ===== src/Dict/Flat.antt =====
-- `validate_group` of crates/truefix-dict/src/validate.rs: a group whose fields stand in one sequence
-- with the others. The position of the loops is the list of the fields that are left. Each call takes
-- one unit of fuel and each round consumes a field, so that two units per field are enough.
pub mod Total
use truefix.Base.{
  ℕ, zero, suc, ◌+◌, ◌-◌, ◌*◌, ◌^◌, ◌≡◌, refl, Bool, true, false, not, ◌&&◌, ◌||◌, List, [], ◌∷◌,
  Option, none, drop, some, contains, length, ltb, ◌==◌, if◌then◌else◌, Result, ok, err, stuck,
  ◌>>◌, ◌>>=◌, fail_if, ok_or,
}
use truefix.Base.Int.{ℤ, pos, negsuc}
use truefix.Core.FieldMap.{Field}
use truefix.Core.Times.{Crates, as_int}
use truefix.Dict.Model.{
  DataDictionary, GroupDef, ValidationOptions, ValidationError, group_def, is_group_count, session,
  repeating_group_fields_out_of_order, incorrect_num_in_group_count, required_tag_missing,
  incorrect_data_format,
}
use truefix.Dict.Fields.{Checked, check_group_field_value}
use truefix.Dict.Structured.{position, is_count, check_member_field, check_order}

-- `found < declared`.
unfoldable pub is_below : ℕ → ℤ → Bool
is_below found (pos n) = ltb found n
is_below found (negsuc n) = false

-- A group member where the next entry should start.
unfoldable pub lacks_its_delimiter :
    DataDictionary → ValidationOptions → GroupDef → ℕ → ℤ → ℕ → Bool
unfolding is_below contains is_group_count
lacks_its_delimiter self opts gdef found declared tag =
    opts.first_field_in_group_is_delimiter
    && (is_below found declared && (contains gdef.members tag || is_group_count self tag))

-- The loop over the required tags at the end of an entry.
unfoldable pub check_seen : List ℕ → List ℕ → Checked
unfolding contains
check_seen seen [] = ok tt
check_seen seen (tag ∷ tags) = do
  fail_if (not (contains seen tag)) (session required_tag_missing (some tag))
  check_seen seen tags

unfoldable pub check_entry_end : ValidationOptions → GroupDef → List ℕ → Checked
unfolding check_seen
check_entry_end opts gdef seen = elim (opts.check_required_fields) [
  | true ↦ check_seen seen gdef.required
  | false ↦ ok tt
]

unfoldable pub index_in : GroupDef → ℕ → ℕ
unfolding position
index_in gdef tag = elim (position gdef.members tag) [ none ↦ 2 ^ 64 - 1 | some i ↦ i ]

-- A field that ends an entry: the next delimiter, or one of an enclosing scope.
unfoldable pub ends_entry : GroupDef → ℕ → Bool
unfolding contains
ends_entry gdef tag = tag == gdef.delimiter || not (contains gdef.members tag)

module _ (crates : Crates) (self : DataDictionary) (opts : ValidationOptions) where
  unfoldable mutual
    unfolding group_def as_int is_count check_member_field lacks_its_delimiter check_entry_end
        ends_entry check_order index_in is_group_count

    -- The fields behind the group.
    pub validate_group : ℕ → List Field → ℕ → Result (List Field) ValidationError
    validate_group zero body count_tag = stuck
    validate_group (suc fuel) body count_tag = elim (group_def self count_tag) [
      | none ↦ ok (drop 1 body)
      | some gdef ↦ elim body [
        | [] ↦ err (session incorrect_data_format (some count_tag))
        | f ∷ fs ↦ do
          declared ← ok_or (as_int f) (session incorrect_data_format (some count_tag))
          (found, rest) ← validate_group_entries fuel fs gdef declared 0
          fail_if (not (is_count declared found))
              (session incorrect_num_in_group_count (some count_tag))
          ok rest
      ]
    ]

    -- The loop over the entries: how many there were, and the fields behind them.
    pub validate_group_entries :
        ℕ → List Field → GroupDef → ℤ → ℕ → Result (ℕ × List Field) ValidationError
    validate_group_entries fuel [] gdef declared found = ok (found, [])
    validate_group_entries zero (f ∷ fs) gdef declared found = stuck
    validate_group_entries (suc fuel) (f ∷ fs) gdef declared found =
        elim (f.tag == gdef.delimiter) [
          | false ↦ do
            fail_if (lacks_its_delimiter self opts gdef found declared f.tag)
                (session repeating_group_fields_out_of_order (some gdef.delimiter))
            ok (found, f ∷ fs)
          | true ↦ do
            check_member_field crates self opts gdef f
            rest ← validate_group_members fuel fs gdef 0 (gdef.delimiter ∷ [])
            validate_group_entries fuel rest gdef declared (suc found)
        ]

    -- The loop over the fields of one entry, with the tags that it has seen.
    pub validate_group_members :
        ℕ → List Field → GroupDef → ℕ → List ℕ → Result (List Field) ValidationError
    validate_group_members fuel [] gdef last_idx seen = do check_entry_end opts gdef seen; ok []
    validate_group_members zero (f ∷ fs) gdef last_idx seen = stuck
    validate_group_members (suc fuel) (f ∷ fs) gdef last_idx seen = elim (ends_entry gdef f.tag) [
      | true ↦ do check_entry_end opts gdef seen; ok (f ∷ fs)
      | false ↦ do
        check_order opts (index_in gdef f.tag) last_idx f.tag
        elim (is_group_count self f.tag) [
          | true ↦ do
            rest ← validate_group fuel (f ∷ fs) f.tag
            validate_group_members fuel rest gdef (index_in gdef f.tag) (f.tag ∷ seen)
          | false ↦ do
            check_member_field crates self opts gdef f
            validate_group_members fuel fs gdef (index_in gdef f.tag) (f.tag ∷ seen)
        ]
    ]

  -- The loop of `validate_groups` over the fields of a section.
  unfoldable pub validate_flat_groups : ℕ → List Field → Checked
  unfolding is_group_count validate_group
  validate_flat_groups fuel [] = ok tt
  validate_flat_groups zero (f ∷ fs) = stuck
  validate_flat_groups (suc fuel) (f ∷ fs) = elim (is_group_count self f.tag) [
    | true ↦ do
      rest ← validate_group (2 * length (f ∷ fs)) (f ∷ fs) f.tag
      validate_flat_groups fuel rest
    | false ↦ validate_flat_groups fuel fs
  ]
