-- ===== src/Dict/Structured/Good.antt =====
-- What a good structured group is, said without the order of the checks.
use truefix.Base.{ℕ, ◌≤◌, ◌≡◌, true, List, [], ◌∷◌, Option, none, some, All}
use truefix.Base.Int.{ℤ, pos}
use truefix.Core.FieldMap.{FieldMap, Entries, end, member, field, group, nil, cons, count_entries}
use truefix.Dict.Model.{DataDictionary, GroupDef, ValidationOptions, group_def}
use truefix.Dict.Structured.{position, present_in_structured_entry, member_tag}

-- The places in the group's definition of the members that it lists.
unfoldable pub positions : GroupDef → FieldMap → List ℕ
unfolding position member_tag
positions gdef end = []
positions gdef (member m ms) = elim (position gdef.members (member_tag m)) [
  | none ↦ positions gdef ms
  | some i ↦ i ∷ positions gdef ms
]

unfoldable pub IsAscending : ℕ → List ℕ → Type 0
IsAscending low [] = Unit
IsAscending low (i ∷ is) = (low ≤ i) × IsAscending i is

-- The count on the wire, where there is one.
unfoldable pub IsCount : Option ℤ → ℕ → Type 0
IsCount none count = Unit
IsCount (some n) count = n ≡ pos count

module _ (self : DataDictionary) (opts : ValidationOptions) where
  unfoldable mutual
    -- The entries of a group: each lists its members in the order of the definition and has the
    -- required ones, where these are checked; and the groups in it are good.
    pub AreGoodEntries : GroupDef → Entries → Type 0
    AreGoodEntries gdef nil = Unit
    AreGoodEntries gdef (cons e es) =
        (opts.validate_unordered_group_fields ≡ true → IsAscending 0 (positions gdef e))
        × (opts.check_required_fields ≡ true
            → All (λ tag. present_in_structured_entry self e tag ≡ true) gdef.required)
        × HasGoodGroups gdef e
        × AreGoodEntries gdef es

    -- The groups of an entry that its definition lists and the dictionary defines have their counts
    -- and good entries.
    pub HasGoodGroups : GroupDef → FieldMap → Type 0
    HasGoodGroups gdef end = Unit
    HasGoodGroups gdef (member (field f) ms) = HasGoodGroups gdef ms
    HasGoodGroups gdef (member (group ct es d) ms) =
        ((i : ℕ) (g : GroupDef)
          → position gdef.members ct ≡ some i
          → group_def self ct ≡ some g
          → IsCount d (count_entries es) × AreGoodEntries g es)
        × HasGoodGroups gdef ms
