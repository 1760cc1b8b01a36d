-- ===== src/Dict/Header.antt =====
-- `is_header` of crates/truefix-dict/src/model.rs. The search goes down through the groups in groups
-- with no guard against a group that contains itself, so it is on fuel. The number of the groups and
-- one more is enough when no group contains itself.
pub mod Ranked
pub mod Found
use truefix.Base.{
  ℕ, zero, suc, ◌≡◌, refl, Bool, true, false, List, [], ◌∷◌, none, some, length, contains, Result,
  ok, err, stuck, ◌>>=◌,
}
use truefix.Dict.Model.{DataDictionary, GroupDef, ValidationError, group_def}

-- `iter().any`, with a test that may not return.
unfoldable pub any_of : (ℕ → Result Bool ValidationError) → List ℕ → Result Bool ValidationError
any_of test [] = ok false
any_of test (x ∷ xs) = do found ← test x; elim found [ true ↦ ok true | false ↦ any_of test xs ]

unfoldable pub group_contains_member_transitively :
    ℕ → DataDictionary → ℕ → ℕ → Result Bool ValidationError
unfolding group_def any_of
group_contains_member_transitively zero self tag count_tag = stuck
group_contains_member_transitively (suc fuel) self tag count_tag = elim (group_def self count_tag) [
  | none ↦ ok false
  | some g ↦ elim (contains g.members tag) [
    | true ↦ ok true
    | false ↦ any_of (group_contains_member_transitively fuel self tag) g.members
  ]
]

abbrev pub depth : DataDictionary → ℕ
depth self = suc (length self.groups)

unfoldable pub is_header : DataDictionary → ℕ → Result Bool ValidationError
unfolding group_contains_member_transitively
is_header self tag = elim (contains self.header tag) [
  | true ↦ ok true
  | false ↦ any_of (group_contains_member_transitively (depth self) self tag) self.header
]
