-- ===== src/Dict/Structured/Sound.antt =====
-- What holds of a group that `validate_structured_group` accepts, at every level of nesting.
use truefix.Base.{
  ℕ, ◌≤◌, ◌≡◌, refl, Bool, true, false, not, ◌&&◌, List, [], ◌∷◌, Option, none, some, ltb, ok, err,
  ◌>>◌, inl, inr, ◌⊎◌, All, arith, fail_if, ap, subst,
}
use truefix.Base.Int.{ℤ, pos, negsuc}
use truefix.Core.FieldMap.{
  FieldMap, Member, Entries, end, member, field, group, nil, cons, count_entries,
}
use truefix.Core.Times.{Crates}
use truefix.Dict.Model.{
  DataDictionary, GroupDef, ValidationOptions, ValidationError, group_def, session,
  incorrect_num_in_group_count, repeating_group_fields_out_of_order,
}
use truefix.Dict.Fields.{Checked}
use truefix.Dict.Passes.{Passes, then_iff, guard_iff, when_iff, not_iff}
use truefix.Dict.Structured.{
  position, is_count, lacks_delimiter, check_declared_count, check_entry_required, check_order,
  present_in_structured_entry, check_required_in, check_member_field, member_tag, or_next,
  first_member, enter_group, validate_entries, validate_members, validate_structured_group,
}
use truefix.Dict.Structured.Good.{positions, IsAscending, IsCount, AreGoodEntries, HasGoodGroups}

is_count-IsCount : (n : ℤ) (count : ℕ) → is_count n count ≡ true → IsCount (some n) count
unfolding is_count IsCount
is_count-IsCount (pos n) count h = ap pos (ground arith)
is_count-IsCount (negsuc n) count h = cc

-- A check that can only pass when its test holds.
holds :
    (b t : Bool) (e1 e2 : ValidationError)
    → Passes (elim b [ true ↦ ok tt | false ↦ fail_if t e1 >> err e2 ])
    → b ≡ true
unfolding Passes
holds true t e1 e2 h = refl
holds false true e1 e2 h = cc
holds false false e1 e2 h = cc

missing : {o : Option ℕ} {i : ℕ} → o ≡ none → o ≡ some i → ⊥
missing n s = cc

not_below : (b : Bool) (i low : ℕ) → b ≡ true → (b && ltb i low) ≡ false → low ≤ i
not_below true i low on h = ground arith
not_below false i low on h = cc

-- A member's place is not below the last one.
check_order_lem :
    (opts : ValidationOptions) (idx last tag : ℕ)
    → Passes (check_order opts idx last tag)
    → opts.validate_unordered_group_fields ≡ true
    → last ≤ idx
unfolding check_order
check_order_lem opts idx last tag h on =
    not_below (opts.validate_unordered_group_fields) idx last on
      ((guard_iff (opts.validate_unordered_group_fields && ltb idx last) _).0 h)

-- The check of an optional part.
listed {ℓ} :
    {B : Type ℓ} (o : Option B) (none_case : Checked) (some_case : B → Checked)
    → Passes (elim o [ none ↦ none_case | some b ↦ some_case b ])
    → ((o ≡ none) × Passes none_case) ⊎ ((b : B) × (o ≡ some b) × Passes (some_case b))
listed none x y h = inl (refl, h)
listed (some b) x y h = inr (b, refl, h)

module _ (crates : Crates) (self : DataDictionary) (opts : ValidationOptions) where
  declared_count_lem :
      (gdef : GroupDef) (tag : ℕ) (declared : Option ℤ) (count : ℕ) (next : Option Member)
      → Passes (check_declared_count opts gdef tag declared count next)
      → IsCount declared count
  unfolding check_declared_count IsCount
  declared_count_lem gdef tag none count next h = tt
  declared_count_lem gdef tag (some n) count next h = is_count-IsCount n count (
      holds (is_count n count)
        (opts.first_field_in_group_is_delimiter && lacks_delimiter gdef n count next)
        (session repeating_group_fields_out_of_order (some gdef.delimiter))
        (session incorrect_num_in_group_count (some tag)) h)

  entry_required_sound :
      (e : FieldMap) (tags : List ℕ)
      → Passes (check_entry_required self e tags)
      → All (λ tag. present_in_structured_entry self e tag ≡ true) tags
  unfolding check_entry_required
  entry_required_sound e [] h = tt
  entry_required_sound e (tag ∷ tags) h =
      let (mine, others) =
        (then_iff (fail_if (not (present_in_structured_entry self e tag)) _) _).0 h in
      (
        (not_iff (present_in_structured_entry self e tag)).0 ((guard_iff _ _).0 mine),
        entry_required_sound e tags others,
      )

  order_sound :
      (gdef : GroupDef) (ms : FieldMap) (last : ℕ) (next : Option Member)
      → opts.validate_unordered_group_fields ≡ true
      → Passes (validate_members crates self opts ms gdef last next)
      → IsAscending last (positions gdef ms)
  unfolding validate_members positions IsAscending member_tag
  order_sound gdef end last next on h = tt
  order_sound gdef (member (field f) ms) last next on h =
      elim (listed (position gdef.members f.tag) _ _ h) [
        | inl (e, rest) ↦ rw (positions, e) (order_sound gdef ms last next on rest)
        | inr (i, e, both) ↦
            let (order, rest) = (then_iff (check_order opts i last f.tag) _).0 both in
            rw (positions, e)
              (
                check_order_lem opts i last f.tag order on,
                order_sound gdef ms i next on
                    ((then_iff (check_member_field crates self opts gdef f) _).0 rest).1,
              )
      ]
  order_sound gdef (member (group ct es d) ms) last next on h =
      elim (listed (position gdef.members ct) _ _ h) [
        | inl (e, rest) ↦ rw (positions, e) (order_sound gdef ms last next on rest)
        | inr (i, e, both) ↦
            let (order, rest) = (then_iff (check_order opts i last ct) _).0 both in
            rw (positions, e)
              (
                check_order_lem opts i last ct order on,
                order_sound gdef ms i next on
                    ((then_iff _ (validate_members crates self opts ms gdef i next)).0 rest).1,
              )
      ]

  -- A group's count and what its entries give, from what holds of the entries.
  enter_sound :
      (P : GroupDef → Type 0) (declared : Option ℤ) (count : ℕ) (next : Option Member) (tag : ℕ)
      (each : GroupDef → Checked)
      → ((g : GroupDef) → Passes (each g) → P g)
      → Passes (enter_group crates self opts declared count next tag each)
      → (g : GroupDef) → group_def self tag ≡ some g
      → IsCount declared count × P g
  unfolding enter_group
  enter_sound P declared count next tag each k h g e = elim (listed (group_def self tag) _ _ h) [
    | inl (n, _) ↦ absurd (apart n e)
    | inr (g', e', both) ↦
        let (counted, entries) =
          (then_iff (check_declared_count opts g' tag declared count next) _).0 both in
        (declared_count_lem g' tag declared count next counted, subst P (same e' e) (k g' entries))
  ]
    where
      apart : {o : Option GroupDef} {g : GroupDef} → o ≡ none → o ≡ some g → ⊥
      apart n s = cc

      same : {o : Option GroupDef} {a b : GroupDef} → o ≡ some a → o ≡ some b → a ≡ b
      same p q = cc

  mutual
    unfolding validate_entries AreGoodEntries check_required_in

    entries_sound :
        (es : Entries) (gdef : GroupDef) (next : Option Member)
        → Passes (validate_entries crates self opts es gdef next)
        → AreGoodEntries self opts gdef es
    entries_sound nil gdef next h = tt
    entries_sound (cons e es) gdef next h =
        let (members, later) = (then_iff (validate_members crates self opts e gdef 0 next) _).0 h in
        let (required, others) = (then_iff (check_required_in self opts gdef e) _).0 later in
        (
          λ on. order_sound gdef e 0 next on members,
          λ on. entry_required_sound e gdef.required (
              (when_iff (opts.check_required_fields) (check_entry_required self e gdef.required)).0
                required on),
          groups_sound e gdef 0 next members,
          entries_sound es gdef next others,
        )

    groups_sound :
        (ms : FieldMap) (gdef : GroupDef) (last : ℕ) (next : Option Member)
        → Passes (validate_members crates self opts ms gdef last next)
        → HasGoodGroups self opts gdef ms
    groups_sound end gdef last next h = tt
    groups_sound (member (field f) ms) gdef last next h =
        elim (listed (position gdef.members f.tag) _ _ h) [
          | inl (e, rest) ↦ groups_sound ms gdef last next rest
          | inr (i, e, both) ↦
              groups_sound ms gdef i next
                ((then_iff (check_member_field crates self opts gdef f) _).0
                  ((then_iff (check_order opts i last f.tag) _).0 both).1).1
        ]
    groups_sound (member (group ct es d) ms) gdef last next h =
        elim (listed (position gdef.members ct) _ _ h) [
          | inl (e, rest) ↦ (λ i g p _. absurd (missing e p), groups_sound ms gdef last next rest)
          | inr (i, e, both) ↦
              let behind = or_next (first_member ms) next in
              let (inner, rest) =
                (then_iff _ (validate_members crates self opts ms gdef i next)).0
                  (((then_iff (check_order opts i last ct) _).0 both).1) in
              (
                λ _ g _.
                    enter_sound (λ g. AreGoodEntries self opts g es) d (count_entries es) behind ct
                      _ (λ g. entries_sound es g behind) inner g,
                groups_sound ms gdef i next rest,
              )
        ]

  -- What an accepted group of a dictionary's definition has, at every level: a declared count that is
  -- the number of its entries, the listed members of an entry in the definition's order, where the
  -- order is checked, and its required tags, where these are checked.
  pub validate_structured_group_sound :
      (es : Entries) (declared : Option ℤ) (next : Option Member) (count_tag : ℕ) (gdef : GroupDef)
      → group_def self count_tag ≡ some gdef
      → validate_structured_group crates self opts es declared next count_tag ≡ ok tt
      → IsCount declared (count_entries es) × AreGoodEntries self opts gdef es
  unfolding validate_structured_group Passes
  validate_structured_group_sound es declared next count_tag gdef defined accepted =
      enter_sound (λ g. AreGoodEntries self opts g es) declared (count_entries es) next count_tag _
        (λ g. entries_sound es g next) accepted gdef defined
