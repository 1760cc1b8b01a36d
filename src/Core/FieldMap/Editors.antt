-- ===== src/Core/FieldMap/Editors.antt =====
-- What the group editors of field_map.rs write, and what they leave (crates/truefix-core/src).
use truefix.Base.{
  ℕ, zero, suc, ◌≤◌, ◌≡◌, refl, true, none, some, ◌==◌, ltb, if◌then◌else◌, arith, ◌&&◌, ap, ◌∙◌,
  ◌⊎◌, inl, inr, Option, Bool-cases,
}
use truefix.Base.Int.{ℤ}
use truefix.Core.FieldMap.{
  FieldMap, Member, Entries, end, member, field, group, nil, cons, is_some, group_entries,
  get_group, replace_group, remove_group, entry_at, set_entry, remove_entry, count_entries,
}

entry_at-set_entry :
    (es : Entries) (i j : ℕ) (e : FieldMap)
    → entry_at (set_entry es i e) j
      ≡ (if i == j then (if ltb i (count_entries es) then some e else none) else entry_at es j)
unfolding entry_at set_entry
entry_at-set_entry nil i j e = ground arith
entry_at-set_entry (cons f es) zero zero e = ground arith
entry_at-set_entry (cons f es) zero (suc j) e = ground arith
entry_at-set_entry (cons f es) (suc i) zero e = ground arith
entry_at-set_entry (cons f es) (suc i) (suc j) e = ground (arith, entry_at-set_entry es i j e)

entry_at-remove_entry :
    (es : Entries) (i j : ℕ)
    → entry_at (remove_entry es i) j ≡ (if ltb j i then entry_at es j else entry_at es (suc j))
unfolding entry_at remove_entry
entry_at-remove_entry nil i j = ground arith
entry_at-remove_entry (cons f es) zero j = ground arith
entry_at-remove_entry (cons f es) (suc i) zero = ground arith
entry_at-remove_entry (cons f es) (suc i) (suc j) = ground (arith, entry_at-remove_entry es i j)

entry_at-eq_none : (es : Entries) (i : ℕ) → count_entries es ≤ i → entry_at es i ≡ none
unfolding entry_at
entry_at-eq_none nil i h = refl
entry_at-eq_none (cons e es) zero h = absurd (omega arith)
entry_at-eq_none (cons e es) (suc i) h = entry_at-eq_none es i (omega arith)

entry_at-lt : (es : Entries) (i : ℕ) → is_some (entry_at es i) ≡ ltb i (count_entries es)
unfolding entry_at
entry_at-lt nil i = ground arith
entry_at-lt (cons e es) zero = ground arith
entry_at-lt (cons e es) (suc i) = ground (arith, entry_at-lt es i)

count_entries-set_entry :
    (es : Entries) (i : ℕ) (e : FieldMap) → count_entries (set_entry es i e) ≡ count_entries es
unfolding set_entry
count_entries-set_entry nil i e = refl
count_entries-set_entry (cons f es) zero e = refl
count_entries-set_entry (cons f es) (suc i) e = ap suc (count_entries-set_entry es i e)

-- The members of two maps, one behind the other.
unfoldable pub join : FieldMap → FieldMap → FieldMap
join end ns = ns
join (member m ms) ns = member m (join ms ns)

-- `out` is `ms` with the entry `i` of its first group with the tag written, if there is one.
unfoldable pub WritesEntry : FieldMap → ℕ → ℕ → FieldMap → FieldMap → Type 0
unfolding group_entries entry_at
WritesEntry ms c i e out =
    ((group_entries ms c ≡ none) × (out ≡ ms))
    ⊎ ((before : FieldMap) × (es : Entries) × (es' : Entries) × (d : Option ℤ) × (after : FieldMap)
        × (ms ≡ join before (member (group c es d) after))
        × (group_entries before c ≡ none)
        × (out ≡ join before (member (group c es' d) after))
        × (count_entries es' ≡ count_entries es)
        × ((j : ℕ)
            → entry_at es' j ≡ (
                if i == j
                then (if ltb i (count_entries es) then some e else none)
                else entry_at es j)))

WritesEntry-member :
    (m : Member) (ms out e : FieldMap) (c i : ℕ)
    → ((ns : FieldMap) → group_entries (member m ns) c ≡ group_entries ns c)
    → WritesEntry ms c i e out
    → WritesEntry (member m ms) c i e (member m out)
unfolding WritesEntry join
WritesEntry-member m ms out e c i other (inl (lacks, same)) =
    inl (other ms ∙ lacks, ap (member m) same)
WritesEntry-member m ms out e c i other (inr (before, es, es', d, after, h, lacks, r, k, at)) =
    inr (
      member m before,
      es,
      es',
      d,
      after,
      ap (member m) h,
      other before ∙ lacks,
      ap (member m) r,
      k,
      at,
    )

-- `replace_group` leaves a map without a group of the tag as it is. In any other map it changes the
-- first group with the tag: all members before and behind it stay, and so do its declared count and
-- its number of entries; the entry with the index is the new one, if the index is in range, and every
-- other entry stays.
pub replace_group_lem :
    (ms : FieldMap) (c i : ℕ) (e : FieldMap) → WritesEntry ms c i e (replace_group ms c i e)
unfolding replace_group
replace_group_lem end c i e = unfold WritesEntry group_entries in inl (refl, refl)
replace_group_lem (member (field f) ms) c i e =
    WritesEntry-member (field f) ms (replace_group ms c i e) e c i
      (λ ns. unfold group_entries in refl) (replace_group_lem ms c i e)
replace_group_lem (member (group ct es d) ms) c i e = elim (Bool-cases (ct == c)) [
  | inl same ↦
      unfold WritesEntry join group_entries in
      inr (
        end,
        es,
        set_entry es i e,
        d,
        ms,
        ap (λ t. member (group t es d) ms) (tag_eq same),
        refl,
        rw same (ap (λ t. member (group t (set_entry es i e) d) ms) (tag_eq same)),
        count_entries-set_entry es i e,
        λ j. entry_at-set_entry es i j e,
      )
  | inr apart ↦
      rw (replace_group, apart)
        (WritesEntry-member (group ct es d) ms (replace_group ms c i e) e c i
          (λ ns. unfold group_entries in rw apart refl) (replace_group_lem ms c i e))
]
  where
    tag_eq : (ct == c) ≡ true → ct ≡ c
    tag_eq h = ground arith

-- `remove_group` takes out the one entry it names and shifts the later ones down; with an index out
-- of range, and for the groups of another tag, every entry stays.
pub get_group-remove_group :
    (ms : FieldMap) (c c' i j : ℕ)
    → get_group (remove_group ms c i) c' j ≡ (
        if (c == c') && is_some (get_group ms c i)
        then (if ltb j i then get_group ms c j else get_group ms c (suc j))
        else get_group ms c' j)
unfolding get_group remove_group group_entries
get_group-remove_group end c c' i j = ground arith
get_group-remove_group (member (field f) ms) c c' i j = get_group-remove_group ms c c' i j
get_group-remove_group (member (group ct es d) ms) c c' i j = ground (
  arith,
  get_group-remove_group ms c c' i j,
  entry_at-remove_entry es i j,
  entry_at-lt es i,
  entry_at-eq_none es i,
)
