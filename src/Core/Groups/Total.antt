-- ===== src/Core/Groups/Total.antt =====
-- The loops of the group decoder, case by case, and that they end: the fuel is enough.
use truefix.Base.{
  ℕ, zero, suc, ◌≤◌, ◌≡◌, ◌≢◌, not, List, [], ◌∷◌, none, some, Bytes, length, contains, ◌==◌,
  Result, ok, stuck, ◌>>=◌, ◌||◌, >>=-eq-ok, >>=-ne-stuck, ok-injective, ok-ne-stuck, Bool-cases,
  Option-cases, inl, inr, arith, ap,
}
use truefix.Core.Errors.{DecodeError}
use truefix.Core.FieldMap.{FieldMap, Group, end, add_field, add_group, add_entry, new_group}
use truefix.Core.Decode.{Token}
use truefix.Core.Decode.Total.{tokenize_validated-ne-stuck}
use truefix.Core.Groups.{
  GroupSpec, Nested, field_of, read_entry, read_entries, build_group, section_loop,
  decode_section_with_groups, group_sections, split_sections, decode_with_groups, flatten_to_tokens,
  restructure_groups, max_group_nesting_depth,
}

module _ (nested : Nested) (spec : GroupSpec) (delimiter : ℕ) (members : List ℕ) where
  -- The cases of one round of `read_entry`, for any predicate of its result.
  pub read_entry-cases :
      (P : Result (FieldMap × List Token) DecodeError → Type 0) (fuel : ℕ) (t : Token)
      (ts : List Token) (entry : FieldMap)
      → P (ok (entry, t ∷ ts))
      → ((t.tag ≢ delimiter)
          → spec t.tag ≡ none
          → P (read_entry nested spec delimiter members fuel ts (add_field entry (field_of t))))
      → ((d2 : ℕ) (m2 : List ℕ)
          → (t.tag ≢ delimiter)
          → spec t.tag ≡ some (d2, m2)
          → P (
              nested t.tag d2 m2 (t ∷ ts) >>= λ (sub, rest).
              read_entry nested spec delimiter members fuel rest (add_group entry sub)))
      → P (read_entry nested spec delimiter members (suc fuel) (t ∷ ts) entry)
  unfolding read_entry
  read_entry-cases P fuel t ts entry stop plain inner =
      elim (Bool-cases (t.tag == delimiter || not (contains members t.tag))) [
        | inl e ↦ rw (read_entry, e) stop
        | inr e ↦ elim (Option-cases (spec t.tag)) [
          | inl n ↦ rw (read_entry, e, n) (plain (λ h. ground arith) n)
          | inr ((d2, m2), s) ↦ rw (read_entry, e, s) (inner d2 m2 (λ h. ground arith) s)
        ]
      ]

  pub read_entries-cases :
      (P : Result (Group × List Token) DecodeError → Type 0) (fuel : ℕ) (t : Token)
      (ts : List Token) (g : Group)
      → P (ok (g, t ∷ ts))
      → (t.tag ≡ delimiter
          → P (
              read_entry nested spec delimiter members (length ts) ts (add_field end (field_of t))
              >>= λ (entry, rest).
                  read_entries nested spec delimiter members fuel rest (add_entry g entry)))
      → P (read_entries nested spec delimiter members (suc fuel) (t ∷ ts) g)
  unfolding read_entries
  read_entries-cases P fuel t ts g stop more = elim (Bool-cases (t.tag == delimiter)) [
    | inl e ↦ rw (read_entries, e) (more (ground arith))
    | inr e ↦ rw (read_entries, e) stop
  ]

pub section_loop-cases :
    (spec : GroupSpec) (P : Result FieldMap DecodeError → Type 0) (fuel : ℕ) (t : Token)
    (ts : List Token) (out : FieldMap)
    → (spec t.tag ≡ none → P (section_loop spec fuel ts (add_field out (field_of t))))
    → ((d : ℕ) (m : List ℕ)
        → spec t.tag ≡ some (d, m)
        → P (
            build_group max_group_nesting_depth spec t.tag d m (t ∷ ts) >>= λ (g, rest).
            section_loop spec fuel rest (add_group out g)))
    → P (section_loop spec (suc fuel) (t ∷ ts) out)
unfolding section_loop
section_loop-cases spec P fuel t ts out plain inner = elim (Option-cases (spec t.tag)) [
  | inl n ↦ rw (section_loop, n) (plain n)
  | inr ((d, m), s) ↦ rw (section_loop, s) (inner d m s)
]

-- A reader of groups takes at least the count field, and does not get stuck.
pub record Progresses (nested : Nested) : Type 0 where
  pub shortens :
      (c d : ℕ) (m : List ℕ) (t : Token) (ts rest : List Token) (g : Group)
      → nested c d m (t ∷ ts) ≡ ok (g, rest)
      → length rest ≤ length ts
  pub never_stuck :
      (c d : ℕ) (m : List ℕ) (t : Token) (ts : List Token) → nested c d m (t ∷ ts) ≢ stuck

module _ (nested : Nested) (spec : GroupSpec) (delimiter : ℕ) (members : List ℕ)
    (fine : Progresses nested) where
  pub read_entry_shortens :
      (fuel : ℕ) (ts : List Token) (entry e : FieldMap) (rest : List Token)
      → read_entry nested spec delimiter members fuel ts entry ≡ ok (e, rest)
      → length rest ≤ length ts
  read_entry_shortens fuel [] entry e rest =
      unfold read_entry in λ h. ground (arith, ap (λ x. length x.1) (ok-injective h))
  read_entry_shortens zero (t ∷ ts) entry e rest = unfold read_entry in λ h. cc
  read_entry_shortens (suc fuel) (t ∷ ts) entry e rest =
      read_entry-cases nested spec delimiter members
        (λ r. r ≡ ok (e, rest) → length rest ≤ suc (length ts)) fuel t ts entry
        (λ h. omega (arith, ap (λ x. length x.1) (ok-injective h)))
        (λ _ _ h.
          omega (arith, read_entry_shortens fuel ts (add_field entry (field_of t)) e rest h))
        (λ d2 m2 _ _ h.
          let (r, h1, h2) = >>=-eq-ok (nested t.tag d2 m2 (t ∷ ts)) _ h in
          omega (
            arith,
            fine.shortens t.tag d2 m2 t ts r.1 r.0 h1,
            read_entry_shortens fuel r.1 (add_group entry r.0) e rest h2,
          ))

  read_entry-ne-stuck :
      (fuel : ℕ) (ts : List Token) (entry : FieldMap)
      → length ts ≤ fuel
      → read_entry nested spec delimiter members fuel ts entry ≢ stuck
  read_entry-ne-stuck fuel [] entry enough = unfold read_entry in ok-ne-stuck _
  read_entry-ne-stuck zero (t ∷ ts) entry enough = absurd (omega arith)
  read_entry-ne-stuck (suc fuel) (t ∷ ts) entry enough =
      read_entry-cases nested spec delimiter members (λ r. r ≢ stuck) fuel t ts entry
        (ok-ne-stuck _)
        (λ _ _. read_entry-ne-stuck fuel ts (add_field entry (field_of t)) (omega arith))
        (λ d2 m2 _ _. >>=-ne-stuck _ _ (fine.never_stuck t.tag d2 m2 t ts) λ r h.
          read_entry-ne-stuck fuel r.1 (add_group entry r.0)
            (omega (arith, fine.shortens t.tag d2 m2 t ts r.1 r.0 h)))

  pub read_entries_shortens :
      (fuel : ℕ) (ts : List Token) (g g' : Group) (rest : List Token)
      → read_entries nested spec delimiter members fuel ts g ≡ ok (g', rest)
      → length rest ≤ length ts
  read_entries_shortens fuel [] g g' rest =
      unfold read_entries in λ h. ground (arith, ap (λ x. length x.1) (ok-injective h))
  read_entries_shortens zero (t ∷ ts) g g' rest = unfold read_entries in λ h. cc
  read_entries_shortens (suc fuel) (t ∷ ts) g g' rest =
      read_entries-cases nested spec delimiter members
        (λ r. r ≡ ok (g', rest) → length rest ≤ suc (length ts)) fuel t ts g
        (λ h. omega (arith, ap (λ x. length x.1) (ok-injective h)))
        (λ _ h.
          let (r, h1, h2) =
            >>=-eq-ok
              (read_entry nested spec delimiter members (length ts) ts (add_field end (field_of t)))
              _ h in
          omega (
            arith,
            read_entry_shortens (length ts) ts (add_field end (field_of t)) r.0 r.1 h1,
            read_entries_shortens fuel r.1 (add_entry g r.0) g' rest h2,
          ))

  read_entries-ne-stuck :
      (fuel : ℕ) (ts : List Token) (g : Group)
      → length ts ≤ fuel
      → read_entries nested spec delimiter members fuel ts g ≢ stuck
  read_entries-ne-stuck fuel [] g enough = unfold read_entries in ok-ne-stuck _
  read_entries-ne-stuck zero (t ∷ ts) g enough = absurd (omega arith)
  read_entries-ne-stuck (suc fuel) (t ∷ ts) g enough =
      read_entries-cases nested spec delimiter members (λ r. r ≢ stuck) fuel t ts g (ok-ne-stuck _)
        (λ _.
          >>=-ne-stuck _ _
            (read_entry-ne-stuck (length ts) ts (add_field end (field_of t)) (omega arith))
            λ r h. read_entries-ne-stuck fuel r.1 (add_entry g r.0) (
              omega
                (arith, read_entry_shortens (length ts) ts (add_field end (field_of t)) r.0 r.1 h)))

build_group-Progresses : (room : ℕ) (spec : GroupSpec) → Progresses (build_group room spec)
unfolding build_group
build_group-Progresses zero spec = record {
  shortens = λ c d m t ts rest g h. cc;
  never_stuck = λ c d m t ts h. cc;
}
build_group-Progresses (suc room) spec = record {
  shortens = λ c d m t ts rest g h.
      let (r, h1, h2) =
        >>=-eq-ok (read_entries (build_group room spec) spec d m (suc (length ts)) ts (new_group c))
          _ h in
      rw (← ap (λ x. length x.1) (ok-injective h2)) (
        read_entries_shortens (build_group room spec) spec d m (build_group-Progresses room spec)
          (suc (length ts)) ts (new_group c) r.0 r.1 h1);
  never_stuck = λ c d m t ts.
      >>=-ne-stuck _ _
        (read_entries-ne-stuck (build_group room spec) spec d m (build_group-Progresses room spec)
          (suc (length ts)) ts (new_group c) (omega arith))
        λ r _. ok-ne-stuck _;
}

section_loop-ne-stuck :
    (spec : GroupSpec) (fuel : ℕ) (ts : List Token) (out : FieldMap)
    → length ts ≤ fuel
    → section_loop spec fuel ts out ≢ stuck
section_loop-ne-stuck spec fuel [] out enough = unfold section_loop in ok-ne-stuck _
section_loop-ne-stuck spec zero (t ∷ ts) out enough = absurd (omega arith)
section_loop-ne-stuck spec (suc fuel) (t ∷ ts) out enough =
    let fine = build_group-Progresses max_group_nesting_depth spec in
    section_loop-cases spec (λ r. r ≢ stuck) fuel t ts out
      (λ _. section_loop-ne-stuck spec fuel ts (add_field out (field_of t)) (omega arith))
      (λ d m _. >>=-ne-stuck _ _ (fine.never_stuck t.tag d m t ts) λ r h.
        section_loop-ne-stuck spec fuel r.1 (add_group out r.0)
          (omega (arith, fine.shortens t.tag d m t ts r.1 r.0 h)))

pub decode_section_with_groups-ne-stuck :
    (ts : List Token) (spec : GroupSpec) (out : FieldMap)
    → decode_section_with_groups ts spec out ≢ stuck
unfolding decode_section_with_groups
decode_section_with_groups-ne-stuck ts spec out =
    section_loop-ne-stuck spec (length ts) ts out (omega arith)

group_sections-ne-stuck : (ts : List Token) (spec : GroupSpec) → group_sections ts spec ≢ stuck
unfolding group_sections
group_sections-ne-stuck ts spec =
    >>=-ne-stuck _ _ (decode_section_with_groups-ne-stuck (split_sections ts).0 spec end) λ h _.
      >>=-ne-stuck _ _ (decode_section_with_groups-ne-stuck (split_sections ts).1 spec end) λ b _.
        >>=-ne-stuck _ _ (decode_section_with_groups-ne-stuck (split_sections ts).2 spec end)
          λ t _. ok-ne-stuck _

-- Decoding with groups ends on every input and for every dictionary, and so does restructuring.
pub decode_with_groups-ne-stuck :
    (input : Bytes) (map : FieldMap) (spec : GroupSpec)
    → (decode_with_groups input spec ≢ stuck) × (restructure_groups map spec ≢ stuck)
unfolding decode_with_groups restructure_groups
decode_with_groups-ne-stuck input map spec = (
  >>=-ne-stuck _ _ (tokenize_validated-ne-stuck input) λ ts _. group_sections-ne-stuck ts spec,
  decode_section_with_groups-ne-stuck (flatten_to_tokens map) spec end,
)
