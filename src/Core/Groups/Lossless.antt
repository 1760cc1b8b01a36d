-- ===== src/Core/Groups/Lossless.antt =====
-- Grouping loses nothing: the groups spell the fields that they were read from.
use truefix.Base.{
  ℕ, zero, suc, ◌≡◌, ◌≢◌, ◌⊎◌, refl, List, [], ◌∷◌, ◌++◌, map, none, some, Bytes, All, All-right,
  contains, ok, >>=-eq-ok, ok-injective, inl, inr, ap, sym, ◌∙◌, append-nil, append_assoc, length,
  subst,
}
use truefix.Base.Int.{ℤ}
use truefix.Text.Decimal.{parse_i64, to_string_signed}
use truefix.Core.FieldMap.{
  FieldMap, Field, Member, Entries, Group, end, member, field, group, nil, cons, push, push_entry,
  add_field, add_group, add_entry, new_group,
}
use truefix.Core.Encode.{group_count_to_emit}
use truefix.Core.Encode.Wire.{wire_fields, wire_member, wire_entries}
use truefix.Core.Decode.{Token}
use truefix.Core.Groups.{
  GroupSpec, Nested, field_of, read_entry, read_entries, declared_count_of, set_declared_count,
  build_group, section_loop, decode_section_with_groups, max_group_nesting_depth,
}
use truefix.Core.Groups.Total.{read_entry-cases, read_entries-cases, section_loop-cases}

-- A count field of the dictionary holds a number the way it is printed.
abbrev pub CountsCanonical : GroupSpec → List Field → Type 0
CountsCanonical spec = All λ f.
    (spec f.tag ≡ none) ⊎ ((n : ℤ) × (parse_i64 f.value ≡ some n) × (to_string_signed n ≡ f.value))

abbrev pub fields_of : List Token → List Field
fields_of = map field_of

-- The fields of a group: its count, and those of its entries.
abbrev pub group_fields : Group → List Field
group_fields g =
    record { tag = g.count_tag; value = group_count_to_emit g.entries g.declared_count }
    ∷ wire_entries g.entries

wire_fields-push :
    (ms : FieldMap) (m : Member)
    → wire_fields (push ms m) [] ≡ wire_fields ms [] ++ wire_member m []
unfolding push wire_fields
wire_fields-push end m = append-nil (wire_member m [])
wire_fields-push (member n ns) m = rw (wire_fields-push ns m, append_assoc)

pub wire_fields-add_field :
    (ms : FieldMap) (f : Field) → wire_fields (add_field ms f) [] ≡ wire_fields ms [] ++ f ∷ []
unfolding add_field
wire_fields-add_field ms f = wire_fields-push ms (field f) ∙ (unfold wire_fields contains in refl)

pub wire_fields-add_group :
    (ms : FieldMap) (g : Group)
    → wire_fields (add_group ms g) [] ≡ wire_fields ms [] ++ group_fields g
unfolding add_group
wire_fields-add_group ms g =
    wire_fields-push ms (group g.count_tag g.entries g.declared_count)
    ∙ (unfold wire_fields in refl)

wire_fields-first : (f : Field) → wire_fields (add_field end f) [] ≡ f ∷ []
wire_fields-first f = wire_fields-add_field end f ∙ (unfold wire_fields in refl)

wire_entries-push_entry :
    (es : Entries) (e : FieldMap)
    → wire_entries (push_entry es e) ≡ wire_entries es ++ wire_fields e []
unfolding push_entry wire_fields
wire_entries-push_entry nil e = append-nil (wire_fields e [])
wire_entries-push_entry (cons f es) e = rw (wire_entries-push_entry es e, append_assoc)

wire_entries-add_entry :
    (g : Group) (e : FieldMap)
    → wire_entries (add_entry g e).entries ≡ wire_entries g.entries ++ wire_fields e []
unfolding add_entry
wire_entries-add_entry g e = wire_entries-push_entry g.entries e

canonical_rest :
    (spec : GroupSpec) (read : List Field) (rest ts : List Token)
    → read ++ fields_of rest ≡ fields_of ts
    → CountsCanonical spec (fields_of ts)
    → CountsCanonical spec (fields_of rest)
canonical_rest spec read rest ts same h =
    All-right _ read (fields_of rest) (subst (CountsCanonical spec) (sym same) h)

-- A reader of groups spells what it reads.
abbrev pub Keeps : GroupSpec → Nested → Type 0
Keeps spec nested =
    (d : ℕ) (m : List ℕ) (t : Token) (ts rest : List Token) (g : Group)
    → spec t.tag ≢ none
    → CountsCanonical spec (fields_of (t ∷ ts))
    → nested t.tag d m (t ∷ ts) ≡ ok (g, rest)
    → group_fields g ++ fields_of rest ≡ fields_of (t ∷ ts)

module _ (nested : Nested) (spec : GroupSpec) (delimiter : ℕ) (members : List ℕ)
    (keeps : Keeps spec nested) where
  read_entry_keeps :
      (fuel : ℕ) (ts : List Token) (entry e : FieldMap) (rest : List Token)
      → CountsCanonical spec (fields_of ts)
      → read_entry nested spec delimiter members fuel ts entry ≡ ok (e, rest)
      → wire_fields e [] ++ fields_of rest ≡ wire_fields entry [] ++ fields_of ts
  read_entry_keeps fuel [] entry e rest canon =
      unfold read_entry in λ h. sym (ap (λ x. wire_fields x.0 [] ++ fields_of x.1) (ok-injective h))
  read_entry_keeps zero (t ∷ ts) entry e rest canon = unfold read_entry in λ h. cc
  read_entry_keeps (suc fuel) (t ∷ ts) entry e rest (c, canon) =
      read_entry-cases nested spec delimiter members
        (λ r.
          r ≡ ok (e, rest)
          → wire_fields e [] ++ fields_of rest ≡ wire_fields entry [] ++ fields_of (t ∷ ts))
        fuel t ts entry (λ h. sym (ap (λ x. wire_fields x.0 [] ++ fields_of x.1) (ok-injective h)))
        (λ _ _ h.
          read_entry_keeps fuel ts (add_field entry (field_of t)) e rest canon h
          ∙ rw (wire_fields-add_field, append_assoc))
        (λ d2 m2 _ s h.
          let (r, h1, h2) = >>=-eq-ok (nested t.tag d2 m2 (t ∷ ts)) _ h in
          let same = keeps d2 m2 t ts r.1 r.0 (λ n. cc) (c, canon) h1 in
          read_entry_keeps fuel r.1 (add_group entry r.0) e rest
            (canonical_rest spec (group_fields r.0) r.1 (t ∷ ts) same (c, canon)) h2
          ∙ rw (wire_fields-add_group, append_assoc, same))

  read_entries_keeps :
      (fuel : ℕ) (ts : List Token) (g g' : Group) (rest : List Token)
      → CountsCanonical spec (fields_of ts)
      → read_entries nested spec delimiter members fuel ts g ≡ ok (g', rest)
      → (g'.count_tag ≡ g.count_tag)
        × (wire_entries g'.entries ++ fields_of rest ≡ wire_entries g.entries ++ fields_of ts)
  read_entries_keeps fuel [] g g' rest canon =
      unfold read_entries in
      λ h.
        let e = sym (ok-injective h) in
        (ap (λ x. x.0.count_tag) e, ap (λ x. wire_entries x.0.entries ++ fields_of x.1) e)
  read_entries_keeps zero (t ∷ ts) g g' rest canon = unfold read_entries in λ h. cc
  read_entries_keeps (suc fuel) (t ∷ ts) g g' rest (c, canon) =
      read_entries-cases nested spec delimiter members
        (λ r.
          r ≡ ok (g', rest)
          → (g'.count_tag ≡ g.count_tag)
            × (wire_entries g'.entries ++ fields_of rest
                ≡ wire_entries g.entries ++ fields_of (t ∷ ts)))
        fuel t ts g
        (λ h.
          let e = sym (ok-injective h) in
          (ap (λ x. x.0.count_tag) e, ap (λ x. wire_entries x.0.entries ++ fields_of x.1) e))
        (λ _ h.
          let (r, h1, h2) =
            >>=-eq-ok
              (read_entry nested spec delimiter members (length ts) ts (add_field end (field_of t)))
              _ h in
          let same : wire_fields r.0 [] ++ fields_of r.1 ≡ fields_of (t ∷ ts) =
            read_entry_keeps (length ts) ts (add_field end (field_of t)) r.0 r.1 canon h1
            ∙ rw (wire_fields-first (field_of t)) in
          let (tag, spelled) =
            read_entries_keeps fuel r.1 (add_entry g r.0) g' rest
              (canonical_rest spec (wire_fields r.0 []) r.1 (t ∷ ts) same (c, canon)) h2 in
          (
            tag ∙ unfold add_entry in refl,
            spelled ∙ rw (wire_entries-add_entry, append_assoc, same),
          ))

-- The declared count is printed as it stood.
group_fields-set_declared_count :
    (n : ℤ) (ts : List Token) (t : Token) (g : Group)
    → parse_i64 t.value ≡ some n
    → to_string_signed n ≡ t.value
    → group_fields (set_declared_count (declared_count_of (t ∷ ts)) g)
      ≡ record { tag = g.count_tag; value = t.value } ∷ wire_entries g.entries
unfolding declared_count_of set_declared_count group_count_to_emit
group_fields-set_declared_count n ts t g parsed printed = rw (parsed, printed)

build_group-Keeps : (room : ℕ) (spec : GroupSpec) → Keeps spec (build_group room spec)
unfolding build_group
build_group-Keeps zero spec d m t ts rest g isgroup canon h = cc
build_group-Keeps (suc room) spec d m t ts rest g isgroup (inl plain, canon) h =
    absurd (isgroup plain)
build_group-Keeps (suc room) spec d m t ts rest g isgroup (inr (n, parsed, printed), canon) h =
    let (r, h1, h2) =
      >>=-eq-ok
        (read_entries (build_group room spec) spec d m (suc (length ts)) ts (new_group t.tag)) _
        h in
    let (tag, spelled) =
      read_entries_keeps (build_group room spec) spec d m (build_group-Keeps room spec)
        (suc (length ts)) ts (new_group t.tag) r.0 r.1 canon h1 in
    sym (ap (λ x. group_fields x.0 ++ fields_of x.1) (ok-injective h2))
    ∙ ap (λ x. x ++ fields_of r.1) (group_fields-set_declared_count n ts t r.0 parsed printed)
    ∙ same_front {b = t.tag} {ys = fields_of ts} (tag ∙ unfold new_group in refl)
        (spelled ∙ unfold new_group wire_fields in refl)
  where
    same_front :
        {a b : ℕ} {v : Bytes} {xs ys : List Field}
        → a ≡ b
        → xs ≡ ys
        → record { tag = a; value = v } ∷ xs ≡ record { tag = b; value = v } ∷ ys
    same_front e f = cc

section_loop_keeps :
    (spec : GroupSpec) (fuel : ℕ) (ts : List Token) (out out' : FieldMap)
    → CountsCanonical spec (fields_of ts)
    → section_loop spec fuel ts out ≡ ok out'
    → wire_fields out' [] ≡ wire_fields out [] ++ fields_of ts
section_loop_keeps spec fuel [] out out' canon =
    unfold section_loop in
    λ h. sym (ap (λ x. wire_fields x []) (ok-injective h)) ∙ sym (append-nil _)
section_loop_keeps spec zero (t ∷ ts) out out' canon = unfold section_loop in λ h. cc
section_loop_keeps spec (suc fuel) (t ∷ ts) out out' (c, canon) =
    section_loop-cases spec
      (λ r. r ≡ ok out' → wire_fields out' [] ≡ wire_fields out [] ++ fields_of (t ∷ ts)) fuel t ts
      out
      (λ _ h.
        section_loop_keeps spec fuel ts (add_field out (field_of t)) out' canon h
        ∙ rw (wire_fields-add_field, append_assoc))
      (λ d m s h.
        let (r, h1, h2) =
          >>=-eq-ok (build_group max_group_nesting_depth spec t.tag d m (t ∷ ts)) _ h in
        let same =
          build_group-Keeps max_group_nesting_depth spec d m t ts r.1 r.0 (λ n. cc) (c, canon) h1 in
        section_loop_keeps spec fuel r.1 (add_group out r.0) out'
          (canonical_rest spec (group_fields r.0) r.1 (t ∷ ts) same (c, canon)) h2
        ∙ rw (wire_fields-add_group, append_assoc, same))

-- A section that is read into groups spells, in order, the fields of its tokens.
pub decode_section_with_groups_keeps :
    (ts : List Token) (spec : GroupSpec) (out : FieldMap)
    → CountsCanonical spec (fields_of ts)
    → decode_section_with_groups ts spec end ≡ ok out
    → wire_fields out [] ≡ fields_of ts
unfolding decode_section_with_groups
decode_section_with_groups_keeps ts spec out canon h =
    section_loop_keeps spec (length ts) ts end out canon h ∙ (unfold wire_fields in refl)
