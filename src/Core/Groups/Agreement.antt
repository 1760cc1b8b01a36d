-- ===== src/Core/Groups/Agreement.antt =====
-- `decode_with_groups` against `decode`, and `restructure_groups`, on the wire.
use truefix.Base.{
  ℕ, suc, ◌≡◌, refl, Bool, false, List, [], ◌∷◌, ◌++◌, Bytes, ok, >>=-eq-ok, ok-injective, inl, inr,
  ap, sym, ◌∙◌, append-nil, append_assoc, subst, ap₂, contains, Bool-cases, ◌||◌,
}
use Prim.Native.Nat.{max}
use mathlib.Core.List.{map-append}
use truefix.Core.Tags.{section_of, is_header, is_trailer}
use truefix.Core.FieldMap.{
  FieldMap, Field, Member, Entries, end, member, field, group, nil, cons, add_field,
}
use truefix.Core.Message.{Message, new_message}
use truefix.Core.Encode.{group_count_to_emit, render_members}
use truefix.Core.Encode.Wire.{wire_fields, wire_member, wire_entries, render_members-wire}
use truefix.Core.Decode.{Token, decode, decode_loop, place, breaks_order, tokenize_validated}
use truefix.Core.Groups.{
  GroupSpec, field_of, decode_section_with_groups, out_of_order, split_sections, group_sections,
  decode_with_groups, flatten_to_tokens, flatten_member, flatten_entries, restructure_groups,
}
use truefix.Core.Groups.Lossless.{
  CountsCanonical, fields_of, wire_fields-add_field, decode_section_with_groups_keeps,
}

mutual
  unfolding flatten_to_tokens wire_fields contains

  pub flatten-wire : (ms : FieldMap) → fields_of (flatten_to_tokens ms) ≡ wire_fields ms []
  flatten-wire end = refl
  flatten-wire (member m ms) =
      map-append field_of (flatten_member m) (flatten_to_tokens ms)
      ∙ ap₂ (λ x y. x ++ y) (flatten_member-wire m) (flatten-wire ms)

  flatten_member-wire : (m : Member) → fields_of (flatten_member m) ≡ wire_member m []
  flatten_member-wire (field f) = refl
  flatten_member-wire (group c es d) =
      ap (λ t. record { tag = c; value = group_count_to_emit es d } ∷ t) (flatten_entries-wire es)

  flatten_entries-wire : (es : Entries) → fields_of (flatten_entries es) ≡ wire_entries es
  flatten_entries-wire nil = refl
  flatten_entries-wire (cons e es) =
      map-append field_of (flatten_to_tokens e) (flatten_entries es)
      ∙ ap₂ (λ x y. x ++ y) (flatten-wire e) (flatten_entries-wire es)

-- If restructuring a map succeeds, and each count field of the group specification among the map's
-- fields holds a number as it is printed (no leading zero or sign: `CountsCanonical`), the result is
-- sent as the same bytes as the map.
pub restructure_groups_keeps :
    (ms out : FieldMap) (spec : GroupSpec)
    → CountsCanonical spec (wire_fields ms [])
    → restructure_groups ms spec ≡ ok out
    → render_members out [] ≡ render_members ms []
unfolding restructure_groups
restructure_groups_keeps ms out spec canon h = rw (
  render_members-wire out [],
  render_members-wire ms [],
  decode_section_with_groups_keeps (flatten_to_tokens ms) spec out
      (subst (CountsCanonical spec) (sym (flatten-wire ms)) canon) h,
  flatten-wire ms,
)

-- The message `m'` holds the fields of `m` and then, section by section, those of the tokens.
abbrev pub Receives : Message → List Token → Message → Type 0
Receives m ts m' =
    (wire_fields m'.header [] ≡ wire_fields m.header [] ++ fields_of (split_sections ts).0)
    × (wire_fields m'.body [] ≡ wire_fields m.body [] ++ fields_of (split_sections ts).1)
    × (wire_fields m'.trailer [] ≡ wire_fields m.trailer [] ++ fields_of (split_sections ts).2)

grow :
    (fs : List Field) {gs : List Field} (ms : FieldMap) (f : Field)
    → gs ≡ wire_fields (add_field ms f) [] ++ fs
    → gs ≡ wire_fields ms [] ++ f ∷ fs
grow fs ms f h = h ∙ rw (wire_fields-add_field, append_assoc)

Receives-cons :
    (m m' : Message) (t : Token) (ts : List Token) (out : Bool)
    → Receives (record (place m (field_of t)) { fields_out_of_order = out }) ts m'
    → Receives m (t ∷ ts) m'
unfolding place split_sections
Receives-cons m m' t ts out (h, b, tr) = elim (Bool-cases (is_trailer t.tag)) [
  | inl e ↦ rw e (rw e at h, rw e at b, grow _ m.trailer (field_of t) (rw e at tr))
  | inr e ↦ elim (Bool-cases (is_header t.tag)) [
    | inl e' ↦
        rw (e, e')
          (grow _ m.header (field_of t) (rw (e, e') at h), rw (e, e') at b, rw (e, e') at tr)
    | inr e' ↦
        rw (e, e') (rw (e, e') at h, grow _ m.body (field_of t) (rw (e, e') at b), rw (e, e') at tr)
  ]
]

decode_loop-Receives :
    (i mx : ℕ) (m : Message) (ts : List Token)
    → Receives m ts (decode_loop i mx m ts)
      × ((decode_loop i mx m ts).fields_out_of_order ≡ out_of_order i mx m.fields_out_of_order ts)
unfolding decode_loop out_of_order
decode_loop-Receives i mx m [] =
    unfold split_sections in ((sym (append-nil _), sym (append-nil _), sym (append-nil _)), refl)
decode_loop-Receives i mx m (t ∷ ts) =
    let out = m.fields_out_of_order || breaks_order i mx t.tag in
    let (r, f) =
      decode_loop-Receives (suc i) (max mx (section_of t.tag))
        (record (place m (field_of t)) { fields_out_of_order = out }) ts in
    (
      Receives-cons m
          (decode_loop (suc i) (max mx (section_of t.tag))
            (record (place m (field_of t)) { fields_out_of_order = out }) ts)
          t ts out r,
      f,
    )

group_sections-Receives :
    (ts : List Token) (spec : GroupSpec) (m : Message)
    → CountsCanonical spec (fields_of (split_sections ts).0)
    → CountsCanonical spec (fields_of (split_sections ts).1)
    → CountsCanonical spec (fields_of (split_sections ts).2)
    → group_sections ts spec ≡ ok m
    → Receives new_message ts m × (m.fields_out_of_order ≡ out_of_order 0 0 false ts)
unfolding group_sections
group_sections-Receives ts spec m ch cb ct h =
    let (hd, h1, r1) = >>=-eq-ok (decode_section_with_groups (split_sections ts).0 spec end) _ h in
    let (bd, h2, r2) = >>=-eq-ok (decode_section_with_groups (split_sections ts).1 spec end) _ r1 in
    let (tr, h3, r3) = >>=-eq-ok (decode_section_with_groups (split_sections ts).2 spec end) _ r2 in
    let e = sym (ok-injective r3) in
    (
      (
        ap (λ x. wire_fields x.header []) e ∙ spelled (split_sections ts).0 hd ch h1,
        ap (λ x. wire_fields x.body []) e ∙ spelled (split_sections ts).1 bd cb h2,
        ap (λ x. wire_fields x.trailer []) e ∙ spelled (split_sections ts).2 tr ct h3,
      ),
      ap (λ x. x.fields_out_of_order) e,
    )
  where
    spelled :
        (ks : List Token) (out : FieldMap)
        → CountsCanonical spec (fields_of ks)
        → decode_section_with_groups ks spec end ≡ ok out
        → wire_fields out [] ≡ wire_fields end [] ++ fields_of ks
    spelled ks out canon e =
        decode_section_with_groups_keeps ks spec out canon e ∙ (unfold wire_fields in refl)

Receives-all :
    (ts : List Token) (m : Message)
    → Receives new_message ts m
    → (wire_fields m.header [] ≡ fields_of (split_sections ts).0)
      × (wire_fields m.body [] ≡ fields_of (split_sections ts).1)
      × (wire_fields m.trailer [] ≡ fields_of (split_sections ts).2)
unfolding wire_fields
Receives-all ts m h = h

agree_on :
    (ts : List Token) (spec : GroupSpec) (m m' : Message)
    → decode_loop 0 0 new_message ts ≡ m'
    → group_sections ts spec ≡ ok m
    → CountsCanonical spec (wire_fields m'.header [])
    → CountsCanonical spec (wire_fields m'.body [])
    → CountsCanonical spec (wire_fields m'.trailer [])
    → (m.fields_out_of_order ≡ m'.fields_out_of_order)
      × (wire_fields m.header [] ≡ wire_fields m'.header [])
      × (wire_fields m.body [] ≡ wire_fields m'.body [])
      × (wire_fields m.trailer [] ≡ wire_fields m'.trailer [])
agree_on ts spec m m' e h ch cb ct =
    let (plain, flag) = decode_loop-Receives 0 0 new_message ts in
    let (hd, bd, tr) = Receives-all ts m' (subst (Receives new_message ts) e plain) in
    let (grouped, flag') =
      group_sections-Receives ts spec m (subst (CountsCanonical spec) hd ch)
        (subst (CountsCanonical spec) bd cb) (subst (CountsCanonical spec) tr ct) h in
    let (hd', bd', tr') = Receives-all ts m grouped in
    (flag' ∙ sym flag ∙ ap (λ x. x.fields_out_of_order) e, hd' ∙ sym hd, bd' ∙ sym bd, tr' ∙ sym tr)

-- With and without a dictionary, a decoded message has the same fields in each section, in the same
-- order, and the same `fields_out_of_order`, if the count fields hold numbers as they are printed.
pub decode_with_groups_agrees :
    (input : Bytes) (spec : GroupSpec) (m m' : Message)
    → decode input ≡ ok m'
    → decode_with_groups input spec ≡ ok m
    → CountsCanonical spec (wire_fields m'.header [])
    → CountsCanonical spec (wire_fields m'.body [])
    → CountsCanonical spec (wire_fields m'.trailer [])
    → (m.fields_out_of_order ≡ m'.fields_out_of_order)
      × (wire_fields m.header [] ≡ wire_fields m'.header [])
      × (wire_fields m.body [] ≡ wire_fields m'.body [])
      × (wire_fields m.trailer [] ≡ wire_fields m'.trailer [])
unfolding decode_with_groups decode
decode_with_groups_agrees input spec m m' h h' ch cb ct =
    let (ts, h1, r1) = >>=-eq-ok (tokenize_validated input) _ h in
    let (ts', h2, r2) = >>=-eq-ok (tokenize_validated input) _ h' in
    agree_on ts spec m m' (ok-injective r1)
      (subst (λ x. group_sections x spec ≡ ok m) (ok-injective (sym h2 ∙ h1)) r2) ch cb ct
