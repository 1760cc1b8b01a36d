-- ===== src/Dict/Validate/Decoded.antt =====
-- The two walks over the groups do not meet: a message that the group decoder has put together with
-- the dictionary's groups has no flat group left.
use truefix.Base.{
  ℕ, zero, suc, ◌≡◌, ◌≢◌, refl, false, List, [], ◌∷◌, ◌++◌, Option, none, some, Bytes, length, ok,
  >>=-eq-ok, ok-injective, All, All-append, subst, sym, ap, ◌≤◌, arith, Option-cases, inl, inr,
}
use truefix.Core.FieldMap.{
  FieldMap, Field, Group, end, member, field, group, add_field, add_group, push, fields,
}
use truefix.Core.Message.{Message}
use truefix.Core.Times.{Crates}
use truefix.Core.Decode.{Token, tokenize_validated}
use truefix.Core.Groups.{
  field_of, build_group, section_loop, decode_section_with_groups, group_sections,
  decode_with_groups, max_group_nesting_depth, split_sections,
}
use truefix.Core.Groups.Total.{section_loop-cases}
use truefix.Dict.Model.{DataDictionary, ValidationOptions, group_def, group_of, is_group_count}
use truefix.Dict.Flat.{validate_flat_groups}
use truefix.Dict.Validate.{check_flat}

-- Fields with tags that count no group.
NoCounts : DataDictionary → List Field → Type 0
NoCounts self = All (λ f. is_group_count self f.tag ≡ false)

fields-add_field : (map : FieldMap) (f : Field) → fields (add_field map f) ≡ fields map ++ f ∷ []
unfolding add_field push fields
fields-add_field end f = refl
fields-add_field (member (field g) ms) f = ap (λ fs. g ∷ fs) (fields-add_field ms f)
fields-add_field (member (group c es d) ms) f = fields-add_field ms f

fields-add_group : (map : FieldMap) (g : Group) → fields (add_group map g) ≡ fields map
unfolding add_group push fields
fields-add_group end g = refl
fields-add_group (member (field f) ms) g = ap (λ fs. f ∷ fs) (fields-add_group ms g)
fields-add_group (member (group c es d) ms) g = fields-add_group ms g

not_count :
    (self : DataDictionary) (tag : ℕ) → group_of self tag ≡ none → is_group_count self tag ≡ false
unfolding group_of is_group_count
not_count self tag e = elim (Option-cases (group_def self tag)) [
  | inl n ↦ rw (is_group_count, n) refl
  | inr (g, s) ↦ absurd (differ (rw (group_of, s) at e))
]
  where
    differ : {p : ℕ × List ℕ} → ◌≢◌ {A = Option (ℕ × List ℕ)} (some p) none
    differ h = cc

module _ (self : DataDictionary) where
  section_loop-NoCounts :
      (fuel : ℕ) (ts : List Token) (out map : FieldMap)
      → NoCounts self (fields out)
      → section_loop (group_of self) fuel ts out ≡ ok map
      → NoCounts self (fields map)
  unfolding fields NoCounts
  section_loop-NoCounts fuel [] out map clean =
      unfold section_loop in λ h. subst (λ m. NoCounts self (fields m)) (ok-injective h) clean
  section_loop-NoCounts zero (t ∷ ts) out map clean = unfold section_loop in λ h. cc
  section_loop-NoCounts (suc fuel) (t ∷ ts) out map clean =
      section_loop-cases (group_of self) (λ r. r ≡ ok map → NoCounts self (fields map)) fuel t ts
        out
        (λ none h.
          section_loop-NoCounts fuel ts (add_field out (field_of t)) map
            (subst (NoCounts self) (sym (fields-add_field out (field_of t))) (
              All-append (λ f. is_group_count self f.tag ≡ false) (fields out) (field_of t ∷ [])
                clean (not_count self t.tag none, tt)))
            h)
        λ d m _ h.
          let (read, _, rest) =
            >>=-eq-ok (build_group max_group_nesting_depth (group_of self) t.tag d m (t ∷ ts)) _
              h in
          section_loop-NoCounts fuel read.1 (add_group out read.0) map
            (subst (NoCounts self) (sym (fields-add_group out read.0)) clean) rest

  section-NoCounts :
      (ts : List Token) (map : FieldMap)
      → decode_section_with_groups ts (group_of self) end ≡ ok map
      → NoCounts self (fields map)
  unfolding decode_section_with_groups NoCounts fields
  section-NoCounts ts map = section_loop-NoCounts (length ts) ts end map tt

  sections-NoCounts :
      (ts : List Token) (m : Message)
      → group_sections ts (group_of self) ≡ ok m
      → NoCounts self (fields m.header) × NoCounts self (fields m.body)
  unfolding group_sections
  sections-NoCounts ts m h =
      let sections = split_sections ts in
      let (header, e1, h1) =
        >>=-eq-ok (decode_section_with_groups (sections.0) (group_of self) end) _ h in
      let (body, e2, h2) =
        >>=-eq-ok (decode_section_with_groups (sections.1) (group_of self) end) _ h1 in
      let (trailer, e3, h3) =
        >>=-eq-ok (decode_section_with_groups (sections.2) (group_of self) end) _ h2 in
      let same = ok-injective h3 in
      (
        subst (λ n. NoCounts self (fields n.header)) same (section-NoCounts (sections.0) header e1),
        subst (λ n. NoCounts self (fields n.body)) same (section-NoCounts (sections.1) body e2),
      )

module _ (crates : Crates) (self : DataDictionary) (opts : ValidationOptions) where
  flat-NoCounts :
      (fuel : ℕ) (fs : List Field)
      → length fs ≤ fuel
      → NoCounts self fs
      → validate_flat_groups crates self opts fuel fs ≡ ok tt
  unfolding validate_flat_groups NoCounts
  flat-NoCounts fuel [] enough clean = refl
  flat-NoCounts zero (f ∷ fs) enough clean = absurd (omega arith)
  flat-NoCounts (suc fuel) (f ∷ fs) enough (plain, clean) =
      rw (validate_flat_groups, plain) (flat-NoCounts fuel fs (omega arith) clean)

  -- The walk over the flat groups has nothing to object to in the header and the body of a message that
  -- the group decoder reads with the groups of the same dictionary.
  pub check_flat-decode_with_groups :
      (input : Bytes) (m : Message)
      → decode_with_groups input (group_of self) ≡ ok m
      → (check_flat crates self opts m.header ≡ ok tt)
        × (check_flat crates self opts m.body ≡ ok tt)
  unfolding check_flat decode_with_groups
  check_flat-decode_with_groups input m h =
      let (ts, _, grouped) = >>=-eq-ok (tokenize_validated input) _ h in
      let (header, body) = sections-NoCounts self ts m grouped in
      (
        flat-NoCounts (length (fields m.header)) (fields m.header) (omega arith) header,
        flat-NoCounts (length (fields m.body)) (fields m.body) (omega arith) body,
      )
