-- ===== src/Dict/Validate/AllFields.antt =====
-- What the loop of `validate` over the fields asks of all of them: each is a good one, and no tag
-- that counts comes twice.
use truefix.Base.{
  ℕ, ◌≡◌, ◌≢◌, refl, true, false, ◌&&◌, ◌||◌, List, [], ◌∷◌, contains, ◌==◌, Bool-cases, inl, inr,
  ◌↔◌, All, All-map, All-both, arith, sym, ◌∙◌, subst,
}
use truefix.Core.FieldMap.{Field}
use truefix.Core.Times.{Crates}
use truefix.Dict.Model.{DataDictionary, MessageDef, ValidationOptions}
use truefix.Dict.Validate.{check_fields, is_skipped, is_counted, seen_after}
use truefix.Dict.Passes.{Passes, then_iff, both_iff, chain_iff, conj_right, conj_false}
use truefix.Dict.Validate.EachField.{IsGoodField, check_field_iff}

module _ (crates : Crates) (self : DataDictionary) (opts : ValidationOptions) where
  -- A tag that is not skipped and is counted, and one that no set of seen tags may have.
  unfoldable pub Counts : MessageDef → ℕ → Type 0
  Counts mdef tag = (is_skipped opts tag ≡ false) × (is_counted opts mdef tag ≡ true)

  unfoldable pub NotIn : MessageDef → List ℕ → Field → Type 0
  NotIn mdef seen f = Counts mdef f.tag → contains seen f.tag ≡ false

  -- No tag that counts comes twice.
  unfoldable pub IsUnrepeated : MessageDef → List Field → Type 0
  IsUnrepeated mdef [] = Unit
  IsUnrepeated mdef (f ∷ fs) =
      (Counts mdef f.tag → All (λ g. g.tag ≢ f.tag) fs) × IsUnrepeated mdef fs

  contains-seen_after :
      (mdef : MessageDef) (seen : List ℕ) (tag other : ℕ)
      → is_counted opts mdef tag ≡ true
      → contains (seen_after opts mdef seen tag) other ≡ (tag == other || contains seen other)
  unfolding seen_after contains
  contains-seen_after mdef seen tag other counted = rw (seen_after, counted) refl

  NotIn-seen_after :
      (mdef : MessageDef) (seen : List ℕ) (f g : Field)
      → Counts mdef f.tag
      → NotIn mdef (seen_after opts mdef seen f.tag) g ↔ ((g.tag ≢ f.tag) × NotIn mdef seen g)
  unfolding NotIn Counts
  NotIn-seen_after mdef seen f g (kept, counted) =
      let both = contains-seen_after mdef seen f.tag g.tag counted in
      (
        λ h. (
          λ e. apart (sym both ∙ h (subst (λ t. Counts mdef t) (sym e) (kept, counted))) e,
          λ c. right (sym both ∙ h c),
        ),
        λ (apart, h) c. both ∙ join apart (h c),
      )
    where
      apart : (f.tag == g.tag || contains seen g.tag) ≡ false → g.tag ≢ f.tag
      apart h e = ground arith

      right : (f.tag == g.tag || contains seen g.tag) ≡ false → contains seen g.tag ≡ false
      right h = ground arith

      join :
          g.tag ≢ f.tag
          → contains seen g.tag ≡ false
          → (f.tag == g.tag || contains seen g.tag) ≡ false
      join apart h = ground arith

  -- A tag that is skipped or not counted leaves the set alone.
  seen_after-not_counted :
      (mdef : MessageDef) (seen : List ℕ) (tag : ℕ)
      → is_counted opts mdef tag ≡ false
      → seen_after opts mdef seen tag ≡ seen
  unfolding seen_after
  seen_after-not_counted mdef seen tag e = rw (seen_after, e) refl

  -- What a round adds to the set, for a tag that counts and for one that does not.
  Fresh : MessageDef → List ℕ → Field → List Field → Type 0
  Fresh mdef seen f fs =
      ((is_counted opts mdef f.tag && contains seen f.tag) ≡ false)
      × All (NotIn mdef (seen_after opts mdef seen f.tag)) fs

  Once : MessageDef → List ℕ → Field → List Field → Type 0
  Once mdef seen f fs =
      (Counts mdef f.tag → All (λ g. g.tag ≢ f.tag) fs)
      × (NotIn mdef seen f × All (NotIn mdef seen) fs)

  round_iff_counted :
      (mdef : MessageDef) (seen : List ℕ) (f : Field) (fs : List Field)
      → Counts mdef f.tag
      → Fresh mdef seen f fs ↔ Once mdef seen f fs
  unfolding NotIn Counts Fresh Once
  round_iff_counted mdef seen f fs counts =
      let Both : Field → Type 0 = λ g. (g.tag ≢ f.tag) × NotIn mdef seen g in
      let After : Field → Type 0 = NotIn mdef (seen_after opts mdef seen f.tag) in
      (
        λ (old, rest).
            let both : All Both fs =
              All-map After Both fs (λ g. (NotIn-seen_after mdef seen f g counts).0) rest in
            (
              λ _. All-map Both (λ g. g.tag ≢ f.tag) fs (λ g b. b.0) both,
              (
                λ c. conj_right (is_counted opts mdef f.tag) (contains seen f.tag) (c.1) old,
                All-map Both (NotIn mdef seen) fs (λ g b. b.1) both,
              ),
            ),
        λ (once, (mine, others)). (
          conj_false (is_counted opts mdef f.tag) (contains seen f.tag) (mine counts),
          All-map Both After fs (λ g. (NotIn-seen_after mdef seen f g counts).1)
              (All-both (λ g. g.tag ≢ f.tag) (NotIn mdef seen) fs (once counts) others),
        ),
      )

  round_iff_loose :
      (mdef : MessageDef) (seen : List ℕ) (f : Field) (fs : List Field)
      → is_counted opts mdef f.tag ≡ false
      → Fresh mdef seen f fs ↔ Once mdef seen f fs
  unfolding NotIn Counts Fresh Once
  round_iff_loose mdef seen f fs loose = rw (seen_after-not_counted mdef seen f.tag loose) (
    λ (old, rest). (λ (_, c). absurd (differ c), (λ (_, c). absurd (differ c), rest)),
    λ (once, (mine, others)). (simp loose refl, others),
  )
    where
      differ : is_counted opts mdef f.tag ≡ true → ⊥
      differ c = cc

  -- A field that is not skipped is a good one.
  unfoldable pub IsFine : MessageDef → Field → Type 0
  IsFine mdef f = is_skipped opts f.tag ≡ false → IsGoodField crates self opts mdef f

  round_iff :
      (mdef : MessageDef) (seen : List ℕ) (f : Field) (fs : List Field)
      → is_skipped opts f.tag ≡ false
      → Fresh mdef seen f fs ↔ Once mdef seen f fs
  unfolding Counts
  round_iff mdef seen f fs kept = elim (Bool-cases (is_counted opts mdef f.tag)) [
    | inl counted ↦ round_iff_counted mdef seen f fs (kept, counted)
    | inr loose ↦ round_iff_loose mdef seen f fs loose
  ]

  -- What the loop asks of the fields that are left.
  unfoldable pub FieldsPass : MessageDef → List ℕ → List Field → Type 0
  FieldsPass mdef seen fs = All (IsFine mdef) fs × (IsUnrepeated mdef fs × All (NotIn mdef seen) fs)

  skipped_iff :
      (mdef : MessageDef) (seen : List ℕ) (f : Field) (fs : List Field)
      → is_skipped opts f.tag ≡ true
      → FieldsPass mdef seen fs ↔ FieldsPass mdef seen (f ∷ fs)
  unfolding FieldsPass IsFine IsUnrepeated NotIn Counts
  skipped_iff mdef seen f fs skipped = (
    λ (fine, (once, apart)). (
      (λ kept. absurd (differ kept), fine),
      ((λ c. absurd (differ (c.0)), once), (λ c. absurd (differ (c.0)), apart)),
    ),
    λ ((_, fine), ((_, once), (_, apart))). (fine, (once, apart)),
  )
    where
      differ : is_skipped opts f.tag ≡ false → ⊥
      differ kept = cc

  kept_iff :
      (mdef : MessageDef) (seen : List ℕ) (f : Field) (fs : List Field)
      → is_skipped opts f.tag ≡ false
      → ((((is_counted opts mdef f.tag && contains seen f.tag) ≡ false)
            × IsGoodField crates self opts mdef f)
          × FieldsPass mdef (seen_after opts mdef seen f.tag) fs)
        ↔ FieldsPass mdef seen (f ∷ fs)
  unfolding FieldsPass IsFine IsUnrepeated Fresh Once
  kept_iff mdef seen f fs kept =
      let (forth, back) = round_iff mdef seen f fs kept in
      (
        λ ((new, good), (fine, (once, apart))).
            let (first, rest) = forth (new, apart) in ((λ _. good, fine), ((first, once), rest)),
        λ ((good, fine), ((first, once), rest)).
            let (new, apart) = back (first, rest) in ((new, good kept), (fine, (once, apart))),
      )

  -- The loop over the fields passes when each is fine, and no tag that counts comes twice or was seen.
  pub check_fields_iff :
      (mdef : MessageDef) (seen : List ℕ) (fs : List Field)
      → Passes (check_fields crates self opts mdef seen fs) ↔ FieldsPass mdef seen fs
  unfolding check_fields FieldsPass IsUnrepeated Passes
  check_fields_iff mdef seen [] = (λ _. (tt, (tt, tt)), λ _. refl)
  check_fields_iff mdef seen (f ∷ fs) = elim (Bool-cases (is_skipped opts f.tag)) [
    | inl skipped ↦
        rw (check_fields, skipped)
          (chain_iff (check_fields_iff mdef seen fs) (skipped_iff mdef seen f fs skipped))
    | inr kept ↦
        rw (check_fields, kept)
          (chain_iff (then_iff _ _) (
            chain_iff
              (both_iff (check_field_iff crates self opts mdef seen f)
                (check_fields_iff mdef (seen_after opts mdef seen f.tag) fs))
              (kept_iff mdef seen f fs kept)))
  ]
