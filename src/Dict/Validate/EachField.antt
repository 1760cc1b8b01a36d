-- ===== src/Dict/Validate/EachField.antt =====
-- What the loop of `validate` over the fields asks of each field.
use truefix.Base.{
  ℕ, ◌≡◌, ◌≢◌, ◌⊎◌, ◌||◌, inl, inr, [], ◌∷◌, Bytes, refl, Bool, true, false, not, ◌&&◌, List,
  Option, none, some, contains, Result, ok, err, stuck, ◌>>=◌, fail_if, ◌↔◌, arith,
}
use truefix.Text.Utf8.{from_utf8}
use truefix.Core.FieldMap.{Field}
use truefix.Core.Times.{Crates}
use truefix.Dict.Model.{
  DataDictionary, FieldDef, MessageDef, ValidationOptions, ValidationError, field_def,
  is_trailer_tag, contains_member, allows_tag, session, value_is_incorrect,
  tag_appears_more_than_once, tag_specified_without_value, invalid_tag_number,
  tag_not_defined_for_message_type,
}
use truefix.Dict.Values.{value_ok}
use truefix.Dict.Fields.{check_value, is_not_listed, is_legacy_char_lenient, has_no_value}
use truefix.Dict.Validate.{
  belongs, check_defined, check_field, is_envelope, is_counted, is_bare, reverse_route_tags,
}
use truefix.Dict.Passes.{
  Passes, then_iff, guard_iff, when_iff, both_iff, chain_iff, under_iff, not_iff,
}
use truefix.Dict.Holds.{or_iff, nand_iff, either_iff, given_iff, same_iff}
use truefix.Dict.Header.{is_header}
use truefix.Dict.Header.Found.{OfHeader, is_header-OfHeader, is_header-not_OfHeader}
use truefix.Dict.Validate.Typed.{HasType, IsLegacy, IsLegacy-iff, value_ok_iff}
use truefix.Dict.Validate.Listed.{IsListed, is_not_listed_iff}

module _ (crates : Crates) (self : DataDictionary) (opts : ValidationOptions) where
  -- The value of a defined field has the field's type and, where it is text, its enumeration lists it.
  unfoldable pub HasGoodValue : FieldDef → Field → Type 0
  unfolding HasType IsLegacy IsListed
  HasGoodValue def f =
      HasType crates (IsLegacy self) def.field_type f
      × ((s : Bytes) → from_utf8 f.value ≡ some s → IsListed def s)

  -- A tag of the header or of a group in it, of the trailer, or of the message and its groups.
  unfoldable pub IsOwned : MessageDef → ℕ → Type 0
  unfolding OfHeader
  IsOwned mdef tag =
      OfHeader self tag
      ⊎ ((contains self.trailer tag ≡ true)
          ⊎ (((contains mdef.required tag ≡ true) ⊎ (contains mdef.optional tag ≡ true))
              ⊎ (contains mdef.member_tags tag ≡ true)))

  -- A field that the dictionary defines has a good value, where values are checked and the field is
  -- not BeginString or CheckSum, and it is owned, where unknown fields are refused; the search for it
  -- through the header's groups ends.
  unfoldable pub IsKnown : MessageDef → Field → Option FieldDef → Type 0
  unfolding is_header
  IsKnown mdef f none = opts.allow_unknown_msg_fields ≡ true
  IsKnown mdef f (some def) =
      ((opts.check_field_types ≡ true) × (f.tag ≢ 8) × (f.tag ≢ 10) → HasGoodValue def f)
      × (((b : Bool) × (is_header self f.tag ≡ ok b))
          × (opts.allow_unknown_msg_fields ≡ false → IsOwned mdef f.tag))

  -- Where values are asked for, a field has one, except OnBehalfOfCompID, OnBehalfOfSubID,
  -- DeliverToCompID, DeliverToSubID, OnBehalfOfLocationID and DeliverToLocationID.
  unfoldable pub HasValue : Field → Type 0
  HasValue f =
      opts.validate_fields_have_values ≡ true
      → (f.value ≢ []) ⊎ (contains (115 ∷ 116 ∷ 128 ∷ 129 ∷ 144 ∷ 145 ∷ []) f.tag ≡ true)

  -- What is asked of one field that is not skipped.
  unfoldable pub IsGoodField : MessageDef → Field → Type 0
  IsGoodField mdef f = HasValue f × IsKnown mdef f (field_def self f.tag)

  pub check_value_iff :
      (def : FieldDef) (f : Field) → Passes (check_value crates self def f) ↔ HasGoodValue def f
  unfolding check_value HasGoodValue
  check_value_iff def f = chain_iff (then_iff _ _) (
      both_iff
        (chain_iff (guard_iff _ _) (
          chain_iff (not_iff (value_ok crates def.field_type f (is_legacy_char_lenient self))) (
            value_ok_iff crates (IsLegacy self) (is_legacy_char_lenient self) def.field_type f
              (IsLegacy-iff self))))
        (chain_iff (guard_iff (is_not_listed def f) (session value_is_incorrect (some f.tag)))
          (is_not_listed_iff def f)))

  refused_iff : (own may : Bool) → ((not own && not may) ≡ false) ↔ (may ≡ false → own ≡ true)
  refused_iff true may = (λ _ _. refl, λ _. refl)
  refused_iff false true = (λ _ h. cc, λ _. refl)
  refused_iff false false = (λ h. cc, λ h. cc (h refl))

  listed_iff :
      (mdef : MessageDef) (tag : ℕ)
      → ((is_trailer_tag self tag || contains_member mdef tag) ≡ true) ↔ (
          (contains self.trailer tag ≡ true)
          ⊎ (((contains mdef.required tag ≡ true) ⊎ (contains mdef.optional tag ≡ true))
              ⊎ (contains mdef.member_tags tag ≡ true)))
  unfolding is_trailer_tag contains_member allows_tag
  listed_iff mdef tag = chain_iff (or_iff (contains self.trailer tag) _) (
      either_iff same_iff (
        chain_iff
          (or_iff (contains mdef.required tag || contains mdef.optional tag)
            (contains mdef.member_tags tag))
          (either_iff (or_iff (contains mdef.required tag) (contains mdef.optional tag)) same_iff)))

  IsOwned-iff :
      (mdef : MessageDef) (tag : ℕ) (r : Result Bool ValidationError) (e : ValidationError)
      → (r ≡ ok true → OfHeader self tag)
      → (r ≡ ok false → OfHeader self tag → ⊥)
      → Passes (
          (r >>= λ in_header. elim in_header [
            | true ↦ ok true
            | false ↦ ok (is_trailer_tag self tag || contains_member mdef tag)
          ])
          >>= λ own. fail_if (not own && not opts.allow_unknown_msg_fields) e)
        ↔ (((b : Bool) × (r ≡ ok b)) × (opts.allow_unknown_msg_fields ≡ false → IsOwned mdef tag))
  unfolding Passes IsOwned
  IsOwned-iff mdef tag (ok true) e found apart =
      (λ _. ((true, refl), λ _. inl (found refl)), λ _. refl)
  IsOwned-iff mdef tag (ok false) e found apart =
      let own = is_trailer_tag self tag || contains_member mdef tag in
      let (forth, back) = chain_iff (guard_iff (not own && not opts.allow_unknown_msg_fields) e) (
        chain_iff (refused_iff own opts.allow_unknown_msg_fields)
          (under_iff (listed_iff mdef tag))) in
      (
        λ h. ((false, refl), λ strict. inr (forth (unfold Passes in h) strict)),
        λ (_, owned).
            unfold Passes in
            back λ strict. elim (owned strict) [
              | inl inside ↦ absurd (apart refl inside)
              | inr listed ↦ listed
            ],
      )
  IsOwned-iff mdef tag (err f) e found apart = (λ h. cc, λ ((b, same), _). cc)
  IsOwned-iff mdef tag stuck e found apart = (λ h. cc, λ ((b, same), _). cc)

  envelope_iff :
      (tag : ℕ)
      → ((opts.check_field_types && not (is_envelope tag)) ≡ true)
        ↔ ((opts.check_field_types ≡ true) × (tag ≢ 8) × (tag ≢ 10))
  unfolding is_envelope
  envelope_iff tag =
      (λ h. (ground arith, λ e. ground arith, λ e. ground arith), λ (on, a, b). ground arith)

  lookup_iff :
      (mdef : MessageDef) (f : Field) (o : Option FieldDef)
      → Passes (elim o [
        | none ↦
            fail_if (not opts.allow_unknown_msg_fields) (session invalid_tag_number (some f.tag))
        | some def ↦ check_defined crates self opts mdef def f
      ])
        ↔ IsKnown mdef f o
  unfolding IsKnown check_defined belongs
  lookup_iff mdef f none = chain_iff (guard_iff _ _) (not_iff opts.allow_unknown_msg_fields)
  lookup_iff mdef f (some def) = chain_iff (then_iff _ _) (
      both_iff
        (chain_iff
          (when_iff (opts.check_field_types && not (is_envelope f.tag))
            (check_value crates self def f))
          (given_iff (envelope_iff f.tag) (check_value_iff def f)))
        (IsOwned-iff mdef f.tag (is_header self f.tag)
          (session tag_not_defined_for_message_type (some f.tag)) (is_header-OfHeader self f.tag)
          (is_header-not_OfHeader self f.tag)))

  bare_iff : (f : Field) → (is_bare opts f ≡ false) ↔ HasValue f
  unfolding is_bare HasValue has_no_value
  bare_iff f =
      chain_iff (nand_iff opts.validate_fields_have_values _)
        (under_iff (value_iff f.value (contains reverse_route_tags f.tag)))
    where
      value_iff :
          (v : Bytes) (exempt : Bool)
          → ((elim v [ [] ↦ true | b ∷ bs ↦ false ] && not exempt) ≡ false)
            ↔ ((v ≢ []) ⊎ (exempt ≡ true))
      value_iff [] true = (λ _. inr refl, λ _. refl)
      value_iff [] false = (λ h. cc, λ x. elim x [ inl n ↦ absurd (n refl) | inr h ↦ cc ])
      value_iff (b ∷ bs) exempt = (λ _. inl (λ e. cc), λ _. refl)

  pub check_field_iff :
      (mdef : MessageDef) (seen : List ℕ) (f : Field)
      → Passes (check_field crates self opts mdef seen f)
        ↔ (((is_counted opts mdef f.tag && contains seen f.tag) ≡ false) × IsGoodField mdef f)
  unfolding check_field IsGoodField
  check_field_iff mdef seen f = chain_iff (then_iff _ _) (
      both_iff
        (guard_iff (is_counted opts mdef f.tag && contains seen f.tag)
          (session tag_appears_more_than_once (some f.tag)))
        (chain_iff (then_iff _ _) (
          both_iff
            (chain_iff
              (guard_iff (is_bare opts f) (session tag_specified_without_value (some f.tag)))
              (bare_iff f))
            (lookup_iff mdef f (field_def self f.tag)))))
