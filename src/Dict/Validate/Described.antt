-- ===== src/Dict/Validate/Described.antt =====
-- What the tests of `validate` on a whole message say (crates/truefix-dict/src/validate.rs).
use truefix.Base.{
  ℕ, ◌≡◌, ◌⊎◌, refl, sym, ap, ◌∙◌, inl, inr, true, false, ◌&&◌, Option, none, some, Bytes, codes,
  is_none, and_then, ◌==◌, ◌↔◌, subst,
}
use truefix.Text.Utf8.{from_utf8}
use truefix.Core.FieldMap.{FieldMap, Field, end, member, field, group, get}
use truefix.Core.Message.{Message, msg_type, text_of}
use truefix.Core.Times.{as_str}
use truefix.Dict.Model.{DataDictionary, VersionMeta}
use truefix.Dict.Version.{parse_fix_begin_string}
use truefix.Dict.Structured.{member_tag}
use truefix.Dict.Validate.{
  effective_version, same_option, same_version, header_text, version_differs, is_poss_dup,
  present_in, present,
}
use truefix.Dict.Passes.{chain_iff, both_iff, not_iff}
use truefix.Dict.Holds.{
  and_iff, or_iff, either_iff, eq_iff, same_bytes_iff, ok_and_iff, ok_and-false_iff, and_then_iff,
  some_eq,
}

-- The header has a field with the tag, and this is its text.
unfoldable pub HasText : Message → ℕ → Bytes → Type 0
HasText m tag text = (f : Field) × (get m.header tag ≡ some f) × (from_utf8 f.value ≡ some text)

header_text_iff :
    (m : Message) (tag : ℕ) (text : Bytes) → (header_text m tag ≡ some text) ↔ HasText m tag text
unfolding header_text HasText as_str
header_text_iff m tag text = and_then_iff (get m.header tag) (λ f. from_utf8 f.value) text

pub msg_type_iff : (m : Message) (text : Bytes) → (msg_type m ≡ some text) ↔ HasText m 35 text
unfolding msg_type text_of HasText
msg_type_iff m text = text_iff (get m.header 35)
  where
    text_iff :
        (o : Option Field)
        → (text_of o ≡ some text) ↔ ((f : Field) × (o ≡ some f) × (from_utf8 f.value ≡ some text))
    text_iff none = (λ h. cc, λ (f, e, _). cc)
    text_iff (some f) = (
      λ h. (f, refl, h),
      λ (g, e, h). subst (λ (k : Field). from_utf8 k.value ≡ some text) (sym (some_eq e)) h,
    )

-- The version of a dictionary: its metadata, or else its version text.
unfoldable pub Expects : DataDictionary → VersionMeta → Type 0
unfolding parse_fix_begin_string
Expects self v =
    (self.version_meta ≡ some v)
    ⊎ ((self.version_meta ≡ none) × (parse_fix_begin_string self.version ≡ some v))

-- The BeginString of the message, if it can be read, is the version of the dictionary, if that can.
unfoldable pub IsOfVersion : DataDictionary → Message → Type 0
unfolding parse_fix_begin_string
IsOfVersion self m =
    (expected found : VersionMeta) (text : Bytes)
    → Expects self expected
    → HasText m 8 text
    → parse_fix_begin_string text ≡ some found
    → found ≡ expected

same_option_iff : (a b : Option ℕ) → (same_option a b ≡ true) ↔ (a ≡ b)
unfolding same_option
same_option_iff none none = (λ _. refl, λ _. refl)
same_option_iff none (some b) = (λ h. cc, λ h. cc)
same_option_iff (some a) none = (λ h. cc, λ h. cc)
same_option_iff (some a) (some b) = (λ h. ap some ((eq_iff a b).0 h), λ h. (eq_iff a b).1 (inj h))
  where
    inj : some a ≡ some b → a ≡ b
    inj h = cc

same_version_iff : (v w : VersionMeta) → (same_version v w ≡ true) ↔ (v ≡ w)
unfolding same_version
same_version_iff v w =
    chain_iff
      (chain_iff (and_iff (v.major == w.major && v.minor == w.minor) _) (
        both_iff
          (chain_iff (and_iff (v.major == w.major) (v.minor == w.minor))
            (both_iff (eq_iff v.major w.major) (eq_iff v.minor w.minor)))
          (chain_iff (and_iff (same_option v.service_pack w.service_pack) _) (
            both_iff (same_option_iff v.service_pack w.service_pack)
              (same_option_iff v.extension_pack w.extension_pack)))))
      (
        λ ((a, b), (c, d)). parts v w a b c d,
        λ e. (
          (ap (λ x. x.major) e, ap (λ x. x.minor) e),
          (ap (λ x. x.service_pack) e, ap (λ x. x.extension_pack) e),
        ),
      )
  where
    parts :
        (v w : VersionMeta)
        → v.major ≡ w.major
        → v.minor ≡ w.minor
        → v.service_pack ≡ w.service_pack
        → v.extension_pack ≡ w.extension_pack
        → v ≡ w
    parts v w a b c d =
        ap (λ x. record v { major = x }) a
        ∙ (ap (λ x. record v { major = w.major; minor = x }) b
            ∙ (ap (λ x. record v { major = w.major; minor = w.minor; service_pack = x }) c
                ∙ ap (λ x. record w { extension_pack = x }) d))

Expects-iff :
    (self : DataDictionary) (v : VersionMeta) → (effective_version self ≡ some v) ↔ Expects self v
unfolding effective_version Expects
Expects-iff self v = first self.version_meta (parse_fix_begin_string self.version)
  where
    first :
        (o p : Option VersionMeta)
        → (elim o [ some meta ↦ some meta | none ↦ p ] ≡ some v)
          ↔ ((o ≡ some v) ⊎ ((o ≡ none) × (p ≡ some v)))
    first none p = (λ h. inr (refl, h), λ x. elim x [ inl h ↦ cc | inr y ↦ y.1 ])
    first (some meta) p = (λ h. inl h, λ x. elim x [ inl h ↦ h | inr y ↦ cc (y.0) ])

pub version_iff :
    (self : DataDictionary) (m : Message) → (version_differs self m ≡ false) ↔ IsOfVersion self m
unfolding version_differs IsOfVersion
version_iff self m =
    chain_iff
      (ok_and-false_iff (effective_version self) _
        (λ expected.
          (found : VersionMeta)
          → and_then (header_text m 8) parse_fix_begin_string ≡ some found
          → found ≡ expected)
        λ expected.
          ok_and-false_iff (and_then (header_text m 8) parse_fix_begin_string) _
            (λ found. found ≡ expected)
            λ found.
              chain_iff (not_iff (same_version found expected)) (same_version_iff found expected))
      (
        λ h expected found text e t p. h expected ((Expects-iff self expected).1 e) found (
            (and_then_iff (header_text m 8) parse_fix_begin_string found).1
              (text, (header_text_iff m 8 text).1 t, p)),
        λ h expected e found p.
            let (text, t, q) = (and_then_iff (header_text m 8) parse_fix_begin_string found).0 p in
            h expected found text ((Expects-iff self expected).0 e) ((header_text_iff m 8 text).0 t)
              q,
      )

-- PossDupFlag is `Y`.
pub poss_dup_iff : (m : Message) → (is_poss_dup m ≡ true) ↔ HasText m 43 (codes "Y")
unfolding is_poss_dup
poss_dup_iff m =
    chain_iff
      (ok_and_iff (header_text m 43) _ (λ s. s ≡ codes "Y") λ s. same_bytes_iff s (codes "Y"))
      (
        λ (s, e, same). (header_text_iff m 43 (codes "Y")).0 (e ∙ ap some same),
        λ h. (codes "Y", (header_text_iff m 43 (codes "Y")).1 h, refl),
      )

pub there_iff : (o : Option Field) → (is_none o ≡ false) ↔ ((f : Field) × (o ≡ some f))
there_iff none = (λ h. cc, λ (f, e). cc)
there_iff (some f) = (λ _. (f, refl), λ _. refl)

-- A map has a field or a group with the tag, and a message has one in some section.
unfoldable pub HasMember : FieldMap → ℕ → Type 0
HasMember end tag = ⊥
HasMember (member (field f) ms) tag = (f.tag ≡ tag) ⊎ HasMember ms tag
HasMember (member (group c es d) ms) tag = (c ≡ tag) ⊎ HasMember ms tag

unfoldable pub IsPresent : Message → ℕ → Type 0
unfolding HasMember
IsPresent m tag = HasMember m.header tag ⊎ (HasMember m.body tag ⊎ HasMember m.trailer tag)

present_in_iff : (ms : FieldMap) (tag : ℕ) → (present_in ms tag ≡ true) ↔ HasMember ms tag
unfolding present_in HasMember member_tag
present_in_iff end tag = (λ h. cc, λ h. absurd h)
present_in_iff (member (field f) ms) tag =
    chain_iff (or_iff (f.tag == tag) (present_in ms tag))
      (either_iff (eq_iff f.tag tag) (present_in_iff ms tag))
present_in_iff (member (group c es d) ms) tag =
    chain_iff (or_iff (c == tag) (present_in ms tag))
      (either_iff (eq_iff c tag) (present_in_iff ms tag))

pub present_iff : (m : Message) (tag : ℕ) → (present m tag ≡ true) ↔ IsPresent m tag
unfolding present IsPresent
present_iff m tag = chain_iff (or_iff (present_in m.header tag) _) (
    either_iff (present_in_iff m.header tag) (
      chain_iff (or_iff (present_in m.body tag) (present_in m.trailer tag))
        (either_iff (present_in_iff m.body tag) (present_in_iff m.trailer tag))))
