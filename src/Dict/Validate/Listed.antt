-- ===== src/Dict/Validate/Listed.antt =====
-- What the enumerations of a field's values in crates/truefix-dict/src/model.rs ask of a value.
use truefix.Base.{
  ◌≡◌, ◌⊎◌, refl, inl, inr, Bool, true, false, ◌||◌, List, [], ◌∷◌, some, Bytes, same_bytes, ◌↔◌,
  All, if◌then◌else◌,
}
use truefix.Text.Utf8.{from_utf8}
use truefix.Core.FieldMap.{Field}
use truefix.Core.Times.{split, as_str}
use truefix.Dict.Model.{
  FieldType, FieldDef, int, length_type, seq_num, num_in_group, float, price, qty, amt, percentage,
  char, boolean, string, data_type, utc_timestamp, utc_time_only, utc_date_only, month_year,
  price_offset, local_mkt_date, day_of_month, utc_date, time, currency, exchange,
  multiple_value_string, multiple_string_value, multiple_char_value, country,
}
use truefix.Dict.Values.{allows, is_multiple, is_one_of, is_empty, all_of}
use truefix.Dict.Fields.{is_not_listed}
use truefix.Dict.Passes.{chain_iff, not_iff}
use truefix.Dict.Holds.{or_iff, either_iff, same_iff, same_bytes_iff, ok_and-false_iff, all_of_iff}

-- The texts that an enumeration has to list: the tokens of a value of a multiple type, or the value.
unfoldable pub tokens : FieldType → Bytes → List Bytes
unfolding split
tokens multiple_value_string s = split s b' '
tokens multiple_string_value s = split s b' '
tokens multiple_char_value s = split s b' '
tokens _ s = s ∷ []

unfoldable pub IsAmong : List Bytes → Bytes → Type 0
IsAmong [] s = ⊥
IsAmong (v ∷ vs) s = (v ≡ s) ⊎ IsAmong vs s

-- There is no enumeration, or it is open, or it lists the value.
unfoldable pub IsListed : FieldDef → Bytes → Type 0
unfolding tokens IsAmong
IsListed def s =
    (def.values ≡ [])
    ⊎ ((def.open_enum ≡ true) ⊎ All (IsAmong def.values) (tokens def.field_type s))

IsAmong-iff : (vs : List Bytes) (s : Bytes) → (is_one_of vs s ≡ true) ↔ IsAmong vs s
unfolding is_one_of IsAmong
IsAmong-iff [] s = (λ h. cc, λ h. absurd h)
IsAmong-iff (v ∷ vs) s =
    chain_iff (or_iff (same_bytes v s) (is_one_of vs s))
      (either_iff (same_bytes_iff v s) (IsAmong-iff vs s))

is_empty_iff : (vs : List Bytes) → (is_empty vs ≡ true) ↔ (vs ≡ [])
unfolding is_empty
is_empty_iff [] = (λ _. refl, λ _. refl)
is_empty_iff (v ∷ vs) = (λ h. cc, λ h. cc)

whole_iff : (vs : List Bytes) (s : Bytes) → (is_one_of vs s ≡ true) ↔ All (IsAmong vs) (s ∷ [])
whole_iff vs s = chain_iff (IsAmong-iff vs s) (λ h. (h, tt), λ (h, _). h)

tokens_iff :
    (type : FieldType) (vs : List Bytes) (s : Bytes)
    → ((if is_multiple type then all_of (is_one_of vs) (split s b' ') else is_one_of vs s) ≡ true)
      ↔ All (IsAmong vs) (tokens type s)
unfolding is_multiple tokens
tokens_iff int vs s = whole_iff vs s
tokens_iff length_type vs s = whole_iff vs s
tokens_iff seq_num vs s = whole_iff vs s
tokens_iff num_in_group vs s = whole_iff vs s
tokens_iff float vs s = whole_iff vs s
tokens_iff price vs s = whole_iff vs s
tokens_iff qty vs s = whole_iff vs s
tokens_iff amt vs s = whole_iff vs s
tokens_iff percentage vs s = whole_iff vs s
tokens_iff char vs s = whole_iff vs s
tokens_iff boolean vs s = whole_iff vs s
tokens_iff string vs s = whole_iff vs s
tokens_iff data_type vs s = whole_iff vs s
tokens_iff utc_timestamp vs s = whole_iff vs s
tokens_iff utc_time_only vs s = whole_iff vs s
tokens_iff utc_date_only vs s = whole_iff vs s
tokens_iff month_year vs s = whole_iff vs s
tokens_iff price_offset vs s = whole_iff vs s
tokens_iff local_mkt_date vs s = whole_iff vs s
tokens_iff day_of_month vs s = whole_iff vs s
tokens_iff utc_date vs s = whole_iff vs s
tokens_iff time vs s = whole_iff vs s
tokens_iff currency vs s = whole_iff vs s
tokens_iff exchange vs s = whole_iff vs s
tokens_iff country vs s = whole_iff vs s
tokens_iff multiple_value_string vs s =
    all_of_iff (is_one_of vs) (IsAmong vs) (split s b' ') (IsAmong-iff vs)
tokens_iff multiple_string_value vs s =
    all_of_iff (is_one_of vs) (IsAmong vs) (split s b' ') (IsAmong-iff vs)
tokens_iff multiple_char_value vs s =
    all_of_iff (is_one_of vs) (IsAmong vs) (split s b' ') (IsAmong-iff vs)

allows_iff : (def : FieldDef) (s : Bytes) → (allows def s ≡ true) ↔ IsListed def s
unfolding allows IsListed
allows_iff def s = chain_iff (open_iff (is_empty def.values) def.open_enum _) (
    either_iff (is_empty_iff def.values)
      (either_iff same_iff (tokens_iff def.field_type def.values s)))
  where
    open_iff :
        (a b c : Bool)
        → ((if a || b then true else c) ≡ true) ↔ ((a ≡ true) ⊎ ((b ≡ true) ⊎ (c ≡ true)))
    open_iff true b c = (λ _. inl refl, λ _. refl)
    open_iff false true c = (λ _. inr (inl refl), λ _. refl)
    open_iff false false c =
        (λ h. inr (inr h), λ x. elim x [ inl h ↦ cc | inr y ↦ elim y [ inl h ↦ cc | inr h ↦ h ] ])

pub is_not_listed_iff :
    (def : FieldDef) (f : Field)
    → (is_not_listed def f ≡ false) ↔ ((s : Bytes) → from_utf8 f.value ≡ some s → IsListed def s)
unfolding is_not_listed as_str
is_not_listed_iff def f =
    ok_and-false_iff (from_utf8 f.value) _ _
      λ s. chain_iff (not_iff (allows def s)) (allows_iff def s)
