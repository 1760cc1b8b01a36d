-- ===== src/Dict/Validate/Typed.antt =====
-- What the types and enumerations of crates/truefix-dict/src/model.rs ask of a value.
use truefix.Base.{
  ℕ, ◌≤◌, ◌≡◌, ◌⊎◌, refl, sym, inl, inr, Bool, true, false, ◌&&◌, Option, none, some, Bytes, codes,
  length, and_then, leb, ◌==◌, ◌↔◌, All, arith, if◌then◌else◌, subst,
}
use truefix.Base.Int.{ℤ, pos, negsuc}
use truefix.Text.Utf8.{from_utf8}
use truefix.Text.Decimal.{parse_i64, is_digit}
use truefix.Core.FieldMap.{Field, is_some}
use truefix.Core.Times.{
  Crates, split, char_count, as_str, as_int, as_char, as_bool, as_utc_timestamp, as_utc_time_only,
  as_utc_date_only, parse_utc_timestamp, parse_utc_time_only, parse_utc_date_only,
}
use truefix.Dict.Model.{
  DataDictionary, VersionMeta, FieldType, int, length_type, seq_num, num_in_group, float, price,
  qty, amt, percentage, char, boolean, string, data_type, utc_timestamp, utc_time_only,
  utc_date_only, month_year, price_offset, local_mkt_date, day_of_month, utc_date, time, currency,
  exchange, multiple_value_string, multiple_string_value, multiple_char_value, country,
}
use truefix.Dict.Version.{parse_fix_begin_string}
use truefix.Dict.Values.{
  value_ok, all_of, non_negative, is_day, is_alpha_len, is_exchange, is_ascii_uppercase,
  is_ascii_alphanumeric, is_valid_month_year,
}
use truefix.Dict.Fields.{is_legacy_char_lenient}
use truefix.Dict.Passes.{chain_iff, both_iff}
use truefix.Dict.Holds.{
  and_iff, or_iff, either_iff, same_iff, eq_iff, leb_iff, same_bytes_iff, ok_and_iff, is_some_iff,
  all_of_iff, some_eq,
}

-- The value is UTF-8 text of some kind, or the decimal text of an i64 of some kind.
unfoldable pub IsText : Field → (Bytes → Type 0) → Type 0
IsText f P = (s : Bytes) × (from_utf8 f.value ≡ some s) × P s

unfoldable pub IsNumber : Field → (ℤ → Type 0) → Type 0
IsNumber f P = (z : ℤ) × (parse_i64 f.value ≡ some z) × P z

unfoldable pub IsUpper : ℕ → Type 0
IsUpper c = (b'A' ≤ c) × (c ≤ b'Z')

unfoldable pub IsAlphanumeric : ℕ → Type 0
IsAlphanumeric c =
    ((b'0' ≤ c) × (c ≤ b'9')) ⊎ (((b'A' ≤ c) × (c ≤ b'Z')) ⊎ ((b'a' ≤ c) × (c ≤ b'z')))

-- A value of a type. A CHAR is one character, or any text where `Lenient` holds. Decimals, dates and
-- times, and month-years are what the parsers of the code and of its crates accept.
unfoldable pub HasType : Crates → Type 0 → FieldType → Field → Type 0
unfolding IsText IsNumber IsUpper IsAlphanumeric parse_utc_timestamp parse_utc_time_only
    parse_utc_date_only is_valid_month_year split char_count
HasType crates Lenient int f = IsNumber f λ z. Unit
HasType crates Lenient length_type f = IsNumber f λ z. (n : ℕ) × (z ≡ pos n)
HasType crates Lenient seq_num f = IsNumber f λ z. (n : ℕ) × (z ≡ pos n)
HasType crates Lenient num_in_group f = IsNumber f λ z. (n : ℕ) × (z ≡ pos n)
HasType crates Lenient day_of_month f = IsNumber f λ z. (n : ℕ) × (z ≡ pos n) × (1 ≤ n) × (n ≤ 31)
HasType crates Lenient float f = IsText f λ s. crates.decimal_ok s ≡ true
HasType crates Lenient price f = IsText f λ s. crates.decimal_ok s ≡ true
HasType crates Lenient qty f = IsText f λ s. crates.decimal_ok s ≡ true
HasType crates Lenient amt f = IsText f λ s. crates.decimal_ok s ≡ true
HasType crates Lenient percentage f = IsText f λ s. crates.decimal_ok s ≡ true
HasType crates Lenient price_offset f = IsText f λ s. crates.decimal_ok s ≡ true
HasType crates Lenient char f = IsText f λ s. (char_count s ≡ 1) ⊎ Lenient
HasType crates Lenient multiple_char_value f =
    IsText f λ s. All (λ token. char_count token ≡ 1) (split s b' ')
HasType crates Lenient boolean f = (f.value ≡ codes "Y") ⊎ (f.value ≡ codes "N")
HasType crates Lenient utc_timestamp f = IsText f λ s. is_some (parse_utc_timestamp crates s) ≡ true
HasType crates Lenient time f = IsText f λ s. is_some (parse_utc_timestamp crates s) ≡ true
HasType crates Lenient utc_time_only f = IsText f λ s. is_some (parse_utc_time_only crates s) ≡ true
HasType crates Lenient utc_date f = IsText f λ s. is_some (parse_utc_date_only crates s) ≡ true
HasType crates Lenient local_mkt_date f =
    IsText f λ s. is_some (parse_utc_date_only crates s) ≡ true
HasType crates Lenient currency f = IsText f λ s. (length s ≡ 3) × All IsUpper s
HasType crates Lenient country f = IsText f λ s. (length s ≡ 2) × All IsUpper s
HasType crates Lenient month_year f = IsText f λ s. is_valid_month_year s ≡ true
HasType crates Lenient exchange f =
    IsText f λ s. ((1 ≤ length s) × (length s ≤ 4)) × All IsAlphanumeric s
HasType crates Lenient _ f = Unit

-- FIX.4.0 and FIX.4.1.
unfoldable pub IsLegacy : DataDictionary → Type 0
unfolding parse_fix_begin_string
IsLegacy self =
    (v : VersionMeta) × (parse_fix_begin_string self.version ≡ some v)
    × ((v.major ≡ 4) × (v.minor ≤ 1))

pub IsLegacy-iff : (self : DataDictionary) → (is_legacy_char_lenient self ≡ true) ↔ IsLegacy self
unfolding is_legacy_char_lenient IsLegacy
IsLegacy-iff self = ok_and_iff (parse_fix_begin_string self.version) _ _ λ v.
    chain_iff (and_iff (v.major == 4) (leb v.minor 1))
      (both_iff (eq_iff v.major 4) (leb_iff v.minor 1))

non_negative_iff : (z : ℤ) → (non_negative z ≡ true) ↔ ((n : ℕ) × (z ≡ pos n))
unfolding non_negative
non_negative_iff (pos n) = (λ _. (n, refl), λ _. refl)
non_negative_iff (negsuc n) = (λ h. cc, λ (m, e). cc)

is_day_iff : (z : ℤ) → (is_day z ≡ true) ↔ ((n : ℕ) × (z ≡ pos n) × (1 ≤ n) × (n ≤ 31))
unfolding is_day
is_day_iff (pos n) =
    (λ h. (n, refl, ground arith, ground arith), λ (m, e, l, u). day m (pos_eq e) l u)
  where
    pos_eq : {a b : ℕ} → pos a ≡ pos b → a ≡ b
    pos_eq e = cc

    day : (m : ℕ) → n ≡ m → 1 ≤ m → m ≤ 31 → (leb 1 n && leb n 31) ≡ true
    day m e l u = ground arith
is_day_iff (negsuc n) = (λ h. cc, λ (m, e, _, _). cc)

IsUpper-iff : (c : ℕ) → (is_ascii_uppercase c ≡ true) ↔ IsUpper c
unfolding is_ascii_uppercase IsUpper
IsUpper-iff c =
    chain_iff (and_iff (leb b'A' c) (leb c b'Z')) (both_iff (leb_iff b'A' c) (leb_iff c b'Z'))

IsAlphanumeric-iff : (c : ℕ) → (is_ascii_alphanumeric c ≡ true) ↔ IsAlphanumeric c
unfolding is_ascii_alphanumeric IsAlphanumeric is_digit is_ascii_uppercase
IsAlphanumeric-iff c = chain_iff (or_iff (within b'0' b'9') _) (
    either_iff (within_iff b'0' b'9') (
      chain_iff (or_iff (within b'A' b'Z') (within b'a' b'z'))
        (either_iff (within_iff b'A' b'Z') (within_iff b'a' b'z'))))
  where
    within : ℕ → ℕ → Bool
    within a b = leb a c && leb c b

    within_iff : (a b : ℕ) → ((leb a c && leb c b) ≡ true) ↔ ((a ≤ c) × (c ≤ b))
    within_iff a b = chain_iff (and_iff (leb a c) (leb c b)) (both_iff (leb_iff a c) (leb_iff c b))

alpha_len_iff :
    (len : ℕ) (s : Bytes) → (is_alpha_len len s ≡ true) ↔ ((length s ≡ len) × All IsUpper s)
unfolding is_alpha_len
alpha_len_iff len s =
    chain_iff (and_iff (length s == len) (all_of is_ascii_uppercase s))
      (both_iff (eq_iff (length s) len) (all_of_iff is_ascii_uppercase IsUpper s IsUpper-iff))

exchange_iff :
    (s : Bytes)
    → (is_exchange s ≡ true) ↔ (((1 ≤ length s) × (length s ≤ 4)) × All IsAlphanumeric s)
unfolding is_exchange
exchange_iff s =
    chain_iff (and_iff (leb 1 (length s) && leb (length s) 4) (all_of is_ascii_alphanumeric s)) (
      both_iff
        (chain_iff (and_iff (leb 1 (length s)) (leb (length s) 4))
          (both_iff (leb_iff 1 (length s)) (leb_iff (length s) 4)))
        (all_of_iff is_ascii_alphanumeric IsAlphanumeric s IsAlphanumeric-iff))

parsed_iff {ℓ} :
    {A : Type ℓ} (o : Option Bytes) (parse : Bytes → Option A)
    → (is_some (and_then o parse) ≡ true)
      ↔ ((s : Bytes) × (o ≡ some s) × (is_some (parse s) ≡ true))
parsed_iff none parse = (λ h. cc, λ (s, e, _). cc)
parsed_iff (some s) parse =
    (λ h. (s, refl, h), λ (t, e, h). subst (λ x. is_some (parse x) ≡ true) (sym (some_eq e)) h)

one_char_iff :
    (o : Option Bytes)
    → (is_some (and_then o (λ s. if char_count s == 1 then some s else none)) ≡ true)
      ↔ ((s : Bytes) × (o ≡ some s) × (char_count s ≡ 1))
one_char_iff o =
    chain_iff (parsed_iff o _) (λ (s, e, h). (s, e, (one s).0 h), λ (s, e, h). (s, e, (one s).1 h))
  where
    one :
        (s : Bytes)
        → (is_some (if char_count s == 1 then some s else none) ≡ true) ↔ (char_count s ≡ 1)
    one s = chain_iff (kept (char_count s == 1)) (eq_iff (char_count s) 1)
      where
        kept : (b : Bool) → (is_some (if b then some s else none) ≡ true) ↔ (b ≡ true)
        kept true = (λ _. refl, λ _. refl)
        kept false = (λ h. cc, λ h. cc)

yes_no_iff :
    (a b : Bool)
    → (is_some (if a then some true else if b then some false else none) ≡ true)
      ↔ ((a ≡ true) ⊎ (b ≡ true))
yes_no_iff true b = (λ _. inl refl, λ _. refl)
yes_no_iff false true = (λ _. inr refl, λ _. refl)
yes_no_iff false false = (λ h. cc, λ x. elim x [ inl h ↦ cc | inr h ↦ cc ])

module _ (crates : Crates) (Lenient : Type 0) where
  char_iff :
      (lenient : Bool) (f : Field)
      → (lenient ≡ true) ↔ Lenient
      → (value_ok crates char f lenient ≡ true) ↔ HasType crates Lenient char f
  unfolding value_ok HasType IsText as_str as_char
  char_iff true f (may, _) =
      chain_iff (is_some_iff (from_utf8 f.value))
        (λ (s, e). (s, e, inr (may refl)), λ (s, e, _). (s, e))
  char_iff false f (_, back) = chain_iff (one_char_iff (from_utf8 f.value)) (
    λ (s, e, one). (s, e, inl one),
    λ (s, e, x). (s, e, elim x [ inl one ↦ one | inr may ↦ absurd (clash (back may)) ]),
  )
    where
      clash : false ≡ true → ⊥
      clash h = cc

  pub value_ok_iff :
      (lenient : Bool) (type : FieldType) (f : Field)
      → (lenient ≡ true) ↔ Lenient
      → (value_ok crates type f lenient ≡ true) ↔ HasType crates Lenient type f
  unfolding value_ok HasType IsText IsNumber as_str as_int as_bool as_utc_timestamp as_utc_time_only
      as_utc_date_only
  value_ok_iff l int f h =
      chain_iff (is_some_iff (parse_i64 f.value)) (λ (z, e). (z, e, tt), λ (z, e, _). (z, e))
  value_ok_iff l char f h = char_iff l f h
  value_ok_iff l boolean f h =
      chain_iff (yes_no_iff _ _)
        (either_iff (same_bytes_iff f.value (codes "Y")) (same_bytes_iff f.value (codes "N")))
  value_ok_iff l multiple_char_value f h = ok_and_iff (from_utf8 f.value) _ _ λ s.
      all_of_iff _ (λ token. char_count token ≡ 1) (split s b' ')
        λ token. eq_iff (char_count token) 1
  value_ok_iff l day_of_month f h = ok_and_iff (parse_i64 f.value) _ _ is_day_iff
  value_ok_iff l currency f h = ok_and_iff (from_utf8 f.value) _ _ (alpha_len_iff 3)
  value_ok_iff l country f h = ok_and_iff (from_utf8 f.value) _ _ (alpha_len_iff 2)
  value_ok_iff l exchange f h = ok_and_iff (from_utf8 f.value) _ _ exchange_iff
  value_ok_iff l length_type f h = ok_and_iff (parse_i64 f.value) _ _ non_negative_iff
  value_ok_iff l seq_num f h = ok_and_iff (parse_i64 f.value) _ _ non_negative_iff
  value_ok_iff l num_in_group f h = ok_and_iff (parse_i64 f.value) _ _ non_negative_iff
  value_ok_iff l float f h = ok_and_iff (from_utf8 f.value) _ _ λ s. same_iff
  value_ok_iff l price f h = ok_and_iff (from_utf8 f.value) _ _ λ s. same_iff
  value_ok_iff l qty f h = ok_and_iff (from_utf8 f.value) _ _ λ s. same_iff
  value_ok_iff l amt f h = ok_and_iff (from_utf8 f.value) _ _ λ s. same_iff
  value_ok_iff l percentage f h = ok_and_iff (from_utf8 f.value) _ _ λ s. same_iff
  value_ok_iff l price_offset f h = ok_and_iff (from_utf8 f.value) _ _ λ s. same_iff
  value_ok_iff l month_year f h = ok_and_iff (from_utf8 f.value) _ _ λ s. same_iff
  value_ok_iff l utc_timestamp f h = parsed_iff (from_utf8 f.value) _
  value_ok_iff l time f h = parsed_iff (from_utf8 f.value) _
  value_ok_iff l utc_time_only f h = parsed_iff (from_utf8 f.value) _
  value_ok_iff l utc_date f h = parsed_iff (from_utf8 f.value) _
  value_ok_iff l local_mkt_date f h = parsed_iff (from_utf8 f.value) _
  value_ok_iff l string f h = (λ _. tt, λ _. refl)
  value_ok_iff l data_type f h = (λ _. tt, λ _. refl)
  value_ok_iff l utc_date_only f h = (λ _. tt, λ _. refl)
  value_ok_iff l multiple_value_string f h = (λ _. tt, λ _. refl)
  value_ok_iff l multiple_string_value f h = (λ _. tt, λ _. refl)
