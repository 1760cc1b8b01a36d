-- ===== src/Dict/Values.antt =====
-- `FieldType::parse` is the reader's; `FieldType::value_ok`, `FieldDef::allows` and what they call,
-- of crates/truefix-dict/src/model.rs. A value that is no UTF-8 fails every typed view.
use truefix.Base.{
  ℕ, Bool, true, false, ◌&&◌, ◌||◌, List, [], ◌∷◌, Option, none, some, Bytes, codes, same_bytes,
  length, and_then, leb, ◌==◌, if◌then◌else◌,
}
use truefix.Base.Int.{ℤ, pos, negsuc}
use truefix.Text.Decimal.{parse_unsigned, is_digit}
use truefix.Core.FieldMap.{Field, is_some}
use truefix.Core.Framing.{strip_prefix}
use truefix.Core.Decode.{all_digits}
use truefix.Core.Times.{
  Crates, str_get, split, char_count, as_str, as_int, as_char, as_bool, as_utc_timestamp,
  as_utc_time_only, as_utc_date_only,
}
use truefix.Dict.Model.{
  FieldType, FieldDef, int, length_type, seq_num, num_in_group, float, price, qty, amt, percentage,
  char, boolean, utc_timestamp, utc_time_only, month_year, price_offset, local_mkt_date,
  day_of_month, utc_date, time, currency, exchange, multiple_value_string, multiple_string_value,
  multiple_char_value, country,
}

-- `is_ok_and`.
unfoldable pub ok_and {ℓ} : {A : Type ℓ} → Option A → (A → Bool) → Bool
ok_and none test = false
ok_and (some a) test = test a

-- `iter().all`.
unfoldable pub all_of {ℓ} : {A : Type ℓ} → (A → Bool) → List A → Bool
all_of test [] = true
all_of test (x ∷ xs) = test x && all_of test xs

-- `iter().any(|v| v == token)`.
unfoldable pub is_one_of : List Bytes → Bytes → Bool
is_one_of [] token = false
is_one_of (v ∷ vs) token = same_bytes v token || is_one_of vs token

unfoldable pub non_negative : ℤ → Bool
non_negative (pos n) = true
non_negative (negsuc n) = false

unfoldable pub is_day : ℤ → Bool
is_day (pos n) = leb 1 n && leb n 31
is_day (negsuc n) = false

unfoldable pub is_ascii_uppercase : ℕ → Bool
is_ascii_uppercase c = leb b'A' c && leb c b'Z'

unfoldable pub is_ascii_alphanumeric : ℕ → Bool
unfolding is_digit is_ascii_uppercase
is_ascii_alphanumeric c = is_digit c || (is_ascii_uppercase c || (leb b'a' c && leb c b'z'))

unfoldable pub is_alpha_len : ℕ → Bytes → Bool
unfolding all_of
is_alpha_len len s = length s == len && all_of is_ascii_uppercase s

unfoldable pub is_exchange : Bytes → Bool
unfolding all_of
is_exchange s = (leb 1 (length s) && leb (length s) 4) && all_of is_ascii_alphanumeric s

-- `parse::<u32>().unwrap_or(0)`.
unfoldable pub number_or_zero : Option Bytes → ℕ
unfolding parse_unsigned
number_or_zero s = elim (and_then s (parse_unsigned 4294967295)) [ none ↦ 0 | some n ↦ n ]

-- The last two bytes of an eight byte month-year: a week `w1` to `w5` or a day.
unfoldable pub is_week_or_day : Bytes → Bool
unfolding strip_prefix is_one_of all_digits number_or_zero
is_week_or_day rest = elim (strip_prefix (codes "w") rest) [
  | some week ↦ is_one_of (codes "1" ∷ codes "2" ∷ codes "3" ∷ codes "4" ∷ codes "5" ∷ []) week
  | none ↦
      all_digits rest && (leb 1 (number_or_zero (some rest)) && leb (number_or_zero (some rest)) 31)
]

unfoldable pub is_valid_month_year : Bytes → Bool
unfolding ok_and str_get all_digits number_or_zero is_week_or_day
is_valid_month_year s =
    (length s == 6 || length s == 8)
    && (ok_and (str_get s 0 6) all_digits
        && ((leb 1 (number_or_zero (str_get s 4 6)) && leb (number_or_zero (str_get s 4 6)) 12)
            && (length s == 6 || ok_and (str_get s 6 8) is_week_or_day)))

unfoldable pub value_ok : Crates → FieldType → Field → Bool → Bool
unfolding ok_and all_of as_str as_int as_char as_bool as_utc_timestamp as_utc_time_only
    as_utc_date_only is_alpha_len is_exchange is_valid_month_year split char_count
value_ok crates int f lenient = is_some (as_int f)
value_ok crates length_type f lenient = ok_and (as_int f) non_negative
value_ok crates seq_num f lenient = ok_and (as_int f) non_negative
value_ok crates num_in_group f lenient = ok_and (as_int f) non_negative
value_ok crates day_of_month f lenient = ok_and (as_int f) is_day
value_ok crates float f lenient = ok_and (as_str f) crates.decimal_ok
value_ok crates price f lenient = ok_and (as_str f) crates.decimal_ok
value_ok crates qty f lenient = ok_and (as_str f) crates.decimal_ok
value_ok crates amt f lenient = ok_and (as_str f) crates.decimal_ok
value_ok crates percentage f lenient = ok_and (as_str f) crates.decimal_ok
value_ok crates price_offset f lenient = ok_and (as_str f) crates.decimal_ok
value_ok crates char f true = is_some (as_str f)
value_ok crates char f false = is_some (as_char f)
value_ok crates multiple_char_value f lenient =
    ok_and (as_str f) λ s. all_of (λ token. char_count token == 1) (split s b' ')
value_ok crates boolean f lenient = is_some (as_bool f)
value_ok crates utc_timestamp f lenient = is_some (as_utc_timestamp crates f)
value_ok crates time f lenient = is_some (as_utc_timestamp crates f)
value_ok crates utc_time_only f lenient = is_some (as_utc_time_only crates f)
value_ok crates utc_date f lenient = is_some (as_utc_date_only crates f)
value_ok crates currency f lenient = ok_and (as_str f) (is_alpha_len 3)
value_ok crates country f lenient = ok_and (as_str f) (is_alpha_len 2)
value_ok crates local_mkt_date f lenient = is_some (as_utc_date_only crates f)
value_ok crates month_year f lenient = ok_and (as_str f) is_valid_month_year
value_ok crates exchange f lenient = ok_and (as_str f) is_exchange
value_ok crates _ f lenient = true

-- Whether the values of a type are a list of tokens.
unfoldable pub is_multiple : FieldType → Bool
is_multiple multiple_value_string = true
is_multiple multiple_string_value = true
is_multiple multiple_char_value = true
is_multiple _ = false

unfoldable pub is_empty : List Bytes → Bool
is_empty [] = true
is_empty (v ∷ vs) = false

unfoldable pub allows : FieldDef → Bytes → Bool
unfolding is_empty is_multiple all_of split
allows def value =
    if is_empty def.values || def.open_enum
    then true
    else if is_multiple def.field_type
    then all_of (is_one_of def.values) (split value b' ')
    else is_one_of def.values value
