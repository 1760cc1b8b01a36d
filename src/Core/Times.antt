-- ===== src/Core/Times.antt =====
-- The typed views of a field, of crates/truefix-core/src/field.rs: `as_char`, `as_bool`, and the date
-- and time parsers. The calendar of the `time` crate and the decimals of `rust_decimal` are
-- parameters: whether they accept what they are given.
use truefix.Base.{
  ℕ, suc, ◌-◌, ◌^◌, Bool, true, false, not, ◌&&◌, ◌||◌, List, [], ◌∷◌, ◌++◌, Option, none, some,
  Bytes, codes, same_bytes, length, take, drop, and_then, ltb, leb, ◌==◌, if◌then◌else◌,
}
use truefix.Base.Int.{ℤ}
use truefix.Text.Utf8.{from_utf8}
use truefix.Text.Decimal.{parse_unsigned, parse_i64, parse_signed}
use truefix.Core.FieldMap.{Field}
use truefix.Core.Decode.{all_digits}

infixl 5 ◌>>=◌
-- `?` on an option.
abbrev ◌>>=◌ {ℓ κ} : {A : Type ℓ} {B : Type κ} → Option A → (A → Option B) → Option B
◌>>=◌ = and_then

-- What other crates accept: a decimal text, a month number, a calendar date, a time of day.
pub record Crates : Type 0 where
  pub decimal_ok : Bytes → Bool
  pub month_ok : ℕ → Bool
  pub date_ok : ℤ → ℕ → ℕ → Bool
  pub time_ok : ℕ → ℕ → ℕ → ℕ → Bool

-- A byte of UTF-8 text that no character starts with.
unfoldable pub is_continuation : ℕ → Bool
is_continuation b = leb 0x80 b && ltb b 0xc0

-- `str::is_char_boundary`.
unfoldable pub is_char_boundary : Bytes → ℕ → Bool
unfolding is_continuation
is_char_boundary s i = elim (drop i s) [ [] ↦ i == length s | b ∷ bs ↦ not (is_continuation b) ]

-- `str::get(from..to)`.
unfoldable pub str_get : Bytes → ℕ → ℕ → Option Bytes
unfolding is_char_boundary
str_get s from to =
    if leb from to && (is_char_boundary s from && is_char_boundary s to)
    then some (take (to - from) (drop from s))
    else none

-- `str::split_once` at a byte.
unfoldable pub split_once : Bytes → ℕ → Option (Bytes × Bytes)
split_once [] at = none
split_once (b ∷ bs) at =
    let rest = split_once bs at in
    if b == at
    then some ([], bs)
    else elim rest [ none ↦ none | some (front, back) ↦ some (b ∷ front, back) ]

add_front : ℕ → List Bytes → List Bytes
add_front b [] = (b ∷ []) ∷ []
add_front b (part ∷ parts) = (b ∷ part) ∷ parts

-- `str::split` at a byte.
unfoldable pub split : Bytes → ℕ → List Bytes
unfolding add_front
split [] at = [] ∷ []
split (b ∷ bs) at = let parts = split bs at in if b == at then [] ∷ parts else add_front b parts

-- `chars().count()` of valid UTF-8.
unfoldable pub char_count : Bytes → ℕ
unfolding is_continuation
char_count [] = 0
char_count (b ∷ bs) = if is_continuation b then char_count bs else suc (char_count bs)

-- `parse::<u8>()`, and `parse::<i32>()` of at most four characters.
unfoldable pub parse_u8 : Bytes → Option ℕ
unfolding parse_unsigned
parse_u8 s = parse_unsigned 255 s

unfoldable pub as_str : Field → Option Bytes
unfolding from_utf8
as_str f = from_utf8 f.value

unfoldable pub as_int : Field → Option ℤ
unfolding parse_i64
as_int f = parse_i64 f.value

unfoldable pub as_char : Field → Option Bytes
unfolding as_str char_count
as_char f = do s ← as_str f; if char_count s == 1 then some s else none

unfoldable pub as_bool : Field → Option Bool
as_bool f =
    if same_bytes f.value (codes "Y")
    then some true
    else if same_bytes f.value (codes "N")
    then some false
    else none

-- The nanoseconds that the digits of a fraction stand for: they fill the front of "000000000".
unfoldable pub fraction : Bytes → Option ℕ
unfolding all_digits parse_u8
fraction f =
    if (length f == 3 || (length f == 6 || length f == 9)) && all_digits f
    then parse_unsigned (2 ^ 32 - 1) (f ++ take (9 - length f) (codes "000000000"))
    else none

-- The hour, minute and second of `HH:MM:SS`: three numbers, and no fourth part.
unfoldable pub clock : List Bytes → Option (ℕ × ℕ × ℕ)
unfolding parse_u8
clock (h ∷ m ∷ s ∷ []) = do
  hour ← parse_u8 h
  min ← parse_u8 m
  sec ← parse_u8 s
  some (hour, min, sec)
clock _ = none

unfoldable pub split_fraction : Bytes → Bytes × Option Bytes
unfolding split_once
split_fraction s = elim (split_once s b'.') [ none ↦ (s, none) | some (h, f) ↦ (h, some f) ]

-- A leap second is read as the last nanosecond of second 59.
unfoldable pub leap_second : ℕ → ℕ → ℕ × ℕ
leap_second sec nanos = if sec == 60 then (59, 999999999) else (sec, nanos)

-- The time of day behind both time parsers.
unfoldable pub parse_utc_time_only : Crates → Bytes → Option (ℕ × ℕ × ℕ × ℕ)
unfolding split_fraction split clock fraction leap_second
parse_utc_time_only crates s = do
  let (hms, frac) = split_fraction s
  (hour, min, sec) ← clock (split hms b':')
  nanos ← elim frac [ none ↦ some 0 | some f ↦ fraction f ]
  let (sec', nanos') = leap_second sec nanos
  if crates.time_ok hour min sec' nanos' then some (hour, min, sec', nanos') else none

-- The date behind both date parsers: the parts of `YYYYMMDD`, and the checks of the calendar.
-- The year is at most four characters, so that it fits an i32.
unfoldable pub calendar : Crates → Bytes → Option (ℤ × ℕ × ℕ)
unfolding str_get parse_u8
calendar crates s = do
  year ← and_then (str_get s 0 4) parse_signed
  month ← and_then (str_get s 4 6) parse_u8
  day ← and_then (str_get s 6 8) parse_u8
  if crates.month_ok month && crates.date_ok year month day then some (year, month, day) else none

-- A timestamp is a date of eight bytes, a dash and a time of day.
unfoldable pub parse_utc_timestamp : Crates → Bytes → Option ((ℤ × ℕ × ℕ) × (ℕ × ℕ × ℕ × ℕ))
unfolding split_once calendar parse_utc_time_only
parse_utc_timestamp crates s = do
  (date, time_part) ← split_once s b'-'
  day ← if length date == 8 then calendar crates date else none
  time ← parse_utc_time_only crates time_part
  some (day, time)

unfoldable pub parse_utc_date_only : Crates → Bytes → Option (ℤ × ℕ × ℕ)
unfolding all_digits str_get parse_signed parse_u8
parse_utc_date_only crates s = if length s == 8 && all_digits s then calendar crates s else none

-- `as_utc_timestamp`, `as_utc_time_only` and `as_utc_date_only`, as tests.
unfoldable pub as_utc_timestamp : Crates → Field → Option ((ℤ × ℕ × ℕ) × (ℕ × ℕ × ℕ × ℕ))
unfolding as_str parse_utc_timestamp
as_utc_timestamp crates f = and_then (as_str f) (parse_utc_timestamp crates)

unfoldable pub as_utc_time_only : Crates → Field → Option (ℕ × ℕ × ℕ × ℕ)
unfolding as_str parse_utc_time_only
as_utc_time_only crates f = and_then (as_str f) (parse_utc_time_only crates)

unfoldable pub as_utc_date_only : Crates → Field → Option (ℤ × ℕ × ℕ)
unfolding as_str parse_utc_date_only
as_utc_date_only crates f = and_then (as_str f) (parse_utc_date_only crates)
