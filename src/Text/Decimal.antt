-- ===== src/Text/Decimal.antt =====
-- `str::parse` into unsigned and signed integers, and decimal printing by the loop of `write_tag`
-- (crates/truefix-core/src/codec/encode.rs).
pub mod RoundTrip
use truefix.Base.{
  ℕ, zero, suc, ◌+◌, ◌-◌, ◌*◌, ◌/◌, ◌%◌, ◌^◌, ◌≤◌, ◌<◌, ◌≡◌, refl, Bool, true, false, ◌&&◌, ◌||◌,
  [], ◌∷◌, Option, none, some, Bytes, codes, ltb, leb, ◌==◌, if◌then◌else◌, and_then, arith,
}
use truefix.Base.Int.{ℤ, pos, negsuc}
use truefix.Text.Utf8.{from_utf8}

abbrev pub max_u32 : ℕ
max_u32 = 2 ^ 32 - 1

-- `usize` and `u64`, on a 64-bit target.
abbrev pub max_u64 : ℕ
max_u64 = 2 ^ 64 - 1

abbrev pub plus : ℕ
plus = b'+'

abbrev pub minus : ℕ
minus = b'-'

unfoldable pub is_digit : ℕ → Bool
is_digit c = leb b'0' c && leb c b'9'

-- The digits read behind the number `n`, refused above `limit`.
unfoldable pub scan : ℕ → ℕ → Bytes → Option ℕ
unfolding is_digit
scan limit n [] = some n
scan limit n (c ∷ s) =
    let m = n * 10 + (c - b'0') in
    let rest = scan limit m s in if is_digit c then if ltb limit m then none else rest else none

-- One or more digits.
unfoldable pub digits : ℕ → Bytes → Option ℕ
unfolding scan
digits limit [] = none
digits limit (c ∷ s) = scan limit 0 (c ∷ s)

-- `str::parse` for an unsigned type: one `+` may stand in front.
unfoldable pub parse_unsigned : ℕ → Bytes → Option ℕ
unfolding digits
parse_unsigned limit [] = none
parse_unsigned limit (c ∷ s) = if c == plus then digits limit s else digits limit (c ∷ s)

negate : ℕ → ℤ
negate zero = pos 0
negate (suc n) = negsuc n

some_pos : Option ℕ → Option ℤ
some_pos none = none
some_pos (some n) = some (pos n)

some_neg : Option ℕ → Option ℤ
unfolding negate
some_neg none = none
some_neg (some n) = some (negate n)

-- `str::parse` for a 64-bit signed type: one `+` or `-` may stand in front.
unfoldable pub parse_signed : Bytes → Option ℤ
unfolding digits some_pos some_neg
parse_signed [] = none
parse_signed (c ∷ s) =
    if c == plus
    then some_pos (digits (2 ^ 63 - 1) s)
    else if c == minus
    then some_neg (digits (2 ^ 63) s)
    else some_pos (digits (2 ^ 63 - 1) (c ∷ s))

-- `core::str::from_utf8(bytes).ok()?.parse().ok()` at the types that the codec uses.
unfoldable pub parse_u32 : Bytes → Option ℕ
unfolding parse_unsigned
parse_u32 bytes = and_then (from_utf8 bytes) (parse_unsigned max_u32)

unfoldable pub parse_usize : Bytes → Option ℕ
unfolding parse_unsigned
parse_usize bytes = and_then (from_utf8 bytes) (parse_unsigned max_u64)

unfoldable pub parse_i64 : Bytes → Option ℤ
unfolding parse_signed
parse_i64 bytes = and_then (from_utf8 bytes) parse_signed

-- The loop of `write_tag`: `room` is the index `i`, and `out` is the part of the buffer that is
-- written, `buf[i..]`. It ends when `n` is 0 or the buffer is full.
unfoldable pub write_digits : ℕ → ℕ → Bytes → Bytes
write_digits zero n out = out
write_digits (suc i) n out =
    let digit = b'0' + n % 10 in
    let more = write_digits i (n / 10) (digit ∷ out) in
    if n / 10 == 0 || i == 0 then digit ∷ out else more

unfoldable pub write_tag : ℕ → Bytes
unfolding write_digits
write_tag tag = write_digits 10 tag []

-- `to_string` of an unsigned 64-bit number, which has at most 20 digits.
unfoldable pub to_string : ℕ → Bytes
unfolding write_digits
to_string n = write_digits 20 n []

-- `to_string` of a signed number.
unfoldable pub to_string_signed : ℤ → Bytes
unfolding to_string
to_string_signed (pos n) = to_string n
to_string_signed (negsuc n) = minus ∷ to_string (suc n)

max_tag : write_tag max_u32 ≡ codes "4294967295"
unfolding write_tag
max_tag = refl

zero_tag : write_tag 0 ≡ codes "0"
unfolding write_tag
zero_tag = refl

max_number : to_string max_u64 ≡ codes "18446744073709551615"
unfolding to_string
max_number = refl

too_large : parse_u32 (codes "4294967296") ≡ none
unfolding parse_u32 from_utf8
too_large = refl

with_plus : parse_usize (codes "+07") ≡ some 7
unfolding parse_usize from_utf8
with_plus = refl

only_sign : parse_i64 (codes "-") ≡ none
unfolding parse_i64 from_utf8
only_sign = refl

least : parse_i64 (codes "-9223372036854775808") ≡ some (negsuc (2 ^ 63 - 1))
unfolding parse_i64 from_utf8
least = refl
