-- ===== src/Text/Decimal/RoundTrip.antt =====
-- Printed numbers are read back.
use truefix.Base.{
  ℕ, zero, suc, ◌+◌, ◌-◌, ◌*◌, ◌/◌, ◌%◌, ◌^◌, ◌-◌, ◌≤◌, ◌<◌, ◌≡◌, ◌≢◌, refl, [], ◌∷◌, some, Bytes,
  All, Lacks, length, arith, Bool-cases, Option-cases, ◌⊎◌, inl, inr, ◌∙◌, ◌==◌,
}
use truefix.Base.Int.{pos}
use truefix.Text.Utf8.{from_utf8, from_utf8_ascii, IsAscii}
use truefix.Text.Decimal.{
  max_u32, max_u64, plus, scan, digits, parse_unsigned, parse_u32, parse_usize, parse_i64,
  parse_signed, some_pos, write_digits, write_tag, to_string,
}

abbrev pub IsDigit : ℕ → Type 0
IsDigit c = (b'0' ≤ c) × (c ≤ b'9')

scan_last :
    (limit n : ℕ) (out : Bytes)
    → n ≤ limit
    → scan limit (n / 10) ((b'0' + n % 10) ∷ out) ≡ scan limit n out
unfolding scan
scan_last limit n out h = ground arith

scan-write_digits :
    (limit i n : ℕ) (out : Bytes)
    → n < 10 ^ suc i
    → n ≤ limit
    → scan limit 0 (write_digits (suc i) n out) ≡ scan limit n out
unfolding write_digits
scan-write_digits limit zero n out h fits = ground (arith, scan_last limit n out)
scan-write_digits limit (suc i) n out h fits =
    ground
      (arith, scan_last limit n out, scan-write_digits limit i (n / 10) ((b'0' + n % 10) ∷ out))

-- One or more digits.
abbrev pub IsNumber : Bytes → Type 0
IsNumber [] = ⊥
IsNumber (c ∷ s) = IsDigit c × All IsDigit s

IsNumber-All : (s : Bytes) → IsNumber s → All IsDigit s
IsNumber-All [] h = tt
IsNumber-All (c ∷ s) h = h

write_digits-IsNumber : (i n : ℕ) (out : Bytes) → IsNumber out → IsNumber (write_digits i n out)
unfolding write_digits
write_digits-IsNumber zero n out h = h
write_digits-IsNumber (suc i) n out h =
    ground (arith, IsNumber-All out, write_digits-IsNumber i (n / 10) ((b'0' + n % 10) ∷ out))

written-IsNumber : (i n : ℕ) → IsNumber (write_digits (suc i) n [])
unfolding write_digits
written-IsNumber i n = ground (arith, write_digits-IsNumber i (n / 10) ((b'0' + n % 10) ∷ []))

length-write_digits : (i n : ℕ) (out : Bytes) → length (write_digits i n out) ≤ i + length out
unfolding write_digits
length-write_digits zero n out = omega arith
length-write_digits (suc i) n out =
    ground (arith, length-write_digits i (n / 10) ((b'0' + n % 10) ∷ out))

All-IsDigit-IsAscii : (s : Bytes) → All IsDigit s → IsAscii s
All-IsDigit-IsAscii [] h = tt
All-IsDigit-IsAscii (c ∷ s) (hc, hs) = (omega arith, All-IsDigit-IsAscii s hs)

pub All-IsDigit-Lacks : (b : ℕ) (s : Bytes) → (b < b'0') ⊎ (b'9' < b) → All IsDigit s → Lacks b s
All-IsDigit-Lacks b [] o h = tt
All-IsDigit-Lacks b (c ∷ s) o (hc, hs) = (ground arith, All-IsDigit-Lacks b s o hs)

parse_unsigned-scan : (limit : ℕ) (s : Bytes) → IsNumber s → parse_unsigned limit s ≡ scan limit 0 s
unfolding parse_unsigned digits
parse_unsigned-scan limit [] h = absurd h
parse_unsigned-scan limit (c ∷ s) h = ground arith

parse_unsigned-write_digits :
    (limit i n : ℕ)
    → n < 10 ^ suc i
    → n ≤ limit
    → parse_unsigned limit (write_digits (suc i) n []) ≡ some n
parse_unsigned-write_digits limit i n h fits =
    rw (parse_unsigned-scan limit _ (written-IsNumber i n), scan-write_digits limit i n [] h fits)
      (unfold scan in refl)

written-IsAscii : (i n : ℕ) → IsAscii (write_digits (suc i) n [])
written-IsAscii i n = All-IsDigit-IsAscii _ (IsNumber-All _ (written-IsNumber i n))

-- A printed tag is read back as the tag.
pub parse_u32-write_tag : (tag : ℕ) → tag ≤ max_u32 → parse_u32 (write_tag tag) ≡ some tag
unfolding parse_u32 write_tag
parse_u32-write_tag tag h =
    rw (from_utf8_ascii _ (written-IsAscii 9 tag))
      (parse_unsigned-write_digits max_u32 9 tag (omega arith) h)

pub parse_usize-to_string : (n : ℕ) → n ≤ max_u64 → parse_usize (to_string n) ≡ some n
unfolding parse_usize to_string
parse_usize-to_string n h =
    rw (from_utf8_ascii _ (written-IsAscii 19 n))
      (parse_unsigned-write_digits max_u64 19 n (omega arith) h)

pub write_tag-IsNumber : (tag : ℕ) → IsNumber (write_tag tag)
unfolding write_tag
write_tag-IsNumber tag = written-IsNumber 9 tag

pub to_string-IsNumber : (n : ℕ) → IsNumber (to_string n)
unfolding to_string
to_string-IsNumber n = written-IsNumber 19 n

pub write_tag-Lacks : (b tag : ℕ) → (b < b'0') ⊎ (b'9' < b) → Lacks b (write_tag tag)
write_tag-Lacks b tag o = All-IsDigit-Lacks b _ o (IsNumber-All _ (write_tag-IsNumber tag))

pub to_string-Lacks : (b n : ℕ) → (b < b'0') ⊎ (b'9' < b) → Lacks b (to_string n)
to_string-Lacks b n o = All-IsDigit-Lacks b _ o (IsNumber-All _ (to_string-IsNumber n))

pub length-to_string : (n : ℕ) → length (to_string n) ≤ 20
unfolding to_string
length-to_string n = omega (arith, length-write_digits 20 n [])

scan-All : (limit n : ℕ) (s : Bytes) (r : ℕ) → scan limit n s ≡ some r → All IsDigit s
unfolding scan
scan-All limit n [] r h = tt
scan-All limit n (c ∷ s) r h = ground (arith, scan-All limit (n * 10 + (c - b'0')) s r)

digits-All : (limit : ℕ) (s : Bytes) (r : ℕ) → digits limit s ≡ some r → All IsDigit s
unfolding digits
digits-All limit [] r h = tt
digits-All limit (c ∷ s) r h = scan-All limit 0 (c ∷ s) r h

parse_unsigned-Lacks :
    (limit b : ℕ) (s : Bytes) (r : ℕ)
    → b ≢ plus
    → (b < b'0') ⊎ (b'9' < b)
    → parse_unsigned limit s ≡ some r
    → Lacks b s
unfolding parse_unsigned
parse_unsigned-Lacks limit b [] r p o h = tt
parse_unsigned-Lacks limit b (c ∷ s) r p o h = elim (Bool-cases (c == plus)) [
  | inl sign ↦ (ground arith, All-IsDigit-Lacks b s o (digits-All limit s r (rw sign at h)))
  | inr more ↦ All-IsDigit-Lacks b (c ∷ s) o (digits-All limit (c ∷ s) r (rw more at h))
]

from_utf8_self : (s t : Bytes) → from_utf8 s ≡ some t → t ≡ s
unfolding from_utf8
from_utf8_self s t h = ground arith

-- A text that is read as a number holds no byte but digits and a sign.
pub parse_u32-Lacks :
    (b : ℕ) (s : Bytes) (r : ℕ)
    → b ≢ plus
    → (b < b'0') ⊎ (b'9' < b)
    → parse_u32 s ≡ some r
    → Lacks b s
unfolding parse_u32
parse_u32-Lacks b s r p o h = elim (Option-cases (from_utf8 s)) [
  | inl e ↦ cc (rw e at h)
  | inr (t, e) ↦ parse_unsigned-Lacks max_u32 b s r p o (rw (e, from_utf8_self s t e) at h)
]

parse_signed-scan :
    (s : Bytes) (n : ℕ)
    → IsNumber s
    → scan (2 ^ 63 - 1) 0 s ≡ some n
    → parse_signed s ≡ some (pos n)
unfolding parse_signed digits some_pos
parse_signed-scan [] n h e = absurd h
parse_signed-scan (c ∷ s) n h e = ground arith

-- A printed i64 that is not negative is read back.
pub parse_i64-to_string : (n : ℕ) → n < 2 ^ 63 → parse_i64 (to_string n) ≡ some (pos n)
unfolding parse_i64 to_string
parse_i64-to_string n h = rw (from_utf8_ascii _ (written-IsAscii 19 n)) (
    parse_signed-scan _ n (written-IsNumber 19 n)
      (scan-write_digits (2 ^ 63 - 1) 19 n [] (omega arith) (omega arith) ∙ (unfold scan in refl)))
