-- ===== src/Text/Utf8.antt =====
-- `core::str::from_utf8`: the byte sequences that are valid UTF-8, as an automaton that reads one
-- byte at a time. No overlong form, surrogate or code point above 10FFFF is accepted.
use truefix.Base.{
  ℕ, ◌-◌, ◌<◌, ◌≡◌, refl, Bool, true, false, ◌&&◌, [], ◌∷◌, Option, none, some, Bytes, All, ltb,
  leb, ◌==◌, if◌then◌else◌, arith,
}

-- How many continuation bytes are due, and the range of the next one.
pub record Due : Type 0 where
  pub count : ℕ
  pub low : ℕ
  pub high : ℕ

abbrev ground_state : Due
ground_state = record { count = 0; low = 0x80; high = 0xbf }

abbrev due : ℕ → ℕ → ℕ → Option Due
due n lo hi = some (record { count = n; low = lo; high = hi })

between : ℕ → ℕ → ℕ → Bool
between lo b hi = leb lo b && leb b hi

lead_byte : ℕ → Option Due
unfolding between
lead_byte b =
    if ltb b 0x80
    then some ground_state
    else if between 0xc2 b 0xdf
    then due 1 0x80 0xbf
    else if b == 0xe0
    then due 2 0xa0 0xbf
    else if b == 0xed
    then due 2 0x80 0x9f
    else if between 0xe1 b 0xef
    then due 2 0x80 0xbf
    else if b == 0xf0
    then due 3 0x90 0xbf
    else if between 0xf1 b 0xf3
    then due 3 0x80 0xbf
    else if b == 0xf4
    then due 3 0x80 0x8f
    else none

utf8_step : Due → ℕ → Option Due
unfolding lead_byte
utf8_step d b =
    if d.count == 0
    then lead_byte b
    else if between d.low b d.high
    then due (d.count - 1) 0x80 0xbf
    else none

utf8_run : Due → Bytes → Bool
utf8_run d [] = d.count == 0
utf8_run d (b ∷ bs) = elim (utf8_step d b) [ none ↦ false | some d' ↦ utf8_run d' bs ]

unfoldable pub is_utf8 : Bytes → Bool
unfolding utf8_run utf8_step
is_utf8 bs = utf8_run ground_state bs

-- The checked view of the bytes as a `&str`, which is the same bytes.
unfoldable pub from_utf8 : Bytes → Option Bytes
unfolding is_utf8
from_utf8 bs = if is_utf8 bs then some bs else none

abbrev pub IsAscii : Bytes → Type 0
IsAscii = All (λ b. b < 128)

ascii_run : (bs : Bytes) → IsAscii bs → utf8_run ground_state bs ≡ true
unfolding utf8_run utf8_step
ascii_run [] h = refl
ascii_run (b ∷ bs) h = ground (arith, ascii_run bs)

-- ASCII text is valid.
pub from_utf8_ascii : (bs : Bytes) → IsAscii bs → from_utf8 bs ≡ some bs
unfolding from_utf8
from_utf8_ascii bs h = ground (arith, ascii_run bs)

two_bytes : is_utf8 (0x41 ∷ 0xc3 ∷ 0xa9 ∷ []) ≡ true
unfolding is_utf8
two_bytes = refl

overlong : is_utf8 (0xc0 ∷ 0x80 ∷ []) ≡ false
unfolding is_utf8
overlong = refl

surrogate : is_utf8 (0xed ∷ 0xa0 ∷ 0x80 ∷ []) ≡ false
unfolding is_utf8
surrogate = refl

cut_short : is_utf8 (0xe2 ∷ 0x82 ∷ []) ≡ false
unfolding is_utf8
cut_short = refl
