-- ===== src/Binary/Varint.antt =====
-- crates/truefix-binary/src/fast/varint.rs: stop-bit integers.
pub mod RoundTrip
use truefix.Base.{
  ℕ, zero, suc, ◌+◌, ◌-◌, ◌*◌, ◌/◌, ◌%◌, ◌^◌, ◌≡◌, refl, Bool, true, false, List, [], ◌∷◌, Bytes,
  drop, ltb, leb, ◌==◌, if◌then◌else◌, Result, ok, err, stuck, ◌>>=◌,
}
use truefix.Base.Int.{ℤ, pos, negsuc}
use truefix.Binary.Errors.{FastCodecError, truncated, invalid_stop_bit}

-- The `while` loop of `encode_u64`: the groups of seven bits of `value`, the lowest first. A u64 has
-- at most ten groups, the first of which is taken before the loop.
unfoldable pub parts_loop : ℕ → ℕ → List ℕ
parts_loop zero value = []
parts_loop (suc fuel) value =
    let more = parts_loop fuel (value / 2 ^ 7) in if value == 0 then [] else value % 2 ^ 7 ∷ more

-- `parts.iter().rev()`.
unfoldable pub reverse_onto : List ℕ → List ℕ → List ℕ
reverse_onto [] out = out
reverse_onto (x ∷ xs) out = reverse_onto xs (x ∷ out)

-- `byte |= 0x80`.
abbrev pub set_stop : ℕ → ℕ
set_stop byte = if ltb byte 128 then byte + 128 else byte

-- The stop bit of the last byte.
unfoldable pub stop_last : Bytes → Bytes
stop_last [] = []
stop_last (b ∷ []) = set_stop b ∷ []
stop_last (b ∷ c ∷ bs) = b ∷ stop_last (c ∷ bs)

unfoldable pub encode_u64 : ℕ → Bytes
unfolding parts_loop reverse_onto stop_last
encode_u64 value = stop_last (reverse_onto (value % 2 ^ 7 ∷ parts_loop 9 (value / 2 ^ 7)) [])

-- The loop of `decode_u64` over the bytes from `at` on. `checked_shl` drops the bits that leave the
-- word.
unfoldable pub decode_loop : ℕ → ℕ → ℕ → ℕ → Bytes → Result (ℕ × ℕ) FastCodecError
decode_loop offset value read at [] = err (truncated at)
decode_loop offset value read at (byte ∷ bytes) =
    let value' = value * 2 ^ 7 % 2 ^ 64 + byte % 2 ^ 7 in
    let more = decode_loop offset value' (read + 1) (at + 1) bytes in
    if leb 10 read
    then err (invalid_stop_bit offset)
    else if ltb byte 128
    then more
    else ok (value', at + 1)

unfoldable pub decode_u64 : Bytes → ℕ → Result (ℕ × ℕ) FastCodecError
unfolding decode_loop
decode_u64 bytes offset = decode_loop offset 0 0 offset (drop offset bytes)

-- The 64 bits of a signed number.
unfoldable pub bits_of_i64 : ℤ → ℕ
bits_of_i64 (pos n) = n
bits_of_i64 (negsuc n) = 2 ^ 64 - 1 - n

-- `(value << 1) ^ (value >> 63)`: the right operand is all ones for a negative number, and else 0.
unfoldable pub zigzag : ℤ → ℕ
unfolding bits_of_i64
zigzag (pos n) = bits_of_i64 (pos n) * 2 % 2 ^ 64
zigzag (negsuc n) = 2 ^ 64 - 1 - bits_of_i64 (negsuc n) * 2 % 2 ^ 64

unfoldable pub encode_i64 : ℤ → Bytes
unfolding zigzag encode_u64
encode_i64 value = encode_u64 (zigzag value)

-- `(raw >> 1) ^ -(raw & 1)`: the right operand is all ones for an odd number, and else 0.
unfoldable pub unzigzag : ℕ → ℤ
unzigzag raw = if raw % 2 == 1 then negsuc (raw / 2) else pos (raw / 2)

unfoldable pub decode_i64 : Bytes → ℕ → Result (ℤ × ℕ) FastCodecError
unfolding unzigzag
decode_i64 bytes offset = do (raw, next) ← decode_u64 bytes offset; ok (unzigzag raw, next)
