-- ===== src/Binary/PresenceMap.antt =====
-- crates/truefix-binary/src/fast/presence_map.rs. A presence map is its vector of bits.
pub mod RoundTrip
use truefix.Base.{
  ℕ, zero, suc, ◌+◌, ◌-◌, ◌*◌, ◌/◌, ◌%◌, ◌^◌, ◌≡◌, refl, Bool, true, false, List, [], ◌∷◌, ◌++◌,
  Option, none, some, Bytes, drop, get_elem?, ltb, leb, ◌==◌, if◌then◌else◌, Result, ok, err, stuck,
  ◌>>=◌,
}
use truefix.Binary.Errors.{FastCodecError, truncated, invalid_stop_bit}
use truefix.Binary.Varint.{stop_last}

unfoldable pub bit : List Bool → ℕ → Bool
bit bits index = elim (get_elem? bits index) [ none ↦ false | some b ↦ b ]

-- The loop of `encode` and the push of the last byte behind it.
unfoldable pub pack : List Bool → ℕ → ℕ → Bytes
pack [] current used = if used == 0 then [] else current * 2 ^ (7 - used) % 256 ∷ []
pack (b ∷ bits) current used =
    let next = current * 2 % 256 + (if b then 1 else 0) in
    let full = pack bits 0 0 in
    let more = pack bits next (used + 1) in if used + 1 == 7 then next ∷ full else more

-- The empty map is one stop byte; else the last byte gets the stop bit.
stop_packed : Bytes → Bytes
stop_packed [] = 0x80 ∷ []
stop_packed (b ∷ bs) = stop_last (b ∷ bs)

unfoldable pub encode : List Bool → Bytes
unfolding pack stop_packed
encode bits = stop_packed (pack bits 0 0)

-- Bits 6 to 0 of a byte.
unfoldable pub bits_of : ℕ → List Bool
bits_of byte =
    (byte / 2 ^ 6 % 2 == 1)
    ∷ (byte / 2 ^ 5 % 2 == 1)
    ∷ (byte / 2 ^ 4 % 2 == 1)
    ∷ (byte / 2 ^ 3 % 2 == 1)
    ∷ (byte / 2 ^ 2 % 2 == 1)
    ∷ (byte / 2 % 2 == 1)
    ∷ (byte % 2 == 1)
    ∷ []

-- The loop of `decode` over the bytes from `at` on, with the bits read so far.
unfoldable pub unpack : ℕ → ℕ → List Bool → Bytes → Result (List Bool × ℕ) FastCodecError
unfolding bits_of
unpack offset at bits [] = err (truncated at)
unpack offset at bits (byte ∷ bytes) =
    let bits' = bits ++ bits_of byte in
    let more = unpack offset (at + 1) bits' bytes in
    if leb 128 byte
    then ok (bits', at + 1)
    else if ltb 16 (at + 1 - offset)
    then err (invalid_stop_bit offset)
    else more

unfoldable pub decode : Bytes → ℕ → Result (List Bool × ℕ) FastCodecError
unfolding unpack
decode bytes offset = unpack offset offset [] (drop offset bytes)
