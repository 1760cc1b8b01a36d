-- ===== src/Binary/Examples.antt =====
-- FAST primitives at concrete inputs (crates/truefix-binary/src/fast).
use truefix.Base.{ℕ, ◌+◌, ◌≡◌, ◌++◌, refl, Bool, true, false, List, [], ◌∷◌, length, ok, arith}
use truefix.Base.Int.{negsuc}
use truefix.Binary.Varint.{encode_u64, decode_u64, encode_i64, decode_i64}
use truefix.Binary.Varint.RoundTrip.{decode_u64-encode_u64, decode_i64-encode_i64}
use truefix.Binary.PresenceMap
use truefix.Binary.PresenceMap.RoundTrip.{decode-encode_map}

encode_300 : encode_u64 300 ≡ 2 ∷ 172 ∷ []
unfolding encode_u64
encode_300 = refl

-- Ten bytes whose value needs 65 bits: the top bit is lost.
wrapped : decode_u64 (2 ∷ 0 ∷ 0 ∷ 0 ∷ 0 ∷ 0 ∷ 0 ∷ 0 ∷ 0 ∷ 133 ∷ []) 0 ≡ ok (5, 10)
unfolding decode_u64
wrapped = refl

decode_u64-encode_u64_example :
    decode_u64 ((7 ∷ []) ++ (encode_u64 300 ++ 9 ∷ [])) 1 ≡ ok (300, 1 + length (encode_u64 300))
decode_u64-encode_u64_example = decode_u64-encode_u64 300 (7 ∷ []) (9 ∷ []) (omega arith)

decode_i64-encode_i64_example :
    decode_i64 ([] ++ (encode_i64 (negsuc 64) ++ [])) 0
    ≡ ok (negsuc 64, 0 + length (encode_i64 (negsuc 64)))
decode_i64-encode_i64_example = decode_i64-encode_i64 (negsuc 64) [] [] (omega arith)

abbrev nine_bits : List Bool
nine_bits = true ∷ false ∷ false ∷ true ∷ true ∷ false ∷ true ∷ false ∷ true ∷ []

decode-encode_map_example :
    (bits' : List Bool) × (PresenceMap.decode ((7 ∷ []) ++ (PresenceMap.encode nine_bits ++ [])) 1
      ≡ ok (bits', 1 + length (PresenceMap.encode nine_bits)))
    × ((i : ℕ) → PresenceMap.bit bits' i ≡ PresenceMap.bit nine_bits i)
decode-encode_map_example = decode-encode_map nine_bits (7 ∷ []) [] (omega arith)
