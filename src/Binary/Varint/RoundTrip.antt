-- ===== src/Binary/Varint/RoundTrip.antt =====
-- A stop-bit integer is read back, wherever it stands in the input.
use truefix.Base.{
  ℕ, zero, suc, ◌+◌, ◌*◌, ◌/◌, ◌%◌, ◌^◌, ◌≤◌, ◌<◌, ◌≡◌, refl, ap, ◌∙◌, List, [], ◌∷◌, ◌++◌, Bytes,
  length, drop_append_length, ◌==◌, if◌then◌else◌, Bool-cases, inl, inr, Result, ok, arith,
}
use truefix.Base.Int.{ℤ, pos, negsuc}
use truefix.Binary.Errors.{FastCodecError}
use truefix.Binary.Varint.{
  parts_loop, reverse_onto, stop_last, encode_u64, decode_loop, decode_u64, zigzag, bits_of_i64,
  unzigzag, encode_i64, decode_i64,
}

-- The groups of `value` in front of `out`, the highest first.
high : ℕ → ℕ → Bytes → Bytes
high zero value out = out
high (suc fuel) value out =
    let more = high fuel (value / 2 ^ 7) (value % 2 ^ 7 ∷ out) in if value == 0 then out else more

-- How many groups those are.
groups : ℕ → ℕ → ℕ
groups zero value = 0
groups (suc fuel) value =
    let more = groups fuel (value / 2 ^ 7) in if value == 0 then 0 else suc more

reverse_onto-parts_loop :
    (fuel value : ℕ) (out : Bytes) → reverse_onto (parts_loop fuel value) out ≡ high fuel value out
unfolding reverse_onto parts_loop high
reverse_onto-parts_loop zero value out = refl
reverse_onto-parts_loop (suc fuel) value out =
    ground (arith, reverse_onto-parts_loop fuel (value / 2 ^ 7) (value % 2 ^ 7 ∷ out))

stop_last-reverse_onto :
    (ps : List ℕ) (y : ℕ) (ys : Bytes)
    → stop_last (reverse_onto ps (y ∷ ys)) ≡ reverse_onto ps (stop_last (y ∷ ys))
unfolding reverse_onto
stop_last-reverse_onto [] y ys = refl
stop_last-reverse_onto (p ∷ ps) y ys =
    stop_last-reverse_onto ps p (y ∷ ys) ∙ (unfold stop_last in refl)

encode_u64-high :
    (value : ℕ) → encode_u64 value ≡ high 9 (value / 2 ^ 7) ((value % 2 ^ 7 + 128) ∷ [])
encode_u64-high value =
    opened
    ∙ stop_last-reverse_onto (parts_loop 9 (value / 2 ^ 7)) (value % 2 ^ 7) []
    ∙ ap (reverse_onto (parts_loop 9 (value / 2 ^ 7))) stopped
    ∙ reverse_onto-parts_loop 9 (value / 2 ^ 7) ((value % 2 ^ 7 + 128) ∷ [])
  where
    opened :
        encode_u64 value
        ≡ stop_last (reverse_onto (parts_loop 9 (value / 2 ^ 7)) (value % 2 ^ 7 ∷ []))
    opened = unfold encode_u64 reverse_onto in refl

    stopped : stop_last (value % 2 ^ 7 ∷ []) ≡ (value % 2 ^ 7 + 128) ∷ []
    stopped = unfold stop_last in ground arith

groups_le : (fuel value : ℕ) → groups fuel value ≤ fuel
unfolding groups
groups_le zero value = omega arith
groups_le (suc fuel) value = ground (arith, groups_le fuel (value / 2 ^ 7))

length-high :
    (fuel value : ℕ) (out : Bytes) → length (high fuel value out) ≡ groups fuel value + length out
unfolding high groups
length-high zero value out = omega arith
length-high (suc fuel) value out =
    ground (arith, length-high fuel (value / 2 ^ 7) (value % 2 ^ 7 ∷ out))

high-append :
    (fuel value : ℕ) (out rest : Bytes)
    → high fuel value out ++ rest ≡ high fuel value (out ++ rest)
unfolding high
high-append zero value out rest = refl
high-append (suc fuel) value out rest =
    ground (arith, high-append fuel (value / 2 ^ 7) (value % 2 ^ 7 ∷ out) rest)

decode_loop-group :
    (offset v read at d : ℕ) (bytes : Bytes)
    → read < 10
    → v * 2 ^ 7 + d < 2 ^ 64
    → d < 2 ^ 7
    → decode_loop offset v read at (d ∷ bytes)
      ≡ decode_loop offset (v * 2 ^ 7 + d) (read + 1) (at + 1) bytes
unfolding decode_loop
decode_loop-group offset v read at d bytes hr hv hd = ground arith

same_loop :
    {v w read read' at at' : ℕ} (offset : ℕ) (out : Bytes)
    → v ≡ w
    → read ≡ read'
    → at ≡ at'
    → decode_loop offset v read at out ≡ decode_loop offset w read' at' out
same_loop offset out e1 e2 e3 = cc

-- Reading the groups of a number yields it.
decode_loop-high :
    (fuel value offset at : ℕ) (out : Bytes)
    → fuel ≤ 9
    → value < 128 ^ fuel
    → value < 2 ^ 64
    → decode_loop offset 0 0 at (high fuel value out)
      ≡ decode_loop offset value (groups fuel value) (at + groups fuel value) out
unfolding high groups
decode_loop-high zero value offset at out hf hv hw =
    same_loop offset out (omega arith) refl (omega arith)
decode_loop-high (suc fuel) value offset at out hf hv hw = elim (Bool-cases (value == 0)) [
  | inl e ↦ rw e (same_loop offset out (ground arith) refl (omega arith))
  | inr e ↦ rw e (
      decode_loop-high fuel (value / 2 ^ 7) offset at (value % 2 ^ 7 ∷ out) (omega arith)
        (ground arith) (omega arith)
      ∙ decode_loop-group offset (value / 2 ^ 7) (groups fuel (value / 2 ^ 7))
          (at + groups fuel (value / 2 ^ 7)) (value % 2 ^ 7) out
          (omega (arith, groups_le fuel (value / 2 ^ 7))) (omega arith) (omega arith)
      ∙ same_loop offset out (omega arith) (omega arith) (omega arith))
]

decode_loop-last :
    (offset v read at d : ℕ) (bytes : Bytes)
    → read < 10
    → v * 2 ^ 7 + d < 2 ^ 64
    → d < 2 ^ 7
    → decode_loop offset v read at ((d + 128) ∷ bytes) ≡ ok (v * 2 ^ 7 + d, at + 1)
unfolding decode_loop
decode_loop-last offset v read at d bytes hr hv hd = ground arith

decode_loop-encode :
    (value offset at : ℕ) (rest : Bytes)
    → value < 2 ^ 64
    → decode_loop offset 0 0 at (encode_u64 value ++ rest)
      ≡ ok (value, at + length (encode_u64 value))
decode_loop-encode value offset at rest h =
    let q = value / 2 ^ 7 in
    let d = value % 2 ^ 7 in
    let n = groups 9 q in
    ap (decode_loop offset 0 0 at)
      (ap (λ x. x ++ rest) (encode_u64-high value) ∙ high-append 9 q ((d + 128) ∷ []) rest)
    ∙ decode_loop-high 9 q offset at ((d + 128) ∷ rest) (omega arith) (omega arith) (omega arith)
    ∙ decode_loop-last offset q n (at + n) d rest (omega (arith, groups_le 9 q)) (omega arith)
        (omega arith)
    ∙ answer (omega arith)
        (omega (arith, ap (length {0}) (encode_u64-high value), length-high 9 q ((d + 128) ∷ [])))
  where
    answer :
        {v v' n n' : ℕ}
        → v ≡ v'
        → n ≡ n'
        → ◌≡◌ {A = Result (ℕ × ℕ) FastCodecError} (ok (v, n)) (ok (v', n'))
    answer e1 e2 = cc

-- A u64 that was written is read back, wherever it stands in the input, and the offset behind it
-- is returned.
pub decode_u64-encode_u64 :
    (value : ℕ) (before rest : Bytes)
    → value < 2 ^ 64
    → decode_u64 (before ++ (encode_u64 value ++ rest)) (length before)
      ≡ ok (value, length before + length (encode_u64 value))
unfolding decode_u64
decode_u64-encode_u64 value before rest h =
    rw (drop_append_length before (encode_u64 value ++ rest))
      (decode_loop-encode value (length before) (length before) rest h)

-- A number in the range of i64.
abbrev pub IsI64 : ℤ → Type 0
IsI64 (pos n) = n < 2 ^ 63
IsI64 (negsuc n) = n < 2 ^ 63

unzigzag-zigzag : (v : ℤ) → IsI64 v → unzigzag (zigzag v) ≡ v
unfolding zigzag unzigzag bits_of_i64
unzigzag-zigzag (pos n) h = ground arith
unzigzag-zigzag (negsuc n) h = ground arith

zigzag-lt : (v : ℤ) → IsI64 v → zigzag v < 2 ^ 64
unfolding zigzag bits_of_i64
zigzag-lt (pos n) h = omega arith
zigzag-lt (negsuc n) h = omega arith

-- An i64 that was written is read back, wherever it stands in the input.
pub decode_i64-encode_i64 :
    (value : ℤ) (before rest : Bytes)
    → IsI64 value
    → decode_i64 (before ++ (encode_i64 value ++ rest)) (length before)
      ≡ ok (value, length before + length (encode_i64 value))
unfolding decode_i64 encode_i64
decode_i64-encode_i64 value before rest h =
    rw (
      decode_u64-encode_u64 (zigzag value) before rest (zigzag-lt value h),
      unzigzag-zigzag value h,
    )
