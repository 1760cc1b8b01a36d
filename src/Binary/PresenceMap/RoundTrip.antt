-- ===== src/Binary/PresenceMap/RoundTrip.antt =====
-- A presence map is read back, bit by bit (crates/truefix-binary/src/fast/presence_map.rs).
use truefix.Base.{
  ℕ, zero, suc, ◌+◌, ◌*◌, ◌/◌, ◌%◌, ◌^◌, ◌≤◌, ◌<◌, ◌≡◌, ◌⊎◌, refl, ap, ◌∙◌, Bool, true, false, List,
  [], ◌∷◌, ◌++◌, append_assoc, Bytes, length, drop_append_length, ◌==◌, if◌then◌else◌, Result, ok,
  arith, inl, inr,
}
use truefix.Binary.Errors.{FastCodecError}
use truefix.Binary.Varint.{stop_last, set_stop}
use truefix.Binary.PresenceMap.{bit, pack, stop_packed, encode, bits_of, unpack, decode}

abbrev num : Bool → ℕ
num b = if b then 1 else 0

-- The byte of seven bits.
abbrev byte_of : Bool → Bool → Bool → Bool → Bool → Bool → Bool → ℕ
byte_of a b c d e f g =
    num a * 64 + num b * 32 + num c * 16 + num d * 8 + num e * 4 + num f * 2 + num g

weight : (b : Bool) → num b ≤ 1
weight true = omega arith
weight false = omega arith

num-test : (b : Bool) (n : ℕ) → n ≡ num b → (n == 1) ≡ b
num-test true n h = ground arith
num-test false n h = ground arith

-- The seven binary digits of a byte, with or without the stop bit.
digits7 :
    (a b c d e f g x : ℕ)
    → a ≤ 1
    → b ≤ 1
    → c ≤ 1
    → d ≤ 1
    → e ≤ 1
    → f ≤ 1
    → g ≤ 1
    → (x ≡ a * 64 + b * 32 + c * 16 + d * 8 + e * 4 + f * 2 + g)
      ⊎ (x ≡ a * 64 + b * 32 + c * 16 + d * 8 + e * 4 + f * 2 + g + 128)
    → (x / 2 ^ 6 % 2 ≡ a)
      × (x / 2 ^ 5 % 2 ≡ b)
      × (x / 2 ^ 4 % 2 ≡ c)
      × (x / 2 ^ 3 % 2 ≡ d)
      × (x / 2 ^ 2 % 2 ≡ e)
      × (x / 2 % 2 ≡ f)
      × (x % 2 ≡ g)
digits7 a b c d e f g x ha hb hc hd he hf hg (inl h) =
    (omega arith, omega arith, omega arith, omega arith, omega arith, omega arith, omega arith)
digits7 a b c d e f g x ha hb hc hd he hf hg (inr h) =
    (omega arith, omega arith, omega arith, omega arith, omega arith, omega arith, omega arith)

bits_of-byte_of :
    (a b c d e f g : Bool) (x : ℕ)
    → (x ≡ byte_of a b c d e f g) ⊎ (x ≡ byte_of a b c d e f g + 128)
    → bits_of x ≡ a ∷ b ∷ c ∷ d ∷ e ∷ f ∷ g ∷ []
unfolding bits_of
bits_of-byte_of a b c d e f g x h =
    let (ha, hb, hc, hd, he, hf, hg) =
      digits7 (num a) (num b) (num c) (num d) (num e) (num f) (num g) x (weight a) (weight b)
        (weight c) (weight d) (weight e) (weight f) (weight g) h in
    seven (num-test a _ ha) (num-test b _ hb) (num-test c _ hc) (num-test d _ hd) (num-test e _ he)
      (num-test f _ hf) (num-test g _ hg)
  where
    seven :
        {a b c d e f g a' b' c' d' e' f' g' : Bool}
        → a ≡ a'
        → b ≡ b'
        → c ≡ c'
        → d ≡ d'
        → e ≡ e'
        → f ≡ f'
        → g ≡ g'
        → a ∷ b ∷ c ∷ d ∷ e ∷ f ∷ g ∷ [] ≡ a' ∷ b' ∷ c' ∷ d' ∷ e' ∷ f' ∷ g' ∷ []
    seven e1 e2 e3 e4 e5 e6 e7 = cc

byte_of-lt : (a b c d e f g : Bool) → byte_of a b c d e f g < 128
byte_of-lt a b c d e f g =
    omega (arith, weight a, weight b, weight c, weight d, weight e, weight f, weight g)

-- How many absent bits fill up the last group of seven.
padding : List Bool → ℕ
padding [] = 0
padding (a ∷ []) = 6
padding (a ∷ b ∷ []) = 5
padding (a ∷ b ∷ c ∷ []) = 4
padding (a ∷ b ∷ c ∷ d ∷ []) = 3
padding (a ∷ b ∷ c ∷ d ∷ e ∷ []) = 2
padding (a ∷ b ∷ c ∷ d ∷ e ∷ f ∷ []) = 1
padding (a ∷ b ∷ c ∷ d ∷ e ∷ f ∷ g ∷ bits) = padding bits

absent : ℕ → List Bool
absent zero = []
absent (suc n) = false ∷ absent n

bit-absent : (bits : List Bool) (n i : ℕ) → bit (bits ++ absent n) i ≡ bit bits i
unfolding bit absent
bit-absent [] zero i = refl
bit-absent [] (suc n) zero = refl
bit-absent [] (suc n) (suc i) = bit-absent [] n i
bit-absent (b ∷ bits) n zero = refl
bit-absent (b ∷ bits) n (suc i) = bit-absent bits n i

-- One round of `unpack`.
unpack_more :
    (offset at : ℕ) (acc : List Bool) (a b c d e f g : Bool) (bytes : Bytes)
    → at < offset + 16
    → unpack offset at acc (byte_of a b c d e f g ∷ bytes)
      ≡ unpack offset (at + 1) (acc ++ (a ∷ b ∷ c ∷ d ∷ e ∷ f ∷ g ∷ [])) bytes
unfolding unpack
unpack_more offset at acc a b c d e f g bytes h =
    rw (bits_of-byte_of a b c d e f g (byte_of a b c d e f g) (inl refl))
      (ground (arith, byte_of-lt a b c d e f g))

unpack_last :
    (offset at : ℕ) (acc : List Bool) (a b c d e f g : Bool) (rest : Bytes) (x : ℕ)
    → x ≡ byte_of a b c d e f g
    → unpack offset at acc (set_stop x ∷ rest)
      ≡ ok (acc ++ (a ∷ b ∷ c ∷ d ∷ e ∷ f ∷ g ∷ []), at + 1)
unfolding unpack
unpack_last offset at acc a b c d e f g rest x h =
    let small = byte_of-lt a b c d e f g in
    let stopped : set_stop x ≡ byte_of a b c d e f g + 128 = ground arith in
    rw (stopped, bits_of-byte_of a b c d e f g (byte_of a b c d e f g + 128) (inr refl))
      (ground arith)

-- A full group is packed into its byte.
pack_group :
    (a b c d e f g : Bool) (bits : List Bool)
    → pack (a ∷ b ∷ c ∷ d ∷ e ∷ f ∷ g ∷ bits) 0 0 ≡ byte_of a b c d e f g ∷ pack bits 0 0
unfolding pack
pack_group a b c d e f g bits =
    ap (λ n. n ∷ pack bits 0 0)
      (omega (arith, weight a, weight b, weight c, weight d, weight e, weight f, weight g))

pack-nonempty :
    (bits : List Bool) (current used : ℕ)
    → 0 < used
    → used < 7
    → 0 < length (pack bits current used)
unfolding pack
pack-nonempty [] current used h l = ground arith
pack-nonempty (b ∷ bits) current used h l =
    ground (arith, pack-nonempty bits (current * 2 % 256 + num b) (used + 1))

stop_last-cons : (x : ℕ) (xs : Bytes) → 0 < length xs → stop_last (x ∷ xs) ≡ x ∷ stop_last xs
unfolding stop_last
stop_last-cons x [] h = absurd (omega arith)
stop_last-cons x (y ∷ ys) h = refl

-- What a map spells behind the bytes already read.
Reads : ℕ → ℕ → List Bool → List Bool → Bytes → Type 0
Reads offset at acc bits rest =
    unpack offset at acc (stop_last (pack bits 0 0) ++ rest)
    ≡ ok (acc ++ (bits ++ absent (padding bits)), at + length (stop_last (pack bits 0 0)))

Reads-last :
    (offset at : ℕ) (acc : List Bool) (a b c d e f g : Bool) (bits : List Bool) (rest : Bytes)
    → pack bits 0 0 ≡ byte_of a b c d e f g ∷ []
    → bits ++ absent (padding bits) ≡ a ∷ b ∷ c ∷ d ∷ e ∷ f ∷ g ∷ []
    → Reads offset at acc bits rest
unfolding Reads stop_last
Reads-last offset at acc a b c d e f g bits rest packed filled =
    rw (packed, filled) (unpack_last offset at acc a b c d e f g rest (byte_of a b c d e f g) refl)

Reads-group :
    (offset at : ℕ) (acc : List Bool) (a b c d e f g h : Bool) (bits : List Bool) (rest : Bytes)
    → at < offset + 16
    → Reads offset (at + 1) (acc ++ (a ∷ b ∷ c ∷ d ∷ e ∷ f ∷ g ∷ [])) (h ∷ bits) rest
    → Reads offset at acc (a ∷ b ∷ c ∷ d ∷ e ∷ f ∷ g ∷ h ∷ bits) rest
unfolding Reads padding
Reads-group offset at acc a b c d e f g h bits rest l more =
    rw
      (
        pack_group a b c d e f g (h ∷ bits),
        stop_last-cons (byte_of a b c d e f g) (pack (h ∷ bits) 0 0) filled,
      )
      (unpack_more offset at acc a b c d e f g (stop_last (pack (h ∷ bits) 0 0) ++ rest) l
        ∙ more
        ∙ answer
            (append_assoc acc (a ∷ b ∷ c ∷ d ∷ e ∷ f ∷ g ∷ [])
              (h ∷ (bits ++ absent (padding (h ∷ bits)))))
            (omega arith))
  where
    answer :
        {xs ys : List Bool} {n m : ℕ}
        → xs ≡ ys
        → n ≡ m
        → ◌≡◌ {A = Result (List Bool × ℕ) FastCodecError} (ok (xs, n)) (ok (ys, m))
    answer e1 e2 = cc

    filled : 0 < length (pack (h ∷ bits) 0 0)
    filled = unfold pack in pack-nonempty bits (0 + num h) 1 (omega arith) (omega arith)

unpack-pack :
    (bits : List Bool) (offset at : ℕ) (acc : List Bool) (rest : Bytes)
    → 0 < length bits
    → 7 * at + length bits ≤ 7 * offset + 119
    → Reads offset at acc bits rest
unfolding pack padding absent
unpack-pack [] offset at acc rest h l = absurd (omega arith)
unpack-pack (a ∷ []) offset at acc rest h l =
    Reads-last offset at acc a false false false false false false (a ∷ []) rest
      (ap (λ n. n ∷ []) (omega (arith, weight a))) refl
unpack-pack (a ∷ b ∷ []) offset at acc rest h l =
    Reads-last offset at acc a b false false false false false (a ∷ b ∷ []) rest
      (ap (λ n. n ∷ []) (omega (arith, weight a, weight b))) refl
unpack-pack (a ∷ b ∷ c ∷ []) offset at acc rest h l =
    Reads-last offset at acc a b c false false false false (a ∷ b ∷ c ∷ []) rest
      (ap (λ n. n ∷ []) (omega (arith, weight a, weight b, weight c))) refl
unpack-pack (a ∷ b ∷ c ∷ d ∷ []) offset at acc rest h l =
    Reads-last offset at acc a b c d false false false (a ∷ b ∷ c ∷ d ∷ []) rest
      (ap (λ n. n ∷ []) (omega (arith, weight a, weight b, weight c, weight d))) refl
unpack-pack (a ∷ b ∷ c ∷ d ∷ e ∷ []) offset at acc rest h l =
    Reads-last offset at acc a b c d e false false (a ∷ b ∷ c ∷ d ∷ e ∷ []) rest
      (ap (λ n. n ∷ []) (omega (arith, weight a, weight b, weight c, weight d, weight e))) refl
unpack-pack (a ∷ b ∷ c ∷ d ∷ e ∷ f ∷ []) offset at acc rest h l =
    Reads-last offset at acc a b c d e f false (a ∷ b ∷ c ∷ d ∷ e ∷ f ∷ []) rest
      (ap (λ n. n ∷ []) (omega (arith, weight a, weight b, weight c, weight d, weight e, weight f)))
      refl
unpack-pack (a ∷ b ∷ c ∷ d ∷ e ∷ f ∷ g ∷ []) offset at acc rest h l =
    Reads-last offset at acc a b c d e f g (a ∷ b ∷ c ∷ d ∷ e ∷ f ∷ g ∷ []) rest
      (ap (λ n. n ∷ [])
        (omega (arith, weight a, weight b, weight c, weight d, weight e, weight f, weight g)))
      refl
unpack-pack (a ∷ b ∷ c ∷ d ∷ e ∷ f ∷ g ∷ h ∷ bits) offset at acc rest _ l =
    Reads-group offset at acc a b c d e f g h bits rest (omega arith) (
      unpack-pack (h ∷ bits) offset (at + 1) (acc ++ (a ∷ b ∷ c ∷ d ∷ e ∷ f ∷ g ∷ [])) rest
        (omega arith) (omega arith))

encode-stop_last :
    (bits : List Bool) → 0 < length (pack bits 0 0) → encode bits ≡ stop_last (pack bits 0 0)
encode-stop_last bits h = unfold encode in stopped (pack bits 0 0) h
  where
    stopped : (xs : Bytes) → 0 < length xs → stop_packed xs ≡ stop_last xs
    stopped [] h = absurd (omega arith)
    stopped (x ∷ xs) h = unfold stop_packed in refl

decode-encode_bits :
    (bits : List Bool) (before rest : Bytes)
    → 0 < length bits
    → length bits ≤ 119
    → decode (before ++ (encode bits ++ rest)) (length before)
      ≡ ok (bits ++ absent (padding bits), length before + length (encode bits))
unfolding decode Reads
decode-encode_bits [] before rest h l = absurd (omega arith)
decode-encode_bits (b ∷ bits) before rest h l =
    let filled : 0 < length (pack (b ∷ bits) 0 0) =
      (unfold pack in pack-nonempty bits (0 + num b) 1 (omega arith) (omega arith)) in
    rw
      (
        encode-stop_last (b ∷ bits) filled,
        drop_append_length before (stop_last (pack (b ∷ bits) 0 0) ++ rest),
      )
      (unpack-pack (b ∷ bits) (length before) (length before) [] rest (omega arith) (omega arith))

-- The empty map is one byte with its stop bit alone.
decode-encode_empty :
    (before rest : Bytes)
    → decode (before ++ (encode [] ++ rest)) (length before)
      ≡ ok (absent 7, length before + length (encode []))
unfolding decode encode pack stop_packed unpack bits_of absent
decode-encode_empty before rest = rw (drop_append_length before (0x80 ∷ rest)) (ground arith)

-- A presence map of at most 119 bits, the empty one included, that was written is read back wherever
-- it stands in the input: every bit is the same, the bits behind the last count as absent, and the
-- offset behind the map is returned.
pub decode-encode_map :
    (bits : List Bool) (before rest : Bytes)
    → length bits ≤ 119
    → (bits' : List Bool) × (decode (before ++ (encode bits ++ rest)) (length before)
        ≡ ok (bits', length before + length (encode bits)))
      × ((i : ℕ) → bit bits' i ≡ bit bits i)
decode-encode_map [] before rest l = (absent 7, decode-encode_empty before rest, bit-absent [] 7)
decode-encode_map (b ∷ bits) before rest l = (
  (b ∷ bits) ++ absent (padding (b ∷ bits)),
  decode-encode_bits (b ∷ bits) before rest (omega arith) l,
  bit-absent (b ∷ bits) (padding (b ∷ bits)),
)
