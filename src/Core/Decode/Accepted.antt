-- ===== src/Core/Decode/Accepted.antt =====
-- What the decoder guarantees of an input that it accepts (codec/decode.rs).
use truefix.Base.{
  ℕ, ◌+◌, ◌≤◌, ◌≡◌, ap, sym, true, false, not, List, [], ◌∷◌, none, some, Bytes, length, ◌||◌, take,
  get_elem?, last?, ok, >>=-eq-ok, ok-injective, ok_or-eq-ok, fail_if-eq-ok, guard-eq-ok, ◌∙◌, refl,
  ok_or, ltb, arith, ◌==◌, subst,
}
use truefix.Text.Decimal.{parse_u32, parse_usize}
use truefix.Core.Tags.{begin_string, body_length, check_sum, msg_type}
use truefix.Core.Message.{Message, new_message}
use truefix.Core.Encode.{checksum_of}
use truefix.Core.Framing.{max_body_len}
use truefix.Core.Decode.{
  Token, validate, tokenize, tokenize_validated, decode, decode_loop, first_is_begin_string,
  declared_body_length, has_tag, declared_checksum, actual_body_length, body_start_of, all_digits,
}
use truefix.Core.Decode.Grammar.{Spells, tokenize_sound}

-- Tokens that open with BeginString and BodyLength, have a MsgType, and end with a CheckSum whose
-- three digits are the checksum of all bytes before it; the BodyLength is the number of bytes
-- between its field and the CheckSum field.
pub record IsValid (input : Bytes) (ts : List Token) : Type 0 where
  pub first : Token
  pub second : Token
  pub last : Token
  pub declared : ℕ
  pub first_opens : (get_elem? ts 0 ≡ some first) × (first.tag ≡ begin_string)
  pub second_declares :
      (get_elem? ts 1 ≡ some second)
      × (second.tag ≡ body_length)
      × (parse_usize second.value ≡ some declared)
  pub in_range : declared ≤ max_body_len
  pub has_type : has_tag msg_type ts ≡ true
  pub last_closes :
      (last? ts ≡ some last)
      × (last.tag ≡ check_sum)
      × (length last.value ≡ 3)
      × (all_digits last.value ≡ true)
  pub sums : parse_u32 last.value ≡ some (checksum_of (take last.offset input))
  pub spans : body_start_of ts last.offset + declared ≡ last.offset

first_is_begin_string_sound :
    (ts : List Token) (u : Unit {0})
    → first_is_begin_string ts ≡ ok u
    → (t : Token) × (get_elem? ts 0 ≡ some t) × (t.tag ≡ begin_string)
unfolding first_is_begin_string
first_is_begin_string_sound [] u h = cc
first_is_begin_string_sound (t ∷ ts) u h = (t, refl, ground (arith, fail_if-eq-ok _ _ h))

declared_body_length_sound :
    (ts : List Token) (n : ℕ)
    → declared_body_length ts ≡ ok n
    → (t : Token) × (get_elem? ts 1 ≡ some t)
      × (t.tag ≡ body_length)
      × (parse_usize t.value ≡ some n)
      × (n ≤ max_body_len)
unfolding declared_body_length
declared_body_length_sound ts n h =
    let (t, ht, h1) = >>=-eq-ok (ok_or (get_elem? ts 1) _) _ h in
    let (isl, h2) = guard-eq-ok (not (t.tag == body_length)) _ _ h1 in
    let (m, hm, h3) = >>=-eq-ok (ok_or (parse_usize t.value) _) _ h2 in
    let (bounded, h4) = guard-eq-ok (ltb max_body_len m) _ _ h3 in
    subst
      (λ n.
        (t : Token) × (get_elem? ts 1 ≡ some t)
        × (t.tag ≡ body_length)
        × (parse_usize t.value ≡ some n)
        × (n ≤ max_body_len))
      (ok-injective h4) (t, ok_or-eq-ok _ _ ht, ground arith, ok_or-eq-ok _ _ hm, ground arith)

declared_checksum_sound :
    (ts : List Token) (c : ℕ × ℕ)
    → declared_checksum ts ≡ ok c
    → (t : Token) × (last? ts ≡ some t)
      × (t.tag ≡ check_sum)
      × (length t.value ≡ 3)
      × (all_digits t.value ≡ true)
      × (parse_u32 t.value ≡ some c.0)
      × (t.offset ≡ c.1)
unfolding declared_checksum
declared_checksum_sound ts c h =
    let (t, ht, h1) = >>=-eq-ok (ok_or (last? ts) _) _ h in
    let (isl, h2) = guard-eq-ok (not (t.tag == check_sum)) _ _ h1 in
    let (three, h3) = guard-eq-ok (not (length t.value == 3) || not (all_digits t.value)) _ _ h2 in
    let (n, hn, h4) = >>=-eq-ok (ok_or (parse_u32 t.value) _) _ h3 in
    let e = ok-injective h4 in
    (
      t,
      ok_or-eq-ok _ _ ht,
      ground arith,
      ground arith,
      ground arith,
      ok_or-eq-ok _ _ hn ∙ ap (λ x. some x.0) e,
      ap (λ x. x.1) e,
    )

actual_body_length_sound :
    (ts : List Token) (o n : ℕ) → actual_body_length ts o ≡ ok n → body_start_of ts o + n ≡ o
unfolding actual_body_length
actual_body_length_sound ts o n h = ground arith

validate_sound :
    (input : Bytes) (ts : List Token) (u : Unit {0}) → validate input ts ≡ ok u → IsValid input ts
unfolding validate
validate_sound input ts u h =
    let (u1, h1, r1) = >>=-eq-ok (first_is_begin_string ts) _ h in
    let (n, h2, r2) = >>=-eq-ok (declared_body_length ts) _ r1 in
    let (typed, r3) = guard-eq-ok (not (has_tag msg_type ts)) _ _ r2 in
    let (c, h4, r4) = >>=-eq-ok (declared_checksum ts) _ r3 in
    let (a, h5, r5) = >>=-eq-ok (actual_body_length ts c.1) _ r4 in
    let (same, r6) = guard-eq-ok (not (a == n)) _ _ r5 in
    let (inside, r7) = guard-eq-ok (ltb (length input) c.1) _ _ r6 in
    let (first, f1, f2) = first_is_begin_string_sound ts u1 h1 in
    let (second, s1, s2, s3, s4) = declared_body_length_sound ts n h2 in
    let (last, l1, l2, l3, digits, l4, l5) = declared_checksum_sound ts c h4 in
    record {
      first = first;
      second = second;
      last = last;
      declared = n;
      first_opens = (f1, f2);
      second_declares = (s1, s2, s3);
      in_range = s4;
      has_type = ground arith;
      last_closes = (l1, l2, l3, digits);
      sums = l4 ∙ ap some (sum_agrees c.0 c.1 last.offset l5 (fail_if-eq-ok _ _ r7));
      spans = span_agrees c.1 a n last.offset l5 (actual_body_length_sound ts c.1 a h5) same;
    }
  where
    sum_agrees :
        (s o o' : ℕ)
        → o' ≡ o
        → not (checksum_of (take o input) == s) ≡ false
        → s ≡ checksum_of (take o' input)
    sum_agrees s o o' e h = rw e (ground arith)

    span_agrees :
        (o a n o' : ℕ)
        → o' ≡ o
        → body_start_of ts o + a ≡ o
        → not (a == n) ≡ false
        → body_start_of ts o' + n ≡ o'
    span_agrees o a n o' e h same = rw e (ground arith)

-- Whatever `decode` accepts spells its tokens, and they are valid.
pub decode_sound :
    (input : Bytes) (m : Message)
    → decode input ≡ ok m
    → (ts : List Token) × Spells none input 0 ts
      × IsValid input ts
      × (m ≡ decode_loop 0 0 new_message ts)
unfolding decode tokenize_validated
decode_sound [] m h = cc
decode_sound (b ∷ bs) m h =
    let (ts, h1, r1) = >>=-eq-ok (tokenize_validated (b ∷ bs)) _ h in
    let (ts', h2, r2) = >>=-eq-ok (tokenize (b ∷ bs)) _ h1 in
    let (u, h3, r3) = >>=-eq-ok (validate (b ∷ bs) ts') _ r2 in
    (
      ts',
      tokenize_sound (b ∷ bs) ts' h2,
      validate_sound (b ∷ bs) ts' u h3,
      sym (ap (decode_loop 0 0 new_message) (ok-injective r3) ∙ ok-injective r1),
    )
