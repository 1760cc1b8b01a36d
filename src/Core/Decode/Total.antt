-- ===== src/Core/Decode/Total.antt =====
-- The tokenizer and the decoder end on every input: each round takes at least two bytes, so that
-- the length of the input is fuel enough (codec/decode.rs).
use truefix.Base.{
  ℕ, zero, suc, ◌+◌, ◌≤◌, ◌<◌, ◌≢◌, ap, not, List, [], ◌∷◌, ◌++◌, Option, none, some, Bytes, length,
  length-append, drop, take, get_elem?, last?, stuck, >>=-ne-stuck, ok_or-ne-stuck,
  fail_if-ne-stuck, guard-ne-stuck, ok-ne-stuck, ltb, ◌||◌, Option-cases, arith, ◌==◌,
}
use truefix.Text.Decimal.{parse_u32, parse_usize}
use truefix.Core.Tags.{soh, body_length, check_sum, msg_type, data_field_for_length}
use truefix.Core.Decode.{
  Token, Pending, memchr, take_pending, read_value, check_terminator, next_pending, tokenize_field,
  tokenize_loop, tokenize, validate, tokenize_validated, decode, first_is_begin_string,
  declared_body_length, has_tag, declared_checksum, actual_body_length, all_digits,
}
use truefix.Core.Framing.{max_body_len}
use truefix.Core.Decode.Grammar.{ReadsField, tokenize_field_sound}

take_pending-ne-stuck : (p : Pending) (tag start : ℕ) → take_pending p tag start ≢ stuck
unfolding take_pending
take_pending-ne-stuck none tag start h = cc
take_pending-ne-stuck (some (e, n)) tag start h = ground arith

check_terminator-ne-stuck : (after : Bytes) (len e : ℕ) → check_terminator after len e ≢ stuck
unfolding check_terminator
check_terminator-ne-stuck after len e h = ground (arith, Option-cases (get_elem? after len))

read_value-ne-stuck : (len : Option ℕ) (after : Bytes) (s v : ℕ) → read_value len after s v ≢ stuck
unfolding read_value
read_value-ne-stuck none after s v h = ground (arith, Option-cases (memchr after soh))
read_value-ne-stuck (some n) after s v h = ground (arith, check_terminator-ne-stuck after n (v + n))

next_pending-ne-stuck : (tag : ℕ) (value : Bytes) (s : ℕ) → next_pending tag value s ≢ stuck
unfolding next_pending
next_pending-ne-stuck tag value s h =
    ground (arith, Option-cases (data_field_for_length tag), Option-cases (parse_usize value))

tokenize_field-ne-stuck :
    (input : Bytes) (pos : ℕ) (p : Pending) → tokenize_field input pos p ≢ stuck
unfolding tokenize_field
tokenize_field-ne-stuck input pos p = >>=-ne-stuck _ _ (ok_or-ne-stuck (memchr input b'=') _) λ i _.
    >>=-ne-stuck _ _ (ok_or-ne-stuck (parse_u32 (take i input)) _) λ tag _.
      >>=-ne-stuck _ _ (fail_if-ne-stuck (tag == 0) _) λ u _.
        >>=-ne-stuck _ _ (take_pending-ne-stuck p tag pos) λ len _.
          >>=-ne-stuck _ _ (read_value-ne-stuck len (drop (i + 1) input) pos (pos + i + 1))
            λ r _. >>=-ne-stuck _ _ (next_pending-ne-stuck tag r.0 pos) λ q _ h. cc

-- A round shortens the input.
ReadsField-shortens :
    (input : Bytes) (pos : ℕ) (p : Pending) (t : Token) (next : ℕ) (rest : Bytes) (q : Pending)
    → ReadsField input pos p t next rest q
    → length rest < length input
ReadsField-shortens input pos p t next rest q (text, shape, _, _, _, _, _, _) = omega (
  arith,
  ap (length {0}) shape,
  length-append text (b'=' ∷ (t.value ++ soh ∷ rest)),
  length-append t.value (soh ∷ rest),
)

tokenize_loop-ne-stuck :
    (fuel : ℕ) (input : Bytes) (pos : ℕ) (p : Pending)
    → length input ≤ fuel
    → tokenize_loop fuel input pos p ≢ stuck
unfolding tokenize_loop
tokenize_loop-ne-stuck fuel [] pos p enough = λ h. cc
tokenize_loop-ne-stuck zero (b ∷ bs) pos p enough = absurd (omega arith)
tokenize_loop-ne-stuck (suc fuel) (b ∷ bs) pos p enough =
    >>=-ne-stuck _ _ (tokenize_field-ne-stuck (b ∷ bs) pos p) λ r hr.
      >>=-ne-stuck _ _
        (tokenize_loop-ne-stuck fuel r.2 r.1 r.3 (
          omega (
            arith,
            ReadsField-shortens (b ∷ bs) pos p r.0 r.1 r.2 r.3
                (tokenize_field_sound (b ∷ bs) pos p r.0 r.1 r.2 r.3 hr),
          )))
        λ ts _ h. cc

tokenize-ne-stuck : (input : Bytes) → tokenize input ≢ stuck
unfolding tokenize
tokenize-ne-stuck input = tokenize_loop-ne-stuck (length input) input 0 none (omega arith)

first_is_begin_string-ne-stuck : (ts : List Token) → first_is_begin_string ts ≢ stuck
unfolding first_is_begin_string
first_is_begin_string-ne-stuck [] = λ h. cc
first_is_begin_string-ne-stuck (t ∷ ts) = fail_if-ne-stuck _ _

declared_body_length-ne-stuck : (ts : List Token) → declared_body_length ts ≢ stuck
unfolding declared_body_length
declared_body_length-ne-stuck ts = >>=-ne-stuck _ _ (ok_or-ne-stuck (get_elem? ts 1) _) λ second _.
    guard-ne-stuck (not (second.tag == body_length)) _ _ (
      >>=-ne-stuck _ _ (ok_or-ne-stuck (parse_usize second.value) _)
        λ n _. guard-ne-stuck (ltb max_body_len n) _ _ (ok-ne-stuck n))

declared_checksum-ne-stuck : (ts : List Token) → declared_checksum ts ≢ stuck
unfolding declared_checksum
declared_checksum-ne-stuck ts = >>=-ne-stuck _ _ (ok_or-ne-stuck (last? ts) _) λ t _.
    guard-ne-stuck (not (t.tag == check_sum)) _ _ (
      guard-ne-stuck (not (length t.value == 3) || not (all_digits t.value)) _ _
        (>>=-ne-stuck _ _ (ok_or-ne-stuck (parse_u32 t.value) _) λ n _. ok-ne-stuck (n, t.offset)))

actual_body_length-ne-stuck : (ts : List Token) (o : ℕ) → actual_body_length ts o ≢ stuck
unfolding actual_body_length
actual_body_length-ne-stuck ts o h = ground arith

validate-ne-stuck : (input : Bytes) (ts : List Token) → validate input ts ≢ stuck
unfolding validate
validate-ne-stuck input ts = >>=-ne-stuck _ _ (first_is_begin_string-ne-stuck ts) λ u1 _.
    >>=-ne-stuck _ _ (declared_body_length-ne-stuck ts) λ n _.
      guard-ne-stuck (not (has_tag msg_type ts)) _ _ (
        >>=-ne-stuck _ _ (declared_checksum-ne-stuck ts) λ c _.
          >>=-ne-stuck _ _ (actual_body_length-ne-stuck ts c.1) λ a _.
            guard-ne-stuck (not (a == n)) _ _
              (guard-ne-stuck (ltb (length input) c.1) _ _ (fail_if-ne-stuck _ _)))

pub tokenize_validated-ne-stuck : (input : Bytes) → tokenize_validated input ≢ stuck
unfolding tokenize_validated
tokenize_validated-ne-stuck [] = λ h. cc
tokenize_validated-ne-stuck (b ∷ bs) =
    >>=-ne-stuck _ _ (tokenize-ne-stuck (b ∷ bs))
      λ ts _. >>=-ne-stuck _ _ (validate-ne-stuck (b ∷ bs) ts) λ u _ h. cc

-- Decoding ends on every input, with a message or one of the errors.
pub decode-ne-stuck : (input : Bytes) → decode input ≢ stuck
unfolding decode
decode-ne-stuck input = >>=-ne-stuck _ _ (tokenize_validated-ne-stuck input) λ ts _ h. cc
