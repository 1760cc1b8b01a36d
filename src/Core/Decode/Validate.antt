-- ===== src/Core/Decode/Validate.antt =====
-- The checks of `tokenize_validated` on rendered fields that carry a right BodyLength and CheckSum.
use truefix.Base.{
  ℕ, ◌+◌, ◌≤◌, ◌<◌, ◌≡◌, refl, ap, ◌∙◌, Bool, true, false, List, [], ◌∷◌, ◌++◌, ◌&&◌, append-nil,
  none, some, Bytes, length, length-append, take, take_append_length, last?-append, le→ltb_false,
  ok, arith, ◌==◌, ==_refl, every_below, every_below_lem,
}
use truefix.Text.Utf8.{from_utf8}
use truefix.Text.Decimal.{parse_u32, max_u64, to_string, is_digit}
use truefix.Text.Decimal.RoundTrip.{parse_usize-to_string}
use truefix.Core.Tags.{begin_string, body_length, msg_type, check_sum}
use truefix.Core.FieldMap.{Field}
use truefix.Core.Encode.{render_raw, pad3, checksum_of}
use truefix.Core.Encode.Wire.{render_fields, render_fields-append}
use truefix.Core.Framing.{max_body_len}
use truefix.Core.Decode.{
  Token, first_is_begin_string, declared_body_length, has_tag, all_digits, declared_checksum,
  actual_body_length, validate,
}
use truefix.Core.Decode.Tokens.{tokens_at}

is_printed : ℕ → Bool
is_printed k =
    length (pad3 (to_string k)) == 3
    && (all_digits (pad3 (to_string k))
        && (elim (parse_u32 (pad3 (to_string k))) [ none ↦ false | some n ↦ n == k ]))

printed_table : every_below is_printed 256 ≡ true
unfolding every_below is_printed pad3 to_string parse_u32 from_utf8 all_digits is_digit
printed_table = refl

-- A checksum printed with three digits passes the shape test and is read back.
pub pad3_lem :
    (k : ℕ)
    → k < 256
    → (length (pad3 (to_string k)) ≡ 3)
      × (all_digits (pad3 (to_string k)) ≡ true)
      × (parse_u32 (pad3 (to_string k)) ≡ some k)
unfolding is_printed
pad3_lem k h = ground (arith, every_below_lem is_printed 256 k h printed_table)

pub tokens_at-append :
    (s : ℕ) (fs gs : List Field)
    → tokens_at s (fs ++ gs) ≡ tokens_at s fs ++ tokens_at (s + length (render_fields fs)) gs
unfolding tokens_at render_fields
tokens_at-append s [] gs = ap (λ n. tokens_at n gs) (omega arith)
tokens_at-append s (f ∷ fs) gs =
    let n = length (render_raw f.tag f.value) in
    ap (λ ts. record { tag = f.tag; value = f.value; offset = s } ∷ ts)
      (tokens_at-append (s + n) fs gs ∙ ap (λ k. tokens_at (s + n) fs ++ tokens_at k gs) same)
  where
    same :
        s + length (render_raw f.tag f.value) + length (render_fields fs)
        ≡ s + length (render_raw f.tag f.value ++ render_fields fs)
    same = omega (arith, length-append (render_raw f.tag f.value) (render_fields fs))

-- A field's token at an offset.
abbrev pub token_of : Field → ℕ → Token
token_of f at = record { tag = f.tag; value = f.value; offset = at }

pub checksum_of-lt : (bytes : Bytes) → checksum_of bytes < 256
unfolding checksum_of
checksum_of-lt bytes = omega arith

declared_checksum-append :
    (ts : List Token) (t : Token) (k : ℕ)
    → k < 256
    → t.tag ≡ check_sum
    → t.value ≡ pad3 (to_string k)
    → declared_checksum (ts ++ t ∷ []) ≡ ok (k, t.offset)
unfolding declared_checksum
declared_checksum-append ts t k h ht hv =
    let (len, shape, read) = pad3_lem k h in rw (last?-append ts t, hv, read) (ground arith)

-- A BeginString field, a BodyLength field, the fields that it counts, and a CheckSum field.
module _ (b l f c : Field) (fs : List Field) where
  abbrev front : List Field
  front = b ∷ l ∷ f ∷ fs

  abbrev whole : List Field
  whole = b ∷ l ∷ f ∷ (fs ++ c ∷ [])

  abbrev cs_offset : ℕ
  cs_offset = length (render_fields front)

  whole_tokens : tokens_at 0 whole ≡ tokens_at 0 front ++ token_of c cs_offset ∷ []
  unfolding tokens_at
  whole_tokens =
      tokens_at-append 0 front (c ∷ [])
      ∙ ap (λ n. tokens_at 0 front ++ token_of c n ∷ []) (omega arith)

  whole_input : render_fields whole ≡ render_fields front ++ render_raw c.tag c.value
  unfolding render_fields
  whole_input =
      render_fields-append front (c ∷ []) ∙ ap (λ r. render_fields front ++ r) (append-nil _)

  body_length_lem :
      l.tag ≡ body_length
      → l.value ≡ to_string (length (render_fields (f ∷ fs)))
      → length (render_fields (f ∷ fs)) ≤ max_body_len
      → declared_body_length (tokens_at 0 whole) ≡ ok (length (render_fields (f ∷ fs)))
  unfolding declared_body_length tokens_at
  body_length_lem ht hv hm =
      rw (hv, parse_usize-to_string _ fits, le→ltb_false max_body_len _ hm) (ground arith)
    where
      fits : length (render_fields (f ∷ fs)) ≤ max_u64
      fits = omega arith

  checksum_lem :
      c.tag ≡ check_sum
      → c.value ≡ pad3 (to_string (checksum_of (render_fields front)))
      → declared_checksum (tokens_at 0 whole) ≡ ok (checksum_of (render_fields front), cs_offset)
  checksum_lem ht hv =
      rw whole_tokens
        (declared_checksum-append (tokens_at 0 front) (token_of c cs_offset) _ small ht hv)
    where
      small : checksum_of (render_fields front) < 256
      small = checksum_of-lt _

  actual_lem :
      actual_body_length (tokens_at 0 whole) cs_offset ≡ ok (length (render_fields (f ∷ fs)))
  unfolding actual_body_length tokens_at render_fields
  actual_lem =
      let lb = length (render_raw b.tag b.value) in
      let ll = length (render_raw l.tag l.value) in
      ground (
        arith,
        length-append (render_raw b.tag b.value) (render_fields (l ∷ f ∷ fs)),
        length-append (render_raw l.tag l.value) (render_fields (f ∷ fs)),
      )

  first_lem : b.tag ≡ begin_string → first_is_begin_string (tokens_at 0 whole) ≡ ok tt
  unfolding first_is_begin_string tokens_at
  first_lem hb = ground arith

  has_msg_type : f.tag ≡ msg_type → has_tag msg_type (tokens_at 0 whole) ≡ true
  unfolding has_tag tokens_at
  has_msg_type hf = ground arith

  -- All checks pass.
  pub validate-render_fields :
      b.tag ≡ begin_string
      → l.tag ≡ body_length
      → l.value ≡ to_string (length (render_fields (f ∷ fs)))
      → length (render_fields (f ∷ fs)) ≤ max_body_len
      → f.tag ≡ msg_type
      → c.tag ≡ check_sum
      → c.value ≡ pad3 (to_string (checksum_of (render_fields front)))
      → validate (render_fields whole) (tokens_at 0 whole) ≡ ok tt
  unfolding validate
  validate-render_fields hb hl hlv hm hf hc hcv = rw (
    first_lem hb,
    body_length_lem hl hlv hm,
    has_msg_type hf,
    checksum_lem hc hcv,
    actual_lem,
    ==_refl (length (render_fields (f ∷ fs))),
    le→ltb_false (length (render_fields whole)) cs_offset inside,
    prefix,
    ==_refl (checksum_of (render_fields front)),
  )
    where
      inside : cs_offset ≤ length (render_fields whole)
      inside =
          rw whole_input
            (omega (arith, length-append (render_fields front) (render_raw c.tag c.value)))

      prefix : take cs_offset (render_fields whole) ≡ render_fields front
      prefix = rw whole_input (take_append_length (render_fields front) (render_raw c.tag c.value))
