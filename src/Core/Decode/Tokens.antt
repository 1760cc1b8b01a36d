-- ===== src/Core/Decode/Tokens.antt =====
-- The tokenizer reads back rendered fields, also data fields with SOH bytes inside.
use truefix.Base.{
  ℕ, zero, suc, ◌+◌, ◌≤◌, ◌<◌, ◌≡◌, refl, inr, false, List, [], ◌∷◌, ◌++◌, append_assoc, Option,
  none, some, Bytes, length, length-append, drop, take_append_length, get_elem?, Lacks,
  le→ltb_false, ok, arith, ◌==◌,
}
use native.Mathlib.Numerals.{add-one}
use truefix.Text.Decimal.{parse_u32, max_u32, max_u64, write_tag}
use truefix.Text.Decimal.RoundTrip.{parse_u32-write_tag, parse_u32-Lacks}
use truefix.Core.Tags.{soh}
use truefix.Core.FieldMap.{Field}
use truefix.Core.Encode.{render_raw}
use truefix.Core.Encode.Wire.{render_fields}
use truefix.Core.Decode.{
  Token, Pending, memchr, take_pending, read_value, next_pending, tokenize_field, tokenize_loop,
  tokenize, check_terminator,
}

pub memchr-append :
    (p : Bytes) (b : ℕ) (r : Bytes) → Lacks b p → memchr (p ++ b ∷ r) b ≡ some (length p)
unfolding memchr
memchr-append [] b r h = ground arith
memchr-append (c ∷ p) b r h = ground (arith, memchr-append p b r)

get_elem?-append : (p : Bytes) (b : ℕ) (r : Bytes) → get_elem? (p ++ b ∷ r) (length p) ≡ some b
get_elem?-append [] b r = refl
get_elem?-append (c ∷ p) b r = get_elem?-append p b r

drop_past : (p : Bytes) (b : ℕ) (r : Bytes) → drop (length p + 1) (p ++ b ∷ r) ≡ r
drop_past p b r = rw (add-one (length p)) (past p)
  where
    past : (p : Bytes) → drop (suc (length p)) (p ++ b ∷ r) ≡ r
    past [] = refl
    past (c ∷ p) = past p

-- A value without SOH, or one of the pending length under the tag that the length governs.
abbrev pub ValueFits : Pending → Field → Type 0
ValueFits none f = Lacks soh f.value
ValueFits (some (expected_tag, len)) f = (expected_tag ≡ f.tag) × (len ≡ length f.value)

-- Fields that the wire can carry, from the given pending length on: tags in range, values that fit,
-- and behind each length field the data field that it governs.
abbrev pub IsWire : Pending → List Field → Type 0
IsWire p [] = p ≡ none
IsWire p (f ∷ fs) =
    (1 ≤ f.tag)
    × (f.tag ≤ max_u32)
    × ValueFits p f
    × ((q : Pending) × (next_pending f.tag f.value 0 ≡ ok q) × IsWire q fs)

pub IsWire-append :
    (p : Pending) (fs gs : List Field) → IsWire p fs → IsWire none gs → IsWire p (fs ++ gs)
IsWire-append p [] gs h hg = rw h hg
IsWire-append p (f ∷ fs) gs (a, b, c, (q, e, h)) hg = (a, b, c, (q, e, IsWire-append q fs gs h hg))

-- The tokens of rendered fields, from an offset on.
unfoldable pub tokens_at : ℕ → List Field → List Token
tokens_at start [] = []
tokens_at start (f ∷ fs) =
    record { tag = f.tag; value = f.value; offset = start }
    ∷ tokens_at (start + length (render_raw f.tag f.value)) fs

pub length-render_raw :
    (tag : ℕ) (value : Bytes)
    → length (render_raw tag value) ≡ length (write_tag tag) + 1 + length value + 1
unfolding render_raw
length-render_raw tag value = omega (
  arith,
  length-append (write_tag tag) (b'=' ∷ (value ++ soh ∷ [])),
  length-append value (soh ∷ []),
)

pub render_raw-append :
    (tag : ℕ) (value rest : Bytes)
    → render_raw tag value ++ rest ≡ write_tag tag ++ b'=' ∷ (value ++ soh ∷ rest)
unfolding render_raw
render_raw-append tag value rest = simp append_assoc

next_pending_start :
    (tag : ℕ) (value : Bytes) (s : ℕ) {q : Pending}
    → next_pending tag value 0 ≡ ok q
    → next_pending tag value s ≡ ok q
unfolding next_pending
next_pending_start tag value s h = ground arith

check_terminator_lem :
    (value rest : Bytes) (val_end : ℕ)
    → check_terminator (value ++ soh ∷ rest) (length value) val_end ≡ ok (value, length value + 1)
unfolding check_terminator
check_terminator_lem value rest val_end =
    rw (get_elem?-append value soh rest, check_terminator)
      (rw (take_append_length value (soh ∷ rest)))

read_sized :
    (value rest : Bytes) (start val_start : ℕ)
    → val_start + length value ≤ max_u64
    → read_value (some (length value)) (value ++ soh ∷ rest) start val_start
      ≡ ok (value, length value + 1)
unfolding read_value
read_sized value rest start val_start fits =
    rw
      (
        le→ltb_false max_u64 _ fits,
        le→ltb_false (length (value ++ soh ∷ rest)) (length value) short,
      )
      (check_terminator_lem value rest (val_start + length value))
  where
    short : length value ≤ length (value ++ soh ∷ rest)
    short = omega (arith, length-append value (soh ∷ rest))

read_plain :
    (value rest : Bytes) (start val_start : ℕ)
    → Lacks soh value
    → read_value none (value ++ soh ∷ rest) start val_start ≡ ok (value, length value + 1)
unfolding read_value
read_plain value rest start val_start h =
    rw (memchr-append value soh rest h, read_value) (rw (take_append_length value (soh ∷ rest)))

read_value_lem :
    (p : Pending) (f : Field) (rest : Bytes) (start val_start : ℕ)
    → ValueFits p f
    → val_start + length f.value ≤ max_u64
    → (len : Option ℕ) × (take_pending p f.tag start ≡ ok len)
      × (read_value len (f.value ++ soh ∷ rest) start val_start ≡ ok (f.value, length f.value + 1))
unfolding take_pending
read_value_lem none f rest start val_start h fits =
    (none, refl, read_plain f.value rest start val_start h)
read_value_lem (some (e, len)) f rest start val_start (he, hl) fits =
    (some len, ground arith, rw hl (read_sized f.value rest start val_start fits))

-- What one round of the tokenizer does with a text that reads as the tag, the value, and what
-- follows.
pub tokenize_field-text :
    (text : Bytes) (f : Field) (rest : Bytes) (start : ℕ) (p : Pending) {q : Pending}
    → parse_u32 text ≡ some f.tag
    → 1 ≤ f.tag
    → ValueFits p f
    → next_pending f.tag f.value 0 ≡ ok q
    → start + length text + 1 + length f.value ≤ max_u64
    → tokenize_field (text ++ b'=' ∷ (f.value ++ soh ∷ rest)) start p
      ≡ ok (
        record { tag = f.tag; value = f.value; offset = start },
        start + length text + 1 + (length f.value + 1),
        rest,
        q,
      )
unfolding tokenize_field
tokenize_field-text text f rest start p {q} parsed positive fits next bound =
    let (len, taken, read) =
      read_value_lem p f rest start (start + length text + 1) fits (omega arith) in
    rw
      (
        memchr-append text b'=' (f.value ++ soh ∷ rest)
            (parse_u32-Lacks b'=' text f.tag (omega arith) (inr (omega arith)) parsed),
        take_append_length text (b'=' ∷ (f.value ++ soh ∷ rest)),
        parsed,
        nonzero,
      )
      (simp (drop_past, taken, read, next_pending_start f.tag f.value start next))
  where
    nonzero : (f.tag == 0) ≡ false
    nonzero = ground arith

-- The same for a rendered field.
pub tokenize_field-render_raw :
    (f : Field) (rest : Bytes) (start : ℕ) (p : Pending) {q : Pending}
    → 1 ≤ f.tag
    → f.tag ≤ max_u32
    → ValueFits p f
    → next_pending f.tag f.value 0 ≡ ok q
    → start + length (render_raw f.tag f.value) ≤ max_u64
    → tokenize_field (render_raw f.tag f.value ++ rest) start p
      ≡ ok (
        record { tag = f.tag; value = f.value; offset = start },
        start + length (render_raw f.tag f.value),
        rest,
        q,
      )
tokenize_field-render_raw f rest start p positive small fits next bound =
    let size = length-render_raw f.tag f.value in
    rw (render_raw-append, same_end)
      (tokenize_field-text (write_tag f.tag) f rest start p (parse_u32-write_tag f.tag small)
        positive fits next (omega (arith, size)))
  where
    same_end :
        start + length (render_raw f.tag f.value)
        ≡ start + length (write_tag f.tag) + 1 + (length f.value + 1)
    same_end = omega (arith, length-render_raw f.tag f.value)

-- One round of the loop, the input being not empty.
pub tokenize_loop_step :
    (fuel : ℕ) (input : Bytes) (pos : ℕ) (p : Pending) {t : Token} {next : ℕ} {rest : Bytes}
    {q : Pending} {ts : List Token}
    → 0 < length input
    → tokenize_field input pos p ≡ ok (t, next, rest, q)
    → tokenize_loop fuel rest next q ≡ ok ts
    → tokenize_loop (suc fuel) input pos p ≡ ok (t ∷ ts)
unfolding tokenize_loop
tokenize_loop_step fuel [] pos p pos_len e h = absurd (omega arith)
tokenize_loop_step fuel (b ∷ bs) pos p pos_len e h = rw e (rw h)

pub tokenize_loop-render_fields :
    (fs : List Field) (fuel start : ℕ) (p : Pending)
    → IsWire p fs
    → length (render_fields fs) ≤ fuel
    → start + length (render_fields fs) ≤ max_u64
    → tokenize_loop fuel (render_fields fs) start p ≡ ok (tokens_at start fs)
unfolding render_fields tokens_at
tokenize_loop-render_fields [] fuel start p h enough bound = unfold tokenize_loop in refl
tokenize_loop-render_fields (f ∷ fs) zero start p h enough bound = absurd (
    omega (
      arith,
      length-append (render_raw f.tag f.value) (render_fields fs),
      length-render_raw f.tag f.value,
    ))
tokenize_loop-render_fields (f ∷ fs) (suc fuel) start p (positive, small, fits, (q, next, more))
      enough bound =
    let both = length-append (render_raw f.tag f.value) (render_fields fs) in
    let one = length-render_raw f.tag f.value in
    tokenize_loop_step fuel (render_raw f.tag f.value ++ render_fields fs) start p
      (omega (arith, both, one))
      (tokenize_field-render_raw f (render_fields fs) start p positive small fits next
        (omega (arith, both)))
      (tokenize_loop-render_fields fs fuel (start + length (render_raw f.tag f.value)) q more
        (omega (arith, both, one)) (omega (arith, both)))

-- Rendered fields are read back one by one, each with its tag, its value and its offset.
pub tokenize-render_fields :
    (fs : List Field)
    → IsWire none fs
    → length (render_fields fs) ≤ max_u64
    → tokenize (render_fields fs) ≡ ok (tokens_at 0 fs)
unfolding tokenize
tokenize-render_fields fs h bound =
    tokenize_loop-render_fields fs (length (render_fields fs)) 0 none h (omega arith) (omega arith)
