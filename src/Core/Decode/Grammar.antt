-- ===== src/Core/Decode/Grammar.antt =====
-- What the tokenizer accepts, as a grammar, and that it ends on every input
-- (`tokenize` of codec/decode.rs).
use truefix.Base.{
  ℕ, zero, suc, ◌+◌, ◌≤◌, ◌<◌, ◌≡◌, ◌↔◌, refl, ap, inl, inr, false, List, [], ◌∷◌, ◌++◌, Option,
  none, some, Bytes, length, length-append, take, drop, get_elem?, Lacks, Result, ok, >>=-eq-ok,
  ok-injective, ok_or-eq-ok, fail_if-eq-ok, arith, subst, ◌==◌, ok_or, fail_if, Option-cases,
}
use truefix.Text.Decimal.{parse_u32, parse_usize, max_u64}
use truefix.Core.Tags.{soh, data_field_for_length}
use truefix.Core.Errors.{DecodeError}
use truefix.Core.FieldMap.{Field}
use truefix.Core.Decode.{
  Token, Pending, memchr, take_pending, read_value, check_terminator, next_pending, tokenize_field,
  tokenize_loop, tokenize,
}
use truefix.Core.Decode.Tokens.{ValueFits, tokenize_field-text, tokenize_loop_step}

abbrev pub field_of : Token → Field
field_of t = record { tag = t.tag; value = t.value }

-- The input spells the tokens: each is a text that reads as its positive tag, `=`, its value and
-- SOH; its offset is where it stands; a value is free of SOH, or has the length that the field
-- before it declared for exactly this tag.
abbrev pub Spells : Pending → Bytes → ℕ → List Token → Type 0
Spells p input at [] = input ≡ []
Spells p input at (t ∷ ts) =
    (text : Bytes) × (rest : Bytes) × (q : Pending) × (input
      ≡ text ++ b'=' ∷ (t.value ++ soh ∷ rest))
    × (parse_u32 text ≡ some t.tag)
    × (1 ≤ t.tag)
    × (t.offset ≡ at)
    × ValueFits p (field_of t)
    × (next_pending t.tag t.value 0 ≡ ok q)
    × Spells q rest (at + length text + 1 + (length t.value + 1)) ts

memchr_sound :
    (l : Bytes) (b i : ℕ)
    → memchr l b ≡ some i
    → (l ≡ take i l ++ b ∷ drop (suc i) l) × Lacks b (take i l) × (length (take i l) ≡ i)
unfolding memchr
memchr_sound [] b i h = cc
memchr_sound (c ∷ l) b zero h = ground (arith, Option-cases (memchr l b))
memchr_sound (c ∷ l) b (suc i) h = ground (arith, Option-cases (memchr l b), memchr_sound l b i)

Spells-nonempty :
    (t : Token) (ts : List Token) (input : Bytes) (pos : ℕ) (p : Pending)
    → Spells p input pos (t ∷ ts)
    → 0 < length input
Spells-nonempty t ts input pos p (text, rest, q, shape, _, _, _, _, _, _) =
    omega (arith, ap (length {0}) shape, length-append text (b'=' ∷ (t.value ++ soh ∷ rest)))

tokenize_loop-Spells :
    (ts : List Token) (fuel : ℕ) (input : Bytes) (pos : ℕ) (p : Pending)
    → length input ≤ fuel
    → pos + length input ≤ max_u64
    → Spells p input pos ts
    → tokenize_loop fuel input pos p ≡ ok ts
tokenize_loop-Spells [] fuel input pos p enough bound h = rw h (unfold tokenize_loop in refl)
tokenize_loop-Spells (t ∷ ts) zero input pos p enough bound h =
    absurd (omega (arith, Spells-nonempty t ts input pos p h))
tokenize_loop-Spells (t ∷ ts) (suc fuel) input pos p enough bound
      (text, rest, q, shape, parsed, positive, at, fits, next, more) =
    tokenize_loop_step fuel input pos p (omega (arith, size)) (rw (shape, ← at) one)
      (tokenize_loop-Spells ts fuel rest _ q (omega (arith, size)) (omega (arith, size)) more)
  where
    size : length input ≡ length text + 1 + length t.value + 1 + length rest
    size = omega (
      arith,
      ap (length {0}) shape,
      length-append text (b'=' ∷ (t.value ++ soh ∷ rest)),
      length-append t.value (soh ∷ rest),
    )

    one :
        tokenize_field (text ++ b'=' ∷ (t.value ++ soh ∷ rest)) t.offset p
        ≡ ok (t, t.offset + length text + 1 + (length t.value + 1), rest, q)
    one =
        tokenize_field-text text (field_of t) rest t.offset p parsed positive fits next
          (omega (arith, size, at))

check_terminator_sound :
    (after : Bytes) (len e : ℕ) (value : Bytes) (used : ℕ)
    → check_terminator after len e ≡ ok (value, used)
    → (used ≡ len + 1) × (value ≡ take len after) × (get_elem? after len ≡ some soh)
unfolding check_terminator
check_terminator_sound after len e value used h = ground (arith, Option-cases (get_elem? after len))

split_at :
    (l : Bytes) (i b : ℕ)
    → get_elem? l i ≡ some b
    → (l ≡ take i l ++ b ∷ drop (suc i) l) × (length (take i l) ≡ i)
split_at [] i b h = cc
split_at (c ∷ l) zero b h = ground arith
split_at (c ∷ l) (suc i) b h = ground (arith, split_at l i b)

abbrev LengthFits : Option ℕ → Bytes → Type 0
LengthFits none value = Lacks soh value
LengthFits (some n) value = n ≡ length value

-- The value at the front of `l`, `i` bytes of it, and the SOH behind.
split_value :
    (l value : Bytes) (i used : ℕ)
    → (l ≡ take i l ++ soh ∷ drop (suc i) l) × (length (take i l) ≡ i)
    → value ≡ take i l
    → used ≡ i + 1
    → (l ≡ value ++ soh ∷ drop used l) × (used ≡ length value + 1) × (i ≡ length value)
split_value l value i used (shape, len) hv hu =
    let e : used ≡ suc i = omega arith in
    (rw (hv, e) shape, rw hv (omega arith), rw hv (omega arith))

plain_answer :
    (after : Bytes) (s v i : ℕ) (value : Bytes) (used : ℕ)
    → memchr after soh ≡ some i
    → read_value none after s v ≡ ok (value, used)
    → (value ≡ take i after) × (used ≡ i + 1)
unfolding read_value
plain_answer after s v i value used e h = ground arith

sized_answer :
    (after : Bytes) (n s v : ℕ) (value : Bytes) (used : ℕ)
    → read_value (some n) after s v ≡ ok (value, used)
    → check_terminator after n (v + n) ≡ ok (value, used)
unfolding read_value
sized_answer after n s v value used h = ground arith

read_value_sound :
    (len : Option ℕ) (after : Bytes) (s v : ℕ) (value : Bytes) (used : ℕ)
    → read_value len after s v ≡ ok (value, used)
    → (after ≡ value ++ soh ∷ drop used after) × (used ≡ length value + 1) × LengthFits len value
read_value_sound none after s v value used h = elim (Option-cases (memchr after soh)) [
  | inl e ↦ absurd (no_soh e h)
  | inr (i, e) ↦
      let (shape, lacks, size) = memchr_sound after soh i e in
      let (hv, hu) = plain_answer after s v i value used e h in
      let (a, b, c) = split_value after value i used (shape, size) hv hu in (a, b, rw hv lacks)
]
  where
    no_soh : memchr after soh ≡ none → read_value none after s v ≡ ok (value, used) → ⊥
    no_soh e h = unfold read_value in ground arith
read_value_sound (some n) after s v value used h =
    let (hu, hv, at) =
      check_terminator_sound after n (v + n) value used (sized_answer after n s v value used h) in
    split_value after value n used (split_at after n soh at) hv hu

take_pending_sound :
    (p : Pending) (tag start : ℕ) (len : Option ℕ) (value : Bytes)
    → take_pending p tag start ≡ ok len
    → LengthFits len value
    → ValueFits p (record { tag = tag; value = value })
unfolding take_pending
take_pending_sound none tag start none value h fits = fits
take_pending_sound none tag start (some n) value h fits = cc
take_pending_sound (some (e, n)) tag start none value h fits = absurd (ground arith)
take_pending_sound (some (e, n)) tag start (some k) value h fits = ground arith

-- The parts of a field, joined into its text.
join_field :
    (input value rest : Bytes) (i used pos next : ℕ)
    → (input ≡ take i input ++ b'=' ∷ drop (suc i) input)
      × Lacks b'=' (take i input)
      × (length (take i input) ≡ i)
    → (drop (i + 1) input ≡ value ++ soh ∷ rest) × (used ≡ length value + 1)
    → next ≡ pos + i + 1 + used
    → (input ≡ take i input ++ b'=' ∷ (value ++ soh ∷ rest))
      × (next ≡ pos + length (take i input) + 1 + (length value + 1))
join_field input value rest i used pos next (shape, lacks, len) (hv, hu) hn =
    let step : i + 1 ≡ suc i = omega arith in
    let hv' : drop (suc i) input ≡ value ++ soh ∷ rest = rw (← step) hv in
    (rw (← hv') shape, omega arith)

-- One round that succeeds: the front of the input is a field of the grammar.
abbrev pub ReadsField : Bytes → ℕ → Pending → Token → ℕ → Bytes → Pending → Type 0
ReadsField input pos p t next rest q =
    (text : Bytes) × (input ≡ text ++ b'=' ∷ (t.value ++ soh ∷ rest))
    × (parse_u32 text ≡ some t.tag)
    × (1 ≤ t.tag)
    × (t.offset ≡ pos)
    × ValueFits p (field_of t)
    × (next_pending t.tag t.value pos ≡ ok q)
    × (next ≡ pos + length text + 1 + (length t.value + 1))

pub tokenize_field_sound :
    (input : Bytes) (pos : ℕ) (p : Pending) (t : Token) (next : ℕ) (rest : Bytes) (q : Pending)
    → tokenize_field input pos p ≡ ok (t, next, rest, q)
    → ReadsField input pos p t next rest q
unfolding tokenize_field
tokenize_field_sound input pos p t next rest q h =
    let (i, hi, h1) = >>=-eq-ok (ok_or (memchr input b'=') _) _ h in
    let (tag, htag, h2) = >>=-eq-ok (ok_or (parse_u32 (take i input)) _) _ h1 in
    let (u, hpos, h3) = >>=-eq-ok (fail_if (tag == 0) _) _ h2 in
    let (len, hlen, h4) = >>=-eq-ok (take_pending p tag pos) _ h3 in
    let (r, hr, h5) = >>=-eq-ok (read_value len (drop (i + 1) input) pos (pos + i + 1)) _ h4 in
    let (q', hq, h6) = >>=-eq-ok (next_pending tag r.0 pos) _ h5 in
    together i tag len r.0 r.1 q' (memchr_sound input b'=' i (ok_or-eq-ok _ _ hi))
      (ok_or-eq-ok _ _ htag) (fail_if-eq-ok _ _ hpos) hlen (read_value_sound len _ _ _ r.0 r.1 hr)
      hq h6
  where
    answer : ℕ → Bytes → ℕ → Bytes → Pending → Result (Token × ℕ × Bytes × Pending) DecodeError
    answer tag value next' rest' q' =
        ok (record { tag = tag; value = value; offset = pos }, next', rest', q')

    together :
        (i tag : ℕ) (len : Option ℕ) (value : Bytes) (used : ℕ) (q' : Pending)
        → (input ≡ take i input ++ b'=' ∷ drop (suc i) input)
          × Lacks b'=' (take i input)
          × (length (take i input) ≡ i)
        → parse_u32 (take i input) ≡ some tag
        → (tag == 0) ≡ false
        → take_pending p tag pos ≡ ok len
        → (drop (i + 1) input ≡ value ++ soh ∷ drop used (drop (i + 1) input))
          × (used ≡ length value + 1)
          × LengthFits len value
        → next_pending tag value pos ≡ ok q'
        → answer tag value (pos + i + 1 + used) (drop used (drop (i + 1) input)) q'
          ≡ ok (t, next, rest, q)
        → ReadsField input pos p t next rest q
    together i tag len value used q' found parsed positive taken (shape, size, fits) follows e =
        subst (λ x. ReadsField input pos p x.0 x.1 x.2 x.3) (ok-injective e)
          (let (a, b) =
              join_field input value _ i used pos (pos + i + 1 + used) found (shape, size) refl in
            (
              take i input,
              a,
              parsed,
              ground arith,
              refl,
              take_pending_sound p tag pos len value taken fits,
              follows,
              b,
            ))

-- The offset appears in an error alone.
next_pending_at :
    (tag : ℕ) (value : Bytes) (a b : ℕ) (q : Pending)
    → next_pending tag value a ≡ ok q
    → next_pending tag value b ≡ ok q
unfolding next_pending
next_pending_at tag value a b q h =
    ground (arith, Option-cases (data_field_for_length tag), Option-cases (parse_usize value))

Spells-cons :
    (p : Pending) (input : Bytes) (pos next : ℕ) (t : Token) (rest : Bytes) (q : Pending)
    (ts : List Token)
    → ReadsField input pos p t next rest q
    → Spells q rest next ts
    → Spells p input pos (t ∷ ts)
Spells-cons p input pos next t rest q ts (text, shape, parsed, positive, at, fits, follows, size)
      more =
    (
      text,
      rest,
      q,
      shape,
      parsed,
      positive,
      at,
      fits,
      next_pending_at t.tag t.value pos 0 q follows,
      subst (λ n. Spells q rest n ts) size more,
    )

tokenize_loop_sound :
    (fuel : ℕ) (input : Bytes) (pos : ℕ) (p : Pending) (ts : List Token)
    → tokenize_loop fuel input pos p ≡ ok ts
    → Spells p input pos ts
unfolding tokenize_loop
tokenize_loop_sound fuel [] pos p ts h = subst (Spells p [] pos) (ok-injective h) refl
tokenize_loop_sound zero (b ∷ bs) pos p ts h = cc
tokenize_loop_sound (suc fuel) (b ∷ bs) pos p ts h =
    let (r, hr, h1) = >>=-eq-ok (tokenize_field (b ∷ bs) pos p) _ h in
    let (ts', hts, h2) = >>=-eq-ok (tokenize_loop fuel r.2 r.1 r.3) _ h1 in
    subst (Spells p (b ∷ bs) pos) (ok-injective h2) (
      Spells-cons p (b ∷ bs) pos r.1 r.0 r.2 r.3 ts'
        (tokenize_field_sound (b ∷ bs) pos p r.0 r.1 r.2 r.3 hr)
        (tokenize_loop_sound fuel r.2 r.1 r.3 ts' hts))

pub tokenize_sound :
    (input : Bytes) (ts : List Token) → tokenize input ≡ ok ts → Spells none input 0 ts
unfolding tokenize
tokenize_sound input ts h = tokenize_loop_sound (length input) input 0 none ts h

-- The tokenizer accepts exactly the input that spells its tokens.
pub tokenize_iff :
    (input : Bytes) (ts : List Token)
    → length input ≤ max_u64
    → (tokenize input ≡ ok ts) ↔ Spells none input 0 ts
unfolding tokenize
tokenize_iff input ts bound = (
  tokenize_loop_sound (length input) input 0 none ts,
  λ h. tokenize_loop-Spells ts (length input) input 0 none (omega arith) (omega (arith, bound)) h,
)
