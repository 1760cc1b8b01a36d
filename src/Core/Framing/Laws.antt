-- ===== src/Core/Framing/Laws.antt =====
-- `frame_length` on any stream: what an accepted frame looks like, and that it does not depend on
-- what follows it.
use truefix.Base.{
  ℕ, ◌+◌, ◌-◌, ◌≤◌, ◌<◌, ◌≡◌, refl, ◌∙◌, Bool, true, false, not, Option, none, some, Bytes, codes,
  length, take, drop, get_elem?, ok, arith, fail_if, Option-cases, >>=-eq-ok,
}
use truefix.Text.Decimal.{parse_usize}
use truefix.Core.Tags.{soh}
use truefix.Core.Errors.{DecodeError}
use truefix.Core.Framing.{
  max_body_len, find, starts_with, looks_like_fix_begin_string, frame_total, frame_body_length,
  check_trailer, frame_second, frame_first, frame_length,
}

-- A frame of `n` bytes at the front of the buffer: it fits, its last seven bytes start with `10=`,
-- and the last one is SOH.
pub record IsFrame (buf : Bytes) (n : ℕ) : Type 0 where
  pub inside : n ≤ length buf
  pub has_trailer : starts_with (codes "10=") (drop (n - 7) buf) ≡ true
  pub ends : get_elem? buf (n - 1) ≡ some soh

pub check_trailer_lem :
    (buf : Bytes) (total n : ℕ)
    → check_trailer buf total ≡ ok (some n)
    → (n ≡ total) × IsFrame buf total
unfolding check_trailer
check_trailer_lem buf total n h = ground (arith, Option-cases (get_elem? buf (total - 1)))

pub frame_total_lem :
    (soh1 soh2 body n : ℕ) → frame_total soh1 soh2 body ≡ ok n → n ≡ soh1 + soh2 + body + 9
unfolding frame_total
frame_total_lem soh1 soh2 body n h = ground arith

frame_body_length_lem :
    (field : Bytes) (n : ℕ)
    → frame_body_length field ≡ ok n
    → (starts_with (codes "9=") field ≡ true)
      × (0 < n)
      × (n ≤ max_body_len)
      × (parse_usize (drop 2 field) ≡ some n)
unfolding frame_body_length
frame_body_length_lem field n h = ground arith

fail_if-not : (b : Bool) (e : DecodeError) {u : Unit {0}} → fail_if (not b) e ≡ ok u → b ≡ true
fail_if-not true e h = refl
fail_if-not false e h = cc

-- What an accepted frame tells of the buffer.
pub record FrameParts (buf : Bytes) (n : ℕ) : Type 0 where
  pub soh1 : ℕ
  pub soh2 : ℕ
  pub body : ℕ
  pub first_field : find buf soh ≡ some soh1
  pub begins : starts_with (codes "8=") buf ≡ true
  pub version : looks_like_fix_begin_string (drop 2 (take soh1 buf)) ≡ true
  pub second_field : find (drop (soh1 + 1) buf) soh ≡ some soh2
  pub length_tag : starts_with (codes "9=") (take soh2 (drop (soh1 + 1) buf)) ≡ true
  pub declared : parse_usize (drop 2 (take soh2 (drop (soh1 + 1) buf))) ≡ some body
  pub positive : 0 < body
  pub bounded : body ≤ max_body_len
  pub size : n ≡ soh1 + soh2 + body + 9
  pub frame : IsFrame buf n

frame_second_sound :
    (buf : Bytes) (soh1 : ℕ) (o : Option ℕ) (n : ℕ)
    → find buf soh ≡ some soh1
    → starts_with (codes "8=") buf ≡ true
    → looks_like_fix_begin_string (drop 2 (take soh1 buf)) ≡ true
    → find (drop (soh1 + 1) buf) soh ≡ o
    → frame_second buf soh1 (drop (soh1 + 1) buf) o ≡ ok (some n)
    → FrameParts buf n
unfolding frame_second
frame_second_sound buf soh1 none n f b v e h = cc
frame_second_sound buf soh1 (some soh2) n f b v e h =
    let (body, hb, h1) = >>=-eq-ok (frame_body_length (take soh2 (drop (soh1 + 1) buf))) _ h in
    let (total, ht, h2) = >>=-eq-ok (frame_total soh1 soh2 body) _ h1 in
    let (same, frame) = check_trailer_lem buf total n h2 in
    let (tagged, pos, bound, parsed) = frame_body_length_lem _ body hb in
    record {
      soh1 = soh1;
      soh2 = soh2;
      body = body;
      first_field = f;
      begins = b;
      version = v;
      second_field = e;
      length_tag = tagged;
      declared = parsed;
      positive = pos;
      bounded = bound;
      size = same ∙ frame_total_lem soh1 soh2 body total ht;
      frame = rw same frame;
    }

frame_first_sound :
    (buf : Bytes) (o : Option ℕ) (n : ℕ)
    → find buf soh ≡ o
    → frame_first buf o ≡ ok (some n)
    → FrameParts buf n
unfolding frame_first
frame_first_sound buf none n e h = cc
frame_first_sound buf (some soh1) n e h =
    let (u, hb, h1) = >>=-eq-ok (fail_if (not (starts_with (codes "8=") buf)) _) _ h in
    let (w, hv, h2) =
      >>=-eq-ok (fail_if (not (looks_like_fix_begin_string (drop 2 (take soh1 buf)))) _) _ h1 in
    frame_second_sound buf soh1 (find (drop (soh1 + 1) buf) soh) n e (fail_if-not _ _ hb)
      (fail_if-not _ _ hv) refl h2

-- A frame that is found opens with a field `8=` whose value looks like a FIX BeginString, up to the
-- first SOH; the field behind it starts with `9=` and holds a positive BodyLength within the limit,
-- which accounts for the size of the frame exactly; the frame is wholly in the buffer, and its last
-- seven bytes start with `10=` and end with SOH.
pub frame_length_sound : (buf : Bytes) (n : ℕ) → frame_length buf ≡ ok (some n) → FrameParts buf n
unfolding frame_length
frame_length_sound buf n h = frame_first_sound buf (find buf soh) n refl h
