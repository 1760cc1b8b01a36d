-- ===== src/Session/Resend.antt =====
-- The answer to a ResendRequest, and the requests of the session itself: `request_resend`,
-- `maybe_continue_chunked_resend`, `on_resend_request`, `build_resend`, `gap_fill` and
-- `gap_fill_after_veto` of crates/truefix-session/src/state.rs.
pub mod Coverage
pub mod Answer
pub mod Chunks
use truefix.Base.{
  ℕ, zero, suc, ◌+◌, ◌-◌, ◌≡◌, refl, Bool, true, false, not, ◌&&◌, ◌||◌, List, [], ◌∷◌, ◌++◌,
  Option, none, some, Bytes, codes, ltb, leb, ◌==◌, if◌then◌else◌, and_then, is_none, min, contains,
}
use truefix.Base.Int.{ℤ, pos, negsuc}
use truefix.Base.Maps.{find_key}
use truefix.Text.Decimal.{parse_i64}
use truefix.Core.FieldMap
use truefix.Core.FieldMap.{FieldMap, Field}
use truefix.Core.Message
use truefix.Core.Message.{Message}
use truefix.Session.Config.{SessionConfig, msg_seq_num, begin_seq_no, end_seq_no}
use truefix.Session.Admin
use truefix.Session.Admin.{int, as_i64, set_header, text_at}
use truefix.Session.State.{
  Session, Action, resend, next_seq, send_stored, send_raw, send_resend, saturating_succ,
  positive_at,
}

unfoldable pub is_admin_type : Option Bytes → Bool
unfolding contains
is_admin_type none = false
is_admin_type (some []) = false
is_admin_type (some (c ∷ [])) = contains (codes "012345A") c
is_admin_type (some (c ∷ d ∷ cs)) = false

unfoldable pub gap_fill : Bytes → Session → ℕ → ℕ → Action × Session
gap_fill now s from_seq new_seq =
    let m = Admin.sequence_reset s.config now from_seq new_seq true in
    send_raw s (
      if s.config.enable_last_msg_seq_num_processed
      then set_header m (int 369 (as_i64 s.next_in_seq))
      else m)

unfoldable pub gap_fill_after_veto : Bytes → Session → ℕ → Action × Session
unfolding gap_fill saturating_succ
gap_fill_after_veto now s seq = gap_fill now s seq (saturating_succ seq)

-- The stored message that is sent again, where there is one: an application message, or any message
-- under `force_resend_when_corrupted_store`.
unfoldable pub resendable : Session → ℕ → Option Message
unfolding is_admin_type
resendable s seq = elim (find_key s.store seq) [
  | none ↦ none
  | some m ↦
      if not (is_admin_type (Message.msg_type m)) || s.config.force_resend_when_corrupted_store
      then some m
      else none
]

-- `gap_start.take()`, and the gap fill up to `new_seq` where a gap was open.
unfoldable pub close_gap : Bytes → Session → Option ℕ → ℕ → List Action × Session
unfolding gap_fill
close_gap now s none new_seq = ([], s)
close_gap now s (some from) new_seq = let (a, s1) = gap_fill now s from new_seq in (a ∷ [], s1)

-- What one number adds to the actions, where a message is sent again under it.
unfoldable pub resend_one : Bytes → Session → Option ℕ → ℕ → Message → List Action × Session
unfolding close_gap send_resend
resend_one now s gap seq m =
    let (before, s1) = close_gap now s gap seq in
    let (a, s2) = send_resend s1 (Admin.prepare_resend s1.config now m) seq in
    (before ++ a ∷ [], s2)

-- `gap_start`, where no message is sent again.
abbrev pub open_gap : Option ℕ → ℕ → Option ℕ
open_gap none seq = some seq
open_gap (some from) seq = some from

-- The loop of `build_resend`, from `seq` on; `none` is a loop that ran out of its fuel.
unfoldable pub resend_loop : ℕ → Bytes → Session → ℕ → ℕ → Option ℕ → Option (List Action × Session)
unfolding resendable close_gap resend_one saturating_succ
resend_loop zero now s seq to gap = none
resend_loop (suc fuel) now s seq to gap = elim (ltb to seq) [
  | true ↦ some (close_gap now s gap (saturating_succ to))
  | false ↦ elim (resendable s seq) [
    | none ↦ resend_loop fuel now s (saturating_succ seq) to (open_gap gap seq)
    | some m ↦
        let (actions, s1) = resend_one now s gap seq m in
        and_then (resend_loop fuel now s1 (saturating_succ seq) to none)
          λ (more, s2). some (actions ++ more, s2)
  ]
]

-- Each round takes one number, and the last finds none.
unfoldable pub build_resend : Bytes → Session → ℕ → ℕ → Option (List Action × Session)
unfolding resend_loop
build_resend now s from to = resend_loop (to + 2 - from) now s from to none

-- `as_int().ok().filter(|&s| s >= 0)`.
unfoldable pub natural_at : FieldMap → ℕ → Option ℕ
natural_at map tag =
    and_then (FieldMap.get map tag)
      λ f. and_then (parse_i64 f.value) λ n. elim n [ pos k ↦ some k | negsuc k ↦ none ]

-- BeginSeqNo: 0 stands for 1, and what is no such number for 0.
unfoldable pub requested_begin : Message → ℕ
unfolding natural_at
requested_begin m = elim (natural_at m.body begin_seq_no) [
  | none ↦ 0
  | some n ↦ (if n == 0 then 1 else n)
]

unfoldable pub requested_end : Message → ℕ
unfolding natural_at
requested_end m = elim (natural_at m.body end_seq_no) [ none ↦ 0 | some n ↦ n ]

-- 999999 means no end, up to FIX.4.2.
unfoldable pub legacy_infinity : SessionConfig → ℕ → Bool
legacy_infinity config end_req =
    (end_req == 999999) && elim (Admin.fix_version config.begin_string) [
      | none ↦ false
      | some (major, minor) ↦ ltb major 4 || (major == 4) && leb minor 2
    ]

unfoldable pub resend_end : Session → ℕ → ℕ
unfolding legacy_infinity
resend_end s end_req =
    let last = s.next_out_seq - 1 in
    if (end_req == 0) || ltb last end_req || legacy_infinity s.config end_req then last else end_req

-- The reject of a request that has no field with the tag.
unfoldable pub missing_tag : Bytes → Session → Message → ℕ → List Action × Session
unfolding next_seq send_stored positive_at
missing_tag now s m tag =
    let ref_seq : ℕ = elim (positive_at m.header msg_seq_num) [ none ↦ 0 | some n ↦ n ] in
    let (seq, s1) = next_seq s in
    let (a, s2) = send_stored s1 (
      Admin.reject_with_reason s1.config now seq ref_seq (Message.msg_type m) (some tag) 1
        (codes "required tag missing")) in
    (a ∷ [], s2)

unfoldable pub on_resend_request : Bytes → Session → Message → Option (List Action × Session)
unfolding missing_tag requested_begin requested_end resend_end build_resend
on_resend_request now s m =
    let from = requested_begin m in
    let to = resend_end s (requested_end m) in
    let answer = build_resend now s from to in
    if is_none (FieldMap.get m.body begin_seq_no)
    then some (missing_tag now s m begin_seq_no)
    else if is_none (FieldMap.get m.body end_seq_no)
    then some (missing_tag now s m end_seq_no)
    else if (from == 0) || ltb to from
    then some ([], s)
    else answer

-- The last number of the next chunk. The source's sum of two u64 stays in range: the chunk size is a
-- u32, and the numbers that are asked for come from an i64 MsgSeqNum.
unfoldable pub chunk_end : Session → ℕ → ℕ
chunk_end s from =
    let capped = from + s.config.resend_request_chunk_size - 1 in
    elim s.resend_target [ none ↦ capped | some target ↦ min target capped ]

unfoldable pub request_resend : Bytes → Session → ℕ → Action × Session
unfolding chunk_end next_seq send_stored
request_resend now s from =
    let chunked = ltb 0 s.config.resend_request_chunk_size in
    let to = if chunked then chunk_end s from else 0 in
    let (seq, s1) = next_seq (record s { resend_chunk_end = if chunked then some to else none }) in
    send_stored s1 (Admin.resend_request s1.config now seq from to)

-- The next chunk, once the chunk that is out has been filled and the gap has not been closed.
unfoldable pub next_chunk : Bytes → Session → Option ℕ → List Action × Session
unfolding request_resend
next_chunk now s none = ([], s)
next_chunk now s (some to) =
    if ltb to s.next_in_seq
    then (let (a, s1) = request_resend now s s.next_in_seq in (a ∷ [], s1))
    else ([], s)

unfoldable pub maybe_continue_chunked_resend : Bytes → Session → List Action × Session
unfolding next_chunk
maybe_continue_chunked_resend now s = elim s.resend_target [
  | none ↦ ([], s)
  | some target ↦
      if ltb target s.next_in_seq
      then ([], record s { resend_target = none; resend_chunk_end = none })
      else next_chunk now s s.resend_chunk_end
]
