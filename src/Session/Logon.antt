-- ===== src/Session/Logon.antt =====
-- The start of a session: `on_connected`, `maybe_next_expected` and `on_logon` of
-- crates/truefix-session/src/state.rs.
pub mod Accept
use truefix.Base.{
  ℕ, ◌+◌, ◌-◌, ◌^◌, Bool, true, false, not, ◌&&◌, ◌||◌, List, [], ◌∷◌, ◌++◌, Option, none, some,
  Bytes, codes, ltb, leb, ◌==◌, if◌then◌else◌, and_then, is_none,
}
use truefix.Base.Int.{ℤ, pos, negsuc}
use truefix.Core.FieldMap
use truefix.Core.Message.{Message}
use truefix.Session.Config.{
  Role, initiator, acceptor, SessionConfig, msg_seq_num, poss_dup_flag, reset_seq_num_flag,
  next_expected_msg_seq_num, heart_bt_int, default_appl_ver_id,
}
use truefix.Session.Admin
use truefix.Session.Admin.{text_at}
use truefix.Session.State.{
  Session, SessionState, disconnected, awaiting_logon, logged_on, awaiting_logout, Action,
  disconnect, reset_store, next_seq, send_stored, send_raw, positive_at, reset_sequences,
}
use truefix.Session.Resend.{build_resend, request_resend}
use truefix.Session.Inbound.{advance, validate_app, drain_queue}
use truefix.Session.Checks.{Env, Reject, flag_at, int_at, reject_logon}
use Prim.Native.Nat.{max}

unfoldable pub maybe_next_expected : Session → Option ℕ
maybe_next_expected s =
    if s.config.enable_next_expected_msg_seq_num then some s.next_in_seq else none

unfoldable pub is_acceptor : Session → Bool
is_acceptor s = elim s.config.role [ initiator ↦ false | acceptor ↦ true ]

-- What a new connection leaves of the one before.
unfoldable pub new_connection : Session → Session
new_connection s = record s {
  ticks_awaiting = 0;
  ticks_since_recv = 0;
  test_request_outstanding = false;
  resend_target = none;
  resend_chunk_end = none;
  reset_on_logon_pending = false;
  last_disconnect_reason = none;
  logon_sent = false;
  logon_received = false;
  resend_requested = false;
  queue = [];
  state = awaiting_logon;
}

-- Whether the session's own Logon has the ResetSeqNumFlag.
unfoldable pub should_send_reset : Session → Bool
should_send_reset s =
    (s.config.reset_on_logon || s.config.reset_on_logout || s.config.reset_on_disconnect)
    && (s.next_out_seq == 1)
    && (s.next_in_seq == 1)

-- A Logon of the session's own.
unfoldable pub send_logon : Env → Session → Bool → Action × Session
unfolding maybe_next_expected next_seq send_stored
send_logon e s reset =
    let expected = maybe_next_expected s in
    let (seq, s1) = next_seq s in
    send_stored (record s1 { logon_sent = true })
      (Admin.logon_with_reset_flag s1.config e.now seq expected reset)

-- The initiator's Logon, behind a full reset where it is configured.
unfoldable pub initiate : Env → Session → List Action × Session
unfolding reset_sequences should_send_reset send_logon
initiate e s =
    let s1 = if s.config.reset_on_logon then reset_sequences s true else s in
    let reset = should_send_reset s1 in
    let (a, s2) = send_logon e (record s1 { reset_on_logon_pending = reset }) reset in
    if s.config.reset_on_logon then (reset_store ∷ a ∷ [], s2) else (a ∷ [], s2)

unfoldable pub on_connected : Env → Session → List Action × Session
unfolding new_connection initiate is_acceptor
on_connected e s =
    let s1 = new_connection s in
    let started = initiate e s1 in if is_acceptor s then ([], s1) else started

abbrev plain : Bytes → Option Reject
plain text = some (record { reason = 0; ref_tag = none; text = some text; status = none })

unfoldable pub acceptor_forces_reset : Session → Bool
unfolding is_acceptor
acceptor_forces_reset s = is_acceptor s && s.config.reset_on_logon

-- The Logon's own number is too low, with nothing that excuses it.
logon_too_low : Session → Message → Bool
unfolding positive_at flag_at acceptor_forces_reset
logon_too_low s m =
    not (flag_at m.header poss_dup_flag)
    && not (flag_at m.body reset_seq_num_flag)
    && not (acceptor_forces_reset s)
    && elim (positive_at m.header msg_seq_num) [ none ↦ false | some n ↦ ltb n s.next_in_seq ]

negative_heart_beat : Message → Bool
unfolding int_at
negative_heart_beat m = elim (int_at m.body heart_bt_int) [
  | none ↦ false
  | some (pos n) ↦ false
  | some (negsuc n) ↦ true
]

-- An acceptor wants a positive HeartBtInt.
no_heart_beat : Session → Message → Bool
unfolding is_acceptor positive_at
no_heart_beat s m = is_acceptor s && is_none (positive_at m.body heart_bt_int)

expects_unsent : Session → Message → Bool
unfolding positive_at
expects_unsent s m = elim (positive_at m.body next_expected_msg_seq_num) [
  | none ↦ false
  | some n ↦ ltb s.next_out_seq n
]

-- The rejects of `on_logon` ahead of the dictionary, in their order, by the session's state.
unfoldable pub problem_in : Env → Session → Message → SessionState → Option Reject
unfolding logon_too_low positive_at negative_heart_beat no_heart_beat expects_unsent
problem_in e s m logged_on = plain (codes "session is already logged on")
problem_in e s m disconnected = plain (codes "Logon received out of sequence")
problem_in e s m awaiting_logout = plain (codes "Logon received out of sequence")
problem_in e s m awaiting_logon =
    if logon_too_low s m
    then plain (codes "MsgSeqNum too low")
    else if is_none (positive_at m.header msg_seq_num)
    then plain (codes "Required tag missing: MsgSeqNum")
    else if negative_heart_beat m
    then plain (codes "HeartBtInt must not be negative")
    else if no_heart_beat s m
    then some (record {
      reason = 0;
      ref_tag = some heart_bt_int;
      text = some (codes "HeartBtInt is required and must be positive");
      status = none;
    })
    else if expects_unsent s m
    then plain (codes "Tag 789 is higher than expected")
    else if e.outside_schedule
    then plain (codes "Logon attempted outside of the configured session schedule")
    else none

unfoldable pub logon_problem : Env → Session → Message → Option Reject
unfolding problem_in
logon_problem e s m = problem_in e s m s.state

-- The end after a Logon that the dictionary rejects.
unfoldable pub invalid_logon : Env → Session → Message → Action → List Action × Session
unfolding positive_at advance next_seq send_raw
invalid_logon e s m reject =
    let s1 : Session = elim (positive_at m.header msg_seq_num) [
      | none ↦ s
      | some n ↦ (if n == s.next_in_seq then advance s else s)
    ] in
    let (seq, s2) = next_seq s1 in
    let (a, s3) =
      send_raw s2
        (Admin.logout s2.config e.now seq (some (codes "Logon failed dictionary validation"))) in
    (reject ∷ a ∷ disconnect ∷ [], record s3 { state = disconnected })

-- The reject of a DefaultApplVerID that is not registered.
unfoldable pub version_problem : Env → Message → Option Reject
unfolding text_at
version_problem e m = elim (text_at m.body default_appl_ver_id) [
  | none ↦ none
  | some [] ↦ none
  | some (c ∷ cs) ↦
      if e.unregistered (c ∷ cs)
      then some (record {
        reason = 5;
        ref_tag = some default_appl_ver_id;
        text = some (codes "Invalid DefaultApplVerID=" ++ c ∷ cs);
        status = none;
      })
      else none
]

unfoldable pub negotiate : Session → Message → Session
unfolding text_at
negotiate s m = elim (text_at m.body default_appl_ver_id) [
  | none ↦ s
  | some v ↦ record s { negotiated_appl_ver_id = some v }
]

-- The end of the gap that is known, while the gap is asked for in chunks.
unfoldable pub raise_target : Session → ℕ → Session
raise_target s seq =
    if ltb 0 s.config.resend_request_chunk_size
    then record s {
      resend_target = elim s.resend_target [
        | none ↦ some seq
        | some target ↦ some (max target seq)
      ];
    }
    else s

unfoldable pub ask_again : Env → Session → List Action × Session
unfolding request_resend
ask_again e s =
    let (a, s1) = request_resend e.now (record s { resend_requested = true }) s.next_in_seq in
    (a ∷ [], s1)
