-- ===== src/Session/Received.antt =====
-- A received message: `on_received` of crates/truefix-session/src/state.rs.
pub mod Refused
pub mod Early
use truefix.Base.{
  ℕ, Bool, true, false, not, ◌&&◌, ◌||◌, List, [], ◌∷◌, ◌++◌, Option, none, some, codes, ltb, ◌==◌,
  if◌then◌else◌, and_then,
}
use truefix.Base.Maps.{insert}
use truefix.Core.Message
use truefix.Core.Message.{Message}
use truefix.Session.Config.{msg_seq_num, poss_dup_flag, gap_fill_flag, sending_time}
use truefix.Session.Admin
use truefix.Session.State.{
  Session, Action, next_seq, send_stored, positive_at, is_logged_on, on_logout_msg,
}
use truefix.Session.Resend.{on_resend_request}
use truefix.Session.Inbound.{
  Round, gap, again, ended, is_type, validate_app, process_in_order, advance, after_reject,
  drain_queue,
}
use truefix.Session.SequenceReset.{on_sequence_reset}
use truefix.Session.Checks.{
  Env, Reject, IdentityProblem, begin_string, comp_id, problem_text, flag_at,
  poss_dup_falsification_check, poss_dup_anti_replay_violation, identity_problem, latency_ok,
  session_reject_before_logout, abort, abort_with_reject,
}
use truefix.Session.Logon.{raise_target, ask_again}
use truefix.Session.Logon.Accept.{on_logon}

-- What follows actions that are done already.
abbrev pub after : List Action → Option (List Action × Session) → Option (List Action × Session)
after actions rest = and_then rest λ (more, s). some (actions ++ more, s)

-- A message with too high a number waits in the queue, and the gap is asked for: not before the
-- Logon, and not again unless that is configured.
unfoldable pub queue_early : Env → Session → ℕ → Message → List Action × Session
unfolding raise_target ask_again is_logged_on
queue_early e s seq m =
    let s1 = raise_target (record s { queue = insert s.queue seq m }) seq in
    let asked = ask_again e s1 in
    if is_logged_on s && (not s.resend_requested || s.config.send_redundant_resend_requests)
    then asked
    else ([], s1)

-- A message with too low a number ends the session, or is dropped if it is a PossDup that holds up.
unfoldable pub on_low : Env → Session → Message → List Action × Session
unfolding flag_at poss_dup_anti_replay_violation session_reject_before_logout abort
on_low e s m = elim (flag_at m.header poss_dup_flag) [
  | true ↦ elim (poss_dup_anti_replay_violation e s m) [
    | some reject ↦ session_reject_before_logout e s m reject
    | none ↦ ([], s)
  ]
  | false ↦ abort e s (codes "MsgSeqNum too low")
]

-- The queue is drained behind a reject, unless the session has ended.
unfoldable pub drain_after : Env → Round → Option (List Action × Session)
unfolding drain_queue
drain_after e gap = none
drain_after e (ended actions s) = some (actions, s)
drain_after e (again actions s) = after actions (drain_queue e.check e.now s)

unfoldable pub on_expected : Env → Session → Message → Option (List Action × Session)
unfolding validate_app after_reject drain_after process_in_order advance drain_queue
on_expected e s m = elim (validate_app e.check e.now s m) [
  | some (reject, s1) ↦ drain_after e (after_reject e.now s1 reject)
  | none ↦
      and_then (process_in_order e.now s m (Message.msg_type m))
        λ (actions, s1). after actions (drain_queue e.check e.now (advance s1))
]

-- A Logout is taken at once, and a ResendRequest is answered at once and waits all the same.
unfoldable pub on_early : Env → Session → ℕ → Message → Option (List Action × Session)
unfolding is_type on_logout_msg on_resend_request queue_early
on_early e s seq m = elim (is_type (Message.msg_type m) b'5') [
  | true ↦ some (on_logout_msg e.now s)
  | false ↦ elim (is_type (Message.msg_type m) b'2') [
    | true ↦
        and_then (on_resend_request e.now s m)
          λ (actions, s1). let (more, s2) = queue_early e s1 seq m in some (actions ++ more, s2)
    | false ↦ some (queue_early e s seq m)
  ]
]

-- By the message's number.
unfoldable pub by_number : Env → Session → ℕ → Message → Option (List Action × Session)
unfolding on_expected on_early on_low
by_number e s seq m = elim (seq == s.next_in_seq) [
  | true ↦ on_expected e s m
  | false ↦ elim (ltb s.next_in_seq seq) [ true ↦ on_early e s seq m | false ↦ some (on_low e s m) ]
]

-- A SequenceReset without GapFillFlag counts whatever its number.
unfoldable pub reset_by_number : Env → Session → ℕ → Message → Option (List Action × Session)
unfolding flag_at on_sequence_reset queue_early on_low
reset_by_number e s seq m = elim (not (flag_at m.body gap_fill_flag) || (seq == s.next_in_seq)) [
  | true ↦ on_sequence_reset e.check e.now s m
  | false ↦ elim (ltb s.next_in_seq seq) [
    | true ↦ some (queue_early e s seq m)
    | false ↦ some (on_low e s m)
  ]
]

-- The reject of a message that has no MsgSeqNum.
unfoldable pub unnumbered_reject : Env → Session → Message → List Action × Session
unfolding next_seq send_stored
unnumbered_reject e s m =
    let (seq, s1) = next_seq s in
    let (a, s2) = send_stored s1 (
      Admin.reject s1.config e.now seq 0 (Message.msg_type m)
        (codes "missing or invalid MsgSeqNum")) in
    (a ∷ [], s2)

-- `poss_dup && let Some(reject) = …`.
unfoldable pub falsified : Env → Message → Option Reject
unfolding flag_at poss_dup_falsification_check
falsified e m = if flag_at m.header poss_dup_flag then poss_dup_falsification_check e m else none

-- From the message's number on.
unfoldable pub numbered : Env → Session → Message → Option (List Action × Session)
unfolding positive_at unnumbered_reject falsified session_reject_before_logout is_type
    reset_by_number by_number
numbered e s m = elim (positive_at m.header msg_seq_num) [
  | none ↦ some (unnumbered_reject e s m)
  | some seq ↦ elim (falsified e m) [
    | some reject ↦ some (session_reject_before_logout e s m reject)
    | none ↦ elim (is_type (Message.msg_type m) b'4') [
      | true ↦ reset_by_number e s seq m
      | false ↦ by_number e s seq m
    ]
  ]
]

-- The types that are taken before the session is logged on.
unfoldable pub valid_logon_state : Session → Message → Bool
unfolding is_logged_on is_type
valid_logon_state s m =
    let mt = Message.msg_type m in
    is_logged_on s || is_type mt b'A' || is_type mt b'5' || is_type mt b'4' || is_type mt b'3'

unfoldable pub dispatch : Env → Session → Message → Option (List Action × Session)
unfolding valid_logon_state abort is_type on_logon numbered
dispatch e s m = elim (valid_logon_state s m) [
  | false ↦ some (abort e s (codes "Logon state is not valid"))
  | true ↦ elim (is_type (Message.msg_type m) b'A') [
    | true ↦ on_logon e s m
    | false ↦ numbered e s m
  ]
]

abbrev pub accuracy_reject : Reject
accuracy_reject = record {
  reason = 10;
  ref_tag = some sending_time;
  text = some (codes "SendingTime accuracy problem");
  status = none;
}

abbrev pub comp_id_reject : Reject
comp_id_reject = record {
  reason = 9;
  ref_tag = some 49;
  text = some (codes "CompID problem");
  status = none;
}

-- The end over a message that is too old or too new.
unfoldable pub stale : Env → Session → Message → List Action × Session
unfolding abort_with_reject
stale e s m = abort_with_reject e s m accuracy_reject (codes "SendingTime accuracy problem")

-- The end over a message of another session.
unfoldable pub foreign : Env → Session → Message → IdentityProblem → List Action × Session
unfolding abort abort_with_reject problem_text
foreign e s m begin_string = abort e s (problem_text begin_string)
foreign e s m comp_id = abort_with_reject e s m comp_id_reject (problem_text comp_id)

unfoldable pub heard : Session → Session
heard s = record s { ticks_since_recv = 0; test_request_outstanding = false }

unfoldable pub on_received : Env → Session → Message → Option (List Action × Session)
unfolding heard latency_ok stale identity_problem foreign dispatch
on_received e s m =
    let s1 = heard s in
    elim (latency_ok e s1 m) [
      | false ↦ some (stale e s1 m)
      | true ↦ elim (identity_problem s1 m) [
        | some problem ↦ some (foreign e s1 m problem)
        | none ↦ dispatch e s1 m
      ]
    ]
