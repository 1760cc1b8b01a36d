-- ===== src/Session/Checks.antt =====
-- What the session tests on a message before it takes it, and how it refuses one:
-- `poss_dup_falsification_check`, `poss_dup_anti_replay_violation`, `identity_problem`, `latency_ok`,
-- `would_reject_before_processing`, `build_session_reject`, `reject_logon` and
-- `session_reject_before_logout` of crates/truefix-session/src/state.rs.
use truefix.Base.{
  ℕ, ◌-◌, ◌/◌, ◌^◌, Bool, true, false, not, ◌&&◌, ◌||◌, List, [], ◌∷◌, ◌++◌, Option, none, some,
  Bytes, codes, same_bytes, ltb, leb, if◌then◌else◌, and_then, is_none,
}
use truefix.Base.Int.{ℤ, pos}
use truefix.Text.Decimal.{parse_i64}
use truefix.Core.FieldMap
use truefix.Core.FieldMap.{FieldMap}
use truefix.Core.Message
use truefix.Core.Message.{Message}
use truefix.Session.Config.{
  msg_seq_num, poss_dup_flag, sending_time, orig_sending_time, session_status,
}
use truefix.Session.Admin
use truefix.Session.Admin.{int, set_body, text_at}
use truefix.Session.State.{
  Session, Action, disconnect, disconnected, next_seq, send_stored, send_raw, positive_at,
  reset_on_error,
}
use truefix.Session.Inbound.{Check, is_type, ref_seq_of}

-- What the session takes from elsewhere while it handles one event: the clock's text; what the
-- configured dictionaries answer; the reading of a UTC timestamp and the clock, both in nanoseconds
-- since one fixed instant; whether a schedule is configured and the clock lies outside of it; whether
-- FIXT dictionaries are configured and none is registered for a DefaultApplVerID; and the two tests
-- of the heartbeat timer in `f64`, of the interval and the ticks since the last message.
pub record Env : Type 0 where
  pub now : Bytes
  pub check : Check
  pub utc_timestamp : Bytes → Option ℕ
  pub clock : ℕ
  pub outside_schedule : Bool
  pub unregistered : Bytes → Bool
  pub recv_timed_out : ℕ → ℕ → Bool
  pub probe_due : ℕ → ℕ → Bool

-- `Reject` of crates/truefix-core/src/error.rs.
pub record Reject : Type 0 where
  pub reason : ℕ
  pub ref_tag : Option ℕ
  pub text : Option Bytes
  pub status : Option ℕ

-- `get(tag).and_then(|f| f.as_str().ok()) == Some("Y")`.
unfoldable pub flag_at : FieldMap → ℕ → Bool
unfolding text_at
flag_at map tag = elim (text_at map tag) [ none ↦ false | some v ↦ same_bytes v (codes "Y") ]

-- `get(tag).and_then(|f| f.as_int().ok())`.
unfoldable pub int_at : FieldMap → ℕ → Option ℤ
int_at map tag = and_then (FieldMap.get map tag) λ f. parse_i64 f.value

-- `as_utc_timestamp().ok()` of a field of the header.
unfoldable pub time_at : Env → Message → ℕ → Option ℕ
time_at e m tag = and_then (FieldMap.get m.header tag) λ f. e.utc_timestamp f.value

sent_before_original : Reject
sent_before_original = record {
  reason = 5;
  ref_tag = some orig_sending_time;
  text = some (codes "OrigSendingTime is later than SendingTime on a PossDup message");
  status = none;
}

unfoldable pub poss_dup_falsification_check : Env → Message → Option Reject
unfolding time_at sent_before_original
poss_dup_falsification_check e m = and_then (time_at e m orig_sending_time) λ orig.
    and_then (time_at e m sending_time)
      λ sent. if ltb sent orig then some sent_before_original else none

unfoldable pub poss_dup_anti_replay_violation : Env → Session → Message → Option Reject
unfolding time_at sent_before_original
poss_dup_anti_replay_violation e s m = elim (time_at e m orig_sending_time) [
  | some orig ↦
      and_then (time_at e m sending_time)
        λ sent. if ltb sent orig then some sent_before_original else none
  | none ↦
      if s.config.requires_orig_sending_time_on_low_seq
      then some (record {
        reason = 1;
        ref_tag = some orig_sending_time;
        text = some (codes "OrigSendingTime is required on a PossDup message");
        status = none;
      })
      else none
]

pub data IdentityProblem : Type 0 where
  begin_string comp_id : IdentityProblem

unfoldable pub problem_text : IdentityProblem → Bytes
problem_text begin_string = codes "Incorrect BeginString"
problem_text comp_id = codes "CompID problem"

-- A field of the header that is present with another text.
unfoldable pub differs : Message → ℕ → Bytes → Bool
unfolding text_at
differs m tag wanted = elim (text_at m.header tag) [
  | none ↦ false
  | some v ↦ not (same_bytes v wanted)
]

unfoldable pub identity_problem : Session → Message → Option IdentityProblem
unfolding differs
identity_problem s m =
    if differs m 8 s.config.begin_string
    then some begin_string
    else if s.config.check_comp_id
        && (differs m 49 s.config.target_comp_id || differs m 56 s.config.sender_comp_id)
    then some comp_id
    else none

-- The whole seconds between two instants.
seconds_between : ℕ → ℕ → ℕ
seconds_between a b = (if leb a b then b - a else a - b) / 10 ^ 9

unfoldable pub latency_ok : Env → Session → Message → Bool
unfolding seconds_between
latency_ok e s m = elim (FieldMap.get m.header sending_time) [
  | none ↦ true
  | some f ↦ elim (e.utc_timestamp f.value) [
    | none ↦ not s.config.check_latency
    | some sent ↦
        not s.config.check_latency || leb (seconds_between e.clock sent) s.config.max_latency
  ]
]

-- A MsgSeqNum below the one expected.
unfoldable pub too_low : Session → Message → Bool
unfolding positive_at
too_low s m = elim (positive_at m.header msg_seq_num) [
  | none ↦ false
  | some n ↦ ltb n s.next_in_seq
]

unfoldable pub would_reject_before_processing : Env → Session → Message → Bool
unfolding latency_ok identity_problem is_type too_low flag_at
would_reject_before_processing e s m =
    let mt = Message.msg_type m in
    not (latency_ok e s m)
    || not (is_none (identity_problem s m))
    || not (is_type mt b'A')
      && not (is_type mt b'4')
      && not (flag_at m.header poss_dup_flag)
      && too_low s m

-- The SessionStatus of a refused Logon.
stamp_status : Message → Option ℕ → Message
unfolding set_body
stamp_status m none = m
stamp_status m (some status) = set_body m (int session_status (pos status))

unfoldable pub reject_logon : Env → Session → Reject → List Action × Session
unfolding next_seq send_raw stamp_status
reject_logon e s reject =
    let (seq, s1) = next_seq s in
    let lo = stamp_status (Admin.logout s1.config e.now seq reject.text) reject.status in
    let (a, s2) = send_raw (record s1 { state = disconnected }) lo in (a ∷ disconnect ∷ [], s2)

-- The text of a reject, or the empty one.
text_or_empty : Option Bytes → Bytes
text_or_empty none = []
text_or_empty (some t) = t

unfoldable pub build_session_reject : Env → Session → Message → Reject → Action × Session
unfolding next_seq send_stored ref_seq_of text_or_empty
build_session_reject e s m reject =
    let (seq, s1) = next_seq s in
    send_stored s1 (
      Admin.reject_with_reason s1.config e.now seq (ref_seq_of m) (Message.msg_type m)
        reject.ref_tag reject.reason (text_or_empty reject.text))

unfoldable pub session_reject_before_logout :
    Env → Session → Message → Reject → List Action × Session
unfolding build_session_reject reject_logon
session_reject_before_logout e s m reject =
    let (a, s1) = build_session_reject e s m reject in
    let (more, s2) = reject_logon e s1 reject in (a ∷ more, s2)

-- The end of a session by a Logout with a text, as the checks of `on_received` order it.
unfoldable pub abort : Env → Session → Bytes → List Action × Session
unfolding next_seq send_raw reset_on_error
abort e s reason =
    let (seq, s1) = next_seq s in
    let (a, s2) =
      send_raw (record s1 { state = disconnected })
        (Admin.logout s1.config e.now seq (some reason)) in
    let (resets, s3) = reset_on_error s2 in (a ∷ (resets ++ disconnect ∷ []), s3)

-- The same behind a reject of the message, unless it is a Logon.
unfoldable pub abort_with_reject : Env → Session → Message → Reject → Bytes → List Action × Session
unfolding build_session_reject is_type abort
abort_with_reject e s m reject reason =
    let (a, s1) = build_session_reject e s m reject in
    let (more, s2) = abort e s1 reason in
    if is_type (Message.msg_type m) b'A' then abort e s reason else (a ∷ more, s2)
