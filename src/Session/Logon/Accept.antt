-- ===== src/Session/Logon/Accept.antt =====
-- A Logon that passes the checks: the second half of `on_logon` of
-- crates/truefix-session/src/state.rs.
use truefix.Base.{
  ◌-◌, ◌^◌, Bool, true, false, not, ◌&&◌, ◌||◌, List, [], ◌∷◌, ◌++◌, Option, none, some, codes, ltb,
  ◌==◌, if◌then◌else◌, and_then, min,
}
use truefix.Core.Message.{Message}
use truefix.Session.Config.{
  msg_seq_num, reset_seq_num_flag, next_expected_msg_seq_num, heart_bt_int,
}
use truefix.Session.State.{Session, logged_on, Action, reset_store, positive_at, reset_sequences}
use truefix.Session.Resend.{build_resend}
use truefix.Session.Inbound.{advance, validate_app, drain_queue}
use truefix.Session.Checks.{Env, Reject, flag_at, reject_logon}
use truefix.Session.Logon.{
  is_acceptor, send_logon, acceptor_forces_reset, logon_problem, invalid_logon, version_problem,
  negotiate, raise_target, ask_again,
}

-- How the Logon's number compares with the one expected.
pub data Disposition : Type 0 where
  unnumbered equal greater less : Disposition

unfoldable pub disposition : Session → Message → Disposition
unfolding positive_at
disposition s m = elim (positive_at m.header msg_seq_num) [
  | none ↦ unnumbered
  | some n ↦ (if n == s.next_in_seq then equal else if ltb s.next_in_seq n then greater else less)
]

-- `u32::try_from(hbi).unwrap_or(u32::MAX)`, of a positive interval.
unfoldable pub adopt_heart_beat : Session → Message → Session
unfolding positive_at
adopt_heart_beat s m = elim (positive_at m.body heart_bt_int) [
  | none ↦ s
  | some n ↦ record s { config = record s.config { heartbeat_interval = min n (2 ^ 32 - 1) } }
]

-- The request for the messages that the Logon's own number shows to be missing.
unfoldable pub ask_for_gap : Env → Session → Message → List Action × Session
unfolding positive_at raise_target ask_again
ask_for_gap e s m = elim (positive_at m.header msg_seq_num) [
  | none ↦ ask_again e s
  | some n ↦ ask_again e (raise_target s n)
]

-- The acceptor's answer to a Logon with too high a number: it is not logged on yet.
unfoldable pub early_logon : Env → Session → Message → List Action × Session
unfolding ask_for_gap
early_logon e s m =
    let asked = ask_for_gap e s m in
    if not s.resend_requested || s.config.send_redundant_resend_requests then asked else ([], s)

-- The acceptor's own Logon.
unfoldable pub answer_logon : Env → Session → Message → List Action × Session
unfolding adopt_heart_beat send_logon flag_at
answer_logon e s m =
    let (a, s1) =
      send_logon e (record (adopt_heart_beat s m) { state = logged_on })
        (flag_at m.body reset_seq_num_flag) in
    (a ∷ [], s1)

-- The sequence actions behind the Logon.
unfoldable pub deferred : Env → Session → Message → Disposition → Option (List Action × Session)
unfolding drain_queue ask_for_gap
deferred e s m equal = drain_queue e.check e.now s
deferred e s m greater = if s.resend_requested then some ([], s) else some (ask_for_gap e s m)
deferred e s m less = some ([], s)
deferred e s m unnumbered = some ([], s)

-- What the peer has not received, by its NextExpectedMsgSeqNum.
unfoldable pub resend_expected : Env → Session → Message → Option (List Action × Session)
unfolding positive_at build_resend
resend_expected e s m = elim (positive_at m.body next_expected_msg_seq_num) [
  | none ↦ some ([], s)
  | some n ↦
      let resent = build_resend e.now s n (s.next_out_seq - 1) in
      if ltb n s.next_out_seq then resent else some ([], s)
]

-- From the session that is logged on to the end of `on_logon`.
unfoldable pub finish_logon :
    Env → List Action → Session → Message → Disposition → Option (List Action × Session)
unfolding deferred resend_expected
finish_logon e actions s m place =
    and_then (deferred e s m place) λ (more, s1).
      and_then (resend_expected e s1 m) λ (last, s2). some (actions ++ more ++ last, s2)

-- The initiator's request to reset has not been answered.
unfoldable pub reset_unanswered : Session → Message → Bool
unfolding positive_at flag_at
reset_unanswered s m =
    s.reset_on_logon_pending
    && not (flag_at m.body reset_seq_num_flag)
    && not (elim (positive_at m.header msg_seq_num) [ none ↦ false | some n ↦ n == 1 ])

abbrev pub unreset : Reject
unreset = record {
  reason = 0;
  ref_tag = none;
  text = some (codes "Expected Logon response to have reset sequence numbers");
  status = none;
}

unfoldable pub conclude :
    Env → List Action → Session → Message → Disposition → Option (List Action × Session)
unfolding is_acceptor early_logon answer_logon reset_unanswered reject_logon finish_logon
conclude e actions s m place = elim (is_acceptor s) [
  | true ↦ elim place [
    | greater ↦ some (let (more, s1) = early_logon e s m in (actions ++ more, s1))
    | equal ↦ let (more, s1) = answer_logon e s m in finish_logon e (actions ++ more) s1 m equal
    | less ↦ let (more, s1) = answer_logon e s m in finish_logon e (actions ++ more) s1 m less
    | unnumbered ↦
        let (more, s1) = answer_logon e s m in finish_logon e (actions ++ more) s1 m unnumbered
  ]
  | false ↦ elim (reset_unanswered s m) [
    | true ↦ some (reject_logon e (record s { reset_on_logon_pending = false }) unreset)
    | false ↦
        finish_logon e actions (record s { reset_on_logon_pending = false; state = logged_on }) m
          place
  ]
]

-- The reset that the Logon asks for, or that the acceptor makes at every Logon. It is full before
-- the session has sent its own Logon.
unfoldable pub reset_at_logon : Session → Message → List Action × Session
unfolding flag_at acceptor_forces_reset reset_sequences
reset_at_logon s m =
    if flag_at m.body reset_seq_num_flag || acceptor_forces_reset s
    then (if s.logon_sent
        then ([], reset_sequences s false)
        else (reset_store ∷ [], reset_sequences s true))
    else ([], s)

-- The Logon's number is taken before the answer is built.
unfoldable pub count_logon : Session → Disposition → Session
unfolding advance
count_logon s equal = advance s
count_logon s greater = s
count_logon s less = s
count_logon s unnumbered = s

unfoldable pub accept_logon : Env → Session → Message → Option (List Action × Session)
unfolding reset_at_logon disposition count_logon conclude
accept_logon e s m =
    let (actions, s1) = reset_at_logon s m in
    let place = disposition s1 m in conclude e actions (count_logon s1 place) m place

-- The version of the application, and what follows.
unfoldable pub take_logon : Env → Session → Message → Option (List Action × Session)
unfolding version_problem reject_logon negotiate accept_logon
take_logon e s m = elim (version_problem e m) [
  | some reject ↦ some (reject_logon e s reject)
  | none ↦ accept_logon e (negotiate s m) m
]

unfoldable pub on_logon : Env → Session → Message → Option (List Action × Session)
unfolding logon_problem reject_logon validate_app invalid_logon take_logon
on_logon e s m =
    let s1 = record s { logon_received = true } in
    elim (logon_problem e s1 m) [
      | some reject ↦ some (reject_logon e s1 reject)
      | none ↦ elim (validate_app e.check e.now s1 m) [
        | some (reject, s2) ↦ some (invalid_logon e s2 m reject)
        | none ↦ take_logon e s1 m
      ]
    ]
