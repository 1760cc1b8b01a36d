-- ===== src/Session/Received/Refused.antt =====
-- Messages that the session refuses before it takes them: `would_reject_before_processing` against
-- `on_received`, and messages that come early (crates/truefix-session/src/state.rs).
use truefix.Base.{
  ◌<◌, ◌≡◌, inl, inr, refl, true, false, List, [], ◌∷◌, ◌++◌, Option, none, some, Bytes, codes,
  last?, ltb, ◌==◌, arith, Bool-cases, Option-cases,
}
use truefix.Core.Message
use truefix.Core.Message.{Message}
use truefix.Session.Config.{msg_seq_num, poss_dup_flag}
use truefix.Session.State.{
  Session, disconnected, Action, disconnect, positive_at, reset_on_error, next_seq, send_raw, reset,
  reset_sequences,
}
use truefix.Session.Inbound.{is_type}
use truefix.Session.Checks.{
  Env, Reject, IdentityProblem, begin_string, comp_id, problem_text, flag_at, identity_problem,
  latency_ok, too_low, would_reject_before_processing, abort, abort_with_reject,
  build_session_reject,
}
use truefix.Session.Engine.{received, handle}
use truefix.Session.Invariant.{if_rule}
use truefix.Session.Received.{
  on_low, by_number, falsified, numbered, valid_logon_state, dispatch, accuracy_reject,
  comp_id_reject, stale, foreign, heard, on_received,
}

-- The session is disconnected, and the last action is to disconnect.
pub IsOver : List Action × Session → Type 0
IsOver r = (last? r.0 ≡ some disconnect) × (r.1.state ≡ disconnected)

last-append : (xs : List Action) (a : Action) → last? (xs ++ a ∷ []) ≡ some a
last-append [] a = refl
last-append (x ∷ []) a = refl
last-append (x ∷ y ∷ xs) a = last-append (y ∷ xs) a

last-cons :
    (x : Action) (xs : List Action) {a : Action} → last? xs ≡ some a → last? (x ∷ xs) ≡ some a
last-cons x [] e = cc
last-cons x (y ∷ ys) e = e

reset_on_error-state : (s : Session) → (reset_on_error s).1.state ≡ s.state
unfolding reset_on_error reset reset_sequences
reset_on_error-state s = ground arith

ends :
    (a : Action) (resets : List Action) (s : Session)
    → s.state ≡ disconnected
    → IsOver (a ∷ (resets ++ disconnect ∷ []), s)
unfolding IsOver
ends a resets s over =
    (last-cons a (resets ++ disconnect ∷ []) (last-append resets disconnect), over)

IsOver-cons : (a : Action) (r : List Action × Session) → IsOver r → IsOver (a ∷ r.0, r.1)
unfolding IsOver
IsOver-cons a r (last, over) = (last-cons a r.0 last, over)

abort-IsOver : (e : Env) (s : Session) (reason : Bytes) → IsOver (abort e s reason)
unfolding abort send_raw
abort-IsOver e s reason =
    let s1 : Session = record (next_seq s).1 { state = disconnected; ticks_since_send = 0 } in
    ends _ (reset_on_error s1).0 (reset_on_error s1).1 (reset_on_error-state s1)

abort_with_reject-IsOver :
    (e : Env) (s : Session) (m : Message) (r : Reject) (reason : Bytes)
    → IsOver (abort_with_reject e s m r reason)
unfolding abort_with_reject
abort_with_reject-IsOver e s m r reason =
    if_rule IsOver (is_type (Message.msg_type m) b'A') _ _ (abort-IsOver e s reason)
      (IsOver-cons _ _ (abort-IsOver e (build_session_reject e s m r).1 reason))

stale-IsOver : (e : Env) (s : Session) (m : Message) → IsOver (stale e s m)
unfolding stale
stale-IsOver e s m =
    abort_with_reject-IsOver e s m accuracy_reject (codes "SendingTime accuracy problem")

foreign-IsOver :
    (e : Env) (s : Session) (m : Message) (p : IdentityProblem) → IsOver (foreign e s m p)
unfolding foreign
foreign-IsOver e s m begin_string = abort-IsOver e s (problem_text begin_string)
foreign-IsOver e s m comp_id = abort_with_reject-IsOver e s m comp_id_reject (problem_text comp_id)

-- A handler returns, and the session is over.
abbrev Ends : Option (List Action × Session) → Type 0
Ends result = (r : List Action × Session) × (result ≡ some r) × IsOver r

low-Ends :
    (e : Env) (s : Session) (m : Message)
    → is_type (Message.msg_type m) b'A' ≡ false
    → is_type (Message.msg_type m) b'4' ≡ false
    → flag_at m.header poss_dup_flag ≡ false
    → too_low s m ≡ true
    → Ends (numbered e s m)
unfolding numbered too_low
low-Ends e s m no_logon no_reset no_dup low =
    elim (Option-cases (positive_at m.header msg_seq_num)) [
      | inl none_there ↦ absurd (ground arith)
      | inr (seq, there) ↦
          let below : seq < s.next_in_seq = ground arith in
          let no_false : falsified e m ≡ none = unfold falsified in rw no_dup in
          let other : (seq == s.next_in_seq) ≡ false = ground arith in
          let not_early : ltb s.next_in_seq seq ≡ false = ground arith in
          rw (numbered, there, no_false, no_reset, by_number, other, not_early, on_low, no_dup)
            (_, refl, abort-IsOver e s (codes "MsgSeqNum too low"))
    ]

-- The tests of `would_reject_before_processing`, one by one.
reasons :
    (e : Env) (s : Session) (m : Message)
    → would_reject_before_processing e s m ≡ true
    → latency_ok e s m ≡ true
    → identity_problem s m ≡ none
    → (is_type (Message.msg_type m) b'A' ≡ false)
      × (is_type (Message.msg_type m) b'4' ≡ false)
      × (flag_at m.header poss_dup_flag ≡ false)
      × (too_low s m ≡ true)
unfolding would_reject_before_processing
reasons e s m refused timely ours = ground arith

dispatch-Ends :
    (e : Env) (s : Session) (m : Message)
    → is_type (Message.msg_type m) b'A' ≡ false
    → is_type (Message.msg_type m) b'4' ≡ false
    → flag_at m.header poss_dup_flag ≡ false
    → too_low s m ≡ true
    → Ends (dispatch e s m)
unfolding dispatch
dispatch-Ends e s m no_logon no_reset no_dup low = elim (Bool-cases (valid_logon_state s m)) [
  | inr bad ↦ rw (dispatch, bad) (_, refl, abort-IsOver e s (codes "Logon state is not valid"))
  | inl fine ↦ rw (dispatch, fine, no_logon) (low-Ends e s m no_logon no_reset no_dup low)
]

refused_received :
    (e : Env) (s : Session) (m : Message)
    → would_reject_before_processing e s m ≡ true
    → Ends (on_received e s m)
unfolding on_received heard too_low
refused_received e s m refused = elim (Bool-cases (latency_ok e s m)) [
  | inr late ↦ rw (on_received, late) (_, refl, stale-IsOver e (heard s) m)
  | inl timely ↦ elim (Option-cases (identity_problem s m)) [
    | inr (problem, bad) ↦
        rw (on_received, timely, bad) (_, refl, foreign-IsOver e (heard s) m problem)
    | inl ours ↦
        let (no_logon, no_reset, no_dup, low) = reasons e s m refused timely ours in
        rw (on_received, timely, ours) (dispatch-Ends e (heard s) m no_logon no_reset no_dup low)
  ]
]

-- A message for which `would_reject_before_processing` says yes ends the session: the last action is
-- to disconnect, and the session is disconnected.
pub would_reject_before_processing_lem :
    (e : Env) (s : Session) (m : Message)
    → would_reject_before_processing e s m ≡ true
    → (r : List Action × Session) × (handle e s (received m) ≡ some r)
      × (last? r.0 ≡ some disconnect)
      × (r.1.state ≡ disconnected)
unfolding handle IsOver
would_reject_before_processing_lem e s m refused =
    let (r, eq, over) = refused_received e s m refused in (r, eq, over.0, over.1)
