-- ===== src/Session/Invariant/Received.antt =====
-- A received message that is no Logon, as a step of the session (`on_received` of
-- crates/truefix-session/src/state.rs).
use truefix.Base.{
  ℕ, ◌≡◌, ◌⊎◌, inl, inr, refl, true, not, ◌&&◌, ◌||◌, List, ◌++◌, Option, none, Bytes, codes, ltb,
  ◌==◌, arith, Bool-cases, Option-cases,
}
use truefix.Base.Maps.{insert}
use truefix.Core.Message
use truefix.Core.Message.{Message}
use truefix.Session.Config.{msg_seq_num, poss_dup_flag, gap_fill_flag}
use truefix.Session.State.{Session, Action, positive_at, is_logged_on}
use truefix.Session.Inbound.{
  Round, gap, again, ended, is_type, validate_app, process_in_order, advance, after_reject,
}
use truefix.Session.Checks.{
  Env, IdentityProblem, begin_string, comp_id, problem_text, flag_at,
  poss_dup_anti_replay_violation, identity_problem, latency_ok,
}
use truefix.Session.Logon.{raise_target}
use truefix.Session.Logon.Accept.{on_logon}
use truefix.Session.Received.{
  queue_early, on_low, drain_after, on_expected, on_early, by_number, reset_by_number,
  unnumbered_reject, falsified, numbered, valid_logon_state, dispatch, stale, foreign, heard,
  on_received, accuracy_reject, comp_id_reject,
}
use truefix.Session.Invariant.{
  Evolves, Evolves-refl, Evolves-trans, Same-Evolves, if_rule, send_next-Evolves,
  on_logout_msg-Evolves, Runs, Runs-some,
}
use truefix.Session.Invariant.Queue.{
  RoundEvolves, refuse-Evolves, advance-Evolves, process_other-Evolves, after_reject-Evolves,
}
use truefix.Session.Invariant.Drain.{drain_queue-Runs}
use truefix.Session.Invariant.Resend.{on_resend_request-Runs}
use truefix.Session.Invariant.SequenceReset.{Runs-after, on_sequence_reset-Runs}
use truefix.Session.Invariant.Checks.{
  session_reject_before_logout-Evolves, abort-Evolves, abort_with_reject-Evolves,
}
use truefix.Session.Invariant.Logon.{InRange, raise_target-Evolves, ask_again-Evolves}

queue_early-Evolves :
    (e : Env) (s : Session) (seq : ℕ) (m : Message) → Evolves s (queue_early e s seq m).1
unfolding queue_early
queue_early-Evolves e s seq m =
    let s1 : Session = record s { queue = insert s.queue seq m } in
    let p =
      Evolves-trans (Same-Evolves s s1 (refl, refl, refl, refl)) (raise_target-Evolves s1 seq) in
    if_rule (λ (r : List Action × Session). Evolves s r.1)
      (is_logged_on s && (not s.resend_requested || s.config.send_redundant_resend_requests)) _ _
      (Evolves-trans p (ask_again-Evolves e (raise_target s1 seq))) p

on_low-Evolves : (e : Env) (s : Session) (m : Message) → Evolves s (on_low e s m).1
unfolding on_low
on_low-Evolves e s m = elim (Bool-cases (flag_at m.header poss_dup_flag)) [
  | inr no_dup ↦ rw (on_low, no_dup) (abort-Evolves e s (codes "MsgSeqNum too low"))
  | inl dup ↦ elim (Option-cases (poss_dup_anti_replay_violation e s m)) [
    | inl fine ↦ rw (on_low, dup, fine) (Evolves-refl s)
    | inr (reject, bad) ↦ rw (on_low, dup, bad) (session_reject_before_logout-Evolves e s m reject)
  ]
]

-- A reject is never the end of the queue.
drain_after-Runs :
    (e : Env) (s : Session) (a : Action) → Runs s (drain_after e (after_reject e.now s a))
unfolding drain_after after_reject RoundEvolves
drain_after-Runs e s a = by_round (after_reject e.now s a) (after_reject-Evolves e.now s a) refl
  where
    by_round :
        (r : Round)
        → RoundEvolves s r
        → after_reject e.now s a ≡ r
        → Runs s (drain_after e (after_reject e.now s a))
    by_round gap p eq = absurd (ground arith)
    by_round (ended actions s1) p eq = rw eq (actions, s1, refl, p)
    by_round (again actions s1) p eq =
        let (more, s2, r, q) = drain_queue-Runs e.check e.now s1 in
        rw (eq, r) (actions ++ more, s2, refl, Evolves-trans p q)

process_in_order-Runs :
    (now : Bytes) (s : Session) (m : Message) (mt : Option Bytes)
    → InRange s
    → Runs s (process_in_order now s m mt)
unfolding process_in_order
process_in_order-Runs now s m mt (p, b) = elim (Bool-cases (is_type mt b'2')) [
  | inl e ↦ rw (process_in_order, e) (on_resend_request-Runs now s m p b)
  | inr e ↦ rw (process_in_order, e) (Runs-some _ (process_other-Evolves now s m mt))
]

on_expected-Runs : (e : Env) (s : Session) (m : Message) → InRange s → Runs s (on_expected e s m)
unfolding on_expected
on_expected-Runs e s m range = elim (Option-cases (e.check s.negotiated_appl_ver_id m)) [
  | inr (error, bad) ↦
      rw (on_expected, validate_app, bad)
        (Runs-after (refuse-Evolves e.now s m error) (drain_after-Runs e _ _))
  | inl fine ↦
      let (actions, s1, r, p) = process_in_order-Runs e.now s m (Message.msg_type m) range in
      let (more, s2, r', q) = drain_queue-Runs e.check e.now (advance s1) in
      rw (on_expected, validate_app, fine, r, r')
        (actions ++ more, s2, refl, Evolves-trans p (Evolves-trans (advance-Evolves s1) q))
]

on_early-Runs :
    (e : Env) (s : Session) (seq : ℕ) (m : Message) → InRange s → Runs s (on_early e s seq m)
unfolding on_early
on_early-Runs e s seq m (p, b) = elim (Bool-cases (is_type (Message.msg_type m) b'5')) [
  | inl out ↦ rw (on_early, out) (Runs-some _ (on_logout_msg-Evolves e.now s))
  | inr no_out ↦ elim (Bool-cases (is_type (Message.msg_type m) b'2')) [
    | inl ask ↦
        let (actions, s1, r, q) = on_resend_request-Runs e.now s m p b in
        rw (on_early, no_out, ask, r) (_, _, refl, Evolves-trans q (queue_early-Evolves e s1 seq m))
    | inr no_ask ↦ rw (on_early, no_out, no_ask) (Runs-some _ (queue_early-Evolves e s seq m))
  ]
]

by_number-Runs :
    (e : Env) (s : Session) (seq : ℕ) (m : Message) → InRange s → Runs s (by_number e s seq m)
unfolding by_number
by_number-Runs e s seq m range = elim (Bool-cases (seq == s.next_in_seq)) [
  | inl expected ↦ rw (by_number, expected) (on_expected-Runs e s m range)
  | inr other ↦ elim (Bool-cases (ltb s.next_in_seq seq)) [
    | inl early ↦ rw (by_number, other, early) (on_early-Runs e s seq m range)
    | inr low ↦ rw (by_number, other, low) (Runs-some _ (on_low-Evolves e s m))
  ]
]

reset_by_number-Runs :
    (e : Env) (s : Session) (seq : ℕ) (m : Message) → Runs s (reset_by_number e s seq m)
unfolding reset_by_number
reset_by_number-Runs e s seq m =
    elim (Bool-cases (not (flag_at m.body gap_fill_flag) || (seq == s.next_in_seq))) [
      | inl now ↦ rw (reset_by_number, now) (on_sequence_reset-Runs e.check e.now s m)
      | inr other ↦ elim (Bool-cases (ltb s.next_in_seq seq)) [
        | inl early ↦
            rw (reset_by_number, other, early) (Runs-some _ (queue_early-Evolves e s seq m))
        | inr low ↦ rw (reset_by_number, other, low) (Runs-some _ (on_low-Evolves e s m))
      ]
    ]

unnumbered_reject-Evolves :
    (e : Env) (s : Session) (m : Message) → Evolves s (unnumbered_reject e s m).1
unfolding unnumbered_reject
unnumbered_reject-Evolves e s m = send_next-Evolves s _

numbered-Runs : (e : Env) (s : Session) (m : Message) → InRange s → Runs s (numbered e s m)
unfolding numbered
numbered-Runs e s m range = elim (Option-cases (positive_at m.header msg_seq_num)) [
  | inl none_there ↦ rw (numbered, none_there) (Runs-some _ (unnumbered_reject-Evolves e s m))
  | inr (seq, there) ↦ elim (Option-cases (falsified e m)) [
    | inr (reject, bad) ↦
        rw (numbered, there, bad) (Runs-some _ (session_reject_before_logout-Evolves e s m reject))
    | inl fine ↦ elim (Bool-cases (is_type (Message.msg_type m) b'4')) [
      | inl reset ↦ rw (numbered, there, fine, reset) (reset_by_number-Runs e s seq m)
      | inr no_reset ↦ rw (numbered, there, fine, no_reset) (by_number-Runs e s seq m range)
    ]
  ]
]

stale-Evolves : (e : Env) (s : Session) (m : Message) → Evolves s (stale e s m).1
unfolding stale
stale-Evolves e s m =
    abort_with_reject-Evolves e s m accuracy_reject (codes "SendingTime accuracy problem")

foreign-Evolves :
    (e : Env) (s : Session) (m : Message) (p : IdentityProblem) → Evolves s (foreign e s m p).1
unfolding foreign
foreign-Evolves e s m begin_string = abort-Evolves e s (problem_text begin_string)
foreign-Evolves e s m comp_id =
    abort_with_reject-Evolves e s m comp_id_reject (problem_text comp_id)

-- What gets a message as far as a Logon's handler.
abbrev pub ReachesLogon : Env → Session → Message → Type 0
ReachesLogon e s m =
    (latency_ok e s m ≡ true)
    × (identity_problem s m ≡ none)
    × (is_type (Message.msg_type m) b'A' ≡ true)

dispatch-Runs :
    (e : Env) (s : Session) (m : Message)
    → InRange s
    → Runs s (dispatch e s m)
      ⊎ ((is_type (Message.msg_type m) b'A' ≡ true) × (dispatch e s m ≡ on_logon e s m))
unfolding dispatch
dispatch-Runs e s m range = elim (Bool-cases (valid_logon_state s m)) [
  | inr bad ↦
      rw (dispatch, bad) (inl (Runs-some _ (abort-Evolves e s (codes "Logon state is not valid"))))
  | inl fine ↦ elim (Bool-cases (is_type (Message.msg_type m) b'A')) [
    | inl logon ↦ inr (logon, rw (dispatch, fine, logon))
    | inr no_logon ↦ inl (rw (dispatch, fine, no_logon) (numbered-Runs e s m range))
  ]
]

pub on_received-Runs :
    (e : Env) (s : Session) (m : Message)
    → InRange s
    → Runs s (on_received e s m)
      ⊎ (ReachesLogon e s m × (on_received e s m ≡ on_logon e (heard s) m))
unfolding on_received heard
on_received-Runs e s m range =
    let s1 = heard s in
    let p : Evolves s s1 = Same-Evolves s s1 (refl, refl, refl, refl) in
    elim (Bool-cases (latency_ok e s1 m)) [
      | inr late ↦
          rw (on_received, late) (inl (Runs-some _ (Evolves-trans p (stale-Evolves e s1 m))))
      | inl timely ↦ elim (Option-cases (identity_problem s1 m)) [
        | inr (problem, bad) ↦
            rw (on_received, timely, bad)
              (inl (Runs-some _ (Evolves-trans p (foreign-Evolves e s1 m problem))))
        | inl fine ↦ elim (dispatch-Runs e s1 m range) [
          | inl runs ↦ rw (on_received, timely, fine) (inl (Runs-after p runs))
          | inr (logon, same) ↦ inr ((timely, fine, logon), rw (on_received, timely, fine) same)
        ]
      ]
    ]
