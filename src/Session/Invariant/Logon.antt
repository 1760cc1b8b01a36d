-- ===== src/Session/Invariant/Logon.antt =====
-- A Logon, as a step of the session (`on_logon` of crates/truefix-session/src/state.rs).
use truefix.Base.{
  ℕ, ◌-◌, ◌≤◌, inl, inr, refl, Bool, true, not, ◌||◌, List, ◌++◌, ltb, arith, Bool-cases,
  Option-cases,
}
use truefix.Text.Decimal.{max_u64}
use truefix.Core.Message.{Message}
use truefix.Session.Config.{msg_seq_num, next_expected_msg_seq_num, heart_bt_int}
use truefix.Session.State.{Session, SessionState, logged_on, Action, next_seq, positive_at}
use truefix.Session.Checks.{Env}
use truefix.Session.Logon.{send_logon, raise_target, ask_again}
use truefix.Session.Logon.Accept.{
  Disposition, unnumbered, equal, greater, less, adopt_heart_beat, ask_for_gap, early_logon,
  answer_logon, deferred, resend_expected, finish_logon,
}
use truefix.Session.Invariant.{
  Evolves, Evolves-refl, Evolves-trans, Same-Evolves, if_rule, next_seq-Evolves,
  send_stored-Evolves, Runs, Runs-some,
}
use truefix.Session.Invariant.Queue.{request_resend-Evolves}
use truefix.Session.Invariant.Drain.{drain_queue-Runs}
use truefix.Session.Invariant.Resend.{build_resend-Runs}

-- The range of the session's own numbers.
abbrev pub InRange : Session → Type 0
InRange s = (1 ≤ s.next_out_seq) × (s.next_out_seq ≤ max_u64)

pub Evolves-InRange : {s t : Session} → Evolves s t → InRange s → InRange t
Evolves-InRange p (a, b) = (p.out_positive a, p.out_bounded b)

-- What evolves, evolves in every state.
pub Evolves-state :
    {s t : Session} (st : SessionState)
    → Evolves s t
    → Evolves (record s { state = st }) (record t { state = st })
Evolves-state st p = record {
  in_positive = p.in_positive;
  out_positive = p.out_positive;
  out_bounded = p.out_bounded;
  state_stays = inl refl;
  received_stays = p.received_stays;
}

pub raise_target-Evolves : (s : Session) (n : ℕ) → Evolves s (raise_target s n)
unfolding raise_target
raise_target-Evolves s n =
    if_rule (Evolves s) (ltb 0 s.config.resend_request_chunk_size) _ _
      (Same-Evolves s _ (refl, refl, refl, refl)) (Evolves-refl s)

pub ask_again-Evolves : (e : Env) (s : Session) → Evolves s (ask_again e s).1
unfolding ask_again
ask_again-Evolves e s =
    let s1 : Session = record s { resend_requested = true } in
    Evolves-trans (Same-Evolves s s1 (refl, refl, refl, refl))
      (request_resend-Evolves e.now s1 s.next_in_seq)

ask_for_gap-Evolves : (e : Env) (s : Session) (m : Message) → Evolves s (ask_for_gap e s m).1
unfolding ask_for_gap
ask_for_gap-Evolves e s m = elim (Option-cases (positive_at m.header msg_seq_num)) [
  | inl none_there ↦ rw (ask_for_gap, none_there) (ask_again-Evolves e s)
  | inr (n, there) ↦
      rw (ask_for_gap, there)
        (Evolves-trans (raise_target-Evolves s n) (ask_again-Evolves e (raise_target s n)))
]

pub early_logon-Evolves : (e : Env) (s : Session) (m : Message) → Evolves s (early_logon e s m).1
unfolding early_logon
early_logon-Evolves e s m =
    if_rule (λ (r : List Action × Session). Evolves s r.1)
      (not s.resend_requested || s.config.send_redundant_resend_requests) _ _
      (ask_for_gap-Evolves e s m) (Evolves-refl s)

pub send_logon-Evolves : (e : Env) (s : Session) (reset : Bool) → Evolves s (send_logon e s reset).1
unfolding send_logon
send_logon-Evolves e s reset = Evolves-trans (next_seq-Evolves s) (
    Evolves-trans
      (Same-Evolves (next_seq s).1 (record (next_seq s).1 { logon_sent = true })
        (refl, refl, refl, refl))
      (send_stored-Evolves (record (next_seq s).1 { logon_sent = true }) _))

adopt_heart_beat-Evolves : (s : Session) (m : Message) → Evolves s (adopt_heart_beat s m)
unfolding adopt_heart_beat
adopt_heart_beat-Evolves s m = elim (Option-cases (positive_at m.body heart_bt_int)) [
  | inl none_there ↦ rw (adopt_heart_beat, none_there) (Evolves-refl s)
  | inr (n, there) ↦ rw (adopt_heart_beat, there) (Same-Evolves s _ (refl, refl, refl, refl))
]

pub answer_logon-Evolves :
    (e : Env) (s : Session) (m : Message)
    → Evolves (record s { state = logged_on }) (answer_logon e s m).1
unfolding answer_logon
answer_logon-Evolves e s m =
    Evolves-trans (Evolves-state logged_on (adopt_heart_beat-Evolves s m))
      (send_logon-Evolves e (record (adopt_heart_beat s m) { state = logged_on }) _)

deferred-Runs :
    (e : Env) (s : Session) (m : Message) (place : Disposition) → Runs s (deferred e s m place)
unfolding deferred
deferred-Runs e s m equal = drain_queue-Runs e.check e.now s
deferred-Runs e s m greater =
    if_rule (Runs s) s.resend_requested _ _ (Runs-some _ (Evolves-refl s))
      (Runs-some _ (ask_for_gap-Evolves e s m))
deferred-Runs e s m less = Runs-some _ (Evolves-refl s)
deferred-Runs e s m unnumbered = Runs-some _ (Evolves-refl s)

resend_expected-Runs :
    (e : Env) (s : Session) (m : Message) → InRange s → Runs s (resend_expected e s m)
unfolding resend_expected
resend_expected-Runs e s m (p, b) =
    elim (Option-cases (positive_at m.body next_expected_msg_seq_num)) [
      | inl none_there ↦ rw (resend_expected, none_there) (Runs-some _ (Evolves-refl s))
      | inr (n, there) ↦ elim (Bool-cases (ltb n s.next_out_seq)) [
        | inl l ↦
            rw (resend_expected, there, l)
              (build_resend-Runs e.now s n (s.next_out_seq - 1) (omega (arith, p, b))
                (ground arith))
        | inr l ↦ rw (resend_expected, there, l) (Runs-some _ (Evolves-refl s))
      ]
    ]

pub finish_logon-Runs :
    (e : Env) (actions : List Action) (s : Session) (m : Message) (place : Disposition)
    → InRange s
    → Runs s (finish_logon e actions s m place)
unfolding finish_logon
finish_logon-Runs e actions s m place range =
    let (more, s1, r, p) = deferred-Runs e s m place in
    let (last, s2, r', q) = resend_expected-Runs e s1 m (Evolves-InRange p range) in
    rw (r, r') (actions ++ more ++ last, s2, refl, Evolves-trans p q)
