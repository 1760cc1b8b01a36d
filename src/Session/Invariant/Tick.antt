-- ===== src/Session/Invariant/Tick.antt =====
-- A tick and a new connection, as steps of the session (`on_tick` and `on_connected` of
-- crates/truefix-session/src/state.rs).
use truefix.Base.{
  ◌≡◌, ◌⊎◌, inl, inr, refl, true, false, not, ◌&&◌, ◌||◌, if◌then◌else◌, List, Bytes, leb, arith,
  Bool-cases,
}
use truefix.Session.State.{
  Session, SessionState, disconnected, awaiting_logon, logged_on, awaiting_logout, Action, other,
  next_seq, send_raw, reset_sequences, is_logged_on, on_garbled, on_start_logout,
}
use truefix.Session.Checks.{Env}
use truefix.Session.Logon.{new_connection, should_send_reset, initiate, is_acceptor, on_connected}
use truefix.Session.Tick.{
  count_tick, time_out, close_window, beat, probe, check_heart_beat, tick_logged_on, tick_in,
  on_tick, hb,
}
use truefix.Session.Invariant.{
  Evolves, Evolves-refl, Evolves-trans, Same-Evolves, if_rule, next_seq-Evolves, send_next-Evolves,
  send_stored-Evolves, send_next_raw-Evolves, reset_sequences-Evolves, enter_disconnected-Evolves,
}
use truefix.Session.Invariant.Logon.{Evolves-state, send_logon-Evolves}
use Prim.Native.Nat.{max}

time_out-Evolves : (s : Session) → Evolves s (time_out s).1
unfolding time_out
time_out-Evolves s = enter_disconnected-Evolves s other

beat-Evolves : (e : Env) (s : Session) → Evolves s (beat e s).1
unfolding beat
beat-Evolves e s =
    if_rule (λ (r : List Action × Session). Evolves s r.1) (leb (hb s) s.ticks_since_send) _ _
      (send_next-Evolves s _) (Evolves-refl s)

probe-Evolves : (e : Env) (s : Session) → Evolves s (probe e s).1
unfolding probe
probe-Evolves e s =
    let s1 : Session = record (next_seq s).1 { test_request_outstanding = true } in
    if_rule (λ (r : List Action × Session). Evolves s r.1)
      (e.probe_due (hb s) s.ticks_since_recv && not s.test_request_outstanding) _ _
      (Evolves-trans (next_seq-Evolves s) (
        Evolves-trans (Same-Evolves (next_seq s).1 s1 (refl, refl, refl, refl))
          (send_stored-Evolves s1 _)))
      (Evolves-refl s)

check_heart_beat-Evolves : (e : Env) (s : Session) → Evolves s (check_heart_beat e s).1
unfolding check_heart_beat
check_heart_beat-Evolves e s =
    if_rule (λ (r : List Action × Session). Evolves s r.1)
      (e.recv_timed_out (hb s) s.ticks_since_recv) _ _ (time_out-Evolves s)
      (Evolves-trans (probe-Evolves e s) (beat-Evolves e (probe e s).1))

-- At the end of the schedule's window the session waits for the peer's Logout.
close_window-Evolves :
    (e : Env) (s : Session) → Evolves (record s { state = awaiting_logout }) (close_window e s).1
unfolding close_window send_raw
close_window-Evolves e s = Evolves-trans (Evolves-state awaiting_logout (send_next_raw-Evolves s)) (
    Same-Evolves (record (next_seq s).1 { ticks_since_send = 0; state = awaiting_logout }) _
      (refl, refl, refl, refl))

-- A session that is logged on stays as it is, ends, or waits for a Logout.
tick_logged_on-Evolves :
    (e : Env) (s : Session)
    → Evolves s (tick_logged_on e s).1
      ⊎ Evolves (record s { state = awaiting_logout }) (tick_logged_on e s).1
unfolding tick_logged_on
tick_logged_on-Evolves e s = elim (Bool-cases e.outside_schedule) [
  | inl outside ↦ simp (tick_logged_on, outside) (inr (close_window-Evolves e s))
  | inr inside ↦
      simp (tick_logged_on, inside)
        (inl (
          if_rule (λ (r : List Action × Session). Evolves s r.1) s.config.disable_heart_beat_check _
            _ (beat-Evolves e s) (check_heart_beat-Evolves e s)))
]

tick_in-Evolves :
    (e : Env) (s : Session) (st : SessionState)
    → Evolves s (tick_in e s st).1
      ⊎ ((st ≡ logged_on) × Evolves (record s { state = awaiting_logout }) (tick_in e s st).1)
unfolding tick_in
tick_in-Evolves e s disconnected = inl (Evolves-refl s)
tick_in-Evolves e s awaiting_logon = inl (
    if_rule (λ (r : List Action × Session). Evolves s r.1)
      (leb (max s.config.logon_timeout 1) s.ticks_awaiting) _ _ (time_out-Evolves s)
      (Evolves-refl s))
tick_in-Evolves e s logged_on = elim (tick_logged_on-Evolves e s) [
  | inl p ↦ inl p
  | inr p ↦ inr (refl, p)
]
tick_in-Evolves e s awaiting_logout = inl (
    if_rule (λ (r : List Action × Session). Evolves s r.1)
      (leb (max s.config.logout_timeout 1) s.ticks_awaiting) _ _ (time_out-Evolves s)
      (beat-Evolves e s))

pub on_tick-Evolves :
    (e : Env) (s : Session)
    → Evolves s (on_tick e s).1
      ⊎ ((s.state ≡ logged_on) × Evolves (record s { state = awaiting_logout }) (on_tick e s).1)
unfolding on_tick
on_tick-Evolves e s =
    let s1 = count_tick s in
    let p : Evolves s s1 = unfold count_tick in Same-Evolves s s1 (refl, refl, refl, refl) in
    let stays : s1.state ≡ s.state = unfold count_tick in refl in
    elim (tick_in-Evolves e s1 s.state) [
      | inl q ↦ inl (Evolves-trans p q)
      | inr (on, q) ↦ inr (on, Evolves-trans (Evolves-state awaiting_logout p) q)
    ]

initiate-Evolves : (e : Env) (s : Session) → Evolves s (initiate e s).1
unfolding initiate
initiate-Evolves e s =
    let s1 : Session = if s.config.reset_on_logon then reset_sequences s true else s in
    let s2 : Session = record s1 { reset_on_logon_pending = should_send_reset s1 } in
    let p =
      if_rule (Evolves s) s.config.reset_on_logon (reset_sequences s true) s
        (reset_sequences-Evolves s true) (Evolves-refl s) in
    let q = Evolves-trans p (
      Evolves-trans (Same-Evolves s1 s2 (refl, refl, refl, refl))
        (send_logon-Evolves e s2 (should_send_reset s1))) in
    if_rule (λ (r : List Action × Session). Evolves s r.1) s.config.reset_on_logon _ _ q q

pub on_connected-Evolves :
    (e : Env) (s : Session)
    → Evolves (record s { state = awaiting_logon; logon_received = false }) (on_connected e s).1
unfolding on_connected new_connection
on_connected-Evolves e s =
    let s0 : Session = record s { state = awaiting_logon; logon_received = false } in
    let p = Same-Evolves s0 (new_connection s) (refl, refl, refl, refl) in
    if_rule (λ (r : List Action × Session). Evolves s0 r.1) (is_acceptor s) _ _ p
      (Evolves-trans p (initiate-Evolves e (new_connection s)))

pub on_garbled-Evolves : (now : Bytes) (s : Session) → Evolves s (on_garbled now s).1
unfolding on_garbled
on_garbled-Evolves now s =
    if_rule (λ (r : List Action × Session). Evolves s r.1)
      (not s.config.reject_garbled_message || not (is_logged_on s)) _ _ (Evolves-refl s)
      (send_next-Evolves s _)

pub on_start_logout-Evolves :
    (now : Bytes) (s : Session)
    → Evolves s (on_start_logout now s).1
      ⊎ ((s.state ≡ logged_on)
          × Evolves (record s { state = awaiting_logout }) (on_start_logout now s).1)
unfolding on_start_logout send_raw
on_start_logout-Evolves now s = elim (Bool-cases (is_logged_on s)) [
  | inr off ↦ rw (on_start_logout, off) (inl (Evolves-refl s))
  | inl on ↦
      rw (on_start_logout, on)
        (inr (
          unfold is_logged_on in ground arith,
          Evolves-trans (Evolves-state awaiting_logout (send_next_raw-Evolves s)) (
              Same-Evolves (record (next_seq s).1 { ticks_since_send = 0; state = awaiting_logout })
                _ (refl, refl, refl, refl)),
        ))
]
