-- ===== src/Session/Tick/Timers.antt =====
-- What the timer guarantees: heartbeats in time, and the end of a silent peer (`on_tick` of
-- crates/truefix-session/src/state.rs).
use truefix.Base.{
  ℕ, zero, suc, ◌+◌, ◌^◌, ◌≤◌, ◌<◌, ◌≡◌, ◌⊎◌, inl, inr, refl, ◌∙◌, ap, true, false, not, ◌&&◌, List,
  Option, none, some, ltb, leb, arith, Bool-cases,
}
use truefix.Core.Message.{Message}
use truefix.Session.State.{
  Session, SessionState, disconnected, logged_on, Action, next_seq, keep, send_stored,
  enter_disconnected, reset, reset_sequences,
}
use truefix.Session.Config.{SessionConfig}
use truefix.Session.Checks.{Env}
use truefix.Session.Invariant.{if_rule}
use truefix.Session.Tick.{
  saturating_tick, count_tick, hb, time_out, beat, probe, check_heart_beat, tick_logged_on, tick_in,
  on_tick,
}
use Prim.Native.Nat.{max}

-- What sending leaves of the timer's fields.
Timers : Session → Session → Type 0
Timers s t =
    (t.state ≡ s.state)
    × (t.ticks_since_recv ≡ s.ticks_since_recv)
    × (t.ticks_awaiting ≡ s.ticks_awaiting)
    × (t.config ≡ s.config)

Timers-keep : (s : Session) (m : Message) (o : Option ℕ) → Timers s (keep s m o)
unfolding Timers keep
Timers-keep s m none = (refl, refl, refl, refl)
Timers-keep s m (some seq) =
    if_rule (Timers s) s.config.persist_messages _ _ (refl, refl, refl, refl)
      (refl, refl, refl, refl)

sent_just_now-keep :
    (s : Session) (m : Message) (o : Option ℕ) → (keep s m o).ticks_since_send ≡ s.ticks_since_send
unfolding keep
sent_just_now-keep s m none = refl
sent_just_now-keep s m (some seq) = ground arith

Timers-beat : (e : Env) (s : Session) → Timers s (beat e s).1
unfolding Timers beat next_seq send_stored
Timers-beat e s =
    if_rule (λ (r : List Action × Session). Timers s r.1) (leb (hb s) s.ticks_since_send) _ _
      (Timers-keep _ _ _) (refl, refl, refl, refl)

Timers-probe : (e : Env) (s : Session) → Timers s (probe e s).1
unfolding Timers probe next_seq send_stored
Timers-probe e s =
    if_rule (λ (r : List Action × Session). Timers s r.1)
      (e.probe_due (hb s) s.ticks_since_recv && not s.test_request_outstanding) _ _
      (Timers-keep _ _ _) (refl, refl, refl, refl)

-- A Heartbeat that is due is sent, and resets the timer.
beat_in_time : (e : Env) (s : Session) → (beat e s).1.ticks_since_send < hb s
unfolding beat next_seq send_stored
beat_in_time e s = elim (Bool-cases (leb (hb s) s.ticks_since_send)) [
  | inl due ↦ rw (beat, due) (omega (arith, sent_just_now-keep _ _ _))
  | inr not_due ↦ rw (beat, not_due) (ground arith)
]

-- One tick of a session that is logged on and watches the peer.
data Watched (e : Env) (s : Session) : Type 0 where
  over : (on_tick e s).1.state ≡ disconnected → Watched e s
  on :
      e.recv_timed_out (hb s) (saturating_tick s.ticks_since_recv) ≡ false
      → (on_tick e s).1.state ≡ logged_on
      → (on_tick e s).1.ticks_since_recv ≡ saturating_tick s.ticks_since_recv
      → (on_tick e s).1.config ≡ s.config
      → (on_tick e s).1.ticks_since_send < hb s
      → Watched e s

time_out-state : (s : Session) → (time_out s).1.state ≡ disconnected
unfolding time_out enter_disconnected reset reset_sequences
time_out-state s = ground arith

check_heart_beat-Watched :
    (e : Env) (s : Session)
    → s.state ≡ logged_on
    → ((check_heart_beat e s).1.state ≡ disconnected)
      ⊎ ((e.recv_timed_out (hb s) s.ticks_since_recv ≡ false)
          × ((check_heart_beat e s).1.state ≡ logged_on)
          × ((check_heart_beat e s).1.ticks_since_recv ≡ s.ticks_since_recv)
          × ((check_heart_beat e s).1.config ≡ s.config)
          × ((check_heart_beat e s).1.ticks_since_send < hb s))
unfolding check_heart_beat Timers
check_heart_beat-Watched e s is = elim (Bool-cases (e.recv_timed_out (hb s) s.ticks_since_recv)) [
  | inl late ↦ rw (check_heart_beat, late) (inl (time_out-state s))
  | inr fine ↦
      let (st, recv, waits, config) = Timers-probe e s in
      let (st', recv', waits', config') = Timers-beat e (probe e s).1 in
      let in_time = beat_in_time e (probe e s).1 in
      let same : hb (probe e s).1 ≡ hb s =
        ap (λ (c : SessionConfig). max c.heartbeat_interval 1) config in
      rw (check_heart_beat, fine)
        (inr (refl, st' ∙ st ∙ is, recv' ∙ recv, config' ∙ config, omega (arith, in_time, same)))
]

on_tick-check_heart_beat :
    (e : Env) (s : Session)
    → s.state ≡ logged_on
    → s.config.disable_heart_beat_check ≡ false
    → e.outside_schedule ≡ false
    → on_tick e s ≡ check_heart_beat e (count_tick s)
unfolding on_tick tick_in tick_logged_on
on_tick-check_heart_beat e s is watches inside =
    ap (tick_in e (count_tick s)) is ∙ (simp inside (simp counted))
  where
    counted : (count_tick s).config.disable_heart_beat_check ≡ false
    counted = unfold count_tick in watches

tick-Watched :
    (e : Env) (s : Session)
    → s.state ≡ logged_on
    → s.config.disable_heart_beat_check ≡ false
    → e.outside_schedule ≡ false
    → Watched e s
unfolding count_tick
tick-Watched e s is watches inside =
    let same = on_tick-check_heart_beat e s is watches inside in
    elim (check_heart_beat-Watched e (count_tick s) is) [
      | inl ended ↦ over (ap (λ (r : List Action × Session). r.1.state) same ∙ ended)
      | inr (fine, st, recv, config, in_time) ↦
          on fine (ap (λ (r : List Action × Session). r.1.state) same ∙ st)
            (ap (λ (r : List Action × Session). r.1.ticks_since_recv) same ∙ recv)
            (ap (λ (r : List Action × Session). r.1.config) same ∙ config)
            (omega (arith, in_time, ap (λ (r : List Action × Session). r.1.ticks_since_send) same))
    ]

-- While the timer watches the peer, a tick that leaves the session logged on also leaves it with less
-- than one heartbeat interval since the last message it sent.
pub on_tick_lem :
    (e : Env) (s : Session)
    → s.state ≡ logged_on
    → s.config.disable_heart_beat_check ≡ false
    → e.outside_schedule ≡ false
    → (on_tick e s).1.state ≡ logged_on
    → (on_tick e s).1.ticks_since_send < max s.config.heartbeat_interval 1
on_tick_lem e s is watches inside still = elim (tick-Watched e s is watches inside) [
  | over ended ↦ absurd (cc)
  | on fine st recv config in_time ↦ in_time
]

-- The session after a number of ticks with nothing between them.
pub after_ticks : ℕ → Env → Session → Session
after_ticks zero e s = s
after_ticks (suc n) e s = after_ticks n e (on_tick e s).1

after_ticks-disconnected :
    (n : ℕ) (e : Env) (s : Session)
    → s.state ≡ disconnected
    → (after_ticks n e s).state ≡ disconnected
unfolding after_ticks on_tick tick_in
after_ticks-disconnected zero e s gone = gone
after_ticks-disconnected (suc n) e s gone = after_ticks-disconnected n e (on_tick e s).1 (
    ap (λ (st : SessionState). (tick_in e (count_tick s) st).1.state) gone
    ∙ (unfold count_tick in gone))

-- A peer that stays silent loses a session that is logged on and watches it: if the timer's
-- comparison says yes at every count from `limit` on, the session is disconnected as soon as the
-- ticks since the last message and the ticks that follow come to `limit`.
pub silent_peer_lem :
    (n : ℕ) (e : Env) (s : Session) (limit : ℕ)
    → s.state ≡ logged_on
    → s.config.disable_heart_beat_check ≡ false
    → e.outside_schedule ≡ false
    → ((ticks : ℕ) → limit ≤ ticks → e.recv_timed_out (hb s) ticks ≡ true)
    → limit < 2 ^ 32
    → 0 < n
    → limit ≤ s.ticks_since_recv + n
    → (after_ticks n e s).state ≡ disconnected
unfolding after_ticks
silent_peer_lem zero e s limit is watches inside late bound p l = absurd (omega arith)
silent_peer_lem (suc n) e s limit is watches inside late bound p l =
    elim (tick-Watched e s is watches inside) [
      | over ended ↦ after_ticks-disconnected n e (on_tick e s).1 ended
      | on fine st recv config in_time ↦
          let below : saturating_tick s.ticks_since_recv < limit =
            not_late (saturating_tick s.ticks_since_recv) fine in
          let counted : saturating_tick s.ticks_since_recv ≡ s.ticks_since_recv + 1 =
            unfold saturating_tick in ground arith in
          silent_peer_lem n e (on_tick e s).1 limit st
            (ap (λ (c : SessionConfig). c.disable_heart_beat_check) config ∙ watches) inside
            (λ ticks h.
              ap (λ (c : SessionConfig). e.recv_timed_out (max c.heartbeat_interval 1) ticks) config
              ∙ late ticks h)
            bound (omega (arith, l, below, counted, recv)) (omega (arith, l, below, counted, recv))
    ]
  where
    not_late : (t : ℕ) → e.recv_timed_out (hb s) t ≡ false → t < limit
    not_late t fine = elim (Bool-cases (ltb t limit)) [
      | inl q ↦ ground arith
      | inr q ↦ let is_late = late t (ground arith) in absurd (cc)
    ]
