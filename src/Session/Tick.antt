-- ===== src/Session/Tick.antt =====
-- The timer: `on_tick` of crates/truefix-session/src/state.rs. One tick is a second.
pub mod Timers
use truefix.Base.{
  ℕ, ◌+◌, ◌-◌, ◌^◌, true, not, ◌&&◌, List, [], ◌∷◌, ◌++◌, none, some, codes, ltb, leb,
  if◌then◌else◌,
}
use truefix.Session.Admin
use truefix.Session.State.{
  Session, SessionState, disconnected, awaiting_logon, logged_on, awaiting_logout, Action,
  disconnect, other, next_seq, send_stored, send_raw, enter_disconnected,
}
use truefix.Session.Checks.{Env}
use Prim.Native.Nat.{max}

-- `saturating_add(1)` of a u32.
unfoldable pub saturating_tick : ℕ → ℕ
saturating_tick n = if ltb n (2 ^ 32 - 1) then n + 1 else n

unfoldable pub count_tick : Session → Session
unfolding saturating_tick
count_tick s = record s {
  ticks_since_send = saturating_tick s.ticks_since_send;
  ticks_since_recv = saturating_tick s.ticks_since_recv;
  ticks_awaiting = saturating_tick s.ticks_awaiting;
}

abbrev pub hb : Session → ℕ
hb s = max s.config.heartbeat_interval 1

unfoldable pub time_out : Session → List Action × Session
unfolding enter_disconnected
time_out s = let (resets, s1) = enter_disconnected s other in (resets ++ disconnect ∷ [], s1)

-- The Logout at the end of the schedule's window; the peer's answer is awaited.
unfoldable pub close_window : Env → Session → List Action × Session
unfolding next_seq send_raw
close_window e s =
    let (seq, s1) = next_seq s in
    let (a, s2) =
      send_raw s1
        (Admin.logout s1.config e.now seq (some (codes "session schedule window closed"))) in
    (a ∷ [], record s2 { ticks_awaiting = 0; state = awaiting_logout })

-- A Heartbeat, where one is due.
unfoldable pub beat : Env → Session → List Action × Session
unfolding next_seq send_stored
beat e s =
    let (seq, s1) = next_seq s in
    let (a, s2) = send_stored s1 (Admin.heartbeat s1.config e.now seq none) in
    if leb (hb s) s.ticks_since_send then (a ∷ [], s2) else ([], s)

-- A TestRequest, where the peer has been silent and none is out.
unfoldable pub probe : Env → Session → List Action × Session
unfolding next_seq send_stored
probe e s =
    let (seq, s1) = next_seq s in
    let (a, s2) =
      send_stored (record s1 { test_request_outstanding = true })
        (Admin.test_request s1.config e.now seq (codes "TEST")) in
    if e.probe_due (hb s) s.ticks_since_recv && not s.test_request_outstanding
    then (a ∷ [], s2)
    else ([], s)

unfoldable pub check_heart_beat : Env → Session → List Action × Session
unfolding time_out probe beat
check_heart_beat e s =
    let (a, s1) = probe e s in
    let (b, s2) = beat e s1 in
    if e.recv_timed_out (hb s) s.ticks_since_recv then time_out s else (a ++ b, s2)

-- The arms of `on_tick`, behind the counters.
unfoldable pub tick_logged_on : Env → Session → List Action × Session
unfolding close_window beat check_heart_beat
tick_logged_on e s =
    if e.outside_schedule
    then close_window e s
    else if s.config.disable_heart_beat_check
    then beat e s
    else check_heart_beat e s

unfoldable pub tick_in : Env → Session → SessionState → List Action × Session
unfolding time_out beat tick_logged_on
tick_in e s disconnected = ([], s)
tick_in e s awaiting_logon =
    if leb (max s.config.logon_timeout 1) s.ticks_awaiting then time_out s else ([], s)
tick_in e s logged_on = tick_logged_on e s
tick_in e s awaiting_logout =
    if leb (max s.config.logout_timeout 1) s.ticks_awaiting then time_out s else beat e s

unfoldable pub on_tick : Env → Session → List Action × Session
unfolding count_tick tick_in
on_tick e s = tick_in e (count_tick s) s.state
