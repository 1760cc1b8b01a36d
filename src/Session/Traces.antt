-- ===== src/Session/Traces.antt =====
-- An acceptor through its events: a Logon, and what follows (crates/truefix-session/src/state.rs).
use truefix.Base.{
  true, ◌+◌, ◌*◌, ◌≡◌, refl, false, List, [], Option, none, some, codes, ltb, leb, last?, ◌<◌,
  arith,
}
use truefix.Base.Maps.{find_key}
use truefix.Text.Utf8.{from_utf8}
use truefix.Text.Decimal.{parse_i64, to_string_signed}
use truefix.Core.FieldMap
use truefix.Core.FieldMap.{Field, end, member, field}
use truefix.Core.Message.{Message, new_message, msg_type}
use truefix.Session.Admin
use truefix.Session.Admin.{string}
use truefix.Session.State.{
  Session, SessionState, logged_on, Action, new_session, keep, disconnect, disconnected,
}
use truefix.Session.Checks.{Env}
use truefix.Session.Logon.{new_connection}
use truefix.Session.Engine.{connected, received, handle}
use truefix.Session.Lifecycle.{IsValid, Move, handle_lem, Reach, here, next, Reach-IsValid}
use truefix.Session.Examples.{config, now, silent, order, beat}
use truefix.Session.Checks.{would_reject_before_processing}
use truefix.Session.Received.{queue_early}
use truefix.Session.Received.Refused.{would_reject_before_processing_lem}
use truefix.Session.Received.Early.{queue_early_lem, Asks}
use truefix.Session.Tick.{on_tick}
use truefix.Session.Tick.Timers.{after_ticks, silent_peer_lem, on_tick_lem}

-- No dictionary, no schedule, and the default multipliers of the heartbeat timer.
abbrev env : Env
env = record {
  now = now;
  check = silent;
  utc_timestamp = λ text. none;
  clock = 0;
  outside_schedule = false;
  unregistered = λ version. false;
  recv_timed_out = λ interval ticks. leb (2 * interval + 2) ticks;
  probe_due = λ interval ticks. ltb interval ticks;
}

abbrev logon : Message
logon = record new_message {
  header =
      member (field (string 8 (codes "FIX.4.4")))
        (member (field (string 35 (codes "A"))) (member (field (string 34 (codes "1"))) end));
  body = member (field (string 108 (codes "30"))) end;
}

-- The acceptor after a connection.
abbrev waiting : Session
waiting = new_connection (new_session config)

connects : handle env (new_session config) connected ≡ some ([], waiting)
unfolding handle new_session
connects = refl

waiting-Reach : Reach config waiting
waiting-Reach = next env connected [] here connects

Reach-IsValid_example : IsValid waiting
Reach-IsValid_example = Reach-IsValid config waiting waiting-Reach

waiting-IsValid : IsValid waiting
waiting-IsValid = Reach-IsValid config waiting waiting-Reach

handle_lem_example :
    (actions : List Action) × (s' : Session) × (handle env waiting (received logon)
      ≡ some (actions, s'))
    × Move env waiting (received logon) s'
    × IsValid s'
handle_lem_example = handle_lem env waiting (received logon) waiting-IsValid

state_after : Option (List Action × Session) → Option SessionState
state_after none = none
state_after (some (actions, s)) = some s.state

logs_on : state_after (handle env waiting (received logon)) ≡ some logged_on
unfolding handle state_after new_session new_connection FieldMap.get from_utf8 parse_i64 find_key
    msg_type keep Admin.logon_with_reset_flag Admin.set_header FieldMap.set Admin.set_header_opt
    Admin.int to_string_signed Admin.as_i64
logs_on = refl

-- A Logon of another version of the protocol.
abbrev foreign_logon : Message
foreign_logon = record new_message {
  header =
      member (field (string 8 (codes "FIX.4.2")))
        (member (field (string 35 (codes "A"))) (member (field (string 34 (codes "1"))) end));
}

would_reject_before_processing_lem_example :
    (r : List Action × Session) × (handle env waiting (received foreign_logon) ≡ some r)
    × (last? r.0 ≡ some disconnect)
    × (r.1.state ≡ disconnected)
unfolding would_reject_before_processing FieldMap.get from_utf8 new_session new_connection
would_reject_before_processing_lem_example =
    would_reject_before_processing_lem env waiting foreign_logon refl

-- The session while it is logged on.
abbrev talking : Session
talking = record (new_session config) {
  config = config;
  state = logged_on;
  next_in_seq = 5;
  ticks_since_send = 3;
  ticks_since_recv = 3;
  resend_requested = false;
  test_request_outstanding = false;
}

queue_early_lem_example :
    let (first, s1) = queue_early env talking 7 order in
    let (second, s2) = queue_early env s1 9 beat in
    Asks true first 5
    × (second ≡ [])
    × (find_key s2.queue 9 ≡ some beat)
    × (find_key s2.queue 7 ≡ some order)
    × (s2.next_in_seq ≡ 5)
queue_early_lem_example = queue_early_lem env talking 7 9 order beat refl refl

silent_peer_lem_example : (after_ticks 59 env talking).state ≡ disconnected
silent_peer_lem_example =
    silent_peer_lem 59 env talking 62 refl refl refl (λ ticks late. ground arith) (omega arith)
      (omega arith) (omega arith)

on_tick_lem_example : (on_tick env talking).1.ticks_since_send < 30
unfolding on_tick
on_tick_lem_example = on_tick_lem env talking refl refl refl refl
