-- ===== src/Session/Engine.antt =====
-- The events of a session and their handling: `Event` and `handle` of
-- crates/truefix-session/src/state.rs.
use truefix.Base.{List, Option, some}
use truefix.Core.Message.{Message}
use truefix.Session.State.{
  Session, Action, DisconnectReason, on_garbled, on_start_logout, enter_disconnected,
}
use truefix.Session.Checks.{Env}
use truefix.Session.Logon.{on_connected}
use truefix.Session.Received.{on_received}
use truefix.Session.Tick.{on_tick}

pub data Event : Type 0 where
  connected : Event
  received : Message → Event
  tick : Event
  start_logout : Event
  garbled : Event
  disconnected : DisconnectReason → Event

-- `none` is a loop that ran out of its fuel.
unfoldable pub handle : Env → Session → Event → Option (List Action × Session)
unfolding on_connected on_received on_tick on_start_logout on_garbled enter_disconnected
handle e s connected = some (on_connected e s)
handle e s (received m) = on_received e s m
handle e s tick = some (on_tick e s)
handle e s start_logout = some (on_start_logout e.now s)
handle e s garbled = some (on_garbled e.now s)
handle e s (disconnected reason) = some (enter_disconnected s reason)
