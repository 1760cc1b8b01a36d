-- ===== src/Session/Invariant/Checks.antt =====
-- The refusals, as steps of the session (`reject_logon`, `session_reject_before_logout` and the ends
-- of `on_received` of crates/truefix-session/src/state.rs).
use truefix.Base.{refl, List, Bytes}
use truefix.Core.Message
use truefix.Core.Message.{Message}
use truefix.Session.State.{Session, Action, disconnected, next_seq}
use truefix.Session.Inbound.{is_type}
use truefix.Session.Checks.{
  Env, Reject, build_session_reject, reject_logon, session_reject_before_logout, abort,
  abort_with_reject,
}
use truefix.Session.Invariant.{
  Evolves, Evolves-trans, disconnect-Evolves, if_rule, next_seq-Evolves, send_next-Evolves,
  reset_on_error-Evolves,
}

-- A Logout under the next number, with the session disconnected.
pub disconnect_next-Evolves :
    (s : Session) → Evolves s (record (next_seq s).1 { state = disconnected; ticks_since_send = 0 })
disconnect_next-Evolves s =
    Evolves-trans (next_seq-Evolves s)
      (disconnect-Evolves (next_seq s).1 _ (refl, refl, refl, refl))

pub reject_logon-Evolves : (e : Env) (s : Session) (r : Reject) → Evolves s (reject_logon e s r).1
unfolding reject_logon
reject_logon-Evolves e s r = disconnect_next-Evolves s

build_session_reject-Evolves :
    (e : Env) (s : Session) (m : Message) (r : Reject) → Evolves s (build_session_reject e s m r).1
unfolding build_session_reject
build_session_reject-Evolves e s m r = send_next-Evolves s _

pub session_reject_before_logout-Evolves :
    (e : Env) (s : Session) (m : Message) (r : Reject)
    → Evolves s (session_reject_before_logout e s m r).1
unfolding session_reject_before_logout
session_reject_before_logout-Evolves e s m r =
    Evolves-trans (build_session_reject-Evolves e s m r) (reject_logon-Evolves e _ r)

pub abort-Evolves : (e : Env) (s : Session) (reason : Bytes) → Evolves s (abort e s reason).1
unfolding abort
abort-Evolves e s reason = Evolves-trans (disconnect_next-Evolves s) (reset_on_error-Evolves _)

pub abort_with_reject-Evolves :
    (e : Env) (s : Session) (m : Message) (r : Reject) (reason : Bytes)
    → Evolves s (abort_with_reject e s m r reason).1
unfolding abort_with_reject
abort_with_reject-Evolves e s m r reason =
    if_rule (λ (x : List Action × Session). Evolves s x.1) (is_type (Message.msg_type m) b'A') _ _
      (abort-Evolves e s reason)
      (Evolves-trans (build_session_reject-Evolves e s m r) (abort-Evolves e _ reason))
