-- ===== src/Session/Lifecycle.antt =====
-- The life of a session over any events: `handle` of crates/truefix-session/src/state.rs against
-- the protocol's state machine.
use truefix.Base.{
  ◌≤◌, ◌≡◌, ◌⊎◌, inl, inr, refl, sym, ◌∙◌, subst, Bool, true, false, List, Option, none, some,
  arith,
}
use truefix.Text.Decimal.{max_u64}
use truefix.Core.Message
use truefix.Core.Message.{Message}
use truefix.Session.Config.{SessionConfig}
use truefix.Session.State.{
  Session, SessionState, disconnected, awaiting_logon, logged_on, awaiting_logout, Action,
  new_session,
}
use truefix.Session.Inbound.{is_type}
use truefix.Session.Checks.{Env, latency_ok, identity_problem}
use truefix.Session.Logon.{problem_in, logon_problem}
use truefix.Session.Logon.Accept.{on_logon}
use truefix.Session.Received.{heard}
use truefix.Session.Engine.{Event, connected, received, tick, start_logout, garbled, handle}
use truefix.Session.Invariant.{Evolves, enter_disconnected-Evolves, Runs, Runs-some}
use truefix.Session.Invariant.Admit.{Admitted, on_logon-Concludes}
use truefix.Session.Invariant.Received.{ReachesLogon, on_received-Runs}
use truefix.Session.Invariant.Tick.{
  on_tick-Evolves, on_connected-Evolves, on_garbled-Evolves, on_start_logout-Evolves,
}

-- The expected number and the own number are at least 1, the own one fits a u64, and a session that
-- is logged on or waits for a Logout has received a Logon on this connection.
pub record IsValid (s : Session) : Type 0 where
  pub in_positive : 1 ≤ s.next_in_seq
  pub out_positive : 1 ≤ s.next_out_seq
  pub out_bounded : s.next_out_seq ≤ max_u64
  pub has_logon : (s.state ≡ logged_on) ⊎ (s.state ≡ awaiting_logout) → s.logon_received ≡ true

-- The moves of the protocol. A session is logged on only by a Logon that it waited for, on time and
-- of the right parties, with nothing against it and valid for the dictionaries.
pub data Move (e : Env) (s : Session) (ev : Event) (s' : Session) : Type 0 where
  stay : s'.state ≡ s.state → Move e s ev s'
  close : s'.state ≡ disconnected → Move e s ev s'
  connect : ev ≡ connected → s'.state ≡ awaiting_logon → Move e s ev s'
  log_on :
      (m : Message)
      → ev ≡ received m
      → s.state ≡ awaiting_logon
      → is_type (Message.msg_type m) b'A' ≡ true
      → latency_ok e s m ≡ true
      → identity_problem s m ≡ none
      → logon_problem e s m ≡ none
      → e.check s.negotiated_appl_ver_id m ≡ none
      → s'.state ≡ logged_on
      → Move e s ev s'
  leave :
      (ev ≡ tick) ⊎ (ev ≡ start_logout)
      → s.state ≡ logged_on
      → s'.state ≡ awaiting_logout
      → Move e s ev s'

-- What handling an event does: it ends, with a move, and keeps the session valid.
Handles : Env → Session → Event → Option (List Action × Session) → Type 0
Handles e s ev r =
    (actions : List Action) × (s' : Session) × (r ≡ some (actions, s'))
    × Move e s ev s'
    × IsValid s'

-- A session evolves from the old one, or from the old one in another state.
Evolves-IsValid :
    {s s' : Session}
    → Evolves s s'
    → 1 ≤ s.next_in_seq
    → 1 ≤ s.next_out_seq
    → s.next_out_seq ≤ max_u64
    → ((s.state ≡ logged_on) ⊎ (s.state ≡ awaiting_logout) → s.logon_received ≡ true)
    → IsValid s'
Evolves-IsValid {s} {s'} p a b c d = record {
  in_positive = p.in_positive a;
  out_positive = p.out_positive b;
  out_bounded = p.out_bounded c;
  has_logon = λ on. p.received_stays ∙ d (before p.state_stays on);
}
  where
    before :
        (s'.state ≡ s.state) ⊎ (s'.state ≡ disconnected)
        → (s'.state ≡ logged_on) ⊎ (s'.state ≡ awaiting_logout)
        → (s.state ≡ logged_on) ⊎ (s.state ≡ awaiting_logout)
    before (inl e) (inl on) = inl (sym e ∙ on)
    before (inl e) (inr on) = inr (sym e ∙ on)
    before (inr e) (inl on) = absurd (cc)
    before (inr e) (inr on) = absurd (cc)

kept : {s s' : Session} → Evolves s s' → IsValid s → IsValid s'
kept p v = Evolves-IsValid p v.in_positive v.out_positive v.out_bounded v.has_logon

Move-stays :
    (e : Env) (s : Session) (ev : Event) (s' : Session)
    → (s'.state ≡ s.state) ⊎ (s'.state ≡ disconnected)
    → Move e s ev s'
Move-stays e s ev s' (inl same) = stay same
Move-stays e s ev s' (inr ended) = close ended

-- Nothing but steps that keep the state or end the session.
evolved :
    (e : Env) (s : Session) (ev : Event) (r : Option (List Action × Session))
    → IsValid s
    → Runs s r
    → Handles e s ev r
unfolding Handles
evolved e s ev r v (actions, s', eq, p) =
    (actions, s', eq, Move-stays e s ev s' p.state_stays, kept p v)

-- A session that was logged on, and waits for a Logout or has ended.
leaves :
    (e : Env) (s : Session) (ev : Event) (r : List Action × Session)
    → IsValid s
    → (ev ≡ tick) ⊎ (ev ≡ start_logout)
    → s.state ≡ logged_on
    → Evolves (record s { state = awaiting_logout }) r.1
    → Handles e s ev (some r)
unfolding Handles
leaves e s ev r v cause on p = (
  r.0,
  r.1,
  refl,
  move p.state_stays,
  Evolves-IsValid p v.in_positive v.out_positive v.out_bounded (λ _. v.has_logon (inl on)),
)
  where
    move : (r.1.state ≡ awaiting_logout) ⊎ (r.1.state ≡ disconnected) → Move e s ev r.1
    move (inl waits) = leave cause on waits
    move (inr ended) = close ended

connects :
    (e : Env) (s : Session) (r : List Action × Session)
    → IsValid s
    → Evolves (record s { state = awaiting_logon; logon_received = false }) r.1
    → Handles e s connected (some r)
unfolding Handles
connects e s r v p = (
  r.0,
  r.1,
  refl,
  move p.state_stays,
  Evolves-IsValid p v.in_positive v.out_positive v.out_bounded not_yet,
)
  where
    move : (r.1.state ≡ awaiting_logon) ⊎ (r.1.state ≡ disconnected) → Move e s connected r.1
    move (inl waits) = connect refl waits
    move (inr ended) = close ended

    not_yet :
        (awaiting_logon ≡ logged_on) ⊎ (awaiting_logon ≡ awaiting_logout)
        → ◌≡◌ {A = Bool} false true
    not_yet (inl on) = absurd (cc)
    not_yet (inr on) = absurd (cc)

problem_in-awaiting :
    (e : Env) (s : Session) (m : Message) (st : SessionState)
    → problem_in e s m st ≡ none
    → st ≡ awaiting_logon
unfolding problem_in
problem_in-awaiting e s m awaiting_logon fine = refl
problem_in-awaiting e s m disconnected fine = absurd (cc)
problem_in-awaiting e s m logged_on fine = absurd (cc)
problem_in-awaiting e s m awaiting_logout fine = absurd (cc)

logon_problem-awaiting :
    (e : Env) (s : Session) (m : Message) → logon_problem e s m ≡ none → s.state ≡ awaiting_logon
unfolding logon_problem
logon_problem-awaiting e s m fine = problem_in-awaiting e s m s.state fine

-- A Logon that reaches its handler.
takes_logon :
    (e : Env) (s : Session) (m : Message)
    → IsValid s
    → ReachesLogon e s m
    → Handles e s (received m) (on_logon e (heard s) m)
unfolding Handles heard logon_problem
takes_logon e s m v (timely, ours, logon) =
    by_end (on_logon-Concludes e (heard s) m (v.out_positive, v.out_bounded))
  where
    by_end :
        Runs (record (heard s) { logon_received = true }) (on_logon e (heard s) m)
          ⊎ (Admitted e (heard s) m
              × Runs
                  (record (heard s) { logon_received = true; state = logged_on })
                  (on_logon e (heard s) m))
        → Handles e s (received m) (on_logon e (heard s) m)
    by_end (inl (actions, s', eq, p)) = (
      actions,
      s',
      eq,
      Move-stays e s (received m) s' p.state_stays,
      Evolves-IsValid p v.in_positive v.out_positive v.out_bounded (λ _. refl),
    )
    by_end (inr (admitted, (actions, s', eq, p))) = (
      actions,
      s',
      eq,
      move p.state_stays,
      Evolves-IsValid p v.in_positive v.out_positive v.out_bounded (λ _. refl),
    )
      where
        move : (s'.state ≡ logged_on) ⊎ (s'.state ≡ disconnected) → Move e s (received m) s'
        move (inl on) =
            log_on m refl (logon_problem-awaiting e s m admitted.no_problem) logon timely ours
              admitted.no_problem admitted.valid on
        move (inr ended) = close ended

-- In a valid session the handling of every event ends, whatever the surroundings answer: it makes
-- one move of the protocol, or none, and leaves a valid session.
pub handle_lem :
    (e : Env) (s : Session) (ev : Event)
    → IsValid s
    → (actions : List Action) × (s' : Session) × (handle e s ev ≡ some (actions, s'))
      × Move e s ev s'
      × IsValid s'
unfolding handle Handles
handle_lem e s connected v = connects e s _ v (on_connected-Evolves e s)
handle_lem e s (received m) v = elim (on_received-Runs e s m (v.out_positive, v.out_bounded)) [
  | inl runs ↦ evolved e s (received m) _ v runs
  | inr (reaches, same) ↦ rw same (takes_logon e s m v reaches)
]
handle_lem e s tick v = elim (on_tick-Evolves e s) [
  | inl p ↦ evolved e s tick _ v (Runs-some _ p)
  | inr (on, p) ↦ leaves e s tick _ v (inl refl) on p
]
handle_lem e s start_logout v = elim (on_start_logout-Evolves e.now s) [
  | inl p ↦ evolved e s start_logout _ v (Runs-some _ p)
  | inr (on, p) ↦ leaves e s start_logout _ v (inr refl) on p
]
handle_lem e s garbled v = evolved e s garbled _ v (Runs-some _ (on_garbled-Evolves e.now s))
handle_lem e s (Event.disconnected reason) v =
    evolved e s (Event.disconnected reason) _ v (Runs-some _ (enter_disconnected-Evolves s reason))

-- The sessions that events lead to, each with surroundings of its own.
pub data Reach (config : SessionConfig) : Session → Type 0 where
  here : Reach config (new_session config)
  next :
      {s s' : Session} (e : Env) (ev : Event) (actions : List Action)
      → Reach config s
      → handle e s ev ≡ some (actions, s')
      → Reach config s'

-- Every session that is reached by events from a new one is valid.
pub Reach-IsValid : (config : SessionConfig) (s : Session) → Reach config s → IsValid s
unfolding new_session
Reach-IsValid config s here = record {
  in_positive = omega arith;
  out_positive = omega arith;
  out_bounded = omega arith;
  has_logon = λ on. elim on [ inl bad ↦ absurd (cc) | inr bad ↦ absurd (cc) ];
}
Reach-IsValid config s (next {s = t} e ev actions r eq) =
    let (more, s1, eq', moved, valid) = handle_lem e t ev (Reach-IsValid config t r) in
    let same : s1 ≡ s = cc in subst IsValid same valid
