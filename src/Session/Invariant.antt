-- ===== src/Session/Invariant.antt =====
-- How a session changes while it handles an event (crates/truefix-session/src/state.rs): the steps
-- of which all handlers are made.
pub mod Queue
pub mod Drain
pub mod Resend
pub mod SequenceReset
pub mod Checks
pub mod Logon
pub mod Admit
pub mod Received
pub mod Tick
use truefix.Base.{
  ℕ, zero, suc, ◌+◌, ◌-◌, ◌≤◌, ◌<◌, ◌≡◌, ◌⊎◌, inl, inr, refl, ◌∙◌, Bool, true, false, not,
  if◌then◌else◌, and_then, List, [], ◌∷◌, Option, none, some, Bytes, ltb, arith, Bool-cases,
  Option-cases,
}
use truefix.Text.Decimal.{max_u64}
use truefix.Core.Message.{Message}
use truefix.Session.Admin
use truefix.Session.State.{
  Session, SessionState, disconnected, awaiting_logon, logged_on, awaiting_logout, graceful_logout,
  should_reset, DisconnectReason, Action, next_seq, saturating_succ, keep, send_stored, send_raw,
  send_resend, reset_sequences, reset, reset_on_error, enter_disconnected, answer_test_request,
  is_logged_on, answer_logout, on_logout_msg,
}

-- From one session to a later one, without a Logon or a new connection: the numbers stay in their
-- ranges, and the state stays or becomes `disconnected`.
pub record Evolves (s s' : Session) : Type 0 where
  pub in_positive : 1 ≤ s.next_in_seq → 1 ≤ s'.next_in_seq
  pub out_positive : 1 ≤ s.next_out_seq → 1 ≤ s'.next_out_seq
  pub out_bounded : s.next_out_seq ≤ max_u64 → s'.next_out_seq ≤ max_u64
  pub state_stays : (s'.state ≡ s.state) ⊎ (s'.state ≡ disconnected)
  pub received_stays : s'.logon_received ≡ s.logon_received

pub Evolves-refl : (s : Session) → Evolves s s
Evolves-refl s = record {
  in_positive = λ p. p;
  out_positive = λ p. p;
  out_bounded = λ p. p;
  state_stays = inl refl;
  received_stays = refl;
}

pub Evolves-trans : {s t u : Session} → Evolves s t → Evolves t u → Evolves s u
Evolves-trans {s} {t} {u} p q = record {
  in_positive = λ h. q.in_positive (p.in_positive h);
  out_positive = λ h. q.out_positive (p.out_positive h);
  out_bounded = λ h. q.out_bounded (p.out_bounded h);
  state_stays = either p.state_stays q.state_stays;
  received_stays = q.received_stays ∙ p.received_stays;
}
  where
    either :
        (t.state ≡ s.state) ⊎ (t.state ≡ disconnected)
        → (u.state ≡ t.state) ⊎ (u.state ≡ disconnected)
        → (u.state ≡ s.state) ⊎ (u.state ≡ disconnected)
    either (inl a) (inl b) = inl (b ∙ a)
    either (inr a) (inl b) = inr (b ∙ a)
    either a (inr b) = inr b

saturating_succ_bounds :
    (n : ℕ) → (n ≤ saturating_succ n) × (n ≤ max_u64 → saturating_succ n ≤ max_u64)
unfolding saturating_succ
saturating_succ_bounds n = (ground arith, λ h. ground arith)

pub next_seq-Evolves : (s : Session) → Evolves s (next_seq s).1
unfolding next_seq
next_seq-Evolves s =
    let (up, bounded) = saturating_succ_bounds s.next_out_seq in
    record {
      in_positive = λ p. p;
      out_positive = λ p. omega (arith, p, up);
      out_bounded = bounded;
      state_stays = inl refl;
      received_stays = refl;
    }

-- A change of what `Evolves` does not speak of.
abbrev Same : Session → Session → Type 0
Same s s' =
    (s'.next_in_seq ≡ s.next_in_seq)
    × (s'.next_out_seq ≡ s.next_out_seq)
    × (s'.state ≡ s.state)
    × (s'.logon_received ≡ s.logon_received)

pub Same-Evolves : (s s' : Session) → Same s s' → Evolves s s'
Same-Evolves s s' (a, b, c, d) = record {
  in_positive = λ p. omega (arith, p, a);
  out_positive = λ p. omega (arith, p, b);
  out_bounded = λ p. omega (arith, p, b);
  state_stays = inl c;
  received_stays = d;
}

keep-Same : (s : Session) (m : Message) (o : Option ℕ) → Same s (keep s m o)
unfolding keep
keep-Same s m none = (refl, refl, refl, refl)
keep-Same s m (some seq) = elim (Bool-cases s.config.persist_messages) [
  | inl e ↦ rw e (refl, refl, refl, refl)
  | inr e ↦ rw e (refl, refl, refl, refl)
]

pub send_stored-Evolves : (s : Session) (m : Message) → Evolves s (send_stored s m).1
unfolding send_stored
send_stored-Evolves s m = Same-Evolves s _ (keep-Same (record s { ticks_since_send = 0 }) _ _)

pub reset_sequences-Evolves : (s : Session) (full : Bool) → Evolves s (reset_sequences s full)
unfolding reset_sequences
reset_sequences-Evolves s true = record {
  in_positive = λ p. omega arith;
  out_positive = λ p. omega arith;
  out_bounded = λ p. omega arith;
  state_stays = inl refl;
  received_stays = refl;
}
reset_sequences-Evolves s false = record {
  in_positive = λ p. omega arith;
  out_positive = λ p. p;
  out_bounded = λ p. p;
  state_stays = inl refl;
  received_stays = refl;
}

pub disconnect-Evolves :
    (s s' : Session) → Same (record s { state = disconnected }) s' → Evolves s s'
disconnect-Evolves s s' (a, b, c, d) = record {
  in_positive = λ p. omega (arith, p, a);
  out_positive = λ p. omega (arith, p, b);
  out_bounded = λ p. omega (arith, p, b);
  state_stays = inr c;
  received_stays = d;
}

-- What a handler returns: it does not run out of fuel, and the session evolves.
abbrev pub Runs : Session → Option (List Action × Session) → Type 0
Runs s r = (actions : List Action) × (s' : Session) × (r ≡ some (actions, s')) × Evolves s s'

pub Runs-some : {s : Session} (r : List Action × Session) → Evolves s r.1 → Runs s (some r)
Runs-some r p = (r.0, r.1, refl, p)

-- A handler, and then what is done with its result.
pub Runs-and_then :
    {s : Session} {r : Option (List Action × Session)}
    (f : List Action × Session → Option (List Action × Session))
    → Runs s r
    → ((actions : List Action) (s1 : Session) → Runs s1 (f (actions, s1)))
    → Runs s (and_then r f)
Runs-and_then f (actions, s1, e, p) next =
    let (more, s2, e', q) = next actions s1 in (more, s2, rw e e', Evolves-trans p q)

-- Both branches of a test.
pub if_rule {ℓ κ} :
    {A : Type ℓ} (P : A → Type κ) (b : Bool) (x y : A) → P x → P y → P (if b then x else y)
if_rule P true x y p q = p
if_rule P false x y p q = q

pub reset_on_error-Evolves : (s : Session) → Evolves s (reset_on_error s).1
unfolding reset_on_error reset
reset_on_error-Evolves s =
    if_rule (λ (r : List Action × Session). Evolves s r.1) s.config.reset_on_error _ _
      (Evolves-trans (reset_sequences-Evolves s true)
        (Same-Evolves (reset_sequences s true) _ (refl, refl, refl, refl)))
      (Evolves-refl s)

pub enter_disconnected-Evolves :
    (s : Session) (reason : DisconnectReason) → Evolves s (enter_disconnected s reason).1
unfolding enter_disconnected reset
enter_disconnected-Evolves s reason =
    let s1 : Session = record s { state = disconnected; last_disconnect_reason = some reason } in
    if_rule (λ (r : List Action × Session). Evolves s r.1) (should_reset s.config reason) _ _
      (Evolves-trans (disconnect-Evolves s s1 (refl, refl, refl, refl)) (
        Evolves-trans (reset_sequences-Evolves s1 true)
          (Same-Evolves (reset_sequences s1 true) _ (refl, refl, refl, refl))))
      (disconnect-Evolves s s1 (refl, refl, refl, refl))

-- A message under the next number.
pub send_next-Evolves : (s : Session) (m : Message) → Evolves s (send_stored (next_seq s).1 m).1
send_next-Evolves s m = Evolves-trans (next_seq-Evolves s) (send_stored-Evolves (next_seq s).1 m)

-- What `send_raw` of a message under the next number leaves.
pub send_next_raw-Evolves :
    (s : Session) → Evolves s (record (next_seq s).1 { ticks_since_send = 0 })
send_next_raw-Evolves s =
    Evolves-trans (next_seq-Evolves s) (Same-Evolves (next_seq s).1 _ (refl, refl, refl, refl))

pub answer_test_request-Evolves :
    (now : Bytes) (s : Session) (m : Message) → Evolves s (answer_test_request now s m).1
unfolding answer_test_request
answer_test_request-Evolves now s m =
    if_rule (λ (r : List Action × Session). Evolves s r.1) (not (is_logged_on s)) _ _
      (Evolves-refl s) (send_next-Evolves s _)

answer_logout-Evolves : (now : Bytes) (s : Session) → Evolves s (answer_logout now s).1
unfolding answer_logout
answer_logout-Evolves now s =
    Evolves-trans (send_next_raw-Evolves s) (enter_disconnected-Evolves _ graceful_logout)

pub on_logout_msg-Evolves : (now : Bytes) (s : Session) → Evolves s (on_logout_msg now s).1
unfolding on_logout_msg
on_logout_msg-Evolves now s = by_state s.state refl
  where
    by_state : (st : SessionState) → s.state ≡ st → Evolves s (on_logout_msg now s).1
    by_state awaiting_logout e =
        simp (on_logout_msg, e) (enter_disconnected-Evolves s graceful_logout)
    by_state disconnected e = simp (on_logout_msg, e) (answer_logout-Evolves now s)
    by_state awaiting_logon e = simp (on_logout_msg, e) (answer_logout-Evolves now s)
    by_state logged_on e = simp (on_logout_msg, e) (answer_logout-Evolves now s)
