-- ===== src/Session/Invariant/Queue.antt =====
-- The draining of the queue and a SequenceReset, as steps of the session
-- (crates/truefix-session/src/state.rs).
use truefix.Base.{
  ℕ, ◌≤◌, ◌≡◌, inl, inr, refl, if◌then◌else◌, List, Option, none, some, Bytes, ltb, leb, arith,
  Bool-cases,
}
use truefix.Core.Message.{Message, msg_type}
use truefix.Session.Config.{new_seq_no}
use truefix.Session.State.{Session, Action, saturating_succ, reset_on_error, positive_at}
use truefix.Session.Resend.{chunk_end, request_resend}
use truefix.Session.Inbound.{
  Check, ValidationError, Round, gap, again, ended, refuse, validate_app, is_type, jump,
  apply_gap_fill_new_seq, process_other, advance, farewell, after_reject, in_order, drain_message,
}
use truefix.Session.Invariant.{
  Evolves, Evolves-refl, Evolves-trans, Same-Evolves, disconnect-Evolves, if_rule,
  send_next-Evolves, send_next_raw-Evolves, reset_on_error-Evolves, answer_test_request-Evolves,
  on_logout_msg-Evolves,
}

pub refuse-Evolves :
    (now : Bytes) (s : Session) (m : Message) (error : ValidationError)
    → Evolves s (refuse now s m error).1
unfolding refuse
refuse-Evolves now s m error = send_next-Evolves s _

pub request_resend-Evolves :
    (now : Bytes) (s : Session) (from : ℕ) → Evolves s (request_resend now s from).1
unfolding request_resend
request_resend-Evolves now s from =
    let chunked = ltb 0 s.config.resend_request_chunk_size in
    let to : ℕ = if chunked then chunk_end s from else 0 in
    let s1 : Session = record s { resend_chunk_end = if chunked then some to else none } in
    Evolves-trans (Same-Evolves s s1 (refl, refl, refl, refl)) (send_next-Evolves s1 _)

pub advance-Evolves : (s : Session) → Evolves s (advance s)
unfolding advance saturating_succ
advance-Evolves s = record {
  in_positive = λ p. ground arith;
  out_positive = λ p. p;
  out_bounded = λ p. p;
  state_stays = inl refl;
  received_stays = refl;
}

pub process_other-Evolves :
    (now : Bytes) (s : Session) (m : Message) (mt : Option Bytes)
    → Evolves s (process_other now s m mt).1
unfolding process_other
process_other-Evolves now s m mt =
    if_rule (λ (r : List Action × Session). Evolves s r.1) (is_type mt b'1') _ _
      (answer_test_request-Evolves now s m)
      (if_rule (λ (r : List Action × Session). Evolves s r.1) (is_type mt b'5') _ _
        (on_logout_msg-Evolves now s) (Evolves-refl s))

-- To a number that is not below the one expected.
pub jump-Evolves : (s : Session) (ns : ℕ) → s.next_in_seq ≤ ns → Evolves s (jump s ns)
unfolding jump
jump-Evolves s ns l = record {
  in_positive = λ p. omega (arith, p, l);
  out_positive = λ p. p;
  out_bounded = λ p. p;
  state_stays = inl refl;
  received_stays = refl;
}

pub apply_gap_fill-Evolves : (s : Session) (o : Option ℕ) → Evolves s (apply_gap_fill_new_seq s o)
unfolding apply_gap_fill_new_seq
apply_gap_fill-Evolves s none = Evolves-refl s
apply_gap_fill-Evolves s (some ns) = elim (Bool-cases (leb s.next_in_seq ns)) [
  | inl e ↦ rw e (jump-Evolves s ns (ground arith))
  | inr e ↦ rw e (Evolves-refl s)
]

pub farewell-Evolves : (now : Bytes) (s : Session) → Evolves s (farewell now s).1
unfolding farewell
farewell-Evolves now s =
    Evolves-trans (send_next_raw-Evolves s) (disconnect-Evolves _ _ (refl, refl, refl, refl))

-- The session of a round.
unfoldable pub RoundEvolves : Session → Round → Type 0
RoundEvolves s gap = Unit {0}
RoundEvolves s (again actions s1) = Evolves s s1
RoundEvolves s (ended actions s1) = Evolves s s1

pub RoundEvolves-after :
    {s s1 : Session} (r : Round) → Evolves s s1 → RoundEvolves s1 r → RoundEvolves s r
unfolding RoundEvolves
RoundEvolves-after gap p q = tt
RoundEvolves-after (again actions s2) p q = Evolves-trans p q
RoundEvolves-after (ended actions s2) p q = Evolves-trans p q

pub after_reject-Evolves :
    (now : Bytes) (s : Session) (a : Action) → RoundEvolves s (after_reject now s a)
unfolding after_reject RoundEvolves
after_reject-Evolves now s a =
    let p = Evolves-trans (advance-Evolves s) (reset_on_error-Evolves (advance s)) in
    if_rule (RoundEvolves s) (reset_on_error (advance s)).1.config.disconnect_on_error _ _
      (Evolves-trans p (farewell-Evolves now (reset_on_error (advance s)).1)) p

in_order-Evolves : (now : Bytes) (s : Session) (m : Message) → RoundEvolves s (in_order now s m)
unfolding in_order RoundEvolves
in_order-Evolves now s m =
    if_rule (RoundEvolves s) (is_type (msg_type m) b'2') _ _ (advance-Evolves s)
      (Evolves-trans (process_other-Evolves now s m (msg_type m)) (advance-Evolves _))

pub drain_message-Evolves :
    (check : Check) (now : Bytes) (s : Session) (m : Message)
    → RoundEvolves s (drain_message check now s m)
unfolding drain_message validate_app
drain_message-Evolves check now s m =
    if_rule (RoundEvolves s) (is_type (msg_type m) b'4') _ _
      (unfold RoundEvolves in apply_gap_fill-Evolves s (positive_at m.body new_seq_no))
      (checked (check s.negotiated_appl_ver_id m) refl)
  where
    checked :
        (o : Option ValidationError)
        → check s.negotiated_appl_ver_id m ≡ o
        → RoundEvolves s (elim (validate_app check now s m) [
          | none ↦ in_order now s m
          | some (reject, s1) ↦ after_reject now s1 reject
        ])
    checked none e = rw (validate_app, e) (in_order-Evolves now s m)
    checked (some error) e =
        rw (validate_app, e)
          (RoundEvolves-after _ (refuse-Evolves now s m error) (after_reject-Evolves now _ _))
