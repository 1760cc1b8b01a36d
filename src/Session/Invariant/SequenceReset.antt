-- ===== src/Session/Invariant/SequenceReset.antt =====
-- A SequenceReset, as a step of the session (`on_sequence_reset` of
-- crates/truefix-session/src/state.rs).
use truefix.Base.{
  ℕ, inl, inr, List, Option, none, some, Bytes, ltb, ◌==◌, arith, Bool-cases, Option-cases, is_none,
}
use truefix.Core.FieldMap
use truefix.Core.Message.{Message}
use truefix.Session.Config.{msg_seq_num, new_seq_no}
use truefix.Session.State.{Session, Action, positive_at, reset_on_error}
use truefix.Session.Resend.{natural_at}
use truefix.Session.Inbound.{Check, jump, apply_gap_fill_new_seq, validate_app}
use truefix.Session.SequenceReset.{
  is_gap_fill, after_invalid, reject_new_seq, invalid_reset, plain_reset, valid_reset,
  on_sequence_reset,
}
use truefix.Session.Invariant.{
  Evolves, Evolves-refl, Evolves-trans, if_rule, send_next-Evolves, reset_on_error-Evolves, Runs,
  Runs-some,
}
use truefix.Session.Invariant.Queue.{
  refuse-Evolves, advance-Evolves, jump-Evolves, apply_gap_fill-Evolves, farewell-Evolves,
}
use truefix.Session.Invariant.Drain.{drain_queue-Runs}

-- What runs behind a step.
pub Runs-after :
    {s s1 : Session} {r : Option (List Action × Session)} → Evolves s s1 → Runs s1 r → Runs s r
Runs-after p (actions, s2, e, q) = (actions, s2, e, Evolves-trans p q)

reject_new_seq-Evolves :
    (now : Bytes) (s : Session) (m : Message) (code : ℕ) (reason : Bytes)
    → Evolves s (reject_new_seq now s m code reason).1
unfolding reject_new_seq
reject_new_seq-Evolves now s m code reason = send_next-Evolves s _

after_invalid-Evolves :
    (now : Bytes) (s : Session) (a : Action) → Evolves s (after_invalid now s a).1
unfolding after_invalid
after_invalid-Evolves now s a =
    let s1 = (reset_on_error s).1 in
    if_rule (λ (r : List Action × Session). Evolves s r.1) s1.config.disconnect_on_error _ _
      (Evolves-trans (reset_on_error-Evolves s) (farewell-Evolves now s1))
      (reset_on_error-Evolves s)

invalid_reset-Evolves :
    (now : Bytes) (s : Session) (m : Message) (a : Action) → Evolves s (invalid_reset now s m a).1
unfolding invalid_reset
invalid_reset-Evolves now s m a = elim (Option-cases (positive_at m.header msg_seq_num)) [
  | inl e ↦ rw (invalid_reset, e) (after_invalid-Evolves now s a)
  | inr (n, e) ↦
      rw (invalid_reset, e)
        (Evolves-trans
          (if_rule (Evolves s) (n == s.next_in_seq) _ _ (advance-Evolves s) (Evolves-refl s))
          (after_invalid-Evolves now _ a))
]

plain_reset-Runs :
    (check : Check) (now : Bytes) (s : Session) (m : Message) (o : Option ℕ)
    → Runs s (plain_reset check now s m o)
unfolding plain_reset
plain_reset-Runs check now s m none = drain_queue-Runs check now s
plain_reset-Runs check now s m (some ns) = elim (Bool-cases (ltb ns s.next_in_seq)) [
  | inl e ↦ rw e (Runs-some _ (reject_new_seq-Evolves now s m 5 _))
  | inr e ↦
      rw e (Runs-after (jump-Evolves s ns (ground arith)) (drain_queue-Runs check now (jump s ns)))
]

valid_reset-Runs :
    (check : Check) (now : Bytes) (s : Session) (m : Message) → Runs s (valid_reset check now s m)
unfolding valid_reset
valid_reset-Runs check now s m =
    if_rule (Runs s) (is_none (FieldMap.get m.body new_seq_no)) _ _
      (Runs-some _ (reject_new_seq-Evolves now s m 1 _))
      (if_rule (Runs s) (is_gap_fill m) _ _
        (Runs-after (apply_gap_fill-Evolves s (natural_at m.body new_seq_no))
          (drain_queue-Runs check now (apply_gap_fill_new_seq s (natural_at m.body new_seq_no))))
        (plain_reset-Runs check now s m (natural_at m.body new_seq_no)))

pub on_sequence_reset-Runs :
    (check : Check) (now : Bytes) (s : Session) (m : Message)
    → Runs s (on_sequence_reset check now s m)
unfolding on_sequence_reset
on_sequence_reset-Runs check now s m = elim (Option-cases (check s.negotiated_appl_ver_id m)) [
  | inl e ↦ rw (on_sequence_reset, validate_app, e) (valid_reset-Runs check now s m)
  | inr (error, e) ↦
      rw (on_sequence_reset, validate_app, e)
        (Runs-some _
          (Evolves-trans (refuse-Evolves now s m error) (invalid_reset-Evolves now _ m _)))
]
