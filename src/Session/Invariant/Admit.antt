-- ===== src/Session/Invariant/Admit.antt =====
-- The two ends of a Logon: the session goes on as it was, or it is logged on (`on_logon` of
-- crates/truefix-session/src/state.rs).
use truefix.Base.{
  ◌≡◌, ◌⊎◌, inl, inr, refl, true, false, ◌||◌, if◌then◌else◌, List, Option, none, ◌==◌, Bool-cases,
  Option-cases,
}
use truefix.Core.Message.{Message}
use truefix.Session.Config.{msg_seq_num, reset_seq_num_flag, default_appl_ver_id}
use truefix.Session.Admin.{text_at}
use truefix.Session.State.{Session, logged_on, Action, send_raw, positive_at}
use truefix.Session.Inbound.{advance, refuse, validate_app}
use truefix.Session.Checks.{Env, flag_at}
use truefix.Session.Logon.{
  is_acceptor, acceptor_forces_reset, logon_problem, invalid_logon, version_problem, negotiate,
}
use truefix.Session.Logon.Accept.{
  Disposition, unnumbered, equal, greater, less, disposition, answer_logon, reset_unanswered,
  unreset, conclude, reset_at_logon, count_logon, accept_logon, take_logon, on_logon,
}
use truefix.Session.Invariant.{
  Evolves, Evolves-refl, Evolves-trans, Same-Evolves, if_rule, reset_sequences-Evolves, Runs,
  Runs-some,
}
use truefix.Session.Invariant.Queue.{refuse-Evolves, advance-Evolves}
use truefix.Session.Invariant.SequenceReset.{Runs-after}
use truefix.Session.Invariant.Checks.{reject_logon-Evolves, disconnect_next-Evolves}
use truefix.Session.Invariant.Logon.{
  InRange, Evolves-InRange, Evolves-state, early_logon-Evolves, answer_logon-Evolves,
  finish_logon-Runs,
}

-- From the session as it was, or from the session that is logged on.
abbrev pub Concludes : Session → Option (List Action × Session) → Type 0
Concludes s r = Runs s r ⊎ Runs (record s { state = logged_on }) r

Concludes-after :
    {s t : Session} {r : Option (List Action × Session)}
    → Evolves s t
    → Concludes t r
    → Concludes s r
Concludes-after p (inl runs) = inl (Runs-after p runs)
Concludes-after p (inr runs) = inr (Runs-after (Evolves-state logged_on p) runs)

acceptor-Concludes :
    (e : Env) (actions : List Action) (s : Session) (m : Message) (place : Disposition)
    → InRange s
    → is_acceptor s ≡ true
    → Concludes s (conclude e actions s m place)
unfolding conclude
acceptor-Concludes e actions s m greater range is =
    rw (conclude, is) (inl (_, _, refl, early_logon-Evolves e s m))
acceptor-Concludes e actions s m equal range is =
    let p = answer_logon-Evolves e s m in
    rw (conclude, is)
      (inr (
        Runs-after p
          (finish_logon-Runs e _ (answer_logon e s m).1 m equal (Evolves-InRange p range))))
acceptor-Concludes e actions s m less range is =
    let p = answer_logon-Evolves e s m in
    rw (conclude, is)
      (inr (
        Runs-after p
          (finish_logon-Runs e _ (answer_logon e s m).1 m less (Evolves-InRange p range))))
acceptor-Concludes e actions s m unnumbered range is =
    let p = answer_logon-Evolves e s m in
    rw (conclude, is)
      (inr (
        Runs-after p
          (finish_logon-Runs e _ (answer_logon e s m).1 m unnumbered (Evolves-InRange p range))))

initiator-Concludes :
    (e : Env) (actions : List Action) (s : Session) (m : Message) (place : Disposition)
    → InRange s
    → is_acceptor s ≡ false
    → Concludes s (conclude e actions s m place)
unfolding conclude
initiator-Concludes e actions s m place range is = elim (Bool-cases (reset_unanswered s m)) [
  | inl unanswered ↦
      let s1 : Session = record s { reset_on_logon_pending = false } in
      rw (conclude, is, unanswered)
        (inl (
          Runs-some _ (
            Evolves-trans (Same-Evolves s s1 (refl, refl, refl, refl))
              (reject_logon-Evolves e s1 unreset))))
  | inr answered ↦
      let s1 : Session = record s { reset_on_logon_pending = false; state = logged_on } in
      rw (conclude, is, answered)
        (inr (
          Runs-after (Same-Evolves (record s { state = logged_on }) s1 (refl, refl, refl, refl))
            (finish_logon-Runs e actions s1 m place range)))
]

conclude-Concludes :
    (e : Env) (actions : List Action) (s : Session) (m : Message) (place : Disposition)
    → InRange s
    → Concludes s (conclude e actions s m place)
conclude-Concludes e actions s m place range = elim (Bool-cases (is_acceptor s)) [
  | inl is ↦ acceptor-Concludes e actions s m place range is
  | inr is ↦ initiator-Concludes e actions s m place range is
]

reset_at_logon-Evolves : (s : Session) (m : Message) → Evolves s (reset_at_logon s m).1
unfolding reset_at_logon
reset_at_logon-Evolves s m =
    if_rule (λ (r : List Action × Session). Evolves s r.1)
      (flag_at m.body reset_seq_num_flag || acceptor_forces_reset s) _ _
      (if_rule (λ (r : List Action × Session). Evolves s r.1) s.logon_sent _ _
        (reset_sequences-Evolves s false) (reset_sequences-Evolves s true))
      (Evolves-refl s)

count_logon-Evolves : (s : Session) (place : Disposition) → Evolves s (count_logon s place)
unfolding count_logon
count_logon-Evolves s equal = advance-Evolves s
count_logon-Evolves s greater = Evolves-refl s
count_logon-Evolves s less = Evolves-refl s
count_logon-Evolves s unnumbered = Evolves-refl s

accept_logon-Concludes :
    (e : Env) (s : Session) (m : Message) → InRange s → Concludes s (accept_logon e s m)
unfolding accept_logon
accept_logon-Concludes e s m range =
    let place = disposition (reset_at_logon s m).1 m in
    let p =
      Evolves-trans (reset_at_logon-Evolves s m)
        (count_logon-Evolves (reset_at_logon s m).1 place) in
    Concludes-after p (
      conclude-Concludes e (reset_at_logon s m).0 (count_logon (reset_at_logon s m).1 place) m place
        (Evolves-InRange p range))

negotiate-Evolves : (s : Session) (m : Message) → Evolves s (negotiate s m)
unfolding negotiate
negotiate-Evolves s m = elim (Option-cases (text_at m.body default_appl_ver_id)) [
  | inl none_there ↦ rw (negotiate, none_there) (Evolves-refl s)
  | inr (v, there) ↦ rw (negotiate, there) (Same-Evolves s _ (refl, refl, refl, refl))
]

take_logon-Concludes :
    (e : Env) (s : Session) (m : Message) → InRange s → Concludes s (take_logon e s m)
unfolding take_logon
take_logon-Concludes e s m range = elim (Option-cases (version_problem e m)) [
  | inl fine ↦
      rw (take_logon, fine)
        (Concludes-after (negotiate-Evolves s m) (
          accept_logon-Concludes e (negotiate s m) m
            (Evolves-InRange (negotiate-Evolves s m) range)))
  | inr (reject, bad) ↦ rw (take_logon, bad) (inl (Runs-some _ (reject_logon-Evolves e s reject)))
]

invalid_logon-Evolves :
    (e : Env) (s : Session) (m : Message) (a : Action) → Evolves s (invalid_logon e s m a).1
unfolding invalid_logon send_raw
invalid_logon-Evolves e s m a = elim (Option-cases (positive_at m.header msg_seq_num)) [
  | inl none_there ↦ rw (invalid_logon, none_there) (disconnect_next-Evolves s)
  | inr (n, there) ↦
      let s1 : Session = if n == s.next_in_seq then advance s else s in
      rw (invalid_logon, there)
        (Evolves-trans
          (if_rule (Evolves s) (n == s.next_in_seq) _ _ (advance-Evolves s) (Evolves-refl s))
          (disconnect_next-Evolves s1))
]

-- What a Logon passes before the session is logged on.
pub record Admitted (e : Env) (s : Session) (m : Message) : Type 0 where
  pub no_problem : logon_problem e s m ≡ none
  pub valid : e.check s.negotiated_appl_ver_id m ≡ none

pub on_logon-Concludes :
    (e : Env) (s : Session) (m : Message)
    → InRange s
    → Runs (record s { logon_received = true }) (on_logon e s m)
      ⊎ (Admitted e s m
          × Runs (record s { logon_received = true; state = logged_on }) (on_logon e s m))
unfolding on_logon
on_logon-Concludes e s m range =
    let s1 : Session = record s { logon_received = true } in
    elim (Option-cases (logon_problem e s m)) [
      | inr (reject, bad) ↦
          rw (on_logon, bad) (inl (Runs-some _ (reject_logon-Evolves e s1 reject)))
      | inl fine ↦ elim (Option-cases (e.check s.negotiated_appl_ver_id m)) [
        | inr (error, bad) ↦
            rw (on_logon, fine, validate_app, bad)
              (inl (
                Runs-some _ (
                  Evolves-trans (refuse-Evolves e.now s1 m error) (
                    invalid_logon-Evolves e (refuse e.now s1 m error).1 m
                      (refuse e.now s1 m error).0))))
        | inl valid ↦
            rw (on_logon, fine, validate_app, valid)
              (elim (take_logon-Concludes e s1 m range) [
                | inl runs ↦ inl runs
                | inr runs ↦ inr (record { no_problem = fine; valid = valid }, runs)
              ])
      ]
    ]
