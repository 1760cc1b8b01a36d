-- ===== src/Session/Invariant/Drain.antt =====
-- The whole draining of the queue, as a step of the session (`drain_queue` of
-- crates/truefix-session/src/state.rs).
use truefix.Base.{
  ℕ, zero, suc, ◌+◌, ◌<◌, ◌≡◌, refl, false, List, [], ◌∷◌, ◌++◌, Option, none, some, Bytes, ltb,
  length, arith,
}
use truefix.Base.Maps.{find_key, remove}
use truefix.Core.Message.{Message}
use truefix.Session.State.{Session, Action}
use truefix.Session.Resend.{maybe_continue_chunked_resend, next_chunk}
use truefix.Session.Inbound.{
  Check, Round, gap, again, ended, drain_message, drain_round, drained, drain_loop, drain_queue,
}
use truefix.Session.Inbound.Drain.{Progress, drain_round-Progress}
use truefix.Session.Invariant.{
  Evolves, Evolves-refl, Evolves-trans, Same-Evolves, if_rule, Runs, Runs-some,
}
use truefix.Session.Invariant.Queue.{
  RoundEvolves, RoundEvolves-after, drain_message-Evolves, request_resend-Evolves,
}

drain_round-Evolves :
    (check : Check) (now : Bytes) (s : Session) → RoundEvolves s (drain_round check now s)
unfolding drain_round RoundEvolves
drain_round-Evolves check now s = found (find_key s.queue s.next_in_seq) refl
  where
    found :
        (o : Option Message)
        → find_key s.queue s.next_in_seq ≡ o
        → RoundEvolves s (drain_round check now s)
    found none e = rw (drain_round, e) tt
    found (some m) e =
        let s1 : Session = record s { queue = remove s.queue s.next_in_seq } in
        rw (drain_round, e)
          (RoundEvolves-after (drain_message check now s1 m)
            (Same-Evolves s s1 (refl, refl, refl, refl)) (drain_message-Evolves check now s1 m))

next_chunk-Evolves : (now : Bytes) (s : Session) (o : Option ℕ) → Evolves s (next_chunk now s o).1
unfolding next_chunk
next_chunk-Evolves now s none = Evolves-refl s
next_chunk-Evolves now s (some to) =
    if_rule (λ (r : List Action × Session). Evolves s r.1) (ltb to s.next_in_seq) _ _
      (request_resend-Evolves now s s.next_in_seq) (Evolves-refl s)

maybe_continue-Evolves :
    (now : Bytes) (s : Session) → Evolves s (maybe_continue_chunked_resend now s).1
unfolding maybe_continue_chunked_resend
maybe_continue-Evolves now s = target s.resend_target refl
  where
    target :
        (o : Option ℕ) → s.resend_target ≡ o → Evolves s (maybe_continue_chunked_resend now s).1
    target none e = simp (maybe_continue_chunked_resend, e) (Evolves-refl s)
    target (some n) e =
        simp (maybe_continue_chunked_resend, e)
          (if_rule (λ (r : List Action × Session). Evolves s r.1) (ltb n s.next_in_seq) _ _
            (Same-Evolves s _ (refl, refl, refl, refl))
            (next_chunk-Evolves now s s.resend_chunk_end))

drained-Evolves : (now : Bytes) (s : Session) → Evolves s (drained now s).1
unfolding drained
drained-Evolves now s =
    let s1 : Session = record s {
      resend_requested = elim s.queue [ [] ↦ false | m ∷ more ↦ s.resend_requested ];
    } in
    Evolves-trans (Same-Evolves s s1 (refl, refl, refl, refl)) (maybe_continue-Evolves now s1)

-- From one round to the next.
drain_round-Runs :
    (fuel : ℕ) (check : Check) (now : Bytes) (s : Session) (round : Round)
    → Progress s round
    → RoundEvolves s round
    → drain_round check now s ≡ round
    → ((s1 : Session) → length s1.queue < length s.queue → Runs s1 (drain_loop fuel check now s1))
    → Runs s (drain_loop (suc fuel) check now s)
unfolding Progress RoundEvolves drain_loop
drain_round-Runs fuel check now s gap p q e rest =
    rw (drain_loop, e) (Runs-some (drained now s) (drained-Evolves now s))
drain_round-Runs fuel check now s (ended actions s1) p q e rest =
    rw (drain_loop, e) (Runs-some (actions, s1) q)
drain_round-Runs fuel check now s (again actions s1) p q e rest =
    let (more, s2, r, t) = rest s1 p in
    rw (drain_loop, e, r) (actions ++ more, s2, refl, Evolves-trans q t)

drain_loop-Runs :
    (fuel : ℕ) (check : Check) (now : Bytes) (s : Session)
    → length s.queue < fuel
    → Runs s (drain_loop fuel check now s)
drain_loop-Runs zero check now s l = absurd (omega arith)
drain_loop-Runs (suc fuel) check now s l =
    drain_round-Runs fuel check now s (drain_round check now s) (drain_round-Progress check now s)
      (drain_round-Evolves check now s) refl
      λ s1 shorter. drain_loop-Runs fuel check now s1 (omega (arith, shorter, l))

pub drain_queue-Runs :
    (check : Check) (now : Bytes) (s : Session) → Runs s (drain_queue check now s)
unfolding drain_queue
drain_queue-Runs check now s = drain_loop-Runs (length s.queue + 1) check now s (omega arith)
