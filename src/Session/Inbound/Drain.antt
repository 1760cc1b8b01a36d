-- ===== src/Session/Inbound/Drain.antt =====
-- What draining the queue of messages that came too early leaves (`drain_queue` of
-- crates/truefix-session/src/state.rs).
use truefix.Base.{
  ℕ, zero, suc, ◌+◌, ◌≤◌, ◌<◌, ◌≡◌, ◌⊎◌, inl, inr, refl, ap, false, List, [], ◌∷◌, ◌++◌, Option,
  none, some, Bytes, length, ltb, arith, Bool-cases, Option-cases,
}
use truefix.Base.Maps.{find_key, remove}
use truefix.Core.Message.{Message, msg_type}
use truefix.Session.Config.{new_seq_no}
use truefix.Session.State.{
  Session, Action, disconnected, send_stored, next_seq, send_raw, positive_at,
}
use truefix.Session.Resend.{maybe_continue_chunked_resend, next_chunk, request_resend}
use truefix.Session.Inbound.{
  Check, Round, gap, again, ended, apply_gap_fill_new_seq, jump, drain_round, drain_message,
  drained, drain_loop, drain_queue, after_reject, advance, farewell, in_order, is_type,
  validate_app, refuse,
}
use truefix.Session.Inbound.Queue.{
  length-remove_lt, length-retain_from, queue-keep, next_in-keep, reset_on_error-queue,
  process_other-queue, refuse-queue,
}

-- What a round of the loop leaves: it finds no message, or it has shortened the queue, or it has
-- ended the session.
unfoldable pub Progress : Session → Round → Type 0
Progress s gap = find_key s.queue s.next_in_seq ≡ none
Progress s (again actions s1) = length s1.queue < length s.queue
Progress s (ended actions s1) = s1.state ≡ disconnected

after_reject-Progress :
    (now : Bytes) (s s1 : Session) (a : Action)
    → length s1.queue < length s.queue
    → Progress s (after_reject now s1 a)
unfolding after_reject Progress farewell advance next_seq send_raw
after_reject-Progress now s s1 a l = ground (arith, reset_on_error-queue (advance s1))

in_order-Progress :
    (now : Bytes) (s s1 : Session) (m : Message)
    → length s1.queue < length s.queue
    → Progress s (in_order now s1 m)
unfolding in_order Progress advance
in_order-Progress now s s1 m l = ground (arith, process_other-queue now s1 m (msg_type m))

apply_gap_fill-queue :
    (s : Session) (o : Option ℕ) → length (apply_gap_fill_new_seq s o).queue ≤ length s.queue
unfolding apply_gap_fill_new_seq jump
apply_gap_fill-queue s none = omega arith
apply_gap_fill-queue s (some ns) = ground (arith, length-retain_from s.queue ns)

drain_message-Progress :
    (check : Check) (now : Bytes) (s s1 : Session) (m : Message)
    → length s1.queue < length s.queue
    → Progress s (drain_message check now s1 m)
unfolding drain_message Progress validate_app
drain_message-Progress check now s s1 m l = elim (Bool-cases (is_type (msg_type m) b'4')) [
  | inl e ↦ rw e (omega (arith, l, apply_gap_fill-queue s1 (positive_at m.body new_seq_no)))
  | inr e ↦ rw e (elim (Option-cases (check s1.negotiated_appl_ver_id m)) [
    | inl valid ↦ rw valid (in_order-Progress now s s1 m l)
    | inr (error, invalid) ↦ rw invalid (
        after_reject-Progress now s (refuse now s1 m error).1 (refuse now s1 m error).0
          (omega (arith, l, ap length (refuse-queue now s1 m error))))
  ])
]

pub drain_round-Progress :
    (check : Check) (now : Bytes) (s : Session) → Progress s (drain_round check now s)
unfolding drain_round
drain_round-Progress check now s = elim (Option-cases (find_key s.queue s.next_in_seq)) [
  | inl e ↦ rw (drain_round, e) (unfold Progress in e)
  | inr (m, e) ↦
      rw (drain_round, e)
        (drain_message-Progress check now s (record s { queue = remove s.queue s.next_in_seq }) m
          (length-remove_lt s.queue s.next_in_seq m e))
]

request_resend-keeps :
    (now : Bytes) (s : Session) (from : ℕ)
    → ((request_resend now s from).1.queue ≡ s.queue)
      × ((request_resend now s from).1.next_in_seq ≡ s.next_in_seq)
unfolding request_resend next_seq send_stored
request_resend-keeps now s from = (queue-keep _ _ _, next_in-keep _ _ _)

-- The next message expected does not wait in the queue.
NextMissing : Session → Type 0
NextMissing s = find_key s.queue s.next_in_seq ≡ none

next_chunk-NextMissing :
    (now : Bytes) (s : Session) (o : Option ℕ) → NextMissing s → NextMissing (next_chunk now s o).1
unfolding next_chunk NextMissing
next_chunk-NextMissing now s none e = e
next_chunk-NextMissing now s (some to) e =
    let (queue, next) = request_resend-keeps now s s.next_in_seq in
    elim (Bool-cases (ltb to s.next_in_seq)) [ inl l ↦ rw (l, queue, next) e | inr l ↦ rw l e ]

maybe_continue-NextMissing :
    (now : Bytes) (s : Session)
    → NextMissing s
    → NextMissing (maybe_continue_chunked_resend now s).1
unfolding maybe_continue_chunked_resend
maybe_continue-NextMissing now s e = elim (Option-cases s.resend_target) [
  | inl none_open ↦ rw (maybe_continue_chunked_resend, none_open) e
  | inr (target, gap_open) ↦ elim (Bool-cases (ltb target s.next_in_seq)) [
    | inl l ↦ rw (maybe_continue_chunked_resend, gap_open, l) (unfold NextMissing in e)
    | inr l ↦
        rw (maybe_continue_chunked_resend, gap_open, l)
          (next_chunk-NextMissing now s s.resend_chunk_end e)
  ]
]

drained-NextMissing : (now : Bytes) (s : Session) → NextMissing s → NextMissing (drained now s).1
unfolding drained NextMissing
drained-NextMissing now s e =
    maybe_continue-NextMissing now
      (record s { resend_requested = elim s.queue [ [] ↦ false | m ∷ more ↦ s.resend_requested ] })
      e

-- How the loop ends.
Ends : Option (List Action × Session) → Type 0
Ends result =
    (actions : List Action) × (s' : Session) × (result ≡ some (actions, s'))
    × ((s'.state ≡ disconnected) ⊎ (find_key s'.queue s'.next_in_seq ≡ none))

-- From one round to the next.
drain_round-Ends :
    (fuel : ℕ) (check : Check) (now : Bytes) (s : Session) (round : Round)
    → Progress s round
    → drain_round check now s ≡ round
    → ((s1 : Session) → length s1.queue < length s.queue → Ends (drain_loop fuel check now s1))
    → Ends (drain_loop (suc fuel) check now s)
unfolding Ends Progress NextMissing drain_loop
drain_round-Ends fuel check now s gap p e rest =
    rw (drain_loop, e) (_, _, refl, inr (drained-NextMissing now s p))
drain_round-Ends fuel check now s (ended actions s1) p e rest =
    rw (drain_loop, e) (actions, s1, refl, inl p)
drain_round-Ends fuel check now s (again actions s1) p e rest =
    let (more, s2, r, end) = rest s1 p in rw (drain_loop, e, r) (actions ++ more, s2, refl, end)

drain_loop-Ends :
    (fuel : ℕ) (check : Check) (now : Bytes) (s : Session)
    → length s.queue < fuel
    → Ends (drain_loop fuel check now s)
drain_loop-Ends zero check now s l = absurd (omega arith)
drain_loop-Ends (suc fuel) check now s l =
    drain_round-Ends fuel check now s (drain_round check now s) (drain_round-Progress check now s)
      refl λ s1 shorter. drain_loop-Ends fuel check now s1 (omega (arith, shorter, l))

-- Whatever the dictionaries answer, draining the queue ends, with enough rounds for its length; and
-- then the session is disconnected, or the message with the number expected next is not in the
-- queue.
pub drain_queue_lem :
    (check : Check) (now : Bytes) (s : Session)
    → (actions : List Action) × (s' : Session) × (drain_queue check now s ≡ some (actions, s'))
      × ((s'.state ≡ disconnected) ⊎ (find_key s'.queue s'.next_in_seq ≡ none))
unfolding drain_queue Ends
drain_queue_lem check now s = drain_loop-Ends (length s.queue + 1) check now s (omega arith)
