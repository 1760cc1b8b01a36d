-- ===== src/Session/Inbound/Queue.antt =====
-- The length of the queue under the operations that draining it calls (crates/truefix-session/src/
-- state.rs).
use truefix.Base.{
  ℕ, ◌≤◌, ◌<◌, ◌≡◌, inl, inr, refl, [], ◌∷◌, Option, none, some, Bytes, length, arith, Bool-cases,
}
use truefix.Base.Maps.{BTreeMap, find_key, remove}
use truefix.Core.Message.{Message}
use truefix.Session.State.{
  Session, DisconnectReason, graceful_logout, keep, send_stored, next_seq, reset_on_error,
  reset_sequences, reset, enter_disconnected, answer_test_request, on_logout_msg, answer_logout,
  send_raw, is_logged_on,
}
use truefix.Session.Inbound.{retain_from, process_other, refuse, ValidationError}

length-remove_le : (queue : BTreeMap Message) (key : ℕ) → length (remove queue key) ≤ length queue
unfolding remove
length-remove_le [] key = omega arith
length-remove_le ((k, m) ∷ queue) key = ground (arith, length-remove_le queue key)

-- Taking a message out makes the queue shorter.
pub length-remove_lt :
    (queue : BTreeMap Message) (key : ℕ) (m : Message)
    → find_key queue key ≡ some m
    → length (remove queue key) < length queue
unfolding remove find_key
length-remove_lt [] key m e = ground arith
length-remove_lt ((k, v) ∷ queue) key m e =
    ground (arith, length-remove_le queue key, length-remove_lt queue key m)

pub length-retain_from :
    (queue : BTreeMap Message) (ns : ℕ) → length (retain_from queue ns) ≤ length queue
unfolding retain_from
length-retain_from [] ns = omega arith
length-retain_from ((seq, m) ∷ queue) ns = ground (arith, length-retain_from queue ns)

pub queue-keep : (s : Session) (m : Message) (o : Option ℕ) → (keep s m o).queue ≡ s.queue
unfolding keep
queue-keep s m none = refl
queue-keep s m (some seq) = ground arith

pub next_in-keep :
    (s : Session) (m : Message) (o : Option ℕ) → (keep s m o).next_in_seq ≡ s.next_in_seq
unfolding keep
next_in-keep s m none = refl
next_in-keep s m (some seq) = ground arith

send_stored-queue : (s : Session) (m : Message) → (send_stored s m).1.queue ≡ s.queue
unfolding send_stored
send_stored-queue s m = queue-keep _ _ _

pub reset_on_error-queue : (s : Session) → length (reset_on_error s).1.queue ≤ length s.queue
unfolding reset_on_error reset reset_sequences
reset_on_error-queue s = ground arith

enter_disconnected-queue :
    (s : Session) (reason : DisconnectReason)
    → length (enter_disconnected s reason).1.queue ≤ length s.queue
unfolding enter_disconnected reset reset_sequences
enter_disconnected-queue s reason = ground arith

answer_test_request-queue :
    (now : Bytes) (s : Session) (m : Message) → (answer_test_request now s m).1.queue ≡ s.queue
unfolding answer_test_request next_seq
answer_test_request-queue now s m = elim (Bool-cases (is_logged_on s)) [
  | inl e ↦ rw e (send_stored-queue (next_seq s).1 _)
  | inr e ↦ rw e refl
]

answer_logout-queue :
    (now : Bytes) (s : Session) → length (answer_logout now s).1.queue ≤ length s.queue
unfolding answer_logout next_seq send_raw enter_disconnected reset reset_sequences
answer_logout-queue now s = ground arith

on_logout_msg-queue :
    (now : Bytes) (s : Session) → length (on_logout_msg now s).1.queue ≤ length s.queue
unfolding on_logout_msg
on_logout_msg-queue now s =
    ground (arith, answer_logout-queue now s, enter_disconnected-queue s graceful_logout)

pub process_other-queue :
    (now : Bytes) (s : Session) (m : Message) (mt : Option Bytes)
    → length (process_other now s m mt).1.queue ≤ length s.queue
unfolding process_other
process_other-queue now s m mt =
    ground (arith, answer_test_request-queue now s m, on_logout_msg-queue now s)

pub refuse-queue :
    (now : Bytes) (s : Session) (m : Message) (error : ValidationError)
    → (refuse now s m error).1.queue ≡ s.queue
unfolding refuse next_seq
refuse-queue now s m error = send_stored-queue (next_seq s).1 _
