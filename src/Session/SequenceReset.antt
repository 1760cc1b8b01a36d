-- ===== src/Session/SequenceReset.antt =====
-- A SequenceReset (`on_sequence_reset` and `apply_gap_fill_new_seq` of
-- crates/truefix-session/src/state.rs).
use truefix.Base.{
  ℕ, ◌≡◌, Bool, false, ◌&&◌, List, [], ◌∷◌, ◌++◌, Option, none, some, Bytes, codes, ltb, leb, ◌==◌,
  if◌then◌else◌, is_none, arith,
}
use truefix.Base.Maps.{BTreeMap, find_key}
use truefix.Core.FieldMap
use truefix.Core.Message
use truefix.Core.Message.{Message}
use truefix.Session.Config.{msg_seq_num, new_seq_no, gap_fill_flag}
use truefix.Session.Admin
use truefix.Session.Admin.{text_at}
use truefix.Session.State.{Session, Action, next_seq, send_stored, positive_at, reset_on_error}
use truefix.Session.Resend.{natural_at}
use truefix.Session.Inbound.{
  Check, retain_from, jump, apply_gap_fill_new_seq, ref_seq_of, validate_app, advance, farewell,
  drain_queue,
}
use Prim.Native.Nat.{max}

-- `Some("Y")` of the GapFillFlag.
unfoldable pub is_gap_fill : Message → Bool
unfolding text_at
is_gap_fill m = elim (text_at m.body gap_fill_flag) [
  | none ↦ false
  | some [] ↦ false
  | some (c ∷ []) ↦ c == b'Y'
  | some (c ∷ d ∷ cs) ↦ false
]

-- A reject that names NewSeqNo.
unfoldable pub reject_new_seq : Bytes → Session → Message → ℕ → Bytes → List Action × Session
unfolding next_seq send_stored ref_seq_of
reject_new_seq now s m code reason =
    let (seq, s1) = next_seq s in
    let (a, s2) = send_stored s1 (
      Admin.reject_with_reason s1.config now seq (ref_seq_of m) (Message.msg_type m)
        (some new_seq_no) code reason) in
    (a ∷ [], s2)

-- What follows the reject of a SequenceReset.
unfoldable pub after_invalid : Bytes → Session → Action → List Action × Session
unfolding reset_on_error farewell
after_invalid now s reject =
    let (resets, s1) = reset_on_error s in
    let (bye, s2) = farewell now s1 in
    if s1.config.disconnect_on_error then (reject ∷ (resets ++ bye), s2) else (reject ∷ resets, s1)

-- The SequenceReset is not valid: its number counts only if it is the one expected.
unfoldable pub invalid_reset : Bytes → Session → Message → Action → List Action × Session
unfolding positive_at advance after_invalid
invalid_reset now s m reject = elim (positive_at m.header msg_seq_num) [
  | none ↦ after_invalid now s reject
  | some n ↦ after_invalid now (if n == s.next_in_seq then advance s else s) reject
]

-- A valid SequenceReset that has a NewSeqNo, without GapFillFlag.
unfoldable pub plain_reset :
    Check → Bytes → Session → Message → Option ℕ → Option (List Action × Session)
unfolding drain_queue jump reject_new_seq
plain_reset check now s m none = drain_queue check now s
plain_reset check now s m (some ns) =
    let rest = drain_queue check now (jump s ns) in
    if ltb ns s.next_in_seq
    then some (reject_new_seq now s m 5 (codes "NewSeqNo is decreasing"))
    else rest

unfoldable pub valid_reset : Check → Bytes → Session → Message → Option (List Action × Session)
unfolding is_gap_fill natural_at plain_reset apply_gap_fill_new_seq drain_queue reject_new_seq
valid_reset check now s m =
    let new_seq = natural_at m.body new_seq_no in
    if is_none (FieldMap.get m.body new_seq_no)
    then some (reject_new_seq now s m 1 (codes "NewSeqNo is missing"))
    else if is_gap_fill m
    then drain_queue check now (apply_gap_fill_new_seq s new_seq)
    else plain_reset check now s m new_seq

unfoldable pub on_sequence_reset :
    Check → Bytes → Session → Message → Option (List Action × Session)
unfolding validate_app invalid_reset valid_reset
on_sequence_reset check now s m = elim (validate_app check now s m) [
  | none ↦ valid_reset check now s m
  | some (reject, s1) ↦ some (invalid_reset now s1 m reject)
]

find_key-retain_from :
    (queue : BTreeMap Message) (ns k : ℕ)
    → find_key (retain_from queue ns) k ≡ (if ltb k ns then none else find_key queue k)
unfolding find_key retain_from
find_key-retain_from [] ns k = ground arith
find_key-retain_from ((seq, m) ∷ queue) ns k = ground (arith, find_key-retain_from queue ns k)

-- A gap fill up to `ns` never takes the expected number back: it becomes the larger of both. Where
-- it is a jump, what waits in the queue under smaller numbers than `ns` is dropped, and the rest
-- stays; else the queue stays as it is.
pub apply_gap_fill_new_seq_lem :
    (s : Session) (ns k : ℕ)
    → ((apply_gap_fill_new_seq s (some ns)).next_in_seq ≡ max s.next_in_seq ns)
      × (find_key (apply_gap_fill_new_seq s (some ns)).queue k
          ≡ (if leb s.next_in_seq ns && ltb k ns then none else find_key s.queue k))
unfolding apply_gap_fill_new_seq jump
apply_gap_fill_new_seq_lem s ns k =
    (ground arith, ground (arith, find_key-retain_from s.queue ns k))
