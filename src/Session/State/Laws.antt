-- ===== src/Session/State/Laws.antt =====
-- Sending an application message (`send_app` of crates/truefix-session/src/state.rs).
use truefix.Base.{
  ℕ, ◌+◌, ◌-◌, ◌^◌, ◌<◌, ◌≡◌, refl, ◌∙◌, true, [], ◌∷◌, some, Bytes, ◌==◌, if◌then◌else◌, arith,
}
use truefix.Base.Maps.{find_key, insert, find_key-insert}
use truefix.Core.FieldMap
use truefix.Core.FieldMap.{Field}
use truefix.Core.Message.{Message}
use truefix.Session.Config.{SessionConfig}
use truefix.Session.Admin.{int, as_i64}
use truefix.Session.Fields.{get-set_header, positive_at-int}
use truefix.Session.State.{
  Session, send, next_seq, saturating_succ, stamp_last_msg_seq_num_processed, positive_at, keep,
  send_stored, stamp_app, send_app,
}

stamp_app_number :
    (config : SessionConfig) (now : Bytes) (seq : ℕ) (m : Message)
    → FieldMap.get (stamp_app config now seq m).header 34 ≡ some (int 34 (as_i64 seq))
unfolding stamp_app int
stamp_app_number config now seq m = simp get-set_header

stamp_last_number :
    (s : Session) (m : Message)
    → FieldMap.get (stamp_last_msg_seq_num_processed s m).header 34 ≡ FieldMap.get m.header 34
unfolding stamp_last_msg_seq_num_processed int
stamp_last_number s m = ground (arith, get-set_header m (int 369 (as_i64 (s.next_in_seq - 1))) 34)

-- What `send_app` sends.
sent : Bytes → Session → Message → Message
sent now s m = stamp_last_msg_seq_num_processed s (stamp_app s.config now s.next_out_seq m)

sent_number :
    (now : Bytes) (s : Session) (m : Message)
    → 0 < s.next_out_seq
    → s.next_out_seq < 2 ^ 63
    → positive_at (sent now s m).header 34 ≡ some s.next_out_seq
unfolding sent
sent_number now s m p l =
    positive_at-int _ 34 s.next_out_seq
      (stamp_last_number s (stamp_app s.config now s.next_out_seq m)
        ∙ stamp_app_number s.config now s.next_out_seq m)
      p l

-- The session behind it.
after_sending : Session → Message → Session
after_sending s m = record s {
  next_out_seq = saturating_succ s.next_out_seq;
  ticks_since_send = 0;
  store = insert s.store s.next_out_seq m;
}

send_app-after_sending :
    (now : Bytes) (s : Session) (m : Message)
    → s.config.persist_messages ≡ true
    → 0 < s.next_out_seq
    → s.next_out_seq < 2 ^ 63
    → send_app now s m ≡ (send (sent now s m) ∷ [], after_sending s (sent now s m))
unfolding send_app send_stored next_seq keep after_sending
send_app-after_sending now s m kept p l = rw (stamped, sent_number now s m p l, kept)
  where
    stamped :
        stamp_last_msg_seq_num_processed
          (record s { next_out_seq = saturating_succ s.next_out_seq; ticks_since_send = 0 })
          (stamp_app s.config now s.next_out_seq m)
        ≡ sent now s m
    stamped = unfold sent stamp_last_msg_seq_num_processed in refl

-- With persistence, an application message is sent under the next number, which is then used up; it
-- is kept under this number, and what is kept under every other number stays.
pub send_app_lem :
    (now : Bytes) (s : Session) (m : Message) (k : ℕ)
    → s.config.persist_messages ≡ true
    → 0 < s.next_out_seq
    → s.next_out_seq < 2 ^ 63
    → (m' : Message) × (s' : Session) × (send_app now s m ≡ (send m' ∷ [], s'))
      × (positive_at m'.header 34 ≡ some s.next_out_seq)
      × (s'.next_out_seq ≡ s.next_out_seq + 1)
      × (find_key s'.store k ≡ (if s.next_out_seq == k then some m' else find_key s.store k))
unfolding after_sending saturating_succ
send_app_lem now s m k kept p l = (
  sent now s m,
  after_sending s (sent now s m),
  send_app-after_sending now s m kept p l,
  sent_number now s m p l,
  ground arith,
  find_key-insert s.store s.next_out_seq k (sent now s m),
)
