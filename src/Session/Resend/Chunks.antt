-- ===== src/Session/Resend/Chunks.antt =====
-- A gap asked for chunk by chunk (`request_resend` and `maybe_continue_chunked_resend` of
-- crates/truefix-session/src/state.rs).
use truefix.Base.{
  ℕ, ◌+◌, ◌≤◌, ◌<◌, ◌≡◌, refl, ◌∙◌, [], ◌∷◌, Option, none, some, Bytes, arith, ap, codes, ltb,
  if◌then◌else◌, ◌-◌,
}
use truefix.Core.FieldMap
use truefix.Core.Message.{Message}
use truefix.Session.Config.{SessionConfig}
use truefix.Session.Admin
use truefix.Session.Admin.{int, as_i64, set_header, string, set_body}
use truefix.Session.Fields.{get-set_body, get-set_header, base_fields}
use truefix.Session.State.{
  Session, Action, send, next_seq, keep, positive_at, send_stored, stamp_last_msg_seq_num_processed,
  saturating_succ,
}
use truefix.Session.Resend.{chunk_end, request_resend, next_chunk, maybe_continue_chunked_resend}

keep-resend_chunk_end :
    (s : Session) (m : Message) (o : Option ℕ) → (keep s m o).resend_chunk_end ≡ s.resend_chunk_end
unfolding keep
keep-resend_chunk_end s m none = refl
keep-resend_chunk_end s m (some seq) = ground arith

stamp_last_body : (s : Session) (m : Message) → (stamp_last_msg_seq_num_processed s m).body ≡ m.body
unfolding stamp_last_msg_seq_num_processed set_header
stamp_last_body s m = ground arith

stamp_last_type :
    (s : Session) (m : Message)
    → FieldMap.get (stamp_last_msg_seq_num_processed s m).header 35 ≡ FieldMap.get m.header 35
unfolding stamp_last_msg_seq_num_processed
stamp_last_type s m = ground (arith, other)
  where
    other :
        FieldMap.get (set_header m (int 369 (as_i64 (s.next_in_seq - 1)))).header 35
        ≡ FieldMap.get m.header 35
    other = unfold int in get-set_header m (int 369 (as_i64 (s.next_in_seq - 1))) 35

resend_request_type :
    (config : SessionConfig) (now : Bytes) (seq from to : ℕ)
    → FieldMap.get (Admin.resend_request config now seq from to).header 35
      ≡ some (string 35 (codes "2"))
unfolding Admin.resend_request set_body
resend_request_type config now seq from to = (base_fields config now (codes "2") seq).0

resend_request_fields :
    (config : SessionConfig) (now : Bytes) (seq from to : ℕ)
    → (FieldMap.get (Admin.resend_request config now seq from to).body 7
        ≡ some (int 7 (as_i64 from)))
      × (FieldMap.get (Admin.resend_request config now seq from to).body 16
          ≡ some (int 16 (as_i64 to)))
unfolding Admin.resend_request int
resend_request_fields config now seq from to = (simp get-set_body, simp get-set_body)

-- Any ResendRequest that the session sends: its type, and the range that it asks for.
pub request_resend_fields :
    (now : Bytes) (s : Session) (from : ℕ)
    → (m : Message) × ((request_resend now s from).0 ≡ send m)
      × (FieldMap.get m.header 35 ≡ some (string 35 (codes "2")))
      × (FieldMap.get m.body 7 ≡ some (int 7 (as_i64 from)))
      × (FieldMap.get m.body 16
          ≡ some (
              int 16 (
                as_i64 (if ltb 0 s.config.resend_request_chunk_size then chunk_end s from else 0))))
unfolding request_resend next_seq send_stored
request_resend_fields now s from =
    let to = if ltb 0 s.config.resend_request_chunk_size then chunk_end s from else 0 in
    let (from_field, to_field) = resend_request_fields s.config now s.next_out_seq from to in
    (
      _,
      refl,
      stamp_last_type _ _ ∙ resend_request_type s.config now s.next_out_seq from to,
      ap (λ b. FieldMap.get b 7) (stamp_last_body _ _) ∙ from_field,
      ap (λ b. FieldMap.get b 16) (stamp_last_body _ _) ∙ to_field,
    )

chunk_end_bounds :
    (s : Session) (target from : ℕ)
    → s.resend_target ≡ some target
    → 0 < s.config.resend_request_chunk_size
    → from ≤ target
    → (from ≤ chunk_end s from)
      × (chunk_end s from ≤ target)
      × (chunk_end s from < from + s.config.resend_request_chunk_size)
unfolding chunk_end
chunk_end_bounds s target from e p l = rw e (omega arith, omega arith, omega arith)

-- The session that sends the request, and the request.
requesting : Session → ℕ → Session
requesting s to = record s {
  resend_chunk_end = some to;
  next_out_seq = saturating_succ s.next_out_seq;
  ticks_since_send = 0;
}

requested : Bytes → Session → ℕ → ℕ → Message
requested now s from to =
    stamp_last_msg_seq_num_processed (requesting s to)
      (Admin.resend_request s.config now s.next_out_seq from to)

-- The session after it.
after_request : Bytes → Session → ℕ → ℕ → Session
after_request now s from to =
    let m = requested now s from to in keep (requesting s to) m (positive_at m.header 34)

request_resend-requested :
    (now : Bytes) (s : Session) (from : ℕ)
    → 0 < s.config.resend_request_chunk_size
    → request_resend now s from ≡ (
      send (requested now s from (chunk_end s from)),
      after_request now s from (chunk_end s from),
    )
unfolding request_resend next_seq send_stored after_request requested requesting
request_resend-requested now s from p = ground arith

next_chunk-request :
    (now : Bytes) (s s' : Session) (a : Action) (filled : ℕ)
    → filled < s.next_in_seq
    → request_resend now s s.next_in_seq ≡ (a, s')
    → next_chunk now s (some filled) ≡ (a ∷ [], s')
unfolding next_chunk
next_chunk-request now s s' a filled done e = ground arith

maybe_continue-next_chunk :
    (now : Bytes) (s : Session) (target filled : ℕ)
    → s.resend_target ≡ some target
    → s.resend_chunk_end ≡ some filled
    → s.next_in_seq ≤ target
    → maybe_continue_chunked_resend now s ≡ next_chunk now s (some filled)
unfolding maybe_continue_chunked_resend
maybe_continue-next_chunk now s target filled gap chunk l = simp gap (ground arith)

-- While a gap is open up to `target`, and the chunk up to `filled` has been received whole, the
-- session sends one ResendRequest: from the number it expects next to the end of the new chunk,
-- which it keeps. The new chunk is not empty, stays within the gap and within the chunk size.
pub maybe_continue_chunked_resend_lem :
    (now : Bytes) (s : Session) (target filled : ℕ)
    → s.resend_target ≡ some target
    → s.resend_chunk_end ≡ some filled
    → 0 < s.config.resend_request_chunk_size
    → filled < s.next_in_seq
    → s.next_in_seq ≤ target
    → (m : Message) × (s' : Session) × (to : ℕ) × (maybe_continue_chunked_resend now s
        ≡ (send m ∷ [], s'))
      × (s'.resend_chunk_end ≡ some to)
      × (FieldMap.get m.body 7 ≡ some (int 7 (as_i64 s.next_in_seq)))
      × (FieldMap.get m.body 16 ≡ some (int 16 (as_i64 to)))
      × (s.next_in_seq ≤ to)
      × (to ≤ target)
      × (to < s.next_in_seq + s.config.resend_request_chunk_size)
maybe_continue_chunked_resend_lem now s target filled gap chunk p done l =
    let to = chunk_end s s.next_in_seq in
    let m = requested now s s.next_in_seq to in
    let (from_field, to_field) =
      resend_request_fields s.config now s.next_out_seq s.next_in_seq to in
    let (not_empty, in_gap, in_size) = chunk_end_bounds s target s.next_in_seq gap p l in
    (
      m,
      after_request now s s.next_in_seq to,
      to,
      continues,
      kept,
      rw body from_field,
      rw body to_field,
      not_empty,
      in_gap,
      in_size,
    )
  where
    continues : maybe_continue_chunked_resend now s ≡ (
      send (requested now s s.next_in_seq (chunk_end s s.next_in_seq)) ∷ [],
      after_request now s s.next_in_seq (chunk_end s s.next_in_seq),
    )
    continues =
        maybe_continue-next_chunk now s target filled gap chunk l
        ∙ next_chunk-request now s _ _ filled done (request_resend-requested now s s.next_in_seq p)

    kept :
        (after_request now s s.next_in_seq (chunk_end s s.next_in_seq)).resend_chunk_end
        ≡ some (chunk_end s s.next_in_seq)
    kept = unfold after_request requesting in keep-resend_chunk_end _ _ _

    body :
        (requested now s s.next_in_seq (chunk_end s s.next_in_seq)).body
        ≡ (Admin.resend_request s.config now s.next_out_seq s.next_in_seq
            (chunk_end s s.next_in_seq)).body
    body = unfold requested in stamp_last_body _ _
