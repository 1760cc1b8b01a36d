-- ===== src/Session/Resend/Coverage.antt =====
-- The answer to a ResendRequest covers the range that was asked for (`build_resend` of state.rs).
use truefix.Base.{
  ℕ, ◌+◌, ◌-◌, ◌^◌, ◌≤◌, ◌<◌, ◌≡◌, refl, sym, ap, subst, ◌∙◌, Bool, true, false, List, [], ◌∷◌,
  ◌++◌, Option, none, some, Bytes, codes, ◌==◌, if◌then◌else◌, arith,
}
use truefix.Base.Int.{ℤ}
use truefix.Core.FieldMap
use truefix.Core.FieldMap.{FieldMap, Field}
use truefix.Core.Message.{Message}
use truefix.Session.Config.{SessionConfig}
use truefix.Session.Admin
use truefix.Session.Admin.{string, int, as_i64, set_header, set_body, set_header_opt}
use truefix.Session.State.{
  Session, Action, send, resend, disconnect, reset_store, send_raw, send_resend, positive_at,
  stamp_last_msg_seq_num_processed,
}
use truefix.Session.Fields.{
  positive_at-int, get-set_header, get-set_body, base_fields, body_of-set_header,
  header_of-set_body, positive_at-get,
}
use truefix.Session.Resend.{gap_fill, resendable, close_gap, resend_one}

-- A gap fill from `from` on, the next number after which is `next`.
pub record IsGapFill (m : Message) (from next : ℕ) : Type 0 where
  pub is_sequence_reset : FieldMap.get m.header 35 ≡ some (string 35 (codes "4"))
  pub starts_at : positive_at m.header 34 ≡ some from
  pub goes_to : positive_at m.body 36 ≡ some next
  pub flagged : FieldMap.get m.body 123 ≡ some (string 123 (codes "Y"))
  pub possible_duplicate : FieldMap.get m.header 43 ≡ some (string 43 (codes "Y"))

sequence_reset_fields :
    (config : SessionConfig) (now : Bytes) (from next : ℕ)
    → 0 < from
    → from < 2 ^ 63
    → 0 < next
    → next < 2 ^ 63
    → IsGapFill (Admin.sequence_reset config now from next true) from next
unfolding Admin.sequence_reset int
sequence_reset_fields config now from next h1 h2 h3 h4 = record {
  is_sequence_reset =
      simp (get-set_header, header_of-set_body, (base_fields config now (codes "4") from).0);
  starts_at =
      positive_at-int _ 34 from
        (simp (get-set_header, header_of-set_body, (base_fields config now (codes "4") from).1)) h1
        h2;
  goes_to = positive_at-int _ 36 next (simp (get-set_body, body_of-set_header)) h3 h4;
  flagged = simp (get-set_body, body_of-set_header);
  possible_duplicate = simp (get-set_header);
}

-- LastMsgSeqNumProcessed does not change what a gap fill says.
IsGapFill-set_header :
    (m : Message) (from next : ℕ) (v : ℤ)
    → IsGapFill m from next
    → IsGapFill (set_header m (int 369 v)) from next
unfolding int
IsGapFill-set_header m from next v h =
    let other : (t : ℕ)
        → (369 == t) ≡ false
        → FieldMap.get (set_header m (int 369 v)).header t ≡ FieldMap.get m.header t =
      (λ t ne. rw (get-set_header, ne)) in
    record {
      is_sequence_reset = other 35 refl ∙ h.is_sequence_reset;
      starts_at = positive_at-get _ _ 34 (other 34 refl) ∙ h.starts_at;
      goes_to = rw (body_of-set_header m (int 369 v)) h.goes_to;
      flagged = rw (body_of-set_header m (int 369 v)) h.flagged;
      possible_duplicate = other 43 refl ∙ h.possible_duplicate;
    }

IsGapFill-stamp :
    (s : Session) (m : Message) (from next : ℕ)
    → IsGapFill m from next
    → IsGapFill (stamp_last_msg_seq_num_processed s m) from next
unfolding stamp_last_msg_seq_num_processed
IsGapFill-stamp s m from next h =
    ground (arith, IsGapFill-set_header m from next (as_i64 (s.next_in_seq - 1)) h)

IsGapFill-processed :
    (stamped : Bool) (m : Message) (from next : ℕ) (v : ℤ)
    → IsGapFill m from next
    → IsGapFill (if stamped then set_header m (int 369 v) else m) from next
IsGapFill-processed true m from next v h = IsGapFill-set_header m from next v h
IsGapFill-processed false m from next v h = h

-- A gap fill, and the session behind it.
gap_fill_lem :
    (now : Bytes) (s : Session) (from next : ℕ)
    → 0 < from
    → from < 2 ^ 63
    → 0 < next
    → next < 2 ^ 63
    → (m : Message) × IsGapFill m from next
      × (gap_fill now s from next ≡ (send m, record s { ticks_since_send = 0 }))
unfolding gap_fill send_raw
gap_fill_lem now s from next h1 h2 h3 h4 = (
  _,
  IsGapFill-stamp (record s { ticks_since_send = 0 }) _ from next
      (IsGapFill-processed s.config.enable_last_msg_seq_num_processed
        (Admin.sequence_reset s.config now from next true) from next (as_i64 s.next_in_seq)
        (sequence_reset_fields s.config now from next h1 h2 h3 h4)),
  refl,
)

-- Every number from `from` up to but not with `to` is answered: in order, either by its stored
-- message, prepared for a resend, or by a gap fill that covers it and passes over no message that
-- would be sent again.
abbrev pub Covers : SessionConfig → Bytes → (ℕ → Option Message) → ℕ → ℕ → List Action → Type 0
Covers config now stored from to [] = from ≡ to
Covers config now stored from to (resend m seq ∷ more) =
    (seq ≡ from)
    × ((original : Message) × (stored from ≡ some original)
        × (m ≡ Admin.prepare_resend config now original))
    × Covers config now stored (from + 1) to more
Covers config now stored from to (send m ∷ more) =
    (next : ℕ) × IsGapFill m from next
    × (from < next)
    × ((k : ℕ) → from ≤ k → k < next → stored k ≡ none)
    × Covers config now stored next to more
Covers config now stored from to (disconnect ∷ more) = ⊥
Covers config now stored from to (reset_store ∷ more) = ⊥

-- An open gap: it holds no message that is sent again, and ends before `seq`.
abbrev pub GapOpen : (ℕ → Option Message) → Option ℕ → ℕ → Type 0
GapOpen stored none seq = Unit {0}
GapOpen stored (some from) seq =
    (0 < from) × (from < seq) × ((k : ℕ) → from ≤ k → k < seq → stored k ≡ none)

abbrev pub start : Option ℕ → ℕ → ℕ
start none seq = seq
start (some from) seq = from

pub close_gap-Covers :
    (now : Bytes) (s : Session) (gap : Option ℕ) (seq to : ℕ) (more : List Action)
    → GapOpen (resendable s) gap seq
    → seq < 2 ^ 63
    → Covers s.config now (resendable s) seq to more
    → Covers s.config now (resendable s) (start gap seq) to ((close_gap now s gap seq).0 ++ more)
unfolding close_gap
close_gap-Covers now s none seq to more g l h = h
close_gap-Covers now s (some from) seq to more (positive, before, empty) l h =
    let (m, isg, e) = gap_fill_lem now s from seq positive (omega arith) (omega arith) l in
    subst (λ a. Covers s.config now (resendable s) from to (a ∷ more)) (sym (ap (λ x. x.0) e))
      (seq, isg, before, empty, h)

pub resend_one_lem :
    (now : Bytes) (s : Session) (gap : Option ℕ) (seq : ℕ) (m : Message)
    → resend_one now s gap seq m ≡ (
      (close_gap now s gap seq).0 ++ resend (Admin.prepare_resend s.config now m) seq ∷ [],
      record s { ticks_since_send = 0 },
    )
unfolding resend_one close_gap send_resend
resend_one_lem now s none seq m = refl
resend_one_lem now s (some from) seq m = unfold gap_fill send_raw in refl
