-- ===== src/Session/Invariant/Resend.antt =====
-- The answer to a ResendRequest, as a step of the session (`on_resend_request` of
-- crates/truefix-session/src/state.rs).
use truefix.Base.{
  ℕ, zero, suc, ◌+◌, ◌-◌, ◌≤◌, ◌<◌, ◌≡◌, inl, inr, refl, ◌||◌, if◌then◌else◌, [], Option, none,
  some, Bytes, ltb, ◌==◌, arith, Bool-cases, Option-cases, is_none,
}
use truefix.Text.Decimal.{max_u64}
use truefix.Core.FieldMap
use truefix.Core.Message.{Message}
use truefix.Session.Config.{begin_seq_no, end_seq_no}
use truefix.Session.State.{Session, saturating_succ, send_raw, send_resend}
use truefix.Session.Resend.{
  gap_fill, close_gap, resend_one, resendable, open_gap, resend_loop, build_resend, resend_end,
  requested_begin, requested_end, missing_tag, on_resend_request,
}
use truefix.Session.Invariant.{
  Evolves, Evolves-refl, Evolves-trans, Same-Evolves, if_rule, send_next-Evolves, Runs, Runs-some,
}

close_gap-Evolves :
    (now : Bytes) (s : Session) (o : Option ℕ) (to : ℕ) → Evolves s (close_gap now s o to).1
unfolding close_gap gap_fill send_raw
close_gap-Evolves now s none to = Evolves-refl s
close_gap-Evolves now s (some from) to = Same-Evolves s _ (refl, refl, refl, refl)

resend_one-Evolves :
    (now : Bytes) (s : Session) (o : Option ℕ) (seq : ℕ) (m : Message)
    → Evolves s (resend_one now s o seq m).1
unfolding resend_one send_resend
resend_one-Evolves now s o seq m =
    Evolves-trans (close_gap-Evolves now s o seq)
      (Same-Evolves (close_gap now s o seq).1 _ (refl, refl, refl, refl))

-- A loop that ends below the largest u64 does not run out of its fuel.
resend_loop-Runs :
    (fuel : ℕ) (now : Bytes) (s : Session) (seq to : ℕ) (o : Option ℕ)
    → to < max_u64
    → to + 2 ≤ fuel + seq
    → 0 < fuel
    → Runs s (resend_loop fuel now s seq to o)
unfolding resend_loop
resend_loop-Runs zero now s seq to o b enough p = absurd (omega arith)
resend_loop-Runs (suc fuel) now s seq to o b enough p = elim (Bool-cases (ltb to seq)) [
  | inl e ↦ rw (resend_loop, e) (Runs-some _ (close_gap-Evolves now s o (saturating_succ to)))
  | inr e ↦
      let up : saturating_succ seq ≡ seq + 1 = unfold saturating_succ in ground arith in
      let more : to + 2 ≤ fuel + saturating_succ seq = omega (arith, up, enough) in
      let left : 0 < fuel = ground arith in
      elim (Option-cases (resendable s seq)) [
        | inl kept ↦
            rw (resend_loop, e, kept)
              (resend_loop-Runs fuel now s (saturating_succ seq) to (open_gap o seq) b more left)
        | inr (m, kept) ↦
            let (actions, s2, r, q) =
              resend_loop-Runs fuel now (resend_one now s o seq m).1 (saturating_succ seq) to none b
                more left in
            rw (resend_loop, e, kept, r)
              (_, s2, refl, Evolves-trans (resend_one-Evolves now s o seq m) q)
      ]
]

-- As far as a number that has been used.
pub build_resend-Runs :
    (now : Bytes) (s : Session) (from to : ℕ)
    → to < max_u64
    → from ≤ to + 1
    → Runs s (build_resend now s from to)
unfolding build_resend
build_resend-Runs now s from to b l =
    resend_loop-Runs (to + 2 - from) now s from to none b (omega arith) (omega arith)

missing_tag-Evolves :
    (now : Bytes) (s : Session) (m : Message) (tag : ℕ) → Evolves s (missing_tag now s m tag).1
unfolding missing_tag
missing_tag-Evolves now s m tag = send_next-Evolves s _

resend_end-le-last : (s : Session) (to : ℕ) → resend_end s to ≤ s.next_out_seq - 1
unfolding resend_end
resend_end-le-last s to = ground arith

-- The request as it stands, with both its tags.
answered :
    (now : Bytes) (s : Session) (from to : ℕ)
    → to < max_u64
    → Runs s (if (from == 0) || ltb to from then some ([], s) else build_resend now s from to)
answered now s from to b = elim (Bool-cases ((from == 0) || ltb to from)) [
  | inl e ↦ rw e (Runs-some _ (Evolves-refl s))
  | inr e ↦ rw e (build_resend-Runs now s from to b (ground arith))
]

pub on_resend_request-Runs :
    (now : Bytes) (s : Session) (m : Message)
    → 1 ≤ s.next_out_seq
    → s.next_out_seq ≤ max_u64
    → Runs s (on_resend_request now s m)
unfolding on_resend_request
on_resend_request-Runs now s m p b =
    if_rule (Runs s) (is_none (FieldMap.get m.body begin_seq_no)) _ _
      (Runs-some _ (missing_tag-Evolves now s m begin_seq_no))
      (if_rule (Runs s) (is_none (FieldMap.get m.body end_seq_no)) _ _
        (Runs-some _ (missing_tag-Evolves now s m end_seq_no))
        (answered now s (requested_begin m) (resend_end s (requested_end m))
          (omega (arith, p, b, resend_end-le-last s (requested_end m)))))
