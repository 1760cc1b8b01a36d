-- ===== src/Session/Resend/Answer.antt =====
-- `build_resend` and `on_resend_request` of state.rs answer the whole range.
use truefix.Base.{
  ℕ, zero, suc, ◌+◌, ◌-◌, ◌^◌, ◌≤◌, ◌<◌, ◌≡◌, refl, sym, ap, subst, ◌∙◌, true, false, List, [], ◌∷◌,
  ◌++◌, append_assoc, append-nil, Option, none, some, Bytes, ltb, and_then, arith, Bool-cases,
  Option-cases, inl, inr,
}
use truefix.Text.Decimal.{max_u64}
use truefix.Core.Message.{Message}
use truefix.Session.Admin
use truefix.Session.State.{Session, Action, resend, saturating_succ}
use truefix.Core.FieldMap
use truefix.Session.Resend.{resendable, close_gap, resend_one, open_gap, resend_loop, build_resend}
use truefix.Session.Resend.Coverage.{Covers, GapOpen, start, close_gap-Covers, resend_one_lem}

saturating_succ_small : (n : ℕ) → n < max_u64 → saturating_succ n ≡ n + 1
unfolding saturating_succ
saturating_succ_small n h = ground arith

-- The three ways that a round goes.
resend_loop-end :
    (fuel : ℕ) (now : Bytes) (s : Session) (seq to : ℕ) (gap : Option ℕ)
    → to < seq
    → resend_loop (suc fuel) now s seq to gap ≡ some (close_gap now s gap (saturating_succ to))
unfolding resend_loop
resend_loop-end fuel now s seq to gap h =
    let e : ltb to seq ≡ true = ground arith in rw (resend_loop, e)

resend_loop-gap :
    (fuel : ℕ) (now : Bytes) (s : Session) (seq to : ℕ) (gap : Option ℕ)
    → seq ≤ to
    → resendable s seq ≡ none
    → resend_loop (suc fuel) now s seq to gap
      ≡ resend_loop fuel now s (saturating_succ seq) to (open_gap gap seq)
unfolding resend_loop
resend_loop-gap fuel now s seq to gap h n =
    let e : ltb to seq ≡ false = ground arith in rw (resend_loop, e, n)

resend_loop-message :
    (fuel : ℕ) (now : Bytes) (s : Session) (seq to : ℕ) (gap : Option ℕ) (m : Message)
    → seq ≤ to
    → resendable s seq ≡ some m
    → resend_loop (suc fuel) now s seq to gap ≡ (
        and_then
          (resend_loop fuel now (resend_one now s gap seq m).1 (saturating_succ seq) to none)
          λ (more, s2). some ((resend_one now s gap seq m).0 ++ more, s2))
unfolding resend_loop
resend_loop-message fuel now s seq to gap m h n =
    let e : ltb to seq ≡ false = ground arith in rw (resend_loop, e, n)

-- The loop ends, and its actions cover the rest of the range with the gap in front of it.
Answers : ℕ → Bytes → Session → ℕ → ℕ → Option ℕ → Type 0
Answers fuel now s seq to gap =
    (actions : List Action) × (s' : Session) × (resend_loop fuel now s seq to gap
      ≡ some (actions, s'))
    × Covers s.config now (resendable s) (start gap seq) (to + 1) actions

GapOpen-open_gap :
    (stored : ℕ → Option Message) (gap : Option ℕ) (seq : ℕ)
    → 0 < seq
    → stored seq ≡ none
    → GapOpen stored gap seq
    → GapOpen stored (open_gap gap seq) (seq + 1)
      × (start (open_gap gap seq) (seq + 1) ≡ start gap seq)
GapOpen-open_gap stored none seq h n g =
    ((h, omega arith, λ k a b. subst (λ x. stored x ≡ none) (omega arith) n), refl)
GapOpen-open_gap stored (some from) seq h n (p, l, empty) = (
  (
    p,
    omega arith,
    λ k a b. elim (Bool-cases (ltb k seq)) [
      | inl e ↦ empty k a (ground arith)
      | inr e ↦ subst (λ x. stored x ≡ none) (ground arith) n
    ],
  ),
  refl,
)

Answers-end :
    (fuel : ℕ) (now : Bytes) (s : Session) (seq to : ℕ) (gap : Option ℕ)
    → seq ≡ to + 1
    → to + 1 < 2 ^ 63
    → GapOpen (resendable s) gap seq
    → Answers (suc fuel) now s seq to gap
unfolding Answers
Answers-end fuel now s seq to gap e b g =
    let done = close_gap now s gap seq in
    (
      done.0,
      done.1,
      resend_loop-end fuel now s seq to gap (omega arith)
          ∙ ap (λ n. some (close_gap now s gap n)) (saturating_succ_small to (omega arith) ∙ sym e),
      subst (Covers s.config now (resendable s) (start gap seq) (to + 1)) (append-nil done.0)
          (close_gap-Covers now s gap seq (to + 1) [] g (omega arith) e),
    )

-- The timer of the session is no part of what is stored.
Covers-timer :
    (now : Bytes) (s : Session) (from to : ℕ) (actions : List Action)
    → Covers s.config now (resendable (record s { ticks_since_send = 0 })) from to actions
    → Covers s.config now (resendable s) from to actions
unfolding resendable
Covers-timer now s from to actions h = h

Answers-gap :
    (fuel : ℕ) (now : Bytes) (s : Session) (seq to : ℕ) (gap : Option ℕ)
    → 0 < seq
    → seq ≤ to
    → to < max_u64
    → resendable s seq ≡ none
    → GapOpen (resendable s) gap seq
    → Answers fuel now s (seq + 1) to (open_gap gap seq)
    → Answers (suc fuel) now s seq to gap
unfolding Answers
Answers-gap fuel now s seq to gap p l b n g (actions, s', e, c) = (
  actions,
  s',
  resend_loop-gap fuel now s seq to gap l n
      ∙ ap (λ k. resend_loop fuel now s k to (open_gap gap seq))
          (saturating_succ_small seq (omega arith))
      ∙ e,
  subst (λ x. Covers s.config now (resendable s) x (to + 1) actions)
      (GapOpen-open_gap (resendable s) gap seq p n g).1 c,
)

Answers-message :
    (fuel : ℕ) (now : Bytes) (s : Session) (seq to : ℕ) (gap : Option ℕ) (m : Message)
    → seq ≤ to
    → to + 1 < 2 ^ 63
    → resendable s seq ≡ some m
    → GapOpen (resendable s) gap seq
    → Answers fuel now (record s { ticks_since_send = 0 }) (seq + 1) to none
    → Answers (suc fuel) now s seq to gap
unfolding Answers
Answers-message fuel now s seq to gap m l b n g (actions, s', e, c) =
    let before = (close_gap now s gap seq).0 in
    let again = resend (Admin.prepare_resend s.config now m) seq in
    (
      (before ++ again ∷ []) ++ actions,
      s',
      resend_loop-message fuel now s seq to gap m l n ∙ rest,
      subst (Covers s.config now (resendable s) (start gap seq) (to + 1))
          (sym (append_assoc before (again ∷ []) actions))
          (close_gap-Covers now s gap seq (to + 1) (again ∷ actions) g (omega arith)
            (refl, (m, n, refl), Covers-timer now s (seq + 1) (to + 1) actions c)),
    )
  where
    rest :
        (and_then {B = List Action × Session}
          (resend_loop fuel now (resend_one now s gap seq m).1 (saturating_succ seq) to none)
          λ (more, s2). some ((resend_one now s gap seq m).0 ++ more, s2))
        ≡ some (
          ((close_gap now s gap seq).0 ++ resend (Admin.prepare_resend s.config now m) seq ∷ [])
              ++ actions,
          s',
        )
    rest = rw (resend_one_lem now s gap seq m, saturating_succ_small seq (omega arith), e)

resend_loop-Answers :
    (fuel : ℕ) (now : Bytes) (s : Session) (seq to : ℕ) (gap : Option ℕ)
    → 0 < seq
    → seq ≤ to + 1
    → to + 1 < 2 ^ 63
    → to + 2 ≤ fuel + seq
    → GapOpen (resendable s) gap seq
    → Answers fuel now s seq to gap
resend_loop-Answers zero now s seq to gap p l b enough g = absurd (omega arith)
resend_loop-Answers (suc fuel) now s seq to gap p l b enough g = elim (Bool-cases (ltb to seq)) [
  | inl e ↦ Answers-end fuel now s seq to gap (ground arith) b g
  | inr e ↦ elim (Option-cases (resendable s seq)) [
    | inl n ↦ Answers-gap fuel now s seq to gap p (ground arith) (omega arith) n g (
        resend_loop-Answers fuel now s (seq + 1) to (open_gap gap seq) (omega arith) (ground arith)
          b (omega arith) (GapOpen-open_gap (resendable s) gap seq p n g).0)
    | inr (m, n) ↦ Answers-message fuel now s seq to gap m (ground arith) b n g (
        resend_loop-Answers fuel now (record s { ticks_since_send = 0 }) (seq + 1) to none
          (omega arith) (ground arith) b (omega arith) tt)
  ]
]

-- The answer to a request for the numbers `from` to `to` ends, and covers exactly these numbers, in
-- order: each is either the stored message, prepared for a resend under its own number, or lies in a
-- gap fill that passes over no message that would be sent again.
pub build_resend_answers :
    (now : Bytes) (s : Session) (from to : ℕ)
    → 0 < from
    → from ≤ to
    → to + 1 < 2 ^ 63
    → (actions : List Action) × (s' : Session) × (build_resend now s from to ≡ some (actions, s'))
      × Covers s.config now (resendable s) from (to + 1) actions
unfolding build_resend Answers
build_resend_answers now s from to p l b =
    resend_loop-Answers (to + 2 - from) now s from to none p (omega arith) b (omega arith) tt
