-- ===== src/Session/Received/Early.antt =====
-- Messages that come early (the too-high arms of `on_received` of
-- crates/truefix-session/src/state.rs).
use truefix.Base.{
  ℕ, ◌≡◌, refl, sym, subst, ◌∙◌, ap, ==_refl, Bool, true, false, not, ◌&&◌, ◌||◌, if◌then◌else◌,
  List, [], ◌∷◌, Option, none, some, codes, ltb, ◌==◌, arith, Bool-cases, inl, inr,
}
use truefix.Base.Maps.{BTreeMap, find_key, insert, find_key-insert}
use truefix.Core.FieldMap
use truefix.Core.Message.{Message}
use truefix.Session.Admin.{string, int, as_i64}
use truefix.Session.Resend.Chunks.{request_resend_fields}
use truefix.Session.Config.{SessionConfig}
use truefix.Session.State.{
  Session, logged_on, Action, send, next_seq, keep, send_stored, is_logged_on,
}
use truefix.Session.Resend.{request_resend}
use truefix.Session.Invariant.{if_rule}
use truefix.Session.Checks.{Env}
use truefix.Session.Logon.{raise_target, ask_again}
use truefix.Session.Received.{queue_early}

-- Keeping a message changes the store only.
keep-store :
    (s : Session) (m : Message) (o : Option ℕ)
    → (store : BTreeMap Message) × (keep s m o ≡ record s { store = store })
unfolding keep
keep-store s m none = (s.store, refl)
keep-store s m (some seq) =
    if_rule (λ (t : Session). (store : BTreeMap Message) × (t ≡ record s { store = store }))
      s.config.persist_messages _ _ (insert s.store seq m, refl) (s.store, refl)

-- What is left alone, or set, by a message that waits.
record Waits (s t : Session) (seq : ℕ) (m : Message) : Type 0 where
  queued : t.queue ≡ insert s.queue seq m
  expects : t.next_in_seq ≡ s.next_in_seq
  same_state : t.state ≡ s.state
  same_config : t.config ≡ s.config

raise_target-Waits :
    (s : Session) (seq : ℕ) (m : Message)
    → Waits s (raise_target (record s { queue = insert s.queue seq m }) seq) seq m
unfolding raise_target
raise_target-Waits s seq m =
    if_rule (λ (t : Session). Waits s t seq m) (ltb 0 s.config.resend_request_chunk_size) _ _
      (record { queued = refl; expects = refl; same_state = refl; same_config = refl })
      (record { queued = refl; expects = refl; same_state = refl; same_config = refl })

raise_target-requested :
    (s : Session) (seq : ℕ) → (raise_target s seq).resend_requested ≡ s.resend_requested
unfolding raise_target
raise_target-requested s seq = ground arith

ask_again-Waits :
    (e : Env) (s t : Session) (seq : ℕ) (m : Message)
    → Waits s t seq m
    → Waits s (ask_again e t).1 seq m × ((ask_again e t).1.resend_requested ≡ true)
unfolding ask_again request_resend next_seq send_stored
ask_again-Waits e s t seq m w =
    let (store, same) = keep-store _ _ _ in
    (
      record {
        queued = ap (λ (x : Session). x.queue) same ∙ w.queued;
        expects = ap (λ (x : Session). x.next_in_seq) same ∙ w.expects;
        same_state = ap (λ (x : Session). x.state) same ∙ w.same_state;
        same_config = ap (λ (x : Session). x.config) same ∙ w.same_config;
      },
      ap (λ (x : Session). x.resend_requested) same,
    )

-- One ResendRequest, from a number on.
unfoldable pub IsResendRequest : Message → ℕ → Type 0
unfolding FieldMap.get int as_i64
IsResendRequest m from =
    (FieldMap.get m.header 35 ≡ some (string 35 (codes "2")))
    × (FieldMap.get m.body 7 ≡ some (int 7 (as_i64 from)))

-- What is asked of the peer: nothing, or one ResendRequest from a number on.
unfoldable pub Asks : Bool → List Action → ℕ → Type 0
Asks false actions from = actions ≡ []
Asks true actions from = (m : Message) × (actions ≡ send m ∷ []) × IsResendRequest m from

-- What a message that comes early leaves, with what it asks for.
Leaves : Session → ℕ → Message → Bool → List Action × Session → Type 0
Leaves s seq m asking r =
    Waits s r.1 seq m × (r.1.resend_requested ≡ true) × Asks asking r.0 s.next_in_seq

queue_early-split :
    (e : Env) (s : Session) (seq : ℕ) (m : Message) (asking test : Bool)
    → (is_logged_on s && (not s.resend_requested || s.config.send_redundant_resend_requests)) ≡ test
    → Leaves s seq m asking (
        if test
        then ask_again e (raise_target (record s { queue = insert s.queue seq m }) seq)
        else ([], raise_target (record s { queue = insert s.queue seq m }) seq))
    → Leaves s seq m asking (queue_early e s seq m)
unfolding queue_early
queue_early-split e s seq m asking test same p =
    subst
      (λ (b : Bool). Leaves s seq m asking (
        if b
        then ask_again e (raise_target (record s { queue = insert s.queue seq m }) seq)
        else ([], raise_target (record s { queue = insert s.queue seq m }) seq)))
      (sym same) p

ask_again-Asks : (e : Env) (s : Session) → Asks true (ask_again e s).0 s.next_in_seq
unfolding ask_again Asks IsResendRequest
ask_again-Asks e s =
    let (m, sends, kind, from_field, _) =
      request_resend_fields e.now (record s { resend_requested = true }) s.next_in_seq in
    (m, ap (λ a. a ∷ []) sends, (kind, from_field))

-- While the session is logged on and does not ask twice, a message that comes early waits, and a
-- request is out behind it, sent now where none was out before.
queue_early-Leaves :
    (e : Env) (s : Session) (seq : ℕ) (m : Message)
    → s.state ≡ logged_on
    → s.config.send_redundant_resend_requests ≡ false
    → Leaves s seq m (not s.resend_requested) (queue_early e s seq m)
queue_early-Leaves e s seq m is once = elim (Bool-cases s.resend_requested) [
  | inl asked ↦ queue_early-split e s seq m _ false (ground (arith, on)) (
      unfold Leaves in
      (
        raise_target-Waits s seq m,
        raise_target-requested (record s { queue = insert s.queue seq m }) seq ∙ asked,
        rw asked (unfold Asks in refl),
      ))
  | inr quiet ↦
      let waiting = raise_target (record s { queue = insert s.queue seq m }) seq in
      let (w, out) = ask_again-Waits e s waiting seq m (raise_target-Waits s seq m) in
      queue_early-split e s seq m _ true (ground (arith, on)) (
        unfold Leaves in
        (
          w,
          out,
          subst (λ (b : Bool). Asks b (ask_again e waiting).0 s.next_in_seq) (sym (ap not quiet))
              (subst (λ n. Asks true (ask_again e waiting).0 n) (raise_target-Waits s seq m).expects
                (ask_again-Asks e waiting)),
        ))
]
  where
    on : is_logged_on s ≡ true
    on = unfold is_logged_on in ground arith

-- Two messages come early, in any order and whatever their numbers, to a session that is logged on
-- and does not send redundant ResendRequests. If no request was out, the first one sends exactly one
-- ResendRequest, from the number expected next, and else it sends nothing; the second one sends
-- nothing. Both wait under their numbers, except that of two messages with the same number only the
-- second one waits; and the number expected stays.
pub queue_early_lem :
    (e : Env) (s : Session) (seq seq' : ℕ) (m m' : Message)
    → s.state ≡ logged_on
    → s.config.send_redundant_resend_requests ≡ false
    → let (first, s1) = queue_early e s seq m in
      let (second, s2) = queue_early e s1 seq' m' in
      Asks (not s.resend_requested) first s.next_in_seq
      × (second ≡ [])
      × (find_key s2.queue seq' ≡ some m')
      × (find_key s2.queue seq ≡ (if seq' == seq then some m' else some m))
      × (s2.next_in_seq ≡ s.next_in_seq)
unfolding Leaves
queue_early_lem e s seq seq' m m' is once =
    let (w, out, asks) = queue_early-Leaves e s seq m is once in
    let s1 = (queue_early e s seq m).1 in
    let (w', out', quiet) =
      queue_early-Leaves e s1 seq' m' (w.same_state ∙ is)
        (ap (λ (c : SessionConfig). c.send_redundant_resend_requests) w.same_config ∙ once) in
    let found = find_key-insert s1.queue seq' seq m' in
    (
      asks,
      unfold Asks in
          subst (λ (b : Bool). Asks b (queue_early e s1 seq' m').0 s1.next_in_seq) (ap not out)
            quiet,
      ap (λ (q : BTreeMap Message). find_key q seq') w'.queued
          ∙ (find_key-insert s1.queue seq' seq' m' ∙ rw (==_refl seq')),
      ap (λ (q : BTreeMap Message). find_key q seq) w'.queued
          ∙ (found
              ∙ ap (λ (o : Option Message). if seq' == seq then some m' else o)
                  (ap (λ (q : BTreeMap Message). find_key q seq) w.queued
                    ∙ (find_key-insert s.queue seq seq m ∙ rw (==_refl seq)))),
      w'.expects ∙ w.expects,
    )
