-- ===== src/Session/State.antt =====
-- crates/truefix-session/src/state.rs: the session record, its sequence bookkeeping, sending, and
-- the end of a session. A method returns its result and the session after it. `now` is the clock's
-- text, read during one event.
pub mod Laws
use truefix.Base.{
  ℕ, zero, suc, ◌+◌, ◌-◌, ◌≡◌, refl, Bool, true, false, not, ◌&&◌, ◌||◌, List, [], ◌∷◌, ◌++◌,
  Option, none, some, Bytes, codes, ltb, ◌==◌, if◌then◌else◌, and_then, is_none,
}
use truefix.Base.Int.{ℤ, pos, negsuc}
use truefix.Base.Maps.{BTreeMap, insert, remove}
use truefix.Text.Decimal.{max_u64, parse_i64}
use truefix.Core.FieldMap
use truefix.Core.FieldMap.{FieldMap, Field}
use truefix.Core.Message.{Message, reverse_route}
use truefix.Session.Config.{SessionConfig, msg_seq_num, sending_time, test_req_id}
use truefix.Session.Admin
use truefix.Session.Admin.{string, int, as_i64, set_header, text_at}
use Prim.Native.Nat.{max}

pub data SessionState : Type 0 where
  disconnected awaiting_logon logged_on awaiting_logout : SessionState

pub data DisconnectReason : Type 0 where
  graceful_logout other : DisconnectReason

pub data Action : Type 0 where
  send : Message → Action
  -- a stored message again, under its sequence number
  resend : Message → ℕ → Action
  disconnect : Action
  reset_store : Action

pub record Session : Type 0 where
  pub config : SessionConfig
  pub state : SessionState
  pub next_out_seq : ℕ
  pub next_in_seq : ℕ
  pub ticks_since_send : ℕ
  pub ticks_since_recv : ℕ
  pub ticks_awaiting : ℕ
  pub test_request_outstanding : Bool
  pub logon_sent : Bool
  pub logon_received : Bool
  pub resend_requested : Bool
  pub resend_target : Option ℕ
  pub resend_chunk_end : Option ℕ
  pub store : BTreeMap Message
  pub queue : BTreeMap Message
  pub negotiated_appl_ver_id : Option Bytes
  pub reset_on_logon_pending : Bool
  pub last_disconnect_reason : Option DisconnectReason

unfoldable pub new_session : SessionConfig → Session
new_session config = record {
  config = config;
  state = disconnected;
  next_out_seq = 1;
  next_in_seq = 1;
  ticks_since_send = 0;
  ticks_since_recv = 0;
  ticks_awaiting = 0;
  test_request_outstanding = false;
  logon_sent = false;
  logon_received = false;
  resend_requested = false;
  resend_target = none;
  resend_chunk_end = none;
  store = [];
  queue = [];
  negotiated_appl_ver_id = none;
  reset_on_logon_pending = false;
  last_disconnect_reason = none;
}

-- `saturating_add(1)` on a u64.
unfoldable pub saturating_succ : ℕ → ℕ
saturating_succ n = if ltb n max_u64 then n + 1 else n

unfoldable pub next_seq : Session → ℕ × Session
next_seq s = (s.next_out_seq, record s { next_out_seq = saturating_succ s.next_out_seq })

unfoldable pub stamp_last_msg_seq_num_processed : Session → Message → Message
stamp_last_msg_seq_num_processed s m =
    if s.config.enable_last_msg_seq_num_processed && is_none (FieldMap.get m.header 369)
    then set_header m (int 369 (as_i64 (s.next_in_seq - 1)))
    else m

-- `as_int().ok().filter(|&s| s > 0)`.
unfoldable pub positive_at : FieldMap → ℕ → Option ℕ
positive_at map tag = and_then (FieldMap.get map tag) λ f.
    and_then (parse_i64 f.value)
      λ n. elim n [ pos k ↦ if k == 0 then none else some k | negsuc k ↦ none ]

-- The message is kept under its sequence number, if it has one and messages are kept at all.
unfoldable pub keep : Session → Message → Option ℕ → Session
keep s m none = s
keep s m (some seq) =
    if s.config.persist_messages then record s { store = insert s.store seq m } else s

unfoldable pub send_stored : Session → Message → Action × Session
send_stored s m =
    let s1 = record s { ticks_since_send = 0 } in
    let m1 = stamp_last_msg_seq_num_processed s1 m in
    (send m1, keep s1 m1 (positive_at m1.header msg_seq_num))

unfoldable pub send_raw : Session → Message → Action × Session
unfolding stamp_last_msg_seq_num_processed
send_raw s m =
    let s1 = record s { ticks_since_send = 0 } in (send (stamp_last_msg_seq_num_processed s1 m), s1)

unfoldable pub send_resend : Session → Message → ℕ → Action × Session
send_resend s m seq = (resend m seq, record s { ticks_since_send = 0 })

-- The header of an application message.
unfoldable pub stamp_app : SessionConfig → Bytes → ℕ → Message → Message
stamp_app config now seq m =
    let m1 = set_header m (string 8 config.begin_string) in
    let m2 = set_header m1 (string 49 config.sender_comp_id) in
    let m3 = set_header m2 (string 56 config.target_comp_id) in
    let m4 = set_header m3 (int msg_seq_num (as_i64 seq)) in set_header m4 (string 52 now)

unfoldable pub send_app : Bytes → Session → Message → List Action × Session
send_app now s m =
    let (seq, s1) = next_seq s in
    let (a, s2) = send_stored s1 (stamp_app s1.config now seq m) in (a ∷ [], s2)

unfoldable pub reset_sequences : Session → Bool → Session
reset_sequences s full =
    let s1 = record s {
      next_in_seq = 1;
      queue = [];
      resend_requested = false;
      resend_target = none;
      resend_chunk_end = none;
      test_request_outstanding = false;
    } in
    if full then record s1 { next_out_seq = 1; store = [] } else s1

unfoldable pub reset : Session → Session
unfolding reset_sequences
reset s = record (reset_sequences s true) { logon_sent = false }

unfoldable pub reset_on_error : Session → List Action × Session
unfolding reset
reset_on_error s = if s.config.reset_on_error then (reset_store ∷ [], reset s) else ([], s)

unfoldable pub is_logged_on : Session → Bool
is_logged_on s = elim s.state [
  | disconnected ↦ false
  | awaiting_logon ↦ false
  | logged_on ↦ true
  | awaiting_logout ↦ false
]

unfoldable pub on_garbled : Bytes → Session → List Action × Session
unfolding is_logged_on next_seq send_stored
on_garbled now s =
    if not s.config.reject_garbled_message || not (is_logged_on s)
    then ([], s)
    else (let (seq, s1) = next_seq s in
        let (a, s2) =
          send_stored s1
            (Admin.reject_with_reason s1.config now seq 0 none none 0 (codes "garbled message")) in
        (a ∷ [], s2))

unfoldable pub refresh_sequences : Session → ℕ → ℕ → Session
refresh_sequences s next_out next_in = record s {
  next_out_seq = max next_out 1;
  next_in_seq = max next_in 1;
}

unfoldable pub seed_sequences : Session → ℕ → ℕ → Session
unfolding refresh_sequences
seed_sequences s next_out next_in = if s.logon_sent then s else refresh_sequences s next_out next_in

insert_all : BTreeMap Message → List (ℕ × Message) → BTreeMap Message
insert_all store [] = store
insert_all store ((seq, m) ∷ more) = insert_all (insert store seq m) more

unfoldable pub seed_sent_messages : Session → List (ℕ × Message) → Session
unfolding insert_all
seed_sent_messages s messages =
    if s.logon_sent || not s.config.persist_messages
    then s
    else record s { store = insert_all s.store messages }

unfoldable pub discard_sent : Session → ℕ → Session
discard_sent s seq = record s { store = remove s.store seq }

unfoldable pub should_reset : SessionConfig → DisconnectReason → Bool
should_reset config graceful_logout = config.reset_on_logout
should_reset config other = config.reset_on_disconnect

-- The action is that of a full reset, if one was due.
unfoldable pub enter_disconnected : Session → DisconnectReason → List Action × Session
unfolding should_reset reset
enter_disconnected s reason =
    let s1 = record s { state = disconnected; last_disconnect_reason = some reason } in
    if should_reset s.config reason then (reset_store ∷ [], reset s1) else ([], s1)

unfoldable pub answer_test_request : Bytes → Session → Message → List Action × Session
unfolding is_logged_on next_seq send_stored text_at
answer_test_request now s m =
    if not (is_logged_on s)
    then ([], s)
    else (let (seq, s1) = next_seq s in
        let hb = reverse_route (Admin.heartbeat s1.config now seq (text_at m.body test_req_id)) m in
        let (a, s2) = send_stored s1 hb in (a ∷ [], s2))

-- A Logout answered, and then the end of the session.
unfoldable pub answer_logout : Bytes → Session → List Action × Session
unfolding next_seq send_raw enter_disconnected
answer_logout now s =
    let (seq, s1) = next_seq s in
    let (a, s2) = send_raw s1 (Admin.logout s1.config now seq none) in
    let (reset, s3) = enter_disconnected s2 graceful_logout in (a ∷ (reset ++ disconnect ∷ []), s3)

unfoldable pub on_logout_msg : Bytes → Session → List Action × Session
unfolding enter_disconnected answer_logout
on_logout_msg now s = elim s.state [
  | awaiting_logout ↦
      (let (reset, s1) = enter_disconnected s graceful_logout in (reset ++ disconnect ∷ [], s1))
  | disconnected ↦ answer_logout now s
  | awaiting_logon ↦ answer_logout now s
  | logged_on ↦ answer_logout now s
]

unfoldable pub on_start_logout : Bytes → Session → List Action × Session
unfolding is_logged_on next_seq send_raw
on_start_logout now s =
    if is_logged_on s
    then (let (seq, s1) = next_seq s in
        let (a, s2) =
          send_raw (record s1 { ticks_awaiting = 0; state = awaiting_logout })
            (Admin.logout s1.config now seq none) in
        (a ∷ [], s2))
    else ([], s)
