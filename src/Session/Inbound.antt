-- ===== src/Session/Inbound.antt =====
-- What the session does with messages in order: `validate_app`, `process_in_order`, `drain_queue` and
-- `apply_gap_fill_new_seq` of crates/truefix-session/src/state.rs. `check` is what the configured
-- dictionaries answer for a message, given the ApplVerID of the Logon.
pub mod Queue
pub mod Drain
use truefix.Base.{
  ℕ, zero, suc, ◌+◌, Bool, true, false, not, List, [], ◌∷◌, ◌++◌, Option, none, some, Bytes, codes,
  length, ltb, leb, ◌==◌, if◌then◌else◌, and_then, is_none,
}
use truefix.Base.Maps.{BTreeMap, find_key, remove}
use truefix.Core.FieldMap
use truefix.Core.Message
use truefix.Core.Message.{Message, reverse_route}
use truefix.Session.Config.{msg_seq_num, new_seq_no, gap_fill_flag}
use truefix.Session.Admin
use truefix.Session.Admin.{text_at}
use truefix.Session.State.{
  Session, Action, disconnect, disconnected, next_seq, send_stored, send_raw, saturating_succ,
  positive_at, reset_on_error, answer_test_request, on_logout_msg,
}
use truefix.Session.Resend.{natural_at, on_resend_request, maybe_continue_chunked_resend}

-- `ValidationError` of crates/truefix-dict/src/model.rs; `reason` is the code of its reason.
pub record ValidationError : Type 0 where
  pub reason : ℕ
  pub ref_tag : Option ℕ
  pub business : Bool
  pub text : Bytes

abbrev pub Check : Type 0
Check = Option Bytes → Message → Option ValidationError

-- `queue.retain(|&seq, _| seq >= ns)`.
unfoldable pub retain_from : BTreeMap Message → ℕ → BTreeMap Message
retain_from [] ns = []
retain_from ((seq, m) ∷ queue) ns =
    let rest = retain_from queue ns in if leb ns seq then (seq, m) ∷ rest else rest

unfoldable pub jump : Session → ℕ → Session
unfolding retain_from
jump s ns = record s { next_in_seq = ns; queue = retain_from s.queue ns }

unfoldable pub apply_gap_fill_new_seq : Session → Option ℕ → Session
unfolding jump
apply_gap_fill_new_seq s none = s
apply_gap_fill_new_seq s (some ns) = if leb s.next_in_seq ns then jump s ns else s

-- A message type of one letter.
unfoldable pub is_type : Option Bytes → ℕ → Bool
is_type none letter = false
is_type (some []) letter = false
is_type (some (c ∷ [])) letter = c == letter
is_type (some (c ∷ d ∷ cs)) letter = false

-- The number that a reject refers to.
unfoldable pub ref_seq_of : Message → ℕ
unfolding positive_at
ref_seq_of m = elim (positive_at m.header msg_seq_num) [ none ↦ 0 | some n ↦ n ]

-- The reject of a message that is not valid.
unfoldable pub refuse : Bytes → Session → Message → ValidationError → Action × Session
unfolding next_seq send_stored ref_seq_of
refuse now s m error =
    let (seq, s1) = next_seq s in
    let mt = Message.msg_type m in
    let builder =
      if error.business then Admin.business_message_reject else Admin.reject_with_reason in
    let rej = builder s1.config now seq (ref_seq_of m) mt error.ref_tag error.reason error.text in
    send_stored s1 (reverse_route rej m)

unfoldable pub validate_app : Check → Bytes → Session → Message → Option (Action × Session)
unfolding refuse
validate_app check now s m = elim (check s.negotiated_appl_ver_id m) [
  | none ↦ none
  | some error ↦ some (refuse now s m error)
]

-- The arms of `process_in_order`, without that of a ResendRequest.
unfoldable pub process_other : Bytes → Session → Message → Option Bytes → List Action × Session
unfolding is_type answer_test_request on_logout_msg
process_other now s m mt =
    if is_type mt b'1'
    then answer_test_request now s m
    else if is_type mt b'5'
    then on_logout_msg now s
    else ([], s)

unfoldable pub process_in_order :
    Bytes → Session → Message → Option Bytes → Option (List Action × Session)
unfolding is_type on_resend_request process_other
process_in_order now s m mt = elim (is_type mt b'2') [
  | true ↦ on_resend_request now s m
  | false ↦ some (process_other now s m mt)
]

unfoldable pub advance : Session → Session
unfolding saturating_succ
advance s = record s { next_in_seq = saturating_succ s.next_in_seq }

-- The Logout and the end of the session, after a message that is not valid.
unfoldable pub farewell : Bytes → Session → List Action × Session
unfolding next_seq send_raw
farewell now s =
    let (seq, s1) = next_seq s in
    let (a, s2) =
      send_raw s1
        (Admin.logout s1.config now seq (some (codes "application message failed validation"))) in
    (a ∷ disconnect ∷ [], record s2 { state = disconnected })

-- What one round of the loop of `drain_queue` does.
pub data Round : Type 0 where
  -- no message under the number expected next
  gap : Round
  again : List Action → Session → Round
  ended : List Action → Session → Round

-- After the reject of a message, and with its number behind.
unfoldable pub after_reject : Bytes → Session → Action → Round
unfolding advance reset_on_error farewell
after_reject now s reject =
    let (resets, s1) = reset_on_error (advance s) in
    let (bye, s2) = farewell now s1 in
    if s1.config.disconnect_on_error
    then ended (reject ∷ (resets ++ bye)) s2
    else again (reject ∷ resets) s1

-- A ResendRequest has been answered when it came, so it is not processed.
unfoldable pub in_order : Bytes → Session → Message → Round
unfolding is_type process_other advance
in_order now s m =
    let mt = Message.msg_type m in
    let (actions, s1) = process_other now s m mt in
    if is_type mt b'2' then again [] (advance s) else again actions (advance s1)

unfoldable pub drain_message : Check → Bytes → Session → Message → Round
unfolding is_type apply_gap_fill_new_seq validate_app after_reject in_order
drain_message check now s m =
    if is_type (Message.msg_type m) b'4'
    then again [] (apply_gap_fill_new_seq s (positive_at m.body new_seq_no))
    else elim (validate_app check now s m) [
      | none ↦ in_order now s m
      | some (reject, s1) ↦ after_reject now s1 reject
    ]

unfoldable pub drain_round : Check → Bytes → Session → Round
unfolding drain_message
drain_round check now s = elim (find_key s.queue s.next_in_seq) [
  | none ↦ gap
  | some m ↦ drain_message check now (record s { queue = remove s.queue s.next_in_seq }) m
]

-- Behind the loop.
unfoldable pub drained : Bytes → Session → List Action × Session
unfolding maybe_continue_chunked_resend
drained now s =
    maybe_continue_chunked_resend now
      (record s { resend_requested = elim s.queue [ [] ↦ false | m ∷ more ↦ s.resend_requested ] })

-- The loop of `drain_queue`; `none` is a loop that ran out of its fuel.
unfoldable pub drain_loop : ℕ → Check → Bytes → Session → Option (List Action × Session)
unfolding drain_round drained
drain_loop zero check now s = none
drain_loop (suc fuel) check now s = elim (drain_round check now s) [
  | gap ↦ some (drained now s)
  | ended actions s1 ↦ some (actions, s1)
  | again actions s1 ↦
      and_then (drain_loop fuel check now s1) λ (more, s2). some (actions ++ more, s2)
]

-- Each round takes a message out of the queue, and the last finds none.
unfoldable pub drain_queue : Check → Bytes → Session → Option (List Action × Session)
unfolding drain_loop
drain_queue check now s = drain_loop (length s.queue + 1) check now s
