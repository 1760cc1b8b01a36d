-- ===== src/Session/Examples.antt =====
-- The session at a concrete state: two numbers are used, an application message is kept under the
-- first and a Heartbeat under the second (crates/truefix-session/src).
use truefix.Base.{
  ℕ, ◌+◌, ◌≤◌, ◌<◌, ◌≡◌, refl, true, false, List, [], ◌∷◌, none, some, Bytes, codes, arith, ◌⊎◌,
  Option,
}
use truefix.Base.Maps.{find_key}
use truefix.Text.Utf8.{from_utf8}
use truefix.Text.Decimal.{parse_i64}
use truefix.Core.FieldMap
use truefix.Core.FieldMap.{Field, end, member, field}
use truefix.Core.Message.{Message, new_message, msg_type}
use truefix.Session.Config.{SessionConfig, acceptor}
use truefix.Session.Admin.{string, int, as_i64}
use truefix.Session.State.{
  Session, Action, disconnected, logged_on, send, new_session, positive_at, send_app,
}
use truefix.Session.State.Laws.{send_app_lem}
use truefix.Session.Resend.{
  maybe_continue_chunked_resend, resendable, requested_begin, requested_end, resend_end,
}
use truefix.Session.Inbound.{Check, drain_queue, apply_gap_fill_new_seq}
use truefix.Session.SequenceReset.{apply_gap_fill_new_seq_lem}
use truefix.Session.Inbound.Drain.{drain_queue_lem}
use truefix.Session.Resend.Chunks.{maybe_continue_chunked_resend_lem}

abbrev pub config : SessionConfig
config = record {
  begin_string = codes "FIX.4.4";
  sender_comp_id = codes "A";
  target_comp_id = codes "B";
  heartbeat_interval = 30;
  role = acceptor;
  reset_on_logon = false;
  reset_on_logout = false;
  reset_on_disconnect = false;
  persist_messages = true;
  resend_request_chunk_size = 0;
  enable_next_expected_msg_seq_num = false;
  check_latency = false;
  max_latency = 120;
  check_comp_id = true;
  logon_timeout = 10;
  logout_timeout = 10;
  send_redundant_resend_requests = false;
  disable_heart_beat_check = false;
  requires_orig_sending_time_on_low_seq = false;
  enable_last_msg_seq_num_processed = true;
  reject_garbled_message = false;
  reset_on_error = false;
  disconnect_on_error = false;
  logon_tags = [];
  force_resend_when_corrupted_store = false;
  sender_sub_id = none;
  sender_location_id = some (codes "L");
  target_sub_id = none;
  target_location_id = none;
}

abbrev pub now : Bytes
now = codes "20260101-00:00:00.000"

abbrev pub order : Message
order = record new_message { header = member (field (string 35 (codes "D"))) end }

abbrev pub beat : Message
beat = record new_message { header = member (field (string 35 (codes "0"))) end }

abbrev pub running : Session
running = record (new_session config) {
  config = config;
  next_out_seq = 3;
  store = (1, order) ∷ (2, beat) ∷ [];
}

-- From 1 on, with no end.
abbrev request : Message
request = record new_message {
  body = member (field (string 7 (codes "1"))) (member (field (string 16 (codes "0"))) end);
}

application : resendable running 1 ≡ some order
unfolding resendable find_key msg_type from_utf8 new_session FieldMap.get
application = refl

administrative : resendable running 2 ≡ none
unfolding resendable find_key msg_type from_utf8 new_session FieldMap.get
administrative = refl

begins : requested_begin request ≡ 1
unfolding requested_begin parse_i64 from_utf8 FieldMap.get
begins = refl

ends : resend_end running (requested_end request) ≡ 2
unfolding requested_end resend_end parse_i64 from_utf8 FieldMap.get
ends = refl

send_app_lem_example :
    (m' : Message) × (s' : Session) × (send_app now running order ≡ (send m' ∷ [], s'))
    × (positive_at m'.header 34 ≡ some 3)
    × (s'.next_out_seq ≡ 4)
    × (find_key s'.store 3 ≡ some m')
send_app_lem_example = send_app_lem now running order 3 refl (omega arith) (omega arith)

-- The gap 3 to 8 in chunks of two numbers: the chunk up to 4 has been received.
abbrev waiting : Session
waiting = record running {
  config = record config { resend_request_chunk_size = 2 };
  next_in_seq = 5;
  resend_target = some 8;
  resend_chunk_end = some 4;
}

maybe_continue_chunked_resend_lem_example :
    (m : Message) × (s' : Session) × (to : ℕ) × (maybe_continue_chunked_resend now waiting
      ≡ (send m ∷ [], s'))
    × (s'.resend_chunk_end ≡ some to)
    × (FieldMap.get m.body 7 ≡ some (int 7 (as_i64 5)))
    × (FieldMap.get m.body 16 ≡ some (int 16 (as_i64 to)))
    × (5 ≤ to)
    × (to ≤ 8)
    × (to < 5 + 2)
maybe_continue_chunked_resend_lem_example =
    maybe_continue_chunked_resend_lem now waiting 8 4 refl refl (omega arith) (omega arith)
      (omega arith)

-- Messages 5 and 6 came too early, and 9.
abbrev early : Session
early = record waiting { queue = (5, order) ∷ (6, beat) ∷ (9, order) ∷ [] }

abbrev pub silent : Check
silent version m = none

drain_queue_lem_example :
    (actions : List Action) × (s' : Session) × (drain_queue silent now early ≡ some (actions, s'))
    × ((s'.state ≡ disconnected) ⊎ (find_key s'.queue s'.next_in_seq ≡ none))
drain_queue_lem_example = drain_queue_lem silent now early

-- A queued Logout, with ResetOnLogout.
abbrev leaving : Session
leaving = record running {
  state = logged_on;
  config = record config { reset_on_logout = true };
  next_in_seq = 5;
  queue = (5, record new_message { header = member (field (string 35 (codes "5"))) end }) ∷ [];
}

next_in_after : Option (List Action × Session) → ℕ
next_in_after none = 0
next_in_after (some (actions, s)) = s.next_in_seq

logout_drained : next_in_after (drain_queue silent now leaving) ≡ 2
unfolding drain_queue next_in_after find_key msg_type from_utf8 new_session FieldMap.get
logout_drained = refl

apply_gap_fill_new_seq_lem_example :
    ((apply_gap_fill_new_seq early (some 7)).next_in_seq ≡ 7)
    × (find_key (apply_gap_fill_new_seq early (some 7)).queue 9 ≡ some order)
unfolding find_key
apply_gap_fill_new_seq_lem_example = apply_gap_fill_new_seq_lem early 7 9
