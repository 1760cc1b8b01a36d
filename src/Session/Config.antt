-- ===== src/Session/Config.antt =====
-- The settings that the modelled part of the session reads (`SessionConfig` of
-- crates/truefix-session/src/config.rs), and the session's tag numbers (tags.rs).
use truefix.Base.{ℕ, Bool, List, Option, Bytes}

pub data Role : Type 0 where
  initiator acceptor : Role

pub record SessionConfig : Type 0 where
  pub begin_string : Bytes
  pub sender_comp_id : Bytes
  pub target_comp_id : Bytes
  pub heartbeat_interval : ℕ
  pub role : Role
  pub reset_on_logon : Bool
  pub reset_on_logout : Bool
  pub reset_on_disconnect : Bool
  pub persist_messages : Bool
  pub resend_request_chunk_size : ℕ
  pub enable_next_expected_msg_seq_num : Bool
  pub check_latency : Bool
  pub max_latency : ℕ
  pub check_comp_id : Bool
  pub logon_timeout : ℕ
  pub logout_timeout : ℕ
  pub send_redundant_resend_requests : Bool
  pub disable_heart_beat_check : Bool
  pub requires_orig_sending_time_on_low_seq : Bool
  pub enable_last_msg_seq_num_processed : Bool
  pub reject_garbled_message : Bool
  pub reset_on_error : Bool
  pub disconnect_on_error : Bool
  pub logon_tags : List (ℕ × Bytes)
  pub force_resend_when_corrupted_store : Bool
  pub sender_sub_id : Option Bytes
  pub sender_location_id : Option Bytes
  pub target_sub_id : Option Bytes
  pub target_location_id : Option Bytes

abbrev pub msg_seq_num : ℕ
msg_seq_num = 34

abbrev pub poss_dup_flag : ℕ
poss_dup_flag = 43

abbrev pub sending_time : ℕ
sending_time = 52

abbrev pub orig_sending_time : ℕ
orig_sending_time = 122

abbrev pub new_seq_no : ℕ
new_seq_no = 36

abbrev pub gap_fill_flag : ℕ
gap_fill_flag = 123

abbrev pub begin_seq_no : ℕ
begin_seq_no = 7

abbrev pub end_seq_no : ℕ
end_seq_no = 16

abbrev pub reset_seq_num_flag : ℕ
reset_seq_num_flag = 141

abbrev pub next_expected_msg_seq_num : ℕ
next_expected_msg_seq_num = 789

abbrev pub test_req_id : ℕ
test_req_id = 112

abbrev pub text : ℕ
text = 58

abbrev pub ref_seq_num : ℕ
ref_seq_num = 45

abbrev pub ref_tag_id : ℕ
ref_tag_id = 371

abbrev pub ref_msg_type : ℕ
ref_msg_type = 372

abbrev pub session_reject_reason : ℕ
session_reject_reason = 373

abbrev pub business_reject_reason : ℕ
business_reject_reason = 380

abbrev pub encrypt_method : ℕ
encrypt_method = 98

abbrev pub heart_bt_int : ℕ
heart_bt_int = 108

abbrev pub session_status : ℕ
session_status = 573

abbrev pub default_appl_ver_id : ℕ
default_appl_ver_id = 1137
