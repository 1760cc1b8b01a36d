-- ===== src/Session/Admin.antt =====
-- crates/truefix-session/src/admin.rs: the builders of administrative messages. `now` is the text
-- that `now_utc_timestamp_prec` gives for the clock.
use truefix.Base.{
  ℕ, ◌+◌, ◌-◌, ◌^◌, Bool, true, false, ◌&&◌, ◌||◌, List, [], ◌∷◌, Option, none, some, Bytes, codes,
  take, drop, ltb, leb, ◌==◌, if◌then◌else◌, and_then,
}
use truefix.Base.Int.{ℤ, pos, negsuc}
use truefix.Text.Utf8.{from_utf8}
use truefix.Text.Decimal.{to_string_signed, parse_unsigned}
use truefix.Core.FieldMap
use truefix.Core.FieldMap.{Field, FieldMap}
use truefix.Core.Message.{Message, new_message}
use truefix.Core.Framing.{find, strip_prefix}
use truefix.Session.Config.{
  SessionConfig, poss_dup_flag, sending_time, orig_sending_time, new_seq_no, gap_fill_flag,
  begin_seq_no, end_seq_no, reset_seq_num_flag, next_expected_msg_seq_num, test_req_id, text,
  ref_seq_num, ref_tag_id, ref_msg_type, session_reject_reason, business_reject_reason,
  encrypt_method, heart_bt_int,
}

-- `n as i64` of a u64.
unfoldable pub as_i64 : ℕ → ℤ
as_i64 n = if ltb n (2 ^ 63) then pos n else negsuc (2 ^ 64 - 1 - n)

-- `Field::string` and `Field::int`.
abbrev pub string : ℕ → Bytes → Field
string tag value = record { tag = tag; value = value }

unfoldable pub int : ℕ → ℤ → Field
int tag value = record { tag = tag; value = to_string_signed value }

-- `m.header.set` and `m.body.set`, and the same where there is a value.
unfoldable pub set_header : Message → Field → Message
set_header m f = record m { header = FieldMap.set m.header f }

unfoldable pub set_body : Message → Field → Message
set_body m f = record m { body = FieldMap.set m.body f }

unfoldable pub set_header_opt : Message → ℕ → Option Bytes → Message
unfolding set_header
set_header_opt m tag none = m
set_header_opt m tag (some value) = set_header m (string tag value)

unfoldable pub set_body_opt : Message → ℕ → Option Bytes → Message
unfolding set_body
set_body_opt m tag none = m
set_body_opt m tag (some value) = set_body m (string tag value)

unfoldable pub base : SessionConfig → Bytes → Bytes → ℕ → Message
base config now msg_type seq =
    let m1 = set_header new_message (string 8 config.begin_string) in
    let m2 = set_header m1 (string 35 msg_type) in
    let m3 = set_header m2 (string 49 config.sender_comp_id) in
    let m4 = set_header_opt m3 50 config.sender_sub_id in
    let m5 = set_header_opt m4 142 config.sender_location_id in
    let m6 = set_header m5 (string 56 config.target_comp_id) in
    let m7 = set_header_opt m6 57 config.target_sub_id in
    let m8 = set_header_opt m7 143 config.target_location_id in
    let m9 = set_header m8 (int 34 (as_i64 seq)) in set_header m9 (string 52 now)

set_all : Message → List (ℕ × Bytes) → Message
unfolding set_body
set_all m [] = m
set_all m ((tag, value) ∷ more) = set_all (set_body m (string tag value)) more

set_next_expected : Message → Option ℕ → Message
unfolding set_body
set_next_expected m none = m
set_next_expected m (some n) = set_body m (int next_expected_msg_seq_num (as_i64 n))

unfoldable pub logon_with_reset_flag : SessionConfig → Bytes → ℕ → Option ℕ → Bool → Message
unfolding base set_body set_all set_next_expected
logon_with_reset_flag config now seq next_expected reset =
    let m1 = set_body (base config now (codes "A") seq) (int encrypt_method (pos 0)) in
    let m2 = set_body m1 (int heart_bt_int (pos config.heartbeat_interval)) in
    let m3 = if reset then set_body m2 (string reset_seq_num_flag (codes "Y")) else m2 in
    let m4 = set_next_expected m3 next_expected in set_all m4 config.logon_tags

unfoldable pub logout : SessionConfig → Bytes → ℕ → Option Bytes → Message
unfolding base set_body_opt
logout config now seq reason = set_body_opt (base config now (codes "5") seq) text reason

unfoldable pub heartbeat : SessionConfig → Bytes → ℕ → Option Bytes → Message
unfolding base set_body_opt
heartbeat config now seq id = set_body_opt (base config now (codes "0") seq) test_req_id id

unfoldable pub test_request : SessionConfig → Bytes → ℕ → Bytes → Message
unfolding base set_body
test_request config now seq id = set_body (base config now (codes "1") seq) (string test_req_id id)

unfoldable pub resend_request : SessionConfig → Bytes → ℕ → ℕ → ℕ → Message
unfolding base set_body
resend_request config now seq from to =
    set_body (set_body (base config now (codes "2") seq) (int begin_seq_no (as_i64 from)))
      (int end_seq_no (as_i64 to))

unfoldable pub sequence_reset : SessionConfig → Bytes → ℕ → ℕ → Bool → Message
sequence_reset config now seq new_seq gap_fill =
    let m = set_body (base config now (codes "4") seq) (int new_seq_no (as_i64 new_seq)) in
    if gap_fill
    then set_header (set_body m (string gap_fill_flag (codes "Y")))
        (string poss_dup_flag (codes "Y"))
    else m

-- The two numbers of `FIX.<major>.<minor>`, each a u8.
two_numbers : Bytes → Option (ℕ × ℕ)
two_numbers rest = do
  dot ← find rest b'.'
  major ← parse_unsigned 255 (take dot rest)
  minor ← parse_unsigned 255 (drop (dot + 1) rest)
  some (major, minor)
  where
    ◌>>=◌ : {A B : Type 0} → Option A → (A → Option B) → Option B
    ◌>>=◌ = and_then

unfoldable pub fix_version : Bytes → Option (ℕ × ℕ)
unfolding two_numbers
fix_version begin_string = and_then (strip_prefix (codes "FIX.") begin_string) two_numbers

ref_msg_type_applies : SessionConfig → Bool
unfolding fix_version
ref_msg_type_applies config = elim (fix_version config.begin_string) [
  | none ↦ true
  | some (major, minor) ↦ ltb 4 major || (major == 4) && leb 2 minor
]

-- The arms of the match, by version.
reason_range : ℕ → ℕ → ℕ → Bool
reason_range major minor code =
    if (major == 4) && leb minor 1
    then false
    else if (major == 4) && (minor == 2)
    then leb code 11
    else if (major == 4) && (minor == 3)
    then leb code 15
    else if leb 4 major
    then leb code 16 || (code == 99)
    else true

session_reject_reason_applies : SessionConfig → ℕ → Bool
unfolding fix_version reason_range
session_reject_reason_applies config code = elim (fix_version config.begin_string) [
  | none ↦ true
  | some (major, minor) ↦ reason_range major minor code
]

-- RefMsgType, where the version has it.
set_ref_msg_type : SessionConfig → Message → Option Bytes → Message
unfolding ref_msg_type_applies set_body
set_ref_msg_type config m none = m
set_ref_msg_type config m (some mt) =
    if ref_msg_type_applies config then set_body m (string ref_msg_type mt) else m

unfoldable pub reject : SessionConfig → Bytes → ℕ → ℕ → Option Bytes → Bytes → Message
unfolding base set_body set_ref_msg_type
reject config now seq ref_seq mt reason =
    let m = set_body (base config now (codes "3") seq) (int ref_seq_num (as_i64 ref_seq)) in
    set_body (set_ref_msg_type config m mt) (string text reason)

set_ref_tag : Message → Option ℕ → Message
unfolding set_body
set_ref_tag m none = m
set_ref_tag m (some t) = set_body m (int ref_tag_id (pos t))

unfoldable pub reject_with_reason :
    SessionConfig → Bytes → ℕ → ℕ → Option Bytes → Option ℕ → ℕ → Bytes → Message
unfolding base set_body set_ref_msg_type set_ref_tag session_reject_reason_applies
reject_with_reason config now seq ref_seq mt ref_tag code reason =
    let m1 = set_body (base config now (codes "3") seq) (int ref_seq_num (as_i64 ref_seq)) in
    let m2 = set_ref_tag (set_ref_msg_type config m1 mt) ref_tag in
    let m3 =
      if session_reject_reason_applies config code
      then set_body m2 (int session_reject_reason (pos code))
      else m2 in
    set_body m3 (string text reason)

unfoldable pub business_message_reject :
    SessionConfig → Bytes → ℕ → ℕ → Option Bytes → Option ℕ → ℕ → Bytes → Message
unfolding base set_body set_body_opt set_ref_tag
business_message_reject config now seq ref_seq mt ref_tag code reason =
    let m1 = set_body (base config now (codes "j") seq) (int ref_seq_num (as_i64 ref_seq)) in
    let m2 = set_ref_tag (set_body_opt m1 ref_msg_type mt) ref_tag in
    set_body (set_body m2 (int business_reject_reason (pos code))) (string text reason)

-- `Field::as_str().ok()` of a field that may be missing.
unfoldable pub text_at : FieldMap → ℕ → Option Bytes
text_at map tag = and_then (FieldMap.get map tag) λ f. from_utf8 f.value

unfoldable pub prepare_resend : SessionConfig → Bytes → Message → Message
unfolding set_header set_header_opt text_at
prepare_resend config now original =
    let m1 = set_header original (string poss_dup_flag (codes "Y")) in
    set_header (set_header_opt m1 orig_sending_time (text_at original.header sending_time))
      (string sending_time now)
