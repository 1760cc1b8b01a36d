-- ===== src/Dict/Examples.antt =====
-- Runs of the validation, and the theorems at a small FIX.4.4 dictionary with one repeating group.
mod Decoded
use truefix.Base.{
  ℕ, ◌<◌, ◌≡◌, ◌≢◌, refl, Bool, true, false, ◌&&◌, List, [], ◌∷◌, none, some, Bytes, codes,
  contains, leb, ltb, ok, err, stuck, arith, All, and_then, same_bytes, if◌then◌else◌, ◌==◌, subst,
}
use truefix.Base.Int.{pos}
use truefix.Base.Maps.{find_key}
use truefix.Core.FieldMap.{FieldMap, Member, end, member, field, group, nil, cons}
use truefix.Core.Message.{Message, new_message}
use truefix.Core.Times.{Crates}
use truefix.Core.Decode.{all_digits}
use truefix.Dict.Model.{
  DataDictionary, FieldDef, GroupDef, MessageDef, FieldType, VersionMeta, string, int, num_in_group,
  char, default_options, group_def, session, business, invalid_msg_type,
  incorrect_num_in_group_count, find_name,
}
use truefix.Dict.Header.{group_contains_member_transitively}
use truefix.Dict.Header.Ranked.{HasRank, group_in_itself_lem}
use truefix.Dict.Values.{is_valid_month_year, non_negative}
use truefix.Dict.Version.{parse_fix_begin_string}
use truefix.Dict.Version.RoundTrip.{
  print_version, IsSmall, IsVersion, parse_fix_begin_string-print_version,
}
use truefix.Dict.Fixt.{
  new_dictionaries, FixtDictionaries, with_application, application_for, application_key,
}
use truefix.Dict.Fixt.Laws.{application_for-with_application}
use truefix.Dict.Structured.{validate_structured_group}
use truefix.Dict.Structured.Good.{IsCount, AreGoodEntries}
use truefix.Dict.Structured.Sound.{validate_structured_group_sound}
use truefix.Dict.Validate.{validate}
use truefix.Dict.Validate.Layers.{IsUnknownType}
use truefix.Dict.Validate.Total.{validate-ne-stuck, business_reject_lem}

abbrev pub crates : Crates
crates = record {
  decimal_ok = all_digits;
  month_ok = λ month. leb 1 month && leb month 12;
  date_ok = λ year month day. leb 1 day && leb day 31;
  time_ok = λ hour min sec nanos. ltb hour 24 && (ltb min 60 && ltb sec 60);
}

abbrev pub def : ℕ → FieldType → List Bytes → FieldDef
def tag type values = record {
  tag = tag;
  name = [];
  field_type = type;
  values = values;
  open_enum = false;
}

abbrev pub parties : GroupDef
parties = record { delimiter = 448; members = 448 ∷ 447 ∷ []; required = 448 ∷ []; child = none }

abbrev pub new_order : MessageDef
new_order = record {
  name = codes "NewOrderSingle";
  required = 11 ∷ [];
  optional = 54 ∷ 453 ∷ [];
  member_tags = 447 ∷ 448 ∷ [];
}

abbrev pub dict : DataDictionary
dict = record {
  version = codes "FIX.4.4";
  fields =
      (8, def 8 string [])
      ∷ (9, def 9 int [])
      ∷ (10, def 10 string [])
      ∷ (11, def 11 string [])
      ∷ (35, def 35 string [])
      ∷ (54, def 54 char (codes "1" ∷ codes "2" ∷ []))
      ∷ (447, def 447 char [])
      ∷ (448, def 448 string [])
      ∷ (453, def 453 num_in_group [])
      ∷ [];
  messages = (codes "D", new_order) ∷ [];
  header = 8 ∷ 9 ∷ 35 ∷ [];
  trailer = 10 ∷ [];
  groups = (453, parties) ∷ [];
  version_meta = none;
}

abbrev text_member : ℕ → Bytes → Member
text_member tag value = field (record { tag = tag; value = value })

abbrev entry : FieldMap
entry = member (text_member 448 (codes "A")) (member (text_member 447 (codes "D")) end)

-- An order with a group of one entry, of which `count` are declared.
abbrev order : Bytes → ℕ → Message
order side count = record new_message {
  header =
      member (text_member 8 (codes "FIX.4.4"))
        (member (text_member 9 (codes "5")) (member (text_member 35 (codes "D")) end));
  body =
      member (text_member 11 (codes "X"))
        (member (text_member 54 side) (member (group 453 (cons entry nil) (some (pos count))) end));
  trailer = member (text_member 10 (codes "000")) end;
}

accepted : validate crates dict default_options (order (codes "1") 1) ≡ ok tt
unfolding validate find_name find_key
accepted = refl

wrong_count :
    validate crates dict default_options (order (codes "1") 2)
    ≡ err (session incorrect_num_in_group_count (some 453))
unfolding validate find_name find_key
wrong_count = refl

-- The same group, flat.
abbrev flat : Message
flat = record (order (codes "1") 1) {
  body = member (text_member 11 (codes "X")) (
      member (text_member 453 (codes "2")) (
        member (text_member 448 (codes "A"))
          (member (text_member 447 (codes "D")) (member (text_member 448 (codes "B")) end))));
}

flat_accepted : validate crates dict default_options flat ≡ ok tt
unfolding validate find_name find_key non_negative
flat_accepted = refl

second_month : is_valid_month_year (codes "202602w5") ≡ true
unfolding is_valid_month_year
second_month = refl

no_month : is_valid_month_year (codes "202613") ≡ false
unfolding is_valid_month_year
no_month = refl

only_case : (b : Bool) (x y : GroupDef) → (if b then some x else none) ≡ some y → x ≡ y
only_case true x y e = cc
only_case false x y e = cc

-- The one group has no group in it.
dict-HasRank : (c : ℕ) → HasRank dict (λ _. 0) c
unfolding HasRank group_def find_key
dict-HasRank c g e = (
  omega arith,
  subst (λ (h : GroupDef). All (λ m. (k : GroupDef) → group_def dict m ≡ some k → 0 < 0) h.members)
      (only_case (453 == c) parties g e) (λ k f. cc, (λ k f. cc, tt)),
)

validate-ne-stuck_example : validate crates dict default_options (order (codes "1") 2) ≢ stuck
validate-ne-stuck_example =
    validate-ne-stuck crates dict default_options (λ _. 0) dict-HasRank (order (codes "1") 2)

-- An order whose message type the dictionary does not define.
abbrev unknown : Message
unknown = record (order (codes "1") 1) {
  header =
      member (text_member 8 (codes "FIX.4.4"))
        (member (text_member 9 (codes "5")) (member (text_member 35 (codes "Z")) end));
}

unknown_refused :
    validate crates dict default_options unknown ≡ err (business invalid_msg_type (some 35))
unfolding validate find_name find_key
unknown_refused = refl

business_reject_lem_example : IsUnknownType dict unknown (business invalid_msg_type (some 35))
business_reject_lem_example =
    business_reject_lem crates dict default_options (λ _. 0) dict-HasRank unknown
      (business invalid_msg_type (some 35)) unknown_refused refl

validate_structured_group_sound_example :
    IsCount (some (pos 1)) 1 × AreGoodEntries dict default_options parties (cons entry nil)
unfolding group_def validate_structured_group find_key
validate_structured_group_sound_example =
    validate_structured_group_sound crates dict default_options (cons entry nil) (some (pos 1)) none
      453 parties refl refl

-- A group that lists itself.
abbrev own : GroupDef
own = record { delimiter = 600; members = 600 ∷ 555 ∷ []; required = []; child = none }

abbrev cyclic : DataDictionary
cyclic = record dict { groups = (555, own) ∷ []; header = 555 ∷ [] }

group_in_itself_lem_example : group_contains_member_transitively 40 cyclic 58 555 ≡ stuck
unfolding group_def find_key contains
group_in_itself_lem_example = group_in_itself_lem cyclic 58 600 555 [] own refl refl refl refl 40

abbrev fix50sp2 : VersionMeta
fix50sp2 = record { major = 5; minor = 0; service_pack = some 2; extension_pack = none }

fix50sp2-IsVersion : IsVersion fix50sp2
unfolding IsVersion IsSmall
fix50sp2-IsVersion = (omega arith, omega arith, omega arith, tt)

parse_fix_begin_string-print_version_example :
    parse_fix_begin_string (print_version fix50sp2) ≡ some fix50sp2
parse_fix_begin_string-print_version_example =
    parse_fix_begin_string-print_version fix50sp2 fix50sp2-IsVersion

abbrev fixt : FixtDictionaries
fixt = record { transport = dict; applications = []; default_appl_ver_id = some (codes "9") }

application_for-with_application_example :
    (application_for (with_application fixt (codes "9") cyclic) (some (codes "7")) ≡ none)
    × (application_for (with_application fixt (codes "9") cyclic) (some []) ≡ some cyclic)
    × (application_for (with_application fixt (codes "9") cyclic) none ≡ some cyclic)
unfolding find_name
application_for-with_application_example =
    application_for-with_application fixt (codes "9") cyclic b'7' []
