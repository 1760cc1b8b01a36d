-- ===== src/Dict/Validate/Total.antt =====
-- `validate` always returns when no group of the dictionary contains itself, and which of its
-- failures are business-level rejects.
use truefix.Base.{
  ℕ, ◌≢◌, List, [], ◌∷◌, none, some, length, ◌&&◌, not, ok, err, stuck, ◌≡◌, true, fail_if,
  contains, arith,
}
use truefix.Base.Maps.{BTreeMap}
use truefix.Core.FieldMap.{FieldMap, Field, fields}
use truefix.Core.Message.{Message}
use truefix.Core.Times.{Crates}
use truefix.Dict.Model.{
  DataDictionary, FieldDef, GroupDef, MessageDef, ValidationOptions, ValidationError, field_def,
  header_required_tags, trailer_required_tags, session, invalid_tag_number, value_is_incorrect,
  tag_out_of_required_order,
}
use truefix.Dict.Header.{is_header}
use truefix.Dict.Header.Ranked.{HasRank, is_header-Returns}
use truefix.Dict.Outcome.{
  ok-Returns, bind-Returns, Returns, guard-Returns, then-Returns, fail_if-Returns,
}
use truefix.Dict.Fields.{test_rule, option_rule}
use truefix.Dict.Structured.{find_structured_group_with_next}
use truefix.Dict.Structured.Total.{check_value-Returns, validate_structured_group-Returns}
use truefix.Dict.Flat.Total.{validate_flat_groups-Returns}
use truefix.Dict.Validate.Layers.{
  Layered, IsUnknownType, guard-Layered, then-Layered, typed-Layered, Returns-Layered,
  Layered-ne-stuck, Layered-err,
}
use truefix.Dict.Validate.{
  belongs, check_defined, check_field, check_fields, check_structured, check_all_structured,
  check_flat, validate_groups, check_required, check_all_required, check_poss_dup, is_poss_dup,
  validate_against, validate_message, validate, is_skipped, is_envelope, all_fields, is_counted,
  is_bare, seen_after, version_differs,
}

check_required-Returns : (m : Message) (tags : List ℕ) → Returns (check_required m tags)
unfolding check_required
check_required-Returns m [] = ok-Returns tt
check_required-Returns m (tag ∷ tags) = guard-Returns _ _ _ _ (check_required-Returns m tags)

check_all_required-Returns :
    (opts : ValidationOptions) (mdef : MessageDef) (m : Message)
    → Returns (check_all_required opts mdef m)
unfolding check_all_required
check_all_required-Returns opts mdef m =
    test_rule Returns (opts.check_required_fields) _ _
      (λ _. then-Returns _ _ (check_required-Returns m mdef.required) (
        test_rule Returns (opts.check_required_envelope_fields) _ _
          (λ _.
            then-Returns _ _ (check_required-Returns m header_required_tags)
              (check_required-Returns m trailer_required_tags))
          λ _. ok-Returns tt))
      λ _. ok-Returns tt

check_poss_dup-Returns : (opts : ValidationOptions) (m : Message) → Returns (check_poss_dup opts m)
unfolding check_poss_dup
check_poss_dup-Returns opts m =
    test_rule Returns (is_poss_dup m) _ _ (λ _. guard-Returns _ _ _ _ (fail_if-Returns _ _ _))
      λ _. ok-Returns tt

module _ (crates : Crates) (self : DataDictionary) (opts : ValidationOptions) where
  check_structured-Returns :
      (section : FieldMap) (tag : ℕ) → Returns (check_structured crates self opts section tag)
  unfolding check_structured
  check_structured-Returns section tag =
      option_rule Returns (find_structured_group_with_next section tag) _ _ (λ _. ok-Returns tt)
        λ (es, declared, next) _.
          validate_structured_group-Returns crates self opts es declared next tag

  check_all_structured-Returns :
      (m : Message) (gs : BTreeMap GroupDef) → Returns (check_all_structured crates self opts m gs)
  unfolding check_all_structured
  check_all_structured-Returns m [] = ok-Returns tt
  check_all_structured-Returns m ((tag, g) ∷ gs) =
      then-Returns _ _ (check_structured-Returns m.header tag)
        (then-Returns _ _ (check_structured-Returns m.body tag) (check_all_structured-Returns m gs))

  check_flat-Returns : (section : FieldMap) → Returns (check_flat crates self opts section)
  unfolding check_flat
  check_flat-Returns section =
      validate_flat_groups-Returns crates self opts (length (fields section)) (fields section)
        (omega arith)

  validate_groups-Returns : (m : Message) → Returns (validate_groups crates self opts m)
  unfolding validate_groups
  validate_groups-Returns m =
      then-Returns _ _ (check_all_structured-Returns m self.groups)
        (then-Returns _ _ (check_flat-Returns m.header) (check_flat-Returns m.body))

  module _ (rank : ℕ → ℕ) (ranked : (c : ℕ) → HasRank self rank c) where
    belongs-Returns : (mdef : MessageDef) (tag : ℕ) → Returns (belongs crates self opts mdef tag)
    unfolding belongs
    belongs-Returns mdef tag =
        bind-Returns (is_header self tag) _ (is_header-Returns self rank ranked tag)
          λ in_header. test_rule Returns in_header _ _ (λ _. ok-Returns _) λ _. ok-Returns _

    check_defined-Returns :
        (mdef : MessageDef) (def : FieldDef) (f : Field)
        → Returns (check_defined crates self opts mdef def f)
    unfolding check_defined
    check_defined-Returns mdef def f =
        then-Returns _ _
          (test_rule Returns (opts.check_field_types && not (is_envelope f.tag)) _ _
            (λ _. check_value-Returns crates self def f) λ _. ok-Returns tt)
          (bind-Returns _ _ (belongs-Returns mdef f.tag) λ b. fail_if-Returns _ _ _)

    check_field-Returns :
        (mdef : MessageDef) (seen : List ℕ) (f : Field)
        → Returns (check_field crates self opts mdef seen f)
    unfolding check_field
    check_field-Returns mdef seen f =
        guard-Returns (is_counted opts mdef f.tag && contains seen f.tag) _ _ _ (
          guard-Returns (is_bare opts f) _ _ _ (
            option_rule Returns (field_def self f.tag)
              (fail_if (not opts.allow_unknown_msg_fields)
                (session invalid_tag_number (some f.tag)))
              _ (λ _. fail_if-Returns (not opts.allow_unknown_msg_fields) _ _)
              λ def _. check_defined-Returns mdef def f))

    check_fields-Returns :
        (mdef : MessageDef) (seen : List ℕ) (fs : List Field)
        → Returns (check_fields crates self opts mdef seen fs)
    unfolding check_fields
    check_fields-Returns mdef seen [] = ok-Returns tt
    check_fields-Returns mdef seen (f ∷ fs) =
        test_rule Returns (is_skipped opts f.tag) _ _ (λ _. check_fields-Returns mdef seen fs)
          λ _.
            then-Returns _ _ (check_field-Returns mdef seen f)
              (check_fields-Returns mdef (seen_after opts mdef seen f.tag) fs)

    validate_against-Returns :
        (m : Message) (mdef : MessageDef) → Returns (validate_against crates self opts m mdef)
    unfolding validate_against
    validate_against-Returns m mdef =
        then-Returns _ _ (check_fields-Returns mdef [] (all_fields m)) (
          then-Returns _ _
            (test_rule Returns (opts.check_groups) _ _ (λ _. validate_groups-Returns m)
              λ _. ok-Returns tt)
            (check_all_required-Returns opts mdef m))

    validate_message-Layered : (m : Message) → Layered self m (validate_message crates self opts m)
    unfolding validate_message
    validate_message-Layered m =
        guard-Layered self m (version_differs self m) value_is_incorrect (some 8) _ (
          guard-Layered self m (opts.validate_fields_out_of_order && m.fields_out_of_order)
            tag_out_of_required_order none _
            (then-Layered self m (check_poss_dup opts m) _ (check_poss_dup-Returns opts m) (
              typed-Layered self m (validate_against crates self opts m)
                λ mdef. validate_against-Returns m mdef)))

    validate-Layered : (m : Message) → Layered self m (validate crates self opts m)
    unfolding validate
    validate-Layered m =
        test_rule (Layered self m) (opts.validate_incoming_message) _ _
          (λ _. validate_message-Layered m) λ _. Returns-Layered self m (ok tt) (ok-Returns tt)

    -- For a dictionary whose groups can be ranked so that a group's rank is above the ranks of the
    -- groups in it and below the number of groups, the validation of any message, under any options,
    -- ends in `Ok` or in an error.
    pub validate-ne-stuck : (m : Message) → validate crates self opts m ≢ stuck
    validate-ne-stuck m = Layered-ne-stuck self m (validate crates self opts m) (validate-Layered m)

    -- For a dictionary whose groups can be ranked so that a group's rank is above the ranks of the
    -- groups in it and below the number of groups: if `validate` fails with a business-level reject,
    -- the message has a message type that the dictionary does not define, and the failure is
    -- InvalidMsgType at tag 35. All other failures are session-level rejects.
    pub business_reject_lem :
        (m : Message) (e : ValidationError)
        → validate crates self opts m ≡ err e
        → e.business ≡ true
        → IsUnknownType self m e
    business_reject_lem m e failed =
        Layered-err self m (validate crates self opts m) e (validate-Layered m) failed
