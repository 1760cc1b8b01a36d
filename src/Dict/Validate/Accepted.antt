-- ===== src/Dict/Validate/Accepted.antt =====
-- Which messages `validate` accepts, said without the order of its checks.
use truefix.Base.{ℕ, ◌≡◌, true, false, [], ◌∷◌, some, Bytes, ok, All, codes}
use truefix.Core.FieldMap.{Field, get}
use truefix.Core.Message.{Message}
use truefix.Core.Times.{Crates}
use truefix.Dict.Model.{DataDictionary, GroupDef, MessageDef, ValidationOptions, message_def}
use truefix.Dict.Validate.{check_structured, check_flat, all_fields}
use truefix.Dict.Passes.{Passes}
use truefix.Dict.Validate.EachField.{IsGoodField}
use truefix.Dict.Validate.Described.{HasText, IsOfVersion, IsPresent}
use truefix.Dict.Validate.Unskipped.{IsChecked, NoneTwice}

-- The message type that stands in the message has a definition.
unfoldable pub HasDefinition : DataDictionary → Message → MessageDef → Type 0
unfolding HasText
HasDefinition self m mdef = (text : Bytes) × HasText m 35 text × (message_def self text ≡ some mdef)

-- The required tags of the message are there, and BeginString, BodyLength, MsgType and CheckSum,
-- where that is asked for.
unfoldable pub HasRequired : ValidationOptions → MessageDef → Message → Type 0
unfolding IsPresent
HasRequired opts mdef m =
    All (IsPresent m) mdef.required
    × (opts.check_required_envelope_fields ≡ true
        → All (IsPresent m) (8 ∷ 9 ∷ 35 ∷ []) × All (IsPresent m) (10 ∷ []))

-- A message that is marked as a possible duplicate is allowed to be one, and has its
-- OrigSendingTime, where that is asked for.
unfoldable pub IsAllowedPossDup : ValidationOptions → Message → Type 0
unfolding HasText
IsAllowedPossDup opts m =
    HasText m 43 (codes "Y")
    → (opts.allow_pos_dup ≡ true)
      × (opts.requires_orig_sending_time ≡ true → (f : Field) × (get m.header 122 ≡ some f))

module _ (crates : Crates) (self : DataDictionary) (opts : ValidationOptions) where
  -- For each group of the dictionary, the one that the decoder has put together in the header and the
  -- one in the body pass, and so do the fields that stand flat in both.
  unfoldable pub GroupsPass : Message → Type 0
  unfolding check_structured check_flat
  GroupsPass m =
      All
        (λ (g : ℕ × GroupDef).
          (check_structured crates self opts m.header g.0 ≡ ok tt)
          × (check_structured crates self opts m.body g.0 ≡ ok tt))
        self.groups
      × ((check_flat crates self opts m.header ≡ ok tt)
          × (check_flat crates self opts m.body ≡ ok tt))

  -- A message that fits its definition.
  unfoldable pub Fits : MessageDef → Message → Type 0
  Fits mdef m =
      (All (λ f. IsChecked crates self opts f.tag → IsGoodField crates self opts mdef f)
          (all_fields m)
        × NoneTwice crates self opts mdef (all_fields m))
      × ((opts.check_groups ≡ true → GroupsPass m)
          × (opts.check_required_fields ≡ true → HasRequired opts mdef m))

  -- A message of the dictionary's version, in order and no forbidden duplicate, that fits the
  -- definition of its type.
  unfoldable pub Accepts : Message → Type 0
  Accepts m =
      IsOfVersion self m
      × ((opts.validate_fields_out_of_order ≡ true → m.fields_out_of_order ≡ false)
          × (IsAllowedPossDup opts m
              × ((mdef : MessageDef) × HasDefinition self m mdef × Fits mdef m)))
