-- ===== src/Dict/Validate/Layers.antt =====
-- The two layers of rejects: which failures of `validate` are business-level ones.
use truefix.Base.{
  ◌≡◌, ◌≢◌, refl, Bool, true, false, Option, none, some, Bytes, ℕ, ok, err, stuck, ◌>>=◌, ◌>>◌,
  fail_if, ok_or, subst,
}
use truefix.Core.Message.{Message, msg_type}
use truefix.Dict.Model.{
  DataDictionary, MessageDef, RejectReason, ValidationError, message_def, session, business,
  invalid_msg_type,
}
use truefix.Dict.Fields.{Checked}
use truefix.Dict.Outcome.{Returns, Ends}

-- The message type of the message stands in it and has no definition, and the error says so.
unfoldable pub IsUnknownType : DataDictionary → Message → ValidationError → Type 0
IsUnknownType self m e =
    (e ≡ business invalid_msg_type (some 35))
    × ((text : Bytes) × (msg_type m ≡ some text) × (message_def self text ≡ none))

-- The validation ended, and a business-level failure is one of the message type.
pub Layered : DataDictionary → Message → Checked → Type 0
Layered self m stuck = ⊥
Layered self m (err e) = e.business ≡ true → IsUnknownType self m e
Layered self m (ok u) = Unit

module _ (self : DataDictionary) (m : Message) where
  pub Returns-Layered : (r : Checked) → Returns r → Layered self m r
  unfolding Layered Returns Ends
  Returns-Layered stuck h = h
  Returns-Layered (err e) h = λ b. absurd (differ h b)
    where
      differ : {b : Bool} → b ≡ false → b ≡ true → ⊥
      differ f t = cc
  Returns-Layered (ok u) h = tt

  pub Layered-ne-stuck : (r : Checked) → Layered self m r → r ≢ stuck
  unfolding Layered
  Layered-ne-stuck stuck h e = h
  Layered-ne-stuck (err f) h e = cc
  Layered-ne-stuck (ok u) h e = cc

  pub Layered-err :
      (r : Checked) (e : ValidationError)
      → Layered self m r
      → r ≡ err e
      → e.business ≡ true
      → IsUnknownType self m e
  unfolding Layered
  Layered-err stuck e h same = cc
  Layered-err (err f) e h same =
      subst (λ g. g.business ≡ true → IsUnknownType self m g) (inner same) h
    where
      inner : ◌≡◌ {A = Checked} (err f) (err e) → f ≡ e
      inner same = cc
  Layered-err (ok u) e h same = cc

  pub then-Layered :
      (first next : Checked) → Returns first → Layered self m next → Layered self m (first >> next)
  unfolding Layered Returns Ends
  then-Layered stuck next h k = h
  then-Layered (err e) next h k = Returns-Layered (err e) h
  then-Layered (ok u) next h k = k

  pub guard-Layered :
      (b : Bool) (reason : RejectReason) (tag : Option ℕ) (next : Checked)
      → Layered self m next
      → Layered self m (fail_if b (session reason tag) >> next)
  unfolding Returns Ends
  guard-Layered true reason tag next h = Returns-Layered (err (session reason tag)) refl
  guard-Layered false reason tag next h = h

  -- The look-up of a definition, and the checks behind it.
  defined-Layered :
      (text : Bytes) (o : Option MessageDef) (next : MessageDef → Checked)
      → msg_type m ≡ some text
      → message_def self text ≡ o
      → ((mdef : MessageDef) → Returns (next mdef))
      → Layered self m (ok_or o (business invalid_msg_type (some 35)) >>= next)
  unfolding Layered IsUnknownType
  defined-Layered text none next stands absent h = λ _. (refl, (text, stands, absent))
  defined-Layered text (some mdef) next stands found h = Returns-Layered (next mdef) (h mdef)

  named-Layered :
      (o : Option Bytes) (next : MessageDef → Checked)
      → msg_type m ≡ o
      → ((mdef : MessageDef) → Returns (next mdef))
      → Layered self m (
          ok_or o (session invalid_msg_type (some 35)) >>= λ text.
          ok_or (message_def self text) (business invalid_msg_type (some 35)) >>= next)
  unfolding Returns Ends
  named-Layered none next absent h = Returns-Layered (err (session invalid_msg_type (some 35))) refl
  named-Layered (some text) next stands h =
      defined-Layered text (message_def self text) next stands refl h

  -- The checks behind the look-up of the message type.
  pub typed-Layered :
      (next : MessageDef → Checked)
      → ((mdef : MessageDef) → Returns (next mdef))
      → Layered self m (
          ok_or (msg_type m) (session invalid_msg_type (some 35)) >>= λ text.
          ok_or (message_def self text) (business invalid_msg_type (some 35)) >>= next)
  typed-Layered next h = named-Layered (msg_type m) next refl h
