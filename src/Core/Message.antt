-- ===== src/Core/Message.antt =====
-- crates/truefix-core/src/message.rs.
pub mod Routing
use truefix.Base.{ℕ, ◌≡◌, Bool, false, Option, none, some, Bytes}
use truefix.Text.Utf8.{from_utf8}
use truefix.Core.Tags
use truefix.Core.FieldMap
use truefix.Core.FieldMap.{FieldMap, Field, end}

pub record Message : Type 0 where
  pub header : FieldMap
  pub body : FieldMap
  pub trailer : FieldMap
  pub fields_out_of_order : Bool

abbrev pub new_message : Message
new_message = record { header = end; body = end; trailer = end; fields_out_of_order = false }

-- `Field::as_str().ok()`.
unfoldable pub text_of : Option Field → Option Bytes
text_of none = none
text_of (some f) = from_utf8 f.value

unfoldable pub begin_string : Message → Option Bytes
unfolding text_of
begin_string m = text_of (FieldMap.get m.header Tags.begin_string)

unfoldable pub msg_type : Message → Option Bytes
unfolding text_of
msg_type m = text_of (FieldMap.get m.header Tags.msg_type)

-- The value of a field that the original has, put under `to`.
put_value : FieldMap → ℕ → Option Field → FieldMap
put_value header to none = header
put_value header to (some f) = FieldMap.set header (record { tag = to; value = f.value })

-- One copy of `reverse_route`.
reverse_one : FieldMap → FieldMap → ℕ → ℕ → FieldMap
unfolding put_value
reverse_one header original from to = put_value header to (FieldMap.get original from)

-- One pair of the loop: `OnBehalfOf…` and `DeliverTo…` change places.
reverse_pair : FieldMap → FieldMap → ℕ → ℕ → FieldMap
unfolding reverse_one
reverse_pair original header on_behalf_of deliver_to =
    reverse_one (reverse_one header original on_behalf_of deliver_to) original deliver_to
      on_behalf_of

unfoldable pub reverse_route : Message → Message → Message
unfolding reverse_pair
reverse_route m original =
    let h1 = reverse_pair original.header m.header 115 128 in
    let h2 = reverse_pair original.header h1 116 129 in
    let h3 = reverse_pair original.header h2 144 145 in record m { header = h3 }
