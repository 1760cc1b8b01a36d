-- ===== src/Core/Message/Routing.antt =====
-- `Message::reverse_route` of message.rs.
use truefix.Base.{ℕ, ◌≡◌, ◌≢◌, Option, none, some, Bytes, ◌==◌, if◌then◌else◌, arith}
use truefix.Core.FieldMap
use truefix.Core.FieldMap.{FieldMap, Field}
use truefix.Core.FieldMap.Laws.{get-set}
use truefix.Core.Message.{Message, reverse_route, reverse_pair, reverse_one, put_value}

abbrev pub field_value : Option Field → Option Bytes
field_value none = none
field_value (some f) = some f.value

-- The value bytes under a tag.
abbrev pub value_of : FieldMap → ℕ → Option Bytes
value_of ms t = field_value (FieldMap.get ms t)

-- The tag whose value `reverse_route` copies to a routing tag.
abbrev pub counterpart : ℕ → Option ℕ
counterpart t =
    if t == 115
    then some 128
    else if t == 128
    then some 115
    else if t == 116
    then some 129
    else if t == 129
    then some 116
    else if t == 144
    then some 145
    else if t == 145
    then some 144
    else none

abbrev pub or_else : Option Bytes → Option Bytes → Option Bytes
or_else none d = d
or_else (some b) d = some b

put_value_lem :
    (h : FieldMap) (o : Option Field) (to t : ℕ)
    → value_of (put_value h to o) t
      ≡ (if to == t then or_else (field_value o) (value_of h t) else value_of h t)
unfolding put_value
put_value_lem h none to t = ground arith
put_value_lem h (some f) to t = ground (arith, get-set h (record { tag = to; value = f.value }) t)

reverse_one_lem :
    (h o : FieldMap) (from to t : ℕ)
    → value_of (reverse_one h o from to) t
      ≡ (if to == t then or_else (value_of o from) (value_of h t) else value_of h t)
unfolding reverse_one
reverse_one_lem h o from to t = unfold reverse_one in put_value_lem h (FieldMap.get o from) to t

reverse_pair_lem :
    (o h : FieldMap) (a b t : ℕ)
    → a ≢ b
    → value_of (reverse_pair o h a b) t ≡ (
        if a == t
        then or_else (value_of o b) (value_of h t)
        else if b == t
        then or_else (value_of o a) (value_of h t)
        else value_of h t)
unfolding reverse_pair
reverse_pair_lem o h a b t ne =
    unfold reverse_pair in
    ground (arith, reverse_one_lem (reverse_one h o a b) o b a t, reverse_one_lem h o a b t)

-- Every header tag after `reverse_route`: the six routing tags take the value of their counterpart
-- in the original, where it has one, and all else is as it was.
pub reverse_route_lem :
    (m original : Message) (t : ℕ)
    → value_of (reverse_route m original).header t ≡ (elim (counterpart t) [
      | none ↦ value_of m.header t
      | some u ↦ or_else (value_of original.header u) (value_of m.header t)
    ])
unfolding reverse_route
reverse_route_lem m original t =
    let o = original.header in
    let h1 = reverse_pair o m.header 115 128 in
    let h2 = reverse_pair o h1 116 129 in
    ground (
      arith,
      reverse_pair_lem o h2 144 145 t,
      reverse_pair_lem o h1 116 129 t,
      reverse_pair_lem o m.header 115 128 t,
    )
