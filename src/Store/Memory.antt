-- ===== src/Store/Memory.antt =====
-- crates/truefix-store/src/memory.rs, with the default methods of the trait `MessageStore` in lib.rs.
-- The lock is not modelled: one operation runs at a time, and no thread that holds it panics.
pub mod Refinement
use truefix.Base.{
  ℕ, zero, suc, ◌+◌, ◌%◌, ◌^◌, ◌≡◌, refl, Bool, true, false, ◌&&◌, List, [], ◌∷◌, Option, none,
  some, Bytes, ltb, leb, if◌then◌else◌, is_none, not,
}
use truefix.Base.Maps.{BTreeMap, find_key, insert}

pub record State : Type 0 where
  pub sender : ℕ
  pub target : ℕ
  pub messages : BTreeMap Bytes

abbrev pub default : State
default = record { sender = 1; target = 1; messages = [] }

-- The entries of `BTreeMap::range(begin..=end)`, by increasing key.
unfoldable pub entries_between : BTreeMap Bytes → ℕ → ℕ → List (ℕ × Bytes)
entries_between [] from to = []
entries_between ((k, v) ∷ m) from to =
    let rest = entries_between m from to in if leb from k && leb k to then (k, v) ∷ rest else rest

-- `State::range`: `none` where `BTreeMap::range` panics, for a range that begins behind its end.
unfoldable pub range : State → ℕ → ℕ → Option (List (ℕ × Bytes))
unfolding entries_between
range s from to = if ltb to from then none else some (entries_between s.messages from to)

abbrev pub next_sender_seq : State → ℕ
next_sender_seq s = s.sender

abbrev pub next_target_seq : State → ℕ
next_target_seq s = s.target

unfoldable pub set_next_sender_seq : State → ℕ → State
set_next_sender_seq s seq = record s { sender = seq }

unfoldable pub set_next_target_seq : State → ℕ → State
set_next_target_seq s seq = record s { target = seq }

unfoldable pub save : State → ℕ → Bytes → State
save s seq message = record s { messages = insert s.messages seq message }

-- The trait's default: `seq + 1` wraps around in a release build.
unfoldable pub save_and_advance_sender : State → ℕ → Bytes → State
unfolding save set_next_sender_seq
save_and_advance_sender s seq message =
    set_next_sender_seq (save s seq message) ((seq + 1) % 2 ^ 64)

unfoldable pub reset : State → State
reset s = default

unfoldable pub contains : State → ℕ → Bool
contains s seq = not (is_none (find_key s.messages seq))
