-- ===== src/Store/Memory/Refinement.antt =====
-- What a message store promises, and that the store in memory keeps it (crates/truefix-store/src).
use truefix.Base.{
  ℕ, ◌+◌, ◌%◌, ◌^◌, ◌≤◌, ◌≡◌, refl, ◌&&◌, List, [], ◌∷◌, Option, none, some, Bytes, leb, ◌==◌,
  if◌then◌else◌, arith, Bool-cases, inl, inr, is_none, not,
}
use truefix.Base.Maps.{BTreeMap, find_key, insert, find_key-insert}
use truefix.Store.Memory.{
  State, default, entries_between, range, set_next_sender_seq, set_next_target_seq, save,
  save_and_advance_sender, reset, contains,
}

-- The operations that change a store.
pub data Operation : Type 0 where
  set_sender : ℕ → Operation
  set_target : ℕ → Operation
  put : ℕ → Bytes → Operation
  put_and_advance : ℕ → Bytes → Operation
  clear : Operation

unfoldable pub apply : State → Operation → State
apply s (set_sender seq) = set_next_sender_seq s seq
apply s (set_target seq) = set_next_target_seq s seq
apply s (put seq message) = save s seq message
apply s (put_and_advance seq message) = save_and_advance_sender s seq message
apply s clear = reset s

unfoldable pub run : State → List Operation → State
unfolding apply
run s [] = s
run s (o ∷ os) = run (apply s o) os

-- The abstract store: the two numbers, and what was saved last under each number.
pub record View : Type 0 where
  pub sender : ℕ
  pub target : ℕ
  pub saved : ℕ → Option Bytes

abbrev pub spec : View → Operation → View
spec v (set_sender seq) = record v { sender = seq }
spec v (set_target seq) = record v { target = seq }
spec v (put seq message) = record v { saved = λ k. if seq == k then some message else v.saved k }
spec v (put_and_advance seq message) = record v {
  sender = (seq + 1) % 2 ^ 64;
  saved = λ k. if seq == k then some message else v.saved k;
}
spec v clear = record { sender = 1; target = 1; saved = λ k. none }

abbrev pub spec_run : View → List Operation → View
spec_run v [] = v
spec_run v (o ∷ os) = spec_run (spec v o) os

-- The keys increase, from a bound on.
abbrev pub Above : ℕ → BTreeMap Bytes → Type 0
Above bound [] = Unit {0}
Above bound ((k, v) ∷ m) = (bound ≤ k) × Above (k + 1) m

-- A state with the entries in order stands for a view.
pub record Represents (s : State) (v : View) : Type 0 where
  pub in_order : Above 0 s.messages
  pub same_sender : s.sender ≡ v.sender
  pub same_target : s.target ≡ v.target
  pub same_saved : (k : ℕ) → find_key s.messages k ≡ v.saved k

Above-insert :
    (m : BTreeMap Bytes) (bound key : ℕ) (value : Bytes)
    → bound ≤ key
    → Above bound m
    → Above bound (insert m key value)
unfolding insert
Above-insert [] bound key value h a = (h, tt)
Above-insert ((k, v) ∷ m) bound key value h (hk, a) =
    ground (arith, Above-insert m (k + 1) key value)

save-Represents :
    (s : State) (v : View) (seq : ℕ) (message : Bytes)
    → Represents s v
    → Represents (save s seq message) (spec v (put seq message))
unfolding save
save-Represents s v seq message r = record {
  in_order = Above-insert s.messages 0 seq message (omega arith) r.in_order;
  same_sender = r.same_sender;
  same_target = r.same_target;
  same_saved = λ k. rw (find_key-insert s.messages seq k message, r.same_saved k);
}

apply-Represents :
    (s : State) (v : View) (o : Operation) → Represents s v → Represents (apply s o) (spec v o)
unfolding apply set_next_sender_seq set_next_target_seq save_and_advance_sender reset
apply-Represents s v (set_sender seq) r = record {
  in_order = r.in_order;
  same_sender = refl;
  same_target = r.same_target;
  same_saved = r.same_saved;
}
apply-Represents s v (set_target seq) r = record {
  in_order = r.in_order;
  same_sender = r.same_sender;
  same_target = refl;
  same_saved = r.same_saved;
}
apply-Represents s v (put seq message) r = save-Represents s v seq message r
apply-Represents s v (put_and_advance seq message) r =
    let r' = save-Represents s v seq message r in
    record {
      in_order = r'.in_order;
      same_sender = refl;
      same_target = r'.same_target;
      same_saved = r'.same_saved;
    }
apply-Represents s v clear r = record {
  in_order = tt;
  same_sender = refl;
  same_target = refl;
  same_saved = λ k. unfold find_key in refl;
}

run-Represents :
    (os : List Operation) (s : State) (v : View)
    → Represents s v
    → Represents (run s os) (spec_run v os)
unfolding run
run-Represents [] s v r = r
run-Represents (o ∷ os) s v r = run-Represents os (apply s o) (spec v o) (apply-Represents s v o r)

abbrev pub fresh : View
fresh = record { sender = 1; target = 1; saved = λ k. none }

Above-weaken : (m : BTreeMap Bytes) (low high : ℕ) → low ≤ high → Above high m → Above low m
Above-weaken [] low high h a = tt
Above-weaken ((k, v) ∷ m) low high h (hk, a) = (omega arith, a)

-- The entries of a range, in order, are those of the map that lie in it.
Above-entries_between :
    (m : BTreeMap Bytes) (bound from to : ℕ)
    → Above bound m
    → Above bound (entries_between m from to)
unfolding entries_between
Above-entries_between [] bound from to a = tt
Above-entries_between ((k, v) ∷ m) bound from to (h, a) =
    elim (Bool-cases (leb from k && leb k to)) [
      | inl e ↦ rw e (h, Above-entries_between m (k + 1) from to a)
      | inr e ↦
          rw e
            (Above-weaken _ bound (k + 1) (omega arith) (Above-entries_between m (k + 1) from to a))
    ]

find_key-entries_between :
    (m : BTreeMap Bytes) (from to key : ℕ)
    → find_key (entries_between m from to) key
      ≡ (if leb from key && leb key to then find_key m key else none)
unfolding find_key entries_between
find_key-entries_between [] from to key = ground arith
find_key-entries_between ((k, v) ∷ m) from to key =
    ground (arith, find_key-entries_between m from to key)

-- After any operations on a fresh store, its numbers and its messages are those of the abstract
-- store: the last number set, and what was saved last under each number since the last reset. A
-- range that does not begin behind its end is answered by the messages in it, by increasing number.
pub run_refines :
    (os : List Operation) (from to : ℕ)
    → from ≤ to
    → ((run default os).sender ≡ (spec_run fresh os).sender)
      × ((run default os).target ≡ (spec_run fresh os).target)
      × ((k : ℕ) → contains (run default os) k ≡ not (is_none ((spec_run fresh os).saved k)))
      × ((found : List (ℕ × Bytes)) × (range (run default os) from to ≡ some found)
          × Above 0 found
          × ((k : ℕ)
              → find_key found k
                ≡ (if leb from k && leb k to then (spec_run fresh os).saved k else none)))
unfolding contains range
run_refines os from to h =
    let r = run-Represents os default fresh started in
    let messages = (run default os).messages in
    (
      r.same_sender,
      r.same_target,
      λ k. rw (r.same_saved k),
      (
        entries_between messages from to,
        ground arith,
        Above-entries_between messages 0 from to r.in_order,
        λ k. rw (find_key-entries_between messages from to k, r.same_saved k),
      ),
    )
  where
    started : Represents default fresh
    started = record {
      in_order = tt;
      same_sender = refl;
      same_target = refl;
      same_saved = λ k. unfold find_key in refl;
    }
