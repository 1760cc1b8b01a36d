-- ===== src/Store/Examples.antt =====
-- The store in memory at a concrete run (crates/truefix-store/src).
use truefix.Base.{
  ℕ, ◌≡◌, refl, ◌&&◌, List, [], ◌∷◌, none, some, Bytes, codes, leb, if◌then◌else◌, is_none, not,
  arith,
}
use truefix.Base.Maps.{find_key, insert}
use truefix.Store.Memory.{
  default, range, save, contains, set_next_target_seq, save_and_advance_sender, reset,
}
use truefix.Store.Memory.Refinement.{
  Operation, set_target, put, put_and_advance, clear, run, spec_run, fresh, Above, run_refines,
}

abbrev session : List Operation
session =
    put 9 (codes "old")
    ∷ clear
    ∷ put_and_advance 1 (codes "A")
    ∷ put_and_advance 2 (codes "B")
    ∷ set_target 5
    ∷ put 1 (codes "C")
    ∷ []

-- A range that begins behind its end is where `BTreeMap::range` panics.
backwards : range default 2 1 ≡ none
unfolding range
backwards = refl

both : range (run default session) 1 9 ≡ some ((1, codes "C") ∷ (2, codes "B") ∷ [])
unfolding range run insert save set_next_target_seq save_and_advance_sender reset
both = refl

run_refines_example :
    ((run default session).sender ≡ 3)
    × ((run default session).target ≡ 5)
    × ((k : ℕ)
        → contains (run default session) k ≡ not (is_none ((spec_run fresh session).saved k)))
    × ((found : List (ℕ × Bytes)) × (range (run default session) 2 9 ≡ some found)
        × Above 0 found
        × ((k : ℕ)
            → find_key found k
              ≡ (if leb 2 k && leb k 9 then (spec_run fresh session).saved k else none)))
run_refines_example = run_refines session 2 9 (omega arith)
