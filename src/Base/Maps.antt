-- ===== src/Base/Maps.antt =====
-- `BTreeMap` with u64 keys: the list of its entries by increasing key.
use Prim.Native.Nat.{ℕ}
use mathlib.Core.Path.{◌≡◌, refl}
use mathlib.Core.Option.{Option, none, some}
use mathlib.Core.List.{List, [], ◌∷◌}
use native.Mathlib.Omega.{arith}
use truefix.Base.Tests.{ltb, ◌==◌, if◌then◌else◌}

abbrev pub BTreeMap {ℓ} : Type ℓ → Type ℓ
BTreeMap A = List (ℕ × A)

module _ {ℓ} {A : Type ℓ} where
  unfoldable pub find_key : BTreeMap A → ℕ → Option A
  find_key [] key = none
  find_key ((k, v) ∷ m) key = if k == key then some v else find_key m key

  unfoldable pub insert : BTreeMap A → ℕ → A → BTreeMap A
  insert [] key value = (key, value) ∷ []
  insert ((k, v) ∷ m) key value =
      let rest = insert m key value in
      if k == key
      then (key, value) ∷ m
      else if ltb key k
      then (key, value) ∷ (k, v) ∷ m
      else (k, v) ∷ rest

  unfoldable pub remove : BTreeMap A → ℕ → BTreeMap A
  remove [] key = []
  remove ((k, v) ∷ m) key = let rest = remove m key in if k == key then rest else (k, v) ∷ rest

  -- Other keys keep their value.
  pub find_key-insert :
      (m : BTreeMap A) (key other : ℕ) (value : A)
      → find_key (insert m key value) other
        ≡ (if key == other then some value else find_key m other)
  unfolding find_key insert
  find_key-insert [] key other value = refl
  find_key-insert ((k, v) ∷ m) key other value = ground (arith, find_key-insert m key other value)

  pub find_key-remove :
      (m : BTreeMap A) (key other : ℕ)
      → find_key (remove m key) other ≡ (if key == other then none else find_key m other)
  unfolding find_key remove
  find_key-remove [] key other = ground arith
  find_key-remove ((k, v) ∷ m) key other = ground (arith, find_key-remove m key other)
