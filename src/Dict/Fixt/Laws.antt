-- ===== src/Dict/Fixt/Laws.antt =====
-- What the choice of an application dictionary gives after a registration.
use truefix.Base.{
  ◌≡◌, refl, Bool, true, false, [], ◌∷◌, Option, none, some, Bytes, same_bytes, and_then, ℕ,
  if◌then◌else◌, Bool-cases, inl, inr,
}
use truefix.Dict.Model.{DataDictionary, StringMap, find_name}
use truefix.Dict.Holds.{same_bytes-eq, same_bytes_refl}
use truefix.Dict.Fixt.{
  FixtDictionaries, insert_name, with_application, application_for, application_key, explicit,
}

differ : {k key other : Bytes} → same_bytes k key ≡ false → k ≡ other → key ≡ other → ⊥
differ {k} {key} {other} apart e f = cc (same_bytes_refl k, apart, e, f)

and_then-congr {ℓ κ} :
    {A : Type ℓ} {B : Type κ} (o : Option A) (f g : A → Option B)
    → ((a : A) → f a ≡ g a)
    → and_then o f ≡ and_then o g
and_then-congr none f g h = refl
and_then-congr (some a) f g h = h a

find_name-insert_name {ℓ} :
    {A : Type ℓ} (m : StringMap A) (key other : Bytes) (value : A)
    → find_name (insert_name m key value) other
      ≡ (if same_bytes key other then some value else find_name m other)
unfolding find_name insert_name
find_name-insert_name [] key other value = refl
find_name-insert_name ((k, v) ∷ m) key other value = elim (Bool-cases (same_bytes k key)) [
  | inl same ↦
      rw (same, same_bytes-eq k key same) (twice (same_bytes key other) (some value) (some v) _)
  | inr apart ↦ elim (Bool-cases (same_bytes k other)) [
    | inr e ↦ rw (apart, e, find_name-insert_name m key other value) refl
    | inl e ↦ elim (Bool-cases (same_bytes key other)) [
      | inr f ↦ rw (apart, e, f) refl
      | inl f ↦ absurd (differ apart (same_bytes-eq k other e) (same_bytes-eq key other f))
    ]
  ]
]
  where
    twice :
        {B : Type ℓ} (b : Bool) (x y z : B)
        → (if b then x else z) ≡ (if b then x else (if b then y else z))
    twice true x y z = refl
    twice false x y z = refl

module _ (self : FixtDictionaries) (appl_ver_id : Bytes) (dict : DataDictionary) where
  -- What is registered under an id behind the registration.
  abbrev pub registered : Bytes → Option DataDictionary
  registered key = if same_bytes appl_ver_id key then some dict else find_name self.applications key

  -- After the registration of a dictionary under an id, a message with a non-empty ApplVerID gets
  -- what is registered under that ApplVerID, and one whose ApplVerID is missing or empty what is
  -- registered under the default, or nothing where there is no default. Registered is the new
  -- dictionary under its id, and under every other id what was registered there before.
  pub application_for-with_application :
      (b : ℕ) (bs : Bytes)
      → (application_for (with_application self appl_ver_id dict) (some (b ∷ bs))
          ≡ registered (b ∷ bs))
        × (application_for (with_application self appl_ver_id dict) (some [])
            ≡ and_then self.default_appl_ver_id registered)
        × (application_for (with_application self appl_ver_id dict) none
            ≡ and_then self.default_appl_ver_id registered)
  unfolding application_for with_application application_key explicit
  application_for-with_application b bs =
      (find_name-insert_name self.applications appl_ver_id (b ∷ bs) dict, default_lem, default_lem)
    where
      default_lem :
          and_then self.default_appl_ver_id
            (find_name (insert_name self.applications appl_ver_id dict))
          ≡ and_then self.default_appl_ver_id registered
      default_lem =
          and_then-congr self.default_appl_ver_id _ _
            λ key. find_name-insert_name self.applications appl_ver_id key dict
