-- ===== src/Dict/Fixt.antt =====
-- crates/truefix-dict/src/fixt.rs: the dictionaries of a FIXT session.
pub mod Laws
use truefix.Base.{
  ◌≡◌, refl, List, [], ◌∷◌, Option, none, some, Bytes, same_bytes, and_then, if◌then◌else◌,
}
use truefix.Dict.Model.{DataDictionary, StringMap, find_name}

pub record FixtDictionaries : Type 0 where
  pub transport : DataDictionary
  pub applications : StringMap DataDictionary
  pub default_appl_ver_id : Option Bytes

unfoldable pub new_dictionaries : DataDictionary → FixtDictionaries
new_dictionaries transport = record {
  transport = transport;
  applications = [];
  default_appl_ver_id = none;
}

-- `BTreeMap::insert` of a string key.
unfoldable pub insert_name {ℓ} : {A : Type ℓ} → StringMap A → Bytes → A → StringMap A
insert_name [] key value = (key, value) ∷ []
insert_name ((k, v) ∷ m) key value =
    let rest = insert_name m key value in
    if same_bytes k key then (key, value) ∷ m else (k, v) ∷ rest

unfoldable pub with_application : FixtDictionaries → Bytes → DataDictionary → FixtDictionaries
unfolding insert_name
with_application self appl_ver_id dict = record self {
  applications = insert_name self.applications appl_ver_id dict;
}

unfoldable pub with_default_appl_ver_id : FixtDictionaries → Bytes → FixtDictionaries
with_default_appl_ver_id self appl_ver_id = record self { default_appl_ver_id = some appl_ver_id }

-- An explicit id that is not empty.
unfoldable pub explicit : Option Bytes → Option Bytes
explicit (some (b ∷ bs)) = some (b ∷ bs)
explicit _ = none

unfoldable pub application_key : Option Bytes → Option Bytes → Option Bytes
unfolding explicit
application_key appl_ver_id default_id = elim (explicit appl_ver_id) [
  | some id ↦ some id
  | none ↦ default_id
]

unfoldable pub application_for : FixtDictionaries → Option Bytes → Option DataDictionary
unfolding application_key find_name
application_for self appl_ver_id =
    and_then (application_key appl_ver_id self.default_appl_ver_id) (find_name self.applications)
