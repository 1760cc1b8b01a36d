-- ===== src/Dict/Fields.antt =====
-- The checks of one field's value, of crates/truefix-dict/src/validate.rs: `is_legacy_char_lenient`,
-- `check_group_field_value`, and the value tests that it shares with `validate`.
use truefix.Base.{
  ℕ, ◌≡◌, refl, Bool, true, false, not, ◌&&◌, [], ◌∷◌, Option, none, some, and_then, leb, ◌==◌,
  Result, ok, ◌>>◌, fail_if,
}
use truefix.Base.Maps.{find_key}
use truefix.Core.FieldMap.{Field}
use truefix.Core.Times.{Crates, as_str}
use truefix.Dict.Model.{
  DataDictionary, GroupDef, FieldDef, ValidationOptions, ValidationError, field_def, session,
  incorrect_data_format, value_is_incorrect, tag_specified_without_value,
}
use truefix.Dict.Values.{value_ok, allows, ok_and}
use truefix.Dict.Version.{parse_fix_begin_string}

-- The outcome of a check.
abbrev pub Checked : Type 0
Checked = Result (Unit {0}) ValidationError

-- FIX.4.0 and FIX.4.1 take any text for a CHAR.
unfoldable pub is_legacy_char_lenient : DataDictionary → Bool
unfolding parse_fix_begin_string ok_and
is_legacy_char_lenient self =
    ok_and (parse_fix_begin_string self.version) λ v. v.major == 4 && leb v.minor 1

unfoldable pub has_no_value : Field → Bool
has_no_value f = elim (f.value) [ [] ↦ true | b ∷ bs ↦ false ]

-- A text that its enumeration does not list; a value that is no text is not looked up.
unfoldable pub is_not_listed : FieldDef → Field → Bool
unfolding as_str ok_and allows
is_not_listed def f = ok_and (as_str f) λ value. not (allows def value)

-- The type and the enumeration of a value.
unfoldable pub check_value : Crates → DataDictionary → FieldDef → Field → Checked
unfolding value_ok is_legacy_char_lenient is_not_listed
check_value crates self def f =
    fail_if (not (value_ok crates def.field_type f (is_legacy_char_lenient self)))
      (session incorrect_data_format (some f.tag))
    >> fail_if (is_not_listed def f) (session value_is_incorrect (some f.tag))

-- The definition of a group's field: the group's child dictionary is asked first.
unfoldable pub group_field_def : DataDictionary → GroupDef → ℕ → Option FieldDef
unfolding field_def
group_field_def self gdef tag = elim (and_then gdef.child λ fields. find_key fields tag) [
  | some def ↦ some def
  | none ↦ field_def self tag
]

unfoldable pub check_group_field_value :
    Crates → DataDictionary → ValidationOptions → GroupDef → Field → Checked
unfolding has_no_value group_field_def check_value
check_group_field_value crates self opts gdef f = do
  fail_if (opts.validate_fields_have_values && has_no_value f)
      (session tag_specified_without_value (some f.tag))
  elim (opts.check_field_types) [
    | false ↦ ok tt
    | true ↦ elim (group_field_def self gdef f.tag) [
      | none ↦ ok tt
      | some def ↦ check_value crates self def f
    ]
  ]

-- Case rules for a predicate of an outcome: on a test, and on an option.
pub test_rule {ℓ κ} :
    {A : Type ℓ} (P : A → Type κ) (test : Bool) (x y : A)
    → (test ≡ true → P x)
    → (test ≡ false → P y)
    → P (elim test [ true ↦ x | false ↦ y ])
test_rule P true x y hx hy = hx refl
test_rule P false x y hx hy = hy refl

pub option_rule {ℓ κ μ} :
    {A : Type ℓ} {B : Type μ} (P : A → Type κ) (o : Option B) (x : A) (y : B → A)
    → (o ≡ none → P x)
    → ((b : B) → o ≡ some b → P (y b))
    → P (elim o [ none ↦ x | some b ↦ y b ])
option_rule P none x y hx hy = hx refl
option_rule P (some b) x y hx hy = hy b refl
