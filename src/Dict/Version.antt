-- ===== src/Dict/Version.antt =====
-- `parse_fix_begin_string` and `parse_version_suffix` of crates/truefix-dict/src/validate.rs.
pub mod RoundTrip
use truefix.Base.{
  ℕ, ◌≡◌, refl, Bool, true, false, ◌&&◌, List, [], ◌∷◌, ◌++◌, Option, none, some, Bytes, codes,
  and_then, leb, ◌==◌, if◌then◌else◌,
}
use truefix.Text.Decimal.{is_digit}
use truefix.Core.Framing.{strip_prefix}
use truefix.Core.Times.{split_once, parse_u8}
use truefix.Dict.Model.{VersionMeta}

infixl 5 ◌>>=◌
-- `?` on an option.
abbrev ◌>>=◌ {ℓ κ} : {A : Type ℓ} {B : Type κ} → Option A → (A → Option B) → Option B
◌>>=◌ = and_then

-- The digits in front of a text, and the rest: `take_while(u8::is_ascii_digit)` with the two slices.
unfoldable pub span_digits : Bytes → Bytes × Bytes
unfolding is_digit
span_digits [] = ([], [])
span_digits (b ∷ bs) =
    let (front, back) = span_digits bs in if is_digit b then (b ∷ front, back) else ([], b ∷ bs)

-- A marker with its number, when the marker stands in front; and what is left of the suffix.
unfoldable pub parse_version_suffix : Bytes → Bytes → Option (Option ℕ × Bytes)
unfolding strip_prefix span_digits parse_u8
parse_version_suffix suffix marker = elim (strip_prefix marker suffix) [
  | none ↦ some (none, suffix)
  | some rest ↦ do
    let (digits, left) = span_digits rest
    value ← parse_u8 digits
    some (some value, left)
]

-- Nothing may follow the last part.
unfoldable pub finish : VersionMeta → Bytes → Option VersionMeta
finish meta [] = some meta
finish meta (b ∷ bs) = none

-- `FIX.<major>.<minor>[SP<n>][EP<n>]`.
unfoldable pub parse_fix_begin_string : Bytes → Option VersionMeta
unfolding strip_prefix split_once span_digits parse_u8 parse_version_suffix finish
parse_fix_begin_string bs = do
  rest ← strip_prefix (codes "FIX.") bs
  (major_text, minor_token) ← split_once rest b'.'
  major ← parse_u8 major_text
  let (minor_text, suffix) = span_digits minor_token
  minor ← parse_u8 minor_text
  (service_pack, suffix') ← parse_version_suffix suffix (codes "SP")
  (extension_pack, suffix'') ← parse_version_suffix suffix' (codes "EP")
  finish
      (record {
        major = major;
        minor = minor;
        service_pack = service_pack;
        extension_pack = extension_pack;
      })
      suffix''
