-- ===== src/Dict/Version/RoundTrip.antt =====
-- A version printed as a BeginString is read back.
use truefix.Base.{
  ℕ, ◌<◌, ◌≡◌, refl, Bool, true, false, not, ◌&&◌, [], ◌∷◌, ◌++◌, Option, none, some, Bytes, codes,
  ◌==◌, every_below, every_below_lem, arith, append-nil, subst, ap,
}
use truefix.Text.Decimal.{is_digit, to_string}
use truefix.Core.Framing.{strip_prefix}
use truefix.Core.Decode.{all_digits}
use truefix.Core.Times.{split_once, parse_u8}
use truefix.Dict.Model.{VersionMeta}
use truefix.Dict.Version.{span_digits, parse_version_suffix, finish, parse_fix_begin_string}

is_back : Option ℕ → ℕ → Bool
is_back none n = false
is_back (some m) n = m == n

is_back-eq : (o : Option ℕ) (n : ℕ) → is_back o n ≡ true → o ≡ some n
unfolding is_back
is_back-eq none n h = cc
is_back-eq (some m) n h = ap some (ground arith)

both : (a b : Bool) → (a && b) ≡ true → (a ≡ true) × (b ≡ true)
both true b h = (refl, h)
both false b h = cc

-- A number that parses back, of digits alone.
reads_back : ℕ → Bool
reads_back n = all_digits (to_string n) && is_back (parse_u8 (to_string n)) n

small_numbers : every_below reads_back 256 ≡ true
unfolding every_below reads_back is_back to_string all_digits parse_u8
small_numbers = refl

small_number :
    (n : ℕ) → n < 256 → (all_digits (to_string n) ≡ true) × (parse_u8 (to_string n) ≡ some n)
unfolding reads_back
small_number n small =
    let (digits, back) =
      both (all_digits (to_string n)) (is_back (parse_u8 (to_string n)) n)
        (every_below_lem reads_back 256 n small small_numbers) in
    (digits, is_back-eq (parse_u8 (to_string n)) n back)

-- A text that no digit starts with.
starts_plain : Bytes → Bool
unfolding is_digit
starts_plain [] = true
starts_plain (b ∷ bs) = not (is_digit b)

span_digits-append :
    (s rest : Bytes)
    → all_digits s ≡ true
    → starts_plain rest ≡ true
    → span_digits (s ++ rest) ≡ (s, rest)
unfolding span_digits all_digits starts_plain
span_digits-append [] [] _ _ = refl
span_digits-append [] (b ∷ rest) _ h = rw no_digit refl
  where
    no_digit : is_digit b ≡ false
    no_digit = ground arith
span_digits-append (b ∷ s) rest h h' =
    let (d, ds) = both (is_digit b) (all_digits s) h in rw (d, span_digits-append s rest ds h') refl

no_dot : (b : ℕ) → is_digit b ≡ true → (b == b'.') ≡ false
unfolding is_digit
no_dot b h = ground arith

split_once-append :
    (s rest : Bytes) → all_digits s ≡ true → split_once (s ++ b'.' ∷ rest) b'.' ≡ some (s, rest)
unfolding split_once all_digits
split_once-append [] rest _ = refl
split_once-append (b ∷ s) rest h =
    let (d, ds) = both (is_digit b) (all_digits s) h in
    rw (no_dot b d, split_once-append s rest ds) refl

-- The printed form: a pack with its marker, and the whole text.
unfoldable pub print_pack : Bytes → Option ℕ → Bytes
print_pack marker none = []
print_pack marker (some n) = marker ++ to_string n

unfoldable pub print_version : VersionMeta → Bytes
unfolding print_pack
print_version v =
    codes "FIX."
    ++ (to_string v.major
        ++ b'.'
          ∷ (to_string v.minor
              ++ (print_pack (codes "SP") v.service_pack
                  ++ print_pack (codes "EP") v.extension_pack)))

-- Every part is a u8.
unfoldable pub IsSmall : Option ℕ → Type 0
IsSmall none = Unit
IsSmall (some n) = n < 256

unfoldable pub IsVersion : VersionMeta → Type 0
IsVersion v = (v.major < 256) × (v.minor < 256) × IsSmall v.service_pack × IsSmall v.extension_pack

packs_plain :
    (sp ep : Option ℕ)
    → starts_plain (print_pack (codes "SP") sp ++ print_pack (codes "EP") ep) ≡ true
unfolding starts_plain print_pack is_digit
packs_plain none none = refl
packs_plain none (some e) = refl
packs_plain (some s) ep = refl

extension_plain : (ep : Option ℕ) → starts_plain (print_pack (codes "EP") ep) ≡ true
unfolding print_pack
extension_plain ep = packs_plain none ep

parse_service :
    (sp ep : Option ℕ)
    → IsSmall sp
    → parse_version_suffix (print_pack (codes "SP") sp ++ print_pack (codes "EP") ep) (codes "SP")
      ≡ some (sp, print_pack (codes "EP") ep)
unfolding parse_version_suffix print_pack strip_prefix IsSmall
parse_service none none small = refl
parse_service none (some e) small = refl
parse_service (some s) ep small =
    let (digits, back) = small_number s small in
    rw
      (
        span_digits-append (to_string s) (print_pack (codes "EP") ep) digits (extension_plain ep),
        back,
      )
      refl

parse_extension :
    (ep : Option ℕ)
    → IsSmall ep
    → parse_version_suffix (print_pack (codes "EP") ep) (codes "EP") ≡ some (ep, [])
unfolding parse_version_suffix print_pack strip_prefix IsSmall starts_plain
parse_extension none small = refl
parse_extension (some e) small =
    let (digits, back) = small_number e small in
    let whole : span_digits (to_string e) ≡ (to_string e, []) =
      subst (λ t. span_digits t ≡ (to_string e, [])) (append-nil (to_string e))
        (span_digits-append (to_string e) [] digits refl) in
    rw (whole, back) refl

-- A version of four u8 numbers that is printed as a BeginString is read back.
pub parse_fix_begin_string-print_version :
    (v : VersionMeta) → IsVersion v → parse_fix_begin_string (print_version v) ≡ some v
unfolding parse_fix_begin_string print_version strip_prefix IsVersion finish
parse_fix_begin_string-print_version v (major, minor, service, extension) =
    let packs : Bytes =
      print_pack (codes "SP") v.service_pack ++ print_pack (codes "EP") v.extension_pack in
    let (digits, back) = small_number v.major major in
    let (digits', back') = small_number v.minor minor in
    rw
      (
        split_once-append (to_string v.major) (to_string v.minor ++ packs) digits,
        back,
        span_digits-append (to_string v.minor) packs digits'
            (packs_plain v.service_pack v.extension_pack),
        back',
        parse_service v.service_pack v.extension_pack service,
        parse_extension v.extension_pack extension,
      )
      refl
