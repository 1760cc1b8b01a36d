-- ===== src/Session/Fields.antt =====
-- The fields of the messages that the session builds (admin.rs and state.rs).
use truefix.Base.{ℕ, ◌^◌, ◌<◌, ◌≡◌, refl, Option, none, some, Bytes, ◌==◌, if◌then◌else◌, arith}
use truefix.Base.Int.{pos}
use truefix.Text.Decimal.{to_string_signed}
use truefix.Text.Decimal.RoundTrip.{parse_i64-to_string}
use truefix.Core.FieldMap
use truefix.Core.FieldMap.{FieldMap, Field}
use truefix.Core.FieldMap.Laws.{get-set}
use truefix.Core.Message.{Message}
use truefix.Session.Config.{SessionConfig}
use truefix.Session.Admin
use truefix.Session.Admin.{string, int, as_i64, set_header, set_body, set_header_opt}
use truefix.Session.State.{positive_at}

pub positive_at-int :
    (map : FieldMap) (tag n : ℕ)
    → FieldMap.get map tag ≡ some (int tag (as_i64 n))
    → 0 < n
    → n < 2 ^ 63
    → positive_at map tag ≡ some n
unfolding positive_at int to_string_signed
positive_at-int map tag n e h l = rw (e, as_number) (rw (parse_i64-to_string n l) (ground arith))
  where
    as_number : as_i64 n ≡ pos n
    as_number = unfold as_i64 in ground arith

pub get-set_header :
    (m : Message) (f : Field) (t : ℕ)
    → FieldMap.get (set_header m f).header t
      ≡ (if f.tag == t then some f else FieldMap.get m.header t)
unfolding set_header
get-set_header m f t = get-set m.header f t

pub get-set_body :
    (m : Message) (f : Field) (t : ℕ)
    → FieldMap.get (set_body m f).body t ≡ (if f.tag == t then some f else FieldMap.get m.body t)
unfolding set_body
get-set_body m f t = get-set m.body f t

-- The field that an optional value leaves under its tag.
unfoldable pub or_before : ℕ → Option Bytes → Option Field → Option Field
or_before tag none before = before
or_before tag (some v) before = some (string tag v)

pub get-set_header_opt :
    (m : Message) (tag t : ℕ) (o : Option Bytes)
    → FieldMap.get (set_header_opt m tag o).header t
      ≡ (if tag == t then or_before tag o (FieldMap.get m.header t) else FieldMap.get m.header t)
unfolding set_header_opt or_before
get-set_header_opt m tag t none = ground arith
get-set_header_opt m tag t (some v) = get-set_header m (string tag v) t

pub base_fields :
    (config : SessionConfig) (now mt : Bytes) (seq : ℕ)
    → (FieldMap.get (Admin.base config now mt seq).header 35 ≡ some (string 35 mt))
      × (FieldMap.get (Admin.base config now mt seq).header 34 ≡ some (int 34 (as_i64 seq)))
unfolding Admin.base int
base_fields config now mt seq = (simp (get-set_header, get-set_header_opt), simp get-set_header)

pub body_of-set_header : (m : Message) (f : Field) → (set_header m f).body ≡ m.body
unfolding set_header
body_of-set_header m f = refl

pub header_of-set_body : (m : Message) (f : Field) → (set_body m f).header ≡ m.header
unfolding set_body
header_of-set_body m f = refl

pub positive_at-get :
    (map map' : FieldMap) (tag : ℕ)
    → FieldMap.get map tag ≡ FieldMap.get map' tag
    → positive_at map tag ≡ positive_at map' tag
unfolding positive_at
positive_at-get map map' tag e = rw e
