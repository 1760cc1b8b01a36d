-- ===== src/Core/FieldMap/Laws.antt =====
-- What `set` and `get` of field_map.rs promise each other.
use truefix.Base.{
  ℕ, suc, ◌≡◌, ◌≢◌, refl, Bool, true, false, none, some, ◌==◌, ltb, if◌then◌else◌, arith, ◌||◌,
}
use truefix.Core.FieldMap.{
  FieldMap, Field, end, member, field, group, push, retain, set, get, contains,
}

-- How often a tag stands among the top-level fields.
unfoldable pub count_tag : ℕ → FieldMap → ℕ
count_tag t end = 0
count_tag t (member (field f) ms) = if f.tag == t then suc (count_tag t ms) else count_tag t ms
count_tag t (member (group c es d) ms) = count_tag t ms

get-push :
    (ms : FieldMap) (f : Field) (t : ℕ)
    → get (push ms (field f)) t
      ≡ elim (get ms t) [ some g ↦ some g | none ↦ if f.tag == t then some f else none ]
unfolding get push
get-push end f t = refl
get-push (member (field g) ms) f t = ground (arith, get-push ms f t)
get-push (member (group c es d) ms) f t = get-push ms f t

-- One pass of `retain` from the flag `replaced`, tag by tag.
get-retain_self :
    (f : Field) (ms : FieldMap) (replaced : Bool)
    → get (retain f ms replaced).0 f.tag
      ≡ (if replaced then none else if contains ms f.tag then some f else none)
unfolding get retain contains
get-retain_self f end true = refl
get-retain_self f end false = refl
get-retain_self f (member (field g) ms) r =
    ground (arith, get-retain_self f ms r, get-retain_self f ms true)
get-retain_self f (member (group c es d) ms) r = get-retain_self f ms r

retain_flag :
    (f : Field) (ms : FieldMap) (replaced : Bool)
    → (retain f ms replaced).1 ≡ (replaced || contains ms f.tag)
unfolding get retain contains
retain_flag f end true = refl
retain_flag f end false = refl
retain_flag f (member (field g) ms) r = ground (arith, retain_flag f ms r, retain_flag f ms true)
retain_flag f (member (group c es d) ms) r = retain_flag f ms r

count_tag-push :
    (ms : FieldMap) (f : Field) (t : ℕ)
    → count_tag t (push ms (field f))
      ≡ (if f.tag == t then suc (count_tag t ms) else count_tag t ms)
unfolding count_tag push
count_tag-push end f t = refl
count_tag-push (member (field g) ms) f t = ground (arith, count_tag-push ms f t)
count_tag-push (member (group c es d) ms) f t = count_tag-push ms f t

contains-count_tag : (ms : FieldMap) (t : ℕ) → contains ms t ≡ ltb 0 (count_tag t ms)
unfolding contains get count_tag
contains-count_tag end t = refl
contains-count_tag (member (field g) ms) t = ground (arith, contains-count_tag ms t)
contains-count_tag (member (group c es d) ms) t = contains-count_tag ms t

-- Another tag is not touched by `retain`.
retain_other :
    (f : Field) (ms : FieldMap) (r : Bool) (t : ℕ)
    → f.tag ≢ t
    → (get (retain f ms r).0 t ≡ get ms t) × (count_tag t (retain f ms r).0 ≡ count_tag t ms)
unfolding get retain count_tag
retain_other f end r t h = (refl, refl)
retain_other f (member (field g) ms) r t h =
    ground (arith, retain_other f ms r t h, retain_other f ms true t h)
retain_other f (member (group c es d) ms) r t h = retain_other f ms r t h

count_tag-retain_self :
    (f : Field) (ms : FieldMap) (r : Bool)
    → count_tag f.tag (retain f ms r).0 ≡ (if r then 0 else if contains ms f.tag then 1 else 0)
unfolding get retain contains count_tag
count_tag-retain_self f end true = refl
count_tag-retain_self f end false = refl
count_tag-retain_self f (member (field g) ms) r =
    ground (arith, count_tag-retain_self f ms r, count_tag-retain_self f ms true)
count_tag-retain_self f (member (group c es d) ms) r = count_tag-retain_self f ms r

pub get-set :
    (ms : FieldMap) (f : Field) (t : ℕ)
    → get (set ms f) t ≡ (if f.tag == t then some f else get ms t)
unfolding set contains
get-set ms f t = ground (
  arith,
  get-push (retain f ms false).0 f t,
  get-retain_self f ms false,
  retain_flag f ms false,
  retain_other f ms false t,
)

-- After `set` the new field is what `get` finds under its tag and the only field with it; under
-- every other tag `get` finds what it found, and as many fields are there as before.
pub set_lem :
    (ms : FieldMap) (f : Field) (t : ℕ)
    → (get (set ms f) t ≡ (if f.tag == t then some f else get ms t))
      × (count_tag t (set ms f) ≡ (if f.tag == t then 1 else count_tag t ms))
unfolding set contains
set_lem ms f t = (
  get-set ms f t,
  ground (
    arith,
    count_tag-push (retain f ms false).0 f t,
    count_tag-retain_self f ms false,
    retain_flag f ms false,
    retain_other f ms false t,
  ),
)
