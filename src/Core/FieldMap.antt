-- ===== src/Core/FieldMap.antt =====
-- crates/truefix-core/src/field.rs (the record), field_map.rs and group.rs: an ordered collection
-- of fields and repeating groups. A `FieldMap` is its vector of members.
pub mod Laws
pub mod Editors
use truefix.Base.{
  ℕ, zero, suc, ◌≡◌, refl, Bool, true, false, List, [], ◌∷◌, ◌++◌, Option, none, some, Bytes, ◌==◌,
  ltb, if◌then◌else◌,
}
use truefix.Base.Int.{ℤ, pos}

pub record Field : Type 0 where
  pub tag : ℕ
  pub value : Bytes

mutual
  pub data Member : Type 0 where
    field : Field → Member
    -- count tag, entries, the count declared on the wire
    group : ℕ → Entries → Option ℤ → Member

  pub data FieldMap : Type 0 where
    end : FieldMap
    member : Member → FieldMap → FieldMap

  pub data Entries : Type 0 where
    nil : Entries
    cons : FieldMap → Entries → Entries

-- `Vec::push`, `len` and indexing on the two vectors.
unfoldable pub push : FieldMap → Member → FieldMap
push end m = member m end
push (member n ns) m = member n (push ns m)

unfoldable pub push_entry : Entries → FieldMap → Entries
push_entry nil e = cons e nil
push_entry (cons f es) e = cons f (push_entry es e)

abbrev pub count_entries : Entries → ℕ
count_entries nil = 0
count_entries (cons e es) = suc (count_entries es)

unfoldable pub entry_at : Entries → ℕ → Option FieldMap
entry_at nil i = none
entry_at (cons e es) zero = some e
entry_at (cons e es) (suc i) = entry_at es i

unfoldable pub set_entry : Entries → ℕ → FieldMap → Entries
set_entry nil i v = nil
set_entry (cons e es) zero v = cons v es
set_entry (cons e es) (suc i) v = cons e (set_entry es i v)

unfoldable pub remove_entry : Entries → ℕ → Entries
remove_entry nil i = nil
remove_entry (cons e es) zero = es
remove_entry (cons e es) (suc i) = cons e (remove_entry es i)

-- `add_field` appends, and keeps duplicates.
unfoldable pub add_field : FieldMap → Field → FieldMap
unfolding push
add_field map f = push map (field f)

-- The `retain_mut` pass of `set`: the first field with the tag is replaced, the later ones go. The
-- flag is `replaced`; the result says whether it was set.
unfoldable pub retain : Field → FieldMap → Bool → FieldMap × Bool
retain f end replaced = (end, replaced)
retain f (member (group c es d) ms) replaced =
    let (ms', done) = retain f ms replaced in (member (group c es d) ms', done)
retain f (member (field g) ms) replaced =
    let (ms', done) = retain f ms (if g.tag == f.tag then true else replaced) in
    if g.tag == f.tag
    then (if replaced then (ms', done) else (member (field f) ms', done))
    else (member (field g) ms', done)

unfoldable pub set : FieldMap → Field → FieldMap
unfolding retain push
set map f = let (ms, replaced) = retain f map false in if replaced then ms else push ms (field f)

unfoldable pub get : FieldMap → ℕ → Option Field
get end tag = none
get (member (field f) ms) tag = if f.tag == tag then some f else get ms tag
get (member (group c es d) ms) tag = get ms tag

abbrev pub is_some {ℓ} : {A : Type ℓ} → Option A → Bool
is_some none = false
is_some (some a) = true

unfoldable pub contains : FieldMap → ℕ → Bool
unfolding get
contains map tag = is_some (get map tag)

-- `Group`: the count tag, the entries and the declared count.
pub record Group : Type 0 where
  pub count_tag : ℕ
  pub entries : Entries
  pub declared_count : Option ℤ

unfoldable pub new_group : ℕ → Group
new_group c = record { count_tag = c; entries = nil; declared_count = none }

unfoldable pub add_entry : Group → FieldMap → Group
unfolding push_entry
add_entry g e = record g { entries = push_entry g.entries e }

unfoldable pub add_group : FieldMap → Group → FieldMap
unfolding push
add_group map g = push map (group g.count_tag g.entries g.declared_count)

-- The entries of the first group with the count tag.
unfoldable pub group_entries : FieldMap → ℕ → Option Entries
group_entries end c = none
group_entries (member (field f) ms) c = group_entries ms c
group_entries (member (group ct es d) ms) c = if ct == c then some es else group_entries ms c

unfoldable pub get_group : FieldMap → ℕ → ℕ → Option FieldMap
unfolding group_entries entry_at
get_group map c i = elim (group_entries map c) [ none ↦ none | some es ↦ entry_at es i ]

-- Out of range, and with no such group, the map is left as it is.
unfoldable pub replace_group : FieldMap → ℕ → ℕ → FieldMap → FieldMap
unfolding set_entry
replace_group end c i e = end
replace_group (member (field f) ms) c i e = member (field f) (replace_group ms c i e)
replace_group (member (group ct es d) ms) c i e =
    if ct == c
    then member (group ct (set_entry es i e) d) ms
    else member (group ct es d) (replace_group ms c i e)

-- A removal also drops the declared count.
unfoldable pub remove_group : FieldMap → ℕ → ℕ → FieldMap
unfolding remove_entry
remove_group end c i = end
remove_group (member (field f) ms) c i = member (field f) (remove_group ms c i)
remove_group (member (group ct es d) ms) c i =
    if ct == c
    then (if ltb i (count_entries es)
        then member (group ct (remove_entry es i) none) ms
        else member (group ct es d) ms)
    else member (group ct es d) (remove_group ms c i)

-- The top-level fields, groups skipped.
unfoldable pub fields : FieldMap → List Field
fields end = []
fields (member (field f) ms) = f ∷ fields ms
fields (member (group c es d) ms) = fields ms
