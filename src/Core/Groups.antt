-- ===== src/Core/Groups.antt =====
-- Repeating groups: `decode_with_groups`, `restructure_groups` and what they call, of
-- crates/truefix-core/src/codec/decode.rs. The position of a loop is the list of the tokens that are
-- left, and a loop's fuel is the length of that list.
pub mod Total
pub mod Lossless
pub mod Agreement
mod Examples
use truefix.Base.{
  ℕ, zero, suc, ◌+◌, ◌-◌, ◌≤◌, ◌<◌, ◌≡◌, refl, Bool, true, false, not, List, [], ◌∷◌, ◌++◌, Option,
  none, some, Bytes, length, drop, get_elem?, and_then, contains, ◌==◌, if◌then◌else◌, Result, ok,
  err, stuck, ◌>>=◌, ◌||◌,
}
use truefix.Base.Int.{ℤ}
use truefix.Text.Decimal.{parse_i64}
use truefix.Core.Tags.{is_trailer, is_header, section_of}
use truefix.Core.Errors.{DecodeError, group_nesting_too_deep}
use truefix.Core.FieldMap.{
  FieldMap, Field, Member, Entries, Group, end, member, field, group, nil, cons, add_field,
  add_group, add_entry, new_group,
}
use truefix.Core.Message.{Message, new_message}
use truefix.Core.Encode.{group_count_to_emit}
use truefix.Core.Decode.{Token, tokenize_validated, breaks_order}
use Prim.Native.Nat.{max}

-- `GroupSpec`: `group_of` of a tag, its delimiter and its members.
abbrev pub GroupSpec : Type 0
GroupSpec = ℕ → Option (ℕ × List ℕ)

abbrev pub max_group_nesting_depth : ℕ
max_group_nesting_depth = 32

abbrev pub field_of : Token → Field
field_of t = record { tag = t.tag; value = t.value }

-- How a group inside of an entry is read: `build_group` with one level less.
abbrev pub Nested : Type 0
Nested = ℕ → ℕ → List ℕ → List Token → Result (Group × List Token) DecodeError

-- The loop over the members of one entry.
unfoldable pub read_entry :
    Nested
    → GroupSpec
    → ℕ
    → List ℕ
    → ℕ
    → List Token
    → FieldMap
    → Result (FieldMap × List Token) DecodeError
read_entry nested spec delimiter members fuel [] entry = ok (entry, [])
read_entry nested spec delimiter members zero (t ∷ ts) entry = stuck
read_entry nested spec delimiter members (suc fuel) (t ∷ ts) entry =
    elim (t.tag == delimiter || not (contains members t.tag)) [
      | true ↦ ok (entry, t ∷ ts)
      | false ↦ elim (spec t.tag) [
        | some (d2, m2) ↦ do
          (sub, rest) ← nested t.tag d2 m2 (t ∷ ts)
          read_entry nested spec delimiter members fuel rest (add_group entry sub)
        | none ↦ read_entry nested spec delimiter members fuel ts (add_field entry (field_of t))
      ]
    ]

-- The loop over the entries.
unfoldable pub read_entries :
    Nested
    → GroupSpec
    → ℕ
    → List ℕ
    → ℕ
    → List Token
    → Group
    → Result (Group × List Token) DecodeError
unfolding read_entry
read_entries nested spec delimiter members fuel [] g = ok (g, [])
read_entries nested spec delimiter members zero (t ∷ ts) g = stuck
read_entries nested spec delimiter members (suc fuel) (t ∷ ts) g = elim (t.tag == delimiter) [
  | false ↦ ok (g, t ∷ ts)
  | true ↦ do
    (entry, rest) ←
        read_entry nested spec delimiter members (length ts) ts (add_field end (field_of t))
    read_entries nested spec delimiter members fuel rest (add_entry g entry)
]

-- The count that the group's first token declares.
unfoldable pub declared_count_of : List Token → Option ℤ
declared_count_of tokens = and_then (get_elem? tokens 0) λ t. parse_i64 t.value

-- `group.set_declared_count(n)` where a count was read.
unfoldable pub set_declared_count : Option ℤ → Group → Group
set_declared_count none g = g
set_declared_count (some n) g = record g { declared_count = some n }

-- `room` is the number of levels that are left, `MAX_GROUP_NESTING_DEPTH - depth`.
unfoldable pub build_group : ℕ → GroupSpec → Nested
unfolding read_entries declared_count_of set_declared_count
build_group zero spec count_tag delimiter members tokens =
    err (group_nesting_too_deep max_group_nesting_depth)
build_group (suc room) spec count_tag delimiter members tokens = do
  (g, rest) ←
      read_entries (build_group room spec) spec delimiter members (length tokens) (drop 1 tokens)
        (new_group count_tag)
  ok (set_declared_count (declared_count_of tokens) g, rest)

unfoldable pub section_loop : GroupSpec → ℕ → List Token → FieldMap → Result FieldMap DecodeError
unfolding build_group
section_loop spec fuel [] out = ok out
section_loop spec zero (t ∷ ts) out = stuck
section_loop spec (suc fuel) (t ∷ ts) out = elim (spec t.tag) [
  | some (delimiter, members) ↦ do
    (g, rest) ← build_group max_group_nesting_depth spec t.tag delimiter members (t ∷ ts)
    section_loop spec fuel rest (add_group out g)
  | none ↦ section_loop spec fuel ts (add_field out (field_of t))
]

unfoldable pub decode_section_with_groups :
    List Token → GroupSpec → FieldMap → Result FieldMap DecodeError
unfolding section_loop
decode_section_with_groups tokens spec out = section_loop spec (length tokens) tokens out

-- The first loop of `decode_with_groups`: whether the tokens, from the `i`th on, are out of order.
unfoldable pub out_of_order : ℕ → ℕ → Bool → List Token → Bool
unfolding breaks_order
out_of_order i max_section out [] = out
out_of_order i max_section out (t ∷ ts) =
    out_of_order (suc i) (max max_section (section_of t.tag))
      (out || breaks_order i max_section t.tag) ts

-- The second loop: the tokens of the header, of the body and of the trailer.
unfoldable pub split_sections : List Token → List Token × List Token × List Token
split_sections [] = ([], [], [])
split_sections (t ∷ ts) =
    let (header, body, trailer) = split_sections ts in
    if is_trailer t.tag
    then (header, body, t ∷ trailer)
    else if is_header t.tag
    then (t ∷ header, body, trailer)
    else (header, t ∷ body, trailer)

unfoldable pub group_sections : List Token → GroupSpec → Result Message DecodeError
unfolding decode_section_with_groups out_of_order split_sections
group_sections tokens spec = do
  let (header_tokens, body_tokens, trailer_tokens) = split_sections tokens
  header ← decode_section_with_groups header_tokens spec end
  body ← decode_section_with_groups body_tokens spec end
  trailer ← decode_section_with_groups trailer_tokens spec end
  ok (record new_message {
    header = header;
    body = body;
    trailer = trailer;
    fields_out_of_order = out_of_order 0 0 false tokens;
  })

unfoldable pub decode_with_groups : Bytes → GroupSpec → Result Message DecodeError
unfolding group_sections
decode_with_groups input spec = do tokens ← tokenize_validated input; group_sections tokens spec

-- A field as a token with offset 0.
abbrev pub loose : Field → Token
loose f = record { tag = f.tag; value = f.value; offset = 0 }

unfoldable mutual
  pub flatten_to_tokens : FieldMap → List Token
  flatten_to_tokens end = []
  flatten_to_tokens (member m ms) = flatten_member m ++ flatten_to_tokens ms

  pub flatten_member : Member → List Token
  flatten_member (field f) = loose f ∷ []
  flatten_member (group c es d) =
      loose (record { tag = c; value = group_count_to_emit es d }) ∷ flatten_entries es

  pub flatten_entries : Entries → List Token
  flatten_entries nil = []
  flatten_entries (cons e es) = flatten_to_tokens e ++ flatten_entries es

unfoldable pub restructure_groups : FieldMap → GroupSpec → Result FieldMap DecodeError
unfolding decode_section_with_groups flatten_to_tokens
restructure_groups map spec = decode_section_with_groups (flatten_to_tokens map) spec end
