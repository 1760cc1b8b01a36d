-- ===== src/Dict/Header/Found.antt =====
-- Which tags `is_header` (crates/truefix-dict/src/model.rs) finds, when its search ends.
use truefix.Base.{
  ℕ, zero, suc, ◌≡◌, ◌⊎◌, refl, Bool, true, false, List, Option, [], ◌∷◌, none, some, contains,
  Result, ok, err, stuck, ◌>>=◌, inl, inr, Bool-cases, ◌==◌, arith, subst,
}
use truefix.Dict.Model.{DataDictionary, GroupDef, ValidationError, group_def}
use truefix.Dict.Header.{any_of, group_contains_member_transitively, is_header, depth}

-- A tag among the members of a group, or of a group among its members, at any depth.
pub data InGroup (self : DataDictionary) (tag : ℕ) : ℕ → Type 0 where
  direct :
      {c : ℕ} {g : GroupDef}
      → group_def self c ≡ some g
      → contains g.members tag ≡ true
      → InGroup self tag c
  deeper :
      {c d : ℕ} {g : GroupDef}
      → group_def self c ≡ some g
      → contains g.members d ≡ true
      → InGroup self tag d
      → InGroup self tag c

-- A tag of the header, or of a group of the header.
unfoldable pub OfHeader : DataDictionary → ℕ → Type 0
OfHeader self tag =
    (contains self.header tag ≡ true)
    ⊎ ((c : ℕ) × (contains self.header c ≡ true) × InGroup self tag c)

bind_any :
    (r : Result Bool ValidationError) (next : Result Bool ValidationError) (b : Bool)
    → (r >>= λ found. elim found [ true ↦ ok true | false ↦ next ]) ≡ ok b
    → ((r ≡ ok true) × (b ≡ true)) ⊎ ((r ≡ ok false) × (next ≡ ok b))
bind_any (ok true) next b h = inl (refl, cc)
bind_any (ok false) next b h = inr (refl, h)
bind_any (err e) next b h = cc
bind_any stuck next b h = cc

any_of-true :
    (test : ℕ → Result Bool ValidationError) (xs : List ℕ)
    → any_of test xs ≡ ok true
    → (x : ℕ) × (contains xs x ≡ true) × (test x ≡ ok true)
unfolding any_of contains
any_of-true test [] h = cc
any_of-true test (x ∷ xs) h = elim (bind_any (test x) (any_of test xs) true h) [
  | inl (here, _) ↦ (x, ground arith, here)
  | inr (_, later) ↦ let (y, among, e) = any_of-true test xs later in (y, ground arith, e)
]

any_of-false :
    (test : ℕ → Result Bool ValidationError) (xs : List ℕ) (x : ℕ)
    → any_of test xs ≡ ok false
    → contains xs x ≡ true
    → test x ≡ ok false
unfolding any_of contains
any_of-false test [] x h among = cc
any_of-false test (y ∷ ys) x h among = elim (bind_any (test y) (any_of test ys) false h) [
  | inl (_, clash) ↦ cc
  | inr (here, later) ↦ elim (Bool-cases (y == x)) [
    | inl same ↦ subst (λ z. test z ≡ ok false) (eq same) here
    | inr apart ↦ any_of-false test ys x later (ground arith)
  ]
]
  where
    eq : (y == x) ≡ true → y ≡ x
    eq same = ground arith

clash : ◌≡◌ {A = Result Bool ValidationError} (ok true) (ok false) → ⊥
clash x = cc

module _ (self : DataDictionary) (tag : ℕ) where
  InGroup-found :
      (fuel c : ℕ)
      → group_contains_member_transitively fuel self tag c ≡ ok true
      → InGroup self tag c
  unfolding group_contains_member_transitively
  InGroup-found zero c h = cc
  InGroup-found (suc fuel) c h = at (group_def self c) refl (λ d. InGroup-found fuel d) h
    where
      at :
          (o : Option GroupDef)
          → group_def self c ≡ o
          → ((d : ℕ)
              → group_contains_member_transitively fuel self tag d ≡ ok true
              → InGroup self tag d)
          → elim o [
            | none ↦ ok false
            | some g ↦ elim (contains g.members tag) [
              | true ↦ ok true
              | false ↦ any_of (group_contains_member_transitively fuel self tag) g.members
            ]
          ]
            ≡ ok true
          → InGroup self tag c
      at none e below h = cc
      at (some g) e below h = elim (Bool-cases (contains g.members tag)) [
        | inl here ↦ direct e here
        | inr apart ↦
            let (d, among, found) =
              any_of-true (group_contains_member_transitively fuel self tag) g.members
                (rw apart at h) in
            deeper e among (below d found)
      ]

  not-InGroup :
      (fuel c : ℕ)
      → group_contains_member_transitively fuel self tag c ≡ ok false
      → InGroup self tag c
      → ⊥
  unfolding group_contains_member_transitively
  not-InGroup zero c h p = cc
  not-InGroup (suc fuel) c h (direct e here) =
      clash (rw (group_contains_member_transitively, e, here) at h)
  not-InGroup (suc fuel) c h (deeper {d = d} {g = g} e among p) =
      elim (Bool-cases (contains g.members tag)) [
        | inl here ↦ clash (rw (group_contains_member_transitively, e, here) at h)
        | inr apart ↦
            not-InGroup fuel d
              (any_of-false (group_contains_member_transitively fuel self tag) g.members d
                (rw (group_contains_member_transitively, e, apart) at h) among)
              p
      ]

  -- A search that ends with an answer finds exactly the tags of the header.
  pub is_header-OfHeader : is_header self tag ≡ ok true → OfHeader self tag
  unfolding is_header OfHeader
  is_header-OfHeader h = elim (Bool-cases (contains self.header tag)) [
    | inl here ↦ inl here
    | inr apart ↦
        let (c, among, found) =
          any_of-true (group_contains_member_transitively (depth self) self tag) self.header
            (rw (is_header, apart) at h) in
        inr (c, among, InGroup-found (depth self) c found)
  ]

  pub is_header-not_OfHeader : is_header self tag ≡ ok false → OfHeader self tag → ⊥
  unfolding is_header OfHeader
  is_header-not_OfHeader h (inl here) = clash (rw (is_header, here) at h)
  is_header-not_OfHeader h (inr (c, among, p)) = elim (Bool-cases (contains self.header tag)) [
    | inl here ↦ clash (rw (is_header, here) at h)
    | inr apart ↦
        not-InGroup (depth self) c
          (any_of-false (group_contains_member_transitively (depth self) self tag) self.header c
            (rw (is_header, apart) at h) among)
          p
  ]
