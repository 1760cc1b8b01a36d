-- ===== src/Dict/Header/Ranked.antt =====
-- When the search behind `is_header` ends.
use truefix.Base.{
  ℕ, zero, suc, ◌<◌, ◌≡◌, refl, Bool, true, false, List, [], ◌∷◌, none, some, length, contains,
  Result, ok, stuck, Bool-cases, Option-cases, All, All-map, inl, inr, arith,
}
use truefix.Dict.Outcome.{ok-Returns, bind-Returns, Returns}
use truefix.Dict.Model.{DataDictionary, GroupDef, ValidationError, group_def}
use truefix.Dict.Header.{any_of, group_contains_member_transitively, depth, is_header}

-- A rank of the groups below their number: a group's rank is above those of the groups in it.
unfoldable pub HasRank : DataDictionary → (ℕ → ℕ) → ℕ → Type 0
HasRank self rank count_tag =
    (g : GroupDef)
    → group_def self count_tag ≡ some g
    → (rank count_tag < length self.groups)
      × All (λ m. (h : GroupDef) → group_def self m ≡ some h → rank m < rank count_tag) g.members

either-Returns :
    (b : Bool) (rest : Result Bool ValidationError)
    → Returns rest
    → Returns (elim b [ true ↦ ok true | false ↦ rest ])
either-Returns true rest h = ok-Returns true
either-Returns false rest h = h

any_of-Returns :
    (test : ℕ → Result Bool ValidationError) (xs : List ℕ)
    → All (λ x. Returns (test x)) xs
    → Returns (any_of test xs)
unfolding any_of
any_of-Returns test [] _ = ok-Returns false
any_of-Returns test (x ∷ xs) (h, hs) =
    bind-Returns (test x) (λ found. elim found [ true ↦ ok true | false ↦ any_of test xs ]) h
      λ found. either-Returns found (any_of test xs) (any_of-Returns test xs hs)

fill-All : (P : ℕ → Type 0) (xs : List ℕ) → ((x : ℕ) → P x) → All P xs
fill-All P [] f = tt
fill-All P (x ∷ xs) f = (f x, fill-All P xs f)

module _ (self : DataDictionary) (rank : ℕ → ℕ) (ranked : (c : ℕ) → HasRank self rank c) where
  search-Returns :
      (fuel tag count_tag : ℕ)
      → ((g : GroupDef) → group_def self count_tag ≡ some g → rank count_tag < fuel)
      → Returns (group_contains_member_transitively (suc fuel) self tag count_tag)
  unfolding group_contains_member_transitively HasRank
  search-Returns zero tag count_tag enough = elim (Option-cases (group_def self count_tag)) [
    | inl e ↦ rw (group_contains_member_transitively, e) (ok-Returns _)
    | inr (g, e) ↦ absurd (omega (arith, enough g e))
  ]
  search-Returns (suc fuel) tag count_tag enough = elim (Option-cases (group_def self count_tag)) [
    | inl e ↦ rw (group_contains_member_transitively, e) (ok-Returns _)
    | inr (g, e) ↦ elim (Bool-cases (contains g.members tag)) [
      | inl c ↦ rw (group_contains_member_transitively, e, c) (ok-Returns _)
      | inr c ↦
          rw (group_contains_member_transitively, e, c)
            (any_of-Returns (group_contains_member_transitively (suc fuel) self tag) g.members (
              All-map (λ m. (h : GroupDef) → group_def self m ≡ some h → rank m < rank count_tag)
                (λ m. Returns (group_contains_member_transitively (suc fuel) self tag m)) g.members
                (λ m small. search-Returns fuel tag m λ h eh. omega (arith, small h eh, enough g e))
                ((ranked count_tag g e).1)))
    ]
  ]

  -- With ranked groups the search always returns.
  pub is_header-Returns : (tag : ℕ) → Returns (is_header self tag)
  unfolding is_header HasRank
  is_header-Returns tag = elim (Bool-cases (contains self.header tag)) [
    | inl c ↦ rw (is_header, c) (ok-Returns _)
    | inr c ↦
        rw (is_header, c)
          (any_of-Returns (group_contains_member_transitively (depth self) self tag) self.header (
            fill-All (λ m. Returns (group_contains_member_transitively (depth self) self tag m))
              self.header λ m. search-Returns (length self.groups) tag m λ g e. (ranked m g e).0))
  ]

module _ (self : DataDictionary) (tag first count_tag : ℕ) (rest : List ℕ) (g : GroupDef) where
  -- A group that contains itself behind a plain first member: the search for a tag that the group
  -- does not list has no fuel that is enough.
  pub group_in_itself_lem :
      group_def self first ≡ none
      → group_def self count_tag ≡ some g
      → g.members ≡ first ∷ count_tag ∷ rest
      → contains g.members tag ≡ false
      → (fuel : ℕ) → group_contains_member_transitively fuel self tag count_tag ≡ stuck
  unfolding group_contains_member_transitively any_of
  group_in_itself_lem plain itself members absent zero = refl
  group_in_itself_lem plain itself members absent (suc zero) =
      rw (group_contains_member_transitively, itself, absent, members) refl
  group_in_itself_lem plain itself members absent (suc (suc fuel)) =
      rw (group_contains_member_transitively, itself, absent, members)
        (simp (plain, group_in_itself_lem plain itself members absent (suc fuel)))
