-- ===== src/Dict/Holds.antt =====
-- What the Boolean tests of the validation say, as equivalences with propositions.
use truefix.Base.{
  ℕ, ◌≤◌, ◌≡◌, ◌⊎◌, refl, sym, ap₂, inl, inr, Bool, true, false, not, ◌&&◌, ◌||◌, List, [], ◌∷◌,
  Option, none, some, Bytes, same_bytes, and_then, leb, ◌==◌, ◌↔◌, All, arith, subst,
}
use truefix.Core.FieldMap.{is_some}
use truefix.Dict.Values.{ok_and, all_of}
use truefix.Dict.Passes.{chain_iff, both_iff}

pub and_iff : (a b : Bool) → ((a && b) ≡ true) ↔ ((a ≡ true) × (b ≡ true))
and_iff true b = (λ h. (refl, h), λ (_, h). h)
and_iff false b = (λ h. cc, λ (h, _). cc)

pub or_iff : (a b : Bool) → ((a || b) ≡ true) ↔ ((a ≡ true) ⊎ (b ≡ true))
or_iff true b = (λ _. inl refl, λ _. refl)
or_iff false b = (λ h. inr h, λ x. elim x [ inl h ↦ cc | inr h ↦ h ])

pub nand_iff : (a b : Bool) → ((a && b) ≡ false) ↔ (a ≡ true → b ≡ false)
nand_iff true b = (λ h _. h, λ h. h refl)
nand_iff false b = (λ _ h. cc, λ _. refl)

pub not-true_iff : (b : Bool) → (not b ≡ true) ↔ (b ≡ false)
not-true_iff true = (λ h. cc, λ h. cc)
not-true_iff false = (λ _. refl, λ _. refl)

pub either_iff : {A B C D : Type 0} → A ↔ B → C ↔ D → (A ⊎ C) ↔ (B ⊎ D)
either_iff (f, g) (h, k) = (
  λ x. elim x [ inl a ↦ inl (f a) | inr c ↦ inr (h c) ],
  λ x. elim x [ inl b ↦ inl (g b) | inr d ↦ inr (k d) ],
)

pub given_iff : {A B C D : Type 0} → A ↔ B → C ↔ D → (A → C) ↔ (B → D)
given_iff (f, g) (h, k) = (λ t b. h (t (g b)), λ t a. k (t (f a)))

pub same_iff : {A : Type 0} → A ↔ A
same_iff = (λ a. a, λ a. a)

pub eq_iff : (a b : ℕ) → ((a == b) ≡ true) ↔ (a ≡ b)
eq_iff a b = (λ h. ground arith, λ h. ground arith)

pub leb_iff : (a b : ℕ) → (leb a b ≡ true) ↔ (a ≤ b)
leb_iff a b = (λ h. ground arith, λ h. ground arith)

pub same_bytes-eq : (xs ys : Bytes) → same_bytes xs ys ≡ true → xs ≡ ys
same_bytes-eq [] [] h = refl
same_bytes-eq [] (y ∷ ys) h = cc
same_bytes-eq (x ∷ xs) [] h = cc
same_bytes-eq (x ∷ xs) (y ∷ ys) h =
    ap₂ (λ a b. a ∷ b) (ground arith) (same_bytes-eq xs ys (ground arith))

pub same_bytes_refl : (xs : Bytes) → same_bytes xs xs ≡ true
same_bytes_refl [] = refl
same_bytes_refl (x ∷ xs) = ground (arith, same_bytes_refl xs)

pub same_bytes_iff : (xs ys : Bytes) → (same_bytes xs ys ≡ true) ↔ (xs ≡ ys)
same_bytes_iff xs ys =
    (same_bytes-eq xs ys, λ e. subst (λ zs. same_bytes xs zs ≡ true) e (same_bytes_refl xs))

pub some_eq {ℓ} : {A : Type ℓ} {x y : A} → some x ≡ some y → x ≡ y
some_eq e = cc

pub ok_and_iff {ℓ} :
    {A : Type ℓ} (o : Option A) (test : A → Bool) (P : A → Type 0)
    → ((a : A) → (test a ≡ true) ↔ P a)
    → (ok_and o test ≡ true) ↔ ((a : A) × (o ≡ some a) × P a)
unfolding ok_and
ok_and_iff none test P h = (λ e. cc, λ (a, e, _). cc)
ok_and_iff (some a) test P h =
    (λ e. (a, refl, (h a).0 e), λ (b, e, p). (h a).1 (subst P (sym (some_eq e)) p))

pub ok_and-false_iff {ℓ} :
    {A : Type ℓ} (o : Option A) (test : A → Bool) (P : A → Type 0)
    → ((a : A) → (test a ≡ false) ↔ P a)
    → (ok_and o test ≡ false) ↔ ((a : A) → o ≡ some a → P a)
unfolding ok_and
ok_and-false_iff none test P h = (λ _ a e. cc, λ _. refl)
ok_and-false_iff (some a) test P h =
    (λ e b same. subst P (some_eq same) ((h a).0 e), λ p. (h a).1 (p a refl))

pub is_some_iff {ℓ} : {A : Type ℓ} (o : Option A) → (is_some o ≡ true) ↔ ((a : A) × (o ≡ some a))
is_some_iff none = (λ e. cc, λ (a, e). cc)
is_some_iff (some a) = (λ _. (a, refl), λ _. refl)

pub and_then_iff {ℓ κ} :
    {A : Type ℓ} {B : Type κ} (o : Option A) (f : A → Option B) (b : B)
    → (and_then o f ≡ some b) ↔ ((a : A) × (o ≡ some a) × (f a ≡ some b))
and_then_iff none f b = (λ e. cc, λ (a, e, _). cc)
and_then_iff (some a) f b =
    (λ e. (a, refl, e), λ (c, same, e). subst (λ x. f x ≡ some b) (sym (some_eq same)) e)

pub all_of_iff {ℓ} :
    {A : Type ℓ} (test : A → Bool) (P : A → Type 0) (xs : List A)
    → ((a : A) → (test a ≡ true) ↔ P a)
    → (all_of test xs ≡ true) ↔ All P xs
unfolding all_of
all_of_iff test P [] h = (λ _. tt, λ _. refl)
all_of_iff test P (x ∷ xs) h =
    chain_iff (and_iff (test x) (all_of test xs)) (both_iff (h x) (all_of_iff test P xs h))

pub All-iff {ℓ} :
    {A : Type ℓ} (P Q : A → Type 0) (xs : List A) → ((a : A) → P a ↔ Q a) → All P xs ↔ All Q xs
All-iff P Q [] h = (λ _. tt, λ _. tt)
All-iff P Q (x ∷ xs) h = both_iff (h x) (All-iff P Q xs h)
