-- ===== src/Dict/Passes.antt =====
-- When chained checks pass, as equivalences that the descriptions of the accepted messages are put
-- together from.
use truefix.Base.{
  ◌≡◌, refl, Bool, true, false, not, ◌&&◌, Option, none, some, ok, err, stuck, ◌>>◌, ◌>>=◌, ok_or,
  fail_if, ◌↔◌, sym, subst,
}
use truefix.Dict.Model.{ValidationError}
use truefix.Dict.Fields.{Checked}

unfoldable pub Passes : Checked → Type 0
Passes outcome = outcome ≡ ok tt

-- Chained checks pass when both do, a guard when its test does not hold, and an optional check when
-- its option is off or it passes.
pub then_iff : (a b : Checked) → Passes (a >> b) ↔ (Passes a × Passes b)
unfolding Passes
then_iff (ok tt) b = (λ h. (refl, h), λ (_, h). h)
then_iff (err e) b = (λ h. cc, λ (h, _). cc)
then_iff stuck b = (λ h. cc, λ (h, _). cc)

pub guard_iff : (b : Bool) (e : ValidationError) → Passes (fail_if b e) ↔ (b ≡ false)
unfolding Passes
guard_iff true e = (λ h. cc, λ h. cc)
guard_iff false e = (λ _. refl, λ _. refl)

pub when_iff :
    (b : Bool) (c : Checked) → Passes (elim b [ true ↦ c | false ↦ ok tt ]) ↔ (b ≡ true → Passes c)
unfolding Passes
when_iff true c = (λ h _. h, λ h. h refl)
when_iff false c = (λ _ h. cc, λ _. refl)

pub both_iff : {A B C D : Type 0} → A ↔ B → C ↔ D → (A × C) ↔ (B × D)
both_iff (f, g) (h, k) = (λ (a, c). (f a, h c), λ (b, d). (g b, k d))

pub chain_iff : {A B C : Type 0} → A ↔ B → B ↔ C → A ↔ C
chain_iff (f, g) (h, k) = (λ a. h (f a), λ c. g (k c))

pub under_iff : {A B C : Type 0} → B ↔ C → (A → B) ↔ (A → C)
under_iff (f, g) = (λ h a. f (h a), λ h a. g (h a))

pub conj_right : (a b : Bool) → a ≡ true → (a && b) ≡ false → b ≡ false
conj_right true b e h = h
conj_right false b e h = cc

pub conj_false : (a b : Bool) → b ≡ false → (a && b) ≡ false
conj_false true b h = h
conj_false false b h = refl

pub not_iff : (b : Bool) → (not b ≡ false) ↔ (b ≡ true)
not_iff true = (λ _. refl, λ _. refl)
not_iff false = (λ h. cc, λ h. cc)

-- A value that has to be there.
pub required_iff {ℓ} :
    {A : Type ℓ} (o : Option A) (e : ValidationError) (next : A → Checked)
    → Passes (ok_or o e >>= next) ↔ ((a : A) × (o ≡ some a) × Passes (next a))
unfolding Passes
required_iff none e next = (λ h. cc, λ (a, same, _). cc)
required_iff (some a) e next =
    (λ h. (a, refl, h), λ (b, same, h). subst (λ c. next c ≡ ok tt) (sym (some-injective same)) h)
  where
    some-injective : {B : Type ℓ} {x y : B} → some x ≡ some y → x ≡ y
    some-injective e = cc
