-- ===== src/Base/Results.antt =====
-- Rust's `Result`, with one more outcome for a loop on fuel, and the `do` notation for it.
use mathlib.Core.Path.{◌≡◌, refl}
use mathlib.Core.Bool.{Bool, true, false}
use mathlib.Core.Option.{Option, none, some}
use mathlib.Core.Logic.{◌≢◌}

-- `stuck` is no Rust value: a loop ran out of its fuel.
pub data Result {ℓ κ} (A : Type ℓ) (E : Type κ) : Type (ℓ ⊔ κ) where
  ok : A → Result A E
  err : E → Result A E
  stuck : Result A E

infixl 5 ◌>>=◌ ◌>>◌
-- `?` on a result that is used, and on one that is not.
abbrev pub ◌>>=◌ {ℓ κ μ} :
    {A : Type ℓ} {B : Type κ} {E : Type μ} → Result A E → (A → Result B E) → Result B E
stuck >>= next = stuck
err failure >>= next = err failure
ok value >>= next = next value

abbrev pub ◌>>◌ {κ μ} : {B : Type κ} {E : Type μ} → Result (Unit {0}) E → Result B E → Result B E
first >> next = first >>= λ _. next

-- `return Err(e)` when the test holds.
abbrev pub fail_if {κ} : {E : Type κ} → Bool → E → Result (Unit {0}) E
fail_if true e = err e
fail_if false e = ok tt

-- `Option::ok_or`.
abbrev pub ok_or {ℓ κ} : {A : Type ℓ} {E : Type κ} → Option A → E → Result A E
ok_or (some a) e = ok a
ok_or none e = err e

-- Rust's `Option::and_then`.
abbrev pub and_then {ℓ κ} : {A : Type ℓ} {B : Type κ} → Option A → (A → Option B) → Option B
and_then none f = none
and_then (some a) f = f a

module _ {ℓ κ μ} {A : Type ℓ} {B : Type κ} {E : Type μ} where
  -- Inversion of a successful bind.
  pub >>=-eq-ok :
      (step : Result A E) (next : A → Result B E) {out : B}
      → (step >>= next) ≡ ok out
      → (value : A) × (step ≡ ok value) × (next value ≡ ok out)
  >>=-eq-ok stuck next e = cc
  >>=-eq-ok (err failure) next e = cc
  >>=-eq-ok (ok value) next e = (value, refl, e)

  -- A chain does not get stuck when no part of it does.
  pub >>=-ne-stuck :
      (m : Result A E) (f : A → Result B E)
      → m ≢ stuck
      → ((a : A) → m ≡ ok a → f a ≢ stuck)
      → (m >>= f) ≢ stuck
  >>=-ne-stuck (ok a) f hm hf = hf a refl
  >>=-ne-stuck (err e) f hm hf = λ h. cc
  >>=-ne-stuck stuck f hm hf = absurd (hm refl)

  -- Two chains with one first step agree on a result if what follows the step does.
  pub >>=-congr :
      (m : Result A E) (f g : A → Result B E) {r : Result B E}
      → (m >>= f) ≡ r
      → ((a : A) → m ≡ ok a → f a ≡ r → g a ≡ r)
      → (m >>= g) ≡ r
  >>=-congr (ok a) f g e h = h a refl e
  >>=-congr (err x) f g e h = e
  >>=-congr stuck f g e h = e

module _ {ℓ κ} {A : Type ℓ} {E : Type κ} where
  pub ok-injective : {a b : A} → ◌≡◌ {A = Result A E} (ok a) (ok b) → a ≡ b
  ok-injective e = cc

  pub ok_or-eq-ok : (m : Option A) (e : E) {a : A} → ok_or m e ≡ ok a → m ≡ some a
  ok_or-eq-ok none e h = cc
  ok_or-eq-ok (some a) e h = cc

  pub ok_or-ne-stuck : (m : Option A) (e : E) → ok_or m e ≢ stuck
  ok_or-ne-stuck none e h = cc
  ok_or-ne-stuck (some a) e h = cc

module _ {κ} {E : Type κ} where
  pub fail_if-eq-ok : (b : Bool) (e : E) {u : Unit {0}} → fail_if b e ≡ ok u → b ≡ false
  fail_if-eq-ok true e h = cc
  fail_if-eq-ok false e h = refl

  pub fail_if-ne-stuck : (b : Bool) (e : E) → fail_if b e ≢ stuck
  fail_if-ne-stuck true e h = cc
  fail_if-ne-stuck false e h = cc

module _ {ℓ κ} {A : Type ℓ} {E : Type κ} where
  pub ok-ne-stuck : (a : A) → ◌≢◌ {A = Result A E} (ok a) stuck
  ok-ne-stuck a h = cc

  pub guard-ne-stuck : (b : Bool) (e : E) (k : Result A E) → k ≢ stuck → (fail_if b e >> k) ≢ stuck
  guard-ne-stuck true e k h = λ h'. cc
  guard-ne-stuck false e k h = h

  pub guard-eq-ok :
      (b : Bool) (e : E) (k : Result A E) {a : A}
      → (fail_if b e >> k) ≡ ok a
      → (b ≡ false) × (k ≡ ok a)
  guard-eq-ok true e k h = cc
  guard-eq-ok false e k h = (refl, h)
