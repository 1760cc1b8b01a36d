-- ===== src/Dict/Outcome.antt =====
-- How a validation ends: in a value, or in an error of the session level, which is no business reject.
use truefix.Base.{
  ℕ, ◌≡◌, refl, Bool, true, false, Option, none, some, Result, ok, err, stuck, ◌>>=◌, ◌>>◌, fail_if,
  ok_or,
}
use truefix.Dict.Model.{ValidationError, RejectReason, session}

-- The loop ended; a value has the property, and an error is of the session level.
unfoldable pub Ends : {A : Type 0} → (A → Type 0) → Result A ValidationError → Type 0
Ends P stuck = ⊥
Ends P (err e) = e.business ≡ false
Ends P (ok a) = P a

unfoldable pub Returns : {A : Type 0} → Result A ValidationError → Type 0
unfolding Ends
Returns outcome = Ends (λ _. Unit) outcome

module _ {A : Type 0} where
  pub Ends-bind :
      {B : Type 0} (P : A → Type 0) (Q : B → Type 0) (first : Result A ValidationError)
      (next : A → Result B ValidationError)
      → Ends P first
      → ((a : A) → P a → Ends Q (next a))
      → Ends Q (first >>= next)
  unfolding Ends
  Ends-bind P Q stuck next h k = h
  Ends-bind P Q (err e) next h k = h
  Ends-bind P Q (ok a) next h k = k a h

  pub Ends-map :
      (P Q : A → Type 0) (r : Result A ValidationError)
      → ((a : A) → P a → Q a)
      → Ends P r
      → Ends Q r
  unfolding Ends
  Ends-map P Q stuck f h = h
  Ends-map P Q (err e) f h = h
  Ends-map P Q (ok a) f h = f a h

  pub ok-Returns : (a : A) → Returns (ok a)
  unfolding Returns
  ok-Returns a = tt

  pub bind-Returns :
      {B : Type 0} (first : Result A ValidationError) (next : A → Result B ValidationError)
      → Returns first
      → ((a : A) → Returns (next a))
      → Returns (first >>= next)
  unfolding Returns
  bind-Returns first next h k = Ends-bind (λ _. Unit) (λ _. Unit) first next h λ a _. k a

  pub guard-Returns :
      (b : Bool) (reason : RejectReason) (tag : Option ℕ) (next : Result A ValidationError)
      → Returns next
      → Returns (fail_if b (session reason tag) >> next)
  unfolding Returns
  guard-Returns true reason tag next h = refl
  guard-Returns false reason tag next h = h

  pub ok_or-Returns :
      (o : Option A) (reason : RejectReason) (tag : Option ℕ)
      → Returns (ok_or o (session reason tag))
  unfolding Returns
  ok_or-Returns none reason tag = refl
  ok_or-Returns (some a) reason tag = tt

-- A check in front.
pub then-Ends :
    {A : Type 0} (P : A → Type 0) (first : Result (Unit {0}) ValidationError)
    (next : Result A ValidationError)
    → Returns first
    → Ends P next
    → Ends P (first >>= λ _. next)
unfolding Returns
then-Ends P first next h k = Ends-bind (λ _. Unit) P first (λ _. next) h λ _ _. k

pub then-Returns :
    (first second : Result (Unit {0}) ValidationError)
    → Returns first
    → Returns second
    → Returns (first >> second)
unfolding Returns
then-Returns first second h k = then-Ends (λ _. Unit) first second h k

pub fail_if-Returns :
    (b : Bool) (reason : RejectReason) (tag : Option ℕ) → Returns (fail_if b (session reason tag))
unfolding Returns
fail_if-Returns true reason tag = refl
fail_if-Returns false reason tag = tt

pub err-Returns :
    (reason : RejectReason) (tag : Option ℕ) → Returns {A = Unit {0}} (err (session reason tag))
unfolding Returns
err-Returns reason tag = refl
