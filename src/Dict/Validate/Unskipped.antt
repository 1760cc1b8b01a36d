-- ===== src/Dict/Validate/Unskipped.antt =====
-- Which fields the loop of `validate` looks at, and which it counts, said without its tests.
use truefix.Base.{
  ℕ, ◌<◌, ◌≡◌, ◌≢◌, ◌⊎◌, refl, inl, inr, Bool, true, false, not, List, [], ◌∷◌, contains, leb, ◌↔◌,
  All, arith,
}
use truefix.Core.FieldMap.{Field}
use truefix.Core.Times.{Crates}
use truefix.Dict.Model.{DataDictionary, MessageDef, ValidationOptions}
use truefix.Dict.Validate.{is_skipped, is_counted}
use truefix.Dict.Passes.{chain_iff, both_iff}
use truefix.Dict.Holds.{and_iff, nand_iff, given_iff, same_iff, All-iff, not-true_iff}
use truefix.Dict.Validate.EachField.{IsGoodField}
use truefix.Dict.Validate.AllFields.{Counts, IsFine, IsUnrepeated}

module _ (crates : Crates) (self : DataDictionary) (opts : ValidationOptions) where
  -- A user-defined tag is checked where that is asked for.
  unfoldable pub IsChecked : ℕ → Type 0
  IsChecked tag = tag < 5000 ⊎ (opts.validate_user_defined_fields ≡ true)

  IsChecked-iff : (tag : ℕ) → (is_skipped opts tag ≡ false) ↔ IsChecked tag
  unfolding is_skipped IsChecked
  IsChecked-iff tag =
      chain_iff (nand_iff (leb 5000 tag) (not opts.validate_user_defined_fields))
        (below_iff opts.validate_user_defined_fields)
    where
      below_iff :
          (user : Bool) → (leb 5000 tag ≡ true → not user ≡ false) ↔ (tag < 5000 ⊎ (user ≡ true))
      below_iff true = (λ _. inr refl, λ _ _. refl)
      below_iff false = (
        λ h. inl (ground (arith, h)),
        λ x l. elim x [ inl b ↦ absurd (ground arith) | inr h ↦ cc ],
      )

  -- A checked tag that is no group's member, where repeated tags are refused.
  unfoldable pub IsCounted : MessageDef → ℕ → Type 0
  IsCounted mdef tag =
      IsChecked tag × ((opts.check_repeated_tags ≡ true) × (contains mdef.member_tags tag ≡ false))

  Counts-iff : (mdef : MessageDef) (tag : ℕ) → Counts crates self opts mdef tag ↔ IsCounted mdef tag
  unfolding Counts IsCounted is_counted
  Counts-iff mdef tag = both_iff (IsChecked-iff tag) (
      chain_iff (and_iff opts.check_repeated_tags _)
        (both_iff same_iff (not-true_iff (contains mdef.member_tags tag))))

  -- No counted tag comes twice.
  unfoldable pub NoneTwice : MessageDef → List Field → Type 0
  NoneTwice mdef [] = Unit
  NoneTwice mdef (f ∷ fs) = (IsCounted mdef f.tag → All (λ g. g.tag ≢ f.tag) fs) × NoneTwice mdef fs

  pub NoneTwice-iff :
      (mdef : MessageDef) (fs : List Field)
      → IsUnrepeated crates self opts mdef fs ↔ NoneTwice mdef fs
  unfolding IsUnrepeated NoneTwice
  NoneTwice-iff mdef [] = (λ _. tt, λ _. tt)
  NoneTwice-iff mdef (f ∷ fs) =
      both_iff (given_iff (Counts-iff mdef f.tag) same_iff) (NoneTwice-iff mdef fs)

  pub All-good_iff :
      (mdef : MessageDef) (fs : List Field)
      → All (IsFine crates self opts mdef) fs
        ↔ All (λ f. IsChecked f.tag → IsGoodField crates self opts mdef f) fs
  unfolding IsFine
  All-good_iff mdef fs = All-iff _ _ fs λ f. given_iff (IsChecked-iff f.tag) same_iff
