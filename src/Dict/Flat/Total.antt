-- ===== src/Dict/Flat/Total.antt =====
-- The walk over a flat group always returns: two units of fuel per field are enough.
use truefix.Base.{ℕ, zero, suc, ◌+◌, ◌*◌, ◌≤◌, ◌<◌, List, [], ◌∷◌, length, ◌==◌, ok, arith}
use truefix.Base.Int.{ℤ}
use truefix.Core.FieldMap.{Field}
use truefix.Core.Times.{Crates, as_int}
use truefix.Dict.Outcome.{
  ok-Returns, Ends, Returns, Ends-bind, Ends-map, then-Ends, guard-Returns, fail_if-Returns,
  ok_or-Returns,
}
use truefix.Dict.Model.{DataDictionary, GroupDef, ValidationOptions, group_def, is_group_count}
use truefix.Dict.Fields.{test_rule, option_rule}
use truefix.Dict.Structured.{check_order}
use truefix.Dict.Structured.Total.{check_member_field-Returns}
use truefix.Dict.Flat.{
  validate_group, validate_group_entries, validate_group_members, validate_flat_groups, check_seen,
  check_entry_end, ends_entry, index_in,
}

-- No more than `n` fields are left, fewer than `n`, and the same behind a count.
abbrev AtMost : ℕ → List Field → Type 0
AtMost n rest = length rest ≤ n

abbrev Fewer : ℕ → List Field → Type 0
Fewer n rest = length rest < n

abbrev Counted : ℕ → ℕ × List Field → Type 0
Counted n (found, rest) = length rest ≤ n

check_seen-Returns : (seen tags : List ℕ) → Returns (check_seen seen tags)
unfolding check_seen
check_seen-Returns seen [] = ok-Returns tt
check_seen-Returns seen (tag ∷ tags) = guard-Returns _ _ _ _ (check_seen-Returns seen tags)

check_entry_end-Returns :
    (opts : ValidationOptions) (gdef : GroupDef) (seen : List ℕ)
    → Returns (check_entry_end opts gdef seen)
unfolding check_entry_end
check_entry_end-Returns opts gdef seen =
    test_rule Returns (opts.check_required_fields) _ _ (λ _. check_seen-Returns seen gdef.required)
      λ _. ok-Returns tt

module _ (crates : Crates) (self : DataDictionary) (opts : ValidationOptions) where
  mutual
    unfolding validate_group check_order Ends Returns

    group-Ends :
        (fuel : ℕ) (f : Field) (fs : List Field) (tag : ℕ)
        → 2 * length (f ∷ fs) ≤ fuel
        → Ends (Fewer (length (f ∷ fs))) (validate_group crates self opts fuel (f ∷ fs) tag)
    group-Ends zero f fs tag enough = absurd (omega arith)
    group-Ends (suc fuel) f fs tag enough =
        option_rule (Ends (Fewer (length (f ∷ fs)))) (group_def self tag) _ _ (λ _. omega arith)
          λ gdef _.
            Ends-bind (λ _. Unit) (Fewer (length (f ∷ fs))) _ _ ((ok_or-Returns (as_int f) _ _))
              λ declared _.
                Ends-bind (Counted (length fs)) (Fewer (length (f ∷ fs))) _ _
                  (entries-Ends fuel fs gdef declared 0 (omega arith))
                  λ (found, rest) short.
                    then-Ends (Fewer (length (f ∷ fs))) _ (ok rest) (fail_if-Returns _ _ _)
                      (omega arith)

    entries-Ends :
        (fuel : ℕ) (fs : List Field) (gdef : GroupDef) (declared : ℤ) (found : ℕ)
        → 2 * length fs ≤ fuel
        → Ends
            (Counted (length fs))
            (validate_group_entries crates self opts fuel fs gdef declared found)
    entries-Ends fuel [] gdef declared found enough = omega arith
    entries-Ends zero (f ∷ fs) gdef declared found enough = absurd (omega arith)
    entries-Ends (suc fuel) (f ∷ fs) gdef declared found enough =
        test_rule (Ends (Counted (length (f ∷ fs)))) (f.tag == gdef.delimiter) _ _
          (λ _.
            then-Ends (Counted (length (f ∷ fs))) _ _
              (check_member_field-Returns crates self opts gdef f)
              (Ends-bind (AtMost (length fs)) (Counted (length (f ∷ fs))) _ _
                (members-Ends fuel fs gdef 0 (gdef.delimiter ∷ []) (omega arith))
                λ rest short.
                  Ends-map (Counted (length rest)) (Counted (length (f ∷ fs))) _
                    (λ (n, left) less. omega arith)
                    (entries-Ends fuel rest gdef declared (suc found) (omega arith))))
          λ _.
            then-Ends (Counted (length (f ∷ fs))) _ (ok (found, f ∷ fs)) (fail_if-Returns _ _ _)
              (omega arith)

    members-Ends :
        (fuel : ℕ) (fs : List Field) (gdef : GroupDef) (last_idx : ℕ) (seen : List ℕ)
        → 2 * length fs + 1 ≤ fuel
        → Ends
            (AtMost (length fs))
            (validate_group_members crates self opts fuel fs gdef last_idx seen)
    members-Ends fuel [] gdef last_idx seen enough =
        then-Ends (AtMost 0) _ (ok []) (check_entry_end-Returns opts gdef seen) (omega arith)
    members-Ends zero (f ∷ fs) gdef last_idx seen enough = absurd (omega arith)
    members-Ends (suc fuel) (f ∷ fs) gdef last_idx seen enough =
        test_rule (Ends (AtMost (length (f ∷ fs)))) (ends_entry gdef f.tag) _ _
          (λ _.
            then-Ends (AtMost (length (f ∷ fs))) _ (ok (f ∷ fs))
              (check_entry_end-Returns opts gdef seen) (omega arith))
          λ _. then-Ends (AtMost (length (f ∷ fs))) _ _ (fail_if-Returns _ _ _) (
            test_rule (Ends (AtMost (length (f ∷ fs)))) (is_group_count self f.tag) _ _
              (λ _.
                Ends-bind (Fewer (length (f ∷ fs))) (AtMost (length (f ∷ fs))) _ _
                  (group-Ends fuel f fs f.tag (omega arith))
                  λ rest short.
                    Ends-map (AtMost (length rest)) (AtMost (length (f ∷ fs))) _
                      (λ left less. omega arith)
                      (members-Ends fuel rest gdef (index_in gdef f.tag) (f.tag ∷ seen)
                        (omega arith)))
              λ _.
                then-Ends (AtMost (length (f ∷ fs))) _ _
                  (check_member_field-Returns crates self opts gdef f)
                  (Ends-map (AtMost (length fs)) (AtMost (length (f ∷ fs))) _
                    (λ left less. omega arith)
                    (members-Ends fuel fs gdef (index_in gdef f.tag) (f.tag ∷ seen) (omega arith))))

  pub validate_flat_groups-Returns :
      (fuel : ℕ) (fs : List Field)
      → length fs ≤ fuel
      → Returns (validate_flat_groups crates self opts fuel fs)
  unfolding validate_flat_groups Returns Ends
  validate_flat_groups-Returns fuel [] enough = ok-Returns tt
  validate_flat_groups-Returns zero (f ∷ fs) enough = absurd (omega arith)
  validate_flat_groups-Returns (suc fuel) (f ∷ fs) enough =
      test_rule Returns (is_group_count self f.tag) _ _
        (λ _.
          Ends-bind (Fewer (length (f ∷ fs))) (λ _. Unit) _ _
            (group-Ends (2 * length (f ∷ fs)) f fs f.tag (omega arith))
            λ rest short. validate_flat_groups-Returns fuel rest (omega arith))
        λ _. validate_flat_groups-Returns fuel fs (omega arith)
