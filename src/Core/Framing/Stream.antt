-- ===== src/Core/Framing/Stream.antt =====
-- `frame_length` on a stream: what it answers does not change when more bytes arrive, and before a
-- frame is complete it asks for more.
use truefix.Base.{
  ℕ, zero, suc, ◌+◌, ◌-◌, ◌≤◌, ◌<◌, ◌≡◌, ◌≢◌, refl, sym, ap, ◌∙◌, ◌⊎◌, inl, inr, not, [], ◌∷◌, ◌++◌,
  Option, none, some, Bytes, codes, length, length-append, take, drop, get_elem?, ltb, Lacks,
  Option-cases, Result, ok, err, stuck, arith, fail_if, >>=-congr, Bool-cases, le→ltb_false,
  length-drop, if◌then◌else◌,
}
use truefix.Core.Tags.{soh}
use truefix.Core.Errors.{DecodeError}
use truefix.Core.Framing.{
  find, starts_with, looks_like_fix_begin_string, frame_total, frame_body_length, check_trailer,
  frame_second, frame_first, frame_length,
}
use truefix.Core.Framing.Laws.{frame_length_sound, frame_total_lem, check_trailer_lem}

module _ (q : Bytes) where
  find-append :
      (p : Bytes) (b i : ℕ) → find p b ≡ some i → (find (p ++ q) b ≡ some i) × (i < length p)
  unfolding find
  find-append [] b i h = cc
  find-append (c ∷ p) b zero h = ground (arith, Option-cases (find p b))
  find-append (c ∷ p) b (suc i) h = ground (arith, find-append p b i)

  take-append : (i : ℕ) (p : Bytes) → i ≤ length p → take i (p ++ q) ≡ take i p
  take-append zero p h = refl
  take-append (suc i) [] h = absurd (omega arith)
  take-append (suc i) (c ∷ p) h = ap (λ t. c ∷ t) (take-append i p (omega arith))

  drop-append : (i : ℕ) (p : Bytes) → i ≤ length p → drop i (p ++ q) ≡ drop i p ++ q
  drop-append zero p h = refl
  drop-append (suc i) [] h = absurd (omega arith)
  drop-append (suc i) (c ∷ p) h = drop-append i p (omega arith)

  get_elem?-append_lt : (p : Bytes) (i : ℕ) → i < length p → get_elem? (p ++ q) i ≡ get_elem? p i
  get_elem?-append_lt [] i h = absurd (omega arith)
  get_elem?-append_lt (c ∷ p) zero h = refl
  get_elem?-append_lt (c ∷ p) (suc i) h = get_elem?-append_lt p i (omega arith)

  -- A prefix test that a longer text does not change: enough bytes are there, or a byte that the
  -- prefix lacks.
  starts_with-append_length :
      (s p : Bytes) → length s ≤ length p → starts_with s (p ++ q) ≡ starts_with s p
  unfolding starts_with
  starts_with-append_length [] p h = refl
  starts_with-append_length (c ∷ s) [] h = absurd (omega arith)
  starts_with-append_length (c ∷ s) (d ∷ p) h = ground (arith, starts_with-append_length s p)

  starts_with-append_soh :
      (s p : Bytes) (i : ℕ)
      → Lacks soh s
      → find p soh ≡ some i
      → starts_with s (p ++ q) ≡ starts_with s p
  unfolding starts_with find
  starts_with-append_soh [] p i l h = refl
  starts_with-append_soh (c ∷ s) [] i l h = cc
  starts_with-append_soh (c ∷ s) (d ∷ p) zero (lc, l) h = ground (arith, Option-cases (find p soh))
  starts_with-append_soh (c ∷ s) (d ∷ p) (suc i) (lc, l) h =
      ground (arith, starts_with-append_soh s p i l)

  check_trailer_same :
      (p : Bytes) (total : ℕ)
      → 7 ≤ total
      → total ≤ length p
      → check_trailer (p ++ q) total ≡ check_trailer p total
  unfolding check_trailer
  check_trailer_same p total h long = rw (
    le→ltb_false (length (p ++ q)) total (omega (arith, length-append p q)),
    le→ltb_false (length p) total long,
    drop-append (total - 7) p (omega arith),
    starts_with-append_length (codes "10=") (drop (total - 7) p)
        (omega (arith, length-drop {0} (total - 7) p)),
    get_elem?-append_lt p (total - 1) (omega arith),
  )

  check_trailer-append :
      (p : Bytes) (total : ℕ) {r : Result (Option ℕ) DecodeError}
      → 7 ≤ total
      → check_trailer p total ≡ r
      → r ≢ ok none
      → check_trailer (p ++ q) total ≡ r
  unfolding check_trailer
  check_trailer-append p total h e ne = elim (Bool-cases (ltb (length p) total)) [
    | inl short ↦ absurd (ne (sym (rw short at e)))
    | inr long ↦ check_trailer_same p total h (ground arith) ∙ e
  ]

  frame_second-append :
      (p : Bytes) (soh1 : ℕ) (after8 : Bytes) (o : Option ℕ) {r : Result (Option ℕ) DecodeError}
      → find after8 soh ≡ o
      → frame_second p soh1 after8 o ≡ r
      → r ≢ ok none
      → frame_second (p ++ q) soh1 (after8 ++ q) (find (after8 ++ q) soh) ≡ r
  unfolding frame_second
  frame_second-append p soh1 after8 none f e ne = absurd (ne (sym e))
  frame_second-append p soh1 after8 (some i) f e ne =
      rw
        (
          (find-append after8 soh i f).0,
          take-append i after8 (omega (arith, (find-append after8 soh i f).1)),
        )
        (>>=-congr (frame_body_length (take i after8)) _ _ e λ body hb e1.
          >>=-congr (frame_total soh1 i body) _ _ e1 λ total ht e2.
            check_trailer-append p total (omega (arith, frame_total_lem soh1 i body total ht)) e2
              ne)

  frame_first-append :
      (p : Bytes) (o : Option ℕ) {r : Result (Option ℕ) DecodeError}
      → find p soh ≡ o
      → frame_first p o ≡ r
      → r ≢ ok none
      → frame_first (p ++ q) (find (p ++ q) soh) ≡ r
  unfolding frame_first
  frame_first-append p none f e ne = absurd (ne (sym e))
  frame_first-append p (some i) f e ne =
      let inside = (find-append p soh i f).1 in
      rw
        (
          (find-append p soh i f).0,
          starts_with-append_soh (codes "8=") p i (omega arith) f,
          take-append i p (omega (arith, inside)),
          drop-append (i + 1) p (omega (arith, inside)),
        )
        (>>=-congr (fail_if (not (starts_with (codes "8=") p)) _) _ _ e λ u hu e1.
          >>=-congr (fail_if (not (looks_like_fix_begin_string (drop 2 (take i p)))) _) _ _ e1
            λ w hw e2.
              frame_second-append p i (drop (i + 1) p) (find (drop (i + 1) p) soh) refl e2 ne)

  -- An answer other than "more bytes are needed" stays when more bytes arrive.
  pub frame_length-append :
      (p : Bytes) {r : Result (Option ℕ) DecodeError}
      → frame_length p ≡ r
      → r ≢ ok none
      → frame_length (p ++ q) ≡ r
  unfolding frame_length
  frame_length-append p e ne = frame_first-append p (find p soh) refl e ne

module _ (q : Bytes) where
  find-prefix : (p : Bytes) (b i : ℕ) → find (p ++ q) b ≡ some i → i < length p → find p b ≡ some i
  unfolding find
  find-prefix [] b i h lt = absurd (omega arith)
  find-prefix (c ∷ p) b zero h lt =
      ground (arith, Option-cases (find p b), Option-cases (find (p ++ q) b))
  find-prefix (c ∷ p) b (suc i) h lt =
      ground (arith, find-prefix p b i, Option-cases (find p b), Option-cases (find (p ++ q) b))

  frame_second_back :
      (p : Bytes) (i j n : ℕ) (after : Bytes)
      → i + j + 9 ≤ length p
      → n ≤ length p
      → j ≤ length after
      → frame_second (p ++ q) i (after ++ q) (some j) ≡ ok (some n)
      → frame_second p i after (some j) ≡ ok (some n)
  unfolding frame_second
  frame_second_back p i j n after room fits inside h =
      >>=-congr (frame_body_length (take j after)) _ _ (rw (take-append q j after inside) at h)
        λ body hb h1. >>=-congr (frame_total i j body) _ _ h1 λ total ht h2.
          let same = (check_trailer_lem (p ++ q) total n h2).0 in
          sym (
            check_trailer_same q p total (omega (arith, frame_total_lem i j body total ht))
              (omega arith))
          ∙ h2

  frame_first_back :
      (p : Bytes) (i j n : ℕ)
      → i + j + 9 ≤ length p
      → n ≤ length p
      → find (drop (i + 1) p ++ q) soh ≡ some j
      → frame_first (p ++ q) (some i) ≡ ok (some n)
      → frame_first p (some i) ≡ ok (some n)
  unfolding frame_first
  frame_first_back p i j n room fits f2 h =
      let after = drop (i + 1) p in
      let len_after = length-drop {0} (i + 1) p in
      let parts =
        rw
          (
            starts_with-append_length q (codes "8=") p (omega arith),
            take-append q i p (omega arith),
            drop-append q (i + 1) p (omega arith),
            f2,
          )
          at h in
      >>=-congr (fail_if (not (starts_with (codes "8=") p)) _) _ _ parts λ u hu e1.
        >>=-congr (fail_if (not (looks_like_fix_begin_string (drop 2 (take i p)))) _) _ _ e1
          λ w hw e2.
            rw (find-prefix after soh j f2 (omega (arith, len_after)))
              (frame_second_back p i j n after room fits (omega (arith, len_after)) e2)

  -- A frame is found as soon as its bytes are there.
  pub frame_length_back :
      (p : Bytes) (n : ℕ)
      → frame_length (p ++ q) ≡ ok (some n)
      → n ≤ length p
      → frame_length p ≡ ok (some n)
  unfolding frame_length
  frame_length_back p n h fits =
      let parts = frame_length_sound (p ++ q) n h in
      let i = parts.soh1 in
      let second = rw (drop-append q (i + 1) p (omega (arith, parts.size))) at parts.second_field in
      rw (find-prefix p soh i parts.first_field (omega (arith, parts.size))) (
        frame_first_back p i parts.soh2 n (omega (arith, parts.size)) fits second
          (rw parts.first_field at h))

Result-split : (r : Result (Option ℕ) DecodeError) → (r ≡ ok none) ⊎ (r ≢ ok none)
Result-split (ok none) = inl refl
Result-split (ok (some n)) = inr (λ e. cc)
Result-split (err x) = inr (λ e. cc)
Result-split stuck = inr (λ e. cc)

-- The stream `p ++ q` starts with a frame of `n` bytes: as long as fewer bytes than that have
-- arrived, `frame_length` asks for more, and from then on it answers `n`.
pub frame_length_prefix :
    (p q : Bytes) (n : ℕ)
    → frame_length (p ++ q) ≡ ok (some n)
    → frame_length p ≡ (if ltb (length p) n then ok none else ok (some n))
frame_length_prefix p q n h = elim (Bool-cases (ltb (length p) n)) [
  | inl short ↦ rw short (elim (Result-split (frame_length p)) [
    | inl more ↦ more
    | inr ne ↦ absurd (too_short ne (ground arith))
  ])
  | inr long ↦ rw long (frame_length_back q p n h (ground arith))
]
  where
    too_short : frame_length p ≢ ok none → length p < n → ⊥
    too_short ne lt =
        let e = sym (frame_length-append q p refl ne) ∙ h in
        omega (arith, (frame_length_sound p n e).frame.inside)
