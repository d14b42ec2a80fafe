-- ===== src/Facts/Validate/Clean.antt =====
-- Checks of crates/zag-facts/src/validate.rs that add no violation exactly when a property holds.
use Prim.Native.String.{String}
use zag.Prelude.{
  ℕ, ◌+◌, ◌<◌, ◌≡◌, ◌↔◌, ◌⊎◌, refl, Bool, true, false, ◌&&◌, List, [], ◌∷◌, ◌++◌, arith, ltb, ◌==◌,
  if◌then◌else◌, All,
}
use zag.Facts.Handles.{no_index}
use zag.Facts.Validate.{Violation, column_length_mismatch, handle_out_of_range}
use zag.Facts.Validate.Columns.{expect_length, expect_lengths}
use zag.Facts.Validate.Limits.{check_rows, check_column, check_columns}
use zag.Facts.Validate.Checks.{add_if}

-- From no violation the check gives none exactly when `P` holds, and it takes none away.
abbrev pub Clean : (List Violation → List Violation) → Type 0 → Type 0
Clean check P = (violations : List Violation) → (check violations ≡ []) ↔ ((violations ≡ []) × P)

pub Clean-then :
    (f g : List Violation → List Violation) (P Q : Type 0)
    → Clean f P
    → Clean g Q
    → Clean (λ violations. g (f violations)) (P × Q)
Clean-then f g P Q first second violations = (
  λ h.
      let (none_yet, q) = (second (f violations)).0 h in
      let (empty, p) = (first violations).0 none_yet in (empty, (p, q)),
  λ h. (second (f violations)).1 ((first violations).1 (h.0, h.1.0), h.1.1),
)

pub Clean-iff :
    (f : List Violation → List Violation) (P Q : Type 0) → Clean f P → (P ↔ Q) → Clean f Q
Clean-iff f P Q clean same violations = (
  λ h. let (empty, p) = (clean violations).0 h in (empty, same.0 p),
  λ h. (clean violations).1 (h.0, same.1 h.1),
)

pub Clean-same : Clean (λ violations. violations) (Unit {0})
Clean-same violations = (λ h. (h, tt), λ h. h.0)

pub not-snoc : (xs : List Violation) (x : Violation) → xs ++ x ∷ [] ≡ [] → ⊥
not-snoc [] x h = cc
not-snoc (y ∷ xs) x h = cc

pub Clean-add_if :
    (test : Bool) (violation : Violation) → Clean (add_if test violation) (test ≡ false)
Clean-add_if true violation violations =
    (λ h. absurd (not-snoc violations violation h), λ h. absurd (cc (h.1)))
Clean-add_if false violation violations = (λ h. (h, refl), λ h. h.0)

Clean-expect_length :
    (table column : String) (expected found : ℕ)
    → Clean (λ violations. expect_length violations table column expected found) (expected ≡ found)
unfolding expect_length
Clean-expect_length table column expected found violations =
    let never = not-snoc violations (column_length_mismatch table column expected found) in
    (λ h. ground (arith, never), λ h. ground arith)

pub Clean-expect_lengths :
    (calls : List (String × String × ℕ × ℕ))
    → Clean (λ violations. expect_lengths violations calls) (All (λ call. call.2 ≡ call.3) calls)
unfolding expect_lengths
Clean-expect_lengths [] violations = Clean-same violations
Clean-expect_lengths ((table, column, expected, found) ∷ calls) violations =
    Clean-then (λ violations. expect_length violations table column expected found)
      (λ violations. expect_lengths violations calls) _ _
      (Clean-expect_length table column expected found) (Clean-expect_lengths calls) violations

-- A handle that may be absent, and one that may not.
abbrev pub InRange : ℕ → Bool → ℕ → Type 0
InRange limit true value = (value ≡ no_index) ⊎ (value < limit)
InRange limit false value = value < limit

check_row : String → String → ℕ → ℕ → ℕ → Bool → List Violation → List Violation
check_row table column raw row limit allow_absent violations =
    if raw == no_index && allow_absent
    then violations
    else if ltb raw limit
    then violations
    else violations ++ handle_out_of_range table column row raw ∷ []

Clean-check_row :
    (table column : String) (raw row limit : ℕ) (allow_absent : Bool)
    → Clean (check_row table column raw row limit allow_absent) (InRange limit allow_absent raw)
unfolding check_row
Clean-check_row table column raw row limit true violations =
    let never = not-snoc violations (handle_out_of_range table column row raw) in
    (λ h. ground (arith, never), λ h. ground arith)
Clean-check_row table column raw row limit false violations =
    let never = not-snoc violations (handle_out_of_range table column row raw) in
    (λ h. ground (arith, never), λ h. ground arith)

Clean-check_rows :
    (table column : String) (values : List ℕ) (row limit : ℕ) (allow_absent : Bool)
    → Clean
        (λ violations. check_rows violations table column values row limit allow_absent)
        (All (InRange limit allow_absent) values)
unfolding check_rows check_row
Clean-check_rows table column [] row limit allow_absent violations = Clean-same violations
Clean-check_rows table column (raw ∷ values) row limit allow_absent violations =
    Clean-then (check_row table column raw row limit allow_absent)
      (λ violations. check_rows violations table column values (row + 1) limit allow_absent) _ _
      (Clean-check_row table column raw row limit allow_absent)
      (Clean-check_rows table column values (row + 1) limit allow_absent) violations

pub Clean-check_columns :
    (calls : List (String × String × List ℕ × ℕ × Bool))
    → Clean
        (λ violations. check_columns violations calls)
        (All (λ call. All (InRange call.3 call.4) call.2) calls)
unfolding check_columns check_column
Clean-check_columns [] violations = Clean-same violations
Clean-check_columns ((table, column, values, limit, allow_absent) ∷ calls) violations =
    Clean-then (λ violations. check_column violations table column values limit allow_absent)
      (λ violations. check_columns violations calls) _ _
      (Clean-check_rows table column values 0 limit allow_absent) (Clean-check_columns calls)
      violations
