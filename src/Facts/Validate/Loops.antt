-- ===== src/Facts/Validate/Loops.antt =====
-- The loops of crates/zag-facts/src/validate.rs, each clean exactly when its columns are in order.
use zag.Prelude.{
  ℕ, zero, suc, ◌+◌, ◌<◌, ◌≤◌, ◌≡◌, ◌↔◌, inl, inr, refl, sym, false, not, none, some, List, [], ◌∷◌,
  ◌++◌, arith, ltb, ◌==◌, length, get_elem?, get_elem?-of_lt, drop, drop-cons, Follow, Follow-le,
  AscendsFrom, u32_mod, u32_checked_add, Option-cases, dec_lt,
}
use mathlib.Core.Path.{subst}
use zag.Facts.Validate.{
  Violation, string_offsets_not_monotonic, string_offset_out_of_range,
  string_blob_not_fully_covered,
}
use zag.Facts.Validate.Checks.{
  add_if, check_offsets, last_of, check_string_columns, check_owners, check_end, check_ascending,
  check_order,
}
use zag.Facts.Validate.Clean.{Clean, Clean-then, Clean-iff, Clean-same, Clean-add_if, not-snoc}

abbrev pub Ascends : List ℕ → Type 0
Ascends [] = Unit
Ascends (x ∷ xs) = AscendsFrom x xs

not-ltb_iff : (a b : ℕ) → (ltb a b ≡ false) ↔ (b ≤ a)
not-ltb_iff a b = (λ h. ground arith, λ h. ground arith)

not-eq_iff : (a b : ℕ) → (not (a == b) ≡ false) ↔ (a ≡ b)
not-eq_iff a b = (λ h. ground arith, λ h. ground arith)

Clean-check_ascending :
    (descent : ℕ → Violation) (previous row : ℕ) (values : List ℕ)
    → Clean (check_ascending descent previous row values) (AscendsFrom previous values)
unfolding check_ascending
Clean-check_ascending descent previous row [] violations = Clean-same violations
Clean-check_ascending descent previous row (value ∷ values) violations =
    Clean-then (add_if (ltb value previous) (descent row))
      (check_ascending descent value (row + 1) values) _ _
      (Clean-iff _ _ _ (Clean-add_if (ltb value previous) (descent row))
        (not-ltb_iff value previous))
      (Clean-check_ascending descent value (row + 1) values) violations

pub Clean-check_order :
    (descent : ℕ → Violation) (values : List ℕ)
    → Clean (check_order descent values) (Ascends values)
unfolding check_order
Clean-check_order descent [] violations = Clean-same violations
Clean-check_order descent (value ∷ values) violations =
    Clean-check_ascending descent value 1 values violations

-- The offsets begin at 0, ascend, and end with the length of the bytes.
abbrev pub Covers : List ℕ → List ℕ → Type 0
Covers [] bytes = length bytes ≡ 0
Covers (first ∷ offsets) bytes =
    (first ≡ 0) × AscendsFrom first offsets × (last_of first offsets ≡ length bytes)

pub AscendsFrom-le-last :
    (first : ℕ) (offsets : List ℕ) → AscendsFrom first offsets → first ≤ last_of first offsets
AscendsFrom-le-last first [] h = omega arith
AscendsFrom-le-last first (offset ∷ offsets) h =
    omega (arith, AscendsFrom-le-last offset offsets h.1)

-- Each offset in its place, and none behind the bytes.
OffsetsFrom : ℕ → List ℕ → ℕ → Type 0
OffsetsFrom previous [] size = Unit
OffsetsFrom previous (offset ∷ offsets) size =
    ((previous ≤ offset) × (offset ≤ size)) × OffsetsFrom offset offsets size

Clean-check_offsets :
    (previous index : ℕ) (offsets : List ℕ) (size : ℕ)
    → Clean (check_offsets previous index offsets size) (OffsetsFrom previous offsets size)
unfolding check_offsets OffsetsFrom
Clean-check_offsets previous index [] size violations = Clean-same violations
Clean-check_offsets previous index (offset ∷ offsets) size violations =
    Clean-then
      (λ vs.
        add_if (ltb size offset) (string_offset_out_of_range index)
          (add_if (ltb offset previous) (string_offsets_not_monotonic index) vs))
      (check_offsets offset (index + 1) offsets size) _ _
      (Clean-then (add_if (ltb offset previous) (string_offsets_not_monotonic index))
        (add_if (ltb size offset) (string_offset_out_of_range index)) _ _
        (Clean-iff _ _ _ (Clean-add_if (ltb offset previous) _) (not-ltb_iff offset previous))
        (Clean-iff _ _ _ (Clean-add_if (ltb size offset) _) (not-ltb_iff size offset)))
      (Clean-check_offsets offset (index + 1) offsets size) violations

OffsetsFrom-iff :
    (previous : ℕ) (offsets : List ℕ) (size : ℕ)
    → last_of previous offsets ≡ size
    → OffsetsFrom previous offsets size ↔ AscendsFrom previous offsets
unfolding OffsetsFrom
OffsetsFrom-iff previous [] size e = (λ h. tt, λ h. tt)
OffsetsFrom-iff previous (offset ∷ offsets) size e =
    let rest = OffsetsFrom-iff offset offsets size e in
    (
      λ h. (h.0.0, rest.0 h.1),
      λ h. ((h.0, omega (arith, e, AscendsFrom-le-last offset offsets h.1)), rest.1 h.1),
    )

pub Clean-check_string_columns :
    (bytes offsets : List ℕ) → Clean (check_string_columns bytes offsets) (Covers offsets bytes)
unfolding check_string_columns
Clean-check_string_columns bytes [] =
    Clean-iff _ _ _ (Clean-add_if (not (length bytes == 0)) _) (not-eq_iff (length bytes) 0)
Clean-check_string_columns bytes (first ∷ offsets) =
    let size = length bytes in
    Clean-iff _ _ _
      (Clean-then
        (λ vs.
          check_offsets first 1 offsets size
            (add_if (not (first == 0)) (string_offsets_not_monotonic 0) vs))
        (add_if (not (last_of first offsets == size))
          (string_blob_not_fully_covered (last_of first offsets) size))
        _ _
        (Clean-then (add_if (not (first == 0)) (string_offsets_not_monotonic 0))
          (check_offsets first 1 offsets size) _ _
          (Clean-iff _ _ _ (Clean-add_if (not (first == 0)) _) (not-eq_iff first 0))
          (Clean-check_offsets first 1 offsets size))
        (Clean-iff _ _ _ (Clean-add_if (not (last_of first offsets == size)) _)
          (not-eq_iff (last_of first offsets) size)))
      (
        λ h. (h.0.0, (OffsetsFrom-iff first offsets size h.1).0 h.0.1, h.1),
        λ h. ((h.0, (OffsetsFrom-iff first offsets size h.2).1 h.1), h.2),
      )

-- The ranges of the owners.
drop_all : (i : ℕ) (xs : List ℕ) → length xs ≡ i → drop i xs ≡ []
drop_all zero [] e = refl
drop_all zero (x ∷ xs) e = absurd (omega arith)
drop_all (suc i) [] e = refl
drop_all (suc i) (x ∷ xs) e = drop_all i xs (omega arith)

checked : (a b : ℕ) → a + b < u32_mod → u32_checked_add a b ≡ some (a + b)
unfolding u32_checked_add
checked a b h = ground arith

unchecked : (a b : ℕ) → ¬ (a + b < u32_mod) → u32_checked_add a b ≡ none
unfolding u32_checked_add
unchecked a b h = ground arith

module _ (mismatch : ℕ → Violation) (starts counts : List ℕ) (owners_end total : ℕ)
    (follow : List Violation → List Violation) (Q : Type 0) (clean : Clean follow Q) where
  -- The rest of the loop, and what is behind it.
  owners_from : ℕ → ℕ → ℕ → List Violation → List Violation
  owners_from owners owner expected violations =
      check_end mismatch owners_end total follow
        (check_owners mismatch starts counts owners owner expected violations)

  owners_zero :
      (owner expected : ℕ) (violations : List Violation)
      → owners_from 0 owner expected violations
        ≡ follow (add_if (not (expected == total)) (mismatch owners_end) violations)
  unfolding owners_from check_owners check_end
  owners_zero owner expected violations = refl

  owners_no_start :
      (owners owner expected : ℕ) (violations : List Violation)
      → get_elem? starts owner ≡ none
      → owners_from (suc owners) owner expected violations ≡ violations
  unfolding owners_from check_owners check_end
  owners_no_start owners owner expected violations s = rw (s, check_owners) refl

  owners_no_count :
      (owners owner expected start : ℕ) (violations : List Violation)
      → get_elem? starts owner ≡ some start
      → get_elem? counts owner ≡ none
      → owners_from (suc owners) owner expected violations ≡ violations
  unfolding owners_from check_owners check_end
  owners_no_count owners owner expected start violations s c =
      rw (s, check_owners) (rw (c, check_owners) refl)

  owners_step :
      (owners owner expected start count : ℕ) (violations : List Violation)
      → get_elem? starts owner ≡ some start
      → get_elem? counts owner ≡ some count
      → start + count < u32_mod
      → owners_from (suc owners) owner expected violations
        ≡ owners_from owners
            (owner + 1)
            (start + count)
            (add_if (not (start == expected)) (mismatch owner) violations)
  unfolding owners_from check_owners check_end
  owners_step owners owner expected start count violations s c small =
      rw (s, check_owners)
        (rw (c, check_owners) (rw (checked start count small, check_owners) refl))

  owners_overflow :
      (owners owner expected start count : ℕ) (violations : List Violation)
      → get_elem? starts owner ≡ some start
      → get_elem? counts owner ≡ some count
      → ¬ (start + count < u32_mod)
      → owners_from (suc owners) owner expected violations
        ≡ add_if (not (start == expected)) (mismatch owner) violations ++ mismatch owner ∷ []
  unfolding owners_from check_owners check_end
  owners_overflow owners owner expected start count violations s c large =
      rw (s, check_owners)
        (rw (c, check_owners) (rw (unchecked start count large, check_owners) refl))

  Clean-owners_from :
      (owners owner expected : ℕ)
      → length starts ≡ owner + owners
      → length counts ≡ owner + owners
      → expected < u32_mod
      → Clean
          (owners_from owners owner expected)
          (Follow expected (drop owner starts) (drop owner counts) total × (total < u32_mod) × Q)
  Clean-owners_from zero owner expected s c small violations =
      rw
        (
          owners_zero owner expected violations,
          drop_all owner starts (omega arith),
          drop_all owner counts (omega arith),
        )
        (Clean-iff _ _ _
          (Clean-then (add_if (not (expected == total)) (mismatch owners_end)) follow _ _
            (Clean-iff _ _ _ (Clean-add_if (not (expected == total)) (mismatch owners_end))
              (not-eq_iff expected total))
            clean)
          (λ h. (h.0, omega (arith, small, h.0), h.1), λ h. (h.0, h.2)) violations)
  Clean-owners_from (suc owners) owner expected s c small violations =
      let (start, es) = get_elem?-of_lt starts owner (omega arith) in
      let (count, ec) = get_elem?-of_lt counts owner (omega arith) in
      rw (drop-cons owner starts start es, drop-cons owner counts count ec)
        (elim (dec_lt (start + count) u32_mod) [
          | no large ↦
              rw (owners_overflow owners owner expected start count violations es ec large) (
                λ h. absurd (not-snoc _ _ h),
                λ h. absurd (large (omega (arith, h.1.0.0, h.1.1, Follow-le _ _ _ _ h.1.0.1))),
              )
          | yes fits ↦ rw (owners_step owners owner expected start count violations es ec fits) (
              Clean-iff _ _ _
                (Clean-then (add_if (not (start == expected)) (mismatch owner))
                  (owners_from owners (owner + 1) (start + count)) _ _
                  (Clean-iff _ _ _ (Clean-add_if (not (start == expected)) (mismatch owner))
                    (not-eq_iff start expected))
                  (Clean-owners_from owners (owner + 1) (start + count) (omega arith) (omega arith)
                    fits))
                (
                  λ h. (
                    (
                      h.0,
                      subst
                          (λ k.
                            Follow (k + count) (drop (owner + 1) starts) (drop (owner + 1) counts)
                              total)
                          h.0 h.1.0,
                    ),
                    h.1.1,
                    h.1.2,
                  ),
                  λ h. (
                    h.0.0,
                    (
                      subst
                          (λ k.
                            Follow (k + count) (drop (owner + 1) starts) (drop (owner + 1) counts)
                              total)
                          (sym h.0.0) h.0.1,
                      h.1,
                      h.2,
                    ),
                  ),
                )
                violations)
        ])

  -- Whatever the columns, the loop takes no violation away.
  owners_keeps :
      (owners owner expected : ℕ) (violations : List Violation)
      → owners_from owners owner expected violations ≡ []
      → violations ≡ []
  owners_keeps zero owner expected violations h =
      ((Clean-add_if (not (expected == total)) (mismatch owners_end) violations).0
        ((clean _).0 (rw (owners_zero owner expected violations) at h)).0).0
  owners_keeps (suc owners) owner expected violations h =
      elim (Option-cases (get_elem? starts owner)) [
        | inl absent ↦ rw (owners_no_start owners owner expected violations absent) at h
        | inr (start, es) ↦ elim (Option-cases (get_elem? counts owner)) [
          | inl absent ↦ rw (owners_no_count owners owner expected start violations es absent) at h
          | inr (count, ec) ↦ elim (dec_lt (start + count) u32_mod) [
            | no large ↦ absurd (
                not-snoc _ _ (
                  rw (owners_overflow owners owner expected start count violations es ec large) at
                    h))
            | yes fits ↦
                ((Clean-add_if (not (start == expected)) (mismatch owner) violations).0 (
                  owners_keeps owners (owner + 1) (start + count) _ (
                    rw (owners_step owners owner expected start count violations es ec fits) at
                      h))).0
          ]
        ]
      ]

  pub ranges_keep :
      (owners : ℕ) (violations : List Violation)
      → check_end mismatch owners_end total follow
          (check_owners mismatch starts counts owners 0 0 violations)
        ≡ []
      → violations ≡ []
  unfolding owners_from
  ranges_keep owners violations h = owners_keeps owners 0 0 violations h

  pub Clean-ranges :
      (owners : ℕ)
      → length starts ≡ owners
      → length counts ≡ owners
      → Clean
          (λ violations.
            check_end mismatch owners_end total follow
              (check_owners mismatch starts counts owners 0 0 violations))
          (Follow 0 starts counts total × (total < u32_mod) × Q)
  unfolding owners_from
  Clean-ranges owners s c =
      Clean-owners_from owners 0 0 (omega (arith, s)) (omega (arith, c)) (omega arith)
