-- ===== src/Repair/Errors.antt =====
-- Which repairs the errors of crates/zag-repair/src/lib.rs name.
use zag.Prelude.{
  ℕ, suc, ◌+◌, ◌<◌, ◌≤◌, ◌≡◌, ◌≢◌, ◌⊎◌, inl, inr, refl, sym, ap, ◌∙◌, ◌||◌, none, some, List, [],
  ◌∷◌, arith, ltb, length, get_elem?, All, All_imp, Bool-cases, Option-cases,
}
use mathlib.Core.Option.{some-injective}
use mathlib.Core.Path.{subst}
use zag.Repair.{
  Repair, RepairError, span_out_of_range, overlapping_repairs, Indexed, order_from, check_spans,
  check_windows, check_overlaps, splice, ok, err, panicked, apply_repairs,
}
use zag.Repair.Order.{
  InSource, Apart, All-order_from, Pairwise, KeyLe, order_from-sorted, All-insert, Pairwise-insert,
  check_spans-InSource,
}

-- A repair of the list whose span is not in the source.
abbrev pub Outside : ℕ → List Repair → ℕ → ℕ → Type 0
Outside size repairs start end =
    (row : ℕ) × (repair : Repair) × (get_elem? repairs row ≡ some repair)
    × (repair.span_start ≡ start)
    × (repair.span_end ≡ end)
    × ((end < start) ⊎ (size < end))

-- Two repairs of the list that are not apart, in rows of their own.
abbrev pub Overlap : List Repair → ℕ → ℕ → Type 0
Overlap repairs i j =
    (i ≢ j)
    × (a : Repair) × (b : Repair) × (get_elem? repairs i ≡ some a)
    × (get_elem? repairs j ≡ some b)
    × (Apart a b → ⊥)

-- What an error says.
pub Blames : ℕ → List Repair → RepairError → Type 0
Blames size repairs (span_out_of_range start end) = Outside size repairs start end
Blames size repairs (overlapping_repairs earlier later) =
    All (InSource size) repairs × Overlap repairs earlier later

Names : ℕ → List Repair → RepairError → Type 0
Names size repairs error =
    (start : ℕ) × (end : ℕ) × (error ≡ span_out_of_range start end) × Outside size repairs start end

check_spans-Names :
    (size : ℕ) (repairs : List Repair) (error : RepairError)
    → check_spans size repairs ≡ some error
    → Names size repairs error
unfolding check_spans Names
check_spans-Names size [] error e = cc e
check_spans-Names size (repair ∷ repairs) error e =
    elim (Bool-cases (ltb repair.span_end repair.span_start || ltb size repair.span_end)) [
      | inl bad ↦
          let same = some-injective _ error (rw (bad, check_spans) at e) in
          (
            repair.span_start,
            repair.span_end,
            sym same,
            (0, repair, refl, refl, refl, ground arith),
          )
      | inr good ↦
          let later = check_spans-Names size repairs error (rw (good, check_spans) at e) in
          let out = later.3 in
          (later.0, later.1, later.2, (suc out.0, out.1, out.2, out.3, out.4, out.5))
    ]

-- Each index is of its repair.
Placed : List Repair → Indexed → Type 0
Placed repairs x = get_elem? repairs x.0 ≡ some x.1

-- The indices start where the numbering does.
order_from-least :
    (index : ℕ) (repairs : List Repair) → All (λ x. index ≤ x.0) (order_from index repairs)
unfolding order_from
order_from-least index [] = tt
order_from-least index (repair ∷ repairs) =
    (All-insert (λ x. index ≤ x.0) (index, repair) (order_from (index + 1) repairs)).1 (
      omega arith,
      All_imp _ _ (order_from (index + 1) repairs) (λ x l. omega arith)
          (order_from-least (index + 1) repairs),
    )

-- No index is there twice.
order_from-distinct :
    (index : ℕ) (repairs : List Repair) → Pairwise (λ a b. a.0 ≢ b.0) (order_from index repairs)
unfolding order_from
order_from-distinct index [] = tt
order_from-distinct index (repair ∷ repairs) =
    (Pairwise-insert (λ a b. a.0 ≢ b.0) (index, repair) (order_from (index + 1) repairs)
        (λ a b ne e. ne (sym e))).1
      (
        All_imp _ _ (order_from (index + 1) repairs) (λ x l e. omega (arith, l, e))
            (order_from-least (index + 1) repairs),
        order_from-distinct (index + 1) repairs,
      )

order_from-Placed :
    (all : List Repair) (index : ℕ) (repairs : List Repair)
    → ((row : ℕ) → get_elem? all (index + row) ≡ get_elem? repairs row)
    → All (Placed all) (order_from index repairs)
unfolding order_from Placed
order_from-Placed all index [] h = tt
order_from-Placed all index (repair ∷ repairs) h =
    (All-insert (Placed all) (index, repair) (order_from (index + 1) repairs)).1 (
      ap (get_elem? all) {x = index} {y = index + 0} (omega arith) ∙ h 0,
      order_from-Placed all (index + 1) repairs (λ row.
          ap (get_elem? all) {x = index + 1 + row} {y = index + suc row} (omega arith)
          ∙ h (suc row)),
    )

-- What a window that overlaps shows, in an order.
check_windows-Overlap :
    (size : ℕ) (all : List Repair) (earlier : Indexed) (order : List Indexed) (error : RepairError)
    → All (Placed all) (earlier ∷ order)
    → All (λ x. InSource size x.1) (earlier ∷ order)
    → Pairwise KeyLe (earlier ∷ order)
    → Pairwise (λ a b. a.0 ≢ b.0) (earlier ∷ order)
    → check_windows earlier order ≡ some error
    → (i : ℕ) × (j : ℕ) × (error ≡ overlapping_repairs i j) × Overlap all i j
unfolding check_windows Placed
check_windows-Overlap size all earlier [] error p i s d e = cc e
check_windows-Overlap size all earlier (later ∷ order) error p i s d e =
    elim (Bool-cases (ltb later.1.span_start earlier.1.span_end)) [
      | inl bad ↦
          let same = some-injective _ error (rw (bad, check_windows) at e) in
          (
            earlier.0,
            later.0,
            sym same,
            (
              d.0.0,
              earlier.1,
              later.1,
              p.0,
              p.1.0,
              λ apart. elim apart [ inl l ↦ ground arith | inr l ↦ ground (arith, s.0.0, i) ],
            ),
          )
      | inr good ↦
          check_windows-Overlap size all later order error p.1 i.1 s.1 d.1
            (rw (good, check_windows) at e)
    ]

first_window :
    (size : ℕ) (all : List Repair) (order : List Indexed) (error : RepairError)
    → All (Placed all) order
    → All (λ x. InSource size x.1) order
    → Pairwise KeyLe order
    → Pairwise (λ a b. a.0 ≢ b.0) order
    → check_overlaps order ≡ some error
    → (i : ℕ) × (j : ℕ) × (error ≡ overlapping_repairs i j) × Overlap all i j
unfolding check_overlaps
first_window size all [] error p i s d e = absurd (cc e)
first_window size all (first ∷ order) error p i s d e =
    check_windows-Overlap size all first order error p i s d e

check_overlaps-Overlap :
    (size : ℕ) (repairs : List Repair) (error : RepairError)
    → All (InSource size) repairs
    → check_overlaps (order_from 0 repairs) ≡ some error
    → (i : ℕ) × (j : ℕ) × (error ≡ overlapping_repairs i j) × Overlap repairs i j
check_overlaps-Overlap size repairs error i e =
    let row_at : (row : ℕ) → get_elem? repairs (0 + row) ≡ get_elem? repairs row =
      λ row. ap (get_elem? repairs) {x = 0 + row} {y = row} (omega arith) in
    first_window size repairs (order_from 0 repairs) error
      (order_from-Placed repairs 0 repairs row_at) ((All-order_from (InSource size) 0 repairs).1 i)
      (order_from-sorted 0 repairs) (order_from-distinct 0 repairs) e

-- Where both checks find nothing there is no error.
no_error :
    (source : List ℕ) (repairs : List Repair) (error : RepairError)
    → check_spans (length source) repairs ≡ none
    → check_overlaps (order_from 0 repairs) ≡ none
    → apply_repairs source repairs ≢ err error
unfolding apply_repairs
no_error source repairs error fine apart e =
    elim (Option-cases (splice source (order_from 0 repairs) 0 [])) [
      | inl stuck ↦
          let value : apply_repairs source repairs ≡ panicked =
            rw (fine, apply_repairs) (rw (apart, apply_repairs) (rw (stuck, apply_repairs) refl)) in
          cc (sym value ∙ e)
      | inr (out, done) ↦
          let value : apply_repairs source repairs ≡ ok out =
            rw (fine, apply_repairs) (rw (apart, apply_repairs) (rw (done, apply_repairs) refl)) in
          cc (sym value ∙ e)
    ]

-- An error that a span is out of range names a repair's span that is backwards or runs past the
-- source, and an error about an overlap names two rows, not the same, whose repairs have spans in
-- the source that are not apart.
pub apply_repairs-Blames :
    (source : List ℕ) (repairs : List Repair) (error : RepairError)
    → apply_repairs source repairs ≡ err error
    → Blames (length source) repairs error
unfolding apply_repairs Blames Names
apply_repairs-Blames source repairs error e =
    elim (Option-cases (check_spans (length source) repairs)) [
      | inr (found, ef) ↦
          let same : found ≡ error = cc (rw (ef, apply_repairs) at e) in
          let (start, end, named, out) = check_spans-Names (length source) repairs found ef in
          subst (Blames (length source) repairs) (sym named ∙ same) out
      | inl fine ↦
          let i = (check_spans-InSource (length source) repairs).0 fine in
          elim (Option-cases (check_overlaps (order_from 0 repairs))) [
            | inr (found, ef) ↦
                let value : apply_repairs source repairs ≡ err found =
                  rw (fine, apply_repairs) (rw (ef, apply_repairs) refl) in
                let same : found ≡ error = cc (sym value ∙ e) in
                let (a, b, named, overlap) =
                  check_overlaps-Overlap (length source) repairs found i ef in
                subst (Blames (length source) repairs) (sym named ∙ same) (i, overlap)
            | inl apart ↦ absurd (no_error source repairs error fine apart e)
          ]
    ]
