-- ===== src/Repair/Applies.antt =====
-- When crates/zag-repair/src/lib.rs applies repairs, and with what result.
use zag.Prelude.{
  ℕ, ◌≤◌, ◌≡◌, ◌≢◌, ◌↔◌, inl, inr, sym, ap, ◌∙◌, none, some, List, [], ◌∷◌, arith, length, All,
  Option-cases,
}
use zag.Repair.{
  Repair, RepairError, Indexed, order_from, check_spans, check_overlaps, splice, Applied, ok, err,
  panicked, apply_repairs,
}
use zag.Repair.Order.{
  InSource, Apart, Pairwise, check_spans-InSource, check_overlaps-Apart, check_overlaps-Before,
  All-order_from,
}
use zag.Repair.Weave.{woven, splice-woven}

-- Every span is in the source, and any two are apart.
abbrev pub CanApply : List ℕ → List Repair → Type 0
CanApply source repairs = All (InSource (length source)) repairs × Pairwise Apart repairs

all_from_start : (order : List Indexed) → All (λ x. 0 ≤ x.1.span_start) order
all_from_start [] = tt
all_from_start (x ∷ order) = (omega arith, all_from_start order)

-- Checked repairs are spliced without a panic.
splice-checked :
    (source : List ℕ) (repairs : List Repair)
    → All (InSource (length source)) repairs
    → check_overlaps (order_from 0 repairs) ≡ none
    → splice source (order_from 0 repairs) 0 [] ≡ some (woven 0 source (order_from 0 repairs))
splice-checked source repairs i e =
    let order = order_from 0 repairs in
    let inside = (All-order_from (InSource (length source)) 0 repairs).1 i in
    splice-woven source order 0 [] (omega arith) inside
      ((check_overlaps-Before (length source) order inside).0 e) (all_from_start order)

-- The result is one of three.
data Result (source : List ℕ) (repairs : List Repair) : Applied → Type 0 where
  applied :
      CanApply source repairs → Result source repairs (ok (woven 0 source (order_from 0 repairs)))
  refused :
      (error : RepairError) → (CanApply source repairs → ⊥) → Result source repairs (err error)

apply_repairs-Result :
    (source : List ℕ) (repairs : List Repair) → Result source repairs (apply_repairs source repairs)
unfolding apply_repairs
apply_repairs-Result source repairs =
    let spans = check_spans-InSource (length source) repairs in
    elim (Option-cases (check_spans (length source) repairs)) [
      | inr (error, e) ↦ rw (e, apply_repairs) (refused error (λ c. cc (sym e ∙ spans.1 c.0)))
      | inl fine ↦
          let i = spans.0 fine in
          let overlaps = check_overlaps-Apart (length source) repairs i in
          elim (Option-cases (check_overlaps (order_from 0 repairs))) [
            | inr (error, e) ↦
                rw (fine, apply_repairs)
                  (rw (e, apply_repairs) (refused error (λ c. cc (sym e ∙ overlaps.1 c.1))))
            | inl apart ↦
                let done = splice-checked source repairs i apart in
                rw (fine, apply_repairs)
                  (rw (apart, apply_repairs)
                    (rw (done, apply_repairs) (applied (i, overlaps.0 apart))))
          ]
    ]

Result_iff :
    (source : List ℕ) (repairs : List Repair) (result : Applied) (out : List ℕ)
    → Result source repairs result
    → (result ≡ ok out) ↔ (CanApply source repairs × (out ≡ woven 0 source (order_from 0 repairs)))
Result_iff source repairs _ out (applied can) = (λ h. (can, cc h), λ h. ap ok (sym h.1))
Result_iff source repairs _ out (refused error cannot) =
    (λ h. absurd (cc h), λ h. absurd (cannot h.0))

-- Applying repairs succeeds exactly when every span is in the source and any two are apart, and what
-- it gives is the source with each prefix in front of its span and each suffix behind it.
pub apply_repairs_iff :
    (source : List ℕ) (repairs : List Repair) (out : List ℕ)
    → (apply_repairs source repairs ≡ ok out)
      ↔ (CanApply source repairs × (out ≡ woven 0 source (order_from 0 repairs)))
apply_repairs_iff source repairs out =
    Result_iff source repairs (apply_repairs source repairs) out
      (apply_repairs-Result source repairs)

Result_returns :
    (source : List ℕ) (repairs : List Repair) (result : Applied)
    → Result source repairs result
    → result ≢ panicked
Result_returns source repairs _ (applied can) h = cc h
Result_returns source repairs _ (refused error cannot) h = cc h

-- Applying repairs never slices out of range.
pub apply_repairs_returns :
    (source : List ℕ) (repairs : List Repair) → apply_repairs source repairs ≢ panicked
apply_repairs_returns source repairs =
    Result_returns source repairs (apply_repairs source repairs)
      (apply_repairs-Result source repairs)
