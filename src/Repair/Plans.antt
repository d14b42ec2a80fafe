-- ===== src/Repair/Plans.antt =====
-- Which repairs crates/zag-repair/src/lib.rs plans: conversions between integer types.
use zag.Prelude.{
  ℕ, suc, ◌<◌, ◌≤◌, ◌≡◌, ◌≢◌, ◌↔◌, ◌⊎◌, inl, inr, refl, sym, ap, ◌∙◌, Bool, true, false, ◌&&◌,
  Option, none, some, List, [], ◌∷◌, ◌++◌, arith, ltb, get_elem?, All, All_imp, Bool-cases,
  Option-cases,
}
use mathlib.Core.Option.{some-injective}
use zag.Repair.{
  DiagnosticCode, Diagnostic, Repair, IntegerType, integer_type, same_sign, same_width, same_type,
  narrower, widens, from_bytes, close_bytes, try_from_bytes, unwrap_bytes, wrap, conversion,
  repair_within, repair_for, plan_repairs,
}

-- Every value of the one type is a value of the other: the same sign, and a greater width.
abbrev pub Wider : IntegerType → IntegerType → Type 0
Wider found expected =
    (found.signed ≡ expected.signed)
    × (from : ℕ) × (to : ℕ) × (found.width ≡ some from)
    × (expected.width ≡ some to)
    × (from < to)

-- The text around the expression is a conversion that cannot fail, or else one that is unwrapped.
abbrev pub Converts : Diagnostic → Repair → IntegerType → IntegerType → Type 0
Converts diagnostic repair found expected =
    (Wider found expected
      × (repair.prefix ≡ diagnostic.expected ++ from_bytes)
      × (repair.suffix ≡ close_bytes))
    ⊎ ((Wider found expected → ⊥)
        × (repair.prefix ≡ diagnostic.expected ++ try_from_bytes)
        × (repair.suffix ≡ unwrap_bytes))

-- A repair for a diagnostic about two integer types that differ.
pub record Plans (diagnostic : Diagnostic) (repair : Repair) : Type 0 where
  pub mismatched : diagnostic.code ≡ DiagnosticCode.mismatched_types
  pub ordered : repair.span_start ≤ repair.span_end
  pub start : repair.span_start ≡ diagnostic.span_start
  pub end : repair.span_end ≡ diagnostic.span_end
  pub expected : IntegerType
  pub found : IntegerType
  pub expected_name : integer_type diagnostic.expected ≡ some expected
  pub found_name : integer_type diagnostic.found ≡ some found
  pub differ : expected ≢ found
  pub converts : Converts diagnostic repair found expected

same_sign_refl : (b : Bool) → same_sign b b ≡ true
same_sign_refl true = refl
same_sign_refl false = refl

same_sign_eq : (a b : Bool) → same_sign a b ≡ true → a ≡ b
same_sign_eq true true h = refl
same_sign_eq true false h = cc h
same_sign_eq false true h = cc h
same_sign_eq false false h = refl

same_width_refl : (w : Option ℕ) → same_width w w ≡ true
same_width_refl none = refl
same_width_refl (some w) = ground arith

same_type_refl : (a b : IntegerType) → a ≡ b → same_type a b ≡ true
same_type_refl a b e =
    ap (same_type a) (sym e)
    ∙ ap (λ s. s && same_width a.width a.width) (same_sign_refl a.signed)
    ∙ same_width_refl a.width

abbrev Narrower : Option ℕ → Option ℕ → Type 0
Narrower found expected =
    (from : ℕ) × (to : ℕ) × (found ≡ some from) × (expected ≡ some to) × (from < to)

narrower-Narrower :
    (found expected : Option ℕ) → (narrower found expected ≡ true) ↔ Narrower found expected
narrower-Narrower none expected = (λ h. absurd (cc h), λ h. absurd (cc h.2))
narrower-Narrower (some from) none = (λ h. absurd (cc h), λ h. absurd (cc h.3))
narrower-Narrower (some from) (some to) = (
  λ h. (from, to, refl, refl, ground arith),
  λ h.
      let a = some-injective from h.0 h.2 in
      let b = some-injective to h.1 h.3 in
      let l : from < to = omega (arith, a, b, h.4) in ground arith,
)

widens-Wider :
    (found expected : IntegerType) → (widens found expected ≡ true) ↔ Wider found expected
unfolding widens
widens-Wider found expected =
    let widths = narrower-Narrower found.width expected.width in
    elim (Bool-cases (same_sign found.signed expected.signed)) [
      | inl same ↦
          rw (same, widens)
            (
              λ h. let w = widths.0 h in (same_sign_eq _ _ same, w.0, w.1, w.2, w.3, w.4),
              λ h. widths.1 (h.1, h.2, h.3, h.4, h.5),
            )
      | inr differ ↦
          rw (differ, widens)
            (
              λ h. absurd (cc h),
              λ h. absurd (
                  cc (
                    sym differ
                    ∙ ap (same_sign found.signed) (sym h.0)
                    ∙ same_sign_refl found.signed)),
            )
    ]

-- What `conversion` gives.
conversion-Converts :
    (diagnostic : Diagnostic) (expected found : IntegerType) (repair : Repair)
    → conversion diagnostic expected found ≡ some repair
    → (expected ≢ found)
      × (repair.span_start ≡ diagnostic.span_start)
      × (repair.span_end ≡ diagnostic.span_end)
      × Converts diagnostic repair found expected
unfolding conversion
conversion-Converts diagnostic expected found repair e =
    elim (Bool-cases (same_type expected found)) [
      | inl same ↦ absurd (cc (rw (same, conversion) at e))
      | inr differ ↦
          let distinct : expected ≢ found =
            λ q. cc (sym differ ∙ same_type_refl expected found q) in
          elim (Bool-cases (widens found expected)) [
            | inl wide ↦
                let value : conversion diagnostic expected found
                    ≡ some (wrap diagnostic from_bytes close_bytes) =
                  rw (differ, conversion) (rw (wide, conversion) refl) in
                let is = some-injective _ repair (sym value ∙ e) in
                (
                  distinct,
                  sym (ap (λ r. r.span_start) is),
                  sym (ap (λ r. r.span_end) is),
                  inl (
                    (widens-Wider found expected).0 wide,
                    sym (ap (λ r. r.prefix) is),
                    sym (ap (λ r. r.suffix) is),
                  ),
                )
            | inr narrow ↦
                let value : conversion diagnostic expected found
                    ≡ some (wrap diagnostic try_from_bytes unwrap_bytes) =
                  rw (differ, conversion) (rw (narrow, conversion) refl) in
                let is = some-injective _ repair (sym value ∙ e) in
                (
                  distinct,
                  sym (ap (λ r. r.span_start) is),
                  sym (ap (λ r. r.span_end) is),
                  inr (
                    λ w. cc (sym narrow ∙ (widens-Wider found expected).1 w),
                    sym (ap (λ r. r.prefix) is),
                    sym (ap (λ r. r.suffix) is),
                  ),
                )
          ]
    ]

not_below : (a b : ℕ) → ltb a b ≡ false → b ≤ a
not_below a b h = ground arith

repair_within-Plans :
    (code : DiagnosticCode) (diagnostic : Diagnostic) (repair : Repair)
    → diagnostic.code ≡ code
    → repair_within code diagnostic ≡ some repair
    → Plans diagnostic repair
unfolding repair_within
repair_within-Plans DiagnosticCode.unhandled diagnostic repair c e = absurd (cc e)
repair_within-Plans DiagnosticCode.mismatched_types diagnostic repair c e =
    elim (Bool-cases (ltb diagnostic.span_end diagnostic.span_start)) [
      | inl backwards ↦ absurd (cc (rw (backwards, repair_within) at e))
      | inr forwards ↦ elim (Option-cases (integer_type diagnostic.expected)) [
        | inl absent ↦
            let value : repair_within DiagnosticCode.mismatched_types diagnostic ≡ none =
              rw (forwards, repair_within) (rw (absent, repair_within) refl) in
            absurd (cc (sym value ∙ e))
        | inr (expected, ee) ↦ elim (Option-cases (integer_type diagnostic.found)) [
          | inl absent ↦
              let value : repair_within DiagnosticCode.mismatched_types diagnostic ≡ none =
                rw (forwards, repair_within)
                  (rw (ee, repair_within) (rw (absent, repair_within) refl)) in
              absurd (cc (sym value ∙ e))
          | inr (found, ef) ↦
              let value : repair_within DiagnosticCode.mismatched_types diagnostic
                  ≡ conversion diagnostic expected found =
                rw (forwards, repair_within)
                  (rw (ee, repair_within) (rw (ef, repair_within) refl)) in
              let (differ, start, end, converts) =
                conversion-Converts diagnostic expected found repair (sym value ∙ e) in
              record {
                mismatched = c;
                ordered = omega (arith, start, end, not_below _ _ forwards);
                start = start;
                end = end;
                expected = expected;
                found = found;
                expected_name = ee;
                found_name = ef;
                differ = differ;
                converts = converts;
              }
        ]
      ]
    ]

-- Each planned repair is one for a diagnostic of the list: it converts between two different integer
-- types around the diagnostic's span, with `from` where the expected type is wider and of the same
-- sign, and with `try_from` and `unwrap` otherwise.
pub plan_repairs-Plans :
    (diagnostics : List Diagnostic)
    → All
        (λ repair.
          (row : ℕ) × (diagnostic : Diagnostic) × (get_elem? diagnostics row ≡ some diagnostic)
          × Plans diagnostic repair)
        (plan_repairs diagnostics)
unfolding plan_repairs repair_for
plan_repairs-Plans [] = tt
plan_repairs-Plans (diagnostic ∷ diagnostics) =
    let later =
      All_imp _ _ (plan_repairs diagnostics) (λ r h. (suc h.0, h.1, h.2, h.3))
        (plan_repairs-Plans diagnostics) in
    elim (Option-cases (repair_for diagnostic)) [
      | inl absent ↦ rw (absent, plan_repairs) later
      | inr (repair, e) ↦
          rw (e, plan_repairs)
            (
              (0, diagnostic, refl, repair_within-Plans diagnostic.code diagnostic repair refl e),
              later,
            )
    ]
