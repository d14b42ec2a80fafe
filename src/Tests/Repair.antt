-- ===== src/Tests/Repair.antt =====
-- Runs of the repairs of crates/zag-repair/src/lib.rs.
use zag.Prelude.{ℕ, ◌≡◌, ◌≢◌, ◌↔◌, refl, some, List, [], ◌∷◌, length, get_elem?, All}
use zag.Repair.{
  DiagnosticCode, Diagnostic, plan_repairs, repair_for, repair_within, integer_type, sized,
  parse_u32, parse_digits, conversion, widens, from_bytes, close_bytes, try_from_bytes,
  unwrap_bytes, Repair, overlapping_repairs, apply_repairs, ok, err, panicked, insert, order_from,
  check_spans, check_windows, check_overlaps, range, splice,
}
use zag.Repair.Plans.{Plans, plan_repairs-Plans}
use zag.Repair.Weave.{woven}
use zag.Repair.Applies.{CanApply, apply_repairs_iff, apply_repairs_returns}
use zag.Repair.Errors.{Blames, apply_repairs-Blames}

-- Brackets around the third byte, and a mark between the first and the second.
abbrev brackets : Repair
brackets = record { span_start = 2; span_end = 3; prefix = 40 ∷ []; suffix = 41 ∷ [] }

abbrev mark : Repair
mark = record { span_start = 1; span_end = 1; prefix = 33 ∷ []; suffix = [] }

abbrev source : List ℕ
source = 97 ∷ 98 ∷ 99 ∷ 100 ∷ []

applied : apply_repairs source (brackets ∷ mark ∷ []) ≡ ok (97 ∷ 33 ∷ 98 ∷ 40 ∷ 99 ∷ 41 ∷ 100 ∷ [])
unfolding apply_repairs order_from insert check_spans check_overlaps check_windows splice range
applied = refl

apply_repairs_iff_example :
    (apply_repairs source (brackets ∷ mark ∷ []) ≡ ok (97 ∷ 33 ∷ 98 ∷ 40 ∷ 99 ∷ 41 ∷ 100 ∷ [])) ↔ (
      CanApply source (brackets ∷ mark ∷ [])
      × (97 ∷ 33 ∷ 98 ∷ 40 ∷ 99 ∷ 41 ∷ 100 ∷ []
          ≡ woven 0 source (order_from 0 (brackets ∷ mark ∷ []))))
apply_repairs_iff_example = apply_repairs_iff source (brackets ∷ mark ∷ []) _

apply_repairs_returns_example : apply_repairs source (brackets ∷ mark ∷ []) ≢ panicked
apply_repairs_returns_example = apply_repairs_returns source (brackets ∷ mark ∷ [])

twice : apply_repairs source (mark ∷ brackets ∷ brackets ∷ []) ≡ err (overlapping_repairs 1 2)
unfolding apply_repairs order_from insert check_spans check_overlaps check_windows splice range
twice = refl

apply_repairs-Blames_example :
    Blames (length source) (mark ∷ brackets ∷ brackets ∷ []) (overlapping_repairs 1 2)
apply_repairs-Blames_example =
    apply_repairs-Blames source (mark ∷ brackets ∷ brackets ∷ []) (overlapping_repairs 1 2) twice

-- `u32` where a `u64` is expected, and the other way round.
abbrev diagnostics : List Diagnostic
diagnostics =
    record {
      code = DiagnosticCode.mismatched_types;
      span_start = 1;
      span_end = 2;
      expected = 117 ∷ 54 ∷ 52 ∷ [];
      found = 117 ∷ 51 ∷ 50 ∷ [];
    }
    ∷ record {
      code = DiagnosticCode.mismatched_types;
      span_start = 2;
      span_end = 3;
      expected = 117 ∷ 51 ∷ 50 ∷ [];
      found = 117 ∷ 54 ∷ 52 ∷ [];
    }
    ∷ []

planned :
    plan_repairs diagnostics
    ≡ record {
      span_start = 1;
      span_end = 2;
      prefix = 117 ∷ 54 ∷ 52 ∷ from_bytes;
      suffix = close_bytes;
    }
      ∷ record {
        span_start = 2;
        span_end = 3;
        prefix = 117 ∷ 51 ∷ 50 ∷ try_from_bytes;
        suffix = unwrap_bytes;
      }
      ∷ []
unfolding plan_repairs repair_for repair_within integer_type sized parse_u32 parse_digits conversion
    widens
planned = refl

plan_repairs-Plans_example :
    All
      (λ repair.
        (row : ℕ) × (diagnostic : Diagnostic) × (get_elem? diagnostics row ≡ some diagnostic)
        × Plans diagnostic repair)
      (plan_repairs diagnostics)
plan_repairs-Plans_example = plan_repairs-Plans diagnostics
