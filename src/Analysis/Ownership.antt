-- ===== src/Analysis/Ownership.antt =====
-- crates/zag-analysis/src/ownership.rs: who frees what a field points at. The types of the pass and
-- the decision; the children hold the index, the closure, the evidence and the pass itself.
pub mod Index
pub mod Evidence
pub mod Classify
pub mod Reference
pub mod Assigned
pub mod Refines
pub mod Meaning
use zag.Prelude.{ℕ, Bool, true, false, not, ◌&&◌, List, [], ◌∷◌, ◌++◌, if◌then◌else◌}
use zag.Facts.Handles.{FunctionId}
use zag.Analysis.Provenance.{AllocatorClass, same_class}

pub data OwnershipClass : Type 0 where
  value owned borrowed static arena unknown grown : OwnershipClass

pub data Confidence : Type 0 where
  high medium low : Confidence

pub data EvidenceKind : Type 0 where
  freed_in_deinit_closure freed_outside_deinit_closure assigned_from_allocation : EvidenceKind
  assigned_from_parameter assigned_from_literal assigned_from_unknown : EvidenceKind
  allocator_is_global allocator_is_arena allocator_is_conflicting : EvidenceKind
  no_assignments_found resized_after_allocation alignment_cannot_be_carried : EvidenceKind

pub record Ownership : Type 0 where
  pub class : List OwnershipClass
  pub confidence : List Confidence
  pub evidence_start : List ℕ
  pub evidence_count : List ℕ
  pub evidence_kind : List EvidenceKind
  pub evidence_function : List FunctionId

-- The pair of pushes that records a piece of evidence.
unfoldable pub push_evidence : EvidenceKind → FunctionId → Ownership → Ownership
push_evidence kind function o = record o {
  evidence_kind = o.evidence_kind ++ kind ∷ [];
  evidence_function = o.evidence_function ++ function ∷ [];
}

pub record FreeFacts : Type 0 where
  pub freed : Bool
  pub freed_in_deinit_closure : Bool

pub record AssignmentFacts : Type 0 where
  pub has_allocation : Bool
  pub has_parameter : Bool
  pub has_literal : Bool
  pub has_unknown : Bool
  pub allocator : AllocatorClass

-- `only(flag, [a, b, c])`.
abbrev pub only : Bool → Bool → Bool → Bool → Bool
only flag a b c = flag && not a && not b && not c

unfoldable pub decide : FreeFacts → AssignmentFacts → Bool → OwnershipClass × Confidence
decide free assignment resized =
    let allocation_only =
      only assignment.has_allocation assignment.has_parameter assignment.has_literal
        assignment.has_unknown in
    if assignment.has_allocation && same_class assignment.allocator AllocatorClass.arena
    then (if resized
        then (unknown, low)
        else (arena, if allocation_only && not free.freed then high else medium))
    else if free.freed && allocation_only && same_class assignment.allocator AllocatorClass.global
    then (if resized then grown else owned, if free.freed_in_deinit_closure then high else medium)
    else if not free.freed
        && only assignment.has_literal assignment.has_allocation assignment.has_parameter
            assignment.has_unknown
    then (static, high)
    else if not free.freed
        && only assignment.has_parameter assignment.has_allocation assignment.has_literal
            assignment.has_unknown
    then (borrowed, medium)
    else (unknown, low)
