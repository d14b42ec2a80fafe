-- ===== src/Analysis/Ownership/Reference.antt =====
-- What crates/zag-analysis/src/ownership.rs decides, without its index and its reusable buffer:
-- every field scans the whole tables, and every free walks the calls anew.
use zag.Prelude.{
  ℕ, zero, suc, ◌+◌, true, false, ◌||◌, none, some, List, [], ◌∷◌, if◌then◌else◌, length, get_elem?,
  get_or, as_u32,
}
use zag.Facts.Handles.{FieldId, StructId, TypeId, no_index}
use zag.Facts.Kinds.{MemoryOperationKind, AssignmentSource}
use zag.Facts.Tables.{Tables}
use zag.Facts.Access.{field_count, memory_operation_count}
use zag.Facts.Ranges.{is_reference_type}
use zag.Analysis.Provenance.{AllocatorClass, Provenance, join, class_of_source}
use zag.Analysis.Ownership.{
  Ownership, OwnershipClass, Confidence, value, unknown, high, low, alignment_cannot_be_carried,
  push_evidence, FreeFacts, AssignmentFacts, decide,
}
use zag.Analysis.Ownership.Index.{operated_field, assigned_field}
use zag.Analysis.Ownership.Index.Laws.{rows_with}
use zag.Analysis.Ownership.Evidence.{
  over_aligned, function_at, free_kind, no_frees, gather_resizes, assignment_kind, no_assignments,
  conclude_assignments,
}
use zag.Analysis.Ownership.Evidence.Closure.{in_deinit_closure}
use zag.Analysis.Ownership.Classify.{push_ownership, no_ownership}

-- The rows of the memory operations of a kind that touch a field, and those that assign it.
abbrev pub operations_on : Tables → MemoryOperationKind → FieldId → List ℕ
operations_on tables kind field =
    rows_with (operated_field tables kind) field (memory_operation_count tables.memory_operations) 0

abbrev pub assignments_of : Tables → FieldId → List ℕ
assignments_of tables field =
    rows_with (assigned_field tables) field (length tables.field_assignments.field) 0

unfoldable pub reference_frees :
    Tables → StructId → List ℕ → FreeFacts × Ownership → FreeFacts × Ownership
reference_frees tables owner [] s = s
reference_frees tables owner (row ∷ rows) (facts, o) =
    let function = function_at tables.memory_operations.function row in
    let inside = in_deinit_closure tables owner function in
    reference_frees tables owner rows (
      record { freed = true; freed_in_deinit_closure = facts.freed_in_deinit_closure || inside },
      push_evidence (free_kind inside) function o,
    )

-- The class of the allocator of an assignment's allocation, on the classes of all the parameters.
unfoldable pub reference_allocator : Tables → Provenance → ℕ → AllocatorClass
unfolding class_of_source
reference_allocator tables provenance row =
    elim (get_elem? tables.field_assignments.memory_operation row) [
      | none ↦ AllocatorClass.conflicting
      | some operation ↦ elim (get_elem? tables.memory_operations.allocator operation) [
        | none ↦ AllocatorClass.conflicting
        | some source ↦ class_of_source tables provenance.parameter_class source
      ]
    ]

unfoldable pub reference_added :
    AssignmentSource → AllocatorClass → AssignmentFacts → AssignmentFacts
unfolding join
reference_added AssignmentSource.allocation allocator facts = record facts {
  has_allocation = true;
  allocator = join facts.allocator allocator;
}
reference_added AssignmentSource.parameter allocator facts = record facts { has_parameter = true }
reference_added AssignmentSource.static_literal allocator facts = record facts {
  has_literal = true;
}
reference_added AssignmentSource.unknown allocator facts = record facts { has_unknown = true }

unfoldable pub reference_assignments :
    Tables → Provenance → List ℕ → AssignmentFacts × Ownership → AssignmentFacts × Ownership
unfolding reference_added assignment_kind push_evidence reference_allocator
reference_assignments tables provenance [] s = s
reference_assignments tables provenance (row ∷ rows) (facts, o) =
    reference_assignments tables provenance rows
      (elim (get_elem? tables.field_assignments.source row) [
        | none ↦ (facts, o)
        | some source ↦ (
          reference_added source (reference_allocator tables provenance row) facts,
          push_evidence (assignment_kind source) (function_at tables.field_assignments.function row)
              o,
        )
      ])

unfoldable pub reference_branch :
    Tables → Provenance → FieldId → TypeId → Ownership → Ownership × (OwnershipClass × Confidence)
reference_branch tables provenance field kind o =
    let aligned = over_aligned tables kind in
    let o₁ = if aligned then push_evidence alignment_cannot_be_carried no_index o else o in
    let (free, o₂) =
      reference_frees tables (get_or tables.fields.owner field no_index)
        (operations_on tables MemoryOperationKind.free field) (no_frees, o₁) in
    let (resized, o₃) =
      gather_resizes tables (operations_on tables MemoryOperationKind.resize field) (false, o₂) in
    let (assignment, o₄) = conclude_assignments (
      reference_assignments tables provenance (assignments_of tables field) (no_assignments, o₃)) in
    (o₄, (if aligned then (unknown, low) else decide free assignment resized))

unfoldable pub reference_field :
    Tables → Provenance → FieldId → Ownership → Ownership × (OwnershipClass × Confidence)
reference_field tables provenance field o = elim (get_elem? tables.fields.field_type field) [
  | none ↦ (o, (unknown, low))
  | some kind ↦
      if is_reference_type tables.types kind
      then reference_branch tables provenance field kind o
      else (o, (value, high))
]

unfoldable pub reference_from : Tables → Provenance → ℕ → FieldId → Ownership → Ownership
reference_from tables provenance zero field o = o
reference_from tables provenance (suc fields) field o =
    let (o', decision) = reference_field tables provenance field o in
    reference_from tables provenance fields (field + 1)
      (push_ownership (as_u32 (length o.evidence_kind)) decision o')

unfoldable pub reference_ownership : Tables → Provenance → Ownership
reference_ownership tables provenance =
    reference_from tables provenance (field_count tables.fields) 0 no_ownership
