-- ===== src/Analysis/Ownership/Evidence.antt =====
-- The evidence for one field in crates/zag-analysis/src/ownership.rs. The loops over a field's rows
-- are recursions on the list of the rows; `none` is a walk of the call graph that has no end, or a
-- panic.
pub mod Closure
use zag.Prelude.{
  ℕ, zero, suc, ◌+◌, Bool, true, false, not, ◌&&◌, ◌||◌, Option, none, some, List, [], ◌∷◌, ltb,
  ◌==◌, if◌then◌else◌, ◌>>=◌, length, get_elem?, get_or, u32_add, bit_and,
}
use zag.Facts.Handles.{FieldId, FunctionId, StructId, TypeId, AllocatorSourceId, no_index}
use zag.Facts.Kinds.{AssignmentSource}
use zag.Facts.Tables.{Tables}
use zag.Analysis.CallGraph.{CallGraph, done, out_of_bounds, out_of_fuel, mark_reachable}
use zag.Analysis.Provenance.{AllocatorClass, Provenance, join, classify_source}
use zag.Analysis.Ownership.{
  Ownership, EvidenceKind, freed_in_deinit_closure, freed_outside_deinit_closure,
  assigned_from_allocation, assigned_from_parameter, assigned_from_literal, assigned_from_unknown,
  allocator_is_global, allocator_is_arena, allocator_is_conflicting, no_assignments_found,
  resized_after_allocation, push_evidence, FreeFacts, AssignmentFacts,
}
use zag.Analysis.Ownership.Index.{FieldIndex, rows_at}

-- The element of a type that `over_aligned` follows: there, not absent, and not the type itself.
unfoldable pub followed_element : Tables → TypeId → Option TypeId
followed_element tables kind = elim (get_elem? tables.types.element kind) [
  | none ↦ none
  | some element ↦ if element == no_index || element == kind then none else some element
]

-- `flags & TYPE_FLAG_OVER_ALIGNED != 0`, for a type that has flags.
unfoldable pub has_alignment_flag : Tables → TypeId → Bool
has_alignment_flag tables kind = elim (get_elem? tables.types.flags kind) [
  | none ↦ false
  | some flags ↦ not (bit_and flags 2 == 0)
]

-- `over_aligned` on the depths left to eight.
unfoldable pub over_aligned_within : ℕ → Tables → TypeId → Bool
unfolding followed_element has_alignment_flag
over_aligned_within zero tables kind = false
over_aligned_within (suc depths) tables kind =
    let inner : Bool = elim (followed_element tables kind) [
      | none ↦ false
      | some element ↦ over_aligned_within depths tables element
    ] in
    if has_alignment_flag tables kind then true else inner

unfoldable pub over_aligned : Tables → TypeId → Bool
unfolding over_aligned_within
over_aligned tables kind = over_aligned_within 8 tables kind

-- The reusable buffer: the struct whose closure it holds, the stamps, and the last generation.
pub record DeinitClosure : Type 0 where
  pub owner : Option StructId
  pub stamp : List ℕ
  pub generation : ℕ

-- The `deinit` of a struct, where it has one.
unfoldable pub struct_deinit : Tables → StructId → Option FunctionId
struct_deinit tables owner = elim (get_elem? tables.structs.deinit owner) [
  | none ↦ none
  | some deinit ↦ if deinit == no_index then none else some deinit
]

abbrev pub is_owner : Option StructId → StructId → Bool
is_owner none owner = false
is_owner (some o) owner = o == owner

-- The walk for a new owner, over the same stamps.
unfoldable pub restamp : Tables → CallGraph → StructId → ℕ → List ℕ → Option (List ℕ)
restamp tables graph owner generation stamp = elim (struct_deinit tables owner) [
  | none ↦ some stamp
  | some deinit ↦ elim (mark_reachable graph generation deinit stamp) [
    | done after ↦ some after
    | out_of_bounds ↦ none
    | out_of_fuel ↦ none
  ]
]

-- The closure for an owner: the one at hand, or one of the next generation.
unfoldable pub closure_for : Tables → CallGraph → DeinitClosure → StructId → Option DeinitClosure
closure_for tables graph closure owner = if is_owner closure.owner owner then some closure else (do
  let generation = u32_add closure.generation 1
  stamp ← restamp tables graph owner generation closure.stamp
  some (record { owner = some owner; stamp = stamp; generation = generation }))

-- The read at the end of `closure_holds`.
unfoldable pub is_stamped : DeinitClosure → FunctionId → Bool
is_stamped closure function = elim (get_elem? closure.stamp function) [
  | none ↦ false
  | some stamped ↦ stamped == closure.generation
]

unfoldable pub closure_holds :
    Tables → CallGraph → DeinitClosure → StructId → FunctionId → Option (DeinitClosure × Bool)
closure_holds tables graph closure owner function = do
  closure' ← closure_for tables graph closure owner
  some (closure', is_stamped closure' function)

-- `table.function.get(row).copied().unwrap_or(FunctionId(NO_INDEX))`.
abbrev pub function_at : List FunctionId → ℕ → FunctionId
function_at functions row = get_or functions row no_index

abbrev pub free_kind : Bool → EvidenceKind
free_kind inside = if inside then freed_in_deinit_closure else freed_outside_deinit_closure

-- The loop over the rows that free a field.
unfoldable pub gather_frees :
    Tables
    → CallGraph
    → StructId
    → List ℕ
    → DeinitClosure × FreeFacts × Ownership
    → Option (DeinitClosure × FreeFacts × Ownership)
gather_frees tables graph owner [] s = some s
gather_frees tables graph owner (row ∷ rows) (closure, facts, o) = do
  let function = function_at tables.memory_operations.function row
  (closure', inside) ← closure_holds tables graph closure owner function
  gather_frees tables graph owner rows (
    closure',
    record { freed = true; freed_in_deinit_closure = facts.freed_in_deinit_closure || inside },
    push_evidence (free_kind inside) function o,
  )

abbrev pub no_frees : FreeFacts
no_frees = record { freed = false; freed_in_deinit_closure = false }

-- `tables.fields.owner[slot]` is read for a field of the tables, so in bounds. With no rows the loop
-- does nothing, as the early return does.
unfoldable pub gather_free_facts :
    Tables
    → CallGraph
    → FieldIndex
    → FieldId
    → DeinitClosure × Ownership
    → Option (DeinitClosure × FreeFacts × Ownership)
gather_free_facts tables graph index field (closure, o) =
    gather_frees tables graph (get_or tables.fields.owner field no_index)
      (rows_at index.free_start index.free_rows field) (closure, no_frees, o)

-- The loop over the rows that resize a field: whether there is one, and the evidence.
unfoldable pub gather_resizes : Tables → List ℕ → Bool × Ownership → Bool × Ownership
unfolding push_evidence
gather_resizes tables [] s = s
gather_resizes tables (row ∷ rows) (resized, o) = gather_resizes tables rows (
  true,
  push_evidence resized_after_allocation (function_at tables.memory_operations.function row) o,
)

unfoldable pub gather_resize_facts : Tables → FieldIndex → FieldId → Ownership → Bool × Ownership
gather_resize_facts tables index field o =
    gather_resizes tables (rows_at index.resize_start index.resize_rows field) (false, o)

-- The class of the allocator of an assignment's allocation; `none` is the panic of its lookup.
unfoldable pub assigned_allocator : Tables → Provenance → ℕ → Option AllocatorClass
unfolding classify_source
assigned_allocator tables provenance row =
    elim (get_elem? tables.field_assignments.memory_operation row) [
      | none ↦ some AllocatorClass.conflicting
      | some operation ↦ elim (get_elem? tables.memory_operations.allocator operation) [
        | none ↦ some AllocatorClass.conflicting
        | some source ↦ classify_source tables provenance source
      ]
    ]

-- What one assignment adds to the facts; only an allocation asks for its allocator.
unfoldable pub add_assignment :
    AssignmentSource → Option AllocatorClass → AssignmentFacts → Option AssignmentFacts
unfolding join
add_assignment AssignmentSource.allocation asked facts = do
  allocator ← asked
  some (record facts { has_allocation = true; allocator = join facts.allocator allocator })
add_assignment AssignmentSource.parameter asked facts = some (record facts { has_parameter = true })
add_assignment AssignmentSource.static_literal asked facts =
    some (record facts { has_literal = true })
add_assignment AssignmentSource.unknown asked facts = some (record facts { has_unknown = true })

unfoldable pub assignment_kind : AssignmentSource → EvidenceKind
assignment_kind AssignmentSource.allocation = assigned_from_allocation
assignment_kind AssignmentSource.parameter = assigned_from_parameter
assignment_kind AssignmentSource.static_literal = assigned_from_literal
assignment_kind AssignmentSource.unknown = assigned_from_unknown

-- The loop over the rows that assign a field; a row with no source is passed over.
unfoldable pub gather_assignments :
    Tables
    → Provenance
    → List ℕ
    → AssignmentFacts × Ownership
    → Option (AssignmentFacts × Ownership)
unfolding add_assignment assignment_kind push_evidence assigned_allocator
gather_assignments tables provenance [] s = some s
gather_assignments tables provenance (row ∷ rows) (facts, o) =
    elim (get_elem? tables.field_assignments.source row) [
      | none ↦ gather_assignments tables provenance rows (facts, o)
      | some source ↦
          add_assignment source (assigned_allocator tables provenance row) facts >>= λ facts'.
          gather_assignments tables provenance rows (
            facts',
            push_evidence (assignment_kind source)
                (function_at tables.field_assignments.function row) o,
          )
    ]

unfoldable pub allocator_kind : AllocatorClass → EvidenceKind
allocator_kind AllocatorClass.arena = allocator_is_arena
allocator_kind AllocatorClass.global = allocator_is_global
allocator_kind _ = allocator_is_conflicting

abbrev pub no_assignments : AssignmentFacts
no_assignments = record {
  has_allocation = false;
  has_parameter = false;
  has_literal = false;
  has_unknown = false;
  allocator = AllocatorClass.unset;
}

-- The evidence about the assignments as a whole.
unfoldable pub conclude_assignments : AssignmentFacts × Ownership → AssignmentFacts × Ownership
unfolding push_evidence allocator_kind
conclude_assignments (facts, o) =
    let o' =
      if facts.has_allocation
      then push_evidence (allocator_kind facts.allocator) no_index o
      else o in
    if not facts.has_allocation
      && not facts.has_parameter
      && not facts.has_literal
      && not facts.has_unknown
    then (facts, push_evidence no_assignments_found no_index o')
    else (facts, o')

unfoldable pub gather_assignment_facts :
    Tables → Provenance → FieldIndex → FieldId → Ownership → Option (AssignmentFacts × Ownership)
gather_assignment_facts tables provenance index field o = do
  gathered ←
      gather_assignments tables provenance
        (rows_at index.assignment_start index.assignment_rows field) (no_assignments, o)
  some (conclude_assignments gathered)
