-- ===== src/Analysis/Ownership/Meaning/Owned.antt =====
-- What the tables hold of a field that crates/zag-analysis/src/ownership.rs decides to be owned.
use zag.Prelude.{
  ℕ, ◌<◌, ◌≡◌, ◌≢◌, ◌↔◌, ◌⊎◌, inl, inr, refl, sym, ap, ◌∙◌, Bool, true, false, some, List, [], ◌∷◌,
  arith, length, get_elem?, get_or, Any, Option-cases, Bool-cases,
}
use mathlib.Core.Path.{subst}
use mathlib.Core.Logic.{⊎_elim}
use zag.Facts.Handles.{FieldId, TypeId, no_index}
use zag.Facts.Kinds.{AssignmentSource, MemoryOperationKind}
use zag.Facts.Tables.{Tables}
use zag.Facts.Access.{memory_operation_count}
use zag.Facts.Ranges.{is_reference_type}
use zag.Analysis.CallGraph.Scan.{Has}
use zag.Analysis.Provenance.{AllocatorClass, Provenance}
use zag.Analysis.Provenance.Lattice.{Below}
use zag.Analysis.Ownership.{
  Ownership, owned, AssignmentFacts, decide, push_evidence, resized_after_allocation,
}
use zag.Analysis.Ownership.Index.{operated_field, assigned_field}
use zag.Analysis.Ownership.Evidence.{
  over_aligned, function_at, gather_resizes, assigned_allocator, conclude_assignments, no_frees,
  no_assignments,
}
use zag.Analysis.Ownership.Meaning.{IsAllocationOnly, decide_owned}
use zag.Analysis.Ownership.Meaning.Facts.{
  Has-rows_with, reference_frees-facts, Gathers, reference_assignments-Gathers,
}
use zag.Analysis.Ownership.Reference.{
  operations_on, assignments_of, reference_frees, reference_branch, reference_field,
  reference_assignments, reference_allocator,
}

gather_resizes-facts :
    (tables : Tables) (rows : List ℕ) (resized : Bool) (o : Ownership)
    → ((gather_resizes tables rows (resized, o)).0 ≡ true) ↔ ((resized ≡ true) ⊎ (rows ≢ []))
unfolding gather_resizes
gather_resizes-facts tables [] resized o = ground arith
gather_resizes-facts tables (row ∷ rows) resized o = ground (
  arith,
  gather_resizes-facts tables rows true (
      push_evidence resized_after_allocation (function_at tables.memory_operations.function row) o),
)

conclude_assignments-facts : (s : AssignmentFacts × Ownership) → (conclude_assignments s).0 ≡ s.0
unfolding conclude_assignments
conclude_assignments-facts (facts, o) = ground arith

Any-of_Has : (P : ℕ → Type 0) (row : ℕ) (rows : List ℕ) → Has row rows → P row → Any P rows
Any-of_Has P row [] h p = h
Any-of_Has P row (r ∷ rows) (inl e) p = inl (subst P (sym e) p)
Any-of_Has P row (r ∷ rows) (inr h) p = inr (Any-of_Has P row rows h p)

no_resize : (b : Bool) → b ≡ false → b ≡ true → ⊥
no_resize b h k = cc (sym h ∙ k)

Has-ne-nil : (row : ℕ) (rows : List ℕ) → Has row rows → rows ≢ []
Has-ne-nil row [] h e = h
Has-ne-nil row (r ∷ rows) h e = cc

-- What it takes to own a field: a free of it, no resize, and no assignment but of memory that the
-- global allocator handed out.
pub record IsOwned (tables : Tables) (provenance : Provenance) (field : FieldId) : Type 0 where
  pub refers :
      (kind : TypeId) × (get_elem? tables.fields.field_type field ≡ some kind)
      × (is_reference_type tables.types kind ≡ true)
      × (over_aligned tables kind ≡ false)
  pub freed : (row : ℕ) × (operated_field tables MemoryOperationKind.free row ≡ some field)
  pub never_resized :
      (row : ℕ)
      → row < memory_operation_count tables.memory_operations
      → operated_field tables MemoryOperationKind.resize row ≢ some field
  pub allocated :
      (row : ℕ) (source : AssignmentSource)
      → row < length tables.field_assignments.field
      → assigned_field tables row ≡ some field
      → get_elem? tables.field_assignments.source row ≡ some source
      → (source ≡ AssignmentSource.allocation)
        × (class : AllocatorClass) × (assigned_allocator tables provenance row ≡ some class)
        × Below class AllocatorClass.global

module _ (tables : Tables) (provenance : Provenance) (field : FieldId) where
  frees : List ℕ
  frees = operations_on tables MemoryOperationKind.free field

  a-row : (rows : List ℕ) → rows ≢ [] → (row : ℕ) × Has row rows
  a-row [] h = absurd (h refl)
  a-row (row ∷ rows) h = (row, inl refl)

  -- The classes of the field's allocations are found, and are the reference's.
  abbrev FindsClasses : Type 0
  FindsClasses =
      (kind : TypeId)
      → get_elem? tables.fields.field_type field ≡ some kind
      → is_reference_type tables.types kind ≡ true
      → (row : ℕ) → Has row (assignments_of tables field)
      → get_elem? tables.field_assignments.source row ≡ some AssignmentSource.allocation
      → assigned_allocator tables provenance row ≡ some (reference_allocator tables provenance row)

  only_allocations :
      (a : AssignmentFacts)
      → Gathers tables provenance (assignments_of tables field) no_assignments a
      → IsAllocationOnly a
      → a.allocator ≡ AllocatorClass.global
      → (row : ℕ) (source : AssignmentSource) → Has row (assignments_of tables field)
      → get_elem? tables.field_assignments.source row ≡ some source
      → (source ≡ AssignmentSource.allocation)
        × Below (reference_allocator tables provenance row) AllocatorClass.global
  only_allocations a g alone e row AssignmentSource.allocation h k =
      (refl, subst (Below (reference_allocator tables provenance row)) e (g.allocators row h k))
  only_allocations a g alone e row AssignmentSource.parameter h k =
      absurd (cc (sym (alone.1) ∙ g.parameter.1 (inr (Any-of_Has _ row _ h k))))
  only_allocations a g alone e row AssignmentSource.static_literal h k =
      absurd (cc (sym (alone.2) ∙ g.literal.1 (inr (Any-of_Has _ row _ h k))))
  only_allocations a g alone e row AssignmentSource.unknown h k =
      absurd (cc (sym (alone.3) ∙ g.other.1 (inr (Any-of_Has _ row _ h k))))

  reference_branch-IsOwned :
      (kind : TypeId) (o : Ownership)
      → FindsClasses
      → get_elem? tables.fields.field_type field ≡ some kind
      → is_reference_type tables.types kind ≡ true
      → (reference_branch tables provenance field kind o).1.0 ≡ owned
      → IsOwned tables provenance field
  unfolding reference_branch
  reference_branch-IsOwned kind o finds typed refers h =
      elim (Bool-cases (over_aligned tables kind)) [
        | inl aligned ↦ absurd (cc (rw aligned at h))
        | inr plain ↦
            let owner = get_or tables.fields.owner field no_index in
            let free =
              reference_frees tables owner (operations_on tables MemoryOperationKind.free field)
                (no_frees, o) in
            let resized =
              gather_resizes tables (operations_on tables MemoryOperationKind.resize field)
                (false, free.1) in
            let gathered =
              reference_assignments tables provenance (assignments_of tables field)
                (no_assignments, resized.1) in
            let decided : (decide free.0 gathered.0 resized.0).0 ≡ owned =
              rw (plain, conclude_assignments-facts gathered) at h in
            let (freed, alone, from_global, fixed) =
              (decide_owned free.0 gathered.0 resized.0).0.0 decided in
            let gathers =
              reference_assignments-Gathers tables provenance (assignments_of tables field)
                no_assignments resized.1 in
            let (row, found) = a-row (operations_on tables MemoryOperationKind.free field) (
              ⊎_elim (λ e. absurd (cc e)) (λ rows. rows)
                ((reference_frees-facts tables owner _ no_frees o).0.0 freed)) in
            record {
              refers = (kind, typed, refers, plain);
              freed = (
                row,
                ((Has-rows_with (operated_field tables MemoryOperationKind.free) field
                      (memory_operation_count tables.memory_operations) 0 row).0
                    found).2,
              );
              never_resized = λ r below e. absurd (
                  no_resize resized.0 fixed (
                    (gather_resizes-facts tables _ false free.1).1 (
                      inr (
                        Has-ne-nil r _ (
                          (Has-rows_with (operated_field tables MemoryOperationKind.resize) field
                              (memory_operation_count tables.memory_operations) 0 r).1
                            (omega arith, omega arith, e))))));
              allocated = λ r source below e k.
                  let has =
                    (Has-rows_with (assigned_field tables) field
                        (length tables.field_assignments.field) 0 r).1
                      (omega arith, omega arith, e) in
                  let (same, under) =
                    only_allocations gathered.0 gathers alone from_global r source has k in
                  (
                    same,
                    reference_allocator tables provenance r,
                    finds kind typed refers r has (k ∙ ap some same),
                    under,
                  );
            }
      ]

-- The decision to own a field takes all of that.
pub reference_field-IsOwned :
    (tables : Tables) (provenance : Provenance) (field : FieldId) (o : Ownership)
    → FindsClasses tables provenance field
    → (reference_field tables provenance field o).1.0 ≡ owned
    → IsOwned tables provenance field
unfolding reference_field
reference_field-IsOwned tables provenance field o finds h =
    elim (Option-cases (get_elem? tables.fields.field_type field)) [
      | inl absent ↦ absurd (cc (rw (absent, reference_field) at h))
      | inr (kind, typed) ↦ elim (Bool-cases (is_reference_type tables.types kind)) [
        | inl refers ↦
            reference_branch-IsOwned tables provenance field kind o finds typed refers
              (rw (refers) at (rw (typed, reference_field) at h))
        | inr plain ↦ absurd (cc (rw plain at (rw (typed, reference_field) at h)))
      ]
    ]
