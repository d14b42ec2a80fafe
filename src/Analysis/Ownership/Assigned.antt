-- ===== src/Analysis/Ownership/Assigned.antt =====
-- The assignments of a field in crates/zag-analysis/src/ownership.rs are gathered as the reference
-- gathers them, or else a lookup runs past the classes, which then are fewer than the parameters.
use zag.Prelude.{
  ℕ, ◌<◌, ◌≡◌, ◌⊎◌, inl, inr, refl, false, Option, none, some, List, [], ◌∷◌, arith, length,
  get_elem?, Option-cases, Bool-cases,
}
use zag.Facts.Handles.{AllocatorSourceId}
use zag.Facts.Kinds.{AssignmentSource}
use zag.Facts.Tables.{Tables}
use zag.Facts.Access.{parameter_count}
use zag.Analysis.Provenance.{
  AllocatorClass, Provenance, source_slot, has_class, class_of_source, classify_source,
}
use zag.Analysis.Provenance.Converges.{global_parameter_index-lt}
use zag.Analysis.Ownership.{Ownership, AssignmentFacts}
use zag.Analysis.Ownership.Evidence.{assigned_allocator, add_assignment, gather_assignments}
use zag.Analysis.Ownership.Reference.{reference_allocator, reference_added, reference_assignments}

-- There are fewer classes than parameters.
abbrev pub IsShort : Tables → Provenance → Type 0
IsShort tables provenance = length provenance.parameter_class < parameter_count tables.parameters

-- A computation gives the value, or it panics on too few classes.
abbrev pub Gives {ℓ} : {A : Type ℓ} → Tables → Provenance → Option A → A → Type ℓ
Gives tables provenance computed value =
    (computed ≡ some value) ⊎ ((computed ≡ none) × IsShort tables provenance)

source_slot-lt :
    (tables : Tables) (source : AllocatorSourceId) (slot : ℕ)
    → source_slot tables source ≡ some slot
    → slot < parameter_count tables.parameters
unfolding source_slot
source_slot-lt tables source slot h = grind (arith, h, global_parameter_index-lt)

-- A class that is not there is one of a slot past the classes.
has_class-IsShort :
    (tables : Tables) (provenance : Provenance) (source : AllocatorSourceId)
    → has_class tables provenance.parameter_class source ≡ false
    → IsShort tables provenance
unfolding has_class
has_class-IsShort tables provenance source h = grind (arith, h, source_slot-lt)

module _ (tables : Tables) (provenance : Provenance) where
  classify_source-Gives :
      (source : AllocatorSourceId)
      → Gives tables provenance
          (classify_source tables provenance source)
          (class_of_source tables provenance.parameter_class source)
  unfolding classify_source
  classify_source-Gives source =
      elim (Bool-cases (has_class tables provenance.parameter_class source)) [
        | inl there ↦ inl (rw (there, classify_source) refl)
        | inr absent ↦
            inr
              (rw (absent, classify_source) refl, has_class-IsShort tables provenance source absent)
      ]

  pub assigned_allocator-Gives :
      (row : ℕ)
      → Gives tables provenance
          (assigned_allocator tables provenance row)
          (reference_allocator tables provenance row)
  unfolding assigned_allocator reference_allocator
  assigned_allocator-Gives row =
      elim (Option-cases (get_elem? tables.field_assignments.memory_operation row)) [
        | inl absent ↦ inl (rw (absent, assigned_allocator, reference_allocator) refl)
        | inr (operation, e) ↦
            elim (Option-cases (get_elem? tables.memory_operations.allocator operation)) [
              | inl absent ↦ inl (
                  rw (e, assigned_allocator, reference_allocator)
                    (rw (absent, assigned_allocator, reference_allocator) refl))
              | inr (source, k) ↦
                  rw (e, assigned_allocator, reference_allocator)
                    (rw (k, assigned_allocator, reference_allocator) (classify_source-Gives source))
            ]
      ]

  add_assignment-Gives :
      (source : AssignmentSource) (asked : Option AllocatorClass) (allocator : AllocatorClass)
      (facts : AssignmentFacts)
      → Gives tables provenance asked allocator
      → Gives tables provenance
          (add_assignment source asked facts)
          (reference_added source allocator facts)
  unfolding add_assignment reference_added
  add_assignment-Gives AssignmentSource.allocation asked allocator facts (inl e) = inl (rw e refl)
  add_assignment-Gives AssignmentSource.allocation asked allocator facts (inr (e, short)) =
      inr (rw e refl, short)
  add_assignment-Gives AssignmentSource.parameter asked allocator facts h = inl refl
  add_assignment-Gives AssignmentSource.static_literal asked allocator facts h = inl refl
  add_assignment-Gives AssignmentSource.unknown asked allocator facts h = inl refl

  pub gather_assignments-Gives :
      (rows : List ℕ) (facts : AssignmentFacts) (o : Ownership)
      → Gives tables provenance
          (gather_assignments tables provenance rows (facts, o))
          (reference_assignments tables provenance rows (facts, o))
  unfolding gather_assignments reference_assignments
  gather_assignments-Gives [] facts o = inl refl
  gather_assignments-Gives (row ∷ rows) facts o =
      elim (Option-cases (get_elem? tables.field_assignments.source row)) [
        | inl absent ↦
            rw (absent, gather_assignments, reference_assignments)
              (gather_assignments-Gives rows facts o)
        | inr (source, e) ↦
            elim (add_assignment-Gives source (assigned_allocator tables provenance row)
              (reference_allocator tables provenance row) facts (assigned_allocator-Gives row)) [
                | inl added ↦
                    rw (e, gather_assignments, reference_assignments)
                      (rw added (gather_assignments-Gives rows _ _))
                | inr (panics, short) ↦ inr (rw (e, gather_assignments) (rw panics refl), short)
              ]
      ]
