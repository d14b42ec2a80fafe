-- ===== src/Analysis/Ownership/Meaning/Lookups.antt =====
-- A pass of crates/zag-analysis/src/ownership.rs that ends has found the class of every allocator that
-- it asked for.
use zag.Prelude.{
  ℕ, zero, suc, ◌+◌, ◌≤◌, ◌<◌, ◌≡◌, inl, inr, refl, sym, ap, ◌∙◌, true, none, some, List, [], ◌∷◌,
  arith, get_elem?, if◌then◌else◌, ◌>>=◌, Option-cases, as_u32, as_u32-eq_of_lt, ℕ_discrete,
}
use zag.Facts.Handles.{FieldId, TypeId, no_index}
use zag.Facts.Kinds.{AssignmentSource}
use zag.Facts.Tables.{Tables}
use zag.Facts.Access.{field_count}
use zag.Facts.Ranges.{is_reference_type}
use zag.Analysis.CallGraph.{CallGraph, build_call_graph}
use zag.Analysis.CallGraph.Scan.{Has}
use zag.Analysis.Provenance.{Provenance}
use zag.Analysis.Ownership.{Ownership, AssignmentFacts, push_evidence, alignment_cannot_be_carried}
use zag.Analysis.Ownership.Index.{FieldIndex, build_field_index}
use zag.Analysis.Ownership.Index.Laws.{build_field_index-rows}
use zag.Analysis.Ownership.Evidence.{
  DeinitClosure, over_aligned, no_assignments, assigned_allocator, add_assignment,
  gather_free_facts, gather_resize_facts, gather_assignments, gather_assignment_facts,
}
use zag.Analysis.Ownership.Assigned.{assigned_allocator-Gives}
use zag.Analysis.Ownership.Classify.{
  classify_reference, classify_field, classify_from, classify_ownership, first_closure,
  no_ownership,
}
use zag.Analysis.Ownership.Reference.{assignments_of, reference_allocator}
use zag.Analysis.Ownership.Refines.{IsNumbered}

module _ (tables : Tables) (provenance : Provenance) where
  -- One lookup that panics ends the loop over the rows.
  gather_panics :
      (row : ℕ) (rows : List ℕ) (facts : AssignmentFacts) (o : Ownership)
      → Has row rows
      → get_elem? tables.field_assignments.source row ≡ some AssignmentSource.allocation
      → assigned_allocator tables provenance row ≡ none
      → gather_assignments tables provenance rows (facts, o) ≡ none
  unfolding gather_assignments add_assignment
  gather_panics row [] facts o h e p = absurd h
  gather_panics row (r ∷ rows) facts o (inl here) e p =
      let source = ap (get_elem? tables.field_assignments.source) here ∙ e in
      let panics = ap (assigned_allocator tables provenance) here ∙ p in
      rw (source, gather_assignments) (rw (panics, ◌>>=◌) refl)
  gather_panics row (r ∷ rows) facts o (inr later) e p =
      elim (Option-cases (get_elem? tables.field_assignments.source r)) [
        | inl absent ↦ rw (absent, gather_assignments) (gather_panics row rows facts o later e p)
        | inr (source, k) ↦
            elim (Option-cases
              (add_assignment source (assigned_allocator tables provenance r) facts)) [
                | inl panics ↦ rw (k, gather_assignments) (rw (panics, ◌>>=◌) refl)
                | inr (facts', added) ↦
                    rw (k, gather_assignments)
                      (rw (added, ◌>>=◌) (gather_panics row rows facts' _ later e p))
              ]
      ]

  module _ (numbered : IsNumbered tables) (field : FieldId)
      (inside : field < field_count tables.fields) where
    abbrev graph : CallGraph
    graph = build_call_graph tables

    abbrev index : FieldIndex
    index = build_field_index tables

    facts_panic :
        (row : ℕ)
        → Has row (assignments_of tables field)
        → get_elem? tables.field_assignments.source row ≡ some AssignmentSource.allocation
        → assigned_allocator tables provenance row ≡ none
        → (o : Ownership) → gather_assignment_facts tables provenance index field o ≡ none
    unfolding gather_assignment_facts
    facts_panic row h e p o =
        let (frees, resizes, assigns) =
          build_field_index-rows tables field numbered.operations numbered.assignments inside in
        let panics = gather_panics row (assignments_of tables field) no_assignments o h e p in
        rw assigns (rw (panics, ◌>>=◌) refl)

    branch_panics :
        (kind : TypeId)
        → ((o : Ownership) → gather_assignment_facts tables provenance index field o ≡ none)
        → (c : DeinitClosure) (o : Ownership)
        → classify_reference tables graph provenance index field kind (c, o) ≡ none
    unfolding classify_reference
    branch_panics kind facts c o =
        let o₁ =
          if over_aligned tables kind
          then push_evidence alignment_cannot_be_carried no_index o
          else o in
        elim (Option-cases (gather_free_facts tables graph index field (c, o₁))) [
          | inl panics ↦ rw (panics, ◌>>=◌) refl
          | inr ((c', free, o₂), ends) ↦
              rw (ends, ◌>>=◌) (rw (facts (gather_resize_facts tables index field o₂).1) refl)
        ]

    -- An assignment of the field that asks for a class that is not there ends the field's step.
    field_panics :
        (kind : TypeId) (row : ℕ)
        → get_elem? tables.fields.field_type field ≡ some kind
        → is_reference_type tables.types kind ≡ true
        → Has row (assignments_of tables field)
        → get_elem? tables.field_assignments.source row ≡ some AssignmentSource.allocation
        → assigned_allocator tables provenance row ≡ none
        → (s : DeinitClosure × Ownership)
        → classify_field tables graph provenance index field s ≡ none
    unfolding classify_field
    field_panics kind row typed refers h e p (c, o) =
        let at : as_u32 field ≡ field = as_u32-eq_of_lt field (omega (arith, numbered.fields)) in
        rw (typed, classify_field)
          (rw (at, refers) (branch_panics kind (facts_panic row h e p) c o))

    -- A field whose step panics ends the loop over the fields.
    fields_panic :
        (fields row : ℕ) (s : DeinitClosure × Ownership)
        → row ≤ field
        → field < row + fields
        → ((s : DeinitClosure × Ownership)
            → classify_field tables graph provenance index field s ≡ none)
        → classify_from tables graph provenance index fields row s ≡ none
    unfolding classify_from
    fields_panic zero row s low high h = absurd (omega arith)
    fields_panic (suc fields) row (c, o) low high h = elim (ℕ_discrete row field) [
      | yes here ↦
          let panics =
            ap (λ r. classify_field tables graph provenance index r (c, o)) here ∙ h (c, o) in
          rw (panics, ◌>>=◌) refl
      | no before ↦ elim (Option-cases (classify_field tables graph provenance index row (c, o))) [
        | inl panics ↦ rw (panics, ◌>>=◌) refl
        | inr ((c', o', decision), ends) ↦
            rw (ends, ◌>>=◌) (fields_panic fields (row + 1) _ (omega arith) (omega arith) h)
      ]
    ]

    -- Where the pass ends, the class of each allocation that is assigned to a field that refers is
    -- found, and it is the reference's.
    pub assigned_allocator-found :
        (o : Ownership) (kind : TypeId)
        → classify_ownership tables graph provenance ≡ some o
        → get_elem? tables.fields.field_type field ≡ some kind
        → is_reference_type tables.types kind ≡ true
        → (row : ℕ) → Has row (assignments_of tables field)
        → get_elem? tables.field_assignments.source row ≡ some AssignmentSource.allocation
        → assigned_allocator tables provenance row
          ≡ some (reference_allocator tables provenance row)
    unfolding classify_ownership
    assigned_allocator-found o kind ends typed refers row h e =
        elim (assigned_allocator-Gives tables provenance row) [
          | inl found ↦ found
          | inr (panics, short) ↦
              let nothing =
                fields_panic (field_count tables.fields) 0 (first_closure tables, no_ownership)
                  (omega arith) (omega arith) (field_panics kind row typed refers h e panics) in
              let value : classify_ownership tables graph provenance ≡ none =
                rw (nothing, ◌>>=◌) refl in
              absurd (cc (sym value ∙ ends))
        ]
