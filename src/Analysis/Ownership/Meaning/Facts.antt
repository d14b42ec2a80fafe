-- ===== src/Analysis/Ownership/Meaning/Facts.antt =====
-- What the loops of crates/zag-analysis/src/ownership.rs gather, and what it means that a field is
-- owned.
use zag.Prelude.{
  ℕ, zero, suc, ◌+◌, ◌≤◌, ◌<◌, ◌≡◌, ◌≢◌, ◌↔◌, ◌⊎◌, inl, inr, sym, ap, ◌∙◌, true, ◌||◌, Option, none,
  some, List, [], ◌∷◌, arith, get_elem?, Any, Option-cases, ℕ_discrete,
}
use mathlib.Core.Path.{subst}
use zag.Facts.Handles.{FieldId, StructId}
use zag.Facts.Kinds.{AssignmentSource}
use zag.Facts.Tables.{Tables}
use zag.Analysis.CallGraph.Scan.{Has}
use zag.Analysis.Provenance.{Provenance}
use zag.Analysis.Provenance.Lattice.{Below, join_least, Below-trans, join_idem}
use zag.Analysis.Ownership.{Ownership, FreeFacts, AssignmentFacts, push_evidence}
use zag.Analysis.Ownership.Index.Laws.{rows_with}
use zag.Analysis.Ownership.Evidence.{function_at, free_kind}
use zag.Analysis.Ownership.Evidence.Closure.{in_deinit_closure}
use zag.Analysis.Ownership.Reference.{
  reference_frees, reference_assignments, reference_added, reference_allocator,
}

-- A scan finds the rows of the range that have the field.
pub Has-rows_with :
    (field_of : ℕ → Option FieldId) (field rows row r : ℕ)
    → Has r (rows_with field_of field rows row)
      ↔ ((row ≤ r) × (r < row + rows) × (field_of r ≡ some field))
Has-rows_with field_of field zero row r = (λ h. absurd h, λ h. absurd (omega (arith, h.0, h.1)))
Has-rows_with field_of field (suc rows) row r = elim (ℕ_discrete row r) [
  | yes e ↦
      let at : field_of row ≡ field_of r = ap field_of e in
      ground (arith, at, Has-rows_with field_of field rows (row + 1) r)
  | no other ↦ ground (arith, Has-rows_with field_of field rows (row + 1) r)
]

-- The frees: whether there is one, and whether one is in the owner's closure.
pub reference_frees-facts :
    (tables : Tables) (owner : StructId) (rows : List ℕ) (facts : FreeFacts) (o : Ownership)
    → (((reference_frees tables owner rows (facts, o)).0.freed ≡ true)
        ↔ ((facts.freed ≡ true) ⊎ (rows ≢ [])))
      × (((reference_frees tables owner rows (facts, o)).0.freed_in_deinit_closure ≡ true) ↔ (
          (facts.freed_in_deinit_closure ≡ true)
          ⊎ Any
              (λ row.
                in_deinit_closure tables owner (function_at tables.memory_operations.function row)
                ≡ true)
              rows))
unfolding reference_frees
reference_frees-facts tables owner [] facts o = ground arith
reference_frees-facts tables owner (row ∷ rows) facts o =
    let function = function_at tables.memory_operations.function row in
    let inside = in_deinit_closure tables owner function in
    let facts' : FreeFacts = record {
      freed = true;
      freed_in_deinit_closure = facts.freed_in_deinit_closure || inside;
    } in
    ground (
      arith,
      reference_frees-facts tables owner rows facts' (push_evidence (free_kind inside) function o),
    )

-- What the assignments of a list of rows add to the facts.
pub record Gathers (tables : Tables) (provenance : Provenance) (rows : List ℕ)
    (before after : AssignmentFacts) : Type 0 where
  pub allocation : (after.has_allocation ≡ true) ↔ (
      (before.has_allocation ≡ true)
      ⊎ Any
          (λ row. get_elem? tables.field_assignments.source row ≡ some AssignmentSource.allocation)
          rows)
  pub parameter : (after.has_parameter ≡ true) ↔ (
      (before.has_parameter ≡ true)
      ⊎ Any
          (λ row. get_elem? tables.field_assignments.source row ≡ some AssignmentSource.parameter)
          rows)
  pub literal : (after.has_literal ≡ true) ↔ (
      (before.has_literal ≡ true)
      ⊎ Any
          (λ row.
            get_elem? tables.field_assignments.source row ≡ some AssignmentSource.static_literal)
          rows)
  pub other : (after.has_unknown ≡ true) ↔ (
      (before.has_unknown ≡ true)
      ⊎ Any
          (λ row. get_elem? tables.field_assignments.source row ≡ some AssignmentSource.unknown)
          rows)
  pub kept : Below before.allocator after.allocator
  pub allocators :
      (row : ℕ)
      → Has row rows
      → get_elem? tables.field_assignments.source row ≡ some AssignmentSource.allocation
      → Below (reference_allocator tables provenance row) after.allocator

module _ (tables : Tables) (provenance : Provenance) (row : ℕ) (rows : List ℕ)
    (before after : AssignmentFacts) where
  -- A row with no source adds nothing.
  Gathers-skip :
      get_elem? tables.field_assignments.source row ≡ none
      → Gathers tables provenance rows before after
      → Gathers tables provenance (row ∷ rows) before after
  Gathers-skip absent g = record {
    allocation = ground (arith, g.allocation);
    parameter = ground (arith, g.parameter);
    literal = ground (arith, g.literal);
    other = ground (arith, g.other);
    kept = g.kept;
    allocators = λ r h e. elim h [
      | inl here ↦
          absurd (cc (sym absent ∙ (ap (get_elem? tables.field_assignments.source) here ∙ e)))
      | inr later ↦ g.allocators r later e
    ];
  }

  -- A row with a source adds it.
  Gathers-add :
      (source : AssignmentSource)
      → get_elem? tables.field_assignments.source row ≡ some source
      → Gathers tables provenance rows
          (reference_added source (reference_allocator tables provenance row) before)
          after
      → Gathers tables provenance (row ∷ rows) before after
  unfolding reference_added
  Gathers-add AssignmentSource.allocation e g =
      let mine = reference_allocator tables provenance row in
      let upper = join_least before.allocator mine after.allocator in
      record {
        allocation = ground (arith, g.allocation);
        parameter = ground (arith, g.parameter);
        literal = ground (arith, g.literal);
        other = ground (arith, g.other);
        kept = Below-trans _ _ _ upper.0 g.kept;
        allocators = λ r h e'. elim h [
          | inl here ↦
              subst (λ i. Below (reference_allocator tables provenance i) after.allocator) here
                (Below-trans _ _ _ upper.1 g.kept)
          | inr later ↦ g.allocators r later e'
        ];
      }
  Gathers-add AssignmentSource.parameter e g = record {
    allocation = ground (arith, g.allocation);
    parameter = ground (arith, g.parameter);
    literal = ground (arith, g.literal);
    other = ground (arith, g.other);
    kept = g.kept;
    allocators = λ r h e'. elim h [
      | inl here ↦ absurd (cc (sym (ap (get_elem? tables.field_assignments.source) here ∙ e'), e))
      | inr later ↦ g.allocators r later e'
    ];
  }
  Gathers-add AssignmentSource.static_literal e g = record {
    allocation = ground (arith, g.allocation);
    parameter = ground (arith, g.parameter);
    literal = ground (arith, g.literal);
    other = ground (arith, g.other);
    kept = g.kept;
    allocators = λ r h e'. elim h [
      | inl here ↦ absurd (cc (sym (ap (get_elem? tables.field_assignments.source) here ∙ e'), e))
      | inr later ↦ g.allocators r later e'
    ];
  }
  Gathers-add AssignmentSource.unknown e g = record {
    allocation = ground (arith, g.allocation);
    parameter = ground (arith, g.parameter);
    literal = ground (arith, g.literal);
    other = ground (arith, g.other);
    kept = g.kept;
    allocators = λ r h e'. elim h [
      | inl here ↦ absurd (cc (sym (ap (get_elem? tables.field_assignments.source) here ∙ e'), e))
      | inr later ↦ g.allocators r later e'
    ];
  }

pub reference_assignments-Gathers :
    (tables : Tables) (provenance : Provenance) (rows : List ℕ) (facts : AssignmentFacts)
    (o : Ownership)
    → Gathers tables provenance rows facts
        (reference_assignments tables provenance rows (facts, o)).0
unfolding reference_assignments
reference_assignments-Gathers tables provenance [] facts o = record {
  allocation = ground arith;
  parameter = ground arith;
  literal = ground arith;
  other = ground arith;
  kept = join_idem facts.allocator;
  allocators = λ row h. absurd h;
}
reference_assignments-Gathers tables provenance (row ∷ rows) facts o =
    elim (Option-cases (get_elem? tables.field_assignments.source row)) [
      | inl absent ↦
          rw (absent, reference_assignments)
            (Gathers-skip tables provenance row rows facts _ absent
              (reference_assignments-Gathers tables provenance rows facts o))
      | inr (source, e) ↦
          rw (e, reference_assignments)
            (Gathers-add tables provenance row rows facts _ source e
              (reference_assignments-Gathers tables provenance rows _ _))
    ]
