-- ===== src/Analysis/Ownership/Refines.antt =====
-- The pass of crates/zag-analysis/src/ownership.rs, with its index and its reusable buffer,
-- computes what the scans of the whole tables do.
use zag.Prelude.{
  ℕ, zero, suc, ◌+◌, ◌≤◌, ◌<◌, ◌≡◌, ◌⊎◌, refl, sym, ap, ◌∙◌, inl, inr, Option, none,
  as_u32-eq_of_lt, false, some, List, [], ◌∷◌, arith, length, get_elem?, get_or, as_u32, u32_mod,
  Option-cases, Bool-cases, if◌then◌else◌, ◌>>=◌, length-replicate, replicate,
}
use mathlib.Core.Option.{some-injective}
use zag.Facts.Handles.{FieldId, StructId, TypeId, no_index}
use zag.Facts.Kinds.{MemoryOperationKind}
use zag.Facts.Tables.{Tables}
use zag.Facts.Access.{
  parameter_count, field_count, memory_operation_count, call_count, function_count,
}
use zag.Facts.Ranges.{is_reference_type}
use zag.Analysis.CallGraph.{CallGraph, build_call_graph}
use zag.Analysis.Provenance.{Provenance, resolve_allocator_provenance}
use zag.Analysis.Provenance.Converges.{length-resolve}
use zag.Analysis.Ownership.{
  Ownership, OwnershipClass, Confidence, FreeFacts, push_evidence, alignment_cannot_be_carried,
}
use zag.Analysis.Ownership.Index.{FieldIndex, build_field_index, rows_at}
use zag.Analysis.Ownership.Index.Laws.{build_field_index-rows}
use zag.Analysis.Ownership.Evidence.{
  DeinitClosure, gather_frees, gather_free_facts, gather_resize_facts, gather_assignment_facts,
  no_frees, function_at, over_aligned, gather_resizes, no_assignments, conclude_assignments,
}
use zag.Analysis.Ownership.Assigned.{IsShort, Gives, gather_assignments-Gives}
use zag.Analysis.Ownership.Evidence.Closure.{IsClosure, closure_holds-IsClosure}
use zag.Analysis.Ownership.Classify.{
  Decided, push_ownership, classify_reference, classify_field, classify_from, classify_ownership,
  analyze, first_closure, no_ownership,
}
use zag.Analysis.Ownership.Reference.{
  operations_on, assignments_of, reference_assignments, reference_frees, reference_branch,
  reference_field, reference_from, reference_ownership,
}

get_elem?-replicate : (n v x : ℕ) → get_elem? (replicate n 0) v ≡ some x → x ≡ 0
get_elem?-replicate zero v x h = absurd (cc h)
get_elem?-replicate (suc n) zero x h = cc
get_elem?-replicate (suc n) (suc v) x h = get_elem?-replicate n v x h

-- Every row has a `u32` number, and so has a generation for each field and one more.
pub record IsNumbered (tables : Tables) : Type 0 where
  pub calls : call_count tables.calls < u32_mod
  pub operations : memory_operation_count tables.memory_operations < u32_mod
  pub assignments : length tables.field_assignments.field < u32_mod
  pub fields : field_count tables.fields + 1 < u32_mod

module _ (tables : Tables) (numbered : IsNumbered tables) where
  abbrev graph : CallGraph
  graph = build_call_graph tables

  abbrev Good : DeinitClosure → Type 0
  Good c = IsClosure tables numbered.calls c

  -- Once the closure is the owner's it stays, and the frees are those of the fresh walks.
  gather_frees-held :
      (owner : StructId) (rows : List ℕ) (c : DeinitClosure) (facts : FreeFacts) (o : Ownership)
      → Good c
      → c.owner ≡ some owner
      → c.generation + 1 < u32_mod
      → gather_frees tables graph owner rows (c, facts, o)
        ≡ some (
          c,
          (reference_frees tables owner rows (facts, o)).0,
          (reference_frees tables owner rows (facts, o)).1,
        )
  unfolding gather_frees reference_frees
  gather_frees-held owner [] c facts o good owned small = refl
  gather_frees-held owner (row ∷ rows) c facts o good owned small =
      let function = function_at tables.memory_operations.function row in
      let (c', ends, good', owned', bound, same) =
        closure_holds-IsClosure tables numbered.calls c owner function good small in
      rw (ends, same owned, ◌>>=◌) (gather_frees-held owner rows c _ _ good owned small)

  -- The frees of a field from any closure: at most one generation goes by.
  gather_frees-reference :
      (owner : StructId) (rows : List ℕ) (c : DeinitClosure) (facts : FreeFacts) (o : Ownership)
      → Good c
      → c.generation + 2 < u32_mod
      → (c' : DeinitClosure) × (gather_frees tables graph owner rows (c, facts, o)
          ≡ some (
            c',
            (reference_frees tables owner rows (facts, o)).0,
            (reference_frees tables owner rows (facts, o)).1,
          ))
        × Good c'
        × (c'.generation ≤ c.generation + 1)
  gather_frees-reference owner [] c facts o good small =
      (c, unfold gather_frees reference_frees in refl, good, omega arith)
  gather_frees-reference owner (row ∷ rows) c facts o good small =
      let function = function_at tables.memory_operations.function row in
      let (c', ends, good', owned', bound, same) =
        closure_holds-IsClosure tables numbered.calls c owner function good (omega arith) in
      (
        c',
        unfold gather_frees reference_frees in
            rw (ends, ◌>>=◌) (gather_frees-held owner rows c' _ _ good' owned' (omega arith)),
        good',
        bound,
      )

  abbrev index : FieldIndex
  index = build_field_index tables

  module _ (provenance : Provenance) (field : FieldId)
      (inside : field < field_count tables.fields) where
    scans :
        (rows_at index.free_start index.free_rows field
          ≡ operations_on tables MemoryOperationKind.free field)
        × (rows_at index.resize_start index.resize_rows field
            ≡ operations_on tables MemoryOperationKind.resize field)
        × (rows_at index.assignment_start index.assignment_rows field ≡ assignments_of tables field)
    scans = build_field_index-rows tables field numbered.operations numbered.assignments inside

    resizes-reference :
        (o : Ownership)
        → gather_resize_facts tables index field o
          ≡ gather_resizes tables (operations_on tables MemoryOperationKind.resize field) (false, o)
    unfolding gather_resize_facts
    resizes-reference o =
        let (frees, resizes, assigns) = scans in
        ap (λ rows. gather_resizes tables rows (false, o)) resizes

    assignments-reference :
        (o : Ownership)
        → Gives tables provenance (gather_assignment_facts tables provenance index field o) (
            conclude_assignments (
              reference_assignments tables provenance
                (assignments_of tables field)
                (no_assignments, o)))
    unfolding gather_assignment_facts
    assignments-reference o =
        let (frees, resizes, assigns) = scans in
        rw assigns
          (elim (gather_assignments-Gives tables provenance (assignments_of tables field)
            no_assignments o) [
              | inl gathered ↦ inl (rw (gathered, ◌>>=◌) refl)
              | inr (panics, short) ↦ inr (rw (panics, ◌>>=◌) refl, short)
            ])

    frees-reference :
        (c : DeinitClosure) (o : Ownership)
        → gather_free_facts tables graph index field (c, o)
          ≡ gather_frees tables graph
              (get_or tables.fields.owner field no_index)
              (operations_on tables MemoryOperationKind.free field)
              (c, no_frees, o)
    unfolding gather_free_facts
    frees-reference c o =
        let (frees, resizes, assigns) = scans in
        ap
          (λ rows.
            gather_frees tables graph (get_or tables.fields.owner field no_index) rows
              (c, no_frees, o))
          frees

    -- A field's step gives what the reference does, with a good closure that is at most one generation
    -- older, or it panics on too few classes.
    abbrev Steps :
        Option Decided → DeinitClosure → Ownership × (OwnershipClass × Confidence) → Type 0
    Steps computed c expected =
        ((c' : DeinitClosure) × (computed ≡ some (c', expected.0, expected.1))
          × Good c'
          × (c'.generation ≤ c.generation + 1))
        ⊎ ((computed ≡ none) × IsShort tables provenance)

    classify_reference-branch :
        (kind : TypeId) (c : DeinitClosure) (o : Ownership)
        → Good c
        → c.generation + 2 < u32_mod
        → Steps
            (classify_reference tables graph provenance index field kind (c, o))
            c
            (reference_branch tables provenance field kind o)
    unfolding classify_reference reference_branch
    classify_reference-branch kind c o good small =
        let o₁ =
          if over_aligned tables kind
          then push_evidence alignment_cannot_be_carried no_index o
          else o in
        let (c', ends, good', bound) =
          gather_frees-reference (get_or tables.fields.owner field no_index)
            (operations_on tables MemoryOperationKind.free field) c no_frees o₁ good small in
        let freed =
          reference_frees tables (get_or tables.fields.owner field no_index)
            (operations_on tables MemoryOperationKind.free field) (no_frees, o₁) in
        let resized =
          gather_resizes tables (operations_on tables MemoryOperationKind.resize field)
            (false, freed.1) in
        elim (assignments-reference resized.1) [
          | inl gathered ↦ inl (
            c',
            rw (frees-reference c o₁ ∙ ends, ◌>>=◌) (rw (resizes-reference _, gathered) refl),
            good',
            bound,
          )
          | inr (panics, short) ↦ inr (
            rw (frees-reference c o₁ ∙ ends, ◌>>=◌) (rw (resizes-reference _, panics) refl),
            short,
          )
        ]

    classify_field-reference :
        (c : DeinitClosure) (o : Ownership)
        → Good c
        → c.generation + 2 < u32_mod
        → Steps
            (classify_field tables graph provenance index field (c, o))
            c
            (reference_field tables provenance field o)
    unfolding classify_field reference_field
    classify_field-reference c o good small =
        let at : as_u32 field ≡ field =
          as_u32-eq_of_lt field (omega (arith, inside, numbered.fields)) in
        elim (Option-cases (get_elem? tables.fields.field_type field)) [
          | inl absent ↦
              inl (c, rw (absent, classify_field, reference_field) refl, good, omega arith)
          | inr (kind, typed) ↦ elim (Bool-cases (is_reference_type tables.types kind)) [
            | inr other ↦
                inl (
                  c,
                  rw (typed, classify_field, reference_field) (rw other refl),
                  good,
                  omega arith,
                )
            | inl refers ↦
                rw (typed, classify_field, reference_field)
                  (rw (at, refers) (classify_reference-branch kind c o good small))
          ]
        ]

  classify_from-reference :
      (provenance : Provenance) (fields field : ℕ) (c : DeinitClosure) (o : Ownership)
      → field + fields ≡ field_count tables.fields
      → Good c
      → c.generation ≤ field
      → ((c' : DeinitClosure) × (classify_from tables graph provenance index fields field (c, o)
            ≡ some (c', reference_from tables provenance fields field o)))
        ⊎ ((classify_from tables graph provenance index fields field (c, o) ≡ none)
            × IsShort tables provenance)
  unfolding classify_from reference_from
  classify_from-reference provenance zero field c o e good young = inl (c, refl)
  classify_from-reference provenance (suc fields) field c o e good young =
      let small = numbered.fields in
      let step = reference_field tables provenance field o in
      let next = push_ownership (as_u32 (length o.evidence_kind)) step.1 step.0 in
      elim (classify_field-reference provenance field (omega arith) c o good (omega arith)) [
        | inr (panics, short) ↦ inr (rw (panics, ◌>>=◌) refl, short)
        | inl (c', ends, good', bound) ↦
            elim (classify_from-reference provenance fields (field + 1) c' next (omega arith) good'
              (omega arith)) [
                | inl (last, ends') ↦ inl (last, rw (ends, ◌>>=◌) ends')
                | inr (panics, short) ↦ inr (rw (ends, ◌>>=◌) panics, short)
              ]
      ]

  pub first-Good : Good (first_closure tables)
  first-Good = record {
    sized = length-replicate (function_count tables.functions) zero;
    bounded = λ v x h. omega (arith, get_elem?-replicate (function_count tables.functions) v x h);
    current = λ owner h. absurd (cc h);
  }

classify_ownership-Gives :
    (tables : Tables) (provenance : Provenance)
    → IsNumbered tables
    → Gives tables provenance
        (classify_ownership tables (build_call_graph tables) provenance)
        (reference_ownership tables provenance)
unfolding classify_ownership reference_ownership
classify_ownership-Gives tables provenance numbered =
    elim (classify_from-reference tables numbered provenance (field_count tables.fields) 0
      (first_closure tables) no_ownership (omega arith) (first-Good tables numbered)
      (omega arith)) [
        | inl (c, ends) ↦ inl (rw (ends, ◌>>=◌) refl)
        | inr (panics, short) ↦ inr (rw (panics, ◌>>=◌) refl, short)
      ]

-- Where rows and generations are `u32` and there is a class for each parameter: on the graph of the
-- program's calls the pass ends without a panic, and decides every field and records all the evidence
-- as the scans of the whole tables and the fresh walks do.
pub classify_ownership-reference :
    (tables : Tables) (provenance : Provenance)
    → IsNumbered tables
    → parameter_count tables.parameters ≤ length provenance.parameter_class
    → classify_ownership tables (build_call_graph tables) provenance
      ≡ some (reference_ownership tables provenance)
classify_ownership-reference tables provenance numbered enough =
    elim (classify_ownership-Gives tables provenance numbered) [
      | inl ends ↦ ends
      | inr (panics, short) ↦ absurd (omega arith)
    ]

-- Whatever classes it is handed, a pass that ends has the reference's result.
pub reference_of_ends :
    (tables : Tables) (provenance : Provenance) (o : Ownership)
    → IsNumbered tables
    → classify_ownership tables (build_call_graph tables) provenance ≡ some o
    → reference_ownership tables provenance ≡ o
reference_of_ends tables provenance o numbered ends =
    elim (classify_ownership-Gives tables provenance numbered) [
      | inl same ↦ some-injective _ _ (sym same ∙ ends)
      | inr (panics, short) ↦ absurd (cc (sym panics ∙ ends))
    ]

-- Where rows and generations are `u32`, the whole analysis ends, with the graph, the classes and
-- the decisions of its three passes.
pub analyze_ends :
    (tables : Tables)
    → IsNumbered tables
    → analyze tables
      ≡ some (record {
        graph = build_call_graph tables;
        provenance = resolve_allocator_provenance tables;
        ownership = reference_ownership tables (resolve_allocator_provenance tables);
      })
unfolding analyze
analyze_ends tables numbered =
    rw
      (
        classify_ownership-reference tables (resolve_allocator_provenance tables) numbered
            (omega (arith, length-resolve tables)),
        ◌>>=◌,
      )
      refl
