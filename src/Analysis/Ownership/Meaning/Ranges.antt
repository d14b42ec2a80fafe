-- ===== src/Analysis/Ownership/Meaning/Ranges.antt =====
-- The ranges of evidence that crates/zag-analysis/src/ownership.rs records for the fields.
use zag.Prelude.{
  Follow, ℕ, zero, suc, ◌+◌, ◌-◌, ◌<◌, ◌≤◌, ◌≡◌, inl, inr, refl, sym, ap, ◌∙◌, Bool, true, false,
  some, List, [], ◌∷◌, ◌++◌, arith, length, get_elem?, length-append, as_u32, as_u32-eq_of_lt,
  u32_mod, u32_sub-eq_of_le, if◌then◌else◌, Option-cases, Bool-cases,
}
use mathlib.Core.Path.{subst}
use zag.Facts.Handles.{StructId, FieldId, FunctionId, TypeId, no_index}
use zag.Facts.Kinds.{MemoryOperationKind}
use zag.Facts.Tables.{Tables}
use zag.Facts.Access.{field_count}
use zag.Facts.Ranges.{is_reference_type}
use zag.Analysis.CallGraph.{build_call_graph}
use zag.Analysis.Provenance.{Provenance}
use zag.Analysis.Ownership.{
  Ownership, OwnershipClass, Confidence, EvidenceKind, FreeFacts, AssignmentFacts, push_evidence,
  alignment_cannot_be_carried, no_assignments_found,
}
use zag.Analysis.Ownership.Evidence.{
  gather_resizes, conclude_assignments, allocator_kind, over_aligned, no_frees, no_assignments,
}
use zag.Analysis.Ownership.Classify.{push_ownership, no_ownership, classify_ownership}
use zag.Analysis.Ownership.Reference.{
  operations_on, assignments_of, reference_frees, reference_branch, reference_field, reference_from,
  reference_ownership, reference_assignments,
}
use zag.Analysis.Ownership.Refines.{IsNumbered, reference_of_ends}

-- Evidence is added, and no range is touched.
record Extends (o o' : Ownership) : Type 0 where
  starts : o'.evidence_start ≡ o.evidence_start
  counts : o'.evidence_count ≡ o.evidence_count
  longer : length o.evidence_kind ≤ length o'.evidence_kind

Extends-refl : (o : Ownership) → Extends o o
Extends-refl o = record { starts = refl; counts = refl; longer = omega arith }

Extends-trans : (a b c : Ownership) → Extends a b → Extends b c → Extends a c
Extends-trans a b c x y = record {
  starts = y.starts ∙ x.starts;
  counts = y.counts ∙ x.counts;
  longer = omega (arith, x.longer, y.longer);
}

push_evidence-Extends :
    (kind : EvidenceKind) (function : FunctionId) (o : Ownership)
    → Extends o (push_evidence kind function o)
unfolding push_evidence
push_evidence-Extends kind function o = record {
  starts = refl;
  counts = refl;
  longer = omega (arith, length-append o.evidence_kind (kind ∷ []));
}

reference_frees-Extends :
    (tables : Tables) (owner : StructId) (rows : List ℕ) (facts : FreeFacts) (o : Ownership)
    → Extends o (reference_frees tables owner rows (facts, o)).1
unfolding reference_frees
reference_frees-Extends tables owner [] facts o = Extends-refl o
reference_frees-Extends tables owner (row ∷ rows) facts o =
    Extends-trans o _ _ (push_evidence-Extends _ _ o)
      (reference_frees-Extends tables owner rows _ _)

gather_resizes-Extends :
    (tables : Tables) (rows : List ℕ) (resized : Bool) (o : Ownership)
    → Extends o (gather_resizes tables rows (resized, o)).1
unfolding gather_resizes
gather_resizes-Extends tables [] resized o = Extends-refl o
gather_resizes-Extends tables (row ∷ rows) resized o =
    Extends-trans o _ _ (push_evidence-Extends _ _ o) (gather_resizes-Extends tables rows true _)

reference_assignments-Extends :
    (tables : Tables) (provenance : Provenance) (rows : List ℕ) (facts : AssignmentFacts)
    (o : Ownership)
    → Extends o (reference_assignments tables provenance rows (facts, o)).1
unfolding reference_assignments
reference_assignments-Extends tables provenance [] facts o = Extends-refl o
reference_assignments-Extends tables provenance (row ∷ rows) facts o =
    elim (Option-cases (get_elem? tables.field_assignments.source row)) [
      | inl absent ↦
          rw (absent, reference_assignments)
            (reference_assignments-Extends tables provenance rows facts o)
      | inr (source, e) ↦
          rw (e, reference_assignments)
            (Extends-trans o _ _ (push_evidence-Extends _ _ o)
              (reference_assignments-Extends tables provenance rows _ _))
    ]

push_evidence_if-Extends :
    (b : Bool) (kind : EvidenceKind) (o : Ownership)
    → Extends o (if b then push_evidence kind no_index o else o)
push_evidence_if-Extends true kind o = push_evidence-Extends kind no_index o
push_evidence_if-Extends false kind o = Extends-refl o

conclude_assignments-Extends :
    (s : AssignmentFacts × Ownership) → Extends s.1 (conclude_assignments s).1
unfolding conclude_assignments
conclude_assignments-Extends (facts, o) = record {
  starts = ground arith;
  counts = ground arith;
  longer = ground (
    arith,
    length-append o.evidence_kind (allocator_kind facts.allocator ∷ []),
    length-append o.evidence_kind (no_assignments_found ∷ []),
    length-append (o.evidence_kind ++ allocator_kind facts.allocator ∷ [])
        (no_assignments_found ∷ []),
  );
}

reference_branch-Extends :
    (tables : Tables) (provenance : Provenance) (field : FieldId) (kind : TypeId) (o : Ownership)
    → Extends o (reference_branch tables provenance field kind o).0
unfolding reference_branch
reference_branch-Extends tables provenance field kind o =
    Extends-trans o _ _
      (push_evidence_if-Extends (over_aligned tables kind) alignment_cannot_be_carried o)
      (Extends-trans _ _ _
        (reference_frees-Extends tables _ (operations_on tables MemoryOperationKind.free field)
          no_frees _)
        (Extends-trans _ _ _
          (gather_resizes-Extends tables (operations_on tables MemoryOperationKind.resize field)
            false _)
          (Extends-trans _ _ _
            (reference_assignments-Extends tables provenance (assignments_of tables field)
              no_assignments _)
            (conclude_assignments-Extends _))))

reference_field-Extends :
    (tables : Tables) (provenance : Provenance) (field : FieldId) (o : Ownership)
    → Extends o (reference_field tables provenance field o).0
unfolding reference_field
reference_field-Extends tables provenance field o =
    elim (Option-cases (get_elem? tables.fields.field_type field)) [
      | inl absent ↦ rw (absent, reference_field) (Extends-refl o)
      | inr (kind, e) ↦ elim (Bool-cases (is_reference_type tables.types kind)) [
        | inl refers ↦
            rw (e, reference_field)
              (rw (refers, reference_field)
                (reference_branch-Extends tables provenance field kind o))
        | inr plain ↦ rw (e, reference_field) (rw (plain, reference_field) (Extends-refl o))
      ]
    ]

Follow-append :
    (from : ℕ) (starts counts : List ℕ) (middle count : ℕ)
    → Follow from starts counts middle
    → Follow from (starts ++ middle ∷ []) (counts ++ count ∷ []) (middle + count)
Follow-append from [] [] middle count h = (sym h, ap (λ k. k + count) h)
Follow-append from (start ∷ starts) (c ∷ counts) middle count h =
    (h.0, Follow-append (from + c) starts counts middle count h.1)
Follow-append from [] (c ∷ counts) middle count h = absurd h
Follow-append from (start ∷ starts) [] middle count h = absurd h

reference_from-longer :
    (tables : Tables) (provenance : Provenance) (fields : ℕ) (field : FieldId) (o : Ownership)
    → length o.evidence_kind
      ≤ length (reference_from tables provenance fields field o).evidence_kind
unfolding reference_from push_ownership
reference_from-longer tables provenance zero field o = omega arith
reference_from-longer tables provenance (suc fields) field o = omega (
  arith,
  (reference_field-Extends tables provenance field o).longer,
  reference_from-longer tables provenance fields (field + 1) (
      push_ownership (as_u32 (length o.evidence_kind)) (reference_field tables provenance field o).1
        (reference_field tables provenance field o).0),
)

push_ownership-Follow :
    (o o' : Ownership) (decision : OwnershipClass × Confidence)
    → Extends o o'
    → length o'.evidence_kind < u32_mod
    → Follow 0 o.evidence_start o.evidence_count (length o.evidence_kind)
    → Follow 0
        (push_ownership (as_u32 (length o.evidence_kind)) decision o').evidence_start
        (push_ownership (as_u32 (length o.evidence_kind)) decision o').evidence_count
        (length o'.evidence_kind)
unfolding push_ownership
push_ownership-Follow o o' (class, confidence) e small h =
    let start : as_u32 (length o.evidence_kind) ≡ length o.evidence_kind =
      as_u32-eq_of_lt (length o.evidence_kind) (omega (arith, e.longer)) in
    let end = as_u32-eq_of_lt (length o'.evidence_kind) small in
    let count =
      u32_sub-eq_of_le (length o'.evidence_kind) (length o.evidence_kind) e.longer small in
    let whole : length o.evidence_kind + (length o'.evidence_kind - length o.evidence_kind)
        ≡ length o'.evidence_kind =
      omega (arith, e.longer) in
    rw (start, end, count, e.starts, e.counts)
      (rw whole at (
        Follow-append 0 o.evidence_start o.evidence_count (length o.evidence_kind)
          (length o'.evidence_kind - length o.evidence_kind) h))

push_ownership-kind :
    (start : ℕ) (decision : OwnershipClass × Confidence) (o : Ownership)
    → length (push_ownership start decision o).evidence_kind ≡ length o.evidence_kind
unfolding push_ownership
push_ownership-kind start (class, confidence) o = refl

reference_from-Follow :
    (tables : Tables) (provenance : Provenance) (fields : ℕ) (field : FieldId) (o : Ownership)
    → length (reference_from tables provenance fields field o).evidence_kind < u32_mod
    → Follow 0 o.evidence_start o.evidence_count (length o.evidence_kind)
    → Follow 0
        (reference_from tables provenance fields field o).evidence_start
        (reference_from tables provenance fields field o).evidence_count
        (length (reference_from tables provenance fields field o).evidence_kind)
unfolding reference_from
reference_from-Follow tables provenance zero field o small h = h
reference_from-Follow tables provenance (suc fields) field o small h =
    let decided = reference_field tables provenance field o in
    let pushed = push_ownership (as_u32 (length o.evidence_kind)) decided.1 decided.0 in
    let longer = reference_from-longer tables provenance fields (field + 1) pushed in
    let kept : length pushed.evidence_kind ≡ length decided.0.evidence_kind =
      push_ownership-kind _ decided.1 decided.0 in
    reference_from-Follow tables provenance fields (field + 1) pushed small (
      rw kept (
        push_ownership-Follow o decided.0 decided.1
          (reference_field-Extends tables provenance field o) (omega (arith, longer, small, kept))
          h))

reference_from-length :
    (tables : Tables) (provenance : Provenance) (fields : ℕ) (field : FieldId) (o : Ownership)
    → length (reference_from tables provenance fields field o).evidence_start
      ≡ length o.evidence_start + fields
unfolding reference_from push_ownership
reference_from-length tables provenance zero field o = omega arith
reference_from-length tables provenance (suc fields) field o =
    let (o', decision) = reference_field tables provenance field o in
    let start = as_u32 (length o.evidence_kind) in
    omega (
      arith,
      ap length (reference_field-Extends tables provenance field o).starts,
      length-append o'.evidence_start (start ∷ []),
      reference_from-length tables provenance fields (field + 1) (push_ownership start decision o'),
    )

-- Where rows and generations are `u32`, and no more pieces of evidence are recorded than a `u32`
-- counts: each field has a range of evidence, and the ranges, in the order of the fields, follow one
-- another from the first piece of evidence to the last.
pub classify_ownership-Follow :
    (tables : Tables) (provenance : Provenance) (o : Ownership)
    → IsNumbered tables
    → classify_ownership tables (build_call_graph tables) provenance ≡ some o
    → length o.evidence_kind < u32_mod
    → (length o.evidence_start ≡ field_count tables.fields)
      × Follow 0 o.evidence_start o.evidence_count (length o.evidence_kind)
unfolding reference_ownership
classify_ownership-Follow tables provenance o numbered ends small =
    let same : reference_ownership tables provenance ≡ o =
      reference_of_ends tables provenance o numbered ends in
    subst
      (λ (o' : Ownership).
        length o'.evidence_kind < u32_mod
        → (length o'.evidence_start ≡ field_count tables.fields)
          × Follow 0 o'.evidence_start o'.evidence_count (length o'.evidence_kind))
      same
      (λ fits. (
        omega (
          arith,
          reference_from-length tables provenance (field_count tables.fields) 0 no_ownership,
        ),
        reference_from-Follow tables provenance (field_count tables.fields) 0 no_ownership fits
            refl,
      ))
      small
