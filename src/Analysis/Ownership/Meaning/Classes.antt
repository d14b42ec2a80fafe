-- ===== src/Analysis/Ownership/Meaning/Classes.antt =====
-- The classes that crates/zag-analysis/src/ownership.rs gives to the fields, one after the other.
use zag.Prelude.{
  ◌<◌, ℕ, zero, suc, ◌+◌, ◌≡◌, ◌⊎◌, inl, inr, refl, ap, ◌∙◌, Bool, true, false, some, List, [], ◌∷◌,
  ◌++◌, arith, length, get_elem?, length-append, as_u32, if◌then◌else◌, Option-cases,
}
use zag.Facts.Handles.{StructId, FieldId, TypeId, no_index}
use zag.Facts.Kinds.{MemoryOperationKind}
use zag.Facts.Tables.{Tables}
use zag.Facts.Access.{field_count}
use zag.Analysis.CallGraph.{build_call_graph}
use zag.Analysis.Provenance.{Provenance}
use zag.Analysis.Ownership.{
  Ownership, OwnershipClass, owned, FreeFacts, AssignmentFacts, push_evidence,
  alignment_cannot_be_carried,
}
use zag.Analysis.Ownership.Evidence.{
  gather_resizes, conclude_assignments, over_aligned, no_frees, no_assignments,
}
use zag.Analysis.Ownership.Classify.{push_ownership, no_ownership, classify_ownership}
use zag.Analysis.Ownership.Reference.{
  operations_on, assignments_of, reference_frees, reference_branch, reference_field, reference_from,
  reference_ownership, reference_assignments,
}
use zag.Analysis.Ownership.Meaning.Lookups.{assigned_allocator-found}
use zag.Analysis.Ownership.Refines.{IsNumbered, reference_of_ends}
use zag.Analysis.Ownership.Meaning.Owned.{IsOwned, reference_field-IsOwned}

reference_frees-class :
    (tables : Tables) (owner : StructId) (rows : List ℕ) (facts : FreeFacts) (o : Ownership)
    → (reference_frees tables owner rows (facts, o)).1.class ≡ o.class
unfolding reference_frees push_evidence
reference_frees-class tables owner [] facts o = refl
reference_frees-class tables owner (row ∷ rows) facts o =
    reference_frees-class tables owner rows _ _

gather_resizes-class :
    (tables : Tables) (rows : List ℕ) (resized : Bool) (o : Ownership)
    → (gather_resizes tables rows (resized, o)).1.class ≡ o.class
unfolding gather_resizes
gather_resizes-class tables [] resized o = refl
gather_resizes-class tables (row ∷ rows) resized o = gather_resizes-class tables rows true _

reference_assignments-class :
    (tables : Tables) (provenance : Provenance) (rows : List ℕ) (facts : AssignmentFacts)
    (o : Ownership)
    → (reference_assignments tables provenance rows (facts, o)).1.class ≡ o.class
unfolding reference_assignments
reference_assignments-class tables provenance [] facts o = refl
reference_assignments-class tables provenance (row ∷ rows) facts o =
    elim (Option-cases (get_elem? tables.field_assignments.source row)) [
      | inl absent ↦
          rw (absent, reference_assignments)
            (reference_assignments-class tables provenance rows facts o)
      | inr (source, e) ↦
          rw (e, reference_assignments) (reference_assignments-class tables provenance rows _ _)
    ]

conclude_assignments-class :
    (s : AssignmentFacts × Ownership) → (conclude_assignments s).1.class ≡ s.1.class
unfolding conclude_assignments
conclude_assignments-class (facts, o) = ground arith

aligned-class :
    (aligned : Bool) (o : Ownership)
    → (if aligned then push_evidence alignment_cannot_be_carried no_index o else o).class ≡ o.class
unfolding push_evidence
aligned-class aligned o = ground arith

reference_branch-class :
    (tables : Tables) (provenance : Provenance) (field : FieldId) (kind : TypeId) (o : Ownership)
    → (reference_branch tables provenance field kind o).0.class ≡ o.class
unfolding reference_branch
reference_branch-class tables provenance field kind o =
    conclude_assignments-class _
    ∙ reference_assignments-class tables provenance (assignments_of tables field) no_assignments _
    ∙ gather_resizes-class tables (operations_on tables MemoryOperationKind.resize field) false _
    ∙ reference_frees-class tables _ (operations_on tables MemoryOperationKind.free field) no_frees
        _
    ∙ aligned-class (over_aligned tables kind) o

reference_field-class :
    (tables : Tables) (provenance : Provenance) (field : FieldId) (o : Ownership)
    → (reference_field tables provenance field o).0.class ≡ o.class
unfolding reference_field
reference_field-class tables provenance field o =
    elim (Option-cases (get_elem? tables.fields.field_type field)) [
      | inl absent ↦ rw (absent, reference_field) refl
      | inr (kind, e) ↦
          rw (e, reference_field)
            (ground (arith, reference_branch-class tables provenance field kind o))
    ]

get_elem?-snoc :
    (xs : List OwnershipClass) (x y : OwnershipClass) (i : ℕ)
    → get_elem? (xs ++ x ∷ []) i ≡ some y
    → (get_elem? xs i ≡ some y) ⊎ ((i ≡ length xs) × (x ≡ y))
get_elem?-snoc [] x y zero h = inr (refl, cc)
get_elem?-snoc [] x y (suc i) h = absurd (cc)
get_elem?-snoc (z ∷ xs) x y zero h = inl h
get_elem?-snoc (z ∷ xs) x y (suc i) h = elim (get_elem?-snoc xs x y i h) [
  | inl found ↦ inl found
  | inr (e, same) ↦ inr (ap suc e, same)
]

-- A class that the loop gives was there before, or is the decision about its field.
reference_from-class :
    (tables : Tables) (provenance : Provenance) (fields : ℕ) (field : FieldId) (o : Ownership)
    (f : FieldId) (c : OwnershipClass)
    → length o.class ≡ field
    → get_elem? (reference_from tables provenance fields field o).class f ≡ some c
    → (get_elem? o.class f ≡ some c)
      ⊎ ((f < field + fields)
          × (o' : Ownership) × ((reference_field tables provenance f o').1.0 ≡ c))
unfolding reference_from push_ownership
reference_from-class tables provenance zero field o f c size h = inl h
reference_from-class tables provenance (suc fields) field o f c size h =
    let decided = reference_field tables provenance field o in
    let kept = reference_field-class tables provenance field o in
    let pushed = push_ownership (as_u32 (length o.evidence_kind)) decided.1 decided.0 in
    let longer : length pushed.class ≡ field + 1 =
      omega (arith, length-append decided.0.class (decided.1.0 ∷ []), ap length kept) in
    elim (reference_from-class tables provenance fields (field + 1) pushed f c longer h) [
      | inr (below, o', later) ↦ inr (omega arith, o', later)
      | inl early ↦ elim (get_elem?-snoc decided.0.class decided.1.0 c f early) [
        | inl old ↦ inl (rw kept at old)
        | inr (at, same) ↦
            let here : f ≡ field = at ∙ ap length kept ∙ size in inr (omega arith, o, rw here same)
      ]
    ]

reference_ownership-class :
    (tables : Tables) (provenance : Provenance) (f : FieldId) (c : OwnershipClass)
    → get_elem? (reference_ownership tables provenance).class f ≡ some c
    → (f < field_count tables.fields)
      × (o' : Ownership) × ((reference_field tables provenance f o').1.0 ≡ c)
unfolding reference_ownership
reference_ownership-class tables provenance f c h =
    elim (reference_from-class tables provenance (field_count tables.fields) 0 no_ownership f c refl
      h) [ inl early ↦ absurd (cc early) | inr (below, o', decided) ↦ (omega arith, o', decided) ]

-- Where rows and generations are `u32`, a field that the pass decides to be owned refers to memory
-- that it can hold, something frees it, nothing resizes it, and every assignment to it with a known
-- source is an allocation whose allocator's class the pass finds, and it is the global one, or one
-- that no call supplies.
pub classify_ownership-IsOwned :
    (tables : Tables) (provenance : Provenance) (o : Ownership) (field : FieldId)
    → IsNumbered tables
    → classify_ownership tables (build_call_graph tables) provenance ≡ some o
    → get_elem? o.class field ≡ some owned
    → IsOwned tables provenance field
classify_ownership-IsOwned tables provenance o field numbered ends class =
    let same : reference_ownership tables provenance ≡ o =
      reference_of_ends tables provenance o numbered ends in
    let found : get_elem? (reference_ownership tables provenance).class field ≡ some owned =
      ap (λ (o' : Ownership). get_elem? o'.class field) same ∙ class in
    let (inside, o', e) = reference_ownership-class tables provenance field owned found in
    reference_field-IsOwned tables provenance field o'
      (λ kind. assigned_allocator-found tables provenance numbered field inside o kind ends) e
