-- ===== src/Analysis/Ownership/Classify.antt =====
-- The pass of crates/zag-analysis/src/ownership.rs over every field, and the analysis of
-- crates/zag-analysis/src/lib.rs. `none` is a walk of the call graph that has no end, or a panic.
use zag.Prelude.{
  ℕ, zero, suc, ◌+◌, Option, none, some, [], ◌∷◌, ◌++◌, leb, if◌then◌else◌, ◌>>=◌, length,
  get_elem?, get_or, replicate, as_u32, u32_sub,
}
use zag.Facts.Handles.{FieldId, TypeId, no_index}
use zag.Facts.Tables.{Tables}
use zag.Facts.Access.{field_count, function_count}
use zag.Facts.Ranges.{Range, is_reference_type}
use zag.Analysis.CallGraph.{CallGraph, build_call_graph}
use zag.Analysis.Provenance.{Provenance, resolve_allocator_provenance}
use zag.Analysis.Ownership.{
  Ownership, OwnershipClass, Confidence, value, unknown, high, low, alignment_cannot_be_carried,
  push_evidence, decide,
}
use zag.Analysis.Ownership.Index.{FieldIndex, build_field_index}
use zag.Analysis.Ownership.Evidence.{
  DeinitClosure, over_aligned, gather_free_facts, gather_resize_facts, gather_assignment_facts,
}

-- What one field is decided to be, with the closure and the evidence after it.
abbrev pub Decided : Type 0
Decided = DeinitClosure × Ownership × (OwnershipClass × Confidence)

-- The branch for a field that refers to memory somewhere else.
unfoldable pub classify_reference :
    Tables
    → CallGraph
    → Provenance
    → FieldIndex
    → FieldId
    → TypeId
    → DeinitClosure × Ownership
    → Option Decided
classify_reference tables graph provenance index field kind (closure, o) = do
  let aligned = over_aligned tables kind
  let o₁ = if aligned then push_evidence alignment_cannot_be_carried no_index o else o
  (closure', free, o₂) ← gather_free_facts tables graph index field (closure, o₁)
  let (resized, o₃) = gather_resize_facts tables index field o₂
  (assignment, o₄) ← gather_assignment_facts tables provenance index field o₃
  some (closure', o₄, (if aligned then (unknown, low) else decide free assignment resized))

-- The field of a row; its handle is the row as a `u32`.
unfoldable pub classify_field :
    Tables → CallGraph → Provenance → FieldIndex → ℕ → DeinitClosure × Ownership → Option Decided
classify_field tables graph provenance index row (closure, o) =
    elim (get_elem? tables.fields.field_type row) [
      | none ↦ some (closure, o, (unknown, low))
      | some kind ↦
          let reference =
            classify_reference tables graph provenance index (as_u32 row) kind (closure, o) in
          if is_reference_type tables.types kind
          then reference
          else some (closure, o, (value, high))
    ]

-- The pushes at the end of a round, for the evidence that stood at `start` before it.
unfoldable pub push_ownership : ℕ → OwnershipClass × Confidence → Ownership → Ownership
unfolding as_u32 u32_sub
push_ownership start (class, confidence) o = record o {
  class = o.class ++ class ∷ [];
  confidence = o.confidence ++ confidence ∷ [];
  evidence_start = o.evidence_start ++ start ∷ [];
  evidence_count = o.evidence_count ++ u32_sub (as_u32 (length o.evidence_kind)) start ∷ [];
}

-- The loop over the fields, from a row on, over the rows left.
unfoldable pub classify_from :
    Tables
    → CallGraph
    → Provenance
    → FieldIndex
    → ℕ
    → ℕ
    → DeinitClosure × Ownership
    → Option (DeinitClosure × Ownership)
classify_from tables graph provenance index zero row s = some s
classify_from tables graph provenance index (suc rows) row (closure, o) = do
  let start = as_u32 (length o.evidence_kind)
  (closure', o', decision) ← classify_field tables graph provenance index row (closure, o)
  classify_from tables graph provenance index rows (row + 1)
      (closure', push_ownership start decision o')

abbrev pub no_ownership : Ownership
no_ownership = record {
  class = [];
  confidence = [];
  evidence_start = [];
  evidence_count = [];
  evidence_kind = [];
  evidence_function = [];
}

abbrev pub first_closure : Tables → DeinitClosure
first_closure tables = record {
  owner = none;
  stamp = replicate (function_count tables.functions) 0;
  generation = 0;
}

unfoldable pub classify_ownership : Tables → CallGraph → Provenance → Option Ownership
classify_ownership tables graph provenance = do
  (closure, o) ←
      classify_from tables graph provenance (build_field_index tables) (field_count tables.fields) 0
        (first_closure tables, no_ownership)
  some o

-- The evidence of a field; past the last field there is none.
unfoldable pub field_evidence : Ownership → FieldId → Range
field_evidence o field =
    if leb (length o.evidence_start) field
    then record { start = 0; end = 0 }
    else (let start = get_or o.evidence_start field 0 in
        record { start = start; end = start + get_or o.evidence_count field 0 })

pub record Analysis : Type 0 where
  pub graph : CallGraph
  pub provenance : Provenance
  pub ownership : Ownership

unfoldable pub analyze : Tables → Option Analysis
analyze tables = do
  let graph = build_call_graph tables
  let provenance = resolve_allocator_provenance tables
  ownership ← classify_ownership tables graph provenance
  some (record { graph = graph; provenance = provenance; ownership = ownership })
