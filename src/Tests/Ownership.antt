-- ===== src/Tests/Ownership.antt =====
-- The classification of the fields of the small program.
use zag.Prelude.{
  [], none, Follow, ◌≡◌, ◌⊎◌, ◌↔◌, ◌≢◌, ◌+◌, ◌≤◌, refl, some, true, false, arith, length, ◌<◌,
  u32_mod, get_elem?,
}
use zag.Facts.Kinds.{MemoryOperationKind}
use zag.Analysis.CallGraph.{build_call_graph}
use zag.Analysis.Provenance.{AllocatorClass, classify_source, resolve_allocator_provenance}
use zag.Analysis.Provenance.Converges.{length-resolve}
use zag.Analysis.Ownership.{
  OwnershipClass, owned, grown, arena, static, borrowed, value, high, FreeFacts, AssignmentFacts,
  decide,
}
use zag.Analysis.Ownership.Index.{build_field_index, rows_at, operated_field, assigned_field}
use zag.Analysis.Ownership.Index.Laws.{rows_with, build_field_index-rows}
use zag.Analysis.Ownership.Evidence.{DeinitClosure, closure_holds}
use zag.Analysis.Ownership.Evidence.Closure.{
  IsClosure, in_deinit_closure, closure_holds-in_deinit_closure,
}
use zag.Analysis.Ownership.Classify.{classify_ownership, first_closure, analyze}
use zag.Analysis.Ownership.Reference.{reference_ownership}
use zag.Analysis.Ownership.Refines.{
  IsNumbered, first-Good, classify_ownership-reference, analyze_ends,
}
use zag.Analysis.Ownership.Meaning.{IsAllocationOnly, decide_owned, decide_others, decide_high}
use zag.Analysis.Ownership.Meaning.Owned.{IsOwned}
use zag.Analysis.Ownership.Meaning.Classes.{classify_ownership-IsOwned}
use zag.Analysis.Ownership.Meaning.Ranges.{classify_ownership-Follow}
use zag.Tests.Sample.{sample}

sample-IsNumbered : IsNumbered sample
sample-IsNumbered = record {
  calls = omega arith;
  operations = omega arith;
  assignments = omega arith;
  fields = omega arith;
}

runs_owned :
    get_elem? (reference_ownership sample (resolve_allocator_provenance sample)).class 0
    ≡ some owned
unfolding reference_ownership zag.Analysis.Ownership.Reference.reference_from
    zag.Analysis.Ownership.Classify.push_ownership zag.Analysis.Ownership.Reference.reference_field
    zag.Facts.Ranges.is_reference_type zag.Analysis.Ownership.Reference.reference_branch
    zag.Analysis.Ownership.Evidence.conclude_assignments
    zag.Analysis.Ownership.Reference.reference_assignments assigned_field
    zag.Analysis.Ownership.Evidence.gather_resizes operated_field
    zag.Analysis.Ownership.Reference.reference_frees zag.Analysis.Ownership.Evidence.over_aligned
    decide zag.Analysis.Provenance.source_slot resolve_allocator_provenance
runs_owned = refl

few_evidence :
    length (reference_ownership sample (resolve_allocator_provenance sample)).evidence_kind
    < u32_mod
unfolding reference_ownership zag.Analysis.Ownership.Reference.reference_from
    zag.Analysis.Ownership.Classify.push_ownership zag.Analysis.Ownership.Reference.reference_field
    zag.Facts.Ranges.is_reference_type zag.Analysis.Ownership.Reference.reference_branch
    zag.Analysis.Ownership.Evidence.conclude_assignments
    zag.Analysis.Ownership.Reference.reference_assignments assigned_field
    zag.Analysis.Ownership.Evidence.gather_resizes operated_field
    zag.Analysis.Ownership.Reference.reference_frees zag.Analysis.Ownership.Evidence.over_aligned
    decide zag.Analysis.Provenance.source_slot resolve_allocator_provenance
few_evidence = omega arith

-- The pass on the sample, which ends.
sample_ends :
    classify_ownership sample (build_call_graph sample) (resolve_allocator_provenance sample)
    ≡ some (reference_ownership sample (resolve_allocator_provenance sample))
sample_ends =
    classify_ownership-reference sample (resolve_allocator_provenance sample) sample-IsNumbered
      (omega (arith, length-resolve sample))

classify_ownership-Follow_example :
    (length (reference_ownership sample (resolve_allocator_provenance sample)).evidence_start ≡ 2)
    × Follow 0
        (reference_ownership sample (resolve_allocator_provenance sample)).evidence_start
        (reference_ownership sample (resolve_allocator_provenance sample)).evidence_count
        (length (reference_ownership sample (resolve_allocator_provenance sample)).evidence_kind)
classify_ownership-Follow_example =
    classify_ownership-Follow sample (resolve_allocator_provenance sample)
      (reference_ownership sample (resolve_allocator_provenance sample)) sample-IsNumbered
      sample_ends few_evidence

classify_ownership-reference_example :
    classify_ownership sample (build_call_graph sample) (resolve_allocator_provenance sample)
    ≡ some (reference_ownership sample (resolve_allocator_provenance sample))
classify_ownership-reference_example =
    classify_ownership-reference sample (resolve_allocator_provenance sample) sample-IsNumbered
      (omega (arith, length-resolve sample))

-- On the classes of no parameters, the lookup of a source that is a parameter panics.
no_classes :
    classify_source sample (record { parameter_class = []; disagreements = []; converged = true }) 3
    ≡ none
unfolding classify_source
no_classes = refl

classify_ownership-IsOwned_example : IsOwned sample (resolve_allocator_provenance sample) 0
classify_ownership-IsOwned_example =
    classify_ownership-IsOwned sample (resolve_allocator_provenance sample)
      (reference_ownership sample (resolve_allocator_provenance sample)) 0 sample-IsNumbered
      sample_ends runs_owned

analyze_ends_example :
    analyze sample
    ≡ some (record {
      graph = build_call_graph sample;
      provenance = resolve_allocator_provenance sample;
      ownership = reference_ownership sample (resolve_allocator_provenance sample);
    })
analyze_ends_example = analyze_ends sample sample-IsNumbered

closure_holds-in_deinit_closure_example :
    (c : DeinitClosure) × (closure_holds sample (build_call_graph sample) (first_closure sample) 0 2
      ≡ some (c, in_deinit_closure sample 0 2))
    × IsClosure sample sample-IsNumbered.calls c
    × (c.owner ≡ some 0)
    × (c.generation ≤ (first_closure sample).generation + 1)
closure_holds-in_deinit_closure_example =
    closure_holds-in_deinit_closure sample sample-IsNumbered.calls (first_closure sample) 0 2
      (first-Good sample sample-IsNumbered) (omega arith)

build_field_index-rows_example :
    (rows_at (build_field_index sample).free_start (build_field_index sample).free_rows 0
      ≡ rows_with (operated_field sample MemoryOperationKind.free) 0 2 0)
    × (rows_at (build_field_index sample).resize_start (build_field_index sample).resize_rows 0
        ≡ rows_with (operated_field sample MemoryOperationKind.resize) 0 2 0)
    × (rows_at
          (build_field_index sample).assignment_start
          (build_field_index sample).assignment_rows
          0
        ≡ rows_with (assigned_field sample) 0 1 0)
build_field_index-rows_example =
    build_field_index-rows sample 0 (omega arith) (omega arith) (omega arith)

-- A free in the closure, and allocations of the global allocator only.
abbrev freed_inside : FreeFacts
freed_inside = record { freed = true; freed_in_deinit_closure = true }

abbrev all_global : AssignmentFacts
all_global = record {
  has_allocation = true;
  has_parameter = false;
  has_literal = false;
  has_unknown = false;
  allocator = AllocatorClass.global;
}

decide_owned_example :
    (((decide freed_inside all_global false).0 ≡ owned) ↔ (
      (freed_inside.freed ≡ true)
      × IsAllocationOnly all_global
      × (all_global.allocator ≡ AllocatorClass.global)
      × (false ≡ false)))
    × (((decide freed_inside all_global false).0 ≡ grown) ↔ (
        (freed_inside.freed ≡ true)
        × IsAllocationOnly all_global
        × (all_global.allocator ≡ AllocatorClass.global)
        × (false ≡ true)))
decide_owned_example = decide_owned freed_inside all_global false

decide_others_example :
    (((decide freed_inside all_global true).0 ≡ arena)
      ↔ ((true ≡ true) × (AllocatorClass.global ≡ AllocatorClass.arena) × (true ≡ false)))
    × (((decide freed_inside all_global true).0 ≡ static)
        ↔ ((true ≡ false) × (true ≡ false) × (false ≡ false) × (false ≡ true) × (false ≡ false)))
    × (((decide freed_inside all_global true).0 ≡ borrowed)
        ↔ ((true ≡ false) × (true ≡ false) × (false ≡ true) × (false ≡ false) × (false ≡ false)))
    × ((decide freed_inside all_global true).0 ≢ value)
decide_others_example = decide_others freed_inside all_global true

decide_high_example : ((decide freed_inside all_global false).1 ≡ high) ↔ (
    ((decide freed_inside all_global false).0 ≡ arena)
      × IsAllocationOnly all_global
      × (freed_inside.freed ≡ false)
    ⊎ (((decide freed_inside all_global false).0 ≡ owned)
        ⊎ ((decide freed_inside all_global false).0 ≡ grown))
      × (freed_inside.freed_in_deinit_closure ≡ true)
    ⊎ ((decide freed_inside all_global false).0 ≡ static))
decide_high_example = decide_high freed_inside all_global false
