-- ===== src/Tests/Analysis.antt =====
-- The call graph and the classes of the small program.
use zag.Prelude.{
  inr, ℕ, ◌≡◌, ◌↔◌, ◌<◌, Bool, refl, List, ◌∷◌, [], some, true, false, map, All, arith, u32_mod,
  get_elem?, get_or, length, replicate,
}
use zag.Facts.Handles.{FunctionId}
use zag.Facts.Access.{slice, function_count}
use zag.Analysis.Buckets.{bucket}
use zag.Analysis.Buckets.Laws.{grouped, starts, grouped-bucket}
use zag.Analysis.CallGraph.{build_call_graph, reachable_from, callees, mark_reachable, done}
use zag.Analysis.CallGraph.Build.{
  IsWellFormed, calls_of, build-callees, build-functions, build-IsWellFormed,
}
use zag.Analysis.CallGraph.Reach.{Marks, mark_reachable-Marks}
use zag.Analysis.CallGraph.Program.{Chain, reachable_from-Chain, fresh_stamps}
use zag.Analysis.Provenance.{
  AllocatorClass, Disagreement, unset, global, arena, conflicting, join, argument_flow,
  resolve_allocator_provenance,
}
use zag.Analysis.Provenance.Lattice.{Below, Under, join-Under_iff}
use zag.Analysis.Provenance.Converges.{resolve_converges}
use zag.Analysis.Provenance.Fixed.{IsFixed, resolve-IsFixed, resolve_least}
use zag.Analysis.Provenance.Blame.{Explained, Distinct, Blamed}
use zag.Analysis.Provenance.Blame.Resolve.{resolve-Explained, resolve-Blamed}
use zag.Facts.Tables.{Tables}
use zag.Analysis.Provenance.Conflicts.{resolve_conflicts}
use zag.Tests.Sample.{sample, sample-calls}

runs_graph : (build_call_graph sample).edge_target ≡ 2 ∷ 0 ∷ 1 ∷ 2 ∷ []
unfolding build_call_graph zag.Analysis.Buckets.place_rows zag.Analysis.CallGraph.call_edges
    zag.Analysis.Buckets.starts_from zag.Analysis.Buckets.count_keys
runs_graph = refl

runs_reachable :
    reachable_from (build_call_graph sample) 1 ≡ some (false ∷ true ∷ true ∷ false ∷ [])
unfolding reachable_from build_call_graph callees zag.Analysis.Buckets.starts_from
    zag.Analysis.Buckets.count_keys zag.Analysis.CallGraph.call_edges
    zag.Analysis.Buckets.place_rows
runs_reachable = refl

runs_classes :
    (resolve_allocator_provenance sample).parameter_class ≡ global ∷ global ∷ conflicting ∷ []
unfolding resolve_allocator_provenance zag.Analysis.Provenance.source_slot
runs_classes = refl

abbrev pairs : List (ℕ × ℕ)
pairs = (10, 2) ∷ (11, 0) ∷ (12, 2) ∷ []

pairs-keys : All (λ pair. pair.1 < 3) pairs
pairs-keys = ground arith

pairs-small : length pairs < u32_mod
pairs-small = omega arith

grouped-bucket_example :
    slice
      (grouped 3 pairs 0 pairs-keys pairs-small)
      (get_or (starts 3 pairs 0 pairs-keys pairs-small) 2 0)
      (get_or (starts 3 pairs 0 pairs-keys pairs-small) 3 0)
    ≡ bucket 2 pairs
grouped-bucket_example = grouped-bucket 3 pairs 0 pairs-keys pairs-small 2 (omega arith)

build-callees_example :
    (slice
        (build_call_graph sample).edge_target
        (callees (build_call_graph sample) 3).start
        (callees (build_call_graph sample) 3).end
      ≡ map (λ call. call.0) (calls_of sample sample-calls 3))
    × (slice
          (build_call_graph sample).edge_call
          (callees (build_call_graph sample) 3).start
          (callees (build_call_graph sample) 3).end
        ≡ map (λ call. call.1) (calls_of sample sample-calls 3))
build-callees_example = build-callees sample sample-calls 3 (omega arith)

build-IsWellFormed_example : IsWellFormed (build_call_graph sample) 3
build-IsWellFormed_example = build-IsWellFormed sample sample-calls 3

mark_reachable-Marks_example :
    (after : List ℕ) × (mark_reachable (build_call_graph sample) 1 1 (replicate 4 0) ≡ done after)
    × Marks (build_call_graph sample) 1 1 (replicate 4 0) after
mark_reachable-Marks_example =
    mark_reachable-Marks (build_call_graph sample) 1 1 (replicate 4 0)
      (build-IsWellFormed sample sample-calls) (omega (arith, build-functions sample sample-calls))
      (omega (arith, build-functions sample sample-calls)) (fresh_stamps 4)

reachable_from-Chain_example :
    (flags : List Bool) × (reachable_from (build_call_graph sample) 1 ≡ some flags)
    × (length flags ≡ function_count sample.functions)
    × ((v : FunctionId) → (get_elem? flags v ≡ some true) ↔ ∥ Chain sample 1 v ∥₁)
reachable_from-Chain_example = reachable_from-Chain sample sample-calls 1 (omega arith)

join-Under_iff_example :
    (Under (join global arena) conflicting ↔ (Under global conflicting × Under arena conflicting))
    × ((join global arena ≡ arena) ↔ Under global arena)
join-Under_iff_example = join-Under_iff global arena conflicting

resolve_converges_example : (resolve_allocator_provenance sample).converged ≡ true
resolve_converges_example = resolve_converges sample

resolve-IsFixed_example : IsFixed sample (resolve_allocator_provenance sample).parameter_class
resolve-IsFixed_example = resolve-IsFixed sample

resolve_least_example :
    Below
      (get_or (resolve_allocator_provenance sample).parameter_class 1 unset)
      (get_or (resolve_allocator_provenance sample).parameter_class 1 unset)
resolve_least_example =
    resolve_least sample (resolve_allocator_provenance sample).parameter_class
      (resolve-IsFixed sample) 1

resolve-Explained_example :
    All
      (Explained sample (resolve_allocator_provenance sample).parameter_class)
      (resolve_allocator_provenance sample).disagreements
    × Distinct (resolve_allocator_provenance sample).disagreements
resolve-Explained_example = resolve-Explained sample (omega arith) (omega arith)

resolve-Blamed_example :
    (get_or (resolve_allocator_provenance sample).parameter_class 2 unset ≡ conflicting)
    ↔ Blamed sample
        (resolve_allocator_provenance sample).parameter_class
        (resolve_allocator_provenance sample).disagreements
        2
resolve-Blamed_example = resolve-Blamed sample (omega arith) (omega arith) 2

-- The small program with its two calls of `release` handing on the global allocator and an arena.
abbrev mixed : Tables
mixed = record sample {
  call_arguments = record { call = 2 ∷ 3 ∷ []; parameter_index = 0 ∷ 0 ∷ []; source = 0 ∷ 2 ∷ [] };
}

first_flow : argument_flow mixed 0 ≡ some (2, 0)
unfolding argument_flow
first_flow = refl

second_flow : argument_flow mixed 1 ≡ some (2, 2)
unfolding argument_flow
second_flow = refl

resolve_conflicts_example :
    get_elem? (resolve_allocator_provenance mixed).parameter_class 2 ≡ some conflicting
resolve_conflicts_example =
    resolve_conflicts mixed 2 (inr ((0, 0, first_flow, refl), (1, 2, second_flow, refl)))
