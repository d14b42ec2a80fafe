-- ===== src/Analysis/CallGraph/Build.antt =====
-- The graph of crates/zag-analysis/src/call_graph.rs holds each function's calls, in order.
use zag.Prelude.{
  ℕ, suc, ◌+◌, ◌≤◌, ◌<◌, ◌≡◌, refl, ap, ◌∙◌, none, some, List, [], ◌∷◌, map, arith, length,
  length-map, get_or, get_elem?, replicate, u32_mod, All, ◌==◌, if◌then◌else◌, dec_lt,
  length-replicate, Bool-cases, inl, inr, as_u32-eq_of_lt,
}
use zag.Facts.Handles.{FunctionId, CallId, no_index}
use zag.Facts.Tables.{Tables}
use zag.Facts.Access.{function_count, call_count, slice}
use zag.Analysis.Buckets.{count_keys, starts_from, place_rows, bucket}
use zag.Analysis.Buckets.Laws.{grouped-bucket, starts-suc, starts-le, length-counts}
use zag.Analysis.Buckets.Place.{length-place_rows}
use zag.Analysis.Buckets.Starts.{length-starts_from}
use zag.Analysis.CallGraph.{
  CallGraph, Edge, edges_from, call_edges, edge_targets, build_call_graph, callees,
}

edges_from-keys :
    (functions : ℕ) (callers callees : List FunctionId) (row : ℕ)
    → All (λ edge. edge.1 < functions) (edges_from functions callers callees row)
unfolding edges_from
edges_from-keys functions [] callees row = tt
edges_from-keys functions (caller ∷ callers) callees row =
    ground (arith, edges_from-keys functions callers callees (row + 1))

length-edges_from :
    (functions : ℕ) (callers callees : List FunctionId) (row : ℕ)
    → length (edges_from functions callers callees row) ≤ length callers
unfolding edges_from
length-edges_from functions [] callees row = omega arith
length-edges_from functions (caller ∷ callers) callees row =
    ground (arith, length-edges_from functions callers callees (row + 1))

-- The counts of the edges are those of either column.
count_keys-map {ℓ κ} :
    {A : Type ℓ} {B : Type κ} (f : A → B) (pairs : List (A × ℕ)) (counts : List ℕ)
    → count_keys (map (λ pair. (f pair.0, pair.1)) pairs) counts ≡ count_keys pairs counts
unfolding count_keys
count_keys-map f [] counts = refl
count_keys-map f ((row, key) ∷ pairs) counts = count_keys-map f pairs _

All-map {ℓ κ} :
    {A : Type ℓ} {B : Type κ} (f : A → B) (n : ℕ) (pairs : List (A × ℕ))
    → All (λ pair. pair.1 < n) pairs
    → All (λ (pair : B × ℕ). pair.1 < n) (map (λ pair. (f pair.0, pair.1)) pairs)
All-map f n [] h = tt
All-map f n ((row, key) ∷ pairs) h = (h.0, All-map f n pairs h.1)

-- The edges of a function lie within the edges.
abbrev pub IsWellFormed : CallGraph → FunctionId → Type 0
IsWellFormed graph f =
    ((callees graph f).start ≤ (callees graph f).end)
    × ((callees graph f).end ≤ length graph.edge_target)

bucket-map {ℓ κ} :
    {A : Type ℓ} {B : Type κ} (f : A → B) (k : ℕ) (pairs : List (A × ℕ))
    → bucket k (map (λ pair. (f pair.0, pair.1)) pairs) ≡ map f (bucket k pairs)
bucket-map f k [] = refl
bucket-map f k ((row, key) ∷ pairs) = elim (Bool-cases (key == k)) [
  | inl same ↦ rw same (ap (λ rest. f row ∷ rest) (bucket-map f k pairs))
  | inr other ↦ rw other (bucket-map f k pairs)
]

-- The calls that a function makes, from a row of the call table on: each callee and the call's row.
abbrev pub calls_by :
    FunctionId → List FunctionId → List FunctionId → ℕ → List (FunctionId × CallId)
calls_by f [] callees row = []
calls_by f (caller ∷ callers) callees row =
    let rest = calls_by f callers callees (row + 1) in
    elim (get_elem? callees row) [
      | none ↦ rest
      | some callee ↦ if caller == f then (callee, row) ∷ rest else rest
    ]

bucket-edges_from :
    (functions f : ℕ) (callers callees : List FunctionId) (row : ℕ)
    → f < functions
    → row + length callers ≤ u32_mod
    → bucket f (edges_from functions callers callees row) ≡ calls_by f callers callees row
unfolding edges_from
bucket-edges_from functions f [] callees row inside fits = refl
bucket-edges_from functions f (caller ∷ callers) callees row inside fits = ground (
  arith,
  as_u32-eq_of_lt row (omega arith),
  bucket-edges_from functions f callers callees (row + 1) inside (omega arith),
)

module _ (tables : Tables) (fits : call_count tables.calls < u32_mod) where
  abbrev functions : ℕ
  functions = function_count tables.functions

  abbrev edges : List Edge
  edges = call_edges tables

  -- The calls that a function makes, by the call table.
  abbrev pub calls_of : FunctionId → List (FunctionId × CallId)
  calls_of f = calls_by f tables.calls.caller tables.calls.callee 0

  keys : All (λ edge. edge.1 < functions) edges
  unfolding call_edges
  keys = edges_from-keys functions tables.calls.caller tables.calls.callee 0

  small : length edges < u32_mod
  unfolding call_edges
  small = omega (arith, length-edges_from functions tables.calls.caller tables.calls.callee 0)

  bucket-edges : (f : FunctionId) → f < functions → bucket f edges ≡ calls_of f
  unfolding call_edges
  bucket-edges f inside =
      bucket-edges_from functions f tables.calls.caller tables.calls.callee 0 inside (omega arith)

  edge_start : List ℕ
  edge_start = starts_from 0 (count_keys edges (replicate functions 0))

  edge_start-lem : (build_call_graph tables).edge_start ≡ edge_start
  unfolding build_call_graph edge_start
  edge_start-lem = refl

  length-edge_start : length edge_start ≡ suc functions
  unfolding edge_start
  length-edge_start =
      let blank : FunctionId × CallId = (0, 0) in
      length-starts_from 0 _ ∙ ap suc (length-counts functions edges blank keys small)

  -- A column of the edges, grouped by caller.
  column :
      (g : FunctionId × CallId → ℕ) (f : FunctionId)
      → f < functions
      → slice
          (place_rows
            (map (λ edge. (g edge.0, edge.1)) edges)
            edge_start
            (replicate (length edges) no_index))
          (get_or edge_start f 0)
          (get_or edge_start (suc f) 0)
        ≡ map g (calls_of f)
  unfolding edge_start
  column g f inside =
      let pairs : List (ℕ × ℕ) = map (λ edge. (g edge.0, edge.1)) edges in
      let size : length pairs ≡ length edges = length-map _ edges in
      let by_bucket =
        grouped-bucket functions pairs no_index (All-map g functions edges keys)
          (omega (arith, small, size)) f inside in
      rw
        (
          count_keys-map g edges (replicate functions 0),
          size,
          bucket-map g f edges,
          bucket-edges f inside,
        )
        at by_bucket

  callees-lem :
      (f : FunctionId)
      → f < functions
      → callees (build_call_graph tables) f
        ≡ record { start = get_or edge_start f 0; end = get_or edge_start (suc f) 0 }
  unfolding callees
  callees-lem f inside = rw (edge_start-lem, callees) (ground (arith, length-edge_start))

  -- Where every call has a `u32` row: for a function of the program the two columns hold, between
  -- the bounds that `callees` gives, its calls in the order of the call table.
  pub build-callees :
      (f : FunctionId)
      → f < function_count tables.functions
      → (slice
            (build_call_graph tables).edge_target
            (callees (build_call_graph tables) f).start
            (callees (build_call_graph tables) f).end
          ≡ map (λ call. call.0) (calls_of f))
        × (slice
              (build_call_graph tables).edge_call
              (callees (build_call_graph tables) f).start
              (callees (build_call_graph tables) f).end
            ≡ map (λ call. call.1) (calls_of f))
  build-callees f inside = rw (callees-lem f inside) (
      unfold build_call_graph edge_start in
      (column (λ call. call.0) f inside, column (λ call. call.1) f inside))

  pub build-functions : length (build_call_graph tables).edge_start ≡ suc functions
  build-functions = rw edge_start-lem length-edge_start

  pub callees-beyond :
      (f : FunctionId)
      → functions ≤ f
      → callees (build_call_graph tables) f ≡ record { start = 0; end = 0 }
  unfolding callees
  callees-beyond f beyond = rw (edge_start-lem, callees) (ground (arith, length-edge_start))

  abbrev blank : FunctionId × CallId
  blank = (0, 0)

  -- Where every call has a `u32` row, no read of a function's edges runs past the edges, or
  -- backwards.
  pub build-IsWellFormed : (f : FunctionId) → IsWellFormed (build_call_graph tables) f
  build-IsWellFormed f = elim (dec_lt f functions) [
    | yes inside ↦ rw (callees-lem f inside) (
        unfold build_call_graph edge_start in
        omega (
          arith,
          starts-suc functions edges blank keys small f inside,
          starts-le functions edges blank keys small (suc f) inside,
          length-place_rows (edge_targets edges) edge_start (replicate (length edges) no_index),
          length-replicate (length edges) no_index,
        ))
    | no beyond ↦ rw (callees-beyond f (omega arith)) (omega arith)
  ]
