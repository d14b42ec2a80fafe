-- ===== src/Analysis/CallGraph.antt =====
-- crates/zag-analysis/src/call_graph.rs: the call table as compressed sparse rows, and the walk
-- that stamps what a function reaches.
pub mod Build
pub mod Scan
pub mod Reach
pub mod Program
use zag.Prelude.{
  ℕ, zero, suc, ◌+◌, ◌-◌, Bool, true, false, not, ◌&&◌, ◌||◌, Option, none, some, List, [], ◌∷◌,
  map, ltb, leb, ◌==◌, if◌then◌else◌, length, get_elem?, get_or, set, replicate, as_u32,
}
use zag.Facts.Handles.{FunctionId, CallId, no_index}
use zag.Facts.Tables.{Tables}
use zag.Facts.Access.{function_count}
use zag.Facts.Ranges.{Range}
use zag.Analysis.Buckets.{count_keys, starts_from, place_rows}

pub record CallGraph : Type 0 where
  pub edge_start : List ℕ
  pub edge_target : List FunctionId
  pub edge_call : List CallId

-- The callee and the call of an edge, and its caller.
abbrev pub Edge : Type 0
Edge = (FunctionId × CallId) × ℕ

-- The calls from a row on whose caller is a function and whose callee is recorded.
unfoldable pub edges_from : ℕ → List FunctionId → List FunctionId → ℕ → List Edge
unfolding as_u32
edges_from functions [] callees row = []
edges_from functions (caller ∷ callers) callees row =
    let rest = edges_from functions callers callees (row + 1) in
    elim (get_elem? callees row) [
      | none ↦ rest
      | some callee ↦ if ltb caller functions then ((callee, as_u32 row), caller) ∷ rest else rest
    ]

unfoldable pub call_edges : Tables → List Edge
unfolding edges_from
call_edges tables =
    edges_from (function_count tables.functions) tables.calls.caller tables.calls.callee 0

abbrev pub edge_targets : List Edge → List (FunctionId × ℕ)
edge_targets = map (λ edge. (edge.0.0, edge.1))

abbrev pub edge_calls : List Edge → List (CallId × ℕ)
edge_calls = map (λ edge. (edge.0.1, edge.1))

-- The last loop writes the target and the call of an edge at one cursor, which only the callers
-- move: it is one placement for each of the two columns.
unfoldable pub build_call_graph : Tables → CallGraph
build_call_graph tables =
    let functions = function_count tables.functions in
    let edges = call_edges tables in
    let edge_start = starts_from 0 (count_keys edges (replicate functions 0)) in
    record {
      edge_start = edge_start;
      edge_target = place_rows (edge_targets edges) edge_start (replicate (length edges) no_index);
      edge_call = place_rows (edge_calls edges) edge_start (replicate (length edges) no_index);
    }

unfoldable pub callees : CallGraph → FunctionId → Range
callees graph caller =
    if leb (length graph.edge_start) (caller + 1) then record { start = 0; end = 0 } else record {
      start = get_or graph.edge_start caller 0;
      end = get_or graph.edge_start (caller + 1) 0;
    }

-- The stamps, and the stack of functions still to be expanded, its top first.
pub record Search : Type 0 where
  pub stamp : List ℕ
  pub pending : List FunctionId

-- The walk's end: the stamps, a read past the edges, which panics, or fuel that ran out.
pub data Walk : Type 0 where
  done : List ℕ → Walk
  out_of_bounds out_of_fuel : Walk

-- The body of the loop over the edges.
unfoldable pub offer : ℕ → ℕ → FunctionId → Search → Search
offer functions generation target s =
    if ltb target functions
      && ltb target (length s.stamp)
      && not (get_or s.stamp target 0 == generation)
    then record { stamp = set s.stamp target generation; pending = target ∷ s.pending }
    else s

module _ (graph : CallGraph) (generation : ℕ) where
  -- `graph.edge_start.len().saturating_sub(1)`.
  abbrev pub graph_functions : ℕ
  graph_functions = length graph.edge_start - 1

  -- The loop over the edges, from one on, over the edges left; `none` is the panic.
  unfoldable pub scan_edges : ℕ → ℕ → Search → Option Search
  unfolding offer
  scan_edges zero edge s = some s
  scan_edges (suc edges) edge s = elim (get_elem? graph.edge_target edge) [
    | none ↦ none
    | some target ↦ scan_edges edges (edge + 1) (offer graph_functions generation target s)
  ]

  -- One round of the `while` loop, for a function that has left the stack.
  unfoldable pub expand : FunctionId → Search → Option Search
  unfolding scan_edges callees
  expand current s =
      let range = callees graph current in scan_edges (range.end - range.start) range.start s

  unfoldable pub mark_loop : ℕ → Search → Walk
  unfolding expand
  mark_loop zero s = elim s.pending [ [] ↦ done s.stamp | _ ∷ _ ↦ out_of_fuel ]
  mark_loop (suc fuel) s = elim s.pending [
    | [] ↦ done s.stamp
    | current ∷ rest ↦ elim (expand current (record s { pending = rest })) [
      | none ↦ out_of_bounds
      | some s' ↦ mark_loop fuel s'
    ]
  ]

  -- Each function is pushed once at most, so one round for each stamp and one for the root do.
  unfoldable pub mark_reachable : FunctionId → List ℕ → Walk
  unfolding mark_loop
  mark_reachable root stamp =
      if leb graph_functions root || leb (length stamp) root
      then done stamp
      else mark_loop (suc (length stamp))
          (record { stamp = set stamp root generation; pending = root ∷ [] })

-- What is stamped by a walk over a fresh buffer; `none` where the walk has no end.
unfoldable pub reachable_from : CallGraph → FunctionId → Option (List Bool)
unfolding mark_reachable
reachable_from graph root =
    elim (mark_reachable graph 1 root (replicate (length graph.edge_start - 1) 0)) [
      | done stamp ↦ some (map (λ value. value == 1) stamp)
      | out_of_bounds ↦ none
      | out_of_fuel ↦ none
    ]
