-- ===== src/Analysis/CallGraph/Program.antt =====
-- The passes of crates/zag-analysis/src/call_graph.rs together: `reachable_from` on the graph of a
-- program's call table answers by the calls of the table.
use zag.Prelude.{
  ℕ, zero, suc, ◌+◌, ◌-◌, ◌<◌, ◌≡◌, ◌⊎◌, ◌↔◌, inl, inr, sym, ap, ◌∙◌, Bool, true, false, none, some,
  List, [], ◌∷◌, map, arith, length, length-map, get_elem?, ◌==◌, replicate, length-replicate,
  u32_mod, dec_lt, Option-cases, Bool-cases,
}
use mathlib.Core.Logic.{∥∥₁_map}
use mathlib.Core.Path.{subst}
use zag.Facts.Handles.{FunctionId}
use zag.Facts.Tables.{Tables}
use zag.Facts.Access.{function_count, call_count, slice}
use zag.Analysis.CallGraph.{CallGraph, build_call_graph, reachable_from}
use zag.Analysis.CallGraph.Build.{
  calls_by, build-callees, build-IsWellFormed, build-functions, callees-beyond,
}
use zag.Analysis.CallGraph.Scan.{Has, Stamped}
use zag.Analysis.CallGraph.Reach.{HasEdge, Reaches, here, call, mark_reachable-Marks}

-- A row of the call table, from a row on, that has the caller and the callee.
abbrev pub Row : List FunctionId → List FunctionId → ℕ → FunctionId → FunctionId → Type 0
Row callers callees base u v =
    (row : ℕ) × (get_elem? callers row ≡ some u) × (get_elem? callees (base + row) ≡ some v)

Row-later :
    (caller : FunctionId) (callers callees : List FunctionId) (base : ℕ) (u v : FunctionId)
    → Row callers callees (base + 1) u v
    → Row (caller ∷ callers) callees base u v
Row-later caller callers callees base u v (row, p, q) =
    let there : base + 1 + row ≡ base + suc row = omega arith in
    (suc row, p, subst (λ i. get_elem? callees i ≡ some v) there q)

Row-first :
    (caller : FunctionId) (callers callees : List FunctionId) (base : ℕ) (u v callee : FunctionId)
    → get_elem? callees base ≡ some callee
    → (caller == u) ≡ true
    → callee ≡ v
    → Row (caller ∷ callers) callees base u v
Row-first caller callers callees base u v callee e same h =
    let here : base ≡ base + 0 = omega arith in
    let caller_u : caller ≡ u = ground arith in
    (0, ap some caller_u, subst (λ i. get_elem? callees i ≡ some v) here (e ∙ ap some h))

-- What one row adds to the calls of a function.
calls_by-absent :
    (u caller : FunctionId) (callers callees : List FunctionId) (base : ℕ)
    → get_elem? callees base ≡ none
    → calls_by u (caller ∷ callers) callees base ≡ calls_by u callers callees (base + 1)
calls_by-absent u caller callers callees base e = ground arith

calls_by-other :
    (u caller callee : FunctionId) (callers callees : List FunctionId) (base : ℕ)
    → get_elem? callees base ≡ some callee
    → (caller == u) ≡ false
    → calls_by u (caller ∷ callers) callees base ≡ calls_by u callers callees (base + 1)
calls_by-other u caller callee callers callees base e other = ground arith

calls_by-same :
    (u caller callee : FunctionId) (callers callees : List FunctionId) (base : ℕ)
    → get_elem? callees base ≡ some callee
    → (caller == u) ≡ true
    → calls_by u (caller ∷ callers) callees base
      ≡ (callee, base) ∷ calls_by u callers callees (base + 1)
calls_by-same u caller callee callers callees base e same = ground arith

Has-calls_by :
    (u v : FunctionId) (callers callees : List FunctionId) (base : ℕ)
    → Has v (map (λ call. call.0) (calls_by u callers callees base))
    → Row callers callees base u v
Has-calls_by u v [] callees base h = absurd h
Has-calls_by u v (caller ∷ callers) callees base h =
    let later = λ (rest : Has v (map (λ call. call.0) (calls_by u callers callees (base + 1)))).
      Row-later caller callers callees base u v
        (Has-calls_by u v callers callees (base + 1) rest) in
    elim (Option-cases (get_elem? callees base)) [
      | inl absent ↦ later (rw (calls_by-absent u caller callers callees base absent) at h)
      | inr (callee, e) ↦ elim (Bool-cases (caller == u)) [
        | inr other ↦ later (rw (calls_by-other u caller callee callers callees base e other) at h)
        | inl same ↦ elim (in_row callee e same) [
          | inl found ↦ Row-first caller callers callees base u v callee e same found
          | inr rest ↦ later rest
        ]
      ]
    ]
  where
    in_row :
        (callee : FunctionId)
        → get_elem? callees base ≡ some callee
        → (caller == u) ≡ true
        → (callee ≡ v) ⊎ Has v (map (λ call. call.0) (calls_by u callers callees (base + 1)))
    in_row callee e same = rw (calls_by-same u caller callee callers callees base e same) at h

calls_by-Has :
    (u v : FunctionId) (callers callees : List FunctionId) (base row : ℕ)
    → get_elem? callers row ≡ some u
    → get_elem? callees (base + row) ≡ some v
    → Has v (map (λ call. call.0) (calls_by u callers callees base))
calls_by-Has u v [] callees base row h k = cc
calls_by-Has u v (caller ∷ callers) callees base zero h k =
    let here : base + 0 ≡ base = omega arith in ground (arith, ap (get_elem? callees) here)
calls_by-Has u v (caller ∷ callers) callees base (suc row) h k =
    let there : base + suc row ≡ base + 1 + row = omega arith in
    ground (arith, ap (get_elem? callees) there, calls_by-Has u v callers callees (base + 1) row h)

-- The chains of calls of a program, by its call table.
pub data Chain (tables : Tables) (root : FunctionId) : FunctionId → Type 0 where
  start : Chain tables root root
  next :
      {u v : FunctionId} (row : ℕ)
      → Chain tables root u
      → get_elem? tables.calls.caller row ≡ some u
      → get_elem? tables.calls.callee row ≡ some v
      → v < function_count tables.functions
      → Chain tables root v

-- No entry of a fresh buffer holds the first generation.
pub fresh_stamps : (n v : ℕ) → ¬ Stamped 1 (replicate n 0) v
fresh_stamps zero v h = cc
fresh_stamps (suc n) zero h = ground arith
fresh_stamps (suc n) (suc v) h = fresh_stamps n v h

pub flag_iff :
    (stamp : List ℕ) (v : ℕ)
    → (get_elem? (map (λ value. value == 1) stamp) v ≡ some true) ↔ Stamped 1 stamp v
flag_iff [] v = (λ h. cc, λ h. cc)
flag_iff (value ∷ stamp) zero = ground arith
flag_iff (value ∷ stamp) (suc v) = flag_iff stamp v

module _ (tables : Tables) (fits : call_count tables.calls < u32_mod) where
  abbrev graph : CallGraph
  graph = build_call_graph tables

  pub graph-size : length graph.edge_start - 1 ≡ function_count tables.functions
  graph-size = omega (arith, build-functions tables fits)

  HasEdge-Row :
      (u v : FunctionId)
      → HasEdge graph u v
      → Row tables.calls.caller tables.calls.callee 0 u v × (v < function_count tables.functions)
  HasEdge-Row u v (edge, inside) = elim (dec_lt u (function_count tables.functions)) [
    | yes known ↦ (
      Has-calls_by u v tables.calls.caller tables.calls.callee 0
          (subst (Has v) (build-callees tables fits u known).0 edge),
      omega (arith, graph-size),
    )
    | no beyond ↦ absurd (
        subst (λ range. Has v (slice graph.edge_target range.start range.end))
          (callees-beyond tables fits u (omega arith)) edge)
  ]

  pub Reaches-Chain :
      (root : FunctionId) {v : FunctionId} → Reaches graph root v → Chain tables root v
  Reaches-Chain root here = start
  Reaches-Chain root (call {u} {v} path edge) =
      let ((row, p, q), inside) = HasEdge-Row u v edge in
      let at : 0 + row ≡ row = omega arith in
      next row (Reaches-Chain root path) p
        (subst (λ i. get_elem? tables.calls.callee i ≡ some v) at q) inside

  -- A chain from a function of the program stays within the program.
  Chain-lt :
      (root : FunctionId)
      → root < function_count tables.functions
      → {v : FunctionId} → Chain tables root v
      → v < function_count tables.functions
  Chain-lt root inside start = inside
  Chain-lt root inside (next row path p q below) = below

  pub Chain-Reaches :
      (root : FunctionId)
      → root < function_count tables.functions
      → {v : FunctionId} → Chain tables root v
      → Reaches graph root v
  Chain-Reaches root inside start = here
  Chain-Reaches root inside (next {u} {v} row path p q below) =
      let at : row ≡ 0 + row = omega arith in
      let found =
        calls_by-Has u v tables.calls.caller tables.calls.callee 0 row p
          (subst (λ i. get_elem? tables.calls.callee i ≡ some v) at q) in
      call (Chain-Reaches root inside path) (
        subst (Has v) (sym (build-callees tables fits u (Chain-lt root inside path)).0) found,
        omega (arith, graph-size),
      )

  -- Where every call has a `u32` row: on the graph that is built from the calls, and for a function
  -- of the program, `reachable_from` ends with a flag for each function, which is set exactly where
  -- a chain of recorded calls leads.
  pub reachable_from-Chain :
      (root : FunctionId)
      → root < function_count tables.functions
      → (flags : List Bool) × (reachable_from (build_call_graph tables) root ≡ some flags)
        × (length flags ≡ function_count tables.functions)
        × ((v : FunctionId) → (get_elem? flags v ≡ some true) ↔ ∥ Chain tables root v ∥₁)
  unfolding reachable_from
  reachable_from-Chain root inside =
      let (stamp, ends, marks) =
        mark_reachable-Marks graph 1 root (replicate (length graph.edge_start - 1) 0)
          (build-IsWellFormed tables fits) (length-replicate _ zero) (omega (arith, graph-size))
          (fresh_stamps (length graph.edge_start - 1)) in
      (
        map (λ value. value == 1) stamp,
        rw (ends, reachable_from),
        length-map (λ value. value == 1) stamp
            ∙ (marks.sized ∙ (length-replicate (length graph.edge_start - 1) zero ∙ graph-size)),
        λ v. (
          λ h. ∥∥₁_map ((marks.marked v).0 ((flag_iff stamp v).0 h)) (Reaches-Chain root),
          λ chain.
              (flag_iff stamp v).1 ((marks.marked v).1 (∥∥₁_map chain (Chain-Reaches root inside))),
        ),
      )
