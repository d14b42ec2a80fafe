-- ===== src/Analysis/CallGraph/Reach.antt =====
-- The walk of crates/zag-analysis/src/call_graph.rs stamps exactly what the root reaches.
use zag.Prelude.{
  ℕ, zero, suc, ◌+◌, ◌-◌, ◌≤◌, ◌<◌, ◌≡◌, ◌⊎◌, ◌↔◌, inl, inr, refl, sym, ap, ◌∙◌, some, List, [],
  ◌∷◌, arith, length, length-set, get_elem?, get_elem?-set, set, List-cases, ℕ_discrete,
}
use mathlib.Core.Logic.{∥∥₁_elim, ⊎_elim}
use mathlib.Core.Path.{subst}
use zag.Facts.Handles.{FunctionId}
use zag.Facts.Access.{slice}
use zag.Analysis.CallGraph.{CallGraph, Search, done, callees, expand, mark_loop, mark_reachable}
use zag.Analysis.CallGraph.Build.{IsWellFormed}
use zag.Analysis.CallGraph.Scan.{
  Has, Stamped, unstamped, unstamped-le, Stamped-prop, Scans, scan_edges-Scans,
}

-- An edge of the graph to one of its functions.
abbrev pub HasEdge : CallGraph → FunctionId → FunctionId → Type 0
HasEdge graph u v =
    Has v (slice graph.edge_target (callees graph u).start (callees graph u).end)
    × (v < length graph.edge_start - 1)

-- The chains of calls from a root.
pub data Reaches (graph : CallGraph) (root : FunctionId) : FunctionId → Type 0 where
  here : Reaches graph root root
  call : {u v : FunctionId} → Reaches graph root u → HasEdge graph u v → Reaches graph root v

pub Stamped-cases :
    (generation : ℕ) (stamp : List ℕ) (v : ℕ)
    → Stamped generation stamp v ⊎ (¬ Stamped generation stamp v)
Stamped-cases generation [] v = inr (λ e. cc)
Stamped-cases generation (value ∷ stamp) zero = elim (ℕ_discrete value generation) [
  | yes e ↦ inl (ap some e)
  | no other ↦ inr (λ e. other (cc))
]
Stamped-cases generation (value ∷ stamp) (suc v) = Stamped-cases generation stamp v

module _ (graph : CallGraph) (generation : ℕ)
    (formed : (f : FunctionId) → IsWellFormed graph f) where
  abbrev size : ℕ
  size = length graph.edge_start - 1

  abbrev targets : FunctionId → List FunctionId
  targets u = slice graph.edge_target (callees graph u).start (callees graph u).end

  expand-Scans :
      (u : FunctionId) (s : Search)
      → length s.stamp ≡ size
      → (s' : Search) × (expand graph generation u s ≡ some s')
        × Scans size generation (targets u) s s'
  unfolding expand
  expand-Scans u s sized =
      scan_edges-Scans graph generation _ (callees graph u).start s (omega (arith, formed u)) sized

  module _ (root : FunctionId) (before : List ℕ) where
    record Inv (s : Search) : Type 0 where
      sized : length s.stamp ≡ size
      stamped_root : Stamped generation s.stamp root
      queued : (v : FunctionId) → Has v s.pending → Stamped generation s.stamp v
      sound : (v : FunctionId) → Stamped generation s.stamp v → Reaches graph root v
      closed :
          (u v : FunctionId)
          → Stamped generation s.stamp u
          → HasEdge graph u v
          → Has u s.pending ⊎ Stamped generation s.stamp v
      kept :
          (v : FunctionId)
          → ¬ Stamped generation s.stamp v
          → get_elem? s.stamp v ≡ get_elem? before v

    Inv-expand :
        (s s' : Search) (u : FunctionId) (rest : List FunctionId)
        → s.pending ≡ u ∷ rest
        → Inv s
        → Scans size generation (targets u) (record s { pending = rest }) s'
        → Inv s'
    Inv-expand s s' u rest e inv scans =
        let queued : (v : FunctionId) → ((u ≡ v) ⊎ Has v rest) → Stamped generation s.stamp v =
          λ v h. inv.queued v (rw e h) in
        let waiting : (x v : FunctionId)
            → (Has x s.pending ⊎ Stamped generation s.stamp v)
            → (((u ≡ x) ⊎ Has x rest) ⊎ Stamped generation s.stamp v) =
          λ x v h. rw e at h in
        record {
          sized = scans.size ∙ inv.sized;
          stamped_root = (scans.stamps root).1 (inl inv.stamped_root);
          queued = λ v q. ground (arith, scans.queues v, scans.stamps v, queued v);
          sound = λ v m.
              ⊎_elim (inv.sound v) (λ edge. call (inv.sound u (queued u (inl refl))) edge)
                ((scans.stamps v).0 m);
          closed = λ x v m edge. elim (Stamped-cases generation s.stamp x) [
            | inr new ↦ inl ((scans.queues x).1 (inr (m, new)))
            | inl old ↦ elim (waiting x v (inv.closed x v old edge)) [
              | inl (inl here') ↦
                  inr ((scans.stamps v).1 (inr (subst (λ w. HasEdge graph w v) (sym here') edge)))
              | inl (inr later) ↦ inl ((scans.queues x).1 (inl later))
              | inr stamped ↦ inr ((scans.stamps v).1 (inl stamped))
            ]
          ];
          kept = λ v new. ground (arith, scans.keeps v new, scans.stamps v, inv.kept v);
        }

    -- The stack empties within the fuel, and the invariant holds of the stamps then.
    mark_loop-Inv :
        (fuel : ℕ) (s : Search)
        → unstamped generation s.stamp + length s.pending ≤ fuel
        → Inv s
        → (t : Search) × (mark_loop graph generation fuel s ≡ done t.stamp)
          × (t.pending ≡ [])
          × Inv t
    unfolding mark_loop
    mark_loop-Inv zero s h inv = elim (List-cases s.pending) [
      | inl empty ↦ (s, rw (empty, mark_loop), empty, inv)
      | inr (u, rest, e) ↦ absurd (omega (arith, ap length e))
    ]
    mark_loop-Inv (suc fuel) s h inv = elim (List-cases s.pending) [
      | inl empty ↦ (s, rw (empty, mark_loop), empty, inv)
      | inr (u, rest, e) ↦
          let (s', ends, scans) = expand-Scans u (record s { pending = rest }) inv.sized in
          let (t, loops, empty, final) =
            mark_loop-Inv fuel s' (omega (arith, scans.work, ap length e))
              (Inv-expand s s' u rest e inv scans) in
          (t, rw (e, mark_loop) (rw (ends, mark_loop) loops), empty, final)
    ]

    -- With an empty stack the stamped functions are closed under calls.
    Inv-complete :
        (t : Search)
        → Inv t
        → t.pending ≡ []
        → {v : FunctionId} → Reaches graph root v
        → Stamped generation t.stamp v
    Inv-complete t inv empty here = inv.stamped_root
    Inv-complete t inv empty (call {u} {v} path edge) =
        elim (inv.closed u v (Inv-complete t inv empty path) edge) [
          | inl waiting ↦ absurd (subst (Has u) empty waiting)
          | inr stamped ↦ stamped
        ]

    abbrev first : Search
    first = record { stamp = set before root generation; pending = root ∷ [] }

    Inv-first :
        length before ≡ size
        → root < size
        → ((v : FunctionId) → ¬ Stamped generation before v)
        → Inv first
    Inv-first sized inside fresh =
        let at = λ (v : ℕ). get_elem?-set before root v generation (omega arith) in
        record {
          sized = length-set before root generation ∙ sized;
          stamped_root = ground (arith, at root);
          queued = λ v h. ground (arith, at v);
          sound = λ v h. elim (ℕ_discrete root v) [
            | yes e ↦ subst (Reaches graph root) e here
            | no other ↦ absurd (fresh v (ground (arith, at v)))
          ];
          closed = λ u v h edge. elim (ℕ_discrete root u) [
            | yes e ↦ inl (inl e)
            | no other ↦ absurd (fresh u (ground (arith, at u)))
          ];
          kept = λ v h. ground (arith, at v);
        }

-- What a walk leaves: it stamps what the root reaches and changes no other stamp.
pub record Marks (graph : CallGraph) (generation : ℕ) (root : FunctionId) (before after : List ℕ)
    : Type 0 where
  pub sized : length after ≡ length before
  pub marked : (v : FunctionId) → Stamped generation after v ↔ ∥ Reaches graph root v ∥₁
  pub kept :
      (v : FunctionId) → ¬ Stamped generation after v → get_elem? after v ≡ get_elem? before v

-- On a well-formed graph, for a root of it and a buffer that does not hold the generation yet, the
-- walk ends; it stamps exactly what the root reaches and leaves every other stamp in place.
pub mark_reachable-Marks :
    (graph : CallGraph) (generation : ℕ) (root : FunctionId) (before : List ℕ)
    → ((f : FunctionId) → IsWellFormed graph f)
    → length before ≡ length graph.edge_start - 1
    → root < length graph.edge_start - 1
    → ((v : FunctionId) → ¬ Stamped generation before v)
    → (after : List ℕ) × (mark_reachable graph generation root before ≡ done after)
      × Marks graph generation root before after
unfolding mark_reachable
mark_reachable-Marks graph generation root before formed sized inside fresh =
    let (t, ends, empty, inv) =
      mark_loop-Inv graph generation formed root before (suc (length before))
        (first graph generation formed root before)
        (omega (
          arith,
          unstamped-le generation (set before root generation),
          length-set before root generation,
        ))
        (Inv-first graph generation formed root before sized inside fresh) in
    (
      t.stamp,
      ground (arith, ends),
      record {
        sized = inv.sized ∙ sym sized;
        marked = λ v. (
          λ h. ∣ inv.sound v h ∣₁,
          λ t.
              ∥∥₁_elim t (Stamped-prop _ _ v)
                (Inv-complete graph generation formed root before _ inv empty),
        );
        kept = inv.kept;
      },
    )

-- A root outside the graph stamps nothing.
pub mark_reachable-beyond :
    (graph : CallGraph) (generation : ℕ) (root : FunctionId) (before : List ℕ)
    → length graph.edge_start - 1 ≤ root
    → mark_reachable graph generation root before ≡ done before
unfolding mark_reachable
mark_reachable-beyond graph generation root before beyond = ground arith
