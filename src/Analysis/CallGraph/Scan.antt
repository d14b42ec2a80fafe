-- ===== src/Analysis/CallGraph/Scan.antt =====
-- The loop over a function's edges in crates/zag-analysis/src/call_graph.rs: what it stamps, what
-- it pushes, and what it leaves alone.
use zag.Prelude.{
  ℕ, zero, suc, ◌+◌, ◌≤◌, ◌<◌, ◌≡◌, ◌≢◌, ◌⊎◌, ◌↔◌, refl, ◌∙◌, Option, some, List, [], ◌∷◌, arith,
  length, length-set, get_or, get_elem?, get_elem?-set, get_elem?-of_lt, drop-cons, set, Any, ◌==◌,
  if◌then◌else◌, take, drop,
}
use zag.Facts.Handles.{FunctionId}
use zag.Analysis.CallGraph.{CallGraph, Search, offer, scan_edges, graph_functions}

abbrev pub Has : ℕ → List ℕ → Type 0
Has v xs = Any (λ x. x ≡ v) xs

-- The function carries the generation's stamp.
abbrev pub Stamped : ℕ → List ℕ → FunctionId → Type 0
Stamped generation stamp v = get_elem? stamp v ≡ some generation

-- How many functions do not carry it yet.
abbrev pub unstamped : ℕ → List ℕ → ℕ
unstamped generation [] = 0
unstamped generation (value ∷ stamp) =
    if value == generation then unstamped generation stamp else suc (unstamped generation stamp)

unstamped-set :
    (generation : ℕ) (stamp : List ℕ) (v : ℕ)
    → v < length stamp
    → get_or stamp v 0 ≢ generation
    → suc (unstamped generation (set stamp v generation)) ≡ unstamped generation stamp
unstamped-set generation [] v h new = absurd (omega arith)
unstamped-set generation (value ∷ stamp) zero h new = ground arith
unstamped-set generation (value ∷ stamp) (suc v) h new =
    ground (arith, unstamped-set generation stamp v (omega arith) new)

pub unstamped-le : (generation : ℕ) (stamp : List ℕ) → unstamped generation stamp ≤ length stamp
unstamped-le generation [] = omega arith
unstamped-le generation (value ∷ stamp) = ground (arith, unstamped-le generation stamp)

Option-set : IsSet (Option ℕ)
Option-set = hlevel

-- To carry a stamp is a proposition.
pub Stamped-prop : (generation : ℕ) (stamp : List ℕ) (v : ℕ) → IsProp (Stamped generation stamp v)
Stamped-prop generation stamp v = Option-set (get_elem? stamp v) (some generation)

get_elem?-get_or {ℓ} :
    {A : Type ℓ} (xs : List A) (i : ℕ) (d : A)
    → i < length xs
    → get_elem? xs i ≡ some (get_or xs i d)
get_elem?-get_or [] i d h = absurd (omega arith)
get_elem?-get_or (x ∷ xs) zero d h = refl
get_elem?-get_or (x ∷ xs) (suc i) d h = get_elem?-get_or xs i d (omega arith)

-- What the loop does for the targets: one record for one target and for all of them.
pub record Scans (functions generation : ℕ) (targets : List ℕ) (s s' : Search) : Type 0 where
  pub size : length s'.stamp ≡ length s.stamp
  pub work :
      unstamped generation s'.stamp + length s'.pending
      ≡ unstamped generation s.stamp + length s.pending
  pub stamps :
      (v : ℕ)
      → Stamped generation s'.stamp v
        ↔ (Stamped generation s.stamp v ⊎ (Has v targets × (v < functions)))
  pub queues :
      (v : ℕ)
      → Has v s'.pending
        ↔ (Has v s.pending ⊎ (Stamped generation s'.stamp v × ¬ Stamped generation s.stamp v))
  pub keeps : (v : ℕ) → ¬ Stamped generation s'.stamp v → get_elem? s'.stamp v ≡ get_elem? s.stamp v

module _ (functions generation : ℕ) where
  offer-Scans :
      (target : ℕ) (s : Search)
      → length s.stamp ≡ functions
      → Scans functions generation (target ∷ []) s (offer functions generation target s)
  unfolding offer
  offer-Scans target s size = record {
    size = ground (arith, length-set s.stamp target generation);
    work = ground (arith, unstamped-set generation s.stamp target);
    stamps = λ v.
        ground
          (arith, get_elem?-set s.stamp target v generation, get_elem?-get_or s.stamp target 0);
    queues = λ v.
        ground
          (arith, get_elem?-set s.stamp target v generation, get_elem?-get_or s.stamp target 0);
    keeps = λ v.
        ground
          (arith, get_elem?-set s.stamp target v generation, get_elem?-get_or s.stamp target 0);
  }

  Scans-refl : (s : Search) → Scans functions generation [] s s
  Scans-refl s = record {
    size = refl;
    work = refl;
    stamps = λ v. ground arith;
    queues = λ v. ground arith;
    keeps = λ v h. refl;
  }

  Scans-cons :
      (target : ℕ) (targets : List ℕ) (s t u : Search)
      → Scans functions generation (target ∷ []) s t
      → Scans functions generation targets t u
      → Scans functions generation (target ∷ targets) s u
  Scans-cons target targets s t u first later = record {
    size = later.size ∙ first.size;
    work = later.work ∙ first.work;
    stamps = λ v. ground (arith, first.stamps v, later.stamps v);
    queues = λ v. ground (arith, first.queues v, later.queues v, first.stamps v, later.stamps v);
    keeps = λ v. ground (arith, first.keeps v, later.keeps v, later.stamps v);
  }

module _ (graph : CallGraph) (generation : ℕ) where
  abbrev functions : ℕ
  functions = graph_functions graph generation

  -- In bounds the loop over the edges ends, and does its work for the targets of the range.
  pub scan_edges-Scans :
      (edges edge : ℕ) (s : Search)
      → edge + edges ≤ length graph.edge_target
      → length s.stamp ≡ functions
      → (s' : Search) × (scan_edges graph generation edges edge s ≡ some s')
        × Scans functions generation (take edges (drop edge graph.edge_target)) s s'
  unfolding scan_edges
  scan_edges-Scans zero edge s bound size = (s, refl, Scans-refl functions generation s)
  scan_edges-Scans (suc edges) edge s bound size =
      let (target, read) = get_elem?-of_lt graph.edge_target edge (omega arith) in
      let first = offer-Scans functions generation target s size in
      let (s', ends, later) =
        scan_edges-Scans edges (edge + 1) (offer functions generation target s) (omega arith)
          (first.size ∙ size) in
      (
        s',
        rw (read, scan_edges) ends,
        rw (drop-cons edge graph.edge_target target read)
            (Scans-cons functions generation target _ s _ s' first later),
      )
