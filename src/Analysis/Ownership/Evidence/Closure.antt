-- ===== src/Analysis/Ownership/Evidence/Closure.antt =====
-- The reusable closure of crates/zag-analysis/src/ownership.rs answers as a fresh walk from the
-- struct's `deinit` would.
use zag.Prelude.{
  ℕ, zero, suc, ◌+◌, ◌-◌, ◌≤◌, ◌<◌, ◌≡◌, ◌↔◌, inl, inr, refl, sym, ap, ◌∙◌, Bool, true, false,
  Option, none, some, List, [], ◌∷◌, arith, length, get_or, get_elem?, replicate, u32_mod, u32_add,
  u32_add-eq_of_lt, ◌==◌, ◌>>=◌, Option-cases, Bool-cases, dec_lt, map,
}
use mathlib.Core.Path.{subst}
use mathlib.Core.Logic.{∥∥₁_elim, ∥∥₁_map}
use mathlib.Core.Bool.{So-prop}
use mathlib.Core.Option.{some-injective}
use zag.Facts.Handles.{FunctionId, StructId}
use zag.Facts.Tables.{Tables}
use zag.Facts.Access.{function_count, call_count}
use zag.Analysis.CallGraph.{CallGraph, build_call_graph, reachable_from}
use zag.Analysis.CallGraph.Build.{build-IsWellFormed}
use zag.Analysis.CallGraph.Scan.{Stamped, Stamped-prop}
use zag.Analysis.CallGraph.Reach.{Stamped-cases, mark_reachable-Marks, mark_reachable-beyond}
use zag.Analysis.CallGraph.Program.{
  Chain, Reaches-Chain, Chain-Reaches, reachable_from-Chain, graph-size, fresh_stamps, flag_iff,
}
use zag.Analysis.Ownership.Evidence.{
  DeinitClosure, struct_deinit, is_owner, restamp, closure_for, is_stamped, closure_holds,
}

-- The function is reached from the struct's `deinit`, by the calls of the program.
abbrev pub InClosure : Tables → StructId → FunctionId → Type 0
InClosure tables owner function =
    (deinit : FunctionId) × (struct_deinit tables owner ≡ some deinit)
    × (deinit < function_count tables.functions)
    × Chain tables deinit function

Bool-ext : (a b : Bool) → (a ≡ true → b ≡ true) → (b ≡ true → a ≡ true) → a ≡ b
Bool-ext true b f g = sym (f refl)
Bool-ext false true f g = g refl
Bool-ext false false f g = refl

get_or-true_iff :
    (flags : List Bool) (v : ℕ) → (get_or flags v false ≡ true) ↔ (get_elem? flags v ≡ some true)
get_or-true_iff [] v = (λ h. cc, λ h. cc)
get_or-true_iff (flag ∷ flags) zero = ground arith
get_or-true_iff (flag ∷ flags) (suc v) = get_or-true_iff flags v

is_owner_iff :
    (o : Option StructId) (owner : StructId) → (is_owner o owner ≡ true) ↔ (o ≡ some owner)
is_owner_iff none owner = (λ h. cc, λ h. cc)
is_owner_iff (some o) owner = ground arith

-- The same by a walk over a fresh buffer for each question.
unfoldable pub in_deinit_closure : Tables → StructId → FunctionId → Bool
in_deinit_closure tables owner function = elim (struct_deinit tables owner) [
  | none ↦ false
  | some deinit ↦ elim (reachable_from (build_call_graph tables) deinit) [
    | none ↦ false
    | some flags ↦ get_or flags function false
  ]
]

module _ (tables : Tables) (fits : call_count tables.calls < u32_mod) where
  abbrev functions : ℕ
  functions = function_count tables.functions

  abbrev graph : CallGraph
  graph = build_call_graph tables

  -- No stamp is of a later generation, and those of the present one are the owner's closure.
  pub record IsClosure (c : DeinitClosure) : Type 0 where
    pub sized : length c.stamp ≡ functions
    pub bounded : (v x : ℕ) → get_elem? c.stamp v ≡ some x → x ≤ c.generation
    pub current :
        (owner : StructId)
        → c.owner ≡ some owner
        → (v : FunctionId) → Stamped c.generation c.stamp v ↔ ∥ InClosure tables owner v ∥₁

  -- What a walk for an owner leaves, whichever way it goes.
  record Restamps (owner : StructId) (generation : ℕ) (before after : List ℕ) : Type 0 where
    sized : length after ≡ functions
    stamped : (v : FunctionId) → Stamped generation after v ↔ ∥ InClosure tables owner v ∥₁
    kept : (v : FunctionId) → ¬ Stamped generation after v → get_elem? after v ≡ get_elem? before v

  InClosure-Chain :
      (owner : StructId) (deinit : FunctionId)
      → struct_deinit tables owner ≡ some deinit
      → (v : FunctionId) → InClosure tables owner v
      → (deinit < functions) × Chain tables deinit v
  InClosure-Chain owner deinit e v (d, e', inside, chain) =
      let same : d ≡ deinit = some-injective d deinit (sym e' ∙ e) in
      (subst (λ d. d < functions) same inside, subst (λ d. Chain tables d v) same chain)

  module _ (owner : StructId) (generation : ℕ) (before : List ℕ) (sized : length before ≡ functions)
      (fresh : (v : FunctionId) → ¬ Stamped generation before v) where
    -- Nothing is walked, and nothing is in the closure.
    untouched :
        ((v : FunctionId) → ¬ InClosure tables owner v) → Restamps owner generation before before
    untouched empty = record {
      sized = sized;
      stamped = λ v. (
        λ h. absurd (fresh v h),
        λ t. ∥∥₁_elim t (Stamped-prop generation before v) (λ h. absurd (empty v h)),
      );
      kept = λ v h. refl;
    }

    restamp-Restamps :
        (after : List ℕ) × (restamp tables graph owner generation before ≡ some after)
        × Restamps owner generation before after
    unfolding restamp
    restamp-Restamps = elim (Option-cases (struct_deinit tables owner)) [
      | inl absent ↦
          (before, rw (absent, restamp), untouched (λ v h. absurd (cc (sym absent ∙ h.1))))
      | inr (deinit, e) ↦ elim (dec_lt deinit functions) [
        | no beyond ↦ (
          before,
          rw (e, restamp)
              (rw
                (
                  mark_reachable-beyond graph generation deinit before
                      (omega (arith, graph-size tables fits)),
                  restamp,
                )
                refl),
          untouched (λ v h. absurd (beyond (InClosure-Chain owner deinit e v h).0)),
        )
        | yes inside ↦
            let size = graph-size tables fits in
            let (after, ends, marks) =
              mark_reachable-Marks graph generation deinit before (build-IsWellFormed tables fits)
                (omega (arith, size, sized)) (omega (arith, size)) fresh in
            (
              after,
              rw (e, restamp) (rw (ends, restamp) refl),
              record {
                sized = marks.sized ∙ sized;
                stamped = λ v. (
                  λ h.
                      ∥∥₁_map ((marks.marked v).0 h)
                        (λ path. (deinit, e, inside, Reaches-Chain tables fits deinit path)),
                  λ t. (marks.marked v).1 (
                      ∥∥₁_map t (λ h.
                        Chain-Reaches tables fits deinit inside
                          (InClosure-Chain owner deinit e v h).1)),
                );
                kept = marks.kept;
              },
            )
      ]
    ]

  -- The closure for an owner is there, right, and at most one generation on.
  pub closure_for-IsClosure :
      (c : DeinitClosure) (owner : StructId)
      → IsClosure c
      → c.generation + 1 < u32_mod
      → (c' : DeinitClosure) × (closure_for tables graph c owner ≡ some c')
        × IsClosure c'
        × (c'.owner ≡ some owner)
        × (c'.generation ≤ c.generation + 1)
        × (c.owner ≡ some owner → c' ≡ c)
  unfolding closure_for
  closure_for-IsClosure c owner closure small = elim (Bool-cases (is_owner c.owner owner)) [
    | inl held ↦
        (c, rw held refl, closure, (is_owner_iff c.owner owner).0 held, omega arith, λ _. refl)
    | inr other ↦
        let generation = u32_add c.generation 1 in
        let step : generation ≡ c.generation + 1 = u32_add-eq_of_lt c.generation 1 small in
        let fresh : (v : FunctionId) → ¬ Stamped generation c.stamp v =
          λ v h. absurd (omega (arith, step, closure.bounded v generation h)) in
        let (after, ends, r) = restamp-Restamps owner generation c.stamp closure.sized fresh in
        (
          record { owner = some owner; stamp = after; generation = generation },
          rw (other, ends) refl,
          record {
            sized = r.sized;
            bounded = λ v x h. elim (Stamped-cases generation after v) [
              | inl now ↦ omega (arith, some-injective x generation (sym h ∙ now))
              | inr old ↦ omega (arith, step, closure.bounded v x (sym (r.kept v old) ∙ h))
            ];
            current = λ owner' e v.
                subst (λ o. Stamped generation after v ↔ ∥ InClosure tables o v ∥₁)
                  (some-injective owner owner' e) (r.stamped v);
          },
          refl,
          omega (arith, step),
          λ e. absurd (cc (sym other ∙ (is_owner_iff c.owner owner).1 e)),
        )
  ]

  -- Where every call has a `u32` row, the fresh walk from a struct's `deinit` finds a function
  -- exactly when a chain of recorded calls leads to it from that `deinit`.
  in_deinit_closure_iff :
      (owner : StructId) (v : FunctionId)
      → (in_deinit_closure tables owner v ≡ true) ↔ ∥ InClosure tables owner v ∥₁
  unfolding in_deinit_closure
  in_deinit_closure_iff owner v = elim (Option-cases (struct_deinit tables owner)) [
    | inl absent ↦ (
      λ h. absurd (cc (rw (absent, in_deinit_closure) at h)),
      λ t. ∥∥₁_elim t (So-prop _) (λ h. absurd (cc (sym absent ∙ h.1))),
    )
    | inr (deinit, e) ↦ elim (dec_lt deinit functions) [
      | yes inside ↦
          let (flags, ends, size, flagged) = reachable_from-Chain tables fits deinit inside in
          let answer : in_deinit_closure tables owner v ≡ get_or flags v false =
            rw (e, in_deinit_closure) (rw (ends, in_deinit_closure) refl) in
          (
            λ h.
                ∥∥₁_map ((flagged v).0 ((get_or-true_iff flags v).0 (sym answer ∙ h)))
                  (λ chain. (deinit, e, inside, chain)),
            λ t.
                answer
                ∙ (get_or-true_iff flags v).1
                    ((flagged v).1 (∥∥₁_map t (λ h. (InClosure-Chain owner deinit e v h).1))),
          )
      | no beyond ↦
          let blank : List ℕ = replicate (length graph.edge_start - 1) 0 in
          let walk =
            mark_reachable-beyond graph 1 deinit blank (omega (arith, graph-size tables fits)) in
          let ends : reachable_from graph deinit ≡ some (map (λ value. value == 1) blank) =
            unfold reachable_from in rw (walk, reachable_from) refl in
          let answer : in_deinit_closure tables owner v
              ≡ get_or (map (λ value. value == 1) blank) v false =
            rw (e, in_deinit_closure) (rw (ends, in_deinit_closure) refl) in
          (
            λ h. absurd (
                fresh_stamps (length graph.edge_start - 1) v
                  ((flag_iff blank v).0 ((get_or-true_iff _ v).0 (sym answer ∙ h)))),
            λ t.
                ∥∥₁_elim t (So-prop _)
                  (λ h. absurd (beyond (InClosure-Chain owner deinit e v h).0)),
          )
    ]
  ]

  is_stamped_iff :
      (c : DeinitClosure) (v : FunctionId)
      → (is_stamped c v ≡ true) ↔ Stamped c.generation c.stamp v
  unfolding is_stamped
  is_stamped_iff c v = elim (Option-cases (get_elem? c.stamp v)) [
    | inl absent ↦
        (λ h. absurd (cc (rw (absent, is_stamped) at h)), λ h. absurd (cc (sym absent ∙ h)))
    | inr (x, e) ↦ ground arith
  ]

  -- As below, and a closure that is the owner's already stays as it is.
  pub closure_holds-IsClosure :
      (c : DeinitClosure) (owner : StructId) (v : FunctionId)
      → IsClosure c
      → c.generation + 1 < u32_mod
      → (c' : DeinitClosure) × (closure_holds tables graph c owner v
          ≡ some (c', in_deinit_closure tables owner v))
        × IsClosure c'
        × (c'.owner ≡ some owner)
        × (c'.generation ≤ c.generation + 1)
        × (c.owner ≡ some owner → c' ≡ c)
  unfolding closure_holds
  closure_holds-IsClosure c owner v closure small =
      let (c', ends, closure', owned, bound, same) = closure_for-IsClosure c owner closure small in
      let agree : is_stamped c' v ≡ in_deinit_closure tables owner v =
        Bool-ext _ _
          (λ h.
            (in_deinit_closure_iff owner v).1
              ((closure'.current owner owned v).0 ((is_stamped_iff c' v).0 h)))
          (λ h.
            (is_stamped_iff c' v).1
              ((closure'.current owner owned v).1 ((in_deinit_closure_iff owner v).0 h))) in
      (c', rw (ends, ◌>>=◌) (ap (λ b. some (c', b)) agree), closure', owned, bound, same)

  -- Where every call has a `u32` row, and while generations are left, the closure at hand gives the
  -- answer of a fresh walk; it becomes, or stays, a closure of the owner, and is at most one
  -- generation on.
  pub closure_holds-in_deinit_closure :
      (c : DeinitClosure) (owner : StructId) (v : FunctionId)
      → IsClosure c
      → c.generation + 1 < u32_mod
      → (c' : DeinitClosure) × (closure_holds tables graph c owner v
          ≡ some (c', in_deinit_closure tables owner v))
        × IsClosure c'
        × (c'.owner ≡ some owner)
        × (c'.generation ≤ c.generation + 1)
  closure_holds-in_deinit_closure c owner v closure small =
      let (c', ends, closure', owned, bound, _) = closure_holds-IsClosure c owner v closure small in
      (c', ends, closure', owned, bound)
