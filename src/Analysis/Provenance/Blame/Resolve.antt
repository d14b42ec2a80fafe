-- ===== src/Analysis/Provenance/Blame/Resolve.antt =====
-- What the disagreements of `resolve_allocator_provenance` say, in
-- crates/zag-analysis/src/provenance.rs.
use zag.Prelude.{
  ◌↔◌, ℕ, ◌≤◌, ◌≡◌, inl, inr, List, [], ◌∷◌, arith, length, get_or, Bool-cases, Option-cases, All,
  Any, u32_mod,
}
use mathlib.Core.Path.{subst}
use zag.Facts.Tables.{Tables}
use zag.Facts.Access.{parameter_count}
use zag.Analysis.Provenance.{
  unset, conflicting, same_class, join, State, Disagreement, argument_flow, class_of_source,
  merge_class, visit_argument, rounds, initial, round_limit, resolve_allocator_provenance,
}
use zag.Analysis.Provenance.Lattice.{Below-trans}
use zag.Analysis.Provenance.Converges.{same_class-ne, argument_flow-lt}
use zag.Analysis.Provenance.Fixed.{rounds_rule, resolve-IsFixed, argument_flow-row}
use zag.Analysis.Provenance.Blame.{Distinct, Explained, Blamed, Inv, initial-Inv}
use zag.Analysis.Provenance.Blame.Merge.{raised-Inv, conflicting-top}

subst_any :
    (P : ℕ → Type 0) (slot : ℕ) (ds : List Disagreement)
    → All (λ d. P d.parameter) ds
    → Any (λ d. d.parameter ≡ slot) ds
    → P slot
subst_any P slot [] h k = absurd k
subst_any P slot (d ∷ ds) h (inl e) = subst P e h.0
subst_any P slot (d ∷ ds) h (inr k) = subst_any P slot ds h.1 k

module _ (tables : Tables) where
  module _ (rows_fit : length tables.call_arguments.call ≤ u32_mod)
      (slots_fit : parameter_count tables.parameters ≤ u32_mod) where
    visit_argument-Inv :
        (row : ℕ) (s : State) → Inv tables s → Inv tables (visit_argument tables row s)
    visit_argument-Inv row s inv = elim (Option-cases (argument_flow tables row)) [
      | inl absent ↦ unfold visit_argument in rw (absent, visit_argument) inv
      | inr ((slot, source), flow) ↦
          let held = get_or s.parameter_class slot unset in
          let contributed = class_of_source tables s.parameter_class source in
          unfold visit_argument merge_class in
          rw (flow, visit_argument)
            (elim (Bool-cases (same_class (join held contributed) held)) [
              | inl same ↦ rw same inv
              | inr new ↦ rw new (
                  raised-Inv tables row slot source s inv flow
                    (omega (arith, argument_flow-row tables row slot source flow))
                    (omega (arith, argument_flow-lt tables row slot source flow))
                    (same_class-ne _ _ new))
            ])
    ]

    final-Inv : Inv tables (rounds tables (round_limit tables) (initial tables)).0
    final-Inv =
        rounds_rule tables (Inv tables) visit_argument-Inv
          (λ s inv. record {
            sized = inv.sized;
            witnesses = inv.witnesses;
            supported = inv.supported;
            explained = inv.explained;
            settled = inv.settled;
            once = inv.once;
            blamed = inv.blamed;
          })
          (round_limit tables) (initial tables) (initial-Inv tables)

    -- Where every call argument and parameter has a `u32` row, each disagreement names two call
    -- arguments of its parameter whose classes conflict, and no two are about one parameter.
    pub resolve-Explained :
        All
          (Explained tables (resolve_allocator_provenance tables).parameter_class)
          (resolve_allocator_provenance tables).disagreements
        × Distinct (resolve_allocator_provenance tables).disagreements
    unfolding resolve_allocator_provenance
    resolve-Explained = (final-Inv.explained, final-Inv.once)

    -- Where every call argument and parameter has a `u32` row, a parameter ends conflicting exactly
    -- when a disagreement is about it or a call argument hands it a source that is conflicting
    -- itself.
    pub resolve-Blamed :
        (slot : ℕ)
        → (get_or (resolve_allocator_provenance tables).parameter_class slot unset ≡ conflicting)
          ↔ Blamed tables
              (resolve_allocator_provenance tables).parameter_class
              (resolve_allocator_provenance tables).disagreements
              slot
    resolve-Blamed slot =
        (unfold resolve_allocator_provenance in final-Inv.blamed slot, blamed→conflicting)
      where
        blamed→conflicting :
            Blamed tables
              (resolve_allocator_provenance tables).parameter_class
              (resolve_allocator_provenance tables).disagreements
              slot
            → get_or (resolve_allocator_provenance tables).parameter_class slot unset ≡ conflicting
        blamed→conflicting (inl named) =
            subst_any
              (λ i.
                get_or (resolve_allocator_provenance tables).parameter_class i unset ≡ conflicting)
              slot (resolve_allocator_provenance tables).disagreements
              (unfold resolve_allocator_provenance in final-Inv.settled) named
        blamed→conflicting (inr (row, (source, flow, below))) =
            conflicting-top _
              (Below-trans _ _ _ below (resolve-IsFixed tables row slot source flow))
