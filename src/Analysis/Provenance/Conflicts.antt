-- ===== src/Analysis/Provenance/Conflicts.antt =====
-- Which classes crates/zag-analysis/src/provenance.rs gives to parameters by the kinds of the sources
-- that calls hand them.
use zag.Prelude.{
  ℕ, zero, suc, List, [], ◌∷◌, ◌<◌, ◌≡◌, ◌⊎◌, inl, inr, refl, ap, ◌∙◌, some, arith, length,
  get_elem?, get_or,
}
use mathlib.Core.Path.{subst}
use zag.Facts.Handles.{AllocatorSourceId}
use zag.Facts.Kinds.{AllocatorSourceKind}
use zag.Facts.Tables.{Tables}
use zag.Analysis.Provenance.{
  AllocatorClass, unset, global, arena, conflicting, join, argument_flow, class_of_source,
  resolve_allocator_provenance,
}
use zag.Analysis.Provenance.Lattice.{Below}
use zag.Analysis.Provenance.Converges.{argument_flow-lt, length-resolve}
use zag.Analysis.Provenance.Fixed.{resolve-IsFixed}

get_elem?-get_or :
    (xs : List AllocatorClass) (i : ℕ) → i < length xs → get_elem? xs i ≡ some (get_or xs i unset)
get_elem?-get_or [] i h = absurd (omega arith)
get_elem?-get_or (x ∷ xs) zero h = refl
get_elem?-get_or (x ∷ xs) (suc i) h = get_elem?-get_or xs i (omega arith)

-- A call argument hands the slot a source of the kind.
abbrev pub Handed : Tables → AllocatorSourceKind → ℕ → Type 0
Handed tables kind slot =
    (row : ℕ) × (source : AllocatorSourceId) × (argument_flow tables row ≡ some (slot, source))
    × (get_elem? tables.allocator_sources.kind source ≡ some kind)

-- What a kind says of a source's class, on any classes.
class_of_kind :
    (tables : Tables) (classes : List AllocatorClass) (source : AllocatorSourceId)
    → (get_elem? tables.allocator_sources.kind source ≡ some AllocatorSourceKind.unknown
        → class_of_source tables classes source ≡ conflicting)
      × (get_elem? tables.allocator_sources.kind source ≡ some AllocatorSourceKind.global
          → class_of_source tables classes source ≡ global)
      × (get_elem? tables.allocator_sources.kind source ≡ some AllocatorSourceKind.arena
          → class_of_source tables classes source ≡ arena)
unfolding class_of_source
class_of_kind tables classes source = (
  λ e. rw (e, class_of_source) refl,
  λ e. rw (e, class_of_source) refl,
  λ e. rw (e, class_of_source) refl,
)

-- Only a conflict is over a conflict, and over both the global allocator and an arena.
conflict_of :
    (a : AllocatorClass) → Below conflicting a ⊎ (Below global a × Below arena a) → a ≡ conflicting
unfolding join
conflict_of a h = ground (arith, h)

-- A parameter that a call hands an unknown allocator, or that calls hand both the global allocator
-- and an arena, ends conflicting.
pub resolve_conflicts :
    (tables : Tables) (slot : ℕ)
    → Handed tables AllocatorSourceKind.unknown slot
      ⊎ (Handed tables AllocatorSourceKind.global slot
          × Handed tables AllocatorSourceKind.arena slot)
    → get_elem? (resolve_allocator_provenance tables).parameter_class slot ≡ some conflicting
resolve_conflicts tables slot handed =
    let classes = (resolve_allocator_provenance tables).parameter_class in
    let held : (row source : ℕ)
        → argument_flow tables row ≡ some (slot, source)
        → get_elem? classes slot ≡ some (get_or classes slot unset) =
      λ row source flow.
        get_elem?-get_or classes slot
          (omega (arith, argument_flow-lt tables row slot source flow, length-resolve tables)) in
    elim handed [
      | inl (row, source, flow, e) ↦
          let below =
            subst (λ c. Below c (get_or classes slot unset))
              ((class_of_kind tables classes source).0 e)
              (resolve-IsFixed tables row slot source flow) in
          held row source flow ∙ ap some (conflict_of _ (inl below))
      | inr ((row, source, flow, e), (row', source', flow', e')) ↦
          let below =
            subst (λ c. Below c (get_or classes slot unset))
              ((class_of_kind tables classes source).1 e)
              (resolve-IsFixed tables row slot source flow) in
          let below' =
            subst (λ c. Below c (get_or classes slot unset))
              ((class_of_kind tables classes source').2 e')
              (resolve-IsFixed tables row' slot source' flow') in
          held row source flow ∙ ap some (conflict_of _ (inr (below, below')))
    ]
