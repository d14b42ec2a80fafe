-- ===== src/Analysis/Provenance/Blame.antt =====
-- The disagreements of crates/zag-analysis/src/provenance.rs: each names two call arguments that
-- differ, no parameter has two, and a conflicting parameter has one or a conflicting argument.
pub mod Merge
pub mod Resolve
use zag.Prelude.{
  ℕ, zero, suc, ◌+◌, ◌≤◌, ◌<◌, ◌≡◌, ◌≢◌, ◌⊎◌, inl, inr, refl, sym, ap, ◌∙◌, Bool, true, false,
  Option, none, some, List, [], ◌∷◌, ◌++◌, arith, length, get_or, get_elem?, set, Bool-cases,
  Option-cases, get_or-set_self, get_or-set_ne, get_or-set_rule, get_or-replicate, length-set,
  length-replicate, ◌==◌, All, All-append, All_imp, Any, Any-append_left, Any-append_right, as_u32,
  as_u32-eq_of_lt, u32_mod, ℕ_discrete, not, ◌&&◌, if◌then◌else◌,
}
use mathlib.Core.Path.{subst}
use zag.Facts.Handles.{no_index}
use zag.Facts.Tables.{Tables}
use zag.Facts.Access.{parameter_count}
use zag.Analysis.Provenance.{
  AllocatorClass, unset, global, arena, conflicting, same_class, join, State, Disagreement,
  argument_flow, is_disagreement, class_of_source, raise_class, merge_class, visit_argument, rounds,
  initial, round_limit, resolve_allocator_provenance,
}
use zag.Analysis.Provenance.Lattice.{Below, join_least, join_idem, Below-trans}
use zag.Analysis.Provenance.Converges.{same_class_iff, same_class-ne, argument_flow-lt}
use zag.Analysis.Provenance.Fixed.{rounds_rule, class_of_source_mono, join_unset, argument_flow-row}

abbrev pub ClassesBelow : List AllocatorClass → List AllocatorClass → Type 0
ClassesBelow a b = (slot : ℕ) → Below (get_or a slot unset) (get_or b slot unset)

-- No two disagreements are about one parameter.
abbrev pub Distinct : List Disagreement → Type 0
Distinct [] = Unit
Distinct (d ∷ ds) = All (λ e. e.parameter ≢ d.parameter) ds × Distinct ds

module _ (tables : Tables) where
  -- A call argument fills the parameter, and its source has a class that includes `a`.
  abbrev pub Contributes : List AllocatorClass → ℕ → ℕ → AllocatorClass → Type 0
  Contributes classes row slot a =
      (source : ℕ) × (argument_flow tables row ≡ some (slot, source))
      × Below a (class_of_source tables classes source)

  -- Both rows of a disagreement contribute what it says of them, and the two classes conflict.
  pub record Explained (classes : List AllocatorClass) (d : Disagreement) : Type 0 where
    pub first : Contributes classes d.first d.parameter d.first_class
    pub second : Contributes classes d.second d.parameter d.second_class
    pub first_known : d.first_class ≢ conflicting
    pub second_known : d.second_class ≢ conflicting
    pub conflict : join d.first_class d.second_class ≡ conflicting

  -- Why a parameter is conflicting: a disagreement about it, or a row that is conflicting itself.
  abbrev pub Blamed : List AllocatorClass → List Disagreement → ℕ → Type 0
  Blamed classes ds slot =
      Any (λ d. d.parameter ≡ slot) ds ⊎ ((row : ℕ) × Contributes classes row slot conflicting)

  pub record Inv (s : State) : Type 0 where
    pub sized : length s.parameter_class ≡ parameter_count tables.parameters
    pub witnesses : length s.witness ≡ parameter_count tables.parameters
    pub supported :
        (slot : ℕ)
        → get_or s.parameter_class slot unset ≢ unset
        → get_or s.parameter_class slot unset ≢ conflicting
        → Contributes s.parameter_class
            (get_or s.witness slot no_index)
            slot
            (get_or s.parameter_class slot unset)
    pub explained : All (Explained s.parameter_class) s.disagreements
    pub settled :
        All (λ d. get_or s.parameter_class d.parameter unset ≡ conflicting) s.disagreements
    pub once : Distinct s.disagreements
    pub blamed :
        (slot : ℕ)
        → get_or s.parameter_class slot unset ≡ conflicting
        → Blamed s.parameter_class s.disagreements slot

  pub Contributes_mono :
      (a b : List AllocatorClass) (row slot : ℕ) (c : AllocatorClass)
      → ClassesBelow a b
      → Contributes a row slot c
      → Contributes b row slot c
  Contributes_mono a b row slot c h (source, flow, below) =
      (source, flow, Below-trans _ _ _ below (class_of_source_mono tables a b source h))

  pub Explained-mono :
      (a b : List AllocatorClass) (d : Disagreement)
      → ClassesBelow a b
      → Explained a d
      → Explained b d
  Explained-mono a b d h e = record {
    first = Contributes_mono a b _ _ _ h e.first;
    second = Contributes_mono a b _ _ _ h e.second;
    first_known = e.first_known;
    second_known = e.second_known;
    conflict = e.conflict;
  }

  pub initial-Inv : Inv (initial tables)
  unfolding initial
  initial-Inv = record {
    sized = length-replicate _ unset;
    witnesses = length-replicate _ no_index;
    supported = λ slot h k. absurd (h (get_or-replicate _ unset slot));
    explained = tt;
    settled = tt;
    once = tt;
    blamed =
        λ slot h. absurd (cc (get_or-replicate (parameter_count tables.parameters) unset slot));
  }
