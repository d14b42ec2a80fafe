-- ===== src/Analysis/Provenance/Fixed.antt =====
-- The result of crates/zag-analysis/src/provenance.rs is the least assignment of classes that no
-- call argument changes.
use zag.Prelude.{
  ℕ, zero, suc, ◌+◌, ◌≤◌, ◌<◌, ◌≡◌, inl, inr, refl, sym, ap, ◌∙◌, ℕ_discrete, true, false, some,
  List, arith, length, get_or, get_elem?, Bool-cases, Option-cases, lt-length_of_get_elem?,
  get_or-set_rule, get_or-replicate,
}
use mathlib.Core.Path.{subst}
use zag.Facts.Tables.{Tables}
use zag.Facts.Access.{parameter_count}
use zag.Analysis.Provenance.{
  AllocatorClass, unset, same_class, join, State, argument_flow, class_of_source, source_slot,
  raise_class, merge_class, visit_argument, visit_from, round, rounds, initial, round_limit,
  resolve_allocator_provenance,
}
use zag.Analysis.Provenance.Lattice.{Below, join_least, join_comm, Below-trans}
use zag.Analysis.Provenance.Converges.{
  visit_argument-Advances, visit_from-Advances, round-Advances, IsSized, initial-IsSized,
  resolve_converges, same_class_iff,
}

merge_class_still :
    (row slot : ℕ) (held contributed : AllocatorClass) (s : State)
    → (merge_class row slot held contributed s).changed ≡ false
    → join held contributed ≡ held
merge_class_still row slot held contributed s h =
    elim (Bool-cases (same_class (join held contributed) held)) [
      | inl same ↦ same_class_iff _ _ same
      | inr new ↦ absurd (unfold merge_class raise_class in cc (rw (new, merge_class) at h))
    ]

pub join_unset : (a : AllocatorClass) → Below unset a
unfolding join
join_unset a = refl

merge_class-Below :
    (classes : List AllocatorClass) (row slot : ℕ) (contributed : AllocatorClass) (s : State)
    (slot' : ℕ)
    → ((i : ℕ) → Below (get_or s.parameter_class i unset) (get_or classes i unset))
    → Below contributed (get_or classes slot unset)
    → Below
        (get_or
          (merge_class row slot (get_or s.parameter_class slot unset) contributed s).parameter_class
          slot'
          unset)
        (get_or classes slot' unset)
merge_class-Below classes row slot contributed s slot' below above =
    let held = get_or s.parameter_class slot unset in
    let up = (join_least held contributed (get_or classes slot unset)).2 (below slot) above in
    elim (Bool-cases (same_class (join held contributed) held)) [
      | inl same ↦ unfold merge_class in rw same (below slot')
      | inr new ↦
          unfold merge_class raise_class in
          rw new (
            get_or-set_rule (λ a. Below a (get_or classes slot' unset)) s.parameter_class slot slot'
              (join held contributed) unset (below slot')
              (λ e. subst (λ i. Below (join held contributed) (get_or classes i unset)) e up))
    ]

module _ (tables : Tables) where
  -- A property that one call argument keeps, and the reset of the flag, holds at the end.
  module _ {ℓ} (P : State → Type ℓ)
      (visit : (row : ℕ) (s : State) → P s → P (visit_argument tables row s))
      (reset : (s : State) → P s → P (record s { changed = false })) where
    visit_from_rule : (rows row : ℕ) (s : State) → P s → P (visit_from tables rows row s)
    unfolding visit_from
    visit_from_rule zero row s p = p
    visit_from_rule (suc rows) row s p = visit_from_rule rows (row + 1) _ (visit row s p)

    pub rounds_rule : (left : ℕ) (s : State) → P s → P (rounds tables left s).0
    unfolding rounds round
    rounds_rule zero s p = p
    rounds_rule (suc left) s p =
        let next = visit_from_rule (length tables.call_arguments.call) 0 _ (reset s p) in
        let s' = round tables s in
        elim (Bool-cases s'.changed) [
          | inl more ↦ rw more (rounds_rule left s' next)
          | inr done ↦ rw done next
        ]

  -- The assignment that no call argument changes.
  abbrev pub IsFixed : List AllocatorClass → Type 0
  IsFixed classes =
      (row slot source : ℕ)
      → argument_flow tables row ≡ some (slot, source)
      → Below (class_of_source tables classes source) (get_or classes slot unset)

  visit_argument_still :
      (row slot source : ℕ) (s : State)
      → argument_flow tables row ≡ some (slot, source)
      → (visit_argument tables row s).changed ≡ false
      → Below
          (class_of_source tables s.parameter_class source)
          (get_or s.parameter_class slot unset)
  visit_argument_still row slot source s flow h =
      let held = get_or s.parameter_class slot unset in
      let contributed = class_of_source tables s.parameter_class source in
      join_comm contributed held
      ∙ merge_class_still row slot held contributed s
          (unfold visit_argument in rw (flow, visit_argument) at h)

  pub argument_flow-row :
      (row slot source : ℕ)
      → argument_flow tables row ≡ some (slot, source)
      → row < length tables.call_arguments.call
  argument_flow-row row slot source flow =
      elim (Option-cases (get_elem? tables.call_arguments.call row)) [
        | inl absent ↦ absurd (unfold argument_flow in cc (rw (absent, argument_flow) at flow))
        | inr (call, present) ↦ lt-length_of_get_elem? _ row present
      ]

  -- A stretch of rows that leaves the flag down changes nothing, and no row of it would.
  visit_from_still :
      (rows row : ℕ) (s : State)
      → IsSized tables s
      → (visit_from tables rows row s).changed ≡ false
      → (i slot source : ℕ) → row ≤ i
      → i < row + rows
      → argument_flow tables i ≡ some (slot, source)
      → Below
          (class_of_source tables s.parameter_class source)
          (get_or s.parameter_class slot unset)
  unfolding visit_from
  visit_from_still zero row s sized h i slot source lo hi flow = absurd (omega arith)
  visit_from_still (suc rows) row s sized h i slot source lo hi flow =
      let h' : (visit_from tables rows (row + 1) (visit_argument tables row s)).changed ≡ false =
        h in
      let first = visit_argument-Advances tables row s sized in
      let later =
        visit_from-Advances tables rows (row + 1) (visit_argument tables row s)
          (omega (arith, first.size)) in
      let down : (visit_argument tables row s).changed ≡ false =
        ap State.changed (sym (later.still h)) ∙ h in
      let kept = first.still down in
      elim (ℕ_discrete i row) [
        | yes here ↦ visit_argument_still row slot source s (rw here at flow) down
        | no other ↦
            visit_from_still rows (row + 1) s sized (rw kept at h') i slot source (omega arith)
              (omega arith) flow
      ]

  rounds-IsFixed :
      (left : ℕ) (s : State)
      → IsSized tables s
      → (rounds tables left s).1 ≡ true
      → IsFixed (rounds tables left s).0.parameter_class
  unfolding rounds round
  rounds-IsFixed zero s sized h = cc
  rounds-IsFixed (suc left) s sized h =
      let step = round-Advances tables s sized in
      elim (Bool-cases (round tables s).changed) [
        | inl more ↦
            rw more (rounds-IsFixed left (round tables s) (omega (arith, step.size)) (rw more at h))
        | inr done ↦
            rw (done, step.still done)
              λ row slot source flow.
                visit_from_still (length tables.call_arguments.call) 0
                  (record s { changed = false }) sized done row slot source (omega arith)
                  (omega (arith, argument_flow-row row slot source flow)) flow
      ]

  -- Raising a list of classes raises what a source contributes.
  pub class_of_source_mono :
      (a b : List AllocatorClass) (source : ℕ)
      → ((slot : ℕ) → Below (get_or a slot unset) (get_or b slot unset))
      → Below (class_of_source tables a source) (class_of_source tables b source)
  unfolding class_of_source join
  class_of_source_mono a b source h = elim (Option-cases (source_slot tables source)) [
    | inl absent ↦ ground arith
    | inr (slot, e) ↦ ground (arith, h slot)
  ]

  -- Under a fixed assignment every call argument keeps the classes below it.
  visit_argument-Below :
      (classes : List AllocatorClass)
      → IsFixed classes
      → (row : ℕ) (s : State)
      → ((slot : ℕ) → Below (get_or s.parameter_class slot unset) (get_or classes slot unset))
      → (slot : ℕ)
      → Below
          (get_or (visit_argument tables row s).parameter_class slot unset)
          (get_or classes slot unset)
  visit_argument-Below classes fixed row s below slot' =
      elim (Option-cases (argument_flow tables row)) [
        | inl absent ↦ unfold visit_argument in rw (absent, visit_argument) (below slot')
        | inr ((slot, source), flow) ↦
            unfold visit_argument in
            rw (flow, visit_argument)
              (merge_class-Below classes row slot (class_of_source tables s.parameter_class source)
                s slot' below
                (Below-trans _ _ _ (class_of_source_mono s.parameter_class classes source below)
                  (fixed row slot source flow)))
      ]

  resolve_reaches :
      (left : ℕ) (s : State) (classes : List AllocatorClass)
      → IsFixed classes
      → ((slot : ℕ) → Below (get_or s.parameter_class slot unset) (get_or classes slot unset))
      → (slot : ℕ)
      → Below
          (get_or (rounds tables left s).0.parameter_class slot unset)
          (get_or classes slot unset)
  resolve_reaches left s classes fixed below =
      rounds_rule
        (λ s. (slot : ℕ) → Below (get_or s.parameter_class slot unset) (get_or classes slot unset))
        (visit_argument-Below classes fixed) (λ s p. p) left s below

  -- At the end no call argument contributes a class that its parameter does not already include.
  pub resolve-IsFixed : IsFixed (resolve_allocator_provenance tables).parameter_class
  unfolding resolve_allocator_provenance
  resolve-IsFixed =
      rounds-IsFixed (round_limit tables) (initial tables) (initial-IsSized tables)
        (resolve_converges tables)

  -- Of the assignments that no call argument changes, the result is the least.
  pub resolve_least :
      (classes : List AllocatorClass)
      → IsFixed classes
      → (slot : ℕ)
      → Below
          (get_or (resolve_allocator_provenance tables).parameter_class slot unset)
          (get_or classes slot unset)
  unfolding resolve_allocator_provenance initial
  resolve_least classes fixed =
      resolve_reaches (round_limit tables) (initial tables) classes fixed (λ slot.
        rw (get_or-replicate (parameter_count tables.parameters) unset slot) (join_unset _))
