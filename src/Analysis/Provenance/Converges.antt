-- ===== src/Analysis/Provenance/Converges.antt =====
-- The fixed point of crates/zag-analysis/src/provenance.rs is reached within the round limit: a
-- round that changes something raises a class, and there are two steps for each parameter.
use zag.Prelude.{
  ℕ, zero, suc, ◌+◌, ◌*◌, ◌≤◌, ◌<◌, ◌≡◌, ◌≢◌, ◌⊎◌, inl, inr, refl, true, false, some, arith, length,
  get_or, length-set, length-replicate, Bool-cases, Option-cases,
}
use zag.Facts.Tables.{Tables}
use zag.Facts.Access.{parameter_count}
use zag.Analysis.Provenance.{
  AllocatorClass, unset, same_class, join, State, global_parameter_index, argument_flow,
  raise_class, merge_class, visit_argument, visit_from, round, rounds, initial, round_limit,
  resolve_allocator_provenance,
}
use zag.Analysis.Provenance.Lattice.{rank-join, total, total-le, total-set}

pub global_parameter_index-lt :
    (tables : Tables) (function parameter_index slot : ℕ)
    → global_parameter_index tables function parameter_index ≡ some slot
    → slot < parameter_count tables.parameters
unfolding global_parameter_index
global_parameter_index-lt tables function parameter_index slot h = ground arith

pub argument_flow-lt :
    (tables : Tables) (row slot source : ℕ)
    → argument_flow tables row ≡ some (slot, source)
    → slot < parameter_count tables.parameters
unfolding argument_flow
argument_flow-lt tables row slot source h = grind (arith, global_parameter_index-lt)

pub same_class_iff : (a b : AllocatorClass) → same_class a b ≡ true → a ≡ b
same_class_iff a b h = ground arith

pub same_class-ne : (a b : AllocatorClass) → same_class a b ≡ false → a ≢ b
same_class-ne a b h = ground arith

-- What a step may do: keep everything, or raise the classes and say so.
pub record Advances (s s' : State) : Type 0 where
  pub size : length s'.parameter_class ≡ length s.parameter_class
  pub grows : total s.parameter_class ≤ total s'.parameter_class
  pub moved :
      s'.changed ≡ true → (s.changed ≡ true) ⊎ (total s.parameter_class < total s'.parameter_class)
  pub still : s'.changed ≡ false → s' ≡ s

Advances-refl : (s : State) → Advances s s
Advances-refl s = record { size = refl; grows = omega arith; moved = inl; still = λ _. refl }

Advances-trans : (s t u : State) → Advances s t → Advances t u → Advances s u
Advances-trans s t u a b = record {
  size = omega (arith, a.size, b.size);
  grows = omega (arith, a.grows, b.grows);
  moved = λ h. ground (arith, a.grows, b.grows, a.moved, b.moved);
  still = λ h. ground (arith, a.still, b.still h);
}

raise_class-Advances :
    (row slot : ℕ) (contributed : AllocatorClass) (s : State)
    → slot < length s.parameter_class
    → join (get_or s.parameter_class slot unset) contributed ≢ get_or s.parameter_class slot unset
    → Advances s (raise_class row slot (get_or s.parameter_class slot unset) contributed s)
unfolding raise_class
raise_class-Advances row slot contributed s inside new =
    let held = get_or s.parameter_class slot unset in
    let raised =
      total-set s.parameter_class slot (join held contributed) (rank-join held contributed new)
        inside in
    record {
      size = length-set s.parameter_class slot (join held contributed);
      grows = omega (arith, raised);
      moved = λ _. inr raised;
      still = λ h. cc;
    }

merge_class-Advances :
    (row slot : ℕ) (contributed : AllocatorClass) (s : State)
    → slot < length s.parameter_class
    → Advances s (merge_class row slot (get_or s.parameter_class slot unset) contributed s)
merge_class-Advances row slot contributed s inside =
    let held = get_or s.parameter_class slot unset in
    elim (Bool-cases (same_class (join held contributed) held)) [
      | inl same ↦ unfold merge_class in rw same (Advances-refl s)
      | inr new ↦
          unfold merge_class in
          rw new (raise_class-Advances row slot contributed s inside (same_class-ne _ _ new))
    ]

module _ (tables : Tables) where
  abbrev pub IsSized : State → Type 0
  IsSized s = length s.parameter_class ≡ parameter_count tables.parameters

  pub visit_argument-Advances :
      (row : ℕ) (s : State) → IsSized s → Advances s (visit_argument tables row s)
  visit_argument-Advances row s sized = elim (Option-cases (argument_flow tables row)) [
    | inl absent ↦ unfold visit_argument in rw (absent, visit_argument) (Advances-refl s)
    | inr ((slot, source), flow) ↦
        unfold visit_argument in
        rw (flow, visit_argument)
          (merge_class-Advances row slot _ s
            (omega (arith, argument_flow-lt tables row slot source flow)))
  ]

  pub visit_from-Advances :
      (rows row : ℕ) (s : State) → IsSized s → Advances s (visit_from tables rows row s)
  unfolding visit_from
  visit_from-Advances zero row s sized = Advances-refl s
  visit_from-Advances (suc rows) row s sized =
      let step = visit_argument-Advances row s sized in
      Advances-trans s (visit_argument tables row s) _ step
        (visit_from-Advances rows (row + 1) _ (omega (arith, step.size)))

  pub round-Advances :
      (s : State) → IsSized s → Advances (record s { changed = false }) (round tables s)
  unfolding round
  round-Advances s sized =
      visit_from-Advances (length tables.call_arguments.call) 0 (record s { changed = false }) sized

  -- With a round left for each step up, the loop breaks off converged.
  pub rounds_converge :
      (left : ℕ) (s : State)
      → IsSized s
      → 2 * parameter_count tables.parameters < total s.parameter_class + left
      → (rounds tables left s).1 ≡ true
  unfolding rounds
  rounds_converge zero s sized h = absurd (omega (arith, total-le s.parameter_class))
  rounds_converge (suc left) s sized h =
      let step = round-Advances s sized in
      ground (arith, step.moved, step.size, rounds_converge left (round tables s))

  -- The loops keep a class for each parameter.
  rounds-IsSized : (left : ℕ) (s : State) → IsSized s → IsSized (rounds tables left s).0
  unfolding rounds
  rounds-IsSized zero s sized = sized
  rounds-IsSized (suc left) s sized =
      let next : IsSized (round tables s) = omega (arith, (round-Advances s sized).size) in
      elim (Bool-cases (round tables s).changed) [
        | inl more ↦ rw more (rounds-IsSized left (round tables s) next)
        | inr done ↦ rw done next
      ]

  pub initial-IsSized : IsSized (initial tables)
  unfolding initial
  initial-IsSized = length-replicate _ unset

-- On any tables the fixed point is reached within the round limit.
pub resolve_converges : (tables : Tables) → (resolve_allocator_provenance tables).converged ≡ true
unfolding resolve_allocator_provenance
resolve_converges tables =
    rounds_converge tables (round_limit tables) (initial tables) (initial-IsSized tables)
      (omega arith)

-- The result has a class for each parameter.
pub length-resolve :
    (tables : Tables)
    → length (resolve_allocator_provenance tables).parameter_class
      ≡ parameter_count tables.parameters
unfolding resolve_allocator_provenance
length-resolve tables =
    rounds-IsSized tables (round_limit tables) (initial tables) (initial-IsSized tables)
