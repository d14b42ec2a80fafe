-- ===== src/Analysis/Provenance/Blame/Merge.antt =====
-- A merge of crates/zag-analysis/src/provenance.rs that changes a class keeps what is known of the
-- disagreements.
use zag.Prelude.{
  ℕ, ◌<◌, ◌≡◌, ◌≢◌, ◌⊎◌, inl, inr, sym, ◌∙◌, true, false, some, List, [], ◌∷◌, ◌++◌, arith, length,
  get_or, set, Bool-cases, get_or-set_self, get_or-set_ne, get_or-set_rule, length-set, All,
  All-append, All_imp, Any, Any-append_left, Any-append_right, as_u32, as_u32-eq_of_lt, u32_mod,
  ℕ_discrete,
}
use mathlib.Core.Path.{subst}
use zag.Facts.Handles.{no_index}
use zag.Facts.Tables.{Tables}
use zag.Facts.Access.{parameter_count}
use zag.Analysis.Provenance.{
  AllocatorClass, unset, conflicting, same_class, join, State, Disagreement, argument_flow,
  is_disagreement, class_of_source, raise_class,
}
use zag.Analysis.Provenance.Lattice.{Below, join_least, join_idem}
use zag.Analysis.Provenance.Converges.{same_class_iff, same_class-ne, argument_flow-lt}
use zag.Analysis.Provenance.Blame.{
  ClassesBelow, Distinct, Contributes, Explained, Blamed, Inv, Contributes_mono, Explained-mono,
}

join_first : (a b : AllocatorClass) → join a b ≢ a → join a b ≢ conflicting → join a b ≡ b
unfolding join
join_first a b new known = ground arith

pub conflicting-top : (a : AllocatorClass) → Below conflicting a → a ≡ conflicting
unfolding join
conflicting-top a h = ground arith

is_disagreement-parts :
    (a b : AllocatorClass)
    → is_disagreement a b ≡ true
    → (join a b ≡ conflicting) × (a ≢ unset) × (b ≢ conflicting)
unfolding is_disagreement
is_disagreement-parts a b h = (ground arith, ground arith, ground arith)

-- A merge that ends in a conflict and records nothing was given one.
is_disagreement-not :
    (a b : AllocatorClass)
    → is_disagreement a b ≡ false
    → join a b ≡ conflicting
    → join a b ≢ a
    → b ≡ conflicting
unfolding is_disagreement
is_disagreement-not a b h k new = ground arith

Distinct-append :
    (ds : List Disagreement) (d : Disagreement)
    → All (λ e. d.parameter ≢ e.parameter) ds
    → Distinct ds
    → Distinct (ds ++ d ∷ [])
Distinct-append [] d h k = (tt, tt)
Distinct-append (e ∷ ds) d h k = (
  All-append (λ x. x.parameter ≢ e.parameter) ds (d ∷ []) k.0 (h.0, tt),
  Distinct-append ds d h.1 k.1,
)

module _ (tables : Tables) where
  -- The merge of a call argument that changes its parameter's class.
  module _ (row slot source : ℕ) (s : State) (inv : Inv tables s)
      (flow : argument_flow tables row ≡ some (slot, source)) (row_fits : row < u32_mod)
      (slot_fits : slot < u32_mod)
      (new : join
          (get_or s.parameter_class slot unset)
          (class_of_source tables s.parameter_class source)
        ≢ get_or s.parameter_class slot unset) where
    abbrev pub held : AllocatorClass
    held = get_or s.parameter_class slot unset

    abbrev pub contributed : AllocatorClass
    contributed = class_of_source tables s.parameter_class source

    abbrev pub raised : State
    raised = raise_class row slot held contributed s

    abbrev pub classes' : List AllocatorClass
    classes' = set s.parameter_class slot (join held contributed)

    inside : slot < length s.parameter_class
    inside = omega (arith, inv.sized, argument_flow-lt tables row slot source flow)

    held-ne : held ≢ conflicting
    held-ne e = new (raise held contributed e)
      where
        raise : (a b : AllocatorClass) → a ≡ conflicting → join a b ≡ a
        raise a b e = unfold join in ground arith

    up : ClassesBelow s.parameter_class classes'
    up i =
        get_or-set_rule (Below (get_or s.parameter_class i unset)) s.parameter_class slot i
          (join held contributed) unset (join_idem _)
          (λ e.
            subst (λ j. Below (get_or s.parameter_class j unset) (join held contributed)) e
              (join_least held contributed contributed).0)

    mine : Contributes tables classes' row slot contributed
    mine =
        Contributes_mono tables s.parameter_class classes' row slot contributed up
          (source, flow, join_idem _)

    at_slot : get_or classes' slot unset ≡ join held contributed
    at_slot = get_or-set_self s.parameter_class slot (join held contributed) unset inside

    supported_slot :
        get_or classes' slot unset ≢ conflicting
        → Contributes tables classes'
            (get_or raised.witness slot no_index)
            slot
            (get_or classes' slot unset)
    unfolding raise_class
    supported_slot known = elim (Bool-cases (same_class (join held contributed) conflicting)) [
      | inl bad ↦ absurd (known (at_slot ∙ same_class_iff _ _ bad))
      | inr good ↦
          let fits : as_u32 row ≡ row = as_u32-eq_of_lt row row_fits in
          let first : join held contributed ≡ contributed =
            join_first held contributed new (same_class-ne _ _ good) in
          rw
            (
              good,
              get_or-set_self s.witness slot (as_u32 row) no_index
                  (omega (arith, inside, inv.sized, inv.witnesses)),
              fits,
              at_slot,
            )
            (subst (Contributes tables classes' row slot) (sym first) mine)
    ]

    supported_ne :
        (i : ℕ)
        → slot ≢ i
        → get_or classes' i unset ≢ unset
        → get_or classes' i unset ≢ conflicting
        → Contributes tables classes' (get_or raised.witness i no_index) i (get_or classes' i unset)
    unfolding raise_class
    supported_ne i other some_class known =
        let kept : get_or classes' i unset ≡ get_or s.parameter_class i unset =
          get_or-set_ne s.parameter_class slot i (join held contributed) unset other in
        let old = inv.supported i (λ e. some_class (kept ∙ e)) (λ e. known (kept ∙ e)) in
        let now = Contributes_mono tables s.parameter_class classes' _ _ _ up old in
        elim (Bool-cases (same_class (join held contributed) conflicting)) [
          | inl bad ↦ rw (bad, kept) now
          | inr good ↦
              rw (good, kept, get_or-set_ne s.witness slot i (as_u32 row) no_index other) now
        ]

    supported' :
        (i : ℕ)
        → get_or classes' i unset ≢ unset
        → get_or classes' i unset ≢ conflicting
        → Contributes tables classes' (get_or raised.witness i no_index) i (get_or classes' i unset)
    supported' i some_class known = elim (ℕ_discrete slot i) [
      | yes here ↦
          subst
            (λ j.
              get_or classes' j unset ≢ conflicting
              → Contributes tables classes' (get_or raised.witness j no_index) j
                  (get_or classes' j unset))
            here supported_slot known
      | no other ↦ supported_ne i other some_class known
    ]

    -- The disagreement that the merge records.
    abbrev pub recorded : Disagreement
    recorded = record {
      parameter = as_u32 slot;
      first = get_or s.witness slot no_index;
      second = as_u32 row;
      first_class = held;
      second_class = contributed;
    }

    abbrev pub IsRecorded : Type 0
    IsRecorded = is_disagreement held contributed ≡ true

    disagreements-cases :
        (IsRecorded × (raised.disagreements ≡ s.disagreements ++ recorded ∷ []))
        ⊎ ((is_disagreement held contributed ≡ false) × (raised.disagreements ≡ s.disagreements))
    unfolding raise_class
    disagreements-cases = elim (Bool-cases (is_disagreement held contributed)) [
      | inl h ↦ inl (h, rw h)
      | inr h ↦ inr (h, rw h)
    ]

    -- What holds of the old disagreements and of a recorded one holds of the new ones.
    All-raised :
        (P : Disagreement → Type 0)
        → All P s.disagreements
        → (IsRecorded → P recorded)
        → All P raised.disagreements
    All-raised P old last = elim disagreements-cases [
      | inl (h, e) ↦ rw e (All-append P s.disagreements (recorded ∷ []) old (last h, tt))
      | inr (h, e) ↦ rw e old
    ]

    same_slot : as_u32 slot ≡ slot
    same_slot = as_u32-eq_of_lt slot slot_fits

    recorded-Explained : IsRecorded → Explained tables classes' recorded
    recorded-Explained h =
        let (conflict, known, clean) = is_disagreement-parts held contributed h in
        record {
          first = rw same_slot (
              Contributes_mono tables s.parameter_class classes' _ _ _ up
                (inv.supported slot known held-ne));
          second = rw (same_slot, as_u32-eq_of_lt row row_fits) mine;
          first_known = held-ne;
          second_known = clean;
          conflict = conflict;
        }

    settled' : All (λ d. get_or classes' d.parameter unset ≡ conflicting) raised.disagreements
    settled' =
        All-raised (λ d. get_or classes' d.parameter unset ≡ conflicting)
          (All_imp _ _ s.disagreements
            (λ d h.
              conflicting-top _
                (subst (λ a. Below a (get_or classes' d.parameter unset)) h (up d.parameter)))
            inv.settled)
          (λ h. rw same_slot (at_slot ∙ (is_disagreement-parts held contributed h).0))

    once' : Distinct raised.disagreements
    once' = elim disagreements-cases [
      | inl (h, e) ↦ rw e (
          Distinct-append s.disagreements recorded
            (All_imp _ _ s.disagreements
              (λ d h e.
                held-ne (
                  subst (λ i. get_or s.parameter_class i unset ≡ conflicting) (sym e ∙ same_slot)
                    h))
              inv.settled)
            inv.once)
      | inr (h, e) ↦ rw e inv.once
    ]

    Blamed-slot :
        join held contributed ≡ conflicting → Blamed tables classes' raised.disagreements slot
    Blamed-slot h = elim disagreements-cases [
      | inl (k, e) ↦ inl (
          rw e (
            Any-append_right (λ d. d.parameter ≡ slot) s.disagreements (recorded ∷ [])
              (inl same_slot)))
      | inr (k, e) ↦ inr (
        row,
        subst (Contributes tables classes' row slot) (is_disagreement-not held contributed k h new)
            mine,
      )
    ]

    Any-raised :
        (i : ℕ)
        → Any (λ d. d.parameter ≡ i) s.disagreements
        → Any (λ d. d.parameter ≡ i) raised.disagreements
    Any-raised i old = elim disagreements-cases [
      | inl (k, e) ↦
          rw e (Any-append_left (λ d. d.parameter ≡ i) s.disagreements (recorded ∷ []) old)
      | inr (k, e) ↦ rw e old
    ]

    blamed' :
        (i : ℕ)
        → get_or classes' i unset ≡ conflicting
        → Blamed tables classes' raised.disagreements i
    blamed' i h = elim (ℕ_discrete slot i) [
      | yes here ↦ subst (Blamed tables classes' raised.disagreements) here (
          Blamed-slot
            (sym at_slot ∙ subst (λ j. get_or classes' j unset ≡ conflicting) (sym here) h))
      | no other ↦
          let kept = get_or-set_ne s.parameter_class slot i (join held contributed) unset other in
          elim (inv.blamed i (sym kept ∙ h)) [
            | inl named ↦ inl (Any-raised i named)
            | inr (r, c) ↦ inr (r, Contributes_mono tables s.parameter_class classes' _ _ _ up c)
          ]
    ]

    pub raised-Inv : Inv tables raised
    unfolding raise_class
    raised-Inv = record {
      sized = length-set s.parameter_class slot _ ∙ inv.sized;
      witnesses = witnesses';
      supported = supported';
      explained =
          All-raised (Explained tables classes')
            (All_imp _ _ s.disagreements
              (λ d. Explained-mono tables s.parameter_class classes' d up) inv.explained)
            recorded-Explained;
      settled = settled';
      once = once';
      blamed = blamed';
    }
      where
        witnesses' : length raised.witness ≡ parameter_count tables.parameters
        witnesses' = elim (Bool-cases (same_class (join held contributed) conflicting)) [
          | inl bad ↦ rw bad inv.witnesses
          | inr good ↦ rw good (length-set s.witness slot _ ∙ inv.witnesses)
        ]
