-- ===== src/Facts/Validate/Rows.antt =====
-- The loops over rows in crates/zag-facts/src/validate.rs that read other columns at the row.
use zag.Prelude.{
  ℕ, zero, suc, ◌+◌, ◌<◌, ◌≡◌, ◌≢◌, ◌↔◌, inl, inr, refl, sym, ◌∙◌, false, not, ◌&&◌, Option, none,
  some, List, [], ◌∷◌, arith, if◌then◌else◌, get_elem?, Option-cases,
}
use mathlib.Core.Option.{some-injective}
use mathlib.Core.Path.{subst}
use zag.Facts.Handles.{no_index}
use zag.Facts.Kinds.{AllocatorSourceKind, PlaceKind}
use zag.Facts.Tables.{Tables}
use zag.Facts.Validate.{Violation, parameter_index_out_of_range, place_without_field}
use zag.Facts.Validate.Checks.{
  add_if, is_place_of_parameter, names_a_field, check_places_from, names_a_parameter,
  is_parameter_source, check_index, check_sources_from, check_arguments_from,
}
use zag.Facts.Validate.Clean.{Clean, Clean-then, Clean-iff, Clean-same, Clean-add_if}

module _ {A : Type 0} (T : ℕ → A → Type 0) where
  -- What a loop finds of each row, from a row on.
  EachFrom : ℕ → List A → Type 0
  EachFrom row [] = Unit
  EachFrom row (x ∷ xs) = T row x × EachFrom (row + 1) xs

  Each-get :
      (row : ℕ) (xs : List A) (i : ℕ) (x : A)
      → EachFrom row xs
      → get_elem? xs i ≡ some x
      → T (row + i) x
  unfolding EachFrom
  Each-get row [] i x h e = cc
  Each-get row (y ∷ xs) zero x h e =
      let here : row ≡ row + 0 = omega arith in
      subst (λ k. T k x) here (subst (T row) (some-injective y x e) h.0)
  Each-get row (y ∷ xs) (suc i) x h e =
      let there : row + 1 + i ≡ row + suc i = omega arith in
      subst (λ k. T k x) there (Each-get (row + 1) xs i x h.1 e)

  Each-of :
      (row : ℕ) (xs : List A)
      → ((i : ℕ) (x : A) → get_elem? xs i ≡ some x → T (row + i) x)
      → EachFrom row xs
  unfolding EachFrom
  Each-of row [] h = tt
  Each-of row (x ∷ xs) h =
      let here : row + 0 ≡ row = omega arith in
      (
        subst (λ k. T k x) here (h 0 x refl),
        Each-of (row + 1) xs (λ i y e.
            let there : row + suc i ≡ row + 1 + i = omega arith in
            subst (λ k. T k y) there (h (suc i) y e)),
      )

  Each_iff :
      (xs : List A) → EachFrom 0 xs ↔ ((row : ℕ) (x : A) → get_elem? xs row ≡ some x → T row x)
  Each_iff xs = (
    λ h row x e.
        let at : 0 + row ≡ row = omega arith in subst (λ k. T k x) at (Each-get 0 xs row x h e),
    λ h.
        Each-of 0 xs (λ i x e. let at : i ≡ 0 + i = omega arith in subst (λ k. T k x) at (h i x e)),
  )

-- The place names a field of the parameter.
abbrev pub NamesField : List ℕ → ℕ → Type 0
NamesField place_field row =
    (field : ℕ) × (get_elem? place_field row ≡ some field) × (field ≢ no_index)

abbrev pub PlaceNames : List ℕ → ℕ → PlaceKind → Type 0
PlaceNames place_field row place = place ≡ PlaceKind.field_of_parameter → NamesField place_field row

names_a_field_iff :
    (place_field : List ℕ) (row : ℕ)
    → (not (names_a_field place_field row) ≡ false) ↔ NamesField place_field row
unfolding names_a_field
names_a_field_iff place_field row = elim (Option-cases (get_elem? place_field row)) [
  | inl absent ↦
      (λ h. absurd (cc (rw (absent, names_a_field) at h)), λ h. absurd (cc (sym absent ∙ h.1)))
  | inr (field, e) ↦ (
    λ h. (field, e, ground arith),
    λ h. let same = some-injective field h.0 (sym e ∙ h.1) in ground arith,
  )
]

Clean-place :
    (place_field : List ℕ) (row : ℕ) (place : PlaceKind)
    → Clean
        (add_if
          (is_place_of_parameter place && not (names_a_field place_field row))
          (place_without_field row))
        (PlaceNames place_field row place)
Clean-place place_field row PlaceKind.field_of_parameter =
    Clean-iff _ _ _ (Clean-add_if (not (names_a_field place_field row)) _) (
      λ h e. (names_a_field_iff place_field row).0 h,
      λ h. (names_a_field_iff place_field row).1 (h refl),
    )
Clean-place place_field row PlaceKind.local =
    Clean-iff _ _ _ (Clean-add_if false (place_without_field row)) (λ h e. absurd (cc e), λ h. refl)
Clean-place place_field row PlaceKind.unknown =
    Clean-iff _ _ _ (Clean-add_if false (place_without_field row)) (λ h e. absurd (cc e), λ h. refl)

Clean-check_places_from :
    (place_field : List ℕ) (places : List PlaceKind) (row : ℕ)
    → Clean
        (check_places_from place_field places row)
        (EachFrom (PlaceNames place_field) row places)
unfolding check_places_from EachFrom
Clean-check_places_from place_field [] row violations = Clean-same violations
Clean-check_places_from place_field (place ∷ places) row violations =
    Clean-then
      (add_if (is_place_of_parameter place && not (names_a_field place_field row))
        (place_without_field row))
      (check_places_from place_field places (row + 1)) _ _ (Clean-place place_field row place)
      (Clean-check_places_from place_field places (row + 1)) violations

pub Clean-places :
    (place_field : List ℕ) (places : List PlaceKind)
    → Clean (check_places_from place_field places 0) (
        (row : ℕ) (place : PlaceKind)
        → get_elem? places row ≡ some place
        → PlaceNames place_field row place)
Clean-places place_field places =
    Clean-iff _ _ _ (Clean-check_places_from place_field places 0)
      (Each_iff (PlaceNames place_field) places)

module _ (tables : Tables) where
  -- The function has a parameter at the index.
  abbrev pub NamesParameter : ℕ → ℕ → Type 0
  NamesParameter function index =
      (count : ℕ) × (get_elem? tables.functions.parameter_count function ≡ some count)
      × (index < count)

  names_a_parameter_iff :
      (function index : ℕ)
      → (not (names_a_parameter tables function index) ≡ false) ↔ NamesParameter function index
  unfolding names_a_parameter
  names_a_parameter_iff function index =
      elim (Option-cases (get_elem? tables.functions.parameter_count function)) [
        | inl absent ↦ (
          λ h. absurd (cc (rw (absent, names_a_parameter) at h)),
          λ h. absurd (cc (sym absent ∙ h.1)),
        )
        | inr (count, e) ↦ (
          λ h. (count, e, ground arith),
          λ h. let same = some-injective count h.0 (sym e ∙ h.1) in ground arith,
        )
      ]

  abbrev pub IndexNames : Option ℕ → Option ℕ → Type 0
  IndexNames function index = (f i : ℕ) → function ≡ some f → index ≡ some i → NamesParameter f i

  Clean-check_index :
      (violation : ℕ → ℕ → Violation) (function index : Option ℕ)
      → Clean (check_index tables violation function index) (IndexNames function index)
  unfolding check_index
  Clean-check_index violation none index =
      Clean-iff _ _ _ Clean-same (λ h f i e e'. absurd (cc e), λ h. tt)
  Clean-check_index violation (some function) none =
      Clean-iff _ _ _ Clean-same (λ h f i e e'. absurd (cc e'), λ h. tt)
  Clean-check_index violation (some function) (some index) =
      Clean-iff _ _ _ (Clean-add_if (not (names_a_parameter tables function index)) _) (
        λ h f i e e'.
            subst (λ f. NamesParameter f i) (some-injective function f e)
              (subst (NamesParameter function) (some-injective index i e')
                ((names_a_parameter_iff function index).0 h)),
        λ h. (names_a_parameter_iff function index).1 (h function index refl refl),
      )

  abbrev pub SourceNames : ℕ → AllocatorSourceKind → Type 0
  SourceNames row kind =
      kind ≡ AllocatorSourceKind.parameter
      → IndexNames (get_elem? tables.allocator_sources.function row)
          (get_elem? tables.allocator_sources.parameter_index row)

  Clean-source :
      (row : ℕ) (kind : AllocatorSourceKind)
      → Clean
          (λ violations.
            if is_parameter_source kind
            then check_index tables
                (parameter_index_out_of_range "allocator_sources" row)
                (get_elem? tables.allocator_sources.function row)
                (get_elem? tables.allocator_sources.parameter_index row)
                violations
            else violations)
          (SourceNames row kind)
  Clean-source row AllocatorSourceKind.parameter =
      Clean-iff _ _ _ (Clean-check_index _ _ _) (λ h e. h, λ h. h refl)
  Clean-source row AllocatorSourceKind.global =
      Clean-iff _ _ _ Clean-same (λ h e. absurd (cc e), λ h. tt)
  Clean-source row AllocatorSourceKind.arena =
      Clean-iff _ _ _ Clean-same (λ h e. absurd (cc e), λ h. tt)
  Clean-source row AllocatorSourceKind.unknown =
      Clean-iff _ _ _ Clean-same (λ h e. absurd (cc e), λ h. tt)

  Clean-check_sources_from :
      (kinds : List AllocatorSourceKind) (row : ℕ)
      → Clean (check_sources_from tables kinds row) (EachFrom SourceNames row kinds)
  unfolding check_sources_from EachFrom
  Clean-check_sources_from [] row violations = Clean-same violations
  Clean-check_sources_from (kind ∷ kinds) row violations =
      Clean-then _ (check_sources_from tables kinds (row + 1)) _ _ (Clean-source row kind)
        (Clean-check_sources_from kinds (row + 1)) violations

  pub Clean-sources :
      (kinds : List AllocatorSourceKind)
      → Clean (check_sources_from tables kinds 0) (
          (row : ℕ) (kind : AllocatorSourceKind)
          → get_elem? kinds row ≡ some kind
          → SourceNames row kind)
  Clean-sources kinds =
      Clean-iff _ _ _ (Clean-check_sources_from kinds 0) (Each_iff SourceNames kinds)

  abbrev pub ArgumentNames : ℕ → ℕ → Type 0
  ArgumentNames row call =
      IndexNames (get_elem? tables.calls.callee call)
        (get_elem? tables.call_arguments.parameter_index row)

  Clean-check_arguments_from :
      (calls : List ℕ) (row : ℕ)
      → Clean (check_arguments_from tables calls row) (EachFrom ArgumentNames row calls)
  unfolding check_arguments_from EachFrom
  Clean-check_arguments_from [] row violations = Clean-same violations
  Clean-check_arguments_from (call ∷ calls) row violations =
      Clean-then _ (check_arguments_from tables calls (row + 1)) _ _
        (Clean-check_index (parameter_index_out_of_range "call_arguments" row)
          (get_elem? tables.calls.callee call)
          (get_elem? tables.call_arguments.parameter_index row))
        (Clean-check_arguments_from calls (row + 1)) violations

  pub Clean-arguments :
      (calls : List ℕ)
      → Clean
          (check_arguments_from tables calls 0)
          ((row call : ℕ) → get_elem? calls row ≡ some call → ArgumentNames row call)
  Clean-arguments calls =
      Clean-iff _ _ _ (Clean-check_arguments_from calls 0) (Each_iff ArgumentNames calls)
