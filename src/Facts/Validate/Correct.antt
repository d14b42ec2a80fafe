-- ===== src/Facts/Validate/Correct.antt =====
-- `validate` of crates/zag-facts/src/validate.rs accepts exactly the consistent tables.
use zag.Prelude.{
  ℕ, ◌<◌, ◌≡◌, ◌↔◌, inl, inr, refl, not, ◌||◌, List, [], ◌∷◌, arith, length, some, get_elem?,
  Follow, u32_mod, ◌==◌, Bool-cases,
}
use zag.Facts.Kinds.{AllocatorSourceKind, PlaceKind}
use zag.Facts.Tables.{Tables}
use zag.Facts.Access.{module_count, struct_count, field_count, function_count, parameter_count}
use zag.Facts.Validate.{
  Violation, field_range_mismatch, fields_not_grouped_by_owner, parameter_range_mismatch,
  no_root_module, unresolved_import_range_mismatch, calls_not_sorted_by_caller,
}
use zag.Facts.Validate.Checks.{
  check_strings, check_order, check_field_ranges, check_parameter_ranges, check_module_ranges,
  check_places, check_sources_from, check_arguments_from, check_parameter_indices, check_call_order,
  violations_of, ok, verdict, validate,
}
use zag.Facts.Validate.Clean.{Clean, Clean-then, Clean-iff, Clean-same, Clean-add_if}
use zag.Facts.Validate.Loops.{
  Covers, Clean-check_string_columns, Clean-check_order, Clean-ranges, ranges_keep, Ascends,
}
use zag.Facts.Validate.Rows.{
  SourceNames, ArgumentNames, PlaceNames, Clean-places, Clean-sources, Clean-arguments,
}
use zag.Facts.Validate.Consistent.{HasEqualColumns, HasHandles, IsConsistent, Named}
use zag.Facts.Validate.Handles.{Clean-check_column_lengths, Clean-check_handles}

-- No check takes a violation away.
abbrev Keeps : (List Violation → List Violation) → Type 0
Keeps check = (violations : List Violation) → check violations ≡ [] → violations ≡ []

Clean-Keeps : (check : List Violation → List Violation) (P : Type 0) → Clean check P → Keeps check
Clean-Keeps check P clean violations h = ((clean violations).0 h).0

no_rows : (xs : List ℕ) → length xs ≡ 0 → xs ≡ []
no_rows [] e = refl
no_rows (x ∷ xs) e = absurd (omega arith)

none-Named : (limit : ℕ) (xs : List ℕ) → limit ≡ 0 → Named limit xs → xs ≡ []
none-Named limit [] e h = refl
none-Named limit (x ∷ xs) e h = absurd (omega (arith, h.0))

module _ (tables : Tables) where
  Clean-check_strings :
      Clean (check_strings tables) (Covers tables.strings.offsets tables.strings.bytes)
  unfolding check_strings
  Clean-check_strings = Clean-check_string_columns tables.strings.bytes tables.strings.offsets

  check_field_ranges-Keeps : Keeps (check_field_ranges tables)
  unfolding check_field_ranges
  check_field_ranges-Keeps =
      ranges_keep field_range_mismatch tables.structs.field_start tables.structs.field_count
        (struct_count tables.structs) (field_count tables.fields)
        (check_order fields_not_grouped_by_owner tables.fields.owner) _
        (Clean-check_order fields_not_grouped_by_owner tables.fields.owner)
        (struct_count tables.structs)

  check_parameter_ranges-Keeps : Keeps (check_parameter_ranges tables)
  unfolding check_parameter_ranges
  check_parameter_ranges-Keeps =
      ranges_keep parameter_range_mismatch tables.functions.parameter_start
        tables.functions.parameter_count (function_count tables.functions)
        (parameter_count tables.parameters) (λ vs. vs) _ Clean-same
        (function_count tables.functions)

  check_module_ranges-Keeps : Keeps (check_module_ranges tables)
  unfolding check_module_ranges
  check_module_ranges-Keeps violations h = elim (Bool-cases (module_count tables.modules == 0)) [
    | inl empty ↦ Clean-Keeps _ _ (Clean-add_if _ no_root_module) violations (rw empty at h)
    | inr some_module ↦
        ranges_keep unresolved_import_range_mismatch tables.modules.unresolved_start
          tables.modules.unresolved_count (module_count tables.modules)
          (length tables.unresolved_imports.owner) (λ vs. vs) _ Clean-same
          (module_count tables.modules) violations (rw some_module at h)
  ]

  module _ (columns : HasEqualColumns tables) (handles : HasHandles tables) where
    Clean-check_field_ranges : Clean (check_field_ranges tables) (
        Follow 0 tables.structs.field_start tables.structs.field_count (field_count tables.fields)
        × (field_count tables.fields < u32_mod)
        × Ascends tables.fields.owner)
    unfolding check_field_ranges
    Clean-check_field_ranges =
        Clean-ranges field_range_mismatch tables.structs.field_start tables.structs.field_count
          (struct_count tables.structs) (field_count tables.fields)
          (check_order fields_not_grouped_by_owner tables.fields.owner) _
          (Clean-check_order fields_not_grouped_by_owner tables.fields.owner)
          (struct_count tables.structs) (omega (arith, columns.structs))
          (omega (arith, columns.structs))

    Clean-check_parameter_ranges : Clean (check_parameter_ranges tables) (
        Follow 0 tables.functions.parameter_start tables.functions.parameter_count
          (parameter_count tables.parameters)
        × (parameter_count tables.parameters < u32_mod)
        × Unit {0})
    unfolding check_parameter_ranges
    Clean-check_parameter_ranges =
        Clean-ranges parameter_range_mismatch tables.functions.parameter_start
          tables.functions.parameter_count (function_count tables.functions)
          (parameter_count tables.parameters) (λ vs. vs) _ Clean-same
          (function_count tables.functions) (omega (arith, columns.functions))
          (omega (arith, columns.functions))

    abbrev Imports : Type 0
    Imports =
        Follow 0 tables.modules.unresolved_start tables.modules.unresolved_count
          (length tables.unresolved_imports.owner)
        × (length tables.unresolved_imports.owner < u32_mod)
        × (module_count tables.modules ≡ 0
            → (struct_count tables.structs ≡ 0) × (function_count tables.functions ≡ 0))

    no_imports :
        module_count tables.modules ≡ 0
        → Follow 0 tables.modules.unresolved_start tables.modules.unresolved_count
            (length tables.unresolved_imports.owner)
          × (length tables.unresolved_imports.owner < u32_mod)
    no_imports e =
        rw
          (
            no_rows tables.modules.unresolved_start (omega (arith, e, columns.modules)),
            no_rows tables.modules.unresolved_count (omega (arith, e, columns.modules)),
            none-Named (module_count tables.modules) tables.unresolved_imports.owner e
                handles.unresolved_imports_owner,
          )
          (refl, omega arith)

    Clean-check_module_ranges : Clean (check_module_ranges tables) Imports
    unfolding check_module_ranges
    Clean-check_module_ranges violations = elim (Bool-cases (module_count tables.modules == 0)) [
      | inl empty ↦
          let zero_modules : module_count tables.modules ≡ 0 = ground arith in
          rw empty (
            Clean-iff _ _ _
              (Clean-add_if
                (not (struct_count tables.structs == 0)
                  || not (function_count tables.functions == 0))
                no_root_module)
              (
                λ h. ((no_imports zero_modules).0, (no_imports zero_modules).1, λ _. ground arith),
                λ h. let none = h.2 zero_modules in ground arith,
              )
              violations)
      | inr present ↦ rw present (
          Clean-iff _ _ _
            (Clean-ranges unresolved_import_range_mismatch tables.modules.unresolved_start
              tables.modules.unresolved_count (module_count tables.modules)
              (length tables.unresolved_imports.owner) (λ vs. vs) _ Clean-same
              (module_count tables.modules) (omega (arith, columns.modules))
              (omega (arith, columns.modules)))
            (λ h. (h.0, h.1, λ e. ground arith), λ h. (h.0, h.1, tt)) violations)
    ]

  Clean-check_parameter_indices : Clean (check_parameter_indices tables) (
      ((row : ℕ) (kind : AllocatorSourceKind)
        → get_elem? tables.allocator_sources.kind row ≡ some kind
        → SourceNames tables row kind)
      × ((row call : ℕ)
          → get_elem? tables.call_arguments.call row ≡ some call
          → ArgumentNames tables row call))
  unfolding check_parameter_indices
  Clean-check_parameter_indices =
      Clean-then (check_sources_from tables tables.allocator_sources.kind 0)
        (check_arguments_from tables tables.call_arguments.call 0) _ _
        (Clean-sources tables tables.allocator_sources.kind)
        (Clean-arguments tables tables.call_arguments.call)

  Clean-check_places : Clean (check_places tables) (
      (row : ℕ) (place : PlaceKind)
      → get_elem? tables.memory_operations.place row ≡ some place
      → PlaceNames tables.memory_operations.place_field row place)
  unfolding check_places
  Clean-check_places =
      Clean-places tables.memory_operations.place_field tables.memory_operations.place

  Clean-check_call_order : Clean (check_call_order tables) (Ascends tables.calls.caller)
  unfolding check_call_order
  Clean-check_call_order = Clean-check_order calls_not_sorted_by_caller tables.calls.caller

  found_none : violations_of tables ≡ [] → IsConsistent tables
  unfolding violations_of
  found_none none =
      let (none₈, calls) = (Clean-check_call_order _).0 none in
      let (none₇, places) = (Clean-check_places _).0 none₈ in
      let (none₆, (sources, arguments)) = (Clean-check_parameter_indices _).0 none₇ in
      let none₅ = check_module_ranges-Keeps _ none₆ in
      let none₄ = check_parameter_ranges-Keeps _ none₅ in
      let none₃ = check_field_ranges-Keeps _ none₄ in
      let (none₂, handles) = (Clean-check_handles tables _).0 none₃ in
      let (none₁, strings) = (Clean-check_strings _).0 none₂ in
      let (_, columns) = (Clean-check_column_lengths tables []).0 none₁ in
      let (_, field_ranges) = (Clean-check_field_ranges columns handles _).0 none₄ in
      let (_, parameter_ranges) = (Clean-check_parameter_ranges columns handles _).0 none₅ in
      let (_, module_ranges) = (Clean-check_module_ranges columns handles _).0 none₆ in
      record {
        columns = columns;
        strings = strings;
        handles = handles;
        fields = field_ranges.0;
        fields_fit = field_ranges.1;
        grouped = field_ranges.2;
        parameters = parameter_ranges.0;
        parameters_fit = parameter_ranges.1;
        imports = module_ranges.0;
        imports_fit = module_ranges.1;
        root = module_ranges.2;
        sources = sources;
        arguments = arguments;
        places = places;
        calls = calls;
      }

  finds_none : IsConsistent tables → violations_of tables ≡ []
  unfolding violations_of
  finds_none c =
      let none₁ = (Clean-check_column_lengths tables []).1 (refl, c.columns) in
      let none₂ = (Clean-check_strings _).1 (none₁, c.strings) in
      let none₃ = (Clean-check_handles tables _).1 (none₂, c.handles) in
      let none₄ =
        (Clean-check_field_ranges c.columns c.handles _).1
          (none₃, (c.fields, c.fields_fit, c.grouped)) in
      let none₅ =
        (Clean-check_parameter_ranges c.columns c.handles _).1
          (none₄, (c.parameters, c.parameters_fit, tt)) in
      let none₆ =
        (Clean-check_module_ranges c.columns c.handles _).1
          (none₅, (c.imports, c.imports_fit, c.root)) in
      let none₇ = (Clean-check_parameter_indices _).1 (none₆, (c.sources, c.arguments)) in
      let none₈ = (Clean-check_places _).1 (none₇, c.places) in
      (Clean-check_call_order _).1 (none₈, c.calls)

verdict_iff : (violations : List Violation) → (verdict violations ≡ ok) ↔ (violations ≡ [])
verdict_iff [] = (λ h. refl, λ h. refl)
verdict_iff (violation ∷ violations) = (λ h. absurd (cc h), λ h. absurd (cc h))

-- `validate` accepts the tables exactly when they are consistent.
pub validate_iff : (tables : Tables) → (validate tables ≡ ok) ↔ IsConsistent tables
unfolding validate
validate_iff tables = (
  λ h. found_none tables ((verdict_iff (violations_of tables)).0 h),
  λ h. (verdict_iff (violations_of tables)).1 (finds_none tables h),
)
