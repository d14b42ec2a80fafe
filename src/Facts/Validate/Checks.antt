-- ===== src/Facts/Validate/Checks.antt =====
-- crates/zag-facts/src/validate.rs: the strings, the ranges, the parameter indices, the places and
-- the orders, and `validate` itself. Every check takes and gives the violations so far.
use zag.Prelude.{
  ℕ, zero, suc, ◌+◌, Bool, true, false, ◌&&◌, ◌||◌, not, Option, none, some, List, [], ◌∷◌, ◌++◌,
  ltb, ◌==◌, if◌then◌else◌, length, get_elem?, u32_checked_add,
}
use zag.Facts.Handles.{no_index}
use zag.Facts.Kinds.{AllocatorSourceKind, PlaceKind}
use zag.Facts.Tables.{Tables}
use zag.Facts.Access.{module_count, struct_count, field_count, function_count, parameter_count}
use zag.Facts.Validate.{
  Violation, string_offsets_not_monotonic, string_offset_out_of_range,
  string_blob_not_fully_covered, field_range_mismatch, fields_not_grouped_by_owner,
  parameter_range_mismatch, calls_not_sorted_by_caller, parameter_index_out_of_range,
  place_without_field, no_root_module, unresolved_import_range_mismatch,
}
use zag.Facts.Validate.Columns.{check_column_lengths}
use zag.Facts.Validate.Limits.{check_handles}

-- A violation that is added when the test holds.
abbrev pub add_if : Bool → Violation → List Violation → List Violation
add_if true violation violations = violations ++ violation ∷ []
add_if false violation violations = violations

-- The loop over the offsets behind the first, from an index on: `previous` is the offset before it.
unfoldable pub check_offsets : ℕ → ℕ → List ℕ → ℕ → List Violation → List Violation
check_offsets previous index [] size violations = violations
check_offsets previous index (offset ∷ offsets) size violations =
    let violations₁ =
      add_if (ltb offset previous) (string_offsets_not_monotonic index) violations in
    let violations₂ = add_if (ltb size offset) (string_offset_out_of_range index) violations₁ in
    check_offsets offset (index + 1) offsets size violations₂

-- `offsets.last()`, of a first offset and those behind it.
abbrev pub last_of : ℕ → List ℕ → ℕ
last_of first [] = first
last_of first (offset ∷ offsets) = last_of offset offsets

unfoldable pub check_string_columns : List ℕ → List ℕ → List Violation → List Violation
unfolding check_offsets
check_string_columns bytes [] violations =
    add_if (not (length bytes == 0)) (string_blob_not_fully_covered 0 (length bytes)) violations
check_string_columns bytes (first ∷ offsets) violations =
    let violations₁ = add_if (not (first == 0)) (string_offsets_not_monotonic 0) violations in
    let violations₂ = check_offsets first 1 offsets (length bytes) violations₁ in
    let covered = last_of first offsets in
    add_if (not (covered == length bytes)) (string_blob_not_fully_covered covered (length bytes))
      violations₂

unfoldable pub check_strings : Tables → List Violation → List Violation
unfolding check_string_columns
check_strings tables violations =
    check_string_columns tables.strings.bytes tables.strings.offsets violations

-- The loop that three checks share, over the owners left: the next start that is expected, and
-- `none` where the loop returns early, because a column is too short or a sum leaves `u32`.
unfoldable pub check_owners :
    (ℕ → Violation) → List ℕ → List ℕ → ℕ → ℕ → ℕ → List Violation → Option ℕ × List Violation
check_owners mismatch starts counts zero owner expected violations = (some expected, violations)
check_owners mismatch starts counts (suc owners) owner expected violations =
    elim (get_elem? starts owner) [
      | none ↦ (none, violations)
      | some start ↦ elim (get_elem? counts owner) [
        | none ↦ (none, violations)
        | some count ↦
            let violations₁ = add_if (not (start == expected)) (mismatch owner) violations in
            elim (u32_checked_add start count) [
              | none ↦ (none, violations₁ ++ mismatch owner ∷ [])
              | some next ↦ check_owners mismatch starts counts owners (owner + 1) next violations₁
            ]
      ]
    ]

-- The comparison behind the loop, which an early return skips, and what follows it.
unfoldable pub check_end :
    (ℕ → Violation)
    → ℕ
    → ℕ
    → (List Violation → List Violation)
    → Option ℕ × List Violation
    → List Violation
check_end mismatch owners total follow (none, violations) = violations
check_end mismatch owners total follow (some expected, violations) =
    follow (add_if (not (expected == total)) (mismatch owners) violations)

-- The loop over the rows behind the first, each compared with the one before it.
unfoldable pub check_ascending : (ℕ → Violation) → ℕ → ℕ → List ℕ → List Violation → List Violation
check_ascending descent previous row [] violations = violations
check_ascending descent previous row (value ∷ values) violations =
    check_ascending descent value (row + 1) values
      (add_if (ltb value previous) (descent row) violations)

unfoldable pub check_order : (ℕ → Violation) → List ℕ → List Violation → List Violation
unfolding check_ascending
check_order descent [] violations = violations
check_order descent (value ∷ values) violations = check_ascending descent value 1 values violations

unfoldable pub check_field_ranges : Tables → List Violation → List Violation
check_field_ranges tables violations =
    let owners = struct_count tables.structs in
    check_end field_range_mismatch owners (field_count tables.fields)
      (check_order fields_not_grouped_by_owner tables.fields.owner)
      (check_owners field_range_mismatch tables.structs.field_start tables.structs.field_count
        owners 0 0 violations)

unfoldable pub check_parameter_ranges : Tables → List Violation → List Violation
check_parameter_ranges tables violations =
    let owners = function_count tables.functions in
    check_end parameter_range_mismatch owners (parameter_count tables.parameters) (λ vs. vs)
      (check_owners parameter_range_mismatch tables.functions.parameter_start
        tables.functions.parameter_count owners 0 0 violations)

unfoldable pub check_module_ranges : Tables → List Violation → List Violation
check_module_ranges tables violations =
    let owners = module_count tables.modules in
    if owners == 0
    then add_if
        (not (struct_count tables.structs == 0) || not (function_count tables.functions == 0))
        no_root_module violations
    else check_end unresolved_import_range_mismatch owners (length tables.unresolved_imports.owner)
        (λ vs. vs)
        (check_owners unresolved_import_range_mismatch tables.modules.unresolved_start
          tables.modules.unresolved_count owners 0 0 violations)

abbrev pub is_place_of_parameter : PlaceKind → Bool
is_place_of_parameter PlaceKind.field_of_parameter = true
is_place_of_parameter _ = false

unfoldable pub names_a_field : List ℕ → ℕ → Bool
names_a_field place_field row = elim (get_elem? place_field row) [
  | none ↦ false
  | some field ↦ not (field == no_index)
]

-- The loop over the places, from a row on.
unfoldable pub check_places_from : List ℕ → List PlaceKind → ℕ → List Violation → List Violation
check_places_from place_field [] row violations = violations
check_places_from place_field (place ∷ places) row violations =
    check_places_from place_field places (row + 1) (
      add_if (is_place_of_parameter place && not (names_a_field place_field row))
        (place_without_field row) violations)

unfoldable pub check_places : Tables → List Violation → List Violation
check_places tables violations =
    check_places_from tables.memory_operations.place_field tables.memory_operations.place 0
      violations

unfoldable pub names_a_parameter : Tables → ℕ → ℕ → Bool
names_a_parameter tables function parameter_index =
    elim (get_elem? tables.functions.parameter_count function) [
      | none ↦ false
      | some count ↦ ltb parameter_index count
    ]

abbrev pub is_parameter_source : AllocatorSourceKind → Bool
is_parameter_source AllocatorSourceKind.parameter = true
is_parameter_source _ = false

-- What both loops do with the function and the parameter index of a row, where both are there.
unfoldable pub check_index :
    Tables → (ℕ → ℕ → Violation) → Option ℕ → Option ℕ → List Violation → List Violation
check_index tables violation none index violations = violations
check_index tables violation (some function) none violations = violations
check_index tables violation (some function) (some index) violations =
    add_if (not (names_a_parameter tables function index)) (violation function index) violations

-- The loop over the allocator sources, and the loop over the call arguments, from a row on.
unfoldable pub check_sources_from :
    Tables → List AllocatorSourceKind → ℕ → List Violation → List Violation
check_sources_from tables [] row violations = violations
check_sources_from tables (kind ∷ kinds) row violations =
    check_sources_from tables kinds (row + 1) (
      if is_parameter_source kind
      then check_index tables (parameter_index_out_of_range "allocator_sources" row)
          (get_elem? tables.allocator_sources.function row)
          (get_elem? tables.allocator_sources.parameter_index row) violations
      else violations)

unfoldable pub check_arguments_from : Tables → List ℕ → ℕ → List Violation → List Violation
check_arguments_from tables [] row violations = violations
check_arguments_from tables (call ∷ calls) row violations =
    check_arguments_from tables calls (row + 1) (
      check_index tables (parameter_index_out_of_range "call_arguments" row)
        (get_elem? tables.calls.callee call) (get_elem? tables.call_arguments.parameter_index row)
        violations)

unfoldable pub check_parameter_indices : Tables → List Violation → List Violation
check_parameter_indices tables violations =
    check_arguments_from tables tables.call_arguments.call 0
      (check_sources_from tables tables.allocator_sources.kind 0 violations)

unfoldable pub check_call_order : Tables → List Violation → List Violation
check_call_order tables violations =
    check_order calls_not_sorted_by_caller tables.calls.caller violations

-- All the violations, in the order of the checks.
unfoldable pub violations_of : Tables → List Violation
violations_of tables =
    let violations₁ = check_column_lengths tables [] in
    let violations₂ = check_strings tables violations₁ in
    let violations₃ = check_handles tables violations₂ in
    let violations₄ = check_field_ranges tables violations₃ in
    let violations₅ = check_parameter_ranges tables violations₄ in
    let violations₆ = check_module_ranges tables violations₅ in
    let violations₇ = check_parameter_indices tables violations₆ in
    let violations₈ = check_places tables violations₇ in check_call_order tables violations₈

pub data Verdict : Type 0 where
  ok : Verdict
  err : List Violation → Verdict

abbrev pub verdict : List Violation → Verdict
verdict [] = ok
verdict (violation ∷ violations) = err (violation ∷ violations)

unfoldable pub validate : Tables → Verdict
unfolding violations_of
validate tables = verdict (violations_of tables)
