-- ===== src/Tests/Validate.antt =====
-- Runs of the checks of crates/zag-facts/src/validate.rs.
use zag.Prelude.{ℕ, refl, ◌≡◌, ◌<◌, some, ◌↔◌, arith, u32_checked_add}
use zag.Facts.Ranges.{Holds, fields_of, parameters_of}
use zag.Analysis.Provenance.{source_slot, argument_flow}
use zag.Analysis.Provenance.Valid.{source_slot-total, argument_flow-total}
use zag.Facts.Validate.Partition.{fields_of-partition, parameters_of-partition}
use zag.Facts.Access.{string_count}
use zag.Facts.Validate.Columns.{
  check_column_lengths, check_field_column_lengths, check_function_column_lengths,
  check_side_table_column_lengths, check_struct_column_lengths, expect_length, expect_lengths,
}
use zag.Facts.Validate.Limits.{
  check_handles, check_column, check_columns, check_declaration_handles, check_flow_handles,
  check_rows, check_target, check_type_handles,
}
use zag.Facts.Validate.Checks.{
  ok, validate, violations_of, check_call_order, check_order, check_places, check_places_from,
  names_a_field, check_parameter_indices, check_arguments_from, check_index, names_a_parameter,
  check_sources_from, check_module_ranges, check_end, check_owners, check_parameter_ranges,
  check_field_ranges, check_ascending, check_offsets, check_string_columns, check_strings,
}
use zag.Facts.Validate.Consistent.{IsConsistent}
use zag.Facts.Validate.Correct.{validate_iff}
use zag.Tests.Sample.{sorted_sample}

sorted_sample-ok : validate sorted_sample ≡ ok
unfolding validate violations_of check_call_order check_order check_places check_places_from
    names_a_field check_parameter_indices check_arguments_from check_index names_a_parameter
    check_sources_from check_module_ranges check_end check_owners check_parameter_ranges
    check_field_ranges check_ascending check_offsets check_string_columns check_strings
    u32_checked_add string_count check_handles check_column check_column_lengths check_columns
    check_declaration_handles check_field_column_lengths check_flow_handles
    check_function_column_lengths check_rows check_side_table_column_lengths
    check_struct_column_lengths check_target check_type_handles expect_length expect_lengths
sorted_sample-ok = refl

sorted_sample-IsConsistent : IsConsistent sorted_sample
sorted_sample-IsConsistent = (validate_iff sorted_sample).0 sorted_sample-ok

validate_iff_example : (validate sorted_sample ≡ ok) ↔ IsConsistent sorted_sample
validate_iff_example = validate_iff sorted_sample

fields_of-partition_example :
    (id : ℕ) × (id < 1) × ((other : ℕ) → Holds (fields_of sorted_sample other) 1 ↔ (other ≡ id))
fields_of-partition_example =
    fields_of-partition sorted_sample 1 sorted_sample-IsConsistent (omega arith)

parameters_of-partition_example :
    (id : ℕ) × (id < 4) × ((other : ℕ) → Holds (parameters_of sorted_sample other) 2 ↔ (other ≡ id))
parameters_of-partition_example =
    parameters_of-partition sorted_sample 2 sorted_sample-IsConsistent (omega arith)

source_slot-total_example : (slot : ℕ) × (source_slot sorted_sample 1 ≡ some slot) × (slot < 3)
source_slot-total_example =
    source_slot-total sorted_sample 1 sorted_sample-IsConsistent (omega arith) refl

argument_flow-total_example :
    (slot : ℕ) × (source : ℕ) × (argument_flow sorted_sample 3 ≡ some (slot, source))
    × (slot < 3)
    × (source < 4)
argument_flow-total_example =
    argument_flow-total sorted_sample 3 sorted_sample-IsConsistent (omega arith) (omega arith)
