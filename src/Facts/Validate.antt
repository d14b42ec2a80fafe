-- ===== src/Facts/Validate.antt =====
-- crates/zag-facts/src/validate.rs: what a set of fact tables may violate, and the checks.
pub mod Columns
pub mod Limits
pub mod Checks
pub mod Clean
pub mod Loops
pub mod Rows
pub mod Consistent
pub mod Handles
pub mod Correct
pub mod Partition
use Prim.Native.String.{String}
use zag.Prelude.{ℕ}

pub data Violation : Type 0 where
  column_length_mismatch : String → String → ℕ → ℕ → Violation
  string_offsets_not_monotonic string_offset_out_of_range : ℕ → Violation
  string_blob_not_fully_covered : ℕ → ℕ → Violation
  handle_out_of_range : String → String → ℕ → ℕ → Violation
  field_range_mismatch fields_not_grouped_by_owner parameter_range_mismatch : ℕ → Violation
  calls_not_sorted_by_caller : ℕ → Violation
  parameter_index_out_of_range : String → ℕ → ℕ → ℕ → Violation
  place_without_field : ℕ → Violation
  no_root_module : Violation
  unresolved_import_range_mismatch : ℕ → Violation
