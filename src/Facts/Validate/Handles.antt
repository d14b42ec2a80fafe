-- ===== src/Facts/Validate/Handles.antt =====
-- The columns and the handles of crates/zag-facts/src/validate.rs: clean checks, and consistency.
use Prim.Native.String.{String}
use zag.Prelude.{ℕ, ◌<◌, ◌≡◌, ◌⊎◌, ◌↔◌, List, All, Bool, false, not, ◌&&◌, ltb, ◌==◌, arith}
use zag.Facts.Handles.{no_index}
use zag.Facts.Tables.{Tables}
use zag.Facts.Access.{string_count}
use zag.Facts.Validate.{handle_out_of_range}
use zag.Facts.Validate.Columns.{
  expect_lengths, column_lengths, struct_column_lengths, field_column_lengths,
  function_column_lengths, side_table_column_lengths, check_column_lengths,
  check_struct_column_lengths, check_field_column_lengths, check_function_column_lengths,
  check_side_table_column_lengths,
}
use zag.Facts.Validate.Limits.{
  limits, check_columns, type_handles, declaration_handles, flow_handles, check_type_handles,
  check_declaration_handles, check_flow_handles, check_target, check_handles,
}
use zag.Facts.Validate.Clean.{
  Clean, Clean-then, Clean-iff, Clean-expect_lengths, Clean-check_columns, InRange, not-snoc,
}
use zag.Facts.Validate.Consistent.{HasEqualColumns, HasHandles}

abbrev Lengths : List (String × String × ℕ × ℕ) → Type 0
Lengths calls = All (λ call. call.2 ≡ call.3) calls

module _ (tables : Tables) where
  columns_iff :
      ((((Lengths (column_lengths tables) × Lengths (struct_column_lengths tables))
            × Lengths (field_column_lengths tables))
          × Lengths (function_column_lengths tables))
        × Lengths (side_table_column_lengths tables))
      ↔ HasEqualColumns tables
  columns_iff = (λ h. omega arith, λ h. omega arith)

  pub Clean-check_column_lengths : Clean (check_column_lengths tables) (HasEqualColumns tables)
  unfolding check_column_lengths check_struct_column_lengths check_field_column_lengths
      check_function_column_lengths check_side_table_column_lengths
  Clean-check_column_lengths =
      Clean-iff _ _ _
        (Clean-then _ (λ vs. expect_lengths vs (side_table_column_lengths tables)) _ _
          (Clean-then _ (λ vs. expect_lengths vs (function_column_lengths tables)) _ _
            (Clean-then _ (λ vs. expect_lengths vs (field_column_lengths tables)) _ _
              (Clean-then _ (λ vs. expect_lengths vs (struct_column_lengths tables)) _ _
                (Clean-expect_lengths (column_lengths tables))
                (Clean-expect_lengths (struct_column_lengths tables)))
              (Clean-expect_lengths (field_column_lengths tables)))
            (Clean-expect_lengths (function_column_lengths tables)))
          (Clean-expect_lengths (side_table_column_lengths tables)))
        columns_iff

  abbrev Handles : List (String × String × List ℕ × ℕ × Bool) → Type 0
  Handles calls = All (λ call. All (InRange call.3 call.4) call.2) calls

  abbrev Target : Type 0
  Target = (tables.target ≡ no_index) ⊎ (tables.target < string_count tables.strings)

  target_iff :
      (not (tables.target == no_index) && not (ltb tables.target (string_count tables.strings))
        ≡ false)
      ↔ Target
  target_iff = (λ h. ground arith, λ h. ground arith)

  Handles-iff :
      (((Handles (type_handles tables (limits tables))
            × Handles (declaration_handles tables (limits tables)))
          × Handles (flow_handles tables (limits tables)))
        × Target)
      ↔ HasHandles tables
  Handles-iff = (λ h. ground arith, λ h. ground arith)

  Clean-check_target : Clean (check_target tables (limits tables)) Target
  unfolding check_target
  Clean-check_target violations =
      let never = not-snoc violations (handle_out_of_range "tables" "target" 0 tables.target) in
      (λ h. ground (arith, never), λ h. ground arith)

  pub Clean-check_handles : Clean (check_handles tables) (HasHandles tables)
  unfolding check_handles check_type_handles check_declaration_handles check_flow_handles
  Clean-check_handles =
      Clean-iff _ _ _
        (Clean-then _ (check_target tables (limits tables)) _ _
          (Clean-then _ (λ vs. check_columns vs (flow_handles tables (limits tables))) _ _
            (Clean-then _ (λ vs. check_columns vs (declaration_handles tables (limits tables))) _ _
              (Clean-check_columns (type_handles tables (limits tables)))
              (Clean-check_columns (declaration_handles tables (limits tables))))
            (Clean-check_columns (flow_handles tables (limits tables))))
          Clean-check_target)
        Handles-iff
