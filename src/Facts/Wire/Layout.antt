-- ===== src/Facts/Wire/Layout.antt =====
-- What a fact file of crates/zag-facts/src/wire.rs can hold, and the bytes of its parts in order.
use zag.Prelude.{ℕ, ◌<◌, List, [], ◌++◌, length, All, u32_mod}
use zag.Facts.Tables.{Tables}
use zag.Facts.Wire.{to_le_bytes, version}
use zag.Facts.Wire.Encode.{
  modules_columns, unresolved_imports_columns, artifacts_columns, types_columns, structs_columns,
  fields_columns, functions_columns, parameters_columns, allocator_sources_columns, calls_columns,
  call_arguments_columns, memory_operations_columns, expressions_columns, field_assignments_columns,
}
use zag.Facts.Wire.Reads.{Fits, column, byte_column, columns}

-- Tables that the format can hold: every number is a `u32`, and no column has more rows than that.
pub record IsWritable (t : Tables) : Type 0 where
  pub target : t.target < u32_mod
  pub bytes : length t.strings.bytes < u32_mod
  pub offsets : Fits t.strings.offsets
  pub modules : All Fits (modules_columns t.modules)
  pub unresolved_imports : All Fits (unresolved_imports_columns t.unresolved_imports)
  pub artifacts : All Fits (artifacts_columns t.artifacts)
  pub types : All Fits (types_columns t.types)
  pub structs : All Fits (structs_columns t.structs)
  pub fields : All Fits (fields_columns t.fields)
  pub functions : All Fits (functions_columns t.functions)
  pub parameters : All Fits (parameters_columns t.parameters)
  pub allocator_sources : All Fits (allocator_sources_columns t.allocator_sources)
  pub calls : All Fits (calls_columns t.calls)
  pub call_arguments : All Fits (call_arguments_columns t.call_arguments)
  pub memory_operations : All Fits (memory_operations_columns t.memory_operations)
  pub expressions : All Fits (expressions_columns t.expressions)
  pub field_assignments : All Fits (field_assignments_columns t.field_assignments)

-- The bytes behind the magic ones, in the order in which they are written.
abbrev pub modules_bytes : Tables → List ℕ
modules_bytes t =
    (columns (modules_columns t.modules)
      ++ (columns (unresolved_imports_columns t.unresolved_imports)
          ++ (columns (artifacts_columns t.artifacts) ++ [])))

abbrev pub functions_bytes : Tables → List ℕ
functions_bytes t =
    (columns (functions_columns t.functions) ++ (columns (parameters_columns t.parameters) ++ []))

abbrev pub allocator_and_calls_bytes : Tables → List ℕ
allocator_and_calls_bytes t =
    (columns (allocator_sources_columns t.allocator_sources)
      ++ (columns (calls_columns t.calls)
          ++ (columns (call_arguments_columns t.call_arguments) ++ [])))

abbrev pub memory_bytes : Tables → List ℕ
memory_bytes t =
    (columns (memory_operations_columns t.memory_operations)
      ++ (columns (expressions_columns t.expressions)
          ++ (columns (field_assignments_columns t.field_assignments) ++ [])))

abbrev pub body_bytes : Tables → List ℕ
body_bytes t =
    (to_le_bytes version
      ++ (to_le_bytes t.target
          ++ (byte_column t.strings.bytes
              ++ (column t.strings.offsets
                  ++ (modules_bytes t
                      ++ (columns (types_columns t.types)
                          ++ (columns (structs_columns t.structs)
                              ++ (columns (fields_columns t.fields)
                                  ++ (functions_bytes t
                                      ++ (allocator_and_calls_bytes t
                                          ++ (memory_bytes t ++ [])))))))))))
