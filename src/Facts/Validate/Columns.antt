-- ===== src/Facts/Validate/Columns.antt =====
-- crates/zag-facts/src/validate.rs: the column lengths. The calls that a function makes one after the
-- other are a list of their arguments; all take and give the violations so far.
use Prim.Native.String.{String}
use zag.Prelude.{ℕ, List, [], ◌∷◌, ◌++◌, ◌==◌, if◌then◌else◌, length}
use zag.Facts.Tables.{Tables}
use zag.Facts.Access.{
  module_count, artifact_count, type_count, struct_count, field_count, function_count,
  parameter_count, call_count, memory_operation_count,
}
use zag.Facts.Validate.{Violation, column_length_mismatch}

unfoldable pub expect_length : List Violation → String → String → ℕ → ℕ → List Violation
expect_length violations table column expected found =
    if expected == found
    then violations
    else violations ++ column_length_mismatch table column expected found ∷ []

-- The calls in their order: the table, the column, the length expected and the length found.
unfoldable pub expect_lengths : List Violation → List (String × String × ℕ × ℕ) → List Violation
unfolding expect_length
expect_lengths violations [] = violations
expect_lengths violations ((table, column, expected, found) ∷ calls) =
    expect_lengths (expect_length violations table column expected found) calls

abbrev pub struct_column_lengths : Tables → List (String × String × ℕ × ℕ)
struct_column_lengths tables =
    ("structs", "module", struct_count tables.structs, length tables.structs.module_id)
    ∷ ("structs", "type_id", struct_count tables.structs, length tables.structs.type_id)
    ∷ ("structs", "field_start", struct_count tables.structs, length tables.structs.field_start)
    ∷ ("structs", "field_count", struct_count tables.structs, length tables.structs.field_count)
    ∷ ("structs", "size", struct_count tables.structs, length tables.structs.size)
    ∷ ("structs", "alignment", struct_count tables.structs, length tables.structs.alignment)
    ∷ ("structs", "flags", struct_count tables.structs, length tables.structs.flags)
    ∷ ("structs", "deinit", struct_count tables.structs, length tables.structs.deinit)
    ∷ ("structs", "kind", struct_count tables.structs, length tables.structs.kind)
    ∷ []

unfoldable pub check_struct_column_lengths : Tables → List Violation → List Violation
unfolding expect_lengths
check_struct_column_lengths tables violations =
    expect_lengths violations (struct_column_lengths tables)

abbrev pub field_column_lengths : Tables → List (String × String × ℕ × ℕ)
field_column_lengths tables =
    ("fields", "name", field_count tables.fields, length tables.fields.name)
    ∷ ("fields", "field_type", field_count tables.fields, length tables.fields.field_type)
    ∷ ("fields", "offset", field_count tables.fields, length tables.fields.offset)
    ∷ []

unfoldable pub check_field_column_lengths : Tables → List Violation → List Violation
unfolding expect_lengths
check_field_column_lengths tables violations =
    expect_lengths violations (field_column_lengths tables)

abbrev pub function_column_lengths : Tables → List (String × String × ℕ × ℕ)
function_column_lengths tables =
    ("functions", "module", function_count tables.functions, length tables.functions.module_id)
    ∷ ("functions", "owner", function_count tables.functions, length tables.functions.owner)
    ∷ (
      "functions",
      "parameter_start",
      function_count tables.functions,
      length tables.functions.parameter_start,
    )
    ∷ (
      "functions",
      "parameter_count",
      function_count tables.functions,
      length tables.functions.parameter_count,
    )
    ∷ ("functions", "returns", function_count tables.functions, length tables.functions.returns)
    ∷ ("functions", "error_set", function_count tables.functions, length tables.functions.error_set)
    ∷ ("functions", "flags", function_count tables.functions, length tables.functions.flags)
    ∷ ("functions", "line", function_count tables.functions, length tables.functions.line)
    ∷ ("functions", "body", function_count tables.functions, length tables.functions.body)
    ∷ ("parameters", "name", parameter_count tables.parameters, length tables.parameters.name)
    ∷ (
      "parameters",
      "parameter_type",
      parameter_count tables.parameters,
      length tables.parameters.parameter_type,
    )
    ∷ ("parameters", "flags", parameter_count tables.parameters, length tables.parameters.flags)
    ∷ []

unfoldable pub check_function_column_lengths : Tables → List Violation → List Violation
unfolding expect_lengths
check_function_column_lengths tables violations =
    expect_lengths violations (function_column_lengths tables)

abbrev pub side_table_column_lengths : Tables → List (String × String × ℕ × ℕ)
side_table_column_lengths tables =
    (
      "allocator_sources",
      "function",
      length tables.allocator_sources.kind,
      length tables.allocator_sources.function,
    )
    ∷ (
      "allocator_sources",
      "parameter_index",
      length tables.allocator_sources.kind,
      length tables.allocator_sources.parameter_index,
    )
    ∷ ("calls", "callee", call_count tables.calls, length tables.calls.callee)
    ∷ (
      "call_arguments",
      "parameter_index",
      length tables.call_arguments.call,
      length tables.call_arguments.parameter_index,
    )
    ∷ (
      "call_arguments",
      "source",
      length tables.call_arguments.call,
      length tables.call_arguments.source,
    )
    ∷ (
      "memory_operations",
      "kind",
      memory_operation_count tables.memory_operations,
      length tables.memory_operations.kind,
    )
    ∷ (
      "memory_operations",
      "allocator",
      memory_operation_count tables.memory_operations,
      length tables.memory_operations.allocator,
    )
    ∷ (
      "memory_operations",
      "place",
      memory_operation_count tables.memory_operations,
      length tables.memory_operations.place,
    )
    ∷ (
      "memory_operations",
      "place_field",
      memory_operation_count tables.memory_operations,
      length tables.memory_operations.place_field,
    )
    ∷ (
      "field_assignments",
      "function",
      length tables.field_assignments.field,
      length tables.field_assignments.function,
    )
    ∷ (
      "field_assignments",
      "source",
      length tables.field_assignments.field,
      length tables.field_assignments.source,
    )
    ∷ (
      "field_assignments",
      "memory_operation",
      length tables.field_assignments.field,
      length tables.field_assignments.memory_operation,
    )
    ∷ (
      "field_assignments",
      "expression",
      length tables.field_assignments.field,
      length tables.field_assignments.expression,
    )
    ∷ (
      "field_assignments",
      "line",
      length tables.field_assignments.field,
      length tables.field_assignments.line,
    )
    ∷ ("expressions", "line", length tables.expressions.kind, length tables.expressions.line)
    ∷ ("expressions", "text", length tables.expressions.kind, length tables.expressions.text)
    ∷ (
      "expressions",
      "parameter",
      length tables.expressions.kind,
      length tables.expressions.parameter,
    )
    ∷ ("expressions", "result", length tables.expressions.kind, length tables.expressions.result)
    ∷ ("expressions", "field", length tables.expressions.kind, length tables.expressions.field)
    ∷ (
      "expressions",
      "child_start",
      length tables.expressions.kind,
      length tables.expressions.child_start,
    )
    ∷ (
      "expressions",
      "child_count",
      length tables.expressions.kind,
      length tables.expressions.child_count,
    )
    ∷ []

unfoldable pub check_side_table_column_lengths : Tables → List Violation → List Violation
unfolding expect_lengths
check_side_table_column_lengths tables violations =
    expect_lengths violations (side_table_column_lengths tables)

abbrev pub column_lengths : Tables → List (String × String × ℕ × ℕ)
column_lengths tables =
    ("modules", "path", module_count tables.modules, length tables.modules.path)
    ∷ (
      "modules",
      "unresolved_start",
      module_count tables.modules,
      length tables.modules.unresolved_start,
    )
    ∷ (
      "modules",
      "unresolved_count",
      module_count tables.modules,
      length tables.modules.unresolved_count,
    )
    ∷ (
      "unresolved_imports",
      "name",
      length tables.unresolved_imports.owner,
      length tables.unresolved_imports.name,
    )
    ∷ ("artifacts", "root", artifact_count tables.artifacts, length tables.artifacts.root)
    ∷ ("artifacts", "kind", artifact_count tables.artifacts, length tables.artifacts.kind)
    ∷ ("types", "element", type_count tables.types, length tables.types.element)
    ∷ ("types", "count", type_count tables.types, length tables.types.count)
    ∷ ("types", "module", type_count tables.types, length tables.types.module_id)
    ∷ ("types", "name", type_count tables.types, length tables.types.name)
    ∷ ("types", "size", type_count tables.types, length tables.types.size)
    ∷ ("types", "alignment", type_count tables.types, length tables.types.alignment)
    ∷ ("types", "bit_width", type_count tables.types, length tables.types.bit_width)
    ∷ ("types", "flags", type_count tables.types, length tables.types.flags)
    ∷ []

unfoldable pub check_column_lengths : Tables → List Violation → List Violation
unfolding expect_lengths
check_column_lengths tables violations =
    let violations₁ = expect_lengths violations (column_lengths tables) in
    let violations₂ = check_struct_column_lengths tables violations₁ in
    let violations₃ = check_field_column_lengths tables violations₂ in
    let violations₄ = check_function_column_lengths tables violations₃ in
    check_side_table_column_lengths tables violations₄
