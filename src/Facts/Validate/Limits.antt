-- ===== src/Facts/Validate/Limits.antt =====
-- crates/zag-facts/src/validate.rs: the handles, each below the number of rows of its table. The
-- calls of `check_column` one after the other are a list of their arguments.
use Prim.Native.String.{String}
use zag.Prelude.{
  ℕ, ◌+◌, Bool, true, false, ◌&&◌, not, List, [], ◌∷◌, ◌++◌, ltb, ◌==◌, if◌then◌else◌, length,
}
use zag.Facts.Handles.{no_index}
use zag.Facts.Tables.{Tables}
use zag.Facts.Access.{
  string_count, module_count, type_count, struct_count, field_count, function_count, call_count,
  memory_operation_count,
}
use zag.Facts.Validate.{Violation, handle_out_of_range}

pub record Limits : Type 0 where
  pub strings : ℕ
  pub modules : ℕ
  pub types : ℕ
  pub structs : ℕ
  pub fields : ℕ
  pub functions : ℕ
  pub calls : ℕ
  pub allocator_sources : ℕ
  pub memory_operations : ℕ

abbrev pub limits : Tables → Limits
limits tables = record {
  strings = string_count tables.strings;
  modules = module_count tables.modules;
  types = type_count tables.types;
  structs = struct_count tables.structs;
  fields = field_count tables.fields;
  functions = function_count tables.functions;
  calls = call_count tables.calls;
  allocator_sources = length tables.allocator_sources.kind;
  memory_operations = memory_operation_count tables.memory_operations;
}

-- The loop of `check_column`, from a row on.
unfoldable pub check_rows :
    List Violation → String → String → List ℕ → ℕ → ℕ → Bool → List Violation
check_rows violations table column [] row limit allow_absent = violations
check_rows violations table column (raw ∷ values) row limit allow_absent =
    check_rows
      (if raw == no_index && allow_absent
        then violations
        else if ltb raw limit
        then violations
        else violations ++ handle_out_of_range table column row raw ∷ [])
      table column values (row + 1) limit allow_absent

unfoldable pub check_column : List Violation → String → String → List ℕ → ℕ → Bool → List Violation
unfolding check_rows
check_column violations table column values limit allow_absent =
    check_rows violations table column values 0 limit allow_absent

-- The calls in their order: the table, the column, its handles, their limit, and whether a row may
-- be absent.
unfoldable pub check_columns :
    List Violation → List (String × String × List ℕ × ℕ × Bool) → List Violation
check_columns violations [] = violations
check_columns violations ((table, column, values, limit, allow_absent) ∷ calls) =
    check_columns (check_column violations table column values limit allow_absent) calls

abbrev pub type_handles : Tables → Limits → List (String × String × List ℕ × ℕ × Bool)
type_handles tables limits =
    ("modules", "name", tables.modules.name, limits.strings, true)
    ∷ ("modules", "path", tables.modules.path, limits.strings, true)
    ∷ ("unresolved_imports", "owner", tables.unresolved_imports.owner, limits.modules, false)
    ∷ ("unresolved_imports", "name", tables.unresolved_imports.name, limits.strings, false)
    ∷ ("artifacts", "name", tables.artifacts.name, limits.strings, false)
    ∷ ("artifacts", "root", tables.artifacts.root, limits.modules, true)
    ∷ ("types", "module", tables.types.module_id, limits.modules, false)
    ∷ ("types", "element", tables.types.element, limits.types, true)
    ∷ ("types", "name", tables.types.name, limits.strings, true)
    ∷ []

unfoldable pub check_type_handles : Tables → Limits → List Violation → List Violation
check_type_handles tables limits violations = check_columns violations (type_handles tables limits)

abbrev pub declaration_handles : Tables → Limits → List (String × String × List ℕ × ℕ × Bool)
declaration_handles tables limits =
    ("structs", "module", tables.structs.module_id, limits.modules, false)
    ∷ ("functions", "module", tables.functions.module_id, limits.modules, false)
    ∷ ("structs", "name", tables.structs.name, limits.strings, false)
    ∷ ("structs", "type_id", tables.structs.type_id, limits.types, false)
    ∷ ("structs", "deinit", tables.structs.deinit, limits.functions, true)
    ∷ ("fields", "owner", tables.fields.owner, limits.structs, false)
    ∷ ("fields", "name", tables.fields.name, limits.strings, false)
    ∷ ("fields", "field_type", tables.fields.field_type, limits.types, false)
    ∷ ("functions", "name", tables.functions.name, limits.strings, false)
    ∷ ("functions", "owner", tables.functions.owner, limits.structs, true)
    ∷ ("functions", "returns", tables.functions.returns, limits.types, true)
    ∷ ("functions", "error_set", tables.functions.error_set, limits.structs, true)
    ∷ ("parameters", "owner", tables.parameters.owner, limits.functions, false)
    ∷ ("parameters", "name", tables.parameters.name, limits.strings, false)
    ∷ ("parameters", "parameter_type", tables.parameters.parameter_type, limits.types, false)
    ∷ []

unfoldable pub check_declaration_handles : Tables → Limits → List Violation → List Violation
check_declaration_handles tables limits violations =
    check_columns violations (declaration_handles tables limits)

abbrev pub flow_handles : Tables → Limits → List (String × String × List ℕ × ℕ × Bool)
flow_handles tables limits =
    ("allocator_sources", "function", tables.allocator_sources.function, limits.functions, true)
    ∷ ("calls", "caller", tables.calls.caller, limits.functions, false)
    ∷ ("calls", "callee", tables.calls.callee, limits.functions, false)
    ∷ ("call_arguments", "call", tables.call_arguments.call, limits.calls, false)
    ∷ ("call_arguments", "source", tables.call_arguments.source, limits.allocator_sources, false)
    ∷ ("memory_operations", "function", tables.memory_operations.function, limits.functions, false)
    ∷ (
      "memory_operations", "allocator", tables.memory_operations.allocator,
      limits.allocator_sources, true,
    )
    ∷ (
      "memory_operations", "place_field", tables.memory_operations.place_field, limits.fields, true,
    )
    ∷ ("field_assignments", "field", tables.field_assignments.field, limits.fields, false)
    ∷ ("field_assignments", "function", tables.field_assignments.function, limits.functions, false)
    ∷ (
      "field_assignments", "memory_operation", tables.field_assignments.memory_operation,
      limits.memory_operations, true,
    )
    ∷ []

unfoldable pub check_flow_handles : Tables → Limits → List Violation → List Violation
check_flow_handles tables limits violations = check_columns violations (flow_handles tables limits)

unfoldable pub check_target : Tables → Limits → List Violation → List Violation
check_target tables limits violations =
    if not (tables.target == no_index) && not (ltb tables.target limits.strings)
    then violations ++ handle_out_of_range "tables" "target" 0 tables.target ∷ []
    else violations

unfoldable pub check_handles : Tables → List Violation → List Violation
check_handles tables violations =
    let violations₁ = check_type_handles tables (limits tables) violations in
    let violations₂ = check_declaration_handles tables (limits tables) violations₁ in
    let violations₃ = check_flow_handles tables (limits tables) violations₂ in
    check_target tables (limits tables) violations₃
