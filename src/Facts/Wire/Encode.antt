-- ===== src/Facts/Wire/Encode.antt =====
-- `encode` of crates/zag-facts/src/wire.rs: the tables' columns are appended in order. A column of
-- handles is a column of numbers already.
use zag.Prelude.{ℕ, List, [], ◌∷◌, map}
use zag.Facts.Tables.{
  Modules, UnresolvedImports, Artifacts, Types, Structs, Fields, Functions, Parameters,
  AllocatorSources, Calls, CallArguments, MemoryOperations, Expressions, FieldAssignments, Tables,
}
use zag.Facts.Wire.{magic, version, write_u32, write_u32_column, write_byte_column}
use zag.Facts.Wire.Kinds.{
  artifact_kind_raw, container_kind_raw, type_kind_raw, allocator_source_kind_raw,
  memory_operation_kind_raw, place_kind_raw, assignment_source_raw, expression_kind_raw,
}

-- The columns of a list, one behind the other.
unfoldable pub write_columns : List ℕ → List (List ℕ) → List ℕ
unfolding write_u32_column
write_columns out [] = out
write_columns out (column ∷ columns) = write_columns (write_u32_column out column) columns

-- The raw columns of each table in the order of the file.
abbrev pub modules_columns : Modules → List (List ℕ)
modules_columns t = t.name ∷ t.path ∷ t.unresolved_start ∷ t.unresolved_count ∷ []

abbrev pub unresolved_imports_columns : UnresolvedImports → List (List ℕ)
unresolved_imports_columns t = t.owner ∷ t.name ∷ []

abbrev pub artifacts_columns : Artifacts → List (List ℕ)
artifacts_columns t = t.name ∷ t.root ∷ (map artifact_kind_raw t.kind) ∷ []

abbrev pub types_columns : Types → List (List ℕ)
types_columns t =
    (map type_kind_raw t.kind)
    ∷ t.element
    ∷ t.count
    ∷ t.module_id
    ∷ t.name
    ∷ t.size
    ∷ t.alignment
    ∷ t.bit_width
    ∷ t.flags
    ∷ []

abbrev pub structs_columns : Structs → List (List ℕ)
structs_columns t =
    t.name
    ∷ t.module_id
    ∷ t.type_id
    ∷ t.field_start
    ∷ t.field_count
    ∷ t.size
    ∷ t.alignment
    ∷ t.flags
    ∷ t.deinit
    ∷ (map container_kind_raw t.kind)
    ∷ []

abbrev pub fields_columns : Fields → List (List ℕ)
fields_columns t = t.owner ∷ t.name ∷ t.field_type ∷ t.offset ∷ []

abbrev pub functions_columns : Functions → List (List ℕ)
functions_columns t =
    t.name ∷ t.module_id ∷ t.owner ∷ t.parameter_start ∷ t.parameter_count ∷ t.returns ∷ t.error_set
    ∷ t.flags ∷ t.line ∷ t.body ∷ []

abbrev pub parameters_columns : Parameters → List (List ℕ)
parameters_columns t = t.owner ∷ t.name ∷ t.parameter_type ∷ t.flags ∷ []

abbrev pub allocator_sources_columns : AllocatorSources → List (List ℕ)
allocator_sources_columns t =
    (map allocator_source_kind_raw t.kind) ∷ t.function ∷ t.parameter_index ∷ []

abbrev pub calls_columns : Calls → List (List ℕ)
calls_columns t = t.caller ∷ t.callee ∷ []

abbrev pub call_arguments_columns : CallArguments → List (List ℕ)
call_arguments_columns t = t.call ∷ t.parameter_index ∷ t.source ∷ []

abbrev pub memory_operations_columns : MemoryOperations → List (List ℕ)
memory_operations_columns t =
    t.function
    ∷ (map memory_operation_kind_raw t.kind)
    ∷ t.allocator
    ∷ (map place_kind_raw t.place)
    ∷ t.place_field
    ∷ []

abbrev pub expressions_columns : Expressions → List (List ℕ)
expressions_columns t =
    (map expression_kind_raw t.kind)
    ∷ t.text
    ∷ t.parameter
    ∷ t.result
    ∷ t.field
    ∷ t.line
    ∷ t.child_start
    ∷ t.child_count
    ∷ t.children
    ∷ []

abbrev pub field_assignments_columns : FieldAssignments → List (List ℕ)
field_assignments_columns t =
    t.field
    ∷ t.function
    ∷ (map assignment_source_raw t.source)
    ∷ t.memory_operation
    ∷ t.expression
    ∷ t.line
    ∷ []

unfoldable pub encode_modules : List ℕ → Tables → List ℕ
unfolding write_columns
encode_modules out tables =
    let out₁ = write_columns out (modules_columns tables.modules) in
    let out₂ = write_columns out₁ (unresolved_imports_columns tables.unresolved_imports) in
    write_columns out₂ (artifacts_columns tables.artifacts)

unfoldable pub encode_types : List ℕ → Tables → List ℕ
unfolding write_columns
encode_types out tables = write_columns out (types_columns tables.types)

unfoldable pub encode_structs : List ℕ → Tables → List ℕ
unfolding write_columns
encode_structs out tables = write_columns out (structs_columns tables.structs)

unfoldable pub encode_fields : List ℕ → Tables → List ℕ
unfolding write_columns
encode_fields out tables = write_columns out (fields_columns tables.fields)

unfoldable pub encode_functions : List ℕ → Tables → List ℕ
unfolding write_columns
encode_functions out tables =
    let out₁ = write_columns out (functions_columns tables.functions) in
    write_columns out₁ (parameters_columns tables.parameters)

unfoldable pub encode_side_tables : List ℕ → Tables → List ℕ
unfolding write_columns
encode_side_tables out tables =
    let out₁ = write_columns out (allocator_sources_columns tables.allocator_sources) in
    let out₂ = write_columns out₁ (calls_columns tables.calls) in
    let out₃ = write_columns out₂ (call_arguments_columns tables.call_arguments) in
    let out₄ = write_columns out₃ (memory_operations_columns tables.memory_operations) in
    let out₅ = write_columns out₄ (expressions_columns tables.expressions) in
    write_columns out₅ (field_assignments_columns tables.field_assignments)

unfoldable pub encode : Tables → List ℕ
unfolding write_u32 write_byte_column write_u32_column
encode tables =
    let out₁ = write_u32 magic version in
    let out₂ = write_u32 out₁ tables.target in
    let out₃ = write_byte_column out₂ tables.strings.bytes in
    let out₄ = write_u32_column out₃ tables.strings.offsets in
    let out₅ = encode_modules out₄ tables in
    let out₆ = encode_types out₅ tables in
    let out₇ = encode_structs out₆ tables in
    let out₈ = encode_fields out₇ tables in
    let out₉ = encode_functions out₈ tables in encode_side_tables out₉ tables
