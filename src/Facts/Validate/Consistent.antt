-- ===== src/Facts/Validate/Consistent.antt =====
-- What it means that fact tables are consistent, independently of the checks in
-- crates/zag-facts/src/validate.rs.
use zag.Prelude.{ℕ, ◌<◌, ◌≡◌, ◌⊎◌, some, List, [], ◌∷◌, length, get_elem?, All, Follow, u32_mod}
use zag.Facts.Handles.{no_index}
use zag.Facts.Kinds.{AllocatorSourceKind, PlaceKind}
use zag.Facts.Tables.{Tables}
use zag.Facts.Access.{
  string_count, module_count, artifact_count, type_count, struct_count, field_count, function_count,
  parameter_count, call_count, memory_operation_count,
}
use zag.Facts.Validate.Loops.{Ascends, Covers}
use zag.Facts.Validate.Rows.{PlaceNames, SourceNames, ArgumentNames}

-- Columns as long as the one that the rows are counted by.
abbrev pub AllOf : ℕ → List ℕ → Type 0
AllOf count lengths = All (λ size. count ≡ size) lengths

-- Every table has columns of one length.
pub record HasEqualColumns (tables : Tables) : Type 0 where
  pub modules : AllOf (module_count tables.modules) (
      (length tables.modules.path)
      ∷ (length tables.modules.unresolved_start)
      ∷ (length tables.modules.unresolved_count)
      ∷ [])
  pub unresolved_imports :
      AllOf (length tables.unresolved_imports.owner) ((length tables.unresolved_imports.name) ∷ [])
  pub artifacts :
      AllOf
        (artifact_count tables.artifacts)
        ((length tables.artifacts.root) ∷ (length tables.artifacts.kind) ∷ [])
  pub types : AllOf (type_count tables.types) (
      (length tables.types.element)
      ∷ (length tables.types.count)
      ∷ (length tables.types.module_id)
      ∷ (length tables.types.name)
      ∷ (length tables.types.size)
      ∷ (length tables.types.alignment)
      ∷ (length tables.types.bit_width)
      ∷ (length tables.types.flags)
      ∷ [])
  pub structs : AllOf (struct_count tables.structs) (
      (length tables.structs.module_id)
      ∷ (length tables.structs.type_id)
      ∷ (length tables.structs.field_start)
      ∷ (length tables.structs.field_count)
      ∷ (length tables.structs.size)
      ∷ (length tables.structs.alignment)
      ∷ (length tables.structs.flags)
      ∷ (length tables.structs.deinit)
      ∷ (length tables.structs.kind)
      ∷ [])
  pub fields : AllOf (field_count tables.fields) (
      (length tables.fields.name)
      ∷ (length tables.fields.field_type)
      ∷ (length tables.fields.offset)
      ∷ [])
  pub functions : AllOf (function_count tables.functions) (
      (length tables.functions.module_id)
      ∷ (length tables.functions.owner)
      ∷ (length tables.functions.parameter_start)
      ∷ (length tables.functions.parameter_count)
      ∷ (length tables.functions.returns)
      ∷ (length tables.functions.error_set)
      ∷ (length tables.functions.flags)
      ∷ (length tables.functions.line)
      ∷ (length tables.functions.body)
      ∷ [])
  pub parameters : AllOf (parameter_count tables.parameters) (
      (length tables.parameters.name)
      ∷ (length tables.parameters.parameter_type)
      ∷ (length tables.parameters.flags)
      ∷ [])
  pub allocator_sources : AllOf (length tables.allocator_sources.kind) (
      (length tables.allocator_sources.function)
      ∷ (length tables.allocator_sources.parameter_index)
      ∷ [])
  pub calls : AllOf (call_count tables.calls) ((length tables.calls.callee) ∷ [])
  pub call_arguments :
      AllOf (length tables.call_arguments.call) (
        (length tables.call_arguments.parameter_index) ∷ (length tables.call_arguments.source) ∷ [])
  pub memory_operations : AllOf (memory_operation_count tables.memory_operations) (
      (length tables.memory_operations.kind)
      ∷ (length tables.memory_operations.allocator)
      ∷ (length tables.memory_operations.place)
      ∷ (length tables.memory_operations.place_field)
      ∷ [])
  pub field_assignments : AllOf (length tables.field_assignments.field) (
      (length tables.field_assignments.function)
      ∷ (length tables.field_assignments.source)
      ∷ (length tables.field_assignments.memory_operation)
      ∷ (length tables.field_assignments.expression)
      ∷ (length tables.field_assignments.line)
      ∷ [])
  pub expressions : AllOf (length tables.expressions.kind) (
      (length tables.expressions.line)
      ∷ (length tables.expressions.text)
      ∷ (length tables.expressions.parameter)
      ∷ (length tables.expressions.result)
      ∷ (length tables.expressions.field)
      ∷ (length tables.expressions.child_start)
      ∷ (length tables.expressions.child_count)
      ∷ [])

-- Handles below a limit, and handles that may be absent.
abbrev pub Named : ℕ → List ℕ → Type 0
Named limit handles = All (λ handle. handle < limit) handles

abbrev pub MayBeNamed : ℕ → List ℕ → Type 0
MayBeNamed limit handles = All (λ handle. (handle ≡ no_index) ⊎ (handle < limit)) handles

-- Every handle names a row of its table.
pub record HasHandles (tables : Tables) : Type 0 where
  pub modules_name : MayBeNamed (string_count tables.strings) tables.modules.name
  pub modules_path : MayBeNamed (string_count tables.strings) tables.modules.path
  pub unresolved_imports_owner : Named (module_count tables.modules) tables.unresolved_imports.owner
  pub unresolved_imports_name : Named (string_count tables.strings) tables.unresolved_imports.name
  pub artifacts_name : Named (string_count tables.strings) tables.artifacts.name
  pub artifacts_root : MayBeNamed (module_count tables.modules) tables.artifacts.root
  pub types_module : Named (module_count tables.modules) tables.types.module_id
  pub types_element : MayBeNamed (type_count tables.types) tables.types.element
  pub types_name : MayBeNamed (string_count tables.strings) tables.types.name
  pub structs_module : Named (module_count tables.modules) tables.structs.module_id
  pub functions_module : Named (module_count tables.modules) tables.functions.module_id
  pub structs_name : Named (string_count tables.strings) tables.structs.name
  pub structs_type_id : Named (type_count tables.types) tables.structs.type_id
  pub structs_deinit : MayBeNamed (function_count tables.functions) tables.structs.deinit
  pub fields_owner : Named (struct_count tables.structs) tables.fields.owner
  pub fields_name : Named (string_count tables.strings) tables.fields.name
  pub fields_field_type : Named (type_count tables.types) tables.fields.field_type
  pub functions_name : Named (string_count tables.strings) tables.functions.name
  pub functions_owner : MayBeNamed (struct_count tables.structs) tables.functions.owner
  pub functions_returns : MayBeNamed (type_count tables.types) tables.functions.returns
  pub functions_error_set : MayBeNamed (struct_count tables.structs) tables.functions.error_set
  pub parameters_owner : Named (function_count tables.functions) tables.parameters.owner
  pub parameters_name : Named (string_count tables.strings) tables.parameters.name
  pub parameters_parameter_type : Named (type_count tables.types) tables.parameters.parameter_type
  pub allocator_sources_function :
      MayBeNamed (function_count tables.functions) tables.allocator_sources.function
  pub calls_caller : Named (function_count tables.functions) tables.calls.caller
  pub calls_callee : Named (function_count tables.functions) tables.calls.callee
  pub call_arguments_call : Named (call_count tables.calls) tables.call_arguments.call
  pub call_arguments_source :
      Named (length tables.allocator_sources.kind) tables.call_arguments.source
  pub memory_operations_function :
      Named (function_count tables.functions) tables.memory_operations.function
  pub memory_operations_allocator :
      MayBeNamed (length tables.allocator_sources.kind) tables.memory_operations.allocator
  pub memory_operations_place_field :
      MayBeNamed (field_count tables.fields) tables.memory_operations.place_field
  pub field_assignments_field : Named (field_count tables.fields) tables.field_assignments.field
  pub field_assignments_function :
      Named (function_count tables.functions) tables.field_assignments.function
  pub field_assignments_memory_operation :
      MayBeNamed
        (memory_operation_count tables.memory_operations)
        tables.field_assignments.memory_operation
  pub target : (tables.target ≡ no_index) ⊎ (tables.target < string_count tables.strings)

pub record IsConsistent (tables : Tables) : Type 0 where
  pub columns : HasEqualColumns tables
  pub strings : Covers tables.strings.offsets tables.strings.bytes
  pub handles : HasHandles tables
  -- The ranges of the owners follow one another and take in all the rows.
  pub fields :
      Follow 0 tables.structs.field_start tables.structs.field_count (field_count tables.fields)
  pub fields_fit : field_count tables.fields < u32_mod
  pub grouped : Ascends tables.fields.owner
  pub parameters :
      Follow 0 tables.functions.parameter_start tables.functions.parameter_count
        (parameter_count tables.parameters)
  pub parameters_fit : parameter_count tables.parameters < u32_mod
  pub imports :
      Follow 0 tables.modules.unresolved_start tables.modules.unresolved_count
        (length tables.unresolved_imports.owner)
  pub imports_fit : length tables.unresolved_imports.owner < u32_mod
  pub root :
      module_count tables.modules ≡ 0
      → (struct_count tables.structs ≡ 0) × (function_count tables.functions ≡ 0)
  -- Parameter indices name parameters, and places name fields.
  pub sources :
      (row : ℕ) (kind : AllocatorSourceKind)
      → get_elem? tables.allocator_sources.kind row ≡ some kind
      → SourceNames tables row kind
  pub arguments :
      (row call : ℕ)
      → get_elem? tables.call_arguments.call row ≡ some call
      → ArgumentNames tables row call
  pub places :
      (row : ℕ) (place : PlaceKind)
      → get_elem? tables.memory_operations.place row ≡ some place
      → PlaceNames tables.memory_operations.place_field row place
  pub calls : Ascends tables.calls.caller
