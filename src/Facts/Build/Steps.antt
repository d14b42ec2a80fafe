-- ===== src/Facts/Build/Steps.antt =====
-- One call of a builder of crates/zag-facts/src/build.rs, as a step from tables to tables, and the
-- tables that calls make out of the empty ones. A call that panics is no step.
use zag.Prelude.{ℕ, ◌≡◌, Bool, some, List}
use zag.Facts.Handles.{
  StringId, ModuleId, TypeId, StructId, FieldId, FunctionId, CallId, AllocatorSourceId,
  MemoryOperationId, ExpressionId,
}
use zag.Facts.Kinds.{
  ArtifactKind, ContainerKind, AllocatorSourceKind, MemoryOperationKind, PlaceKind,
  AssignmentSource, ExpressionKind,
}
use zag.Facts.Tables.{Tables}
use zag.Facts.Access.{empty_tables}
use zag.Facts.Build.Types
use zag.Facts.Build.Rows
use zag.Facts.Build.Flow
use zag.Facts.Build.Declare

pub data Builds (tables : Tables) : Tables → Type 0 where
  push_float_type_call : (bit_width : ℕ) → Builds tables (Types.push_float_type tables bit_width).0
  push_integer_type_call :
      (bit_width : ℕ) (signed : Bool)
      → Builds tables (Types.push_integer_type tables bit_width signed).0
  push_slice_type_call : (element : TypeId) → Builds tables (Types.push_slice_type tables element).0
  push_pointer_type_call :
      (element : TypeId) → Builds tables (Types.push_pointer_type tables element).0
  push_optional_type_call :
      (element : TypeId) → Builds tables (Types.push_optional_type tables element).0
  push_array_type_call :
      (element : TypeId) (count size : ℕ)
      → Builds tables (Types.push_array_type tables element count size).0
  push_void_type_call : Builds tables (Types.push_void_type tables).0
  push_opaque_type_call : (name : StringId) → Builds tables (Types.push_opaque_type tables name).0
  push_struct_type_call :
      (name : StringId) (size alignment : ℕ)
      → Builds tables (Types.push_struct_type tables name size alignment).0
  set_type_flags_call :
      (kind : TypeId) (flags : ℕ) → Builds tables (Types.set_type_flags tables kind flags)
  set_type_module_call :
      (kind : TypeId) (module_id : ModuleId)
      → Builds tables (Types.set_type_module tables kind module_id)
  push_struct_call :
      (name : StringId) (type_id : TypeId) (size alignment flags : ℕ)
      → Builds tables (Rows.push_struct tables name type_id size alignment flags).0
  set_struct_kind_call :
      (owner : StructId) (kind : ContainerKind)
      → Builds tables (Rows.set_struct_kind tables owner kind)
  set_struct_deinit_call :
      (owner : StructId) (function : FunctionId) {after : Tables}
      → Rows.set_struct_deinit tables owner function ≡ some after
      → Builds tables after
  set_struct_module_call :
      (owner : StructId) (module_id : ModuleId)
      → Builds tables (Rows.set_struct_module tables owner module_id)
  push_field_call :
      (owner : StructId) (name : StringId) (field_type : TypeId) (offset : ℕ) {after : Tables}
      (id : ℕ)
      → Rows.push_field tables owner name field_type offset ≡ some (after, id)
      → Builds tables after
  push_function_call :
      (name : StringId) (owner : StructId) → Builds tables (Rows.push_function tables name owner).0
  set_function_module_call :
      (function : FunctionId) (module_id : ModuleId)
      → Builds tables (Rows.set_function_module tables function module_id)
  set_function_body_call :
      (function : FunctionId) (body : ExpressionId)
      → Builds tables (Rows.set_function_body tables function body)
  set_function_line_call :
      (function : FunctionId) (line : ℕ)
      → Builds tables (Rows.set_function_line tables function line)
  set_function_signature_call :
      (function : FunctionId) (returns : TypeId) (error_set : StructId) (fallible : Bool)
      {after : Tables}
      → Rows.set_function_signature tables function returns error_set fallible ≡ some after
      → Builds tables after
  push_parameter_call :
      (owner : FunctionId) (name : StringId) (parameter_type : TypeId) (flags : ℕ) {after : Tables}
      → Rows.push_parameter tables owner name parameter_type flags ≡ some after
      → Builds tables after
  push_allocator_source_call :
      (kind : AllocatorSourceKind) (function : FunctionId) (parameter_index : ℕ)
      → Builds tables (Flow.push_allocator_source tables kind function parameter_index).0
  push_call_call :
      (caller callee : FunctionId) → Builds tables (Flow.push_call tables caller callee).0
  push_call_argument_call :
      (call : CallId) (parameter_index : ℕ) (source : AllocatorSourceId)
      → Builds tables (Flow.push_call_argument tables call parameter_index source)
  push_memory_operation_call :
      (function : FunctionId) (kind : MemoryOperationKind) (allocator : AllocatorSourceId)
      (place : PlaceKind) (place_field : FieldId)
      → Builds tables
          (Flow.push_memory_operation tables function kind allocator place place_field).0
  push_field_assignment_call :
      (field : FieldId) (function : FunctionId) (source : AssignmentSource)
      (memory_operation : MemoryOperationId)
      → Builds tables (Flow.push_field_assignment tables field function source memory_operation)
  push_field_assignment_at_call :
      (field : FieldId) (function : FunctionId) (source : AssignmentSource)
      (memory_operation : MemoryOperationId) (expression : ExpressionId) (line : ℕ)
      → Builds tables (
          Flow.push_field_assignment_at tables field function source memory_operation expression
            line)
  push_field_assignment_with_call :
      (field : FieldId) (function : FunctionId) (source : AssignmentSource)
      (memory_operation : MemoryOperationId) (expression : ExpressionId)
      → Builds tables
          (Flow.push_field_assignment_with tables field function source memory_operation
            expression).0
  set_field_assignment_line_call :
      (row line : ℕ) → Builds tables (Flow.set_field_assignment_line tables row line)
  push_expression_call :
      (kind : ExpressionKind) (text : StringId) (parameter : ℕ) (result : TypeId) (field : FieldId)
      (children : List ExpressionId)
      → Builds tables (Flow.push_expression tables kind text parameter result field children).0
  set_expression_line_call :
      (expression : ExpressionId) (line : ℕ)
      → Builds tables (Flow.set_expression_line tables expression line)
  push_body_expression_call :
      (kind : ExpressionKind) (text : StringId) (line : ℕ) (children : List ExpressionId)
      → Builds tables (Flow.push_body_expression tables kind text line children).0
  push_string_call : (text : List ℕ) → Builds tables (Declare.add_string tables text).0
  intern_call : (text : List ℕ) → Builds tables (Declare.add_interned tables text).0
  declare_module_call :
      (name path : List ℕ) → Builds tables (Declare.declare_module tables name path).0
  name_root_module_call :
      (name path : List ℕ) {after : Tables}
      → Declare.name_root_module tables name path ≡ some after
      → Builds tables after
  push_unresolved_import_call :
      (owner : ModuleId) (name : List ℕ)
      → Builds tables (Declare.push_unresolved_import tables owner name)
  declare_artifact_call :
      (name : List ℕ) (root : ModuleId) (kind : ArtifactKind)
      → Builds tables (Declare.declare_artifact tables name root kind).0
  declare_struct_call :
      (name : List ℕ) (size alignment flags : ℕ)
      → Builds tables (Declare.declare_struct tables name size alignment flags).0
  declare_field_call :
      (owner : StructId) (name : List ℕ) (field_type : TypeId) (offset : ℕ) {after : Tables}
      (id : ℕ)
      → Declare.declare_field tables owner name field_type offset ≡ some (after, id)
      → Builds tables after
  declare_function_call :
      (name : List ℕ) (owner : StructId)
      → Builds tables (Declare.declare_function tables name owner).0
  declare_parameter_call :
      (owner : FunctionId) (name : List ℕ) (parameter_type : TypeId) (flags : ℕ) {after : Tables}
      → Declare.declare_parameter tables owner name parameter_type flags ≡ some after
      → Builds tables after

-- Tables that calls of builders make.
pub data IsBuilt : Tables → Type 0 where
  empty : IsBuilt empty_tables
  step : {tables after : Tables} → IsBuilt tables → Builds tables after → IsBuilt after
