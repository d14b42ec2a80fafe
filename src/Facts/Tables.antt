-- ===== src/Facts/Tables.antt =====
-- The fact tables of crates/zag-facts/src/tables.rs: each table is a struct of columns, and a
-- column is a list. The field `module` is `module_id` here.
use zag.Prelude.{ℕ, List}
use zag.Facts.Handles.{
  StringId, ModuleId, TypeId, StructId, FieldId, FunctionId, CallId, AllocatorSourceId,
  MemoryOperationId, ExpressionId,
}
use zag.Facts.Kinds.{
  ArtifactKind, ContainerKind, TypeKind, AllocatorSourceKind, MemoryOperationKind, PlaceKind,
  AssignmentSource, ExpressionKind,
}

pub record Modules : Type 0 where
  pub name : List StringId
  pub path : List StringId
  pub unresolved_start : List ℕ
  pub unresolved_count : List ℕ

pub record UnresolvedImports : Type 0 where
  pub owner : List ModuleId
  pub name : List StringId

pub record Artifacts : Type 0 where
  pub name : List StringId
  pub root : List ModuleId
  pub kind : List ArtifactKind

pub record Strings : Type 0 where
  pub bytes : List ℕ
  pub offsets : List ℕ

pub record Types : Type 0 where
  pub kind : List TypeKind
  pub element : List TypeId
  pub count : List ℕ
  pub module_id : List ModuleId
  pub name : List StringId
  pub size : List ℕ
  pub alignment : List ℕ
  pub bit_width : List ℕ
  pub flags : List ℕ

pub record Structs : Type 0 where
  pub name : List StringId
  pub module_id : List ModuleId
  pub type_id : List TypeId
  pub field_start : List ℕ
  pub field_count : List ℕ
  pub size : List ℕ
  pub alignment : List ℕ
  pub flags : List ℕ
  pub deinit : List FunctionId
  pub kind : List ContainerKind

pub record Fields : Type 0 where
  pub owner : List StructId
  pub name : List StringId
  pub field_type : List TypeId
  pub offset : List ℕ

pub record Functions : Type 0 where
  pub name : List StringId
  pub module_id : List ModuleId
  pub owner : List StructId
  pub parameter_start : List ℕ
  pub parameter_count : List ℕ
  pub returns : List TypeId
  pub error_set : List StructId
  pub flags : List ℕ
  pub line : List ℕ
  pub body : List ExpressionId

pub record Parameters : Type 0 where
  pub owner : List FunctionId
  pub name : List StringId
  pub parameter_type : List TypeId
  pub flags : List ℕ

pub record AllocatorSources : Type 0 where
  pub kind : List AllocatorSourceKind
  pub function : List FunctionId
  pub parameter_index : List ℕ

pub record Calls : Type 0 where
  pub caller : List FunctionId
  pub callee : List FunctionId

pub record CallArguments : Type 0 where
  pub call : List CallId
  pub parameter_index : List ℕ
  pub source : List AllocatorSourceId

pub record MemoryOperations : Type 0 where
  pub function : List FunctionId
  pub kind : List MemoryOperationKind
  pub allocator : List AllocatorSourceId
  pub place : List PlaceKind
  pub place_field : List FieldId

pub record Expressions : Type 0 where
  pub kind : List ExpressionKind
  pub text : List StringId
  pub parameter : List ℕ
  pub result : List TypeId
  pub child_start : List ℕ
  pub child_count : List ℕ
  pub children : List ExpressionId
  pub field : List FieldId
  pub line : List ℕ

pub record FieldAssignments : Type 0 where
  pub field : List FieldId
  pub function : List FunctionId
  pub source : List AssignmentSource
  pub memory_operation : List MemoryOperationId
  pub expression : List ExpressionId
  pub line : List ℕ

pub record Tables : Type 0 where
  pub target : StringId
  pub strings : Strings
  pub modules : Modules
  pub unresolved_imports : UnresolvedImports
  pub artifacts : Artifacts
  pub types : Types
  pub structs : Structs
  pub fields : Fields
  pub functions : Functions
  pub parameters : Parameters
  pub allocator_sources : AllocatorSources
  pub calls : Calls
  pub call_arguments : CallArguments
  pub memory_operations : MemoryOperations
  pub expressions : Expressions
  pub field_assignments : FieldAssignments
