-- ===== src/Facts/Handles.antt =====
-- The row numbers of crates/zag-facts/src/handles.rs. A handle is a `u32`, so it is a number here.
use Prim.Native.Nat.{ℕ}

-- The handle that names no row.
abbrev pub no_index : ℕ
no_index = 0xffff_ffff

abbrev pub StringId : Type 0
StringId = ℕ

abbrev pub ModuleId : Type 0
ModuleId = ℕ

abbrev pub ArtifactId : Type 0
ArtifactId = ℕ

abbrev pub TypeId : Type 0
TypeId = ℕ

abbrev pub StructId : Type 0
StructId = ℕ

abbrev pub FieldId : Type 0
FieldId = ℕ

abbrev pub FunctionId : Type 0
FunctionId = ℕ

abbrev pub ParameterId : Type 0
ParameterId = ℕ

abbrev pub CallId : Type 0
CallId = ℕ

abbrev pub AllocatorSourceId : Type 0
AllocatorSourceId = ℕ

abbrev pub MemoryOperationId : Type 0
MemoryOperationId = ℕ

abbrev pub ExpressionId : Type 0
ExpressionId = ℕ
