-- ===== src/Facts/Wire/Kinds.antt =====
-- The discriminants of the enums in crates/zag-facts/src/tables.rs, and the conversions back in
-- crates/zag-facts/src/wire.rs: the arms of a `match`, in order, are a list.
use Prim.Native.String.{String}
use zag.Prelude.{ℕ, ◌≡◌, refl, none, some, List, [], ◌∷◌, get_elem?}
use zag.Facts.Kinds.{
  ArtifactKind, ContainerKind, TypeKind, AllocatorSourceKind, MemoryOperationKind, PlaceKind,
  AssignmentSource, ExpressionKind,
}
use zag.Facts.Wire.{Result, ok, err, unknown_enum_value}

abbrev pub enum_from_raw : {A : Type 0} → String → List A → ℕ → Result A
enum_from_raw column arms value = elim (get_elem? arms value) [
  | none ↦ err (unknown_enum_value column value)
  | some kind ↦ ok kind
]

unfoldable pub artifact_kind_raw : ArtifactKind → ℕ
artifact_kind_raw ArtifactKind.executable = 0
artifact_kind_raw ArtifactKind.library = 1
artifact_kind_raw ArtifactKind.test = 2

unfoldable pub artifact_kind_from_raw : ℕ → Result ArtifactKind
artifact_kind_from_raw =
    enum_from_raw "artifacts.kind"
      (ArtifactKind.executable ∷ ArtifactKind.library ∷ ArtifactKind.test ∷ [])

pub artifact_kind_from_raw-raw :
    (kind : ArtifactKind) → artifact_kind_from_raw (artifact_kind_raw kind) ≡ ok kind
unfolding artifact_kind_raw artifact_kind_from_raw
artifact_kind_from_raw-raw ArtifactKind.executable = refl
artifact_kind_from_raw-raw _ = refl

unfoldable pub container_kind_raw : ContainerKind → ℕ
container_kind_raw ContainerKind.struct = 0
container_kind_raw ContainerKind.enumeration = 1
container_kind_raw ContainerKind.union = 2
container_kind_raw ContainerKind.error_set = 3

unfoldable pub container_kind_from_raw : ℕ → Result ContainerKind
container_kind_from_raw = enum_from_raw "structs.kind" (
    ContainerKind.struct ∷ ContainerKind.enumeration ∷ ContainerKind.union ∷ ContainerKind.error_set
    ∷ [])

pub container_kind_from_raw-raw :
    (kind : ContainerKind) → container_kind_from_raw (container_kind_raw kind) ≡ ok kind
unfolding container_kind_raw container_kind_from_raw
container_kind_from_raw-raw ContainerKind.struct = refl
container_kind_from_raw-raw _ = refl

unfoldable pub type_kind_raw : TypeKind → ℕ
type_kind_raw TypeKind.void = 0
type_kind_raw TypeKind.integer = 1
type_kind_raw TypeKind.bool = 2
type_kind_raw TypeKind.slice = 3
type_kind_raw TypeKind.pointer = 4
type_kind_raw TypeKind.struct = 5
type_kind_raw TypeKind.opaque = 6
type_kind_raw TypeKind.optional = 7
type_kind_raw TypeKind.array = 8
type_kind_raw TypeKind.float = 9

unfoldable pub type_kind_from_raw : ℕ → Result TypeKind
type_kind_from_raw = enum_from_raw "types.kind" (
    TypeKind.void ∷ TypeKind.integer ∷ TypeKind.bool ∷ TypeKind.slice ∷ TypeKind.pointer
    ∷ TypeKind.struct ∷ TypeKind.opaque ∷ TypeKind.optional ∷ TypeKind.array ∷ TypeKind.float ∷ [])

pub type_kind_from_raw-raw : (kind : TypeKind) → type_kind_from_raw (type_kind_raw kind) ≡ ok kind
unfolding type_kind_raw type_kind_from_raw
type_kind_from_raw-raw TypeKind.void = refl
type_kind_from_raw-raw _ = refl

unfoldable pub allocator_source_kind_raw : AllocatorSourceKind → ℕ
allocator_source_kind_raw AllocatorSourceKind.global = 0
allocator_source_kind_raw AllocatorSourceKind.arena = 1
allocator_source_kind_raw AllocatorSourceKind.parameter = 2
allocator_source_kind_raw AllocatorSourceKind.unknown = 3

unfoldable pub allocator_source_kind_from_raw : ℕ → Result AllocatorSourceKind
allocator_source_kind_from_raw = enum_from_raw "allocator_sources.kind" (
    AllocatorSourceKind.global ∷ AllocatorSourceKind.arena ∷ AllocatorSourceKind.parameter
    ∷ AllocatorSourceKind.unknown ∷ [])

pub allocator_source_kind_from_raw-raw :
    (kind : AllocatorSourceKind)
    → allocator_source_kind_from_raw (allocator_source_kind_raw kind) ≡ ok kind
unfolding allocator_source_kind_raw allocator_source_kind_from_raw
allocator_source_kind_from_raw-raw AllocatorSourceKind.global = refl
allocator_source_kind_from_raw-raw _ = refl

unfoldable pub memory_operation_kind_raw : MemoryOperationKind → ℕ
memory_operation_kind_raw MemoryOperationKind.allocate = 0
memory_operation_kind_raw MemoryOperationKind.free = 1
memory_operation_kind_raw MemoryOperationKind.resize = 2

unfoldable pub memory_operation_kind_from_raw : ℕ → Result MemoryOperationKind
memory_operation_kind_from_raw =
    enum_from_raw "memory_operations.kind"
      (MemoryOperationKind.allocate ∷ MemoryOperationKind.free ∷ MemoryOperationKind.resize ∷ [])

pub memory_operation_kind_from_raw-raw :
    (kind : MemoryOperationKind)
    → memory_operation_kind_from_raw (memory_operation_kind_raw kind) ≡ ok kind
unfolding memory_operation_kind_raw memory_operation_kind_from_raw
memory_operation_kind_from_raw-raw MemoryOperationKind.allocate = refl
memory_operation_kind_from_raw-raw _ = refl

unfoldable pub place_kind_raw : PlaceKind → ℕ
place_kind_raw PlaceKind.field_of_parameter = 0
place_kind_raw PlaceKind.local = 1
place_kind_raw PlaceKind.unknown = 2

unfoldable pub place_kind_from_raw : ℕ → Result PlaceKind
place_kind_from_raw =
    enum_from_raw "memory_operations.place"
      (PlaceKind.field_of_parameter ∷ PlaceKind.local ∷ PlaceKind.unknown ∷ [])

pub place_kind_from_raw-raw :
    (kind : PlaceKind) → place_kind_from_raw (place_kind_raw kind) ≡ ok kind
unfolding place_kind_raw place_kind_from_raw
place_kind_from_raw-raw PlaceKind.field_of_parameter = refl
place_kind_from_raw-raw _ = refl

unfoldable pub assignment_source_raw : AssignmentSource → ℕ
assignment_source_raw AssignmentSource.allocation = 0
assignment_source_raw AssignmentSource.parameter = 1
assignment_source_raw AssignmentSource.static_literal = 2
assignment_source_raw AssignmentSource.unknown = 3

unfoldable pub assignment_source_from_raw : ℕ → Result AssignmentSource
assignment_source_from_raw = enum_from_raw "field_assignments.source" (
    AssignmentSource.allocation ∷ AssignmentSource.parameter ∷ AssignmentSource.static_literal
    ∷ AssignmentSource.unknown ∷ [])

pub assignment_source_from_raw-raw :
    (kind : AssignmentSource) → assignment_source_from_raw (assignment_source_raw kind) ≡ ok kind
unfolding assignment_source_raw assignment_source_from_raw
assignment_source_from_raw-raw AssignmentSource.allocation = refl
assignment_source_from_raw-raw _ = refl

unfoldable pub expression_kind_raw : ExpressionKind → ℕ
expression_kind_raw ExpressionKind.literal = 0
expression_kind_raw ExpressionKind.parameter = 1
expression_kind_raw ExpressionKind.length = 2
expression_kind_raw ExpressionKind.cast = 3
expression_kind_raw ExpressionKind.allocation = 4
expression_kind_raw ExpressionKind.struct_literal = 5
expression_kind_raw ExpressionKind.unsupported = 6
expression_kind_raw ExpressionKind.null = 7
expression_kind_raw ExpressionKind.identifier = 8
expression_kind_raw ExpressionKind.field = 9
expression_kind_raw ExpressionKind.binary = 10
expression_kind_raw ExpressionKind.unary = 11
expression_kind_raw ExpressionKind.index = 12
expression_kind_raw ExpressionKind.call = 13
expression_kind_raw ExpressionKind.branch = 14
expression_kind_raw ExpressionKind.block = 15
expression_kind_raw ExpressionKind.return = 16
expression_kind_raw ExpressionKind.let_binding = 17
expression_kind_raw ExpressionKind.assign = 18
expression_kind_raw ExpressionKind.group = 19
expression_kind_raw ExpressionKind.question = 20
expression_kind_raw ExpressionKind.method = 21
expression_kind_raw ExpressionKind.while = 22
expression_kind_raw ExpressionKind.for = 23
expression_kind_raw ExpressionKind.match = 24
expression_kind_raw ExpressionKind.arm = 25
expression_kind_raw ExpressionKind.wrap = 26

unfoldable pub expression_kind_from_raw : ℕ → Result ExpressionKind
expression_kind_from_raw = enum_from_raw "expressions.kind" (
    ExpressionKind.literal ∷ ExpressionKind.parameter ∷ ExpressionKind.length ∷ ExpressionKind.cast
    ∷ ExpressionKind.allocation ∷ ExpressionKind.struct_literal ∷ ExpressionKind.unsupported
    ∷ ExpressionKind.null ∷ ExpressionKind.identifier ∷ ExpressionKind.field ∷ ExpressionKind.binary
    ∷ ExpressionKind.unary ∷ ExpressionKind.index ∷ ExpressionKind.call ∷ ExpressionKind.branch
    ∷ ExpressionKind.block ∷ ExpressionKind.return ∷ ExpressionKind.let_binding
    ∷ ExpressionKind.assign ∷ ExpressionKind.group ∷ ExpressionKind.question ∷ ExpressionKind.method
    ∷ ExpressionKind.while ∷ ExpressionKind.for ∷ ExpressionKind.match ∷ ExpressionKind.arm
    ∷ ExpressionKind.wrap ∷ [])

pub expression_kind_from_raw-raw :
    (kind : ExpressionKind) → expression_kind_from_raw (expression_kind_raw kind) ≡ ok kind
unfolding expression_kind_raw expression_kind_from_raw
expression_kind_from_raw-raw ExpressionKind.literal = refl
expression_kind_from_raw-raw _ = refl
