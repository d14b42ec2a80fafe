-- ===== src/Facts/Kinds.antt =====
-- The enums of crates/zag-facts/src/tables.rs, in the order of their discriminants.

pub data ArtifactKind : Type 0 where
  executable library test : ArtifactKind

pub data ContainerKind : Type 0 where
  struct enumeration union error_set : ContainerKind

pub data TypeKind : Type 0 where
  void integer bool slice pointer struct opaque optional array float : TypeKind

pub data AllocatorSourceKind : Type 0 where
  global arena parameter unknown : AllocatorSourceKind

pub data MemoryOperationKind : Type 0 where
  allocate free resize : MemoryOperationKind

pub data PlaceKind : Type 0 where
  field_of_parameter local unknown : PlaceKind

pub data AssignmentSource : Type 0 where
  allocation parameter static_literal unknown : AssignmentSource

pub data ExpressionKind : Type 0 where
  literal parameter length cast allocation struct_literal unsupported null identifier field binary
        unary index call branch block return let_binding assign group question method while for
        match arm wrap :
      ExpressionKind
