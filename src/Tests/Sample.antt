-- ===== src/Tests/Sample.antt =====
-- A small program: `main` calls `init` and `deinit`, `deinit` calls `release`, and `main` calls
-- `release` too, with an arena where `deinit` hands on what is global. `init` allocates the bytes of
-- a buffer and `release` frees them.
use zag.Prelude.{[], ◌∷◌, u32_mod, ◌<◌, arith}
use zag.Facts.Handles.{no_index}
use zag.Facts.Kinds.{
  ArtifactKind, ContainerKind, TypeKind, AllocatorSourceKind, MemoryOperationKind, PlaceKind,
  AssignmentSource,
}
use zag.Facts.Tables.{Tables}
use zag.Facts.Access.{call_count}

abbrev pub sample : Tables
sample = record {
  target = 0;
  strings = record { bytes = 98 ∷ 117 ∷ 102 ∷ []; offsets = 0 ∷ 3 ∷ [] };
  modules = record {
    name = 0 ∷ [];
    path = 0 ∷ [];
    unresolved_start = 0 ∷ [];
    unresolved_count = 0 ∷ [];
  };
  unresolved_imports = record { owner = []; name = [] };
  artifacts = record { name = 0 ∷ []; root = 0 ∷ []; kind = ArtifactKind.executable ∷ [] };
  types = record {
    kind = TypeKind.integer ∷ TypeKind.slice ∷ TypeKind.optional ∷ [];
    element = no_index ∷ 0 ∷ 1 ∷ [];
    count = 0 ∷ 0 ∷ 0 ∷ [];
    module_id = 0 ∷ 0 ∷ 0 ∷ [];
    name = no_index ∷ no_index ∷ no_index ∷ [];
    size = 1 ∷ 16 ∷ 24 ∷ [];
    alignment = 1 ∷ 8 ∷ 8 ∷ [];
    bit_width = 8 ∷ 0 ∷ 0 ∷ [];
    flags = 0 ∷ 0 ∷ 0 ∷ [];
  };
  structs = record {
    name = 0 ∷ [];
    module_id = 0 ∷ [];
    type_id = 0 ∷ [];
    field_start = 0 ∷ [];
    field_count = 2 ∷ [];
    size = 24 ∷ [];
    alignment = 8 ∷ [];
    flags = 0 ∷ [];
    deinit = 1 ∷ [];
    kind = ContainerKind.struct ∷ [];
  };
  fields = record {
    owner = 0 ∷ 0 ∷ [];
    name = 0 ∷ 0 ∷ [];
    field_type = 1 ∷ 0 ∷ [];
    offset = 0 ∷ 16 ∷ [];
  };
  functions = record {
    name = 0 ∷ 0 ∷ 0 ∷ 0 ∷ [];
    module_id = 0 ∷ 0 ∷ 0 ∷ 0 ∷ [];
    owner = 0 ∷ 0 ∷ no_index ∷ no_index ∷ [];
    parameter_start = 0 ∷ 1 ∷ 2 ∷ 3 ∷ [];
    parameter_count = 1 ∷ 1 ∷ 1 ∷ 0 ∷ [];
    returns = 0 ∷ 0 ∷ 0 ∷ 0 ∷ [];
    error_set = no_index ∷ no_index ∷ no_index ∷ no_index ∷ [];
    flags = 0 ∷ 0 ∷ 0 ∷ 0 ∷ [];
    line = 1 ∷ 2 ∷ 3 ∷ 4 ∷ [];
    body = no_index ∷ no_index ∷ no_index ∷ no_index ∷ [];
  };
  parameters = record {
    owner = 0 ∷ 1 ∷ 2 ∷ [];
    name = 0 ∷ 0 ∷ 0 ∷ [];
    parameter_type = 0 ∷ 0 ∷ 0 ∷ [];
    flags = 1 ∷ 1 ∷ 1 ∷ [];
  };
  allocator_sources = record {
    kind =
        AllocatorSourceKind.global ∷ AllocatorSourceKind.parameter ∷ AllocatorSourceKind.arena
        ∷ AllocatorSourceKind.parameter ∷ [];
    function = 3 ∷ 1 ∷ 3 ∷ 0 ∷ [];
    parameter_index = 0 ∷ 0 ∷ 0 ∷ 0 ∷ [];
  };
  calls = record { caller = 3 ∷ 3 ∷ 1 ∷ 3 ∷ []; callee = 0 ∷ 1 ∷ 2 ∷ 2 ∷ [] };
  call_arguments = record {
    call = 0 ∷ 1 ∷ 2 ∷ 3 ∷ [];
    parameter_index = 0 ∷ 0 ∷ 0 ∷ 0 ∷ [];
    source = 0 ∷ 0 ∷ 1 ∷ 2 ∷ [];
  };
  memory_operations = record {
    function = 0 ∷ 2 ∷ [];
    kind = MemoryOperationKind.allocate ∷ MemoryOperationKind.free ∷ [];
    allocator = 3 ∷ 3 ∷ [];
    place = PlaceKind.field_of_parameter ∷ PlaceKind.field_of_parameter ∷ [];
    place_field = 0 ∷ 0 ∷ [];
  };
  expressions = record {
    kind = [];
    text = [];
    parameter = [];
    result = [];
    child_start = [];
    child_count = [];
    children = [];
    field = [];
    line = [];
  };
  field_assignments = record {
    field = 0 ∷ [];
    function = 0 ∷ [];
    source = AssignmentSource.allocation ∷ [];
    memory_operation = 0 ∷ [];
    expression = no_index ∷ [];
    line = 1 ∷ [];
  };
}

pub sample-calls : call_count sample.calls < u32_mod
sample-calls = omega arith

-- The same program with its calls in the order of their callers.
abbrev pub sorted_sample : Tables
sorted_sample = record sample {
  calls = record { caller = 1 ∷ 3 ∷ 3 ∷ 3 ∷ []; callee = 2 ∷ 0 ∷ 1 ∷ 2 ∷ [] };
  call_arguments = record {
    call = 0 ∷ 1 ∷ 2 ∷ 3 ∷ [];
    parameter_index = 0 ∷ 0 ∷ 0 ∷ 0 ∷ [];
    source = 1 ∷ 0 ∷ 0 ∷ 2 ∷ [];
  };
}
