-- ===== src/Facts/Wire/Decode.antt =====
-- `decode` of crates/zag-facts/src/wire.rs. The source fills the columns of an empty set of tables;
-- here a reader gives the tables that it fills.
use zag.Prelude.{
  ℕ, Bool, true, false, ◌&&◌, ◌||◌, not, List, [], ◌∷◌, ltb, ◌==◌, if◌then◌else◌, length, take,
}
use zag.Facts.Tables.{
  Modules, UnresolvedImports, Artifacts, Types, Structs, Fields, Functions, Parameters,
  AllocatorSources, Calls, CallArguments, MemoryOperations, Expressions, FieldAssignments, Tables,
}
use zag.Facts.Wire.{
  bad_magic, unsupported_version, trailing_bytes, Result, ok, err, magic, version, Reader, ◌>>=◌,
  pure, and_then, read_u32, read_u32_column, read_byte_column, read_enum_column,
}
use zag.Facts.Wire.Kinds.{
  artifact_kind_from_raw, container_kind_from_raw, type_kind_from_raw,
  allocator_source_kind_from_raw, memory_operation_kind_from_raw, place_kind_from_raw,
  assignment_source_from_raw, expression_kind_from_raw,
}

unfoldable pub read_modules : Reader Modules
read_modules = do
  name ← read_u32_column
  path ← read_u32_column
  unresolved_start ← read_u32_column
  unresolved_count ← read_u32_column
  pure (record {
    name = name;
    path = path;
    unresolved_start = unresolved_start;
    unresolved_count = unresolved_count;
  })

unfoldable pub read_unresolved_imports : Reader UnresolvedImports
read_unresolved_imports = do
  owner ← read_u32_column
  name ← read_u32_column
  pure (record { owner = owner; name = name })

unfoldable pub read_artifacts : Reader Artifacts
read_artifacts = do
  name ← read_u32_column
  root ← read_u32_column
  kind ← read_enum_column artifact_kind_from_raw
  pure (record { name = name; root = root; kind = kind })

unfoldable pub read_types : Reader Types
read_types = do
  kind ← read_enum_column type_kind_from_raw
  element ← read_u32_column
  count ← read_u32_column
  module_id ← read_u32_column
  name ← read_u32_column
  size ← read_u32_column
  alignment ← read_u32_column
  bit_width ← read_u32_column
  flags ← read_u32_column
  pure (record {
    kind = kind;
    element = element;
    count = count;
    module_id = module_id;
    name = name;
    size = size;
    alignment = alignment;
    bit_width = bit_width;
    flags = flags;
  })

unfoldable pub read_structs : Reader Structs
read_structs = do
  name ← read_u32_column
  module_id ← read_u32_column
  type_id ← read_u32_column
  field_start ← read_u32_column
  field_count ← read_u32_column
  size ← read_u32_column
  alignment ← read_u32_column
  flags ← read_u32_column
  deinit ← read_u32_column
  kind ← read_enum_column container_kind_from_raw
  pure (record {
    name = name;
    module_id = module_id;
    type_id = type_id;
    field_start = field_start;
    field_count = field_count;
    size = size;
    alignment = alignment;
    flags = flags;
    deinit = deinit;
    kind = kind;
  })

unfoldable pub read_fields : Reader Fields
read_fields = do
  owner ← read_u32_column
  name ← read_u32_column
  field_type ← read_u32_column
  offset ← read_u32_column
  pure (record { owner = owner; name = name; field_type = field_type; offset = offset })

unfoldable pub read_functions : Reader Functions
read_functions = do
  name ← read_u32_column
  module_id ← read_u32_column
  owner ← read_u32_column
  parameter_start ← read_u32_column
  parameter_count ← read_u32_column
  returns ← read_u32_column
  error_set ← read_u32_column
  flags ← read_u32_column
  line ← read_u32_column
  body ← read_u32_column
  pure (record {
    name = name;
    module_id = module_id;
    owner = owner;
    parameter_start = parameter_start;
    parameter_count = parameter_count;
    returns = returns;
    error_set = error_set;
    flags = flags;
    line = line;
    body = body;
  })

unfoldable pub read_parameters : Reader Parameters
read_parameters = do
  owner ← read_u32_column
  name ← read_u32_column
  parameter_type ← read_u32_column
  flags ← read_u32_column
  pure (record { owner = owner; name = name; parameter_type = parameter_type; flags = flags })

unfoldable pub read_allocator_sources : Reader AllocatorSources
read_allocator_sources = do
  kind ← read_enum_column allocator_source_kind_from_raw
  function ← read_u32_column
  parameter_index ← read_u32_column
  pure (record { kind = kind; function = function; parameter_index = parameter_index })

unfoldable pub read_calls : Reader Calls
read_calls = do
  caller ← read_u32_column
  callee ← read_u32_column
  pure (record { caller = caller; callee = callee })

unfoldable pub read_call_arguments : Reader CallArguments
read_call_arguments = do
  call ← read_u32_column
  parameter_index ← read_u32_column
  source ← read_u32_column
  pure (record { call = call; parameter_index = parameter_index; source = source })

unfoldable pub read_memory_operations : Reader MemoryOperations
read_memory_operations = do
  function ← read_u32_column
  kind ← read_enum_column memory_operation_kind_from_raw
  allocator ← read_u32_column
  place ← read_enum_column place_kind_from_raw
  place_field ← read_u32_column
  pure (record {
    function = function;
    kind = kind;
    allocator = allocator;
    place = place;
    place_field = place_field;
  })

unfoldable pub read_expressions : Reader Expressions
read_expressions = do
  kind ← read_enum_column expression_kind_from_raw
  text ← read_u32_column
  parameter ← read_u32_column
  result ← read_u32_column
  field ← read_u32_column
  line ← read_u32_column
  child_start ← read_u32_column
  child_count ← read_u32_column
  children ← read_u32_column
  pure (record {
    kind = kind;
    text = text;
    parameter = parameter;
    result = result;
    child_start = child_start;
    child_count = child_count;
    children = children;
    field = field;
    line = line;
  })

unfoldable pub read_field_assignments : Reader FieldAssignments
read_field_assignments = do
  field ← read_u32_column
  function ← read_u32_column
  source ← read_enum_column assignment_source_from_raw
  memory_operation ← read_u32_column
  expression ← read_u32_column
  line ← read_u32_column
  pure (record {
    field = field;
    function = function;
    source = source;
    memory_operation = memory_operation;
    expression = expression;
    line = line;
  })

unfoldable pub decode_modules : Reader (Modules × UnresolvedImports × Artifacts)
decode_modules = do
  modules ← read_modules
  unresolved_imports ← read_unresolved_imports
  artifacts ← read_artifacts
  pure (modules, unresolved_imports, artifacts)

unfoldable pub decode_functions : Reader (Functions × Parameters)
decode_functions = do
  functions ← read_functions
  parameters ← read_parameters
  pure (functions, parameters)

unfoldable pub decode_allocator_and_calls : Reader (AllocatorSources × Calls × CallArguments)
decode_allocator_and_calls = do
  allocator_sources ← read_allocator_sources
  calls ← read_calls
  call_arguments ← read_call_arguments
  pure (allocator_sources, calls, call_arguments)

unfoldable pub decode_memory : Reader (MemoryOperations × Expressions × FieldAssignments)
decode_memory = do
  memory_operations ← read_memory_operations
  expressions ← read_expressions
  field_assignments ← read_field_assignments
  pure (memory_operations, expressions, field_assignments)

abbrev pub same_bytes : List ℕ → List ℕ → Bool
same_bytes [] [] = true
same_bytes (a ∷ as') (b ∷ bs) = a == b && same_bytes as' bs
same_bytes _ _ = false

-- The version is checked before anything else is read.
unfoldable pub check_version : ℕ → Reader (Unit {0})
check_version found bytes cursor =
    if found == version then ok (tt, cursor) else err (unsupported_version found)

-- All that stands behind the magic bytes.
unfoldable pub decode_body : Reader Tables
decode_body = do
  found ← read_u32
  _ ← check_version found
  target ← read_u32
  bytes ← read_byte_column
  offsets ← read_u32_column
  (modules, unresolved_imports, artifacts) ← decode_modules
  types ← read_types
  structs ← read_structs
  fields ← read_fields
  (functions, parameters) ← decode_functions
  (allocator_sources, calls, call_arguments) ← decode_allocator_and_calls
  (memory_operations, expressions, field_assignments) ← decode_memory
  pure (record {
    target = target;
    strings = record { bytes = bytes; offsets = offsets };
    modules = modules;
    unresolved_imports = unresolved_imports;
    artifacts = artifacts;
    types = types;
    structs = structs;
    fields = fields;
    functions = functions;
    parameters = parameters;
    allocator_sources = allocator_sources;
    calls = calls;
    call_arguments = call_arguments;
    memory_operations = memory_operations;
    expressions = expressions;
    field_assignments = field_assignments;
  })

unfoldable pub decode : List ℕ → Result Tables
decode bytes =
    if ltb (length bytes) (length magic) || not (same_bytes (take (length magic) bytes) magic)
    then err bad_magic
    else and_then (decode_body bytes (length magic)) (λ (tables, cursor).
      if cursor == length bytes then ok tables else err (trailing_bytes cursor))
