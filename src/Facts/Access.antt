-- ===== src/Facts/Access.antt =====
-- The readers of crates/zag-facts/src/tables.rs. They answer for any table, also a corrupt one.
use zag.Prelude.{
  ℕ, ◌+◌, ◌-◌, Bool, ◌||◌, Option, none, some, List, [], ◌∷◌, ltb, ◌==◌, if◌then◌else◌, length,
  get_elem?, get_or, take, drop,
}
use zag.Facts.Handles.{StringId, ModuleId, FunctionId, no_index}
use zag.Facts.Tables.{
  Strings, Modules, Artifacts, Types, Structs, Fields, Functions, Parameters, Calls,
  MemoryOperations, Tables,
}

-- Row zero of the modules is the root.
abbrev pub root_module : ModuleId
root_module = 0

-- Every column of every table empty, but for the root module's row.
unfoldable pub empty_tables : Tables
empty_tables = record {
  target = no_index;
  strings = record { bytes = []; offsets = [] };
  modules = record {
    name = no_index ∷ [];
    path = no_index ∷ [];
    unresolved_start = 0 ∷ [];
    unresolved_count = 0 ∷ [];
  };
  unresolved_imports = record { owner = []; name = [] };
  artifacts = record { name = []; root = []; kind = [] };
  types = record {
    kind = [];
    element = [];
    count = [];
    module_id = [];
    name = [];
    size = [];
    alignment = [];
    bit_width = [];
    flags = [];
  };
  structs = record {
    name = [];
    module_id = [];
    type_id = [];
    field_start = [];
    field_count = [];
    size = [];
    alignment = [];
    flags = [];
    deinit = [];
    kind = [];
  };
  fields = record { owner = []; name = []; field_type = []; offset = [] };
  functions = record {
    name = [];
    module_id = [];
    owner = [];
    parameter_start = [];
    parameter_count = [];
    returns = [];
    error_set = [];
    flags = [];
    line = [];
    body = [];
  };
  parameters = record { owner = []; name = []; parameter_type = []; flags = [] };
  allocator_sources = record { kind = []; function = []; parameter_index = [] };
  calls = record { caller = []; callee = [] };
  call_arguments = record { call = []; parameter_index = []; source = [] };
  memory_operations = record {
    function = [];
    kind = [];
    allocator = [];
    place = [];
    place_field = [];
  };
  expressions = record {
    kind = [];
    text = [];
    parameter = [];
    result = [];
    child_start = [];
    child_count = [];
    children = [];
    field = [];
    line = [];
  };
  field_assignments = record {
    field = [];
    function = [];
    source = [];
    memory_operation = [];
    expression = [];
    line = [];
  };
}

-- `offsets.len().saturating_sub(1)`.
unfoldable pub string_count : Strings → ℕ
string_count strings = length strings.offsets - 1

-- `xs[start..end]`.
abbrev pub slice {ℓ} : {A : Type ℓ} → List A → ℕ → ℕ → List A
slice xs start end = take (end - start) (drop start xs)

unfoldable pub string_bytes : Strings → StringId → List ℕ
string_bytes strings id =
    if ltb (id + 1) (length strings.offsets)
    then (let start = get_or strings.offsets id 0 in
        let end = get_or strings.offsets (id + 1) 0 in
        if ltb end start || ltb (length strings.bytes) end
        then []
        else slice strings.bytes start end)
    else []

abbrev pub type_count : Types → ℕ
type_count types = length types.kind

abbrev pub module_count : Modules → ℕ
module_count modules = length modules.name

abbrev pub artifact_count : Artifacts → ℕ
artifact_count artifacts = length artifacts.name

abbrev pub struct_count : Structs → ℕ
struct_count structs = length structs.name

abbrev pub field_count : Fields → ℕ
field_count fields = length fields.owner

abbrev pub function_count : Functions → ℕ
function_count functions = length functions.name

abbrev pub parameter_count : Parameters → ℕ
parameter_count parameters = length parameters.owner

abbrev pub call_count : Calls → ℕ
call_count calls = length calls.caller

abbrev pub memory_operation_count : MemoryOperations → ℕ
memory_operation_count operations = length operations.function

unfoldable pub has_submodules : Modules → Bool
has_submodules modules = ltb 1 (module_count modules)

nonempty_at : List ℕ → ℕ → Option (List ℕ × ℕ)
nonempty_at [] line = none
nonempty_at (b ∷ bs) line = some (b ∷ bs, line)

-- A module path and a line, when both are known.
unfoldable pub source_location : Tables → ModuleId → ℕ → Option (List ℕ × ℕ)
unfolding nonempty_at
source_location tables module_id line =
    if line == 0 then none else elim (get_elem? tables.modules.path module_id) [
      | none ↦ none
      | some path ↦
          if path == no_index then none else nonempty_at (string_bytes tables.strings path) line
    ]

-- Where the function was written.
unfoldable pub function_location : Tables → FunctionId → ℕ → Option (List ℕ × ℕ)
function_location tables function line =
    source_location tables (get_or tables.functions.module_id function root_module) line
