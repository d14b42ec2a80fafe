-- ===== src/Facts/Build/Rows.antt =====
-- crates/zag-facts/src/build.rs: the rows of structs, fields, functions and parameters.
use zag.Prelude.{
  ℕ, Bool, Option, none, some, List, ltb, if◌then◌else◌, length, get_elem?, get_or, set, as_u32,
  u32_add,
}
use zag.Facts.Handles.{
  StringId, ModuleId, TypeId, StructId, FieldId, FunctionId, ExpressionId, no_index,
}
use zag.Facts.Kinds.{ContainerKind}
use zag.Facts.Tables.{Tables}
use zag.Facts.Access.{root_module}
use zag.Facts.Build.{push, last_id}
use zag.Facts.Build.Types.{set_type_module}

-- `counts[row] += 1`, which panics where there is no such row.
unfoldable pub count_one : List ℕ → ℕ → Option (List ℕ)
count_one counts row = elim (get_elem? counts row) [
  | none ↦ none
  | some count ↦ some (set counts row (u32_add count 1))
]

unfoldable pub push_struct : Tables → StringId → TypeId → ℕ → ℕ → ℕ → Tables × StructId
push_struct tables name type_id size alignment flags =
    let structs = tables.structs in
    let tables' : Tables = record tables {
      structs = record {
        name = push structs.name name;
        module_id = push structs.module_id root_module;
        type_id = push structs.type_id type_id;
        field_start = push structs.field_start (as_u32 (length tables.fields.owner));
        field_count = push structs.field_count 0;
        size = push structs.size size;
        alignment = push structs.alignment alignment;
        flags = push structs.flags flags;
        deinit = push structs.deinit no_index;
        kind = push structs.kind ContainerKind.struct;
      };
    } in
    (tables', last_id (length tables'.structs.name))

unfoldable pub set_struct_kind : Tables → StructId → ContainerKind → Tables
set_struct_kind tables owner kind = record tables {
  structs = record tables.structs { kind = set tables.structs.kind owner kind };
}

unfoldable pub set_struct_deinit : Tables → StructId → FunctionId → Option Tables
set_struct_deinit tables owner function =
    if ltb owner (length tables.structs.deinit)
    then some (record tables {
      structs = record tables.structs { deinit = set tables.structs.deinit owner function };
    })
    else none

unfoldable pub struct_type : Tables → StructId → TypeId
struct_type tables owner = get_or tables.structs.type_id owner no_index

unfoldable pub set_struct_module : Tables → StructId → ModuleId → Tables
set_struct_module tables owner module_id =
    if ltb owner (length tables.structs.module_id)
    then (let tables' : Tables = record tables {
      structs = record tables.structs { module_id = set tables.structs.module_id owner module_id };
    } in
        set_type_module tables' (struct_type tables' owner) module_id)
    else tables

unfoldable pub push_field : Tables → StructId → StringId → TypeId → ℕ → Option (Tables × FieldId)
push_field tables owner name field_type offset = elim (count_one tables.structs.field_count owner) [
  | none ↦ none
  | some counts ↦
      let tables' : Tables = record tables {
        fields = record {
          owner = push tables.fields.owner owner;
          name = push tables.fields.name name;
          field_type = push tables.fields.field_type field_type;
          offset = push tables.fields.offset offset;
        };
        structs = record tables.structs { field_count = counts };
      } in
      some (tables', last_id (length tables'.fields.owner))
]

unfoldable pub push_function : Tables → StringId → StructId → Tables × FunctionId
push_function tables name owner =
    let functions = tables.functions in
    let tables' : Tables = record tables {
      functions = record {
        name = push functions.name name;
        module_id = push functions.module_id root_module;
        owner = push functions.owner owner;
        parameter_start = push functions.parameter_start (as_u32 (length tables.parameters.owner));
        parameter_count = push functions.parameter_count 0;
        returns = push functions.returns no_index;
        error_set = push functions.error_set no_index;
        flags = push functions.flags 0;
        line = push functions.line 0;
        body = push functions.body no_index;
      };
    } in
    (tables', last_id (length tables'.functions.name))

unfoldable pub set_function_module : Tables → FunctionId → ModuleId → Tables
set_function_module tables function module_id = record tables {
  functions = record tables.functions {
    module_id = set tables.functions.module_id function module_id;
  };
}

unfoldable pub set_function_body : Tables → FunctionId → ExpressionId → Tables
set_function_body tables function body = record tables {
  functions = record tables.functions { body = set tables.functions.body function body };
}

unfoldable pub set_function_line : Tables → FunctionId → ℕ → Tables
set_function_line tables function line = record tables {
  functions = record tables.functions { line = set tables.functions.line function line };
}

abbrev pub function_flag_fallible : ℕ
function_flag_fallible = 1

-- A write past a column that is shorter than the names panics.
unfoldable pub set_function_signature :
    Tables → FunctionId → TypeId → StructId → Bool → Option Tables
set_function_signature tables function returns error_set fallible =
    let functions = tables.functions in
    if ltb function (length functions.name)
    then (if ltb function (length functions.returns)
        then (if ltb function (length functions.error_set)
            then (if ltb function (length functions.flags)
                then some (record tables {
                  functions = record functions {
                    returns = set functions.returns function returns;
                    error_set = set functions.error_set function error_set;
                    flags =
                        set functions.flags function
                          (if fallible then function_flag_fallible else 0);
                  };
                })
                else none)
            else none)
        else none)
    else some tables

unfoldable pub push_parameter : Tables → FunctionId → StringId → TypeId → ℕ → Option Tables
push_parameter tables owner name parameter_type flags =
    elim (count_one tables.functions.parameter_count owner) [
      | none ↦ none
      | some counts ↦ some (record tables {
        parameters = record {
          owner = push tables.parameters.owner owner;
          name = push tables.parameters.name name;
          parameter_type = push tables.parameters.parameter_type parameter_type;
          flags = push tables.parameters.flags flags;
        };
        functions = record tables.functions { parameter_count = counts };
      })
    ]
