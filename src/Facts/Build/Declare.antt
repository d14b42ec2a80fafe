-- ===== src/Facts/Build/Declare.antt =====
-- crates/zag-facts/src/build.rs: rows that are declared with their name.
use zag.Prelude.{
  ℕ, Option, none, some, List, ltb, if◌then◌else◌, length, get_elem?, set, as_u32, u32_add,
}
use zag.Facts.Handles.{StringId, ModuleId, ArtifactId, TypeId, StructId, FieldId, FunctionId}
use zag.Facts.Kinds.{ArtifactKind}
use zag.Facts.Tables.{Tables}
use zag.Facts.Access.{module_count, artifact_count}
use zag.Facts.Build.{push, last_id}
use zag.Facts.Build.Strings.{push_string, intern}
use zag.Facts.Build.Types.{push_struct_type}
use zag.Facts.Build.Rows.{push_struct, push_field, push_function, push_parameter}

-- `push_string(&mut tables.strings, name)`.
unfoldable pub add_string : Tables → List ℕ → Tables × StringId
unfolding push_string
add_string tables text =
    let (strings, id) = push_string tables.strings text in (record tables { strings = strings }, id)

-- `intern(&mut tables.strings, text)`.
unfoldable pub add_interned : Tables → List ℕ → Tables × StringId
unfolding intern
add_interned tables text =
    let (strings, id) = intern tables.strings text in (record tables { strings = strings }, id)

unfoldable pub declare_module : Tables → List ℕ → List ℕ → Tables × ModuleId
unfolding add_string
declare_module tables name path =
    let (tables₁, name_id) = add_string tables name in
    let (tables₂, path_id) = add_string tables₁ path in
    let modules = tables₂.modules in
    let tables₃ : Tables = record tables₂ {
      modules = record {
        name = push modules.name name_id;
        path = push modules.path path_id;
        unresolved_start =
            push modules.unresolved_start (as_u32 (length tables₂.unresolved_imports.owner));
        unresolved_count = push modules.unresolved_count 0;
      };
    } in
    (tables₃, last_id (module_count tables₃.modules))

-- A write to row zero of a column without rows panics.
unfoldable pub name_root_module : Tables → List ℕ → List ℕ → Option Tables
unfolding add_string
name_root_module tables name path =
    let (tables₁, name_id) = add_string tables name in
    let (tables₂, path_id) = add_string tables₁ path in
    let modules = tables₂.modules in
    if ltb 0 (length modules.name)
    then (if ltb 0 (length modules.path)
        then some (record tables₂ {
          modules = record modules {
            name = set modules.name 0 name_id;
            path = set modules.path 0 path_id;
          };
        })
        else none)
    else none

-- `*count += 1`, where there is such a row.
unfoldable pub count_up : List ℕ → ℕ → List ℕ
count_up counts row = elim (get_elem? counts row) [
  | none ↦ counts
  | some count ↦ set counts row (u32_add count 1)
]

unfoldable pub push_unresolved_import : Tables → ModuleId → List ℕ → Tables
unfolding add_string count_up
push_unresolved_import tables owner name =
    let (tables₁, name_id) = add_string tables name in
    record tables₁ {
      unresolved_imports = record {
        owner = push tables₁.unresolved_imports.owner owner;
        name = push tables₁.unresolved_imports.name name_id;
      };
      modules = record tables₁.modules {
        unresolved_count = count_up tables₁.modules.unresolved_count owner;
      };
    }

unfoldable pub declare_artifact : Tables → List ℕ → ModuleId → ArtifactKind → Tables × ArtifactId
unfolding add_string
declare_artifact tables name root kind =
    let (tables₁, name_id) = add_string tables name in
    let artifacts = tables₁.artifacts in
    let tables₂ : Tables = record tables₁ {
      artifacts = record {
        name = push artifacts.name name_id;
        root = push artifacts.root root;
        kind = push artifacts.kind kind;
      };
    } in
    (tables₂, last_id (artifact_count tables₂.artifacts))

unfoldable pub declare_struct : Tables → List ℕ → ℕ → ℕ → ℕ → Tables × StructId
unfolding add_string push_struct_type push_struct
declare_struct tables name size alignment flags =
    let (tables₁, interned) = add_string tables name in
    let (tables₂, kind) = push_struct_type tables₁ interned size alignment in
    push_struct tables₂ interned kind size alignment flags

unfoldable pub declare_field : Tables → StructId → List ℕ → TypeId → ℕ → Option (Tables × FieldId)
unfolding add_string push_field
declare_field tables owner name field_type offset =
    let (tables₁, interned) = add_string tables name in
    push_field tables₁ owner interned field_type offset

unfoldable pub declare_function : Tables → List ℕ → StructId → Tables × FunctionId
unfolding add_string push_function
declare_function tables name owner =
    let (tables₁, interned) = add_string tables name in push_function tables₁ interned owner

unfoldable pub declare_parameter : Tables → FunctionId → List ℕ → TypeId → ℕ → Option Tables
unfolding add_string push_parameter
declare_parameter tables owner name parameter_type flags =
    let (tables₁, interned) = add_string tables name in
    push_parameter tables₁ owner interned parameter_type flags
