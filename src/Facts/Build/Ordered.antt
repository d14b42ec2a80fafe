-- ===== src/Facts/Build/Ordered.antt =====
-- Builders of crates/zag-facts/src/build.rs that are called in order keep the ranges of rows whole: a
-- field is added to the struct that was declared last, a parameter to the last function, and an
-- unresolved import to the last module.
use zag.Prelude.{◌+◌, ◌<◌, ◌≡◌, [], ◌∷◌, arith, length, length-append, length-set, u32_mod}
use zag.Facts.Tables.{Tables}
use zag.Facts.Access.{
  empty_tables, module_count, struct_count, field_count, function_count, parameter_count,
}
use zag.Facts.Validate.Consistent.{HasEqualColumns}
use zag.Facts.Build.Types.{
  push_type_row, float_row, integer_row, push_float_type, push_integer_type, push_slice_type,
  push_pointer_type, push_optional_type, push_array_type, push_void_type, push_opaque_type,
  push_struct_type, set_type_flags, set_type_module,
}
use zag.Facts.Build.Rows.{
  struct_type, push_struct, set_struct_kind, set_struct_deinit, set_struct_module, push_field,
  push_function, set_function_module, set_function_body, set_function_line, set_function_signature,
  push_parameter,
}
use zag.Facts.Build.Flow.{
  push_allocator_source, push_call, push_call_argument, push_memory_operation,
  push_field_assignment, push_field_assignment_at, push_field_assignment_with,
  set_field_assignment_line, push_expression, set_expression_line, push_body_expression,
}
use zag.Facts.Build.Declare.{
  add_string, add_interned, declare_module, name_root_module, push_unresolved_import,
  declare_artifact, declare_struct, declare_field, declare_function, declare_parameter,
}
use zag.Facts.Build.Steps
use zag.Facts.Build.Steps.{Builds}
use zag.Facts.Build.Columns.{Builds-HasEqualColumns}
use zag.Facts.Build.Ranged.{
  IsRanged, Whole-push, Whole-count_up, push_struct-IsRanged, push_function-IsRanged,
  push_field-IsRanged, push_parameter-IsRanged,
}

-- What a step in order is: the row that it counts is the last one, and there is room for one more.
abbrev pub IsOrdered : (tables after : Tables) → Builds tables after → Type 0
IsOrdered tables after (Steps.push_field_call owner name field_type offset id e) =
    (owner + 1 ≡ struct_count tables.structs) × (field_count tables.fields + 1 < u32_mod)
IsOrdered tables after (Steps.declare_field_call owner name field_type offset id e) =
    (owner + 1 ≡ struct_count tables.structs) × (field_count tables.fields + 1 < u32_mod)
IsOrdered tables after (Steps.push_parameter_call owner name parameter_type flags e) =
    (owner + 1 ≡ function_count tables.functions)
    × (parameter_count tables.parameters + 1 < u32_mod)
IsOrdered tables after (Steps.declare_parameter_call owner name parameter_type flags e) =
    (owner + 1 ≡ function_count tables.functions)
    × (parameter_count tables.parameters + 1 < u32_mod)
IsOrdered tables after (Steps.push_unresolved_import_call owner name) =
    (owner + 1 ≡ module_count tables.modules)
    × (length tables.unresolved_imports.owner + 1 < u32_mod)
IsOrdered tables after _ = Unit

Builds-IsRanged :
    (tables after : Tables) (call : Builds tables after)
    → IsOrdered tables after call
    → HasEqualColumns tables
    → IsRanged tables
    → IsRanged after
unfolding push_type_row float_row integer_row struct_type push_float_type push_integer_type
    push_slice_type push_pointer_type push_optional_type push_array_type push_void_type
    push_opaque_type push_struct_type set_type_flags set_type_module push_struct set_struct_kind
    set_struct_deinit set_struct_module push_field push_function set_function_module
    set_function_body set_function_line set_function_signature push_parameter push_allocator_source
    push_call push_call_argument push_memory_operation push_field_assignment
    push_field_assignment_at push_field_assignment_with set_field_assignment_line push_expression
    set_expression_line push_body_expression add_string add_interned declare_module name_root_module
    push_unresolved_import declare_artifact declare_struct declare_field declare_function
    declare_parameter
Builds-IsRanged tables _ (Steps.push_float_type_call bit_width) o c h = h
Builds-IsRanged tables _ (Steps.push_integer_type_call bit_width signed) o c h = h
Builds-IsRanged tables _ (Steps.push_slice_type_call element) o c h = h
Builds-IsRanged tables _ (Steps.push_pointer_type_call element) o c h = h
Builds-IsRanged tables _ (Steps.push_optional_type_call element) o c h = h
Builds-IsRanged tables _ (Steps.push_array_type_call element count size) o c h = h
Builds-IsRanged tables _ (Steps.push_void_type_call) o c h = h
Builds-IsRanged tables _ (Steps.push_opaque_type_call name) o c h = h
Builds-IsRanged tables _ (Steps.push_struct_type_call name size alignment) o c h = h
Builds-IsRanged tables _ (Steps.set_type_flags_call kind flags) o c h = h
Builds-IsRanged tables _ (Steps.set_type_module_call kind module_id) o c h = h
Builds-IsRanged tables _ (Steps.push_struct_call name type_id size alignment flags) o c h =
    push_struct-IsRanged tables name type_id size alignment flags h
Builds-IsRanged tables _ (Steps.set_struct_kind_call owner kind) o c h = h
Builds-IsRanged tables _ (Steps.set_struct_deinit_call owner function e) o c h = grind (arith, e)
Builds-IsRanged tables _ (Steps.set_struct_module_call owner module_id) o c h = grind arith
Builds-IsRanged tables _ (Steps.push_field_call owner name field_type offset id e) o c h =
    push_field-IsRanged tables _ owner name field_type offset id c h o.0 o.1 e
Builds-IsRanged tables _ (Steps.push_function_call name owner) o c h =
    push_function-IsRanged tables name owner h
Builds-IsRanged tables _ (Steps.set_function_module_call function module_id) o c h = h
Builds-IsRanged tables _ (Steps.set_function_body_call function body) o c h = h
Builds-IsRanged tables _ (Steps.set_function_line_call function line) o c h = h
Builds-IsRanged tables _ (Steps.set_function_signature_call function returns error_set fallible e) o
      c h =
    grind (arith, e)
Builds-IsRanged tables _ (Steps.push_parameter_call owner name parameter_type flags e) o c h =
    push_parameter-IsRanged tables _ owner name parameter_type flags c h o.0 o.1 e
Builds-IsRanged tables _ (Steps.push_allocator_source_call kind function parameter_index) o c h = h
Builds-IsRanged tables _ (Steps.push_call_call caller callee) o c h = h
Builds-IsRanged tables _ (Steps.push_call_argument_call call parameter_index source) o c h = h
Builds-IsRanged tables _
      (Steps.push_memory_operation_call function kind allocator place place_field) o c h =
    h
Builds-IsRanged tables _ (Steps.push_field_assignment_call field function source memory_operation) o
      c h =
    h
Builds-IsRanged tables _
      (Steps.push_field_assignment_at_call field function source memory_operation expression line) o
      c h =
    h
Builds-IsRanged tables _
      (Steps.push_field_assignment_with_call field function source memory_operation expression) o c
      h =
    h
Builds-IsRanged tables _ (Steps.set_field_assignment_line_call row line) o c h = h
Builds-IsRanged tables _ (Steps.push_expression_call kind text parameter result field children) o c
      h =
    h
Builds-IsRanged tables _ (Steps.set_expression_line_call expression line) o c h = h
Builds-IsRanged tables _ (Steps.push_body_expression_call kind text line children) o c h = h
Builds-IsRanged tables _ (Steps.push_string_call text) o c h = h
Builds-IsRanged tables _ (Steps.intern_call text) o c h = h
Builds-IsRanged tables _ (Steps.declare_module_call name path) o c h = (
  h.0,
  h.1,
  h.2,
  Whole-push _ _ (length tables.unresolved_imports.owner) h.3,
  omega (arith, length-append tables.modules.name ((add_string tables name).1 ∷ [])),
)
Builds-IsRanged tables _ (Steps.name_root_module_call name path e) o c h =
    grind (arith, e, length-set)
Builds-IsRanged tables _ (Steps.push_unresolved_import_call owner name) o c h = (
  h.0,
  h.1,
  h.2,
  Whole-count_up _ _ tables.unresolved_imports.owner owner owner h.3 o.1
      (omega (arith, o.0, c.modules)),
  h.4,
)
Builds-IsRanged tables _ (Steps.declare_artifact_call name root kind) o c h = h
Builds-IsRanged tables _ (Steps.declare_struct_call name size alignment flags) o c h =
    push_struct-IsRanged
      (push_struct_type (add_string tables name).0 (add_string tables name).1 size alignment).0
      (add_string tables name).1
      (push_struct_type (add_string tables name).0 (add_string tables name).1 size alignment).1 size
      alignment flags h
Builds-IsRanged tables _ (Steps.declare_field_call owner name field_type offset id e) o c h =
    push_field-IsRanged (add_string tables name).0 _ owner _ field_type offset id
      (Builds-HasEqualColumns tables _ (Steps.push_string_call name) c) h o.0 o.1 e
Builds-IsRanged tables _ (Steps.declare_function_call name owner) o c h =
    push_function-IsRanged (add_string tables name).0 (add_string tables name).1 owner h
Builds-IsRanged tables _ (Steps.declare_parameter_call owner name parameter_type flags e) o c h =
    push_parameter-IsRanged (add_string tables name).0 _ owner _ parameter_type flags
      (Builds-HasEqualColumns tables _ (Steps.push_string_call name) c) h o.0 o.1 e

-- Tables that steps in order make out of the empty ones.
pub data IsBuiltInOrder : Tables → Type 0 where
  empty : IsBuiltInOrder empty_tables
  step :
      {tables after : Tables} (call : Builds tables after)
      → IsOrdered tables after call
      → IsBuiltInOrder tables
      → IsBuiltInOrder after

-- In tables that are built in order the columns are equally long, and the ranges of the structs, of
-- the functions and of the modules follow one another and take in all the rows of the fields, of the
-- parameters and of the unresolved imports; the fields are grouped by struct, and there is a module.
pub IsBuiltInOrder-IsRanged :
    (tables : Tables) → IsBuiltInOrder tables → HasEqualColumns tables × IsRanged tables
unfolding empty_tables
IsBuiltInOrder-IsRanged _ empty = (omega arith, omega arith)
IsBuiltInOrder-IsRanged _ (step {tables = before} {after = after} call ordered built) =
    let (columns, ranged) = IsBuiltInOrder-IsRanged before built in
    (
      Builds-HasEqualColumns before after call columns,
      Builds-IsRanged before after call ordered columns ranged,
    )
