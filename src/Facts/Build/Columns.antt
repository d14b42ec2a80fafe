-- ===== src/Facts/Build/Columns.antt =====
-- Every builder of crates/zag-facts/src/build.rs keeps the columns of a table equally long.
use zag.Prelude.{
  ℕ, suc, ◌≡◌, refl, List, [], ◌∷◌, arith, length, get_elem?, Option-cases, some, inl, inr, sym, ap,
  ◌∙◌, length-append, length-set,
}
use mathlib.Core.Option.{some-injective}
use zag.Facts.Tables.{Tables}
use zag.Facts.Access.{empty_tables}
use zag.Facts.Validate.Consistent.{HasEqualColumns}
use zag.Facts.Build.{push}
use zag.Facts.Build.Types.{
  push_type_row, float_row, integer_row, push_float_type, push_integer_type, push_slice_type,
  push_pointer_type, push_optional_type, push_array_type, push_void_type, push_opaque_type,
  push_struct_type, set_type_flags, set_type_module,
}
use zag.Facts.Build.Rows.{
  count_one, struct_type, push_struct, set_struct_kind, set_struct_deinit, set_struct_module,
  push_field, push_function, set_function_module, set_function_body, set_function_line,
  set_function_signature, push_parameter,
}
use zag.Facts.Build.Flow.{
  push_allocator_source, push_call, push_call_argument, push_memory_operation,
  push_field_assignment, push_field_assignment_at, push_field_assignment_with,
  set_field_assignment_line, push_expression, set_expression_line, push_body_expression,
}
use zag.Facts.Build.Declare.{
  count_up, add_string, add_interned, declare_module, name_root_module, push_unresolved_import,
  declare_artifact, declare_struct, declare_field, declare_function, declare_parameter,
}
use zag.Facts.Build.Steps

length-push : {A : Type 0} (xs : List A) (x : A) → length (push xs x) ≡ suc (length xs)
length-push xs x = omega (arith, length-append xs (x ∷ []))

length-count_one :
    (counts after : List ℕ) (row : ℕ)
    → count_one counts row ≡ some after
    → length after ≡ length counts
unfolding count_one
length-count_one counts after row e = elim (Option-cases (get_elem? counts row)) [
  | inl absent ↦ cc (rw (absent, count_one) at e)
  | inr (count, there) ↦
      let written = some-injective _ after (rw (there, count_one) at e) in
      ap length (sym written) ∙ length-set counts row _
]

length-count_up : (counts : List ℕ) (row : ℕ) → length (count_up counts row) ≡ length counts
unfolding count_up
length-count_up counts row = elim (Option-cases (get_elem? counts row)) [
  | inl absent ↦ rw (absent, count_up) refl
  | inr (count, there) ↦ rw (there, count_up) (length-set counts row _)
]

pub Builds-HasEqualColumns :
    (tables after : Tables)
    → Steps.Builds tables after
    → HasEqualColumns tables
    → HasEqualColumns after
unfolding push_type_row float_row integer_row struct_type push_float_type push_integer_type
    push_slice_type push_pointer_type push_optional_type push_array_type push_void_type
    push_opaque_type push_struct_type set_type_flags set_type_module push_struct set_struct_kind
    set_struct_deinit set_struct_module push_field push_function set_function_module
    set_function_body set_function_line set_function_signature push_parameter push_allocator_source
    push_call push_call_argument push_memory_operation push_field_assignment
    push_field_assignment_at push_field_assignment_with set_field_assignment_line push_expression
    set_expression_line push_body_expression add_string add_interned declare_module name_root_module
    push_unresolved_import declare_artifact declare_struct declare_field declare_function
    declare_parameter
Builds-HasEqualColumns tables _ (Steps.push_float_type_call bit_width) h =
    grind (arith, length-push, length-set, length-count_one, length-count_up)
Builds-HasEqualColumns tables _ (Steps.push_integer_type_call bit_width signed) h =
    grind (arith, length-push, length-set, length-count_one, length-count_up)
Builds-HasEqualColumns tables _ (Steps.push_slice_type_call element) h =
    grind (arith, length-push, length-set, length-count_one, length-count_up)
Builds-HasEqualColumns tables _ (Steps.push_pointer_type_call element) h =
    grind (arith, length-push, length-set, length-count_one, length-count_up)
Builds-HasEqualColumns tables _ (Steps.push_optional_type_call element) h =
    grind (arith, length-push, length-set, length-count_one, length-count_up)
Builds-HasEqualColumns tables _ (Steps.push_array_type_call element count size) h =
    grind (arith, length-push, length-set, length-count_one, length-count_up)
Builds-HasEqualColumns tables _ (Steps.push_void_type_call) h =
    grind (arith, length-push, length-set, length-count_one, length-count_up)
Builds-HasEqualColumns tables _ (Steps.push_opaque_type_call name) h =
    grind (arith, length-push, length-set, length-count_one, length-count_up)
Builds-HasEqualColumns tables _ (Steps.push_struct_type_call name size alignment) h =
    grind (arith, length-push, length-set, length-count_one, length-count_up)
Builds-HasEqualColumns tables _ (Steps.set_type_flags_call kind flags) h =
    grind (arith, length-push, length-set, length-count_one, length-count_up)
Builds-HasEqualColumns tables _ (Steps.set_type_module_call kind module_id) h =
    grind (arith, length-push, length-set, length-count_one, length-count_up)
Builds-HasEqualColumns tables _ (Steps.push_struct_call name type_id size alignment flags) h =
    grind (arith, length-push, length-set, length-count_one, length-count_up)
Builds-HasEqualColumns tables _ (Steps.set_struct_kind_call owner kind) h =
    grind (arith, length-push, length-set, length-count_one, length-count_up)
Builds-HasEqualColumns tables _ (Steps.set_struct_deinit_call owner function e) h =
    grind (arith, e, length-push, length-set, length-count_one, length-count_up)
Builds-HasEqualColumns tables _ (Steps.set_struct_module_call owner module_id) h =
    grind (arith, length-push, length-set, length-count_one, length-count_up)
Builds-HasEqualColumns tables _ (Steps.push_field_call owner name field_type offset id e) h =
    grind (arith, e, length-push, length-set, length-count_one, length-count_up)
Builds-HasEqualColumns tables _ (Steps.push_function_call name owner) h =
    grind (arith, length-push, length-set, length-count_one, length-count_up)
Builds-HasEqualColumns tables _ (Steps.set_function_module_call function module_id) h =
    grind (arith, length-push, length-set, length-count_one, length-count_up)
Builds-HasEqualColumns tables _ (Steps.set_function_body_call function body) h =
    grind (arith, length-push, length-set, length-count_one, length-count_up)
Builds-HasEqualColumns tables _ (Steps.set_function_line_call function line) h =
    grind (arith, length-push, length-set, length-count_one, length-count_up)
Builds-HasEqualColumns tables _
      (Steps.set_function_signature_call function returns error_set fallible e) h =
    grind (arith, e, length-push, length-set, length-count_one, length-count_up)
Builds-HasEqualColumns tables _ (Steps.push_parameter_call owner name parameter_type flags e) h =
    grind (arith, e, length-push, length-set, length-count_one, length-count_up)
Builds-HasEqualColumns tables _ (Steps.push_allocator_source_call kind function parameter_index) h =
    grind (arith, length-push, length-set, length-count_one, length-count_up)
Builds-HasEqualColumns tables _ (Steps.push_call_call caller callee) h =
    grind (arith, length-push, length-set, length-count_one, length-count_up)
Builds-HasEqualColumns tables _ (Steps.push_call_argument_call call parameter_index source) h =
    grind (arith, length-push, length-set, length-count_one, length-count_up)
Builds-HasEqualColumns tables _
      (Steps.push_memory_operation_call function kind allocator place place_field) h =
    grind (arith, length-push, length-set, length-count_one, length-count_up)
Builds-HasEqualColumns tables _
      (Steps.push_field_assignment_call field function source memory_operation) h =
    grind (arith, length-push, length-set, length-count_one, length-count_up)
Builds-HasEqualColumns tables _
      (Steps.push_field_assignment_at_call field function source memory_operation expression line)
      h =
    grind (arith, length-push, length-set, length-count_one, length-count_up)
Builds-HasEqualColumns tables _
      (Steps.push_field_assignment_with_call field function source memory_operation expression) h =
    grind (arith, length-push, length-set, length-count_one, length-count_up)
Builds-HasEqualColumns tables _ (Steps.set_field_assignment_line_call row line) h =
    grind (arith, length-push, length-set, length-count_one, length-count_up)
Builds-HasEqualColumns tables _
      (Steps.push_expression_call kind text parameter result field children) h =
    grind (arith, length-push, length-set, length-count_one, length-count_up)
Builds-HasEqualColumns tables _ (Steps.set_expression_line_call expression line) h =
    grind (arith, length-push, length-set, length-count_one, length-count_up)
Builds-HasEqualColumns tables _ (Steps.push_body_expression_call kind text line children) h =
    grind (arith, length-push, length-set, length-count_one, length-count_up)
Builds-HasEqualColumns tables _ (Steps.push_string_call text) h =
    grind (arith, length-push, length-set, length-count_one, length-count_up)
Builds-HasEqualColumns tables _ (Steps.intern_call text) h =
    grind (arith, length-push, length-set, length-count_one, length-count_up)
Builds-HasEqualColumns tables _ (Steps.declare_module_call name path) h =
    grind (arith, length-push, length-set, length-count_one, length-count_up)
Builds-HasEqualColumns tables _ (Steps.name_root_module_call name path e) h =
    grind (arith, e, length-push, length-set, length-count_one, length-count_up)
Builds-HasEqualColumns tables _ (Steps.push_unresolved_import_call owner name) h =
    grind (arith, length-push, length-set, length-count_one, length-count_up)
Builds-HasEqualColumns tables _ (Steps.declare_artifact_call name root kind) h =
    grind (arith, length-push, length-set, length-count_one, length-count_up)
Builds-HasEqualColumns tables _ (Steps.declare_struct_call name size alignment flags) h =
    grind (arith, length-push, length-set, length-count_one, length-count_up)
Builds-HasEqualColumns tables _ (Steps.declare_field_call owner name field_type offset id e) h =
    grind (arith, e, length-push, length-set, length-count_one, length-count_up)
Builds-HasEqualColumns tables _ (Steps.declare_function_call name owner) h =
    grind (arith, length-push, length-set, length-count_one, length-count_up)
Builds-HasEqualColumns tables _ (Steps.declare_parameter_call owner name parameter_type flags e) h =
    grind (arith, e, length-push, length-set, length-count_one, length-count_up)

-- Whatever calls of builders make, its columns are equally long.
pub IsBuilt-HasEqualColumns : (tables : Tables) → Steps.IsBuilt tables → HasEqualColumns tables
unfolding empty_tables
IsBuilt-HasEqualColumns _ Steps.empty = omega arith
IsBuilt-HasEqualColumns tables (Steps.step {tables = before} built call) =
    Builds-HasEqualColumns before tables call (IsBuilt-HasEqualColumns before built)
