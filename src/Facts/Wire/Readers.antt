-- ===== src/Facts/Wire/Readers.antt =====
-- Each table's reader in crates/zag-facts/src/wire.rs reads the table off the bytes of its columns.
use zag.Prelude.{All}
use zag.Facts.Tables.{
  Modules, UnresolvedImports, Artifacts, Types, Structs, Fields, Functions, Parameters,
  AllocatorSources, Calls, CallArguments, MemoryOperations, Expressions, FieldAssignments,
}
use zag.Facts.Wire.Kinds.{
  allocator_source_kind_raw, allocator_source_kind_from_raw, allocator_source_kind_from_raw-raw,
  artifact_kind_raw, artifact_kind_from_raw, artifact_kind_from_raw-raw, assignment_source_raw,
  assignment_source_from_raw, assignment_source_from_raw-raw, container_kind_raw,
  container_kind_from_raw, container_kind_from_raw-raw, expression_kind_raw,
  expression_kind_from_raw, expression_kind_from_raw-raw, memory_operation_kind_raw,
  memory_operation_kind_from_raw, memory_operation_kind_from_raw-raw, place_kind_raw,
  place_kind_from_raw, place_kind_from_raw-raw, type_kind_raw, type_kind_from_raw,
  type_kind_from_raw-raw,
}
use zag.Facts.Wire.Encode.{
  modules_columns, unresolved_imports_columns, artifacts_columns, types_columns, structs_columns,
  fields_columns, functions_columns, parameters_columns, allocator_sources_columns, calls_columns,
  call_arguments_columns, memory_operations_columns, expressions_columns, field_assignments_columns,
}
use zag.Facts.Wire.Decode.{
  read_modules, read_unresolved_imports, read_artifacts, read_types, read_structs, read_fields,
  read_functions, read_parameters, read_allocator_sources, read_calls, read_call_arguments,
  read_memory_operations, read_expressions, read_field_assignments,
}
use zag.Facts.Wire.Reads.{Reads, Fits, columns, Reads-column, Reads-enum_column, Reads-pure}

pub Reads-read_modules :
    (t : Modules)
    → All Fits (modules_columns t)
    → Reads read_modules t (columns (modules_columns t))
unfolding read_modules
Reads-read_modules t fit = Reads-column _ _ _ t.name fit.0 (
    Reads-column _ _ _ t.path fit.1.0 (
      Reads-column _ _ _ t.unresolved_start fit.1.1.0
        (Reads-column _ _ _ t.unresolved_count fit.1.1.1.0 (Reads-pure t))))

pub Reads-read_unresolved_imports :
    (t : UnresolvedImports)
    → All Fits (unresolved_imports_columns t)
    → Reads read_unresolved_imports t (columns (unresolved_imports_columns t))
unfolding read_unresolved_imports
Reads-read_unresolved_imports t fit =
    Reads-column _ _ _ t.owner fit.0 (Reads-column _ _ _ t.name fit.1.0 (Reads-pure t))

pub Reads-read_artifacts :
    (t : Artifacts)
    → All Fits (artifacts_columns t)
    → Reads read_artifacts t (columns (artifacts_columns t))
unfolding read_artifacts
Reads-read_artifacts t fit = Reads-column _ _ _ t.name fit.0 (
    Reads-column _ _ _ t.root fit.1.0 (
      Reads-enum_column _ _ _ artifact_kind_raw artifact_kind_from_raw artifact_kind_from_raw-raw
        t.kind fit.1.1.0 (Reads-pure t)))

pub Reads-read_types :
    (t : Types) → All Fits (types_columns t) → Reads read_types t (columns (types_columns t))
unfolding read_types
Reads-read_types t fit =
    Reads-enum_column _ _ _ type_kind_raw type_kind_from_raw type_kind_from_raw-raw t.kind fit.0 (
      Reads-column _ _ _ t.element fit.1.0 (
        Reads-column _ _ _ t.count fit.1.1.0 (
          Reads-column _ _ _ t.module_id fit.1.1.1.0 (
            Reads-column _ _ _ t.name fit.1.1.1.1.0 (
              Reads-column _ _ _ t.size fit.1.1.1.1.1.0 (
                Reads-column _ _ _ t.alignment fit.1.1.1.1.1.1.0 (
                  Reads-column _ _ _ t.bit_width fit.1.1.1.1.1.1.1.0
                    (Reads-column _ _ _ t.flags fit.1.1.1.1.1.1.1.1.0 (Reads-pure t)))))))))

pub Reads-read_structs :
    (t : Structs)
    → All Fits (structs_columns t)
    → Reads read_structs t (columns (structs_columns t))
unfolding read_structs
Reads-read_structs t fit = Reads-column _ _ _ t.name fit.0 (
    Reads-column _ _ _ t.module_id fit.1.0 (
      Reads-column _ _ _ t.type_id fit.1.1.0 (
        Reads-column _ _ _ t.field_start fit.1.1.1.0 (
          Reads-column _ _ _ t.field_count fit.1.1.1.1.0 (
            Reads-column _ _ _ t.size fit.1.1.1.1.1.0 (
              Reads-column _ _ _ t.alignment fit.1.1.1.1.1.1.0 (
                Reads-column _ _ _ t.flags fit.1.1.1.1.1.1.1.0 (
                  Reads-column _ _ _ t.deinit fit.1.1.1.1.1.1.1.1.0 (
                    Reads-enum_column _ _ _ container_kind_raw container_kind_from_raw
                      container_kind_from_raw-raw t.kind fit.1.1.1.1.1.1.1.1.1.0
                      (Reads-pure t))))))))))

pub Reads-read_fields :
    (t : Fields) → All Fits (fields_columns t) → Reads read_fields t (columns (fields_columns t))
unfolding read_fields
Reads-read_fields t fit = Reads-column _ _ _ t.owner fit.0 (
    Reads-column _ _ _ t.name fit.1.0 (
      Reads-column _ _ _ t.field_type fit.1.1.0
        (Reads-column _ _ _ t.offset fit.1.1.1.0 (Reads-pure t))))

pub Reads-read_functions :
    (t : Functions)
    → All Fits (functions_columns t)
    → Reads read_functions t (columns (functions_columns t))
unfolding read_functions
Reads-read_functions t fit = Reads-column _ _ _ t.name fit.0 (
    Reads-column _ _ _ t.module_id fit.1.0 (
      Reads-column _ _ _ t.owner fit.1.1.0 (
        Reads-column _ _ _ t.parameter_start fit.1.1.1.0 (
          Reads-column _ _ _ t.parameter_count fit.1.1.1.1.0 (
            Reads-column _ _ _ t.returns fit.1.1.1.1.1.0 (
              Reads-column _ _ _ t.error_set fit.1.1.1.1.1.1.0 (
                Reads-column _ _ _ t.flags fit.1.1.1.1.1.1.1.0 (
                  Reads-column _ _ _ t.line fit.1.1.1.1.1.1.1.1.0
                    (Reads-column _ _ _ t.body fit.1.1.1.1.1.1.1.1.1.0 (Reads-pure t))))))))))

pub Reads-read_parameters :
    (t : Parameters)
    → All Fits (parameters_columns t)
    → Reads read_parameters t (columns (parameters_columns t))
unfolding read_parameters
Reads-read_parameters t fit = Reads-column _ _ _ t.owner fit.0 (
    Reads-column _ _ _ t.name fit.1.0 (
      Reads-column _ _ _ t.parameter_type fit.1.1.0
        (Reads-column _ _ _ t.flags fit.1.1.1.0 (Reads-pure t))))

pub Reads-read_allocator_sources :
    (t : AllocatorSources)
    → All Fits (allocator_sources_columns t)
    → Reads read_allocator_sources t (columns (allocator_sources_columns t))
unfolding read_allocator_sources
Reads-read_allocator_sources t fit =
    Reads-enum_column _ _ _ allocator_source_kind_raw allocator_source_kind_from_raw
      allocator_source_kind_from_raw-raw t.kind fit.0
      (Reads-column _ _ _ t.function fit.1.0
        (Reads-column _ _ _ t.parameter_index fit.1.1.0 (Reads-pure t)))

pub Reads-read_calls :
    (t : Calls) → All Fits (calls_columns t) → Reads read_calls t (columns (calls_columns t))
unfolding read_calls
Reads-read_calls t fit =
    Reads-column _ _ _ t.caller fit.0 (Reads-column _ _ _ t.callee fit.1.0 (Reads-pure t))

pub Reads-read_call_arguments :
    (t : CallArguments)
    → All Fits (call_arguments_columns t)
    → Reads read_call_arguments t (columns (call_arguments_columns t))
unfolding read_call_arguments
Reads-read_call_arguments t fit = Reads-column _ _ _ t.call fit.0 (
    Reads-column _ _ _ t.parameter_index fit.1.0
      (Reads-column _ _ _ t.source fit.1.1.0 (Reads-pure t)))

pub Reads-read_memory_operations :
    (t : MemoryOperations)
    → All Fits (memory_operations_columns t)
    → Reads read_memory_operations t (columns (memory_operations_columns t))
unfolding read_memory_operations
Reads-read_memory_operations t fit = Reads-column _ _ _ t.function fit.0 (
    Reads-enum_column _ _ _ memory_operation_kind_raw memory_operation_kind_from_raw
      memory_operation_kind_from_raw-raw t.kind fit.1.0
      (Reads-column _ _ _ t.allocator fit.1.1.0 (
        Reads-enum_column _ _ _ place_kind_raw place_kind_from_raw place_kind_from_raw-raw t.place
          fit.1.1.1.0 (Reads-column _ _ _ t.place_field fit.1.1.1.1.0 (Reads-pure t)))))

pub Reads-read_expressions :
    (t : Expressions)
    → All Fits (expressions_columns t)
    → Reads read_expressions t (columns (expressions_columns t))
unfolding read_expressions
Reads-read_expressions t fit =
    Reads-enum_column _ _ _ expression_kind_raw expression_kind_from_raw
      expression_kind_from_raw-raw t.kind fit.0
      (Reads-column _ _ _ t.text fit.1.0 (
        Reads-column _ _ _ t.parameter fit.1.1.0 (
          Reads-column _ _ _ t.result fit.1.1.1.0 (
            Reads-column _ _ _ t.field fit.1.1.1.1.0 (
              Reads-column _ _ _ t.line fit.1.1.1.1.1.0 (
                Reads-column _ _ _ t.child_start fit.1.1.1.1.1.1.0 (
                  Reads-column _ _ _ t.child_count fit.1.1.1.1.1.1.1.0
                    (Reads-column _ _ _ t.children fit.1.1.1.1.1.1.1.1.0 (Reads-pure t)))))))))

pub Reads-read_field_assignments :
    (t : FieldAssignments)
    → All Fits (field_assignments_columns t)
    → Reads read_field_assignments t (columns (field_assignments_columns t))
unfolding read_field_assignments
Reads-read_field_assignments t fit = Reads-column _ _ _ t.field fit.0 (
    Reads-column _ _ _ t.function fit.1.0 (
      Reads-enum_column _ _ _ assignment_source_raw assignment_source_from_raw
        assignment_source_from_raw-raw t.source fit.1.1.0
        (Reads-column _ _ _ t.memory_operation fit.1.1.1.0 (
          Reads-column _ _ _ t.expression fit.1.1.1.1.0
            (Reads-column _ _ _ t.line fit.1.1.1.1.1.0 (Reads-pure t))))))
