-- ===== src/Facts/Build/Flow.antt =====
-- crates/zag-facts/src/build.rs: the rows of calls, of memory operations and of expressions.
use zag.Prelude.{ℕ, List, ◌++◌, ◌-◌, length, set, as_u32}
use zag.Facts.Handles.{
  StringId, TypeId, FieldId, FunctionId, CallId, AllocatorSourceId, MemoryOperationId, ExpressionId,
  no_index,
}
use zag.Facts.Kinds.{
  AllocatorSourceKind, MemoryOperationKind, PlaceKind, AssignmentSource, ExpressionKind,
}
use zag.Facts.Tables.{Tables}
use zag.Facts.Build.{push, last_id}

unfoldable pub push_allocator_source :
    Tables → AllocatorSourceKind → FunctionId → ℕ → Tables × AllocatorSourceId
push_allocator_source tables kind function parameter_index =
    let sources = tables.allocator_sources in
    let tables' : Tables = record tables {
      allocator_sources = record {
        kind = push sources.kind kind;
        function = push sources.function function;
        parameter_index = push sources.parameter_index parameter_index;
      };
    } in
    (tables', last_id (length tables'.allocator_sources.kind))

unfoldable pub push_call : Tables → FunctionId → FunctionId → Tables × CallId
push_call tables caller callee =
    let tables' : Tables = record tables {
      calls = record {
        caller = push tables.calls.caller caller;
        callee = push tables.calls.callee callee;
      };
    } in
    (tables', last_id (length tables'.calls.caller))

unfoldable pub push_call_argument : Tables → CallId → ℕ → AllocatorSourceId → Tables
push_call_argument tables call parameter_index source =
    let arguments = tables.call_arguments in
    record tables {
      call_arguments = record {
        call = push arguments.call call;
        parameter_index = push arguments.parameter_index parameter_index;
        source = push arguments.source source;
      };
    }

unfoldable pub push_memory_operation :
    Tables
    → FunctionId
    → MemoryOperationKind
    → AllocatorSourceId
    → PlaceKind
    → FieldId
    → Tables × MemoryOperationId
push_memory_operation tables function kind allocator place place_field =
    let operations = tables.memory_operations in
    let tables' : Tables = record tables {
      memory_operations = record {
        function = push operations.function function;
        kind = push operations.kind kind;
        allocator = push operations.allocator allocator;
        place = push operations.place place;
        place_field = push operations.place_field place_field;
      };
    } in
    (tables', last_id (length tables'.memory_operations.function))

unfoldable pub push_field_assignment_with :
    Tables → FieldId → FunctionId → AssignmentSource → MemoryOperationId → ExpressionId → Tables × ℕ
push_field_assignment_with tables field function source memory_operation expression =
    let assignments = tables.field_assignments in
    let tables' : Tables = record tables {
      field_assignments = record {
        field = push assignments.field field;
        function = push assignments.function function;
        source = push assignments.source source;
        memory_operation = push assignments.memory_operation memory_operation;
        expression = push assignments.expression expression;
        line = push assignments.line 0;
      };
    } in
    (tables', length tables'.field_assignments.field - 1)

unfoldable pub push_field_assignment :
    Tables → FieldId → FunctionId → AssignmentSource → MemoryOperationId → Tables
unfolding push_field_assignment_with
push_field_assignment tables field function source memory_operation =
    let (tables', row) =
      push_field_assignment_with tables field function source memory_operation no_index in
    tables'

unfoldable pub set_field_assignment_line : Tables → ℕ → ℕ → Tables
set_field_assignment_line tables row line = record tables {
  field_assignments = record tables.field_assignments {
    line = set tables.field_assignments.line row line;
  };
}

unfoldable pub push_field_assignment_at :
    Tables → FieldId → FunctionId → AssignmentSource → MemoryOperationId → ExpressionId → ℕ → Tables
unfolding push_field_assignment_with set_field_assignment_line
push_field_assignment_at tables field function source memory_operation expression line =
    let (tables', row) =
      push_field_assignment_with tables field function source memory_operation expression in
    set_field_assignment_line tables' row line

unfoldable pub push_expression :
    Tables
    → ExpressionKind
    → StringId
    → ℕ
    → TypeId
    → FieldId
    → List ExpressionId
    → Tables × ExpressionId
push_expression tables kind text parameter result field children =
    let expressions = tables.expressions in
    let tables' : Tables = record tables {
      expressions = record {
        children = expressions.children ++ children;
        kind = push expressions.kind kind;
        text = push expressions.text text;
        parameter = push expressions.parameter parameter;
        result = push expressions.result result;
        field = push expressions.field field;
        child_start = push expressions.child_start (as_u32 (length expressions.children));
        child_count = push expressions.child_count (as_u32 (length children));
        line = push expressions.line 0;
      };
    } in
    (tables', last_id (length tables'.expressions.kind))

unfoldable pub set_expression_line : Tables → ExpressionId → ℕ → Tables
set_expression_line tables expression line = record tables {
  expressions = record tables.expressions { line = set tables.expressions.line expression line };
}

unfoldable pub push_body_expression :
    Tables → ExpressionKind → StringId → ℕ → List ExpressionId → Tables × ExpressionId
unfolding push_expression set_expression_line
push_body_expression tables kind text line children =
    let (tables', expression) =
      push_expression tables kind text no_index no_index no_index children in
    (set_expression_line tables' expression line, expression)
