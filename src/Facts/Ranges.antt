-- ===== src/Facts/Ranges.antt =====
-- The row ranges of crates/zag-facts/src/tables.rs, which one table claims in another, and the
-- test for a reference type.
pub mod Laws
use zag.Prelude.{
  ℕ, zero, suc, ◌≤◌, ◌<◌, ◌≡◌, Bool, true, false, Option, none, some, List, min, get_elem?,
  saturating_add,
}
use zag.Facts.Handles.{TypeId, ModuleId, StructId, FunctionId}
use zag.Facts.Kinds.{TypeKind}
use zag.Facts.Tables.{Modules, Structs, Functions, Expressions, Types, Tables}
use zag.Facts.Access.{field_count, parameter_count}

-- A range `start..end`, which a reader walks from `start` while it is below `end`.
pub record Range : Type 0 where
  pub start : ℕ
  pub end : ℕ

abbrev pub Holds : Range → ℕ → Type 0
Holds range row = (range.start ≤ row) × (row < range.end)

-- The range that two columns give a row, and `0..0` for a row that one of them lacks.
unfoldable pub row_range : List ℕ → List ℕ → ℕ → Range
row_range starts counts row = elim (get_elem? starts row) [
  | none ↦ record { start = 0; end = 0 }
  | some start ↦ elim (get_elem? counts row) [
    | none ↦ record { start = 0; end = 0 }
    | some count ↦ record { start = start; end = saturating_add start count }
  ]
]

unfoldable pub expression_children : Expressions → ℕ → Range
unfolding row_range
expression_children expressions row = row_range expressions.child_start expressions.child_count row

unfoldable pub module_unresolved : Modules → ModuleId → Range
unfolding row_range
module_unresolved modules id = row_range modules.unresolved_start modules.unresolved_count id

unfoldable pub struct_fields : Structs → StructId → Range
unfolding row_range
struct_fields structs id = row_range structs.field_start structs.field_count id

unfoldable pub function_parameters : Functions → FunctionId → Range
unfolding row_range
function_parameters functions id = row_range functions.parameter_start functions.parameter_count id

-- `range.start.min(end)..end` for the end that is bounded by a table's row count.
bounded : Range → ℕ → Range
bounded range limit =
    let end = min range.end limit in record { start = min range.start end; end = end }

unfoldable pub fields_of : Tables → StructId → Range
unfolding bounded
fields_of tables id = bounded (struct_fields tables.structs id) (field_count tables.fields)

unfoldable pub parameters_of : Tables → FunctionId → Range
unfolding bounded
parameters_of tables id =
    bounded (function_parameters tables.functions id) (parameter_count tables.parameters)

-- One round: the kind of a type, its element, and what the rounds left say of the element.
reference_step : Option TypeKind → Option TypeId → (TypeId → Bool) → Bool
reference_step none element rest = false
reference_step (some TypeKind.slice) element rest = true
reference_step (some TypeKind.pointer) element rest = true
reference_step (some TypeKind.optional) none rest = false
reference_step (some TypeKind.optional) (some element) rest = rest element
reference_step (some _) element rest = false

-- The loop of `is_reference_type` on the rounds left.
reference_within : ℕ → Types → TypeId → Bool
unfolding reference_step
reference_within zero types id = false
reference_within (suc rounds) types id =
    reference_step (get_elem? types.kind id) (get_elem? types.element id)
      (reference_within rounds types)

unfoldable pub is_reference_type : Types → TypeId → Bool
unfolding reference_within
is_reference_type types id = reference_within 8 types id

-- A type that is a slice or a pointer under `wraps` optionals.
pub data Refers (types : Types) : TypeId → ℕ → Type 0 where
  slice : {id : TypeId} → get_elem? types.kind id ≡ some TypeKind.slice → Refers types id 0
  pointer : {id : TypeId} → get_elem? types.kind id ≡ some TypeKind.pointer → Refers types id 0
  optional :
      {id : TypeId} {wraps : ℕ} (element : TypeId)
      → get_elem? types.kind id ≡ some TypeKind.optional
      → get_elem? types.element id ≡ some element
      → Refers types element wraps
      → Refers types id (suc wraps)
