-- ===== src/Analysis/Ownership/Index.antt =====
-- The field index of crates/zag-analysis/src/ownership.rs: the rows of the memory operations and of
-- the field assignments, grouped by the field they touch.
pub mod Laws
use zag.Prelude.{
  ℕ, zero, suc, ◌+◌, Bool, true, false, not, ◌||◌, Option, none, some, List, [], ◌∷◌, ltb, leb,
  if◌then◌else◌, length, get_elem?, get_or, replicate, as_u32,
}
use zag.Facts.Handles.{FieldId}
use zag.Facts.Kinds.{MemoryOperationKind, PlaceKind}
use zag.Facts.Tables.{Tables}
use zag.Facts.Access.{field_count, memory_operation_count, slice}
use zag.Analysis.Buckets.{count_keys, starts_from, place_rows}

pub record FieldIndex : Type 0 where
  pub free_start : List ℕ
  pub free_rows : List ℕ
  pub resize_start : List ℕ
  pub resize_rows : List ℕ
  pub assignment_start : List ℕ
  pub assignment_rows : List ℕ

-- Rows grouped by field: the starts of the groups and the grouped rows.
unfoldable pub group_rows : ℕ → List (ℕ × ℕ) → List ℕ × List ℕ
group_rows fields pairs =
    let start = starts_from 0 (count_keys pairs (replicate fields 0)) in
    (start, place_rows pairs start (replicate (length pairs) 0))

abbrev pub same_kind : MemoryOperationKind → MemoryOperationKind → Bool
same_kind MemoryOperationKind.allocate MemoryOperationKind.allocate = true
same_kind MemoryOperationKind.free MemoryOperationKind.free = true
same_kind MemoryOperationKind.resize MemoryOperationKind.resize = true
same_kind _ _ = false

abbrev pub is_field_of_parameter : PlaceKind → Bool
is_field_of_parameter PlaceKind.field_of_parameter = true
is_field_of_parameter _ = false

-- The field that a memory operation of the wanted kind touches, when it touches one that exists.
unfoldable pub operated_field : Tables → MemoryOperationKind → ℕ → Option FieldId
operated_field tables wanted row = elim (get_elem? tables.memory_operations.kind row) [
  | none ↦ none
  | some kind ↦
      if same_kind kind wanted
      then elim (get_elem? tables.memory_operations.place row) [
        | none ↦ none
        | some place ↦
            if is_field_of_parameter place
            then elim (get_elem? tables.memory_operations.place_field row) [
              | none ↦ none
              | some field ↦ if ltb field (field_count tables.fields) then some field else none
            ]
            else none
      ]
      else none
]

-- The field that an assignment writes, when it exists.
unfoldable pub assigned_field : Tables → ℕ → Option FieldId
assigned_field tables row = elim (get_elem? tables.field_assignments.field row) [
  | none ↦ none
  | some field ↦ if ltb field (field_count tables.fields) then some field else none
]

-- `(start..).filter_map(..)` over so many rows: each row that has a field, with it.
unfoldable pub field_pairs : (ℕ → Option FieldId) → ℕ → ℕ → List (ℕ × ℕ)
unfolding as_u32
field_pairs field_of zero row = []
field_pairs field_of (suc rows) row =
    let rest = field_pairs field_of rows (row + 1) in
    elim (field_of row) [ none ↦ rest | some field ↦ (as_u32 row, field) ∷ rest ]

unfoldable pub operation_pairs : Tables → MemoryOperationKind → List (ℕ × ℕ)
operation_pairs tables wanted =
    field_pairs (operated_field tables wanted) (memory_operation_count tables.memory_operations) 0

unfoldable pub assignment_pairs : Tables → List (ℕ × ℕ)
assignment_pairs tables =
    field_pairs (assigned_field tables) (length tables.field_assignments.field) 0

unfoldable pub build_field_index : Tables → FieldIndex
build_field_index tables =
    let fields = field_count tables.fields in
    let (free_start, free_rows) =
      group_rows fields (operation_pairs tables MemoryOperationKind.free) in
    let (resize_start, resize_rows) =
      group_rows fields (operation_pairs tables MemoryOperationKind.resize) in
    let (assignment_start, assignment_rows) = group_rows fields (assignment_pairs tables) in
    record {
      free_start = free_start;
      free_rows = free_rows;
      resize_start = resize_start;
      resize_rows = resize_rows;
      assignment_start = assignment_start;
      assignment_rows = assignment_rows;
    }

-- The rows of a field in an index: `rows[start[field]..start[field + 1]]`. For a field of the tables
-- the reads are in bounds.
abbrev pub rows_at : List ℕ → List ℕ → FieldId → List ℕ
rows_at start rows field = slice rows (get_or start field 0) (get_or start (field + 1) 0)
