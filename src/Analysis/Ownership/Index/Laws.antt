-- ===== src/Analysis/Ownership/Index/Laws.antt =====
-- What the field index of crates/zag-analysis/src/ownership.rs holds: for each field the rows that
-- touch it, in order, as a scan of the whole table would find them.
use zag.Prelude.{
  ℕ, zero, suc, ◌+◌, ◌≤◌, ◌<◌, ◌≡◌, refl, inl, inr, Option-cases, ◌∙◌, Option, none, some, List, [],
  ◌∷◌, arith, length, u32_mod, as_u32-eq_of_lt, All, ◌==◌, if◌then◌else◌,
}
use zag.Facts.Handles.{FieldId}
use zag.Facts.Kinds.{MemoryOperationKind}
use zag.Facts.Tables.{Tables}
use zag.Facts.Access.{field_count, memory_operation_count}
use zag.Analysis.Buckets.{bucket}
use zag.Analysis.Buckets.Laws.{grouped-bucket}
use zag.Analysis.Ownership.Index.{
  group_rows, operated_field, assigned_field, field_pairs, operation_pairs, assignment_pairs,
  build_field_index, rows_at,
}

-- The rows, from one on, that have the field: a scan of the table.
abbrev pub rows_with : (ℕ → Option FieldId) → FieldId → ℕ → ℕ → List ℕ
rows_with field_of field zero row = []
rows_with field_of field (suc rows) row =
    let rest = rows_with field_of field rows (row + 1) in
    elim (field_of row) [ none ↦ rest | some f ↦ if f == field then row ∷ rest else rest ]

length-field_pairs :
    (field_of : ℕ → Option FieldId) (rows row : ℕ) → length (field_pairs field_of rows row) ≤ rows
unfolding field_pairs
length-field_pairs field_of zero row = omega arith
length-field_pairs field_of (suc rows) row =
    ground (arith, length-field_pairs field_of rows (row + 1))

field_pairs-keys :
    (n : ℕ) (field_of : ℕ → Option FieldId) (rows row : ℕ)
    → ((r f : ℕ) → field_of r ≡ some f → f < n)
    → All (λ pair. pair.1 < n) (field_pairs field_of rows row)
unfolding field_pairs
field_pairs-keys n field_of zero row h = tt
field_pairs-keys n field_of (suc rows) row h =
    let later = field_pairs-keys n field_of rows (row + 1) h in
    elim (Option-cases (field_of row)) [
      | inl absent ↦ rw (absent, field_pairs) later
      | inr (field, e) ↦ rw (e, field_pairs) (h row field e, later)
    ]

bucket-field_pairs :
    (field_of : ℕ → Option FieldId) (field rows row : ℕ)
    → row + rows ≤ u32_mod
    → bucket field (field_pairs field_of rows row) ≡ rows_with field_of field rows row
unfolding field_pairs
bucket-field_pairs field_of field zero row fits = refl
bucket-field_pairs field_of field (suc rows) row fits = ground (
  arith,
  as_u32-eq_of_lt row (omega arith),
  bucket-field_pairs field_of field rows (row + 1) (omega arith),
)

operated_field-lt :
    (tables : Tables) (wanted : MemoryOperationKind) (row field : ℕ)
    → operated_field tables wanted row ≡ some field
    → field < field_count tables.fields
unfolding operated_field
operated_field-lt tables wanted row field h = ground arith

assigned_field-lt :
    (tables : Tables) (row field : ℕ)
    → assigned_field tables row ≡ some field
    → field < field_count tables.fields
unfolding assigned_field
assigned_field-lt tables row field h = ground arith

group-rows_with :
    (fields : ℕ) (field_of : ℕ → Option FieldId) (rows : ℕ) (field : FieldId)
    → ((r f : ℕ) → field_of r ≡ some f → f < fields)
    → rows < u32_mod
    → field < fields
    → rows_at
        (group_rows fields (field_pairs field_of rows 0)).0
        (group_rows fields (field_pairs field_of rows 0)).1
        field
      ≡ rows_with field_of field rows 0
unfolding group_rows
group-rows_with fields field_of rows field known fits inside =
    let pairs = field_pairs field_of rows 0 in
    let next : suc field ≡ field + 1 = omega arith in
    rw next at (
      grouped-bucket fields pairs 0 (field_pairs-keys fields field_of rows 0 known)
        (omega (arith, length-field_pairs field_of rows 0)) field inside)
    ∙ bucket-field_pairs field_of field rows 0 (omega arith)

-- Where operations and assignments have `u32` rows: for each field of the tables the index holds
-- the rows that a scan of the whole tables finds.
pub build_field_index-rows :
    (tables : Tables) (field : FieldId)
    → memory_operation_count tables.memory_operations < u32_mod
    → length tables.field_assignments.field < u32_mod
    → field < field_count tables.fields
    → (rows_at (build_field_index tables).free_start (build_field_index tables).free_rows field
        ≡ rows_with
            (operated_field tables MemoryOperationKind.free)
            field
            (memory_operation_count tables.memory_operations)
            0)
      × (rows_at
            (build_field_index tables).resize_start
            (build_field_index tables).resize_rows
            field
          ≡ rows_with
              (operated_field tables MemoryOperationKind.resize)
              field
              (memory_operation_count tables.memory_operations)
              0)
      × (rows_at
            (build_field_index tables).assignment_start
            (build_field_index tables).assignment_rows
            field
          ≡ rows_with (assigned_field tables) field (length tables.field_assignments.field) 0)
unfolding build_field_index operation_pairs assignment_pairs
build_field_index-rows tables field operations assignments inside =
    let fields = field_count tables.fields in
    (
      group-rows_with fields _ _ field (operated_field-lt tables MemoryOperationKind.free)
          operations inside,
      group-rows_with fields _ _ field (operated_field-lt tables MemoryOperationKind.resize)
          operations inside,
      group-rows_with fields _ _ field (assigned_field-lt tables) assignments inside,
    )
