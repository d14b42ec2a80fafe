-- ===== src/Tests/Build.antt =====
-- Runs of the builders of crates/zag-facts/src/build.rs.
use zag.Prelude.{◌≡◌, refl, arith, none, some, [], ◌∷◌, as_u32, u32_add, u32_sub}
use zag.Facts.Tables.{Strings, Tables}
use zag.Facts.Access.{empty_tables, string_count, string_bytes}
use zag.Facts.Validate.Consistent.{HasEqualColumns}
use zag.Facts.Build.Strings.{push_string, intern, intern_from}
use zag.Facts.Build.Types.{push_type_row, push_struct_type}
use zag.Facts.Build.Rows.{push_struct, push_field, count_one}
use zag.Facts.Build.Declare.{add_string, declare_struct, declare_field}
use zag.Facts.Build.Texts.{Appends, push_string-Appends}
use zag.Facts.Build.Interned.{Interned, intern-Interned}
use zag.Facts.Build.Steps
use zag.Facts.Build.Columns.{IsBuilt-HasEqualColumns}
use zag.Facts.Build.Ranged.{IsRanged}
use zag.Facts.Build.Ordered.{IsBuiltInOrder, empty, step, IsBuiltInOrder-IsRanged}

abbrev two_texts : Strings
two_texts = record { bytes = 98 ∷ 117 ∷ 102 ∷ []; offsets = 0 ∷ 1 ∷ 3 ∷ [] }

push_string-Appends_example : Appends two_texts (7 ∷ 8 ∷ []) (push_string two_texts (7 ∷ 8 ∷ []))
push_string-Appends_example =
    push_string-Appends two_texts (7 ∷ 8 ∷ []) (omega arith) (omega arith) (omega arith)

intern-Interned_example : Interned two_texts (117 ∷ 102 ∷ []) (intern two_texts (117 ∷ 102 ∷ []))
intern-Interned_example =
    intern-Interned two_texts (117 ∷ 102 ∷ []) (omega arith) (omega arith) (omega arith)

-- The text is found at 1, and another is appended.
interned : intern two_texts (117 ∷ 102 ∷ []) ≡ (two_texts, 1)
unfolding intern intern_from string_count string_bytes as_u32
interned = refl

appended :
    intern two_texts (5 ∷ [])
    ≡ (record { bytes = 98 ∷ 117 ∷ 102 ∷ 5 ∷ []; offsets = 0 ∷ 1 ∷ 3 ∷ 4 ∷ [] }, 2)
unfolding intern intern_from push_string string_count string_bytes as_u32 u32_sub
appended = refl

-- A struct of one field.
abbrev with_struct : Tables
with_struct = (declare_struct empty_tables (83 ∷ []) 8 8 0).0

abbrev with_field : Tables
with_field = elim (declare_field with_struct 0 (102 ∷ []) 0 0) [
  | none ↦ with_struct
  | some (tables, id) ↦ tables
]

declared : declare_field with_struct 0 (102 ∷ []) 0 0 ≡ some (with_field, 0)
unfolding declare_field declare_struct add_string push_string push_struct_type push_type_row
    push_struct push_field count_one empty_tables string_count as_u32 u32_sub u32_add
declared = refl

one_struct : Steps.IsBuilt with_field
one_struct =
    Steps.step (Steps.step Steps.empty (Steps.declare_struct_call (83 ∷ []) 8 8 0))
      (Steps.declare_field_call 0 (102 ∷ []) 0 0 0 declared)

IsBuilt-HasEqualColumns_example : HasEqualColumns with_field
IsBuilt-HasEqualColumns_example = IsBuilt-HasEqualColumns with_field one_struct

in_order : IsBuiltInOrder with_field
unfolding declare_struct add_string push_string push_struct_type push_type_row push_struct
    empty_tables
in_order =
    step (Steps.declare_field_call 0 (102 ∷ []) 0 0 0 declared) (omega arith)
      (step (Steps.declare_struct_call (83 ∷ []) 8 8 0) tt empty)

IsBuiltInOrder-IsRanged_example : HasEqualColumns with_field × IsRanged with_field
IsBuiltInOrder-IsRanged_example = IsBuiltInOrder-IsRanged with_field in_order
