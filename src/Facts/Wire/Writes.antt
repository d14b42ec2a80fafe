-- ===== src/Facts/Wire/Writes.antt =====
-- `encode` of crates/zag-facts/src/wire.rs appends the bytes of the tables' parts in order.
use zag.Prelude.{ℕ, ◌≡◌, ◌<◌, refl, sym, ap, ◌∙◌, List, [], ◌++◌, length, All, u32_mod}
use mathlib.Core.List.{append_assoc, append-nil}
use zag.Facts.Tables.{Tables}
use zag.Facts.Wire.{to_le_bytes, magic, version, write_u32, write_byte_column, write_u32_column}
use zag.Facts.Wire.Encode.{
  modules_columns, unresolved_imports_columns, artifacts_columns, types_columns, structs_columns,
  fields_columns, functions_columns, parameters_columns, allocator_sources_columns, calls_columns,
  call_arguments_columns, memory_operations_columns, expressions_columns, field_assignments_columns,
  write_columns, encode_modules, encode_types, encode_structs, encode_fields, encode_functions,
  encode_side_tables, encode,
}
use zag.Facts.Wire.Reads.{
  Fits, column, byte_column, columns, write_u32_column-bytes, write_byte_column-bytes,
  write_columns-bytes,
}
use zag.Facts.Wire.Layout.{
  IsWritable, modules_bytes, functions_bytes, allocator_and_calls_bytes, memory_bytes, body_bytes,
}

-- `final` is `out` with `xs` behind it.
unfoldable Appends : List ℕ → List ℕ → List ℕ → Type 0
Appends out final xs = final ≡ out ++ xs

Appends-nil : (out : List ℕ) → Appends out out []
unfolding Appends
Appends-nil out = sym (append-nil out)

-- What is appended in two steps.
Appends-two :
    (out middle final xs ys : List ℕ)
    → Appends out middle xs
    → Appends middle final ys
    → Appends out final (xs ++ ys)
unfolding Appends
Appends-two out middle final xs ys e f = f ∙ ap (λ zs. zs ++ ys) e ∙ append_assoc out xs ys

Appends-columns :
    (out : List ℕ) (rows : List (List ℕ))
    → All Fits rows
    → Appends out (write_columns out rows) (columns rows)
unfolding Appends
Appends-columns out rows fit = write_columns-bytes out rows fit

Appends-encode_modules :
    (out : List ℕ) (t : Tables)
    → IsWritable t
    → Appends out (encode_modules out t) (modules_bytes t)
unfolding encode_modules
Appends-encode_modules out t w =
    Appends-two _ _ _ (columns (modules_columns t.modules)) _
      (Appends-columns _ (modules_columns t.modules) w.modules)
      (Appends-two _ _ _ (columns (unresolved_imports_columns t.unresolved_imports)) _
        (Appends-columns _ (unresolved_imports_columns t.unresolved_imports) w.unresolved_imports)
        (Appends-two _ _ _ (columns (artifacts_columns t.artifacts)) _
          (Appends-columns _ (artifacts_columns t.artifacts) w.artifacts) (Appends-nil _)))

Appends-encode_functions :
    (out : List ℕ) (t : Tables)
    → IsWritable t
    → Appends out (encode_functions out t) (functions_bytes t)
unfolding encode_functions
Appends-encode_functions out t w =
    Appends-two _ _ _ (columns (functions_columns t.functions)) _
      (Appends-columns _ (functions_columns t.functions) w.functions)
      (Appends-two _ _ _ (columns (parameters_columns t.parameters)) _
        (Appends-columns _ (parameters_columns t.parameters) w.parameters) (Appends-nil _))

Appends-allocator_and_calls :
    (out : List ℕ) (t : Tables)
    → IsWritable t
    → Appends out
        (write_columns
          (write_columns
            (write_columns out (allocator_sources_columns t.allocator_sources))
            (calls_columns t.calls))
          (call_arguments_columns t.call_arguments))
        (allocator_and_calls_bytes t)
Appends-allocator_and_calls out t w =
    Appends-two _ _ _ (columns (allocator_sources_columns t.allocator_sources)) _
      (Appends-columns _ (allocator_sources_columns t.allocator_sources) w.allocator_sources)
      (Appends-two _ _ _ (columns (calls_columns t.calls)) _
        (Appends-columns _ (calls_columns t.calls) w.calls)
        (Appends-two _ _ _ (columns (call_arguments_columns t.call_arguments)) _
          (Appends-columns _ (call_arguments_columns t.call_arguments) w.call_arguments)
          (Appends-nil _)))

Appends-memory :
    (out : List ℕ) (t : Tables)
    → IsWritable t
    → Appends out
        (write_columns
          (write_columns
            (write_columns out (memory_operations_columns t.memory_operations))
            (expressions_columns t.expressions))
          (field_assignments_columns t.field_assignments))
        (memory_bytes t)
Appends-memory out t w =
    Appends-two _ _ _ (columns (memory_operations_columns t.memory_operations)) _
      (Appends-columns _ (memory_operations_columns t.memory_operations) w.memory_operations)
      (Appends-two _ _ _ (columns (expressions_columns t.expressions)) _
        (Appends-columns _ (expressions_columns t.expressions) w.expressions)
        (Appends-two _ _ _ (columns (field_assignments_columns t.field_assignments)) _
          (Appends-columns _ (field_assignments_columns t.field_assignments) w.field_assignments)
          (Appends-nil _)))

Appends-encode_side_tables :
    (out : List ℕ) (t : Tables)
    → IsWritable t
    → Appends out (encode_side_tables out t) (allocator_and_calls_bytes t ++ (memory_bytes t ++ []))
unfolding encode_side_tables
Appends-encode_side_tables out t w =
    Appends-two _ _ _ (allocator_and_calls_bytes t) _ (Appends-allocator_and_calls out t w)
      (Appends-two _ _ _ (memory_bytes t) _ (Appends-memory _ t w) (Appends-nil _))

Appends-encode_types :
    (out : List ℕ) (t : Tables)
    → IsWritable t
    → Appends out (encode_types out t) (columns (types_columns t.types))
unfolding encode_types
Appends-encode_types out t w = Appends-columns out (types_columns t.types) w.types

Appends-encode_structs :
    (out : List ℕ) (t : Tables)
    → IsWritable t
    → Appends out (encode_structs out t) (columns (structs_columns t.structs))
unfolding encode_structs
Appends-encode_structs out t w = Appends-columns out (structs_columns t.structs) w.structs

Appends-encode_fields :
    (out : List ℕ) (t : Tables)
    → IsWritable t
    → Appends out (encode_fields out t) (columns (fields_columns t.fields))
unfolding encode_fields
Appends-encode_fields out t w = Appends-columns out (fields_columns t.fields) w.fields

Appends-u32 : (out : List ℕ) (value : ℕ) → Appends out (write_u32 out value) (to_le_bytes value)
unfolding Appends write_u32
Appends-u32 out value = refl

Appends-bytes :
    (out values : List ℕ)
    → length values < u32_mod
    → Appends out (write_byte_column out values) (byte_column values)
unfolding Appends
Appends-bytes out values short = write_byte_column-bytes out values short

Appends-column :
    (out values : List ℕ) → Fits values → Appends out (write_u32_column out values) (column values)
unfolding Appends
Appends-column out values fit = write_u32_column-bytes out values fit.1

-- The body as it is written: all that `encode` appends to the magic bytes.
Appends-body :
    (out : List ℕ) (t : Tables)
    → IsWritable t
    → Appends out
        (encode_side_tables
          (encode_functions
            (encode_fields
              (encode_structs
                (encode_types
                  (encode_modules
                    (write_u32_column
                      (write_byte_column
                        (write_u32 (write_u32 out version) t.target)
                        t.strings.bytes)
                      t.strings.offsets)
                    t)
                  t)
                t)
              t)
            t)
          t)
        (body_bytes t)
Appends-body out t w = Appends-two _ _ _ (to_le_bytes version) _ (Appends-u32 _ version) (
    Appends-two _ _ _ (to_le_bytes t.target) _ (Appends-u32 _ t.target) (
      Appends-two _ _ _ (byte_column t.strings.bytes) _ (Appends-bytes _ t.strings.bytes w.bytes) (
        Appends-two _ _ _ (column t.strings.offsets) _
          (Appends-column _ t.strings.offsets w.offsets)
          (Appends-two _ _ _ (modules_bytes t) _ (Appends-encode_modules _ t w) (
            Appends-two _ _ _ (columns (types_columns t.types)) _ (Appends-encode_types _ t w) (
              Appends-two _ _ _ (columns (structs_columns t.structs)) _
                (Appends-encode_structs _ t w)
                (Appends-two _ _ _ (columns (fields_columns t.fields)) _
                  (Appends-encode_fields _ t w)
                  (Appends-two _ _ _ (functions_bytes t) _ (Appends-encode_functions _ t w)
                    (Appends-encode_side_tables _ t w)))))))))

pub encode-body : (t : Tables) → IsWritable t → encode t ≡ magic ++ body_bytes t
unfolding encode Appends
encode-body t w = Appends-body magic t w
