-- ===== src/Facts/Wire/RoundTrip.antt =====
-- `decode` of crates/zag-facts/src/wire.rs on what `encode` wrote.
use zag.Prelude.{
  ℕ, ◌+◌, ◌≡◌, ◌<◌, refl, ap, List, [], ◌++◌, length, length-append, ◌==◌, if◌then◌else◌, usize_mod,
  arith,
}
use zag.Facts.Tables.{Tables}
use zag.Facts.Wire.{
  ok, err, trailing_bytes, to_le_bytes, magic, version, read_u32, read_byte_column,
}
use zag.Facts.Wire.Encode.{
  modules_columns, unresolved_imports_columns, artifacts_columns, types_columns, structs_columns,
  fields_columns, functions_columns, parameters_columns, allocator_sources_columns, calls_columns,
  call_arguments_columns, memory_operations_columns, expressions_columns, field_assignments_columns,
  encode,
}
use zag.Facts.Wire.Decode.{
  read_modules, read_unresolved_imports, read_artifacts, read_types, read_structs, read_fields,
  read_functions, read_parameters, read_allocator_sources, read_calls, read_call_arguments,
  read_memory_operations, read_expressions, read_field_assignments, decode_modules,
  decode_functions, decode_allocator_and_calls, decode_memory, check_version, decode_body, decode,
}
use zag.Facts.Wire.Reads.{
  Reads, byte_column, columns, Reads-column, Reads-bind, Reads-pure, Reads-read_u32,
  Reads-read_byte_column,
}
use zag.Facts.Wire.Readers.{
  Reads-read_modules, Reads-read_unresolved_imports, Reads-read_artifacts, Reads-read_types,
  Reads-read_structs, Reads-read_fields, Reads-read_functions, Reads-read_parameters,
  Reads-read_allocator_sources, Reads-read_calls, Reads-read_call_arguments,
  Reads-read_memory_operations, Reads-read_expressions, Reads-read_field_assignments,
}
use zag.Facts.Wire.Layout.{
  IsWritable, modules_bytes, functions_bytes, allocator_and_calls_bytes, memory_bytes, body_bytes,
}
use zag.Facts.Wire.Writes.{encode-body}

Reads-decode_modules :
    (t : Tables)
    → IsWritable t
    → Reads decode_modules (t.modules, t.unresolved_imports, t.artifacts) (modules_bytes t)
unfolding decode_modules
Reads-decode_modules t w =
    Reads-bind read_modules _ t.modules _ (columns (modules_columns t.modules)) _
      (Reads-read_modules t.modules w.modules)
      (Reads-bind read_unresolved_imports _ t.unresolved_imports _
        (columns (unresolved_imports_columns t.unresolved_imports)) _
        (Reads-read_unresolved_imports t.unresolved_imports w.unresolved_imports)
        (Reads-bind read_artifacts _ t.artifacts _ (columns (artifacts_columns t.artifacts)) _
          (Reads-read_artifacts t.artifacts w.artifacts)
          (Reads-pure (t.modules, t.unresolved_imports, t.artifacts))))

Reads-decode_functions :
    (t : Tables)
    → IsWritable t
    → Reads decode_functions (t.functions, t.parameters) (functions_bytes t)
unfolding decode_functions
Reads-decode_functions t w =
    Reads-bind read_functions _ t.functions _ (columns (functions_columns t.functions)) _
      (Reads-read_functions t.functions w.functions)
      (Reads-bind read_parameters _ t.parameters _ (columns (parameters_columns t.parameters)) _
        (Reads-read_parameters t.parameters w.parameters) (Reads-pure (t.functions, t.parameters)))

Reads-decode_allocator_and_calls :
    (t : Tables)
    → IsWritable t
    → Reads decode_allocator_and_calls
        (t.allocator_sources, t.calls, t.call_arguments)
        (allocator_and_calls_bytes t)
unfolding decode_allocator_and_calls
Reads-decode_allocator_and_calls t w =
    Reads-bind read_allocator_sources _ t.allocator_sources _
      (columns (allocator_sources_columns t.allocator_sources)) _
      (Reads-read_allocator_sources t.allocator_sources w.allocator_sources)
      (Reads-bind read_calls _ t.calls _ (columns (calls_columns t.calls)) _
        (Reads-read_calls t.calls w.calls)
        (Reads-bind read_call_arguments _ t.call_arguments _
          (columns (call_arguments_columns t.call_arguments)) _
          (Reads-read_call_arguments t.call_arguments w.call_arguments)
          (Reads-pure (t.allocator_sources, t.calls, t.call_arguments))))

Reads-decode_memory :
    (t : Tables)
    → IsWritable t
    → Reads decode_memory (t.memory_operations, t.expressions, t.field_assignments) (memory_bytes t)
unfolding decode_memory
Reads-decode_memory t w =
    Reads-bind read_memory_operations _ t.memory_operations _
      (columns (memory_operations_columns t.memory_operations)) _
      (Reads-read_memory_operations t.memory_operations w.memory_operations)
      (Reads-bind read_expressions _ t.expressions _ (columns (expressions_columns t.expressions)) _
        (Reads-read_expressions t.expressions w.expressions)
        (Reads-bind read_field_assignments _ t.field_assignments _
          (columns (field_assignments_columns t.field_assignments)) _
          (Reads-read_field_assignments t.field_assignments w.field_assignments)
          (Reads-pure (t.memory_operations, t.expressions, t.field_assignments))))

Reads-check_version : Reads (check_version version) tt []
unfolding check_version Reads
Reads-check_version bytes cursor rest fits at =
    ap (λ k. ok (tt, k)) {x = cursor} {y = cursor + 0} (omega arith)

Reads-decode_body : (t : Tables) → IsWritable t → Reads decode_body t (body_bytes t)
unfolding decode_body
Reads-decode_body t w =
    Reads-bind read_u32 _ version _ (to_le_bytes version) _ (Reads-read_u32 version (omega arith)) (
      Reads-bind (check_version version) _ tt _ [] _ Reads-check_version (
        Reads-bind read_u32 _ t.target _ (to_le_bytes t.target) _ (Reads-read_u32 t.target w.target)
          (Reads-bind read_byte_column _ t.strings.bytes _ (byte_column t.strings.bytes) _
            (Reads-read_byte_column t.strings.bytes w.bytes)
            (Reads-column _ _ _ t.strings.offsets w.offsets (
              Reads-bind decode_modules _ (t.modules, t.unresolved_imports, t.artifacts) _
                (modules_bytes t) _ (Reads-decode_modules t w)
                (Reads-bind read_types _ t.types _ (columns (types_columns t.types)) _
                  (Reads-read_types t.types w.types)
                  (Reads-bind read_structs _ t.structs _ (columns (structs_columns t.structs)) _
                    (Reads-read_structs t.structs w.structs)
                    (Reads-bind read_fields _ t.fields _ (columns (fields_columns t.fields)) _
                      (Reads-read_fields t.fields w.fields)
                      (Reads-bind decode_functions _ (t.functions, t.parameters) _
                        (functions_bytes t) _ (Reads-decode_functions t w)
                        (Reads-bind decode_allocator_and_calls _
                          (t.allocator_sources, t.calls, t.call_arguments) _
                          (allocator_and_calls_bytes t) _ (Reads-decode_allocator_and_calls t w)
                          (Reads-bind decode_memory _
                            (t.memory_operations, t.expressions, t.field_assignments) _
                            (memory_bytes t) _ (Reads-decode_memory t w) (Reads-pure t))))))))))))

decode-magic :
    (body rest : List ℕ) (t : Tables)
    → Reads decode_body t body
    → length (magic ++ (body ++ rest)) < usize_mod
    → decode (magic ++ (body ++ rest))
      ≡ (if length rest == 0 then ok t else err (trailing_bytes (length (magic ++ body))))
unfolding decode Reads
decode-magic body rest t reads fits =
    let read = reads (magic ++ (body ++ rest)) 8 rest fits (refl, omega arith) in
    rw read (ground (arith, length-append body rest))

decode-written :
    (file body rest : List ℕ) (t : Tables)
    → file ≡ magic ++ body
    → Reads decode_body t body
    → length (file ++ rest) < usize_mod
    → decode (file ++ rest)
      ≡ (if length rest == 0 then ok t else err (trailing_bytes (length file)))
decode-written file body rest t e reads fits =
    let short : length (magic ++ (body ++ rest)) < usize_mod =
      omega (arith, ap length e, fits, length-append file rest, length-append body rest) in
    rw e (decode-magic body rest t reads short)

-- For tables that the format can hold, and a file of `usize` length, `decode` gives back the tables
-- that were encoded; with bytes behind the file it answers where the file ends.
pub decode-encode :
    (t : Tables) (rest : List ℕ)
    → IsWritable t
    → length (encode t ++ rest) < usize_mod
    → decode (encode t ++ rest)
      ≡ (if length rest == 0 then ok t else err (trailing_bytes (length (encode t))))
decode-encode t rest w fits =
    decode-written (encode t) (body_bytes t) rest t (encode-body t w) (Reads-decode_body t w) fits
