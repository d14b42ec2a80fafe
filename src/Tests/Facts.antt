-- ===== src/Tests/Facts.antt =====
-- The fact tables of the small program: their ranges, and their file.
use zag.Prelude.{ℕ, ◌≡◌, ◌↔◌, ◌<◌, true, [], ◌∷◌, ◌++◌, length, arith, usize_mod}
use zag.Facts.Ranges.{
  Holds, fields_of, struct_fields, parameters_of, function_parameters, is_reference_type, Refers,
}
use zag.Facts.Ranges.Laws.{fields_of-Holds, parameters_of-Holds, is_reference_type-Refers}
use zag.Facts.Wire.{ok, err, trailing_bytes}
use zag.Facts.Wire.Kinds.{
  artifact_kind_raw, container_kind_raw, type_kind_raw, allocator_source_kind_raw,
  memory_operation_kind_raw, place_kind_raw, assignment_source_raw, expression_kind_raw,
}
use zag.Facts.Wire.Encode.{encode}
use zag.Facts.Wire.Decode.{decode}
use zag.Facts.Wire.Layout.{IsWritable}
use zag.Facts.Wire.RoundTrip.{decode-encode}
use zag.Tests.Sample.{sample}

fields_of-Holds_example :
    Holds (fields_of sample 0) 1 ↔ (Holds (struct_fields sample.structs 0) 1 × (1 < 2))
fields_of-Holds_example = fields_of-Holds sample 0 1

parameters_of-Holds_example :
    Holds (parameters_of sample 1) 1 ↔ (Holds (function_parameters sample.functions 1) 1 × (1 < 3))
parameters_of-Holds_example = parameters_of-Holds sample 1 1

is_reference_type-Refers_example :
    (is_reference_type sample.types 2 ≡ true)
    ↔ ∥ ((wraps : ℕ) × (wraps < 8) × Refers sample.types 2 wraps) ∥₁
is_reference_type-Refers_example = is_reference_type-Refers sample.types 2

sample-IsWritable : IsWritable sample
unfolding artifact_kind_raw container_kind_raw type_kind_raw allocator_source_kind_raw
    memory_operation_kind_raw place_kind_raw assignment_source_raw expression_kind_raw
sample-IsWritable = record {
  target = omega arith;
  bytes = omega arith;
  offsets = ground arith;
  modules = ground arith;
  unresolved_imports = ground arith;
  artifacts = ground arith;
  types = ground arith;
  structs = ground arith;
  fields = ground arith;
  functions = ground arith;
  parameters = ground arith;
  allocator_sources = ground arith;
  calls = ground arith;
  call_arguments = ground arith;
  memory_operations = ground arith;
  expressions = ground arith;
  field_assignments = ground arith;
}

sample-short : length (encode sample ++ 7 ∷ []) < usize_mod
unfolding encode zag.Facts.Wire.Encode.encode_side_tables zag.Facts.Wire.Encode.encode_functions
    zag.Facts.Wire.Encode.encode_fields zag.Facts.Wire.Encode.encode_structs
    zag.Facts.Wire.Encode.encode_types zag.Facts.Wire.Encode.encode_modules
sample-short = omega arith

decode-encode_example :
    decode (encode sample ++ 7 ∷ []) ≡ err (trailing_bytes (length (encode sample)))
decode-encode_example = decode-encode sample (7 ∷ []) sample-IsWritable sample-short
