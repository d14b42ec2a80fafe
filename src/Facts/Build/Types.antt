-- ===== src/Facts/Build/Types.antt =====
-- crates/zag-facts/src/build.rs: the rows of the type table.
use Prim.Native.Nat.{bit_or}
use zag.Prelude.{ℕ, ◌+◌, ◌/◌, Bool, if◌then◌else◌, length, get_or, set}
use zag.Facts.Handles.{StringId, ModuleId, TypeId, no_index}
use zag.Facts.Kinds.{TypeKind}
use zag.Facts.Tables.{Tables}
use zag.Facts.Access.{root_module}
use zag.Facts.Build.{push, last_id}

-- A row of the type table before it has a handle.
pub record TypeRow : Type 0 where
  pub kind : TypeKind
  pub element : TypeId
  pub name : StringId
  pub count : ℕ
  pub size : ℕ
  pub alignment : ℕ
  pub bit_width : ℕ
  pub flags : ℕ

abbrev pub type_row : TypeKind → TypeRow
type_row kind = record {
  kind = kind;
  element = no_index;
  name = no_index;
  count = 0;
  size = 0;
  alignment = 1;
  bit_width = 0;
  flags = 0;
}

unfoldable pub push_type_row : Tables → TypeRow → Tables × TypeId
push_type_row tables row =
    let tables' : Tables = record tables {
      types = record {
        kind = push tables.types.kind row.kind;
        element = push tables.types.element row.element;
        count = push tables.types.count row.count;
        module_id = push tables.types.module_id root_module;
        name = push tables.types.name row.name;
        size = push tables.types.size row.size;
        alignment = push tables.types.alignment row.alignment;
        bit_width = push tables.types.bit_width row.bit_width;
        flags = push tables.types.flags row.flags;
      };
    } in
    (tables', last_id (length tables'.types.kind))

-- `bit_width.div_ceil(8)`.
abbrev pub bytes_for : ℕ → ℕ
bytes_for bit_width = (bit_width + 7) / 8

unfoldable pub float_row : ℕ → TypeRow
float_row bit_width = record (type_row TypeKind.float) {
  size = bytes_for bit_width;
  alignment = bytes_for bit_width;
  bit_width = bit_width;
}

unfoldable pub push_float_type : Tables → ℕ → Tables × TypeId
push_float_type tables bit_width = push_type_row tables (float_row bit_width)

abbrev pub type_flag_signed : ℕ
type_flag_signed = 1

unfoldable pub integer_row : ℕ → Bool → TypeRow
integer_row bit_width signed = record (type_row TypeKind.integer) {
  size = bytes_for bit_width;
  alignment = bytes_for bit_width;
  bit_width = bit_width;
  flags = if signed then type_flag_signed else 0;
}

unfoldable pub push_integer_type : Tables → ℕ → Bool → Tables × TypeId
push_integer_type tables bit_width signed = push_type_row tables (integer_row bit_width signed)

unfoldable pub push_slice_type : Tables → TypeId → Tables × TypeId
push_slice_type tables element =
    push_type_row tables
      (record (type_row TypeKind.slice) { element = element; size = 16; alignment = 8 })

unfoldable pub push_pointer_type : Tables → TypeId → Tables × TypeId
push_pointer_type tables element =
    push_type_row tables
      (record (type_row TypeKind.pointer) { element = element; size = 8; alignment = 8 })

unfoldable pub push_optional_type : Tables → TypeId → Tables × TypeId
push_optional_type tables element =
    push_type_row tables
      (record (type_row TypeKind.optional) { element = element; size = 16; alignment = 8 })

unfoldable pub push_array_type : Tables → TypeId → ℕ → ℕ → Tables × TypeId
push_array_type tables element count size = push_type_row tables (record (type_row TypeKind.array) {
  element = element;
  count = count;
  size = size;
  alignment = 8;
})

unfoldable pub push_void_type : Tables → Tables × TypeId
push_void_type tables = push_type_row tables (type_row TypeKind.void)

unfoldable pub push_opaque_type : Tables → StringId → Tables × TypeId
push_opaque_type tables name =
    push_type_row tables (record (type_row TypeKind.opaque) { name = name })

unfoldable pub push_struct_type : Tables → StringId → ℕ → ℕ → Tables × TypeId
push_struct_type tables name size alignment =
    push_type_row tables
      (record (type_row TypeKind.struct) { name = name; size = size; alignment = alignment })

unfoldable pub set_type_flags : Tables → TypeId → ℕ → Tables
set_type_flags tables kind flags = record tables {
  types = record tables.types {
    flags = set tables.types.flags kind (bit_or (get_or tables.types.flags kind 0) flags);
  };
}

unfoldable pub set_type_module : Tables → TypeId → ModuleId → Tables
set_type_module tables kind module_id = record tables {
  types = record tables.types { module_id = set tables.types.module_id kind module_id };
}
