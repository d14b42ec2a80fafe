-- ===== src/Facts/Wire.antt =====
-- crates/zag-facts/src/wire.rs: the bytes of a fact file. A byte is a number below 256. A reader
-- takes the bytes and the cursor, and gives what it read and the new cursor.
pub mod Kinds
pub mod Encode
pub mod Decode
pub mod Reads
pub mod Readers
pub mod Layout
pub mod Writes
pub mod RoundTrip
use Prim.Native.String.{String}
use zag.Prelude.{
  ℕ, zero, suc, ◌+◌, ◌*◌, ◌/◌, ◌%◌, Bool, true, false, ◌&&◌, Option, none, some, List, [], ◌∷◌,
  ◌++◌, ltb, ◌==◌, if◌then◌else◌, length, get_elem?, take, drop, as_u32, checked_add, checked_mul,
}
use zag.Facts.Access.{slice}

-- `b"ZAGFACT\x00"`.
abbrev pub magic : List ℕ
magic = 90 ∷ 65 ∷ 71 ∷ 70 ∷ 65 ∷ 67 ∷ 84 ∷ 0 ∷ []

abbrev pub version : ℕ
version = 2

pub data DecodeError : Type 0 where
  bad_magic : DecodeError
  unsupported_version truncated trailing_bytes : ℕ → DecodeError
  unknown_enum_value : String → ℕ → DecodeError

pub data Result {ℓ} (A : Type ℓ) : Type ℓ where
  ok : A → Result A
  err : DecodeError → Result A

-- `value.to_le_bytes()` and `u32::from_le_bytes(raw)`.
abbrev pub to_le_bytes : ℕ → List ℕ
to_le_bytes value =
    value % 256 ∷ value / 256 % 256 ∷ value / 65536 % 256 ∷ value / 16777216 % 256 ∷ []

abbrev pub from_le_bytes : List ℕ → ℕ
from_le_bytes [] = 0
from_le_bytes (byte ∷ bytes) = byte + 256 * from_le_bytes bytes

unfoldable pub write_u32 : List ℕ → ℕ → List ℕ
write_u32 out value = out ++ to_le_bytes value

unfoldable pub write_values : List ℕ → List ℕ → List ℕ
unfolding write_u32
write_values out [] = out
write_values out (value ∷ values) = write_values (write_u32 out value) values

unfoldable pub write_u32_column : List ℕ → List ℕ → List ℕ
unfolding write_values as_u32
write_u32_column out values = write_values (write_u32 out (as_u32 (length values))) values

unfoldable pub write_byte_column : List ℕ → List ℕ → List ℕ
unfolding write_u32 as_u32
write_byte_column out values = write_u32 out (as_u32 (length values)) ++ values

abbrev pub Reader : Type 0 → Type 0
Reader A = List ℕ → ℕ → Result (A × ℕ)

abbrev pub and_then {ℓ κ} : {A : Type ℓ} {B : Type κ} → Result A → (A → Result B) → Result B
and_then (ok a) f = f a
and_then (err e) f = err e

-- `?` on what a reader gives.
infixl 5 ◌>>=◌
abbrev pub ◌>>=◌ : {A B : Type 0} → Reader A → (A → Reader B) → Reader B
◌>>=◌ r f bytes cursor = and_then (r bytes cursor) (λ (a, cursor'). f a bytes cursor')

abbrev pub pure : {A : Type 0} → A → Reader A
pure a bytes cursor = ok (a, cursor)

unfoldable pub read_u32 : Reader ℕ
read_u32 bytes start =
    let end = start + 4 in
    if ltb (length bytes) end
    then err (truncated start)
    else ok (from_le_bytes (slice bytes start end), end)

-- `start + size`, where neither the product nor the sum overflows and the bytes go that far.
unfoldable pub column_end : List ℕ → ℕ → Option ℕ → Result ℕ
unfolding checked_add
column_end bytes start none = err (truncated start)
column_end bytes start (some size) = elim (checked_add start size) [
  | none ↦ err (truncated start)
  | some end ↦ if ltb (length bytes) end then err (truncated start) else ok end
]

-- The loop over `index`, at `start + index * 4`.
unfoldable pub read_values : ℕ → List ℕ → ℕ → List ℕ
read_values zero bytes at = []
read_values (suc count) bytes at =
    from_le_bytes (slice bytes at (at + 4)) ∷ read_values count bytes (at + 4)

unfoldable pub values_of : ℕ → Reader (List ℕ)
unfolding checked_mul column_end read_values
values_of count bytes start =
    and_then (column_end bytes start (checked_mul count 4))
      (λ end. ok (read_values count bytes start, end))

unfoldable pub read_u32_column : Reader (List ℕ)
unfolding read_u32 values_of
read_u32_column = do count ← read_u32; values_of count

unfoldable pub bytes_of : ℕ → Reader (List ℕ)
unfolding column_end
bytes_of count bytes start =
    and_then (column_end bytes start (some count)) (λ end. ok (slice bytes start end, end))

unfoldable pub read_byte_column : Reader (List ℕ)
unfolding read_u32 bytes_of
read_byte_column = do count ← read_u32; bytes_of count

-- `map_raw`: every value converted, or the first error.
unfoldable pub map_raw {ℓ} : {A : Type ℓ} → (ℕ → Result A) → List ℕ → Result (List A)
map_raw convert [] = ok []
map_raw convert (value ∷ values) =
    and_then (convert value) (λ a. and_then (map_raw convert values) (λ rest. ok (a ∷ rest)))

unfoldable pub read_enum_column : {A : Type 0} → (ℕ → Result A) → Reader (List A)
unfolding read_u32_column map_raw
read_enum_column convert = do
  raw ← read_u32_column
  λ bytes cursor. and_then (map_raw convert raw) (λ values. ok (values, cursor))
