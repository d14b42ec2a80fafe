-- ===== src/Facts/Wire/Reads.antt =====
-- Readers of crates/zag-facts/src/wire.rs that read back a given run of bytes wherever it stands,
-- and the runs of bytes that the writers append.
use zag.Prelude.{
  ℕ, zero, suc, ◌+◌, ◌-◌, ◌*◌, ◌<◌, ◌≡◌, refl, sym, ap, ◌∙◌, some, List, [], ◌∷◌, ◌++◌, map, length,
  length-append, drop, take, All, u32_mod, usize_mod, as_u32-eq_of_lt, checked_add, checked_mul,
  arith,
}
use mathlib.Core.List.{append_assoc, append-nil}
use zag.Facts.Wire.{
  Result, ok, to_le_bytes, from_le_bytes, write_u32, write_values, write_u32_column,
  write_byte_column, Reader, ◌>>=◌, pure, read_u32, column_end, read_values, values_of,
  read_u32_column, bytes_of, read_byte_column, map_raw, read_enum_column,
}
use zag.Facts.Wire.Encode.{write_columns}

-- The bytes from the cursor on are `rest`.
abbrev pub At : List ℕ → ℕ → List ℕ → Type 0
At bytes cursor rest = (drop cursor bytes ≡ rest) × (cursor + length rest ≡ length bytes)

-- `reader` reads `a` off the bytes `encoding`, wherever they stand in a file of `usize` length.
unfoldable pub Reads : {A : Type 0} → Reader A → A → List ℕ → Type 0
Reads reader a encoding =
    (bytes : List ℕ) (cursor : ℕ) (rest : List ℕ)
    → length bytes < usize_mod
    → At bytes cursor (encoding ++ rest)
    → reader bytes cursor ≡ ok (a, cursor + length encoding)

pub drop-append : (xs rest : List ℕ) → drop (length xs) (xs ++ rest) ≡ rest
drop-append [] rest = refl
drop-append (x ∷ xs) rest = drop-append xs rest

take-append : (xs rest : List ℕ) → take (length xs) (xs ++ rest) ≡ xs
take-append [] rest = refl
take-append (x ∷ xs) rest = ap (λ ys. x ∷ ys) (take-append xs rest)

drop-nil : (n : ℕ) → drop {A = ℕ} n [] ≡ []
drop-nil zero = refl
drop-nil (suc n) = refl

pub drop-drop : (n m : ℕ) (xs : List ℕ) → drop (n + m) xs ≡ drop m (drop n xs)
drop-drop zero m xs = ap (λ k. drop k xs) {x = 0 + m} {y = m} (omega arith)
drop-drop (suc n) m [] = drop-nil (suc n + m) ∙ sym (drop-nil m)
drop-drop (suc n) m (x ∷ xs) =
    ap (λ k. drop k (x ∷ xs)) {x = suc n + m} {y = suc (n + m)} (omega arith) ∙ drop-drop n m xs

pub At-step :
    (bytes : List ℕ) (cursor : ℕ) (xs rest : List ℕ)
    → At bytes cursor (xs ++ rest)
    → At bytes (cursor + length xs) rest
At-step bytes cursor xs rest (at, size) = (
  drop-drop cursor (length xs) bytes ∙ ap (drop (length xs)) at ∙ drop-append xs rest,
  omega (arith, size, length-append xs rest),
)

pub Reads-pure : {A : Type 0} (a : A) → Reads (pure a) a []
unfolding Reads
Reads-pure a bytes cursor rest fits at =
    ap (λ k. ok (a, k)) {x = cursor} {y = cursor + 0} (omega arith)

pub Reads-bind :
    {A B : Type 0} (r : Reader A) (f : A → Reader B) (a : A) (b : B) (xs ys : List ℕ)
    → Reads r a xs
    → Reads (f a) b ys
    → Reads (r >>= f) b (xs ++ ys)
unfolding Reads
Reads-bind r f a b xs ys first second bytes cursor rest fits (at, size) =
    let here = at ∙ append_assoc xs ys rest in
    let step =
      At-step bytes cursor xs (ys ++ rest)
        (here, omega (arith, size, ap length (append_assoc xs ys rest))) in
    let moved =
      first bytes cursor (ys ++ rest) fits
        (here, omega (arith, size, ap length (append_assoc xs ys rest))) in
    rw (moved, second bytes (cursor + length xs) rest fits step)
      (ap (λ k. ok (b, k)) {x = cursor + length xs + length ys} {y = cursor + length (xs ++ ys)}
        (omega (arith, length-append xs ys)))

from_le_bytes-to_le_bytes :
    (value : ℕ) → value < u32_mod → from_le_bytes (to_le_bytes value) ≡ value
from_le_bytes-to_le_bytes value small = omega arith

pub Reads-read_u32 : (value : ℕ) → value < u32_mod → Reads read_u32 value (to_le_bytes value)
unfolding Reads read_u32
Reads-read_u32 value small bytes cursor rest fits (at, size) =
    rw at (ground (arith, from_le_bytes-to_le_bytes value small))

-- The bytes of a column of numbers, and of a column of bytes.
abbrev pub values_bytes : List ℕ → List ℕ
values_bytes [] = []
values_bytes (value ∷ values) = to_le_bytes value ++ values_bytes values

abbrev pub column : List ℕ → List ℕ
column values = to_le_bytes (length values) ++ values_bytes values

abbrev pub byte_column : List ℕ → List ℕ
byte_column values = to_le_bytes (length values) ++ values

-- A column that the file can hold: as many rows as a `u32` counts, and each a `u32`.
abbrev pub Fits : List ℕ → Type 0
Fits values = All (λ value. value < u32_mod) values × (length values < u32_mod)

length-values_bytes : (values : List ℕ) → length (values_bytes values) ≡ length values * 4
length-values_bytes [] = refl
length-values_bytes (value ∷ values) = omega (arith, length-values_bytes values)

read_values-values_bytes :
    (values : List ℕ) (bytes : List ℕ) (cursor : ℕ) (rest : List ℕ)
    → All (λ value. value < u32_mod) values
    → At bytes cursor (values_bytes values ++ rest)
    → read_values (length values) bytes cursor ≡ values
unfolding read_values
read_values-values_bytes [] bytes cursor rest small at = refl
read_values-values_bytes (value ∷ values) bytes cursor rest small at =
    let next = At-step bytes cursor (to_le_bytes value) (values_bytes values ++ rest) at in
    let tail = read_values-values_bytes values bytes (cursor + 4) rest small.1 next in
    let four : cursor + 4 - cursor ≡ 4 = omega arith in
    rw (at.0, four, tail) (ap (λ head. head ∷ values) (from_le_bytes-to_le_bytes value small.0))

column_end-fits :
    (bytes : List ℕ) (cursor : ℕ) (xs rest : List ℕ)
    → length bytes < usize_mod
    → At bytes cursor (xs ++ rest)
    → column_end bytes cursor (some (length xs)) ≡ ok (cursor + length xs)
unfolding column_end checked_add
column_end-fits bytes cursor xs rest fits at = ground (arith, length-append xs rest)

checked_mul-fits :
    (values : List ℕ)
    → length (values_bytes values) < usize_mod
    → checked_mul (length values) 4 ≡ some (length (values_bytes values))
unfolding checked_mul
checked_mul-fits values fits =
    rw (length-values_bytes values) (ground (arith, length-values_bytes values))

Reads-values_of :
    (values : List ℕ)
    → All (λ value. value < u32_mod) values
    → Reads (values_of (length values)) values (values_bytes values)
unfolding Reads values_of
Reads-values_of values small bytes cursor rest fits at =
    rw
      (
        checked_mul-fits values (omega (arith, at.1, length-append (values_bytes values) rest)),
        column_end-fits bytes cursor (values_bytes values) rest fits at,
        read_values-values_bytes values bytes cursor rest small at,
      )
      refl

pub Reads-read_u32_column :
    (values : List ℕ) → Fits values → Reads read_u32_column values (column values)
unfolding read_u32_column
Reads-read_u32_column values (small, short) =
    Reads-bind read_u32 values_of (length values) values (to_le_bytes (length values))
      (values_bytes values) (Reads-read_u32 (length values) short) (Reads-values_of values small)

Reads-bytes_of : (values : List ℕ) → Reads (bytes_of (length values)) values values
unfolding Reads bytes_of column_end checked_add
Reads-bytes_of values bytes cursor rest fits at =
    let taken = ap (take (length values)) at.0 ∙ take-append values rest in
    let whole : cursor + length values - cursor ≡ length values = omega arith in
    rw (column_end-fits bytes cursor values rest fits at, whole, taken) refl

pub Reads-read_byte_column :
    (values : List ℕ) → length values < u32_mod → Reads read_byte_column values (byte_column values)
unfolding read_byte_column
Reads-read_byte_column values short =
    Reads-bind read_u32 bytes_of (length values) values (to_le_bytes (length values)) values
      (Reads-read_u32 (length values) short) (Reads-bytes_of values)

map_raw-map :
    {A : Type 0} (raw : A → ℕ) (from : ℕ → Result A)
    → ((a : A) → from (raw a) ≡ ok a)
    → (kinds : List A) → map_raw from (map raw kinds) ≡ ok kinds
unfolding map_raw
map_raw-map raw from back [] = refl
map_raw-map raw from back (kind ∷ kinds) = rw (back kind, map_raw-map raw from back kinds) refl

-- A column of an enum, as its discriminants, of which there are as many as a `u32` counts.
pub Reads-read_enum_column :
    {A : Type 0} (raw : A → ℕ) (from : ℕ → Result A)
    → ((a : A) → from (raw a) ≡ ok a)
    → (kinds : List A) → Fits (map raw kinds)
    → Reads (read_enum_column from) kinds (column (map raw kinds))
unfolding Reads read_enum_column
Reads-read_enum_column raw from back kinds fit bytes cursor rest fits at =
    rw
      (
        Reads-read_u32_column (map raw kinds) fit bytes cursor rest fits at,
        map_raw-map raw from back kinds,
      )
      refl

-- The columns one behind the other.
abbrev pub columns : List (List ℕ) → List ℕ
columns [] = []
columns (values ∷ rest) = column values ++ columns rest

write_values-bytes : (out values : List ℕ) → write_values out values ≡ out ++ values_bytes values
unfolding write_values write_u32
write_values-bytes out [] = sym (append-nil out)
write_values-bytes out (value ∷ values) =
    write_values-bytes (out ++ to_le_bytes value) values
    ∙ append_assoc out (to_le_bytes value) (values_bytes values)

pub write_u32_column-bytes :
    (out values : List ℕ)
    → length values < u32_mod
    → write_u32_column out values ≡ out ++ column values
unfolding write_u32_column write_u32
write_u32_column-bytes out values short = rw (as_u32-eq_of_lt (length values) short) (
    write_values-bytes (out ++ to_le_bytes (length values)) values
    ∙ append_assoc out (to_le_bytes (length values)) (values_bytes values))

pub write_byte_column-bytes :
    (out values : List ℕ)
    → length values < u32_mod
    → write_byte_column out values ≡ out ++ byte_column values
unfolding write_byte_column write_u32
write_byte_column-bytes out values short =
    rw (as_u32-eq_of_lt (length values) short)
      (append_assoc out (to_le_bytes (length values)) values)

pub write_columns-bytes :
    (out : List ℕ) (rows : List (List ℕ))
    → All Fits rows
    → write_columns out rows ≡ out ++ columns rows
unfolding write_columns
write_columns-bytes out [] fit = sym (append-nil out)
write_columns-bytes out (values ∷ rows) fit = rw (write_u32_column-bytes out values fit.0.1) (
    write_columns-bytes (out ++ column values) rows fit.1
    ∙ append_assoc out (column values) (columns rows))

-- A reader that goes on after a column.
pub Reads-column :
    {A : Type 0} (f : List ℕ → Reader A) (a : A) (ys : List ℕ) (values : List ℕ)
    → Fits values
    → Reads (f values) a ys
    → Reads (read_u32_column >>= f) a (column values ++ ys)
Reads-column f a ys values fit next =
    Reads-bind read_u32_column f values a (column values) ys (Reads-read_u32_column values fit) next

pub Reads-enum_column :
    {A B : Type 0} (f : List B → Reader A) (a : A) (ys : List ℕ) (raw : B → ℕ) (from : ℕ → Result B)
    → ((b : B) → from (raw b) ≡ ok b)
    → (kinds : List B) → Fits (map raw kinds)
    → Reads (f kinds) a ys
    → Reads (read_enum_column from >>= f) a (column (map raw kinds) ++ ys)
Reads-enum_column f a ys raw from back kinds fit next =
    Reads-bind (read_enum_column from) f kinds a (column (map raw kinds)) ys
      (Reads-read_enum_column raw from back kinds fit) next
