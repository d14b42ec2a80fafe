-- ===== src/Repair.antt =====
-- crates/zag-repair/src/lib.rs: repairs planned from the compiler's diagnostics, and applied to a
-- source text. A byte is a number.
pub mod Order
pub mod Weave
pub mod Applies
pub mod Errors
pub mod Plans
use zag.Prelude.{
  ℕ, zero, suc, ◌+◌, ◌-◌, ◌*◌, Bool, true, false, ◌&&◌, ◌||◌, not, Option, none, some, List, [],
  ◌∷◌, ◌++◌, ◌>>=◌, ltb, leb, ◌==◌, if◌then◌else◌, length, take, drop, u32_mod,
}
use zag.Facts.Wire.Decode.{same_bytes}
use zag.Facts.Access.{slice}

pub data DiagnosticCode : Type 0 where
  mismatched_types unhandled : DiagnosticCode

pub record Diagnostic : Type 0 where
  pub code : DiagnosticCode
  pub span_start : ℕ
  pub span_end : ℕ
  pub expected : List ℕ
  pub found : List ℕ

pub record Repair : Type 0 where
  pub span_start : ℕ
  pub span_end : ℕ
  pub prefix : List ℕ
  pub suffix : List ℕ

pub data RepairError : Type 0 where
  span_out_of_range overlapping_repairs : ℕ → ℕ → RepairError

pub record IntegerType : Type 0 where
  pub signed : Bool
  pub width : Option ℕ

-- The digits of `str::parse::<u32>`, after the value read so far.
unfoldable pub parse_digits : ℕ → List ℕ → Option ℕ
parse_digits value [] = some value
parse_digits value (byte ∷ bytes) =
    let next = value * 10 + (byte - 48) in
    let rest = parse_digits next bytes in
    if leb 48 byte && leb byte 57 && ltb next u32_mod then rest else none

-- `str::from_utf8` and then `parse::<u32>`: one digit at least, behind a plus sign that may be there.
-- Bytes that are not UTF-8 are no digits either.
unfoldable pub parse_u32 : List ℕ → Option ℕ
unfolding parse_digits
parse_u32 [] = none
parse_u32 (byte ∷ []) = parse_digits 0 (byte ∷ [])
parse_u32 (byte ∷ next ∷ bytes) =
    if byte == 43 then parse_digits 0 (next ∷ bytes) else parse_digits 0 (byte ∷ next ∷ bytes)

abbrev pub is_width : ℕ → Bool
is_width width = width == 8 || width == 16 || width == 32 || width == 64 || width == 128

-- The bytes of `size`.
abbrev pub size_bytes : List ℕ
size_bytes = 115 ∷ 105 ∷ 122 ∷ 101 ∷ []

unfoldable pub sized : Bool → List ℕ → Option IntegerType
unfolding parse_u32
sized signed rest =
    if same_bytes rest size_bytes
    then some (record { signed = signed; width = none })
    else (parse_u32 rest >>= λ width.
        if is_width width then some (record { signed = signed; width = some width }) else none)

-- `u` is 117 and `i` is 105.
unfoldable pub integer_type : List ℕ → Option IntegerType
unfolding sized
integer_type [] = none
integer_type (byte ∷ rest) =
    if byte == 117 then sized false rest else if byte == 105 then sized true rest else none

abbrev pub same_sign : Bool → Bool → Bool
same_sign true b = b
same_sign false b = not b

abbrev pub same_width : Option ℕ → Option ℕ → Bool
same_width none none = true
same_width (some a) (some b) = a == b
same_width _ _ = false

abbrev pub narrower : Option ℕ → Option ℕ → Bool
narrower (some from) (some to) = ltb from to
narrower _ _ = false

unfoldable pub widens : IntegerType → IntegerType → Bool
widens found expected =
    if not (same_sign found.signed expected.signed)
    then false
    else narrower found.width expected.width

-- `==` on integer types.
abbrev pub same_type : IntegerType → IntegerType → Bool
same_type a b = same_sign a.signed b.signed && same_width a.width b.width

-- The bytes of `::from(`, `)`, `::try_from(` and `).unwrap()`.
abbrev pub from_bytes : List ℕ
from_bytes = 58 ∷ 58 ∷ 102 ∷ 114 ∷ 111 ∷ 109 ∷ 40 ∷ []

abbrev pub close_bytes : List ℕ
close_bytes = 41 ∷ []

abbrev pub try_from_bytes : List ℕ
try_from_bytes = 58 ∷ 58 ∷ 116 ∷ 114 ∷ 121 ∷ 95 ∷ 102 ∷ 114 ∷ 111 ∷ 109 ∷ 40 ∷ []

abbrev pub unwrap_bytes : List ℕ
unwrap_bytes = 41 ∷ 46 ∷ 117 ∷ 110 ∷ 119 ∷ 114 ∷ 97 ∷ 112 ∷ 40 ∷ 41 ∷ []

-- The repair that puts a conversion to the expected type around the span.
abbrev pub wrap : Diagnostic → List ℕ → List ℕ → Repair
wrap diagnostic call suffix = record {
  span_start = diagnostic.span_start;
  span_end = diagnostic.span_end;
  prefix = diagnostic.expected ++ call;
  suffix = suffix;
}

unfoldable pub conversion : Diagnostic → IntegerType → IntegerType → Option Repair
unfolding widens
conversion diagnostic expected found =
    if same_type expected found
    then none
    else if widens found expected
    then some (wrap diagnostic from_bytes close_bytes)
    else some (wrap diagnostic try_from_bytes unwrap_bytes)

unfoldable pub repair_within : DiagnosticCode → Diagnostic → Option Repair
unfolding integer_type conversion
repair_within DiagnosticCode.unhandled diagnostic = none
repair_within DiagnosticCode.mismatched_types diagnostic =
    if ltb diagnostic.span_end diagnostic.span_start
    then none
    else (integer_type diagnostic.expected >>= λ expected.
        integer_type diagnostic.found >>= λ found. conversion diagnostic expected found)

unfoldable pub repair_for : Diagnostic → Option Repair
unfolding repair_within
repair_for diagnostic = repair_within diagnostic.code diagnostic

unfoldable pub plan_repairs : List Diagnostic → List Repair
unfolding repair_for
plan_repairs [] = []
plan_repairs (diagnostic ∷ diagnostics) =
    let rest = plan_repairs diagnostics in
    elim (repair_for diagnostic) [ none ↦ rest | some repair ↦ repair ∷ rest ]

-- `(span_start, span_end)` is at most the other's.
abbrev pub key_le : Repair → Repair → Bool
key_le a b =
    ltb a.span_start b.span_start || (a.span_start == b.span_start && leb a.span_end b.span_end)

-- The index of a repair, and the repair.
abbrev pub Indexed : Type 0
Indexed = ℕ × Repair

-- `sort_by_key` is stable: a repair goes before those behind it with the same key.
unfoldable pub insert : Indexed → List Indexed → List Indexed
insert x [] = x ∷ []
insert x (y ∷ ys) = let rest = insert x ys in if key_le x.1 y.1 then x ∷ y ∷ ys else y ∷ rest

-- The repairs from an index on, in order.
unfoldable pub order_from : ℕ → List Repair → List Indexed
unfolding insert
order_from index [] = []
order_from index (repair ∷ repairs) = insert (index, repair) (order_from (index + 1) repairs)

unfoldable pub check_spans : ℕ → List Repair → Option RepairError
check_spans size [] = none
check_spans size (repair ∷ repairs) =
    let rest = check_spans size repairs in
    if ltb repair.span_end repair.span_start || ltb size repair.span_end
    then some (span_out_of_range repair.span_start repair.span_end)
    else rest

-- The loop over `windows(2)`, behind an earlier repair.
unfoldable pub check_windows : Indexed → List Indexed → Option RepairError
check_windows earlier [] = none
check_windows earlier (later ∷ order) =
    let rest = check_windows later order in
    if ltb later.1.span_start earlier.1.span_end
    then some (overlapping_repairs earlier.0 later.0)
    else rest

unfoldable pub check_overlaps : List Indexed → Option RepairError
unfolding check_windows
check_overlaps [] = none
check_overlaps (first ∷ order) = check_windows first order

-- `source[start..end]`, which panics out of range.
unfoldable pub range : List ℕ → ℕ → ℕ → Option (List ℕ)
range source start end =
    if leb start end && leb end (length source) then some (slice source start end) else none

-- The last loop, from a cursor and the output so far.
unfoldable pub splice : List ℕ → List Indexed → ℕ → List ℕ → Option (List ℕ)
unfolding range
splice source [] cursor out = range source cursor (length source) >>= λ rest. some (out ++ rest)
splice source ((index, repair) ∷ order) cursor out =
    range source cursor repair.span_start >>= λ kept.
    range source repair.span_start repair.span_end >>= λ inside.
    splice source order repair.span_end
      ((((out ++ kept) ++ repair.prefix) ++ inside) ++ repair.suffix)

pub data Applied : Type 0 where
  ok : List ℕ → Applied
  err : RepairError → Applied
  panicked : Applied

abbrev pub outcome : Option RepairError → Option RepairError → Option (List ℕ) → Applied
outcome (some error) overlap result = err error
outcome none (some error) result = err error
outcome none none (some out) = ok out
outcome none none none = panicked

unfoldable pub apply_repairs : List ℕ → List Repair → Applied
unfolding order_from check_spans check_overlaps splice
apply_repairs source repairs =
    let order = order_from 0 repairs in
    outcome (check_spans (length source) repairs) (check_overlaps order) (splice source order 0 [])
