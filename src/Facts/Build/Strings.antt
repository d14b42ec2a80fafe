-- ===== src/Facts/Build/Strings.antt =====
-- crates/zag-facts/src/build.rs: strings are appended, or found among those that are there.
use zag.Prelude.{ℕ, zero, suc, ◌+◌, List, [], ◌∷◌, ◌++◌, if◌then◌else◌, length, as_u32}
use zag.Facts.Handles.{StringId}
use zag.Facts.Tables.{Strings}
use zag.Facts.Access.{string_count, string_bytes}
use zag.Facts.Wire.Decode.{same_bytes}
use zag.Facts.Build.{push, last_id}

-- The offsets, with a first one where there is none.
abbrev pub begun : List ℕ → List ℕ
begun [] = 0 ∷ []
begun (offset ∷ offsets) = offset ∷ offsets

unfoldable pub push_string : Strings → List ℕ → Strings × StringId
push_string strings text =
    let bytes = strings.bytes ++ text in
    let strings' : Strings = record {
      bytes = bytes;
      offsets = push (begun strings.offsets) (as_u32 (length bytes));
    } in
    (strings', last_id (string_count strings'))

-- The loop of `intern` from an index on, over the strings left.
unfoldable pub intern_from : ℕ → ℕ → Strings → List ℕ → Strings × StringId
unfolding push_string
intern_from zero index strings text = push_string strings text
intern_from (suc left) index strings text =
    let rest = intern_from left (index + 1) strings text in
    if same_bytes (string_bytes strings (as_u32 index)) text then (strings, as_u32 index) else rest

unfoldable pub intern : Strings → List ℕ → Strings × StringId
unfolding intern_from
intern strings text = intern_from (string_count strings) 0 strings text
