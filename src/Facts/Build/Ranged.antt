-- ===== src/Facts/Build/Ranged.antt =====
-- What the builders of crates/zag-facts/src/build.rs that add an owner, or count a row for the last
-- owner, do to the ranges of rows.
use zag.Prelude.{
  ℕ, ◌+◌, ◌<◌, ◌≡◌, sym, ap, List, [], ◌∷◌, some, inl, inr, arith, length, length-append,
  Option-cases, Follow, as_u32, as_u32-eq_of_lt, u32_mod,
}
use mathlib.Core.Option.{some-injective}
use mathlib.Core.Path.{subst}
use zag.Facts.Tables.{Tables}
use zag.Facts.Access.{module_count, struct_count, field_count, function_count, parameter_count}
use zag.Facts.Validate.Consistent.{HasEqualColumns}
use zag.Facts.Build.{push}
use zag.Facts.Build.Rows.{count_one, push_struct, push_field, push_function, push_parameter}
use zag.Facts.Build.Declare.{count_up}
use zag.Facts.Build.Ranges.{
  Follow-push, Follow-count_one, Follow-count_up, Grouped, Grouped-push, Grouped-more,
}

-- Ranges that take in the rows of a table, of which a `u32` counts the number.
abbrev pub Whole : List ℕ → List ℕ → ℕ → Type 0
Whole starts counts end = Follow 0 starts counts end × (end < u32_mod)

abbrev pub IsRanged : Tables → Type 0
IsRanged tables =
    Whole tables.structs.field_start tables.structs.field_count (field_count tables.fields)
    × Grouped tables.fields.owner (struct_count tables.structs)
    × Whole tables.functions.parameter_start tables.functions.parameter_count
        (parameter_count tables.parameters)
    × Whole tables.modules.unresolved_start tables.modules.unresolved_count
        (length tables.unresolved_imports.owner)
    × (0 < module_count tables.modules)

-- A new owner has a range without rows at the end.
pub Whole-push :
    (starts counts : List ℕ) (end : ℕ)
    → Whole starts counts end
    → Whole (push starts (as_u32 end)) (push counts 0) end
Whole-push starts counts end h = (
  subst (λ n. Follow 0 (push starts n) (push counts 0) end) (sym (as_u32-eq_of_lt end h.1))
      (Follow-push 0 starts counts end h.0),
  h.1,
)

-- A row more, of the last owner, where a row without an owner is not counted.
pub Whole-count_up :
    (starts counts rows : List ℕ) (owner row : ℕ)
    → Whole starts counts (length rows)
    → length rows + 1 < u32_mod
    → owner + 1 ≡ length starts
    → Whole starts (count_up counts owner) (length (push rows row))
Whole-count_up starts counts rows owner row h small last =
    let size : length rows + 1 ≡ length (push rows row) =
      omega (arith, length-append rows (row ∷ [])) in
    subst (Whole starts (count_up counts owner)) size
      (Follow-count_up starts counts (length rows) owner h.0 small last, small)

-- A row more, of the last owner.
pub Whole-count_one :
    (starts counts after rows : List ℕ) (owner row : ℕ)
    → Whole starts counts (length rows)
    → length rows + 1 < u32_mod
    → owner + 1 ≡ length starts
    → count_one counts owner ≡ some after
    → Whole starts after (length (push rows row))
Whole-count_one starts counts after rows owner row h small last e =
    let size : length rows + 1 ≡ length (push rows row) =
      omega (arith, length-append rows (row ∷ [])) in
    subst (Whole starts after) size
      (Follow-count_one starts counts after (length rows) owner h.0 small last e, small)

pub push_struct-IsRanged :
    (tables : Tables) (name type_id size alignment flags : ℕ)
    → IsRanged tables
    → IsRanged (push_struct tables name type_id size alignment flags).0
unfolding push_struct
push_struct-IsRanged tables name type_id size alignment flags h = (
  Whole-push _ _ (field_count tables.fields) h.0,
  Grouped-more tables.fields.owner (struct_count tables.structs) _
      (omega (arith, length-append tables.structs.name (name ∷ []))) h.1,
  h.2,
  h.3,
  h.4,
)

pub push_function-IsRanged :
    (tables : Tables) (name owner : ℕ)
    → IsRanged tables
    → IsRanged (push_function tables name owner).0
unfolding push_function
push_function-IsRanged tables name owner h =
    (h.0, h.1, Whole-push _ _ (parameter_count tables.parameters) h.2, h.3, h.4)

pub push_field-IsRanged :
    (tables after : Tables) (owner name field_type offset id : ℕ)
    → HasEqualColumns tables
    → IsRanged tables
    → owner + 1 ≡ struct_count tables.structs
    → field_count tables.fields + 1 < u32_mod
    → push_field tables owner name field_type offset ≡ some (after, id)
    → IsRanged after
unfolding push_field
push_field-IsRanged tables after owner name field_type offset id c h last small e =
    elim (Option-cases (count_one tables.structs.field_count owner)) [
      | inl absent ↦ absurd (cc (rw (absent, push_field) at e))
      | inr (counts, ec) ↦
          subst IsRanged (ap (λ r. r.0) (some-injective _ (after, id) (rw (ec, push_field) at e))) (
            Whole-count_one _ _ counts tables.fields.owner owner owner h.0 small
                (omega (arith, last, c.structs)) ec,
            Grouped-push tables.fields.owner owner _ last h.1,
            h.2,
            h.3,
            h.4,
          )
    ]

pub push_parameter-IsRanged :
    (tables after : Tables) (owner name parameter_type flags : ℕ)
    → HasEqualColumns tables
    → IsRanged tables
    → owner + 1 ≡ function_count tables.functions
    → parameter_count tables.parameters + 1 < u32_mod
    → push_parameter tables owner name parameter_type flags ≡ some after
    → IsRanged after
unfolding push_parameter
push_parameter-IsRanged tables after owner name parameter_type flags c h last small e =
    elim (Option-cases (count_one tables.functions.parameter_count owner)) [
      | inl absent ↦ absurd (cc (rw (absent, push_parameter) at e))
      | inr (counts, ec) ↦ subst IsRanged (some-injective _ after (rw (ec, push_parameter) at e)) (
        h.0,
        h.1,
        Whole-count_one _ _ counts tables.parameters.owner owner owner h.2 small
            (omega (arith, last, c.functions)) ec,
        h.3,
        h.4,
      )
    ]
