-- ===== src/Facts/Validate/Partition.antt =====
-- In consistent tables the ranges of crates/zag-facts/src/tables.rs split up the rows: every field is
-- in the range of one struct, and every parameter in the range of one function.
use zag.Prelude.{
  ℕ, zero, suc, ◌+◌, ◌<◌, ◌≤◌, ◌≡◌, ◌↔◌, refl, sym, ap, ◌∙◌, some, List, [], ◌∷◌, arith, length,
  get_elem?, lt-length_of_get_elem?, Follow, Follow-le, u32_mod, saturating_add, inl, inr,
  Option-cases, dec_lt,
}
use mathlib.Core.Option.{some-injective}
use mathlib.Core.Path.{subst}
use zag.Facts.Handles.{StructId, FunctionId}
use zag.Facts.Tables.{Tables}
use zag.Facts.Access.{field_count, parameter_count, struct_count, function_count}
use zag.Facts.Ranges.{
  Holds, row_range, struct_fields, function_parameters, fields_of, parameters_of,
}
use zag.Facts.Ranges.Laws.{fields_of-Holds, parameters_of-Holds}
use zag.Facts.Validate.Consistent.{IsConsistent}

-- The bounds of one of the ranges.
pub Follow-get :
    (from : ℕ) (starts counts : List ℕ) (end i start count : ℕ)
    → Follow from starts counts end
    → get_elem? starts i ≡ some start
    → get_elem? counts i ≡ some count
    → (from ≤ start) × (start + count ≤ end)
Follow-get from [] counts end i start count h s c = cc
Follow-get from (x ∷ starts) [] end i start count h s c = absurd h
Follow-get from (x ∷ starts) (y ∷ counts) end zero start count h s c =
    let same = some-injective x start s in
    let same' = some-injective y count c in
    (omega (arith, h.0, same), omega (arith, h.0, same, same', Follow-le _ _ _ _ h.1))
Follow-get from (x ∷ starts) (y ∷ counts) end (suc i) start count h s c =
    let rest = Follow-get (from + y) starts counts end i start count h.1 s c in
    (omega (arith, rest), omega (arith, rest))

-- The range at `i` has the row.
InRow : List ℕ → List ℕ → ℕ → ℕ → Type 0
InRow starts counts row i =
    (start : ℕ) × (count : ℕ) × (get_elem? starts i ≡ some start)
    × (get_elem? counts i ≡ some count)
    × (start ≤ row)
    × (row < start + count)

Follow-row :
    (from : ℕ) (starts counts : List ℕ) (end row : ℕ)
    → Follow from starts counts end
    → from ≤ row
    → row < end
    → (i : ℕ) × InRow starts counts row i
unfolding InRow
Follow-row from [] [] end row h low high = absurd (omega arith)
Follow-row from [] (y ∷ counts) end row h low high = absurd h
Follow-row from (x ∷ starts) [] end row h low high = absurd h
Follow-row from (x ∷ starts) (y ∷ counts) end row h low high = elim (dec_lt row (from + y)) [
  | yes inside ↦ (0, (x, y, refl, refl, omega (arith, h.0), omega (arith, h.0)))
  | no beyond ↦
      let (i, found) = Follow-row (from + y) starts counts end row h.1 (omega arith) high in
      (suc i, found)
]

-- No row is in two of the ranges.
Follow-unique :
    (from : ℕ) (starts counts : List ℕ) (end row i j : ℕ)
    → Follow from starts counts end
    → InRow starts counts row i
    → InRow starts counts row j
    → i ≡ j
unfolding InRow
Follow-unique from [] counts end row i j h p q = absurd (cc p.2)
Follow-unique from (x ∷ starts) [] end row i j h p q = absurd h
Follow-unique from (x ∷ starts) (y ∷ counts) end row zero zero h p q = refl
Follow-unique from (x ∷ starts) (y ∷ counts) end row zero (suc j) h p q =
    let later = Follow-get (from + y) starts counts end j q.0 q.1 h.1 q.2 q.3 in
    absurd (omega (arith, h.0, later, some-injective x p.0 p.2, some-injective y p.1 p.3, p.5, q.4))
Follow-unique from (x ∷ starts) (y ∷ counts) end row (suc i) zero h p q =
    let later = Follow-get (from + y) starts counts end i p.0 p.1 h.1 p.2 p.3 in
    absurd (omega (arith, h.0, later, some-injective x q.0 q.2, some-injective y q.1 q.3, q.5, p.4))
Follow-unique from (x ∷ starts) (y ∷ counts) end row (suc i) (suc j) h p q =
    ap suc (Follow-unique (from + y) starts counts end row i j h.1 p q)

-- The range that the two columns give, where they fit a `u32`.
row_range-InRow :
    (starts counts : List ℕ) (end row i : ℕ)
    → Follow 0 starts counts end
    → end < u32_mod
    → Holds (row_range starts counts i) row ↔ InRow starts counts row i
unfolding row_range InRow saturating_add
row_range-InRow starts counts end row i h small = elim (Option-cases (get_elem? starts i)) [
  | inl absent ↦
      let same : row_range starts counts i ≡ record { start = 0; end = 0 } =
        rw (absent, row_range) refl in
      (
        λ q. let q' = subst (λ r. Holds r row) same q in absurd (omega (arith, q'.1)),
        λ q. absurd (cc (sym absent ∙ q.2)),
      )
  | inr (start, es) ↦ elim (Option-cases (get_elem? counts i)) [
    | inl absent ↦
        let same : row_range starts counts i ≡ record { start = 0; end = 0 } =
          rw (es, row_range) (rw (absent, row_range) refl) in
        (
          λ q. let q' = subst (λ r. Holds r row) same q in absurd (omega (arith, q'.1)),
          λ q. absurd (cc (sym absent ∙ q.3)),
        )
    | inr (count, ec) ↦
        let bounds = Follow-get 0 starts counts end i start count h es ec in
        let same : row_range starts counts i ≡ record { start = start; end = start + count } =
          rw (es, row_range) (rw (ec, row_range) (ground (arith, bounds, small))) in
        (
          λ q. let q' = subst (λ r. Holds r row) same q in (start, count, es, ec, q'.0, q'.1),
          λ q.
              let a = some-injective start q.0 (sym es ∙ q.2) in
              let b = some-injective count q.1 (sym ec ∙ q.3) in
              subst (λ r. Holds r row) (sym same) (omega (arith, a, b, q.4, q.5)),
        )
  ]
]

row_range_unique :
    (starts counts : List ℕ) (end row : ℕ)
    → Follow 0 starts counts end
    → end < u32_mod
    → row < end
    → (id : ℕ) × (id < length starts)
      × ((other : ℕ) → Holds (row_range starts counts other) row ↔ (other ≡ id))
unfolding InRow
row_range_unique starts counts end row h small below =
    let (id, found) = Follow-row 0 starts counts end row h (omega arith) below in
    (
      id,
      lt-length_of_get_elem? starts id found.2,
      λ other. (
        λ q.
            let inside = (row_range-InRow starts counts end row other h small).0 q in
            Follow-unique 0 starts counts end row other id h inside found,
        λ same.
            (row_range-InRow starts counts end row other h small).1
              (subst (InRow starts counts row) (sym same) found),
      ),
    )

-- In consistent tables a field is in the range of one struct, and in the range of no other.
pub fields_of-partition :
    (tables : Tables) (field : ℕ)
    → IsConsistent tables
    → field < field_count tables.fields
    → (id : StructId) × (id < struct_count tables.structs)
      × ((other : StructId) → Holds (fields_of tables other) field ↔ (other ≡ id))
unfolding struct_fields
fields_of-partition tables field consistent below =
    let (id, inside, same) =
      row_range_unique tables.structs.field_start tables.structs.field_count _ field
        consistent.fields consistent.fields_fit below in
    (
      id,
      omega (arith, inside, consistent.columns.structs),
      λ other. (
        λ h. (same other).0 ((fields_of-Holds tables other field).0 h).0,
        λ e. (fields_of-Holds tables other field).1 ((same other).1 e, below),
      ),
    )

-- In consistent tables a parameter is in the range of one function, and in the range of no other.
pub parameters_of-partition :
    (tables : Tables) (parameter : ℕ)
    → IsConsistent tables
    → parameter < parameter_count tables.parameters
    → (id : FunctionId) × (id < function_count tables.functions)
      × ((other : FunctionId) → Holds (parameters_of tables other) parameter ↔ (other ≡ id))
unfolding function_parameters
parameters_of-partition tables parameter consistent below =
    let (id, inside, same) =
      row_range_unique tables.functions.parameter_start tables.functions.parameter_count _ parameter
        consistent.parameters consistent.parameters_fit below in
    (
      id,
      omega (arith, inside, consistent.columns.functions),
      λ other. (
        λ h. (same other).0 ((parameters_of-Holds tables other parameter).0 h).0,
        λ e. (parameters_of-Holds tables other parameter).1 ((same other).1 e, below),
      ),
    )
