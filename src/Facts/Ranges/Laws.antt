-- ===== src/Facts/Ranges/Laws.antt =====
-- What the bounded ranges and the reference test of crates/zag-facts/src/tables.rs promise.
use zag.Prelude.{
  ℕ, zero, suc, ◌<◌, ◌≡◌, refl, Bool, ◌↔◌, true, Option, none, some, arith, get_elem?,
}
use mathlib.Core.Logic.{∥∥₁_elim}
use mathlib.Core.Bool.{So-prop}
use zag.Facts.Handles.{TypeId, StructId, FunctionId}
use zag.Facts.Kinds.{TypeKind}
use zag.Facts.Tables.{Types, Tables}
use zag.Facts.Access.{field_count, parameter_count}
use zag.Facts.Ranges.{
  Range, Holds, bounded, struct_fields, function_parameters, fields_of, parameters_of,
  reference_step, reference_within, is_reference_type, Refers, slice, pointer, optional,
}

bounded_lem :
    (range : Range) (limit row : ℕ)
    → Holds (bounded range limit) row ↔ (Holds range row × (row < limit))
unfolding bounded
bounded_lem range limit row = (λ h. ground arith, λ h. ground arith)

-- A row is in `fields_of` a struct exactly when the struct claims it and the table has it.
pub fields_of-Holds :
    (tables : Tables) (id : StructId) (row : ℕ)
    → Holds (fields_of tables id) row
      ↔ (Holds (struct_fields tables.structs id) row × (row < field_count tables.fields))
unfolding fields_of
fields_of-Holds tables id row = bounded_lem (struct_fields tables.structs id) _ row

-- A row is in `parameters_of` a function exactly when the function claims it and the table has it.
pub parameters_of-Holds :
    (tables : Tables) (id : FunctionId) (row : ℕ)
    → Holds (parameters_of tables id) row ↔ (
        Holds (function_parameters tables.functions id) row
        × (row < parameter_count tables.parameters))
unfolding parameters_of
parameters_of-Holds tables id row = bounded_lem (function_parameters tables.functions id) _ row

-- A round that answers true has the slice, the pointer or the optional that `Refers` asks for.
reference_step-Refers :
    (rounds : ℕ) (types : Types) (id : TypeId) (rest : TypeId → Bool)
    → ((element : TypeId)
        → rest element ≡ true
        → (wraps : ℕ) × (wraps < rounds) × Refers types element wraps)
    → (kind : Option TypeKind) (element : Option TypeId) → get_elem? types.kind id ≡ kind
    → get_elem? types.element id ≡ element
    → reference_step kind element rest ≡ true
    → (wraps : ℕ) × (wraps < suc rounds) × Refers types id wraps
unfolding reference_step
reference_step-Refers rounds types id rest ih none element k e h = cc
reference_step-Refers rounds types id rest ih (some TypeKind.slice) element k e h =
    (0, omega arith, slice k)
reference_step-Refers rounds types id rest ih (some TypeKind.pointer) element k e h =
    (0, omega arith, pointer k)
reference_step-Refers rounds types id rest ih (some TypeKind.optional) none k e h = cc
reference_step-Refers rounds types id rest ih (some TypeKind.optional) (some element) k e h =
    let (wraps, below, refers) = ih element h in
    (suc wraps, omega arith, optional element k e refers)
reference_step-Refers rounds types id rest ih (some _) element k e h = cc

reference_within-Refers :
    (rounds : ℕ) (types : Types) (id : TypeId)
    → reference_within rounds types id ≡ true
    → (wraps : ℕ) × (wraps < rounds) × Refers types id wraps
unfolding reference_within
reference_within-Refers zero types id h = cc
reference_within-Refers (suc rounds) types id h =
    reference_step-Refers rounds types id (reference_within rounds types)
      (reference_within-Refers rounds types) _ _ refl refl h

Refers-reference_within :
    (rounds : ℕ) (types : Types) {id : TypeId} {wraps : ℕ}
    → wraps < rounds
    → Refers types id wraps
    → reference_within rounds types id ≡ true
unfolding reference_within
Refers-reference_within zero types h r = absurd (omega arith)
Refers-reference_within (suc rounds) types h (slice e) = rw (e, reference_within)
Refers-reference_within (suc rounds) types h (pointer e) = rw (e, reference_within)
Refers-reference_within (suc rounds) types h (optional element e f r) =
    ground (arith, Refers-reference_within rounds types (omega arith) r)

-- `is_reference_type` says yes exactly to a slice or a pointer under fewer than eight optionals.
pub is_reference_type-Refers :
    (types : Types) (id : TypeId)
    → (is_reference_type types id ≡ true) ↔ ∥ ((wraps : ℕ) × (wraps < 8) × Refers types id wraps) ∥₁
unfolding is_reference_type
is_reference_type-Refers types id = (
  λ h. ∣ reference_within-Refers 8 types id h ∣₁,
  λ t.
      ∥∥₁_elim t (So-prop _)
        (λ (wraps, below, refers). Refers-reference_within 8 types below refers),
)
