-- ===== src/Analysis/Provenance/Valid.antt =====
-- What the parameter indices that crates/zag-facts/src/validate.rs checks mean to
-- crates/zag-analysis/src/provenance.rs: no allocator that flows through a parameter is lost.
use zag.Prelude.{
  ℕ, zero, suc, ◌+◌, ◌<◌, ◌≤◌, ◌≡◌, refl, some, List, [], ◌∷◌, Option, arith, length, get_elem?,
  get_elem?-of_lt, lt-length_of_get_elem?, All,
}
use mathlib.Core.Path.{subst}
use mathlib.Core.Option.{some-injective}
use zag.Facts.Handles.{AllocatorSourceId, no_index}
use zag.Facts.Kinds.{AllocatorSourceKind}
use zag.Facts.Tables.{Tables}
use zag.Facts.Access.{parameter_count, function_count, call_count}
use zag.Facts.Validate.Rows.{NamesParameter}
use zag.Facts.Validate.Partition.{Follow-get}
use zag.Facts.Validate.Consistent.{IsConsistent}
use zag.Analysis.Provenance.{global_parameter_index, source_slot, argument_flow}

All-get : (P : ℕ → Type 0) (xs : List ℕ) (i x : ℕ) → All P xs → get_elem? xs i ≡ some x → P x
All-get P [] i x h e = cc
All-get P (y ∷ xs) zero x h e = subst P (some-injective y x e) h.0
All-get P (y ∷ xs) (suc i) x h e = All-get P xs i x h.1 e

-- The slot of a parameter of a function whose range is in the table.
global_parameter_index-slot :
    (tables : Tables) (function index start count : ℕ)
    → get_elem? tables.functions.parameter_start function ≡ some start
    → get_elem? tables.functions.parameter_count function ≡ some count
    → function < no_index
    → index < no_index
    → index < count
    → start + count ≤ parameter_count tables.parameters
    → global_parameter_index tables function index ≡ some (start + index)
unfolding global_parameter_index
global_parameter_index-slot tables function index start count e e' f i below inside =
    rw (e, global_parameter_index) (rw (e', global_parameter_index) (ground arith))

HasSlot : Tables → Option ℕ → Type 0
HasSlot tables found = (slot : ℕ) × (found ≡ some slot) × (slot < parameter_count tables.parameters)

-- A parameter that is named has a slot.
global_parameter_index-total :
    (tables : Tables) (function index : ℕ)
    → IsConsistent tables
    → function_count tables.functions ≤ no_index
    → NamesParameter tables function index
    → HasSlot tables (global_parameter_index tables function index)
unfolding HasSlot
global_parameter_index-total tables function index consistent few (count, e, below) =
    let starts = tables.functions.parameter_start in
    let counts = tables.functions.parameter_count in
    let inside = lt-length_of_get_elem? counts function e in
    let columns = consistent.columns.functions in
    let (start, e') = get_elem?-of_lt starts function (omega (arith, inside, columns)) in
    let bounds = Follow-get 0 starts counts _ function start count consistent.parameters e' e in
    (
      start + index,
      global_parameter_index-slot tables function index start count e' e
          (omega (arith, inside, few, columns))
          (omega (arith, bounds, below, consistent.parameters_fit)) below bounds.1,
      omega (arith, bounds, below),
    )

-- In consistent tables every allocator source that is a parameter and whose function is known has a
-- slot, so the provenance of the slot, and not `conflicting`, is what its class is.
pub source_slot-total :
    (tables : Tables) (source : AllocatorSourceId)
    → IsConsistent tables
    → function_count tables.functions ≤ no_index
    → get_elem? tables.allocator_sources.kind source ≡ some AllocatorSourceKind.parameter
    → (slot : ℕ) × (source_slot tables source ≡ some slot)
      × (slot < parameter_count tables.parameters)
unfolding source_slot HasSlot
source_slot-total tables source consistent few e =
    let inside = lt-length_of_get_elem? _ source e in
    let columns = consistent.columns.allocator_sources in
    let (f, ef) =
      get_elem?-of_lt tables.allocator_sources.function source (omega (arith, inside, columns)) in
    let (i, ei) =
      get_elem?-of_lt tables.allocator_sources.parameter_index source
        (omega (arith, inside, columns)) in
    let (slot, found, below) =
      global_parameter_index-total tables f i consistent few
        (consistent.sources source AllocatorSourceKind.parameter e refl f i ef ei) in
    (slot, rw (ef, source_slot) (rw (ei, source_slot) found), below)

-- In consistent tables every call argument fills a slot.
pub argument_flow-total :
    (tables : Tables) (row : ℕ)
    → IsConsistent tables
    → function_count tables.functions ≤ no_index
    → row < length tables.call_arguments.call
    → (slot : ℕ) × (source : AllocatorSourceId) × (argument_flow tables row ≡ some (slot, source))
      × (slot < parameter_count tables.parameters)
      × (source < length tables.allocator_sources.kind)
unfolding argument_flow HasSlot
argument_flow-total tables row consistent few h =
    let columns = consistent.columns.call_arguments in
    let (call, ec) = get_elem?-of_lt tables.call_arguments.call row h in
    let named =
      All-get (λ c. c < call_count tables.calls) tables.call_arguments.call row call
        consistent.handles.call_arguments_call ec in
    let (callee, ee) =
      get_elem?-of_lt tables.calls.callee call (omega (arith, named, consistent.columns.calls)) in
    let (i, ei) =
      get_elem?-of_lt tables.call_arguments.parameter_index row (omega (arith, h, columns)) in
    let (source, es) =
      get_elem?-of_lt tables.call_arguments.source row (omega (arith, h, columns)) in
    let (slot, found, below) =
      global_parameter_index-total tables callee i consistent few
        (consistent.arguments row call ec callee i ee ei) in
    (
      slot,
      source,
      rw (ec, argument_flow)
          (rw (ee, argument_flow)
            (rw (ei, argument_flow) (rw (es, argument_flow) (rw (found, argument_flow) refl)))),
      below,
      All-get (λ s. s < length tables.allocator_sources.kind) tables.call_arguments.source row
          source consistent.handles.call_arguments_source es,
    )
