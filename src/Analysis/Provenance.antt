-- ===== src/Analysis/Provenance.antt =====
-- crates/zag-analysis/src/provenance.rs: which allocator reaches each parameter, as a fixed point
-- over the call arguments. A loop over rows is a recursion on the rounds left.
pub mod Lattice
pub mod Converges
pub mod Fixed
pub mod Blame
pub mod Valid
pub mod Conflicts
use zag.Prelude.{
  ℕ, zero, suc, ◌+◌, ◌*◌, Bool, true, false, ◌||◌, ◌&&◌, not, Option, none, some, List, [], ◌∷◌,
  ◌++◌, ltb, leb, ◌==◌, if◌then◌else◌, length, get_elem?, get_or, set, replicate, as_u32,
}
use zag.Facts.Handles.{AllocatorSourceId, no_index}
use zag.Facts.Kinds.{AllocatorSourceKind}
use zag.Facts.Tables.{Tables}
use zag.Facts.Access.{parameter_count}

pub data AllocatorClass : Type 0 where
  unset global arena conflicting : AllocatorClass

-- `==` on classes.
abbrev pub same_class : AllocatorClass → AllocatorClass → Bool
same_class unset unset = true
same_class global global = true
same_class arena arena = true
same_class conflicting conflicting = true
same_class _ _ = false

pub record Disagreement : Type 0 where
  pub parameter : ℕ
  pub first : ℕ
  pub second : ℕ
  pub first_class : AllocatorClass
  pub second_class : AllocatorClass

pub record Provenance : Type 0 where
  pub parameter_class : List AllocatorClass
  pub disagreements : List Disagreement
  pub converged : Bool

unfoldable pub join : AllocatorClass → AllocatorClass → AllocatorClass
join unset other = other
join global unset = global
join arena unset = arena
join conflicting unset = conflicting
join conflicting _ = conflicting
join _ conflicting = conflicting
join global global = global
join arena arena = arena
join _ _ = conflicting

-- The row of `parameters` that a function's parameter index names.
unfoldable pub global_parameter_index : Tables → ℕ → ℕ → Option ℕ
global_parameter_index tables function parameter_index =
    if function == no_index || parameter_index == no_index
    then none
    else elim (get_elem? tables.functions.parameter_start function) [
      | none ↦ none
      | some start ↦ elim (get_elem? tables.functions.parameter_count function) [
        | none ↦ none
        | some count ↦
            if leb count parameter_index
            then none
            else (let slot = start + parameter_index in
                if ltb slot (parameter_count tables.parameters) then some slot else none)
      ]
    ]

-- The row of `parameters` that an allocator source names, for a source of kind `parameter`.
unfoldable pub source_slot : Tables → AllocatorSourceId → Option ℕ
unfolding global_parameter_index
source_slot tables source = elim (get_elem? tables.allocator_sources.function source) [
  | none ↦ none
  | some function ↦ elim (get_elem? tables.allocator_sources.parameter_index source) [
    | none ↦ none
    | some parameter_index ↦ global_parameter_index tables function parameter_index
  ]
]

-- The class of a source, on the classes of all the parameters: a slot of `global_parameter_index` is
-- below the parameter count, so the default of `get_or` is not read. `classify_source` below, which
-- takes classes of any length, tests the index first.
unfoldable pub class_of_source : Tables → List AllocatorClass → AllocatorSourceId → AllocatorClass
class_of_source tables parameter_class source =
    elim (get_elem? tables.allocator_sources.kind source) [
      | none ↦ conflicting
      | some AllocatorSourceKind.global ↦ global
      | some AllocatorSourceKind.arena ↦ arena
      | some AllocatorSourceKind.unknown ↦ conflicting
      | some AllocatorSourceKind.parameter ↦ elim (source_slot tables source) [
        | none ↦ conflicting
        | some slot ↦ get_or parameter_class slot unset
      ]
    ]

-- What the loops of `resolve_allocator_provenance` change.
pub record State : Type 0 where
  pub parameter_class : List AllocatorClass
  pub witness : List ℕ
  pub disagreements : List Disagreement
  pub changed : Bool

-- The slot that a call argument fills and the allocator source that it passes, where all of its
-- columns and its call are there and its parameter index names a parameter.
unfoldable pub argument_flow : Tables → ℕ → Option (ℕ × AllocatorSourceId)
unfolding global_parameter_index
argument_flow tables row = elim (get_elem? tables.call_arguments.call row) [
  | none ↦ none
  | some call ↦ elim (get_elem? tables.calls.callee call) [
    | none ↦ none
    | some callee ↦ elim (get_elem? tables.call_arguments.parameter_index row) [
      | none ↦ none
      | some parameter_index ↦ elim (get_elem? tables.call_arguments.source row) [
        | none ↦ none
        | some source ↦ elim (global_parameter_index tables callee parameter_index) [
          | none ↦ none
          | some slot ↦ some (slot, source)
        ]
      ]
    ]
  ]
]

-- The test under which a merge is recorded as a disagreement.
unfoldable pub is_disagreement : AllocatorClass → AllocatorClass → Bool
unfolding join
is_disagreement held contributed =
    same_class (join held contributed) conflicting
    && not (same_class held unset)
    && not (same_class contributed conflicting)

-- The rest of the loop's body, once the merge is known to change the slot's class.
unfoldable pub raise_class : ℕ → ℕ → AllocatorClass → AllocatorClass → State → State
raise_class row slot held contributed s =
    let merged = join held contributed in
    record {
      parameter_class = set s.parameter_class slot merged;
      witness =
          if same_class merged conflicting then s.witness else set s.witness slot (as_u32 row);
      disagreements =
          if is_disagreement held contributed
          then (s.disagreements
              ++ record {
                parameter = as_u32 slot;
                first = get_or s.witness slot no_index;
                second = as_u32 row;
                first_class = held;
                second_class = contributed;
              }
                ∷ [])
          else s.disagreements;
      changed = true;
    }

-- The merge of one contribution into a slot, from the class that the slot holds.
unfoldable pub merge_class : ℕ → ℕ → AllocatorClass → AllocatorClass → State → State
unfolding join raise_class
merge_class row slot held contributed s =
    if same_class (join held contributed) held then s else raise_class row slot held contributed s

-- One call argument.
unfoldable pub visit_argument : Tables → ℕ → State → State
unfolding argument_flow merge_class class_of_source
visit_argument tables row s = elim (argument_flow tables row) [
  | none ↦ s
  | some (slot, source) ↦
      merge_class row slot (get_or s.parameter_class slot unset)
        (class_of_source tables s.parameter_class source) s
]

-- The inner loop, from a row on, over the rows left.
unfoldable pub visit_from : Tables → ℕ → ℕ → State → State
unfolding visit_argument
visit_from tables zero row s = s
visit_from tables (suc rows) row s = visit_from tables rows (row + 1) (visit_argument tables row s)

-- One round of the outer loop: every call argument in order.
unfoldable pub round : Tables → State → State
unfolding visit_from
round tables s =
    visit_from tables (length tables.call_arguments.call) 0 (record s { changed = false })

-- The outer loop on the rounds left: the state at its end, and whether it broke off converged.
unfoldable pub rounds : Tables → ℕ → State → State × Bool
unfolding round
rounds tables zero s = (s, false)
rounds tables (suc left) s =
    let s' = round tables s in
    let rest = rounds tables left s' in if s'.changed then rest else (s', true)

unfoldable pub initial : Tables → State
initial tables = record {
  parameter_class = replicate (parameter_count tables.parameters) unset;
  witness = replicate (parameter_count tables.parameters) no_index;
  disagreements = [];
  changed = false;
}

abbrev pub round_limit : Tables → ℕ
round_limit tables = parameter_count tables.parameters * 3 + 4

unfoldable pub resolve_allocator_provenance : Tables → Provenance
unfolding rounds initial
resolve_allocator_provenance tables =
    let (s, converged) = rounds tables (round_limit tables) (initial tables) in
    record {
      parameter_class = s.parameter_class;
      disagreements = s.disagreements;
      converged = converged;
    }

-- Whether the class that a source's slot indexes is there, for a source of kind `parameter` with a
-- slot; no other source indexes the classes.
unfoldable pub has_class : Tables → List AllocatorClass → AllocatorSourceId → Bool
unfolding source_slot
has_class tables parameter_class source = elim (get_elem? tables.allocator_sources.kind source) [
  | some AllocatorSourceKind.parameter ↦ elim (source_slot tables source) [
    | none ↦ true
    | some slot ↦ ltb slot (length parameter_class)
  ]
  | _ ↦ true
]

-- `none` is the panic of an index past the classes, which may be any here.
unfoldable pub classify_source : Tables → Provenance → AllocatorSourceId → Option AllocatorClass
unfolding has_class class_of_source
classify_source tables provenance source =
    if has_class tables provenance.parameter_class source
    then some (class_of_source tables provenance.parameter_class source)
    else none
