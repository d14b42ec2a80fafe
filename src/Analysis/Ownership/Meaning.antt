-- ===== src/Analysis/Ownership/Meaning.antt =====
-- What the decisions of crates/zag-analysis/src/ownership.rs say of the tables.
pub mod Facts
pub mod Lookups
pub mod Owned
pub mod Classes
pub mod Ranges
use zag.Prelude.{◌≡◌, ◌≢◌, ◌↔◌, ◌⊎◌, Bool, true, false, arith}
use zag.Analysis.Provenance.{AllocatorClass}
use zag.Analysis.Ownership.{
  OwnershipClass, Confidence, owned, grown, arena, static, borrowed, unknown, value, high, medium,
  low, FreeFacts, AssignmentFacts, decide,
}

-- Every assignment is an allocation, and there is one.
abbrev pub IsAllocationOnly : AssignmentFacts → Type 0
IsAllocationOnly a =
    (a.has_allocation ≡ true)
    × (a.has_parameter ≡ false)
    × (a.has_literal ≡ false)
    × (a.has_unknown ≡ false)

-- A field is decided to be owned or grown exactly when something frees it and it is only ever
-- allocated, by the global allocator; it is grown when something resizes it.
pub decide_owned :
    (free : FreeFacts) (a : AssignmentFacts) (resized : Bool)
    → (((decide free a resized).0 ≡ owned) ↔ (
        (free.freed ≡ true)
        × IsAllocationOnly a
        × (a.allocator ≡ AllocatorClass.global)
        × (resized ≡ false)))
      × (((decide free a resized).0 ≡ grown) ↔ (
          (free.freed ≡ true)
          × IsAllocationOnly a
          × (a.allocator ≡ AllocatorClass.global)
          × (resized ≡ true)))
unfolding decide
decide_owned free a resized = ground arith

-- A field is decided to be an arena's exactly when the classes of its allocations join to an arena
-- and nothing resizes it; static, or borrowed, exactly when nothing frees it and it is only ever
-- assigned from literals, or from parameters. No field of the decision is a plain value.
pub decide_others :
    (free : FreeFacts) (a : AssignmentFacts) (resized : Bool)
    → (((decide free a resized).0 ≡ arena)
        ↔ ((a.has_allocation ≡ true) × (a.allocator ≡ AllocatorClass.arena) × (resized ≡ false)))
      × (((decide free a resized).0 ≡ static) ↔ (
          (free.freed ≡ false)
          × (a.has_allocation ≡ false)
          × (a.has_parameter ≡ false)
          × (a.has_literal ≡ true)
          × (a.has_unknown ≡ false)))
      × (((decide free a resized).0 ≡ borrowed) ↔ (
          (free.freed ≡ false)
          × (a.has_allocation ≡ false)
          × (a.has_parameter ≡ true)
          × (a.has_literal ≡ false)
          × (a.has_unknown ≡ false)))
      × ((decide free a resized).0 ≢ value)
unfolding decide
decide_others free a resized = (ground arith, ground arith, ground arith, λ h. ground arith)

-- Confidence is high exactly for an arena's field that is only allocated and never freed, for an
-- owned or grown field that is freed in its struct's closure, and for a static field.
pub decide_high :
    (free : FreeFacts) (a : AssignmentFacts) (resized : Bool)
    → ((decide free a resized).1 ≡ high) ↔ (
        ((decide free a resized).0 ≡ arena) × IsAllocationOnly a × (free.freed ≡ false)
        ⊎ (((decide free a resized).0 ≡ owned) ⊎ ((decide free a resized).0 ≡ grown))
          × (free.freed_in_deinit_closure ≡ true)
        ⊎ ((decide free a resized).0 ≡ static))
unfolding decide
decide_high free a resized = ground arith
