-- ===== src/Analysis/Provenance/Lattice.antt =====
-- The four classes of crates/zag-analysis/src/provenance.rs as a lattice under `join`.
use zag.Prelude.{
  ℕ, zero, suc, ◌+◌, ◌*◌, ◌≤◌, ◌<◌, ◌≡◌, ◌↔◌, ◌≢◌, List, [], ◌∷◌, arith, length, get_or, set,
}
use zag.Analysis.Provenance.{AllocatorClass, unset, global, arena, conflicting, join}

-- The order of the lattice: joining `a` into `b` changes nothing.
abbrev pub Below : AllocatorClass → AllocatorClass → Type 0
Below a b = join a b ≡ b

pub join_comm : (a b : AllocatorClass) → join a b ≡ join b a
unfolding join
join_comm a b = ground arith

pub join_assoc : (a b c : AllocatorClass) → join (join a b) c ≡ join a (join b c)
unfolding join
join_assoc a b c = ground arith

pub join_idem : (a : AllocatorClass) → join a a ≡ a
unfolding join
join_idem a = ground arith

-- `join` is the least upper bound of its arguments.
pub join_least :
    (a b c : AllocatorClass)
    → Below a (join a b) × Below b (join a b) × (Below a c → Below b c → Below (join a b) c)
unfolding join
join_least unset b c = (ground arith, ground arith, λ p q. q)
join_least global b c = (ground arith, ground arith, λ p q. ground arith)
join_least arena b c = (ground arith, ground arith, λ p q. ground arith)
join_least conflicting b c = (ground arith, ground arith, λ p q. ground arith)

-- The order that the classes are meant to have, with no use of `join`: what nothing is known of is
-- under every class, a conflict is over every class, and the other two are not under one another.
abbrev pub Under : AllocatorClass → AllocatorClass → Type 0
Under unset b = Unit
Under global global = Unit
Under arena arena = Unit
Under a conflicting = Unit
Under a b = ⊥

-- `join` gives the least class that both of its arguments are under, and joining a class into another
-- changes nothing exactly when it is under the other: nothing known is under every class, a conflict
-- is over every class, and the global allocator and an arena are not under one another.
pub join-Under_iff :
    (a b c : AllocatorClass)
    → (Under (join a b) c ↔ (Under a c × Under b c)) × ((join a b ≡ b) ↔ Under a b)
unfolding join
join-Under_iff a b c = ground arith

pub Below-trans : (a b c : AllocatorClass) → Below a b → Below b c → Below a c
unfolding join
Below-trans a b c p q = ground arith

-- How far up a class stands; no chain is longer than three.
pub rank : AllocatorClass → ℕ
rank unset = 0
rank global = 1
rank arena = 1
rank conflicting = 2

pub rank-le : (a : AllocatorClass) → rank a ≤ 2
unfolding rank
rank-le a = ground arith

-- A merge that changes a class raises it.
pub rank-join :
    (held contributed : AllocatorClass)
    → join held contributed ≢ held
    → rank held < rank (join held contributed)
unfolding rank join
rank-join held contributed h = ground arith

pub total : List AllocatorClass → ℕ
total [] = 0
total (a ∷ as') = rank a + total as'

pub total-le : (classes : List AllocatorClass) → total classes ≤ 2 * length classes
unfolding total
total-le [] = omega arith
total-le (a ∷ classes) = omega (arith, rank-le a, total-le classes)

pub total-set :
    (classes : List AllocatorClass) (slot : ℕ) (a : AllocatorClass)
    → rank (get_or classes slot unset) < rank a
    → slot < length classes
    → total classes < total (set classes slot a)
unfolding total
total-set [] slot a h inside = absurd (omega arith)
total-set (b ∷ classes) zero a h inside = omega arith
total-set (b ∷ classes) (suc slot) a h inside =
    omega (arith, total-set classes slot a h (omega arith))
