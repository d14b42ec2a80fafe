-- ===== src/Analysis/Buckets/Starts.antt =====
-- The counts and the group starts of the counting sort, while no sum leaves `u32`.
use zag.Prelude.{
  ℕ, zero, suc, ◌+◌, ◌≤◌, ◌<◌, ◌≡◌, refl, ap, ◌∙◌, ℕ_discrete, List, [], ◌∷◌, arith, length, get_or,
  set, u32_add, u32_add-eq_of_lt, u32_mod, All, get_or-set, length-set, replicate,
}
use zag.Analysis.Buckets.{count_keys, starts_from}
use zag.Analysis.Buckets.Place.{count}

abbrev pub sum : List ℕ → ℕ
sum [] = 0
sum (n ∷ ns) = n + sum ns

get_or-le-sum : (ns : List ℕ) (i : ℕ) → get_or ns i 0 ≤ sum ns
get_or-le-sum [] i = omega arith
get_or-le-sum (n ∷ ns) zero = omega arith
get_or-le-sum (n ∷ ns) (suc i) = omega (arith, get_or-le-sum ns i)

sum-set : (ns : List ℕ) (i v : ℕ) → i < length ns → sum (set ns i v) + get_or ns i 0 ≡ sum ns + v
sum-set [] i v h = absurd (omega arith)
sum-set (n ∷ ns) zero v h = omega arith
sum-set (n ∷ ns) (suc i) v h = omega (arith, sum-set ns i v (omega arith))

pub sum-replicate : (n : ℕ) → sum (replicate n 0) ≡ 0
sum-replicate zero = refl
sum-replicate (suc n) = omega (arith, sum-replicate n)

module _ {A : Type 0} where
  -- What the counts hold after the pairs, and that their sum is as much higher.
  pub record Counted (pairs : List (A × ℕ)) (counts result : List ℕ) : Type 0 where
    pub size : length result ≡ length counts
    pub total : sum result ≡ sum counts + length pairs
    pub each : (k : ℕ) → get_or result k 0 ≡ get_or counts k 0 + count k pairs

  pub count_keys-Counted :
      (n : ℕ) (pairs : List (A × ℕ)) (counts : List ℕ)
      → length counts ≡ n
      → All (λ pair. pair.1 < n) pairs
      → sum counts + length pairs < u32_mod
      → Counted pairs counts (count_keys pairs counts)
  unfolding count_keys
  count_keys-Counted n [] counts wide keys small = record {
    size = refl;
    total = omega arith;
    each = λ k. omega arith;
  }
  count_keys-Counted n ((row, key) ∷ pairs) counts wide keys small =
      let next = u32_add (get_or counts key 0) 1 in
      let moved : next ≡ get_or counts key 0 + 1 =
        u32_add-eq_of_lt _ 1 (omega (arith, get_or-le-sum counts key)) in
      let grown = sum-set counts key next (omega arith) in
      let ih =
        count_keys-Counted n pairs (set counts key next) (length-set counts key next ∙ wide) keys.1
          (omega (arith, moved, grown)) in
      record {
        size = omega (arith, ih.size, length-set counts key next);
        total = omega (arith, ih.total, moved, grown);
        each = λ k. ground (arith, ih.each k, get_or-set counts key k next 0 (omega arith), moved);
      }

pub length-starts_from :
    (start : ℕ) (counts : List ℕ) → length (starts_from start counts) ≡ suc (length counts)
unfolding starts_from
length-starts_from start [] = refl
length-starts_from start (count ∷ counts) = ap suc (length-starts_from (u32_add start count) counts)

pub starts_from-head : (start : ℕ) (counts : List ℕ) → get_or (starts_from start counts) 0 0 ≡ start
unfolding starts_from
starts_from-head start [] = refl
starts_from-head start (count ∷ counts) = refl

-- Each start is the one before and its count.
pub starts_from-suc :
    (start : ℕ) (counts : List ℕ) (k : ℕ)
    → start + sum counts < u32_mod
    → k < length counts
    → get_or (starts_from start counts) (suc k) 0
      ≡ get_or (starts_from start counts) k 0 + get_or counts k 0
unfolding starts_from
starts_from-suc start [] k small h = absurd (omega arith)
starts_from-suc start (count ∷ counts) zero small h =
    starts_from-head (u32_add start count) counts ∙ u32_add-eq_of_lt start count (omega arith)
starts_from-suc start (count ∷ counts) (suc k) small h =
    starts_from-suc (u32_add start count) counts k
      (omega (arith, u32_add-eq_of_lt start count (omega arith))) (omega arith)

-- No start passes the sum of the counts.
pub starts_from-le :
    (start : ℕ) (counts : List ℕ) (k : ℕ)
    → start + sum counts < u32_mod
    → k ≤ length counts
    → get_or (starts_from start counts) k 0 ≤ start + sum counts
unfolding starts_from
starts_from-le start [] zero small h = omega arith
starts_from-le start [] (suc k) small h = absurd (omega arith)
starts_from-le start (count ∷ counts) zero small h = omega arith
starts_from-le start (count ∷ counts) (suc k) small h =
    let moved = u32_add-eq_of_lt start count (omega arith) in
    omega (
      arith,
      moved,
      starts_from-le (u32_add start count) counts k (omega (arith, moved)) (omega arith),
    )

-- A group ends before any later one starts.
pub starts_from-apart :
    (start : ℕ) (counts : List ℕ) (k j : ℕ)
    → start + sum counts < u32_mod
    → k < j
    → j ≤ length counts
    → get_or (starts_from start counts) k 0 + get_or counts k 0
      ≤ get_or (starts_from start counts) j 0
starts_from-apart start counts k zero small h top = absurd (omega arith)
starts_from-apart start counts k (suc j) small h top =
    let next = starts_from-suc start counts j small (omega arith) in
    elim (ℕ_discrete k j) [
      | yes e ↦ ground (arith, next)
      | no other ↦
          omega (arith, next, starts_from-apart start counts k j small (omega arith) (omega arith))
    ]
