-- ===== src/Analysis/Buckets/Laws.antt =====
-- The counting sort as a whole: the rows of a group are the rows with its key, in order.
use zag.Prelude.{
  ℕ, zero, suc, ◌+◌, ◌-◌, ◌≤◌, ◌<◌, ◌≡◌, ◌∙◌, List, arith, length, get_or, drop, take_of_get_elem?,
  get_elem?-drop, u32_mod, All, replicate, length-replicate, get_or-replicate,
}
use zag.Facts.Access.{slice}
use zag.Analysis.Buckets.{count_keys, starts_from, place_rows, bucket}
use zag.Analysis.Buckets.Place.{count, HasRoom, length-bucket, place_rows-bucket}
use zag.Analysis.Buckets.Starts.{
  sum, sum-replicate, Counted, count_keys-Counted, length-starts_from, starts_from-suc,
  starts_from-apart, starts_from-le,
}

module _ {A : Type 0} (n : ℕ) (pairs : List (A × ℕ)) (blank : A)
    (keys : All (λ pair. pair.1 < n) pairs) (small : length pairs < u32_mod) where
  abbrev pub counts : List ℕ
  counts = count_keys pairs (replicate n 0)

  abbrev pub starts : List ℕ
  starts = starts_from 0 counts

  abbrev pub grouped : List A
  grouped = place_rows pairs starts (replicate (length pairs) blank)

  counted : Counted pairs (replicate n 0) counts
  counted =
      count_keys-Counted n pairs (replicate n 0) (length-replicate n 0) keys
        (omega (arith, sum-replicate n))

  total : 0 + sum counts ≡ length pairs
  total = omega (arith, counted.total, sum-replicate n)

  pub length-counts : length counts ≡ n
  length-counts = counted.size ∙ length-replicate n 0

  counts-count : (k : ℕ) → get_or counts k 0 ≡ count k pairs
  counts-count k = omega (arith, counted.each k, get_or-replicate n zero k)

  pub starts-suc : (k : ℕ) → k < n → get_or starts (suc k) 0 ≡ get_or starts k 0 + count k pairs
  starts-suc k h = omega (
    arith,
    counts-count k,
    starts_from-suc 0 counts k (omega (arith, total)) (omega (arith, length-counts)),
  )

  pub starts-le : (k : ℕ) → k ≤ n → get_or starts k 0 ≤ length pairs
  starts-le k h = omega (
    arith,
    total,
    starts_from-le 0 counts k (omega (arith, total)) (omega (arith, length-counts)),
  )

  room : HasRoom n (length pairs) pairs starts
  room = record {
    wide = omega (arith, length-starts_from 0 counts, length-counts);
    apart = λ k j h top. omega (
      arith,
      counts-count k,
      starts_from-apart 0 counts k j (omega (arith, total)) h (omega (arith, length-counts)),
    );
    within = λ k h. omega (arith, starts-suc k h, starts-le (suc k) h);
  }

  -- For keys below `n` and fewer than 2^32 pairs, the rows from one start to the next are those with
  -- the key, in the order of the pairs.
  pub grouped-bucket :
      (k : ℕ) → k < n → slice grouped (get_or starts k 0) (get_or starts (suc k) 0) ≡ bucket k pairs
  grouped-bucket k h =
      take_of_get_elem? (get_or starts (suc k) 0 - get_or starts k 0)
        (drop (get_or starts k 0) grouped) (bucket k pairs)
        (omega (arith, starts-suc k h, length-bucket k pairs))
        (λ j below.
          get_elem?-drop (get_or starts k 0) grouped j
          ∙ place_rows-bucket n (length pairs) pairs starts (replicate (length pairs) blank) k j
              (length-replicate (length pairs) blank) small keys room h
              (omega (arith, starts-suc k h)))
