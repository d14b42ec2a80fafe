-- ===== src/Analysis/Buckets.antt =====
-- The counting sort that crates/zag-analysis/src/call_graph.rs and ownership.rs both write out: rows
-- grouped by a key below `n`, as the starts of the groups and the grouped rows. A pair is a row and
-- its key. Every index is in bounds for keys below `n`, so no default is read.
pub mod Place
pub mod Starts
pub mod Laws
use zag.Prelude.{ℕ, zero, suc, ◌+◌, List, [], ◌∷◌, get_or, set, u32_add, if◌then◌else◌, ◌==◌}

-- `counts[key] += 1` for each pair.
unfoldable pub count_keys {ℓ} : {A : Type ℓ} → List (A × ℕ) → List ℕ → List ℕ
unfolding u32_add
count_keys [] counts = counts
count_keys ((row, key) ∷ pairs) counts =
    count_keys pairs (set counts key (u32_add (get_or counts key 0) 1))

-- `start[index + 1] = start[index] + counts[index]`, from the start of the first group.
unfoldable pub starts_from : ℕ → List ℕ → List ℕ
unfolding u32_add
starts_from start [] = start ∷ []
starts_from start (count ∷ counts) = start ∷ starts_from (u32_add start count) counts

-- Each row is written at its key's cursor, which moves on by one.
unfoldable pub place_rows {ℓ} : {A : Type ℓ} → List (A × ℕ) → List ℕ → List A → List A
unfolding u32_add
place_rows [] cursor grouped = grouped
place_rows ((row, key) ∷ pairs) cursor grouped =
    let slot = get_or cursor key 0 in
    place_rows pairs (set cursor key (u32_add slot 1)) (set grouped slot row)

-- The rows that have the key, in order.
abbrev pub bucket {ℓ} : {A : Type ℓ} → ℕ → List (A × ℕ) → List A
bucket k [] = []
bucket k ((row, key) ∷ pairs) = if key == k then row ∷ bucket k pairs else bucket k pairs
