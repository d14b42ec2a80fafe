-- ===== src/Analysis/Buckets/Place.antt =====
-- Where the last loop of the counting sort leaves each row.
use zag.Prelude.{
  ℕ, zero, suc, ◌+◌, ◌≤◌, ◌<◌, ◌≡◌, ◌⊎◌, refl, ◌∙◌, List, [], ◌∷◌, arith, length, get_or, get_elem?,
  set, u32_add, u32_add-eq_of_lt, u32_mod, All, ℕ_discrete, get_or-set, get_elem?-set, length-set,
  some, if◌then◌else◌, ◌==◌,
}
use zag.Analysis.Buckets.{place_rows, bucket}

module _ {A : Type 0} where
  abbrev pub count : ℕ → List (A × ℕ) → ℕ
  count k [] = 0
  count k ((row, key) ∷ pairs) = if key == k then suc (count k pairs) else count k pairs

  pub length-bucket : (k : ℕ) (pairs : List (A × ℕ)) → length (bucket k pairs) ≡ count k pairs
  length-bucket k [] = refl
  length-bucket k ((row, key) ∷ pairs) = ground (arith, length-bucket k pairs)

  -- The cursors leave room for the pairs: the groups lie one behind the other within the rows.
  pub record HasRoom (n : ℕ) (size : ℕ) (pairs : List (A × ℕ)) (cursor : List ℕ) : Type 0 where
    pub wide : n ≤ length cursor
    pub apart : (k j : ℕ) → k < j → j < n → get_or cursor k 0 + count k pairs ≤ get_or cursor j 0
    pub within : (k : ℕ) → k < n → get_or cursor k 0 + count k pairs ≤ size

  -- A place that no group is still to be written to.
  abbrev pub Outside : ℕ → List (A × ℕ) → List ℕ → ℕ → Type 0
  Outside n pairs cursor p =
      (k : ℕ) → k < n → (p < get_or cursor k 0) ⊎ (get_or cursor k 0 + count k pairs ≤ p)

  module _ (n size : ℕ) (row : A) (key : ℕ) (pairs : List (A × ℕ)) (cursor : List ℕ)
      (small : size < u32_mod) (inside : key < n)
      (room : HasRoom n size ((row, key) ∷ pairs) cursor) where
    abbrev pub slot : ℕ
    slot = get_or cursor key 0

    abbrev pub cursor' : List ℕ
    cursor' = set cursor key (u32_add slot 1)

    pub slot-lt : slot < size
    slot-lt = ground (arith, room.within key)

    pub get_or-cursor' :
        (k : ℕ) → get_or cursor' k 0 ≡ (if key == k then slot + 1 else get_or cursor k 0)
    get_or-cursor' k =
        get_or-set cursor key k (u32_add slot 1) 0 (omega (arith, room.wide))
        ∙ rw (u32_add-eq_of_lt slot 1 (omega (arith, slot-lt)))

    pub HasRoom-step : HasRoom n size pairs cursor'
    HasRoom-step = record {
      wide = omega (arith, length-set cursor key (u32_add slot 1), room.wide);
      apart = λ k j below top.
          ground (arith, get_or-cursor' k, get_or-cursor' j, room.apart k j below top);
      within = λ k below. ground (arith, get_or-cursor' k, room.within k below);
    }

    Outside-slot : Outside n pairs cursor' slot
    Outside-slot k top = ground (arith, get_or-cursor' k, room.apart k key, room.apart key k)

  pub place_rows-Outside :
      (n size : ℕ) (pairs : List (A × ℕ)) (cursor : List ℕ) (grouped : List A) (p : ℕ)
      → length grouped ≡ size
      → size < u32_mod
      → All (λ pair. pair.1 < n) pairs
      → HasRoom n size pairs cursor
      → Outside n pairs cursor p
      → get_elem? (place_rows pairs cursor grouped) p ≡ get_elem? grouped p
  unfolding place_rows
  place_rows-Outside n size [] cursor grouped p sized small keys room out = refl
  place_rows-Outside n size ((row, key) ∷ pairs) cursor grouped p sized small keys room out =
      let here = slot n size row key pairs cursor small keys.0 room in
      let moved = get_or-cursor' n size row key pairs cursor small keys.0 room in
      place_rows-Outside n size pairs (cursor' n size row key pairs cursor small keys.0 room)
        (set grouped here row) p (length-set grouped here row ∙ sized) small keys.1
        (HasRoom-step n size row key pairs cursor small keys.0 room)
        (λ k below. ground (arith, moved k, out k below))
      ∙ (get_elem?-set grouped here p row
            (omega (arith, slot-lt n size row key pairs cursor small keys.0 room))
          ∙ ground (arith, out key keys.0))

  -- The first pair stays where it is written.
  place_rows-first :
      (n size : ℕ) (row : A) (key : ℕ) (pairs : List (A × ℕ)) (cursor : List ℕ)
      (small : size < u32_mod) (inside : key < n)
      (room : HasRoom n size ((row, key) ∷ pairs) cursor) (grouped : List A)
      → length grouped ≡ size
      → All (λ pair. pair.1 < n) pairs
      → get_elem?
          (place_rows pairs
            (cursor' n size row key pairs cursor small inside room)
            (set grouped (slot n size row key pairs cursor small inside room) row))
          (slot n size row key pairs cursor small inside room)
        ≡ some row
  place_rows-first n size row key pairs cursor small inside room grouped sized keys =
      let here = slot n size row key pairs cursor small inside room in
      place_rows-Outside n size pairs _ (set grouped here row) here
        (length-set grouped here row ∙ sized) small keys
        (HasRoom-step n size row key pairs cursor small inside room)
        (Outside-slot n size row key pairs cursor small inside room)
      ∙ (get_elem?-set grouped here here row
            (omega (arith, slot-lt n size row key pairs cursor small inside room))
          ∙ ground arith)

  pub place_rows-bucket :
      (n size : ℕ) (pairs : List (A × ℕ)) (cursor : List ℕ) (grouped : List A) (k j : ℕ)
      → length grouped ≡ size
      → size < u32_mod
      → All (λ pair. pair.1 < n) pairs
      → HasRoom n size pairs cursor
      → k < n
      → j < count k pairs
      → get_elem? (place_rows pairs cursor grouped) (get_or cursor k 0 + j)
        ≡ get_elem? (bucket k pairs) j
  unfolding place_rows
  place_rows-bucket n size [] cursor grouped k j sized small keys room below h =
      absurd (omega arith)
  place_rows-bucket n size ((row, key) ∷ pairs) cursor grouped k zero sized small keys room below
        h =
      ground (
        arith,
        get_or-cursor' n size row key pairs cursor small keys.0 room k,
        place_rows-first n size row key pairs cursor small keys.0 room grouped sized keys.1,
        place_rows-bucket n size pairs (cursor' n size row key pairs cursor small keys.0 room)
            (set grouped (slot n size row key pairs cursor small keys.0 room) row) k 0
            (length-set grouped _ row ∙ sized) small keys.1
            (HasRoom-step n size row key pairs cursor small keys.0 room) below,
      )
  place_rows-bucket n size ((row, key) ∷ pairs) cursor grouped k (suc j) sized small keys room below
        h =
      let next = cursor' n size row key pairs cursor small keys.0 room in
      let rest = set grouped (slot n size row key pairs cursor small keys.0 room) row in
      let later = λ (i : ℕ).
        place_rows-bucket n size pairs next rest k i (length-set grouped _ row ∙ sized) small keys.1
          (HasRoom-step n size row key pairs cursor small keys.0 room) below in
      let moved = get_or-cursor' n size row key pairs cursor small keys.0 room k in
      elim (ℕ_discrete key k) [
        | no other ↦ ground (arith, moved, later (suc j))
        | yes same ↦ ground (arith, moved, later j)
      ]

  pub length-place_rows :
      (pairs : List (A × ℕ)) (cursor : List ℕ) (grouped : List A)
      → length (place_rows pairs cursor grouped) ≡ length grouped
  unfolding place_rows
  length-place_rows [] cursor grouped = refl
  length-place_rows ((row, key) ∷ pairs) cursor grouped =
      length-place_rows pairs (set cursor key _) (set grouped _ row)
      ∙ length-set grouped (get_or cursor key 0) row
