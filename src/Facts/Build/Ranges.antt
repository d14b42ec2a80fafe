-- ===== src/Facts/Build/Ranges.antt =====
-- Builders of crates/zag-facts/src/build.rs that are called in order keep the ranges of rows whole: a
-- field is added to the struct that was declared last, a parameter to the last function, and an
-- unresolved import to the last module.
use zag.Prelude.{
  ℕ, zero, suc, ◌+◌, ◌<◌, ◌≤◌, ◌≡◌, refl, sym, ap, ◌∙◌, List, [], ◌∷◌, some, inl, inr, arith,
  length, get_elem?, set, Option-cases, Follow, AscendsFrom, u32_add, u32_mod, All, All_imp,
  All-append, get_elem?-of_lt,
}
use mathlib.Core.Option.{some-injective}
use mathlib.Core.Path.{subst}
use zag.Facts.Validate.Loops.{Ascends}
use zag.Facts.Build.{push}
use zag.Facts.Build.Rows.{count_one}
use zag.Facts.Build.Declare.{count_up}

-- A range without rows at the end.
pub Follow-push :
    (from : ℕ) (starts counts : List ℕ) (end : ℕ)
    → Follow from starts counts end
    → Follow from (push starts end) (push counts 0) end
Follow-push from [] [] end h = (sym h, omega (arith, h))
Follow-push from [] (y ∷ counts) end h = absurd h
Follow-push from (x ∷ starts) [] end h = absurd h
Follow-push from (x ∷ starts) (y ∷ counts) end h =
    (h.0, Follow-push (from + y) starts counts end h.1)

-- One more row in the last range.
Follow-grow :
    (from : ℕ) (starts counts : List ℕ) (end i count : ℕ)
    → Follow from starts counts end
    → i + 1 ≡ length counts
    → get_elem? counts i ≡ some count
    → Follow from starts (set counts i (count + 1)) (end + 1) × (count ≤ end)
Follow-grow from starts [] end i count h l e = absurd (omega arith)
Follow-grow from [] (y ∷ counts) end i count h l e = absurd h
Follow-grow from (x ∷ []) (y ∷ []) end zero count h l e =
    let same = some-injective y count e in omega (arith, same, h.0, h.1)
Follow-grow from (x ∷ w ∷ starts) (y ∷ []) end zero count h l e = absurd h.1
Follow-grow from (x ∷ starts) (y ∷ z ∷ counts) end zero count h l e = absurd (omega arith)
Follow-grow from (x ∷ starts) (y ∷ counts) end (suc i) count h l e =
    let rest = Follow-grow (from + y) starts counts end i count h.1 (omega arith) e in
    ((h.0, rest.0), rest.1)

Follow-length :
    (from : ℕ) (starts counts : List ℕ) (end : ℕ)
    → Follow from starts counts end
    → length starts ≡ length counts
Follow-length from [] [] end h = refl
Follow-length from [] (y ∷ counts) end h = absurd h
Follow-length from (x ∷ starts) [] end h = absurd h
Follow-length from (x ∷ starts) (y ∷ counts) end h =
    ap suc (Follow-length (from + y) starts counts end h.1)

-- A row is counted for the last owner.
pub Follow-count_one :
    (starts counts after : List ℕ) (end owner : ℕ)
    → Follow 0 starts counts end
    → end + 1 < u32_mod
    → owner + 1 ≡ length starts
    → count_one counts owner ≡ some after
    → Follow 0 starts after (end + 1)
unfolding count_one u32_add
Follow-count_one starts counts after end owner h small last e =
    elim (Option-cases (get_elem? counts owner)) [
      | inl absent ↦ absurd (cc (rw (absent, count_one) at e))
      | inr (count, there) ↦
          let written = some-injective _ after (rw (there, count_one) at e) in
          let (grown, below) =
            Follow-grow 0 starts counts end owner count h
              (omega (arith, last, Follow-length 0 starts counts end h)) there in
          let added : u32_add count 1 ≡ count + 1 = omega (arith, below, small) in
          subst (λ cs. Follow 0 starts cs (end + 1)) written
            (subst (λ n. Follow 0 starts (set counts owner n) (end + 1)) (sym added) grown)
    ]

pub Follow-count_up :
    (starts counts : List ℕ) (end owner : ℕ)
    → Follow 0 starts counts end
    → end + 1 < u32_mod
    → owner + 1 ≡ length starts
    → Follow 0 starts (count_up counts owner) (end + 1)
unfolding count_up u32_add
Follow-count_up starts counts end owner h small last =
    elim (Option-cases (get_elem? counts owner)) [
      | inl absent ↦
          let (count, there) =
            get_elem?-of_lt counts owner
              (omega (arith, last, Follow-length 0 starts counts end h)) in
          absurd (cc (sym absent ∙ there))
      | inr (count, there) ↦
          let (grown, below) =
            Follow-grow 0 starts counts end owner count h
              (omega (arith, last, Follow-length 0 starts counts end h)) there in
          let added : u32_add count 1 ≡ count + 1 = omega (arith, below, small) in
          rw (there, count_up)
            (subst (λ n. Follow 0 starts (set counts owner n) (end + 1)) (sym added) grown)
    ]

-- The owners ascend, and are below a number of owners.
abbrev pub Grouped : List ℕ → ℕ → Type 0
Grouped owners limit = Ascends owners × All (λ owner. owner < limit) owners

AscendsFrom-last :
    (least : ℕ) (xs : List ℕ) (limit : ℕ)
    → least ≤ limit
    → AscendsFrom least xs
    → All (λ x. x < limit + 1) xs
    → AscendsFrom least (push xs limit)
AscendsFrom-last least [] limit l h a = (l, tt)
AscendsFrom-last least (x ∷ xs) limit l h a =
    (h.0, AscendsFrom-last x xs limit (omega (arith, a.0)) h.1 a.1)

pub Grouped-push :
    (owners : List ℕ) (owner limit : ℕ)
    → owner + 1 ≡ limit
    → Grouped owners limit
    → Grouped (push owners owner) limit
Grouped-push [] owner limit e h = (tt, (omega arith, tt))
Grouped-push (x ∷ owners) owner limit e h = (
  AscendsFrom-last x owners owner (omega (arith, h)) h.0
      (All_imp _ _ owners (λ y l. omega arith) h.1.1),
  All-append _ (x ∷ owners) (owner ∷ []) h.1 (omega arith, tt),
)

pub Grouped-more :
    (owners : List ℕ) (limit more : ℕ) → limit ≤ more → Grouped owners limit → Grouped owners more
Grouped-more owners limit more l h = (h.0, All_imp _ _ owners (λ x below. omega arith) h.1)
