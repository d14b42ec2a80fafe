-- ===== src/Repair/Order.antt =====
-- The order in which crates/zag-repair/src/lib.rs applies repairs, and what its two checks find.
use zag.Prelude.{
  ℕ, ◌+◌, ◌≤◌, ◌≡◌, ◌↔◌, ◌⊎◌, inl, inr, refl, true, none, List, [], ◌∷◌, arith, All, All_imp,
  Bool-cases,
}
use zag.Repair.{
  Repair, Indexed, key_le, insert, order_from, check_spans, check_windows, check_overlaps,
}

-- The span is in order and within a source of the size.
abbrev pub InSource : ℕ → Repair → Type 0
InSource size repair = (repair.span_start ≤ repair.span_end) × (repair.span_end ≤ size)

-- One of the spans ends before the other begins.
abbrev pub Apart : Repair → Repair → Type 0
Apart a b = (a.span_end ≤ b.span_start) ⊎ (b.span_end ≤ a.span_start)

module _ {A : Type 0} (R : A → A → Type 0) where
  -- Any two of the list are related, the earlier to the later.
  abbrev pub Pairwise : List A → Type 0
  Pairwise [] = Unit
  Pairwise (x ∷ xs) = All (R x) xs × Pairwise xs

pub check_spans-InSource :
    (size : ℕ) (repairs : List Repair)
    → (check_spans size repairs ≡ none) ↔ All (InSource size) repairs
unfolding check_spans
check_spans-InSource size [] = (λ h. tt, λ h. refl)
check_spans-InSource size (repair ∷ repairs) =
    let rest = check_spans-InSource size repairs in
    (λ h. ground (arith, rest), λ h. ground (arith, rest))

abbrev ApartFrom : Indexed → Indexed → Type 0
ApartFrom a b = Apart a.1 b.1

abbrev Inside : ℕ → Indexed → Type 0
Inside size x = InSource size x.1

-- A repair is inserted among the others without a loss.
pub All-insert :
    (P : Indexed → Type 0) (x : Indexed) (ys : List Indexed)
    → All P (insert x ys) ↔ (P x × All P ys)
unfolding insert
All-insert P x [] = (λ h. h, λ h. h)
All-insert P x (y ∷ ys) =
    let rest = All-insert P x ys in
    elim (Bool-cases (key_le x.1 y.1)) [
      | inl le ↦ rw (le, insert) (λ h. h, λ h. h)
      | inr gt ↦
          rw (gt, insert)
            (λ h. ((rest.0 h.1).0, (h.0, (rest.0 h.1).1)), λ h. (h.1.0, rest.1 (h.0, h.1.1)))
    ]

pub Pairwise-insert :
    (R : Indexed → Indexed → Type 0) (x : Indexed) (ys : List Indexed)
    → ((a b : Indexed) → R a b → R b a)
    → Pairwise R (insert x ys) ↔ (All (R x) ys × Pairwise R ys)
unfolding insert
Pairwise-insert R x [] swap = (λ h. h, λ h. h)
Pairwise-insert R x (y ∷ ys) swap =
    let rest = Pairwise-insert R x ys swap in
    let all = All-insert (R y) x ys in
    elim (Bool-cases (key_le x.1 y.1)) [
      | inl le ↦ rw (le, insert) (λ h. h, λ h. h)
      | inr gt ↦
          rw (gt, insert)
            (
              λ h. ((swap y x (all.0 h.0).0, (rest.0 h.1).0), ((all.0 h.0).1, (rest.0 h.1).1)),
              λ h. (all.1 (swap x y h.0.0, h.1.0), rest.1 (h.0.1, h.1.1)),
            )
    ]

pub All-order_from :
    (P : Repair → Type 0) (index : ℕ) (repairs : List Repair)
    → All (λ x. P x.1) (order_from index repairs) ↔ All P repairs
unfolding order_from
All-order_from P index [] = (λ h. tt, λ h. tt)
All-order_from P index (repair ∷ repairs) =
    let rest = All-order_from P (index + 1) repairs in
    let step = All-insert (λ x. P x.1) (index, repair) (order_from (index + 1) repairs) in
    (λ h. let i = step.0 h in (i.0, rest.0 i.1), λ h. step.1 (h.0, rest.1 h.1))

Apart-swap : (a b : Indexed) → ApartFrom a b → ApartFrom b a
Apart-swap a b (inl h) = inr h
Apart-swap a b (inr h) = inl h

Pairwise-order_from :
    (index : ℕ) (repairs : List Repair)
    → Pairwise ApartFrom (order_from index repairs) ↔ Pairwise Apart repairs
unfolding order_from
Pairwise-order_from index [] = (λ h. tt, λ h. tt)
Pairwise-order_from index (repair ∷ repairs) =
    let rest = Pairwise-order_from (index + 1) repairs in
    let all = All-order_from (Apart repair) (index + 1) repairs in
    let step =
      Pairwise-insert ApartFrom (index, repair) (order_from (index + 1) repairs) Apart-swap in
    (λ h. let i = step.0 h in (all.0 i.0, rest.0 i.1), λ h. step.1 (all.1 h.0, rest.1 h.1))

abbrev pub KeyLe : Indexed → Indexed → Type 0
KeyLe a b = key_le a.1 b.1 ≡ true

KeyLe-trans : (a b c : Indexed) → KeyLe a b → KeyLe b c → KeyLe a c
KeyLe-trans a b c h k = ground arith

insert-sorted : (x : Indexed) (ys : List Indexed) → Pairwise KeyLe ys → Pairwise KeyLe (insert x ys)
unfolding insert
insert-sorted x [] h = (tt, tt)
insert-sorted x (y ∷ ys) h = elim (Bool-cases (key_le x.1 y.1)) [
  | inl le ↦ rw (le, insert) ((le, All_imp _ _ ys (λ z l. KeyLe-trans x y z le l) h.0), h)
  | inr gt ↦
      let other : KeyLe y x = ground arith in
      rw (gt, insert) ((All-insert (KeyLe y) x ys).1 (other, h.0), insert-sorted x ys h.1)
]

pub order_from-sorted :
    (index : ℕ) (repairs : List Repair) → Pairwise KeyLe (order_from index repairs)
unfolding order_from
order_from-sorted index [] = tt
order_from-sorted index (repair ∷ repairs) =
    insert-sorted (index, repair) _ (order_from-sorted (index + 1) repairs)

-- A repair ends before the other begins.
abbrev pub Before : Indexed → Indexed → Type 0
Before a b = a.1.span_end ≤ b.1.span_start

check_windows-Before :
    (size : ℕ) (earlier : Indexed) (order : List Indexed)
    → All (λ x. InSource size x.1) order
    → (check_windows earlier order ≡ none) ↔ Pairwise Before (earlier ∷ order)
unfolding check_windows
check_windows-Before size earlier [] i = (λ h. (tt, tt), λ h. refl)
check_windows-Before size earlier (later ∷ order) i =
    let rest = check_windows-Before size later order i.1 in
    (
      λ h.
          let first : earlier.1.span_end ≤ later.1.span_start = ground arith in
          let others : check_windows later order ≡ none = ground arith in
          let chain = rest.0 others in
          ((first, All_imp _ _ order (λ x l. omega (arith, i.0)) chain.0), chain),
      λ h. let others = rest.1 h.1 in ground (arith, h.0.0),
    )

pub check_overlaps-Before :
    (size : ℕ) (order : List Indexed)
    → All (λ x. InSource size x.1) order
    → (check_overlaps order ≡ none) ↔ Pairwise Before order
unfolding check_overlaps
check_overlaps-Before size [] i = (λ h. tt, λ h. refl)
check_overlaps-Before size (first ∷ order) i = check_windows-Before size first order i.1

-- What is apart and has a greater key comes later.
apart-Before :
    (size : ℕ) (x : Indexed) (order : List Indexed)
    → All (λ x. InSource size x.1) order
    → All (KeyLe x) order
    → All (ApartFrom x) order
    → All (Before x) order
apart-Before size x [] i s h = tt
apart-Before size x (y ∷ order) i s h = (ground arith, apart-Before size x order i.1 s.1 h.1)

-- In order, repairs are apart when each ends before those behind it begin.
Before-ApartFrom :
    (size : ℕ) (order : List Indexed)
    → All (λ x. InSource size x.1) order
    → Pairwise KeyLe order
    → Pairwise Before order ↔ Pairwise ApartFrom order
Before-ApartFrom size [] i s = (λ h. tt, λ h. tt)
Before-ApartFrom size (x ∷ order) i s =
    let rest = Before-ApartFrom size order i.1 s.1 in
    (
      λ h. (All_imp _ _ order (λ y l. inl l) h.0, rest.0 h.1),
      λ h. (apart-Before size x order i.1 s.0 h.0, rest.1 h.1),
    )

-- Where every span is in the source, no overlap is found exactly when any two spans are apart.
pub check_overlaps-Apart :
    (size : ℕ) (repairs : List Repair)
    → All (InSource size) repairs
    → (check_overlaps (order_from 0 repairs) ≡ none) ↔ Pairwise Apart repairs
check_overlaps-Apart size repairs i =
    let order = order_from 0 repairs in
    let inside = (All-order_from (InSource size) 0 repairs).1 i in
    let chain = check_overlaps-Before size order inside in
    let apart = Before-ApartFrom size order inside (order_from-sorted 0 repairs) in
    let same = Pairwise-order_from 0 repairs in
    (λ h. same.0 (apart.0 (chain.0 h)), λ h. chain.1 (apart.1 (same.1 h)))
