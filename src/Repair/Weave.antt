-- ===== src/Repair/Weave.antt =====
-- What the repaired text of crates/zag-repair/src/lib.rs is, position by position, and that the loop
-- over the repairs puts it together.
use zag.Prelude.{
  ℕ, zero, suc, ◌+◌, ◌-◌, ◌<◌, ◌≤◌, ◌≡◌, refl, sym, ap, ◌∙◌, true, false, some, List, [], ◌∷◌, ◌++◌,
  arith, ◌==◌, if◌then◌else◌, length, length-drop, take, drop, All, All_imp,
}
use mathlib.Core.List.{append_assoc}
use zag.Facts.Access.{slice}
use zag.Facts.Wire.Reads.{drop-drop}
use zag.Facts.Build.Texts.{take_all}
use zag.Repair.{Repair, Indexed, range, splice}
use zag.Repair.Order.{InSource, Pairwise, Before}

-- The bytes that a repair adds in front of a position.
unfoldable pub added : ℕ → Repair → List ℕ
added position repair =
    (if repair.span_start == position then repair.prefix else [])
    ++ (if repair.span_end == position then repair.suffix else [])

-- The bytes that repairs add in front of a position, in their order.
unfoldable pub all_added : ℕ → List Indexed → List ℕ
unfolding added
all_added position [] = []
all_added position (x ∷ order) = added position x.1 ++ all_added position order

-- The source from a position on, each byte behind what is added in front of it.
unfoldable pub woven : ℕ → List ℕ → List Indexed → List ℕ
unfolding all_added
woven position [] order = all_added position order
woven position (byte ∷ bytes) order =
    all_added position order ++ byte ∷ woven (position + 1) bytes order

-- Nothing is added in front of where all repairs begin.
all_added-none :
    (position : ℕ) (order : List Indexed)
    → All (λ x. (position < x.1.span_start) × (x.1.span_start ≤ x.1.span_end)) order
    → all_added position order ≡ []
unfolding all_added added
all_added-none position [] h = refl
all_added-none position (x ∷ order) h =
    let rest = all_added-none position order h.1 in
    let a : (x.1.span_start == position) ≡ false = ground (arith, h.0) in
    let b : (x.1.span_end == position) ≡ false = ground (arith, h.0) in rw (a, b) rest

-- Up to where all repairs begin the text is the source's.
woven-skip :
    (count position : ℕ) (bytes : List ℕ) (order : List Indexed)
    → count ≤ length bytes
    → All (λ x. (position + count ≤ x.1.span_start) × (x.1.span_start ≤ x.1.span_end)) order
    → woven position bytes order
      ≡ take count bytes ++ woven (position + count) (drop count bytes) order
unfolding woven
woven-skip zero position bytes order l h =
    ap (λ p. woven p bytes order) {x = position} {y = position + 0} (omega arith)
woven-skip (suc count) position [] order l h = absurd (omega arith)
woven-skip (suc count) position (byte ∷ bytes) order l h =
    let none =
      all_added-none position order (All_imp _ _ order (λ x i. (omega (arith, i), i.1)) h) in
    let rest =
      woven-skip count (position + 1) bytes order (omega arith)
        (All_imp _ _ order (λ x i. (omega (arith, i), i.1)) h) in
    rw none (
      ap (λ ys. byte ∷ ys)
        (rest
          ∙ ap (λ p. take count bytes ++ woven p (drop count bytes) order)
              {x = position + 1 + count} {y = position + suc count} (omega arith)))

-- Behind its end a repair adds nothing.
woven-behind :
    (position : ℕ) (bytes : List ℕ) (x : Indexed) (order : List Indexed)
    → x.1.span_start ≤ x.1.span_end
    → x.1.span_end < position
    → woven position bytes (x ∷ order) ≡ woven position bytes order
unfolding woven all_added added
woven-behind position [] x order i l =
    let a : (x.1.span_start == position) ≡ false = ground arith in
    let b : (x.1.span_end == position) ≡ false = ground arith in rw (a, b) refl
woven-behind position (byte ∷ bytes) x order i l =
    let a : (x.1.span_start == position) ≡ false = ground arith in
    let b : (x.1.span_end == position) ≡ false = ground arith in
    rw (a, b)
      (ap (λ ys. all_added position order ++ byte ∷ ys)
        (woven-behind (position + 1) bytes x order i (omega arith)))

-- From the end of a repair on: its suffix, and what the others add.
woven-end :
    (bytes : List ℕ) (x : Indexed) (order : List Indexed)
    → x.1.span_start < x.1.span_end
    → woven x.1.span_end bytes (x ∷ order) ≡ x.1.suffix ++ woven x.1.span_end bytes order
unfolding woven all_added added
woven-end [] x order l =
    let a : (x.1.span_start == x.1.span_end) ≡ false = ground arith in
    let b : (x.1.span_end == x.1.span_end) ≡ true = ground arith in rw (a, b) refl
woven-end (byte ∷ bytes) x order l =
    let a : (x.1.span_start == x.1.span_end) ≡ false = ground arith in
    let b : (x.1.span_end == x.1.span_end) ≡ true = ground arith in
    rw (a, b)
      (ap (λ ys. (x.1.suffix ++ all_added x.1.span_end order) ++ byte ∷ ys)
          (woven-behind (x.1.span_end + 1) bytes x order (omega arith) (omega arith))
        ∙ append_assoc x.1.suffix (all_added x.1.span_end order) _)

-- Inside the span of the first repair.
woven-inside :
    (count position : ℕ) (bytes : List ℕ) (x : Indexed) (order : List Indexed)
    → position + count ≡ x.1.span_end
    → x.1.span_start < position
    → count ≤ length bytes
    → All (λ y. (x.1.span_end ≤ y.1.span_start) × (y.1.span_start ≤ y.1.span_end)) order
    → woven position bytes (x ∷ order)
      ≡ take count bytes ++ (x.1.suffix ++ woven x.1.span_end (drop count bytes) order)
unfolding woven all_added added
woven-inside zero position bytes x order e l m h =
    ap (λ p. woven p bytes (x ∷ order)) {x = position} {y = x.1.span_end} (omega (arith, e))
    ∙ woven-end bytes x order (omega (arith, e))
woven-inside (suc count) position [] x order e l m h = absurd (omega arith)
woven-inside (suc count) position (byte ∷ bytes) x order e l m h =
    let a : (x.1.span_start == position) ≡ false = ground arith in
    let b : (x.1.span_end == position) ≡ false = ground arith in
    let none =
      all_added-none position order (All_imp _ _ order (λ y i. (omega (arith, i), i.1)) h) in
    rw (a, b)
      (rw none (
        ap (λ ys. byte ∷ ys)
          (woven-inside count (position + 1) bytes x order (omega arith) (omega arith) (omega arith)
            h)))

-- From the beginning of the first repair on.
woven-first :
    (count : ℕ) (bytes : List ℕ) (x : Indexed) (order : List Indexed)
    → x.1.span_start + count ≡ x.1.span_end
    → count ≤ length bytes
    → All (λ y. (x.1.span_end ≤ y.1.span_start) × (y.1.span_start ≤ y.1.span_end)) order
    → woven x.1.span_start bytes (x ∷ order)
      ≡ x.1.prefix
        ++ (take count bytes ++ (x.1.suffix ++ woven x.1.span_end (drop count bytes) order))
unfolding woven all_added added
woven-first zero [] x order e m h =
    let start : x.1.span_start ≡ x.1.span_end = omega arith in
    let a : (x.1.span_start == x.1.span_start) ≡ true = ground arith in
    let b : (x.1.span_end == x.1.span_start) ≡ true = ground arith in
    rw (a, b)
      (append_assoc x.1.prefix x.1.suffix _
        ∙ ap (λ p. x.1.prefix ++ (x.1.suffix ++ all_added p order)) start)
woven-first zero (byte ∷ bytes) x order e m h =
    let start : x.1.span_start ≡ x.1.span_end = omega arith in
    let a : (x.1.span_start == x.1.span_start) ≡ true = ground arith in
    let b : (x.1.span_end == x.1.span_start) ≡ true = ground arith in
    rw (a, b)
      (ap (λ ys. ((x.1.prefix ++ x.1.suffix) ++ all_added x.1.span_start order) ++ byte ∷ ys)
          (woven-behind (x.1.span_start + 1) bytes x order (omega arith) (omega arith))
        ∙ append_assoc (x.1.prefix ++ x.1.suffix) (all_added x.1.span_start order) _
        ∙ append_assoc x.1.prefix x.1.suffix _
        ∙ ap
            (λ p.
              x.1.prefix ++ (x.1.suffix ++ (all_added p order ++ byte ∷ woven (p + 1) bytes order)))
            start)
woven-first (suc count) [] x order e m h = absurd (omega arith)
woven-first (suc count) (byte ∷ bytes) x order e m h =
    let a : (x.1.span_start == x.1.span_start) ≡ true = ground arith in
    let b : (x.1.span_end == x.1.span_start) ≡ false = ground arith in
    let none =
      all_added-none x.1.span_start order (All_imp _ _ order (λ y i. (omega (arith, i), i.1)) h) in
    rw (a, b)
      (rw none (
        append_assoc (x.1.prefix ++ []) [] _
        ∙ append_assoc x.1.prefix [] _
        ∙ ap (λ ys. x.1.prefix ++ byte ∷ ys)
            (woven-inside count (x.1.span_start + 1) bytes x order (omega arith) (omega arith)
              (omega arith) h)))

range-some :
    (source : List ℕ) (start end : ℕ)
    → start ≤ end
    → end ≤ length source
    → range source start end ≡ some (slice source start end)
unfolding range
range-some source start end l m = ground arith

woven_all : (position : ℕ) (bytes : List ℕ) → woven position bytes [] ≡ bytes
unfolding woven all_added
woven_all position [] = refl
woven_all position (byte ∷ bytes) = ap (λ ys. byte ∷ ys) (woven_all (position + 1) bytes)

drop_to : (a b : ℕ) (xs : List ℕ) → a ≤ b → drop (b - a) (drop a xs) ≡ drop b xs
drop_to a b xs l =
    sym (drop-drop a (b - a) xs) ∙ ap (λ n. drop n xs) {x = a + (b - a)} {y = b} (omega arith)

-- What is behind a place and well placed is both at once.
both :
    (size end : ℕ) (order : List Indexed)
    → All (λ y. end ≤ y.1.span_start) order
    → All (λ y. InSource size y.1) order
    → All (λ y. (end ≤ y.1.span_start) × (y.1.span_start ≤ y.1.span_end)) order
both size end [] h i = tt
both size end (y ∷ order) h i = ((h.0, i.0.0), both size end order h.1 i.1)

-- Five appends, from the right.
five :
    (out a b c d e : List ℕ)
    → ((((out ++ a) ++ b) ++ c) ++ d) ++ e ≡ out ++ (a ++ (b ++ (c ++ (d ++ e))))
five out a b c d e =
    append_assoc (((out ++ a) ++ b) ++ c) d e
    ∙ append_assoc ((out ++ a) ++ b) c (d ++ e)
    ∙ append_assoc (out ++ a) b (c ++ (d ++ e))
    ∙ append_assoc out a (b ++ (c ++ (d ++ e)))

-- The woven text from a cursor on, up to the end of the first repair.
woven-step :
    (source : List ℕ) (cursor : ℕ) (x : Indexed) (order : List Indexed)
    → cursor ≤ x.1.span_start
    → InSource (length source) x.1
    → All (λ y. (x.1.span_end ≤ y.1.span_start) × (y.1.span_start ≤ y.1.span_end)) order
    → woven cursor (drop cursor source) (x ∷ order)
      ≡ slice source cursor x.1.span_start
        ++ (x.1.prefix
            ++ (slice source x.1.span_start x.1.span_end
                ++ (x.1.suffix ++ woven x.1.span_end (drop x.1.span_end source) order)))
woven-step source cursor x order c i h =
    let start = x.1.span_start in
    let end = x.1.span_end in
    let skipped =
      woven-skip (start - cursor) cursor (drop cursor source) (x ∷ order)
        (omega (arith, i, length-drop cursor source))
        ((omega (arith, c), i.0), All_imp _ _ order (λ y l. (omega (arith, l, i, c), l.1)) h) in
    let first =
      woven-first (end - start) (drop start source) x order (omega (arith, i))
        (omega (arith, i, length-drop start source)) h in
    let at : cursor + (start - cursor) ≡ start = omega arith in
    skipped
    ∙ ap
        (λ p.
          slice source cursor start
          ++ woven p (drop (start - cursor) (drop cursor source)) (x ∷ order))
        at
    ∙ ap (λ bs. slice source cursor start ++ woven start bs (x ∷ order))
        (drop_to cursor start source c)
    ∙ ap (λ ys. slice source cursor start ++ ys) first
    ∙ ap
        (λ bs.
          slice source cursor start
          ++ (x.1.prefix ++ (slice source start end ++ (x.1.suffix ++ woven end bs order))))
        (drop_to start end source i.0)

-- The loop gives the woven text.
pub splice-woven :
    (source : List ℕ) (order : List Indexed) (cursor : ℕ) (out : List ℕ)
    → cursor ≤ length source
    → All (λ x. InSource (length source) x.1) order
    → Pairwise Before order
    → All (λ x. cursor ≤ x.1.span_start) order
    → splice source order cursor out ≡ some (out ++ woven cursor (drop cursor source) order)
unfolding splice
splice-woven source [] cursor out l i p h =
    let whole = range-some source cursor (length source) l (omega arith) in
    rw (whole, splice)
      (ap (λ ys. some (out ++ ys))
        (take_all (length source - cursor) (drop cursor source) (sym (length-drop cursor source))
          ∙ sym (woven_all cursor (drop cursor source))))
splice-woven source ((index, repair) ∷ order) cursor out l i p h =
    let kept = range-some source cursor repair.span_start h.0 (omega (arith, i.0)) in
    let inside = range-some source repair.span_start repair.span_end i.0.0 i.0.1 in
    let later = both (length source) repair.span_end order p.0 i.1 in
    rw (kept, splice)
      (rw (inside, splice)
        (splice-woven source order repair.span_end _ i.0.1 i.1 p.1 p.0
          ∙ ap some (
              five out (slice source cursor repair.span_start) repair.prefix
                (slice source repair.span_start repair.span_end) repair.suffix _
              ∙ ap (λ ys. out ++ ys)
                  (sym (woven-step source cursor (index, repair) order h.0 i.0 later)))))
