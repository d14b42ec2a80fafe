-- ===== src/Facts/Build/Texts.antt =====
-- What appending to the strings of crates/zag-facts/src/build.rs does to the texts.
use zag.Prelude.{
  ℕ, zero, suc, ◌+◌, ◌-◌, ◌<◌, ◌≤◌, ◌≡◌, refl, sym, ap, ◌∙◌, List, [], ◌∷◌, ◌++◌, arith, length,
  length-append, get_or, take, drop, AscendsFrom, as_u32, u32_sub, u32_mod,
}
use mathlib.Core.Path.{subst}
use zag.Facts.Handles.{StringId}
use zag.Facts.Tables.{Strings}
use zag.Facts.Access.{string_count, string_bytes, slice}
use zag.Facts.Validate.Checks.{last_of}
use zag.Facts.Validate.Loops.{Covers, AscendsFrom-le-last}
use zag.Facts.Wire.Reads.{drop-append}
use zag.Facts.Build.{last_id}
use zag.Facts.Build.Strings.{push_string}

get_or-append_lt : (xs ys : List ℕ) (i : ℕ) → i < length xs → get_or (xs ++ ys) i 0 ≡ get_or xs i 0
get_or-append_lt [] ys i h = absurd (omega arith)
get_or-append_lt (x ∷ xs) ys zero h = refl
get_or-append_lt (x ∷ xs) ys (suc i) h = get_or-append_lt xs ys i (omega arith)

get_or-append_at : (xs : List ℕ) (y : ℕ) (i : ℕ) → i ≡ length xs → get_or (xs ++ y ∷ []) i 0 ≡ y
get_or-append_at [] y zero h = refl
get_or-append_at [] y (suc i) h = absurd (omega arith)
get_or-append_at (x ∷ xs) y zero h = absurd (omega arith)
get_or-append_at (x ∷ xs) y (suc i) h = get_or-append_at xs y i (omega arith)

take-append_le : (n : ℕ) (xs ys : List ℕ) → n ≤ length xs → take n (xs ++ ys) ≡ take n xs
take-append_le zero xs ys h = refl
take-append_le (suc n) [] ys h = absurd (omega arith)
take-append_le (suc n) (x ∷ xs) ys h = ap (λ zs. x ∷ zs) (take-append_le n xs ys (omega arith))

-- A slice of the old bytes is one of the new.
slice-append :
    (start n : ℕ) (xs ys : List ℕ)
    → start + n ≤ length xs
    → take n (drop start (xs ++ ys)) ≡ take n (drop start xs)
slice-append zero n xs ys h = take-append_le n xs ys (omega arith)
slice-append (suc start) n [] ys h = absurd (omega arith)
slice-append (suc start) n (x ∷ xs) ys h = slice-append start n xs ys (omega arith)

pub take_all : (n : ℕ) (xs : List ℕ) → n ≡ length xs → take n xs ≡ xs
take_all zero [] h = refl
take_all zero (x ∷ xs) h = absurd (omega arith)
take_all (suc n) [] h = refl
take_all (suc n) (x ∷ xs) h = ap (λ ys. x ∷ ys) (take_all n xs (omega arith))

-- The offsets behind the first, up to an index.
offsets_ascend :
    (first : ℕ) (rest : List ℕ) (i : ℕ)
    → AscendsFrom first rest
    → i < length rest
    → (get_or (first ∷ rest) i 0 ≤ get_or rest i 0) × (get_or rest i 0 ≤ last_of first rest)
offsets_ascend first [] i h l = absurd (omega arith)
offsets_ascend first (x ∷ rest) zero h l = (h.0, AscendsFrom-le-last x rest h.1)
offsets_ascend first (x ∷ rest) (suc i) h l = offsets_ascend x rest i h.1 (omega arith)

offsets_end :
    (first : ℕ) (rest : List ℕ) → get_or (first ∷ rest) (length rest) 0 ≡ last_of first rest
offsets_end first [] = refl
offsets_end first (x ∷ rest) = offsets_end x rest

AscendsFrom-push :
    (first x : ℕ) (rest : List ℕ)
    → AscendsFrom first rest
    → last_of first rest ≤ x
    → AscendsFrom first (rest ++ x ∷ []) × (last_of first (rest ++ x ∷ []) ≡ x)
AscendsFrom-push first x [] h l = ((l, tt), refl)
AscendsFrom-push first x (y ∷ rest) h l =
    let later = AscendsFrom-push y x rest h.1 l in ((h.0, later.0), later.1)

-- A text where the offsets are in order and within the bytes.
string_bytes-slice :
    (bytes offsets : List ℕ) (id : ℕ)
    → id + 1 < length offsets
    → get_or offsets id 0 ≤ get_or offsets (id + 1) 0
    → get_or offsets (id + 1) 0 ≤ length bytes
    → string_bytes (record { bytes = bytes; offsets = offsets }) id
      ≡ slice bytes (get_or offsets id 0) (get_or offsets (id + 1) 0)
unfolding string_bytes
string_bytes-slice bytes offsets id h l m = ground arith

-- What appending a text does: it has the next handle, and the other texts are as they were.
pub record Appends (strings : Strings) (text : List ℕ) (result : Strings × StringId) : Type 0 where
  pub handle : result.1 ≡ string_count strings
  pub count : string_count result.0 ≡ string_count strings + 1
  pub written : string_bytes result.0 result.1 ≡ text
  pub others :
      (id : ℕ) → id < string_count strings → string_bytes result.0 id ≡ string_bytes strings id
  pub covers : Covers result.0.offsets result.0.bytes

last_id-lem : (n : ℕ) → suc n < u32_mod → last_id (suc n) ≡ n
unfolding as_u32 u32_sub
last_id-lem n h = omega arith

-- The strings after the append, written with their offsets.
appended : List ℕ → ℕ → List ℕ → List ℕ → Strings
appended bytes first rest text = record {
  bytes = bytes ++ text;
  offsets = first ∷ (rest ++ (length bytes + length text) ∷ []);
}

appended-written :
    (bytes : List ℕ) (first : ℕ) (rest text : List ℕ)
    → last_of first rest ≡ length bytes
    → string_bytes (appended bytes first rest text) (length rest) ≡ text
unfolding appended
appended-written bytes first rest text e =
    let size = length bytes + length text in
    let offsets = first ∷ (rest ++ size ∷ []) in
    let start : get_or offsets (length rest) 0 ≡ length bytes =
      get_or-append_lt (first ∷ rest) (size ∷ []) (length rest) (omega arith)
      ∙ offsets_end first rest
      ∙ e in
    let end : get_or offsets (length rest + 1) 0 ≡ size =
      get_or-append_at (first ∷ rest) size (length rest + 1) (omega arith) in
    string_bytes-slice (bytes ++ text) offsets (length rest)
      (omega (arith, length-append rest (size ∷ []))) (omega (arith, start, end))
      (omega (arith, end, length-append bytes text))
    ∙ rw (start, end)
        (ap (take (size - length bytes)) (drop-append bytes text) ∙ take_all _ text (omega arith))

appended-others :
    (bytes : List ℕ) (first : ℕ) (rest text : List ℕ) (id : ℕ)
    → AscendsFrom first rest
    → last_of first rest ≡ length bytes
    → id < length rest
    → string_bytes (appended bytes first rest text) id
      ≡ string_bytes (record { bytes = bytes; offsets = first ∷ rest }) id
unfolding appended
appended-others bytes first rest text id h e l =
    let size = length bytes + length text in
    let offsets = first ∷ (rest ++ size ∷ []) in
    let start = get_or-append_lt (first ∷ rest) (size ∷ []) id (omega arith) in
    let end = get_or-append_lt (first ∷ rest) (size ∷ []) (id + 1) (omega arith) in
    let order = offsets_ascend first rest id h l in
    let next : get_or (first ∷ rest) (id + 1) 0 ≡ get_or rest id 0 =
      ap (λ i. get_or (first ∷ rest) i 0) {x = id + 1} {y = suc id} (omega arith) in
    string_bytes-slice (bytes ++ text) offsets id (omega (arith, length-append rest (size ∷ [])))
      (omega (arith, start, end, order, next))
      (omega (arith, end, order, next, e, length-append bytes text))
    ∙ rw (start, end) (slice-append _ _ bytes text (omega (arith, order, next, e)))
    ∙ sym (
        string_bytes-slice bytes (first ∷ rest) id (omega arith) (omega (arith, order, next))
          (omega (arith, order, next, e)))

-- The append where there is a first offset.
push_string-begun :
    (bytes : List ℕ) (first : ℕ) (rest text : List ℕ)
    → length bytes + length text < u32_mod
    → length rest + 2 < u32_mod
    → push_string (record { bytes = bytes; offsets = first ∷ rest }) text
      ≡ (appended bytes first rest text, length rest)
unfolding push_string appended string_count as_u32
push_string-begun bytes first rest text small few =
    let offsets : ℕ → List ℕ = λ size. first ∷ (rest ++ size ∷ []) in
    let size : as_u32 (length (bytes ++ text)) ≡ length bytes + length text =
      omega (arith, length-append bytes text) in
    let count : length (offsets (length bytes + length text)) - 1 ≡ suc (length rest) =
      omega (arith, length-append rest ((length bytes + length text) ∷ [])) in
    ap
      (λ n.
        (record { bytes = bytes ++ text; offsets = offsets n }, last_id (length (offsets n) - 1)))
      size
    ∙ ap (λ id. (appended bytes first rest text, id))
        (ap last_id count ∙ last_id-lem (length rest) (omega arith))

AppendsTo : Strings → List ℕ → Type 0
AppendsTo strings text = Appends strings text (push_string strings text)

push_string-AppendsTo :
    (bytes : List ℕ) (first : ℕ) (rest text : List ℕ)
    → Covers (first ∷ rest) bytes
    → length bytes + length text < u32_mod
    → length rest + 2 < u32_mod
    → AppendsTo (record { bytes = bytes; offsets = first ∷ rest }) text
unfolding AppendsTo appended string_count
push_string-AppendsTo bytes first rest text c small few =
    let ordered =
      AscendsFrom-push first (length bytes + length text) rest c.1 (omega (arith, c.2)) in
    subst (Appends (record { bytes = bytes; offsets = first ∷ rest }) text)
      (sym (push_string-begun bytes first rest text small few))
      (record {
        handle = omega arith;
        count = omega (arith, length-append rest ((length bytes + length text) ∷ []));
        written = appended-written bytes first rest text c.2;
        others = λ id l. appended-others bytes first rest text id c.1 c.2 (omega (arith, l));
        covers = (c.0, ordered.0, ordered.1 ∙ sym (length-append bytes text));
      })

-- The first append to strings without offsets is the append where the first offset is 0.
append_first :
    (bytes offsets text : List ℕ)
    → Covers offsets bytes
    → length bytes + length text < u32_mod
    → length offsets + 2 < u32_mod
    → AppendsTo (record { bytes = bytes; offsets = offsets }) text
unfolding AppendsTo push_string string_count
append_first bytes [] text c small few =
    let after = push_string-AppendsTo bytes 0 [] text (refl, tt, sym c) small (omega arith) in
    record {
      handle = after.handle;
      count = after.count;
      written = after.written;
      others = λ id l. absurd (omega (arith, l));
      covers = after.covers;
    }
append_first bytes (first ∷ rest) text c small few =
    push_string-AppendsTo bytes first rest text c small (omega (arith, few))

-- Appending a text to valid strings gives it the next handle, under which it is read back, and every
-- other text stays, where the bytes and the offsets fit a `u32`.
pub push_string-Appends :
    (strings : Strings) (text : List ℕ)
    → Covers strings.offsets strings.bytes
    → length strings.bytes + length text < u32_mod
    → length strings.offsets + 2 < u32_mod
    → Appends strings text (push_string strings text)
unfolding AppendsTo
push_string-Appends strings text = append_first strings.bytes strings.offsets text
