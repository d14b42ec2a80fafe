-- ===== src/Facts/Build/Interned.antt =====
-- What `intern` in crates/zag-facts/src/build.rs promises: a text is there once.
use zag.Prelude.{
  ℕ, zero, suc, ◌+◌, ◌<◌, ◌≤◌, ◌≡◌, ◌≢◌, ◌↔◌, ◌⊎◌, inl, inr, refl, sym, ap, ◌∙◌, true, false, List,
  [], ◌∷◌, arith, length, as_u32, u32_mod, Bool-cases, ℕ_discrete, as_u32-eq_of_lt,
}
use mathlib.Core.Path.{subst}
use zag.Facts.Handles.{StringId}
use zag.Facts.Tables.{Strings}
use zag.Facts.Access.{string_count, string_bytes}
use zag.Facts.Validate.Loops.{Covers}
use zag.Facts.Wire.Decode.{same_bytes}
use zag.Facts.Build.Strings.{push_string, intern_from, intern}
use zag.Facts.Build.Texts.{Appends, push_string-Appends}

same_bytes_iff : (xs ys : List ℕ) → (same_bytes xs ys ≡ true) ↔ (xs ≡ ys)
same_bytes_iff [] [] = (λ h. refl, λ h. refl)
same_bytes_iff [] (y ∷ ys) = (λ h. absurd (cc h), λ h. absurd (cc h))
same_bytes_iff (x ∷ xs) [] = (λ h. absurd (cc h), λ h. absurd (cc h))
same_bytes_iff (x ∷ xs) (y ∷ ys) =
    let rest = same_bytes_iff xs ys in (λ h. ground (arith, rest), λ h. ground (arith, rest))

-- No text from an index on, up to an end, is this one.
Lacks : Strings → List ℕ → ℕ → ℕ → Type 0
Lacks strings text from to = (id : ℕ) → from ≤ id → id < to → string_bytes strings id ≢ text

-- What the loop finds from an index on: the first such text, or none.
data Finds (strings : Strings) (text : List ℕ) (from : ℕ) : Strings × StringId → Type 0 where
  found :
      (id : ℕ)
      → from ≤ id
      → id < string_count strings
      → string_bytes strings id ≡ text
      → Lacks strings text from id
      → Finds strings text from (strings, id)
  absent :
      Lacks strings text from (string_count strings)
      → Finds strings text from (push_string strings text)

-- What is found behind a text that differs.
Finds-skip :
    (strings : Strings) (text : List ℕ) (index : ℕ) (result : Strings × StringId)
    → string_bytes strings index ≢ text
    → Finds strings text (index + 1) result
    → Finds strings text index result
unfolding Lacks
Finds-skip strings text index _ differs (found id low high same lacks) =
    found id (omega arith) high same (λ j l m. elim (ℕ_discrete index j) [
      | yes e ↦ subst (λ k. string_bytes strings k ≢ text) e differs
      | no ne ↦ lacks j (omega arith) m
    ])
Finds-skip strings text index _ differs (absent lacks) = absent (λ j l m.
    elim (ℕ_discrete index j) [
      | yes e ↦ subst (λ k. string_bytes strings k ≢ text) e differs
      | no ne ↦ lacks j (omega arith) m
    ])

intern_from-Finds :
    (left index : ℕ) (strings : Strings) (text : List ℕ)
    → index + left ≡ string_count strings
    → string_count strings < u32_mod
    → Finds strings text index (intern_from left index strings text)
unfolding intern_from Lacks
intern_from-Finds zero index strings text e small = absent (λ id l m. absurd (omega arith))
intern_from-Finds (suc left) index strings text e small =
    let at : as_u32 index ≡ index = as_u32-eq_of_lt index (omega arith) in
    elim (Bool-cases (same_bytes (string_bytes strings index) text)) [
      | inl same ↦
          rw (at, intern_from)
            (rw (same, intern_from)
              (found index (omega arith) (omega arith) ((same_bytes_iff _ text).0 same)
                (λ id l m. absurd (omega arith))))
      | inr differs ↦
          rw (at, intern_from)
            (rw (differs, intern_from)
              (Finds-skip strings text index _ (λ q. cc (sym differs ∙ (same_bytes_iff _ text).1 q))
                (intern_from-Finds left (index + 1) strings text (omega arith) small)))
    ]

-- The loop finds what is found.
Finds-intern_from :
    (left index : ℕ) (strings : Strings) (text : List ℕ) (id : ℕ)
    → index + left ≡ string_count strings
    → string_count strings < u32_mod
    → index ≤ id
    → id < string_count strings
    → string_bytes strings id ≡ text
    → Lacks strings text index id
    → intern_from left index strings text ≡ (strings, id)
unfolding intern_from Lacks
Finds-intern_from zero index strings text id e small low high same lacks = absurd (omega arith)
Finds-intern_from (suc left) index strings text id e small low high same lacks =
    let at : as_u32 index ≡ index = as_u32-eq_of_lt index (omega arith) in
    elim (ℕ_discrete index id) [
      | yes here ↦
          let hit : same_bytes (string_bytes strings index) text ≡ true =
            (same_bytes_iff _ text).1 (ap (string_bytes strings) here ∙ same) in
          rw (at, intern_from) (rw (hit, intern_from) (ap (λ k. (strings, k)) here))
      | no ne ↦
          let miss : same_bytes (string_bytes strings index) text ≡ false =
            ground (arith, lacks index, same_bytes_iff (string_bytes strings index) text) in
          rw (at, intern_from)
            (rw (miss, intern_from)
              (Finds-intern_from left (index + 1) strings text id (omega arith) small (omega arith)
                high same (λ j l m. lacks j (omega arith) m)))
    ]

-- No text is there twice.
abbrev pub IsDistinct : Strings → Type 0
IsDistinct strings =
    (i j : ℕ)
    → i < string_count strings
    → j < string_count strings
    → string_bytes strings i ≡ string_bytes strings j
    → i ≡ j

-- The handle reads back as the text, the other texts are as they were, no text is there twice if
-- none was, and the same text has the same handle from now on.
pub record Interned (strings : Strings) (text : List ℕ) (result : Strings × StringId) : Type 0 where
  pub inside : result.1 < string_count result.0
  pub written : string_bytes result.0 result.1 ≡ text
  pub others :
      (id : ℕ) → id < string_count strings → string_bytes result.0 id ≡ string_bytes strings id
  pub covers : Covers result.0.offsets result.0.bytes
  pub distinct : IsDistinct strings → IsDistinct result.0
  pub again : intern result.0 text ≡ result

Appends-IsDistinct :
    (strings : Strings) (text : List ℕ) (result : Strings × StringId)
    → Appends strings text result
    → Lacks strings text 0 (string_count strings)
    → IsDistinct strings
    → IsDistinct result.0
unfolding Lacks
Appends-IsDistinct strings text result a lacks distinct i j li lj same =
    let old : (k : ℕ) → k < string_count result.0 → (k ≡ result.1) ⊎ (k < string_count strings) =
      λ k l. elim (ℕ_discrete k result.1) [
        | yes e ↦ inl e
        | no ne ↦ inr (omega (arith, a.handle, a.count, l))
      ] in
    elim (old i li) [
      | inl ei ↦ elim (old j lj) [
        | inl ej ↦ ei ∙ sym ej
        | inr oj ↦ absurd (
            lacks j (omega arith) oj
              (sym (a.others j oj) ∙ sym same ∙ ap (string_bytes result.0) ei ∙ a.written))
      ]
      | inr oi ↦ elim (old j lj) [
        | inl ej ↦ absurd (
            lacks i (omega arith) oi
              (sym (a.others i oi) ∙ same ∙ ap (string_bytes result.0) ej ∙ a.written))
        | inr oj ↦ distinct i j oi oj (sym (a.others i oi) ∙ same ∙ a.others j oj)
      ]
    ]

Finds-Interned :
    (strings : Strings) (text : List ℕ) (result : Strings × StringId)
    → Covers strings.offsets strings.bytes
    → length strings.bytes + length text < u32_mod
    → length strings.offsets + 2 < u32_mod
    → string_count strings + 1 < u32_mod
    → Finds strings text 0 result
    → Interned strings text result
unfolding intern Lacks
Finds-Interned strings text _ c small few fits (found id low high same lacks) = record {
  inside = high;
  written = same;
  others = λ i l. refl;
  covers = c;
  distinct = λ d. d;
  again =
      Finds-intern_from (string_count strings) 0 strings text id (omega arith) (omega arith) low
        high same lacks;
}
Finds-Interned strings text _ c small few fits (absent lacks) =
    let a = push_string-Appends strings text c small few in
    let (after, id) = push_string strings text in
    record {
      inside = omega (arith, a.handle, a.count);
      written = a.written;
      others = a.others;
      covers = a.covers;
      distinct = Appends-IsDistinct strings text (push_string strings text) a lacks;
      again =
          Finds-intern_from (string_count after) 0 after text id (omega arith)
            (omega (arith, a.count)) (omega arith) (omega (arith, a.handle, a.count)) a.written
            (λ j l m.
              let old : j < string_count strings = omega (arith, a.handle, m) in
              λ q. lacks j l old (sym (a.others j old) ∙ q));
    }

-- Interning a text in valid strings with room for one more gives a handle inside the strings that
-- reads back as the text, leaves the other texts and the validity as they were, puts no text there
-- twice if none was, and gives the same handle again.
pub intern-Interned :
    (strings : Strings) (text : List ℕ)
    → Covers strings.offsets strings.bytes
    → length strings.bytes + length text < u32_mod
    → length strings.offsets + 2 < u32_mod
    → Interned strings text (intern strings text)
unfolding intern string_count
intern-Interned strings text c small few =
    let fits : string_count strings + 1 < u32_mod = omega arith in
    Finds-Interned strings text (intern strings text) c small few fits
      (intern_from-Finds (string_count strings) 0 strings text (omega arith) (omega arith))
