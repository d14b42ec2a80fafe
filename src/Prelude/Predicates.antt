-- ===== src/Prelude/Predicates.antt =====
-- Predicates on lists by recursion, which compute to tuples and sums.
use Prim.Native.Nat.{ℕ, ◌+◌, ◌≤◌}
use mathlib.Core.Path.{◌≡◌}
use native.Mathlib.Omega.{arith}
use mathlib.Core.Logic.{◌⊎◌, inl, inr}
use mathlib.Core.List.{List, [], ◌∷◌, ◌++◌}

module _ {ℓ κ} {A : Type ℓ} where
  abbrev pub All : (A → Type κ) → List A → Type κ
  All P [] = Unit
  All P (x ∷ xs) = P x × All P xs

  pub All-append : (P : A → Type κ) (xs ys : List A) → All P xs → All P ys → All P (xs ++ ys)
  All-append P [] ys h k = k
  All-append P (x ∷ xs) ys h k = (h.0, All-append P xs ys h.1 k)

  pub All_imp : (P Q : A → Type κ) (xs : List A) → ((x : A) → P x → Q x) → All P xs → All Q xs
  All_imp P Q [] f h = h
  All_imp P Q (x ∷ xs) f h = (f x h.0, All_imp P Q xs f h.1)

module _ {ℓ} {A : Type ℓ} where
  abbrev pub Any : (A → Type 0) → List A → Type 0
  Any P [] = ⊥
  Any P (x ∷ xs) = P x ⊎ Any P xs

  pub Any-append_left : (P : A → Type 0) (xs ys : List A) → Any P xs → Any P (xs ++ ys)
  Any-append_left P [] ys h = absurd h
  Any-append_left P (x ∷ xs) ys (inl h) = inl h
  Any-append_left P (x ∷ xs) ys (inr h) = inr (Any-append_left P xs ys h)

  pub Any-append_right : (P : A → Type 0) (xs ys : List A) → Any P ys → Any P (xs ++ ys)
  Any-append_right P [] ys h = h
  Any-append_right P (x ∷ xs) ys h = inr (Any-append_right P xs ys h)

-- The ranges, as their starts and their counts, follow one another from the first index to the end.
abbrev pub Follow : ℕ → List ℕ → List ℕ → ℕ → Type 0
Follow from [] [] end = from ≡ end
Follow from (start ∷ starts) (count ∷ counts) end =
    (start ≡ from) × Follow (from + count) starts counts end
Follow from _ _ end = ⊥

pub Follow-le :
    (from : ℕ) (starts counts : List ℕ) (end : ℕ) → Follow from starts counts end → from ≤ end
Follow-le from [] [] end h = omega arith
Follow-le from (start ∷ starts) (count ∷ counts) end h =
    omega (arith, Follow-le (from + count) starts counts end h.1)
Follow-le from [] (count ∷ counts) end h = absurd h
Follow-le from (start ∷ starts) [] end h = absurd h

-- Each value is at least the one before it, from `least` on.
abbrev pub AscendsFrom : ℕ → List ℕ → Type 0
AscendsFrom least [] = Unit
AscendsFrom least (x ∷ xs) = (least ≤ x) × AscendsFrom x xs
