-- ===== src/Prelude/Lists.antt =====
-- Lists measured by native numbers, under the library's names, and predicates over a list.
use Prim.Native.Nat.{ℕ, zero, suc, ◌+◌}
use mathlib.Core.Path.{◌≡◌, refl, ap, ◌∙◌}
use mathlib.Core.List.{List, [], ◌∷◌, ◌++◌, reverse, reverse-cons}
use native.Mathlib.Omega.{arith}

module _ {ℓ} {A : Type ℓ} where
  abbrev pub length : List A → ℕ
  length [] = 0
  length (x ∷ xs) = suc (length xs)

  pub length-append : (xs ys : List A) → length (xs ++ ys) ≡ length xs + length ys
  length-append [] ys = omega arith
  length-append (x ∷ xs) ys = omega (arith, length-append xs ys)

module _ {ℓ} {A : Type ℓ} where
  abbrev pub replicate : ℕ → A → List A
  replicate zero a = []
  replicate (suc n) a = a ∷ replicate n a

  replicate-append_comm : (n : ℕ) (a : A) → replicate n a ++ a ∷ [] ≡ a ∷ replicate n a
  replicate-append_comm zero a = refl
  replicate-append_comm (suc n) a = ap (◌∷◌ a) (replicate-append_comm n a)

  pub reverse-replicate : (n : ℕ) (a : A) → reverse (replicate n a) ≡ replicate n a
  reverse-replicate zero a = refl
  reverse-replicate (suc n) a =
      reverse-cons a (replicate n a)
      ∙ ap (λ xs. xs ++ a ∷ []) (reverse-replicate n a)
      ∙ replicate-append_comm n a

-- A predicate by recursion computes to tuples, which the tactics read and build.
abbrev pub All {ℓ κ} : {A : Type ℓ} → (A → Type κ) → List A → Type κ
All P [] = Unit
All P (x ∷ xs) = P x × All P xs

module _ {ℓ} {A : Type ℓ} (weight : A → ℕ) where
  -- The sum of the elements' weights.
  abbrev pub total : List A → ℕ
  total [] = 0
  total (x ∷ xs) = weight x + total xs

  pub total-post : (xs : List A) (x : A) → total (xs ++ x ∷ []) ≡ total xs + weight x
  total-post [] x = omega arith
  total-post (y ∷ xs) x = omega (arith, total-post xs x)

  pub total-middle :
      (xs : List A) (x : A) (ys : List A) → total (xs ++ x ∷ ys) ≡ total (xs ++ ys) + weight x
  total-middle [] x ys = omega arith
  total-middle (y ∷ xs) x ys = omega (arith, total-middle xs x ys)
