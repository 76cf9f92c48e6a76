-- ===== src/Prelude/Lists.antt =====
-- Lists measured by native numbers, under the library's names.
use Prim.Native.Nat.{ℕ, zero, suc, ◌+◌, ◌≤◌}
use mathlib.Core.Path.{◌≡◌}
use mathlib.Core.Logic.{◌⊎◌, inr}
use mathlib.Core.Option.{Option, none, some}
use mathlib.Core.List.{List, [], ◌∷◌, ◌++◌}
use native.Mathlib.Omega.{arith}

module _ {ℓ} {A : Type ℓ} where
  abbrev pub length : List A → ℕ
  length [] = 0
  length (x ∷ xs) = suc (length xs)

  abbrev pub take : ℕ → List A → List A
  take zero xs = []
  take (suc n) [] = []
  take (suc n) (x ∷ xs) = x ∷ take n xs

  abbrev pub drop : ℕ → List A → List A
  drop zero xs = xs
  drop (suc n) [] = []
  drop (suc n) (x ∷ xs) = drop n xs

  abbrev pub replicate : ℕ → A → List A
  replicate zero a = []
  replicate (suc n) a = a ∷ replicate n a

  pub length-append : (xs ys : List A) → length (xs ++ ys) ≡ length xs + length ys
  length-append [] ys = omega arith
  length-append (x ∷ xs) ys = omega (arith, length-append xs ys)

  pub length-take : (n : ℕ) (xs : List A) → length (take n xs) ≤ n
  length-take zero xs = omega arith
  length-take (suc n) [] = omega arith
  length-take (suc n) (x ∷ xs) = omega (arith, length-take n xs)

  abbrev pub get_elem? : List A → ℕ → Option A
  get_elem? [] i = none
  get_elem? (x ∷ xs) zero = some x
  get_elem? (x ∷ xs) (suc i) = get_elem? xs i

  abbrev pub set : List A → ℕ → A → List A
  set [] i a = []
  set (x ∷ xs) zero a = a ∷ xs
  set (x ∷ xs) (suc i) a = x ∷ set xs i a

  pub get_elem?-set :
      (xs : List A) (i j : ℕ) (a b : A)
      → get_elem? (set xs i a) j ≡ some b
      → (b ≡ a) ⊎ (get_elem? xs j ≡ some b)
  get_elem?-set [] i j a b h = inr h
  get_elem?-set (x ∷ xs) zero zero a b h = ground arith
  get_elem?-set (x ∷ xs) zero (suc j) a b h = inr h
  get_elem?-set (x ∷ xs) (suc i) zero a b h = inr h
  get_elem?-set (x ∷ xs) (suc i) (suc j) a b h = get_elem?-set xs i j a b h

  pub get_elem?-append :
      (xs : List A) (a : A) (j : ℕ) (b : A)
      → get_elem? (xs ++ a ∷ []) j ≡ some b
      → (b ≡ a) ⊎ (get_elem? xs j ≡ some b)
  get_elem?-append [] a zero b h = ground arith
  get_elem?-append [] a (suc j) b h = inr h
  get_elem?-append (x ∷ xs) a zero b h = inr h
  get_elem?-append (x ∷ xs) a (suc j) b h = get_elem?-append xs a j b h

  -- The sum of a weight over a list.
  module _ (weight : A → ℕ) where
    abbrev pub total : List A → ℕ
    total [] = 0
    total (x ∷ xs) = weight x + total xs

    pub total-append : (xs : List A) (a : A) → total (xs ++ a ∷ []) ≡ total xs + weight a
    total-append [] a = omega arith
    total-append (x ∷ xs) a = omega (arith, total-append xs a)

    pub total-set :
        (xs : List A) (i : ℕ) (a b : A)
        → get_elem? xs i ≡ some b
        → total (set xs i a) + weight b ≡ total xs + weight a
    total-set [] i a b h = ground arith
    total-set (x ∷ xs) zero a b h = ground arith
    total-set (x ∷ xs) (suc i) a b h = omega (arith, total-set xs i a b h)
