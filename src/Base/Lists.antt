-- ===== src/Base/Lists.antt =====
-- Lists measured by native numbers, and membership as a test.
use Prim.Native.Nat.{ℕ, zero, suc, ◌+◌}
use mathlib.Core.Path.{◌≡◌, refl}
use mathlib.Core.Bool.{Bool, false, ◌||◌}
use mathlib.Core.List.{List, [], ◌∷◌, ◌++◌}
use native.Mathlib.Omega.{arith}
use spatial_server.Base.Tests.{Key, ◌==◌, if◌then◌else◌}

module _ {ℓ} {A : Type ℓ} where
  abbrev pub length : List A → ℕ
  length [] = 0
  length (x ∷ xs) = suc (length xs)

  pub length-append : (xs ys : List A) → length (xs ++ ys) ≡ length xs + length ys
  length-append [] ys = omega arith
  length-append (x ∷ xs) ys = omega (arith, length-append xs ys)

abbrev pub All {ℓ κ} : {A : Type ℓ} → (A → Type κ) → List A → Type κ
All P [] = Unit
All P (x ∷ xs) = P x × All P xs

module _ {ℓ} {A : Type ℓ} ⦃e : Key A⦄ where
  unfoldable pub elem : A → List A → Bool
  elem a [] = false
  elem a (x ∷ xs) = (x == a) || elem a xs

  -- Deletes the first occurrence: the `append(ids[:i], ids[i+1:]...)` loop with its `break`.
  unfoldable pub remove_first : A → List A → List A
  remove_first a [] = []
  remove_first a (x ∷ xs) = if x == a then xs else x ∷ remove_first a xs

  -- No value occurs twice.
  abbrev pub Distinct : List A → Type 0
  Distinct [] = Unit
  Distinct (x ∷ xs) = (elem x xs ≡ false) × Distinct xs

  pub elem-append : (a : A) (xs ys : List A) → elem a (xs ++ ys) ≡ (elem a xs || elem a ys)
  unfolding elem
  elem-append a [] ys = refl
  elem-append a (x ∷ xs) ys = ground (arith, elem-append a xs ys)

  pub elem-append_one : (a b : A) (xs : List A) → elem a (xs ++ b ∷ []) ≡ (elem a xs || (b == a))
  unfolding elem
  elem-append_one a b [] = ground arith
  elem-append_one a b (x ∷ xs) = ground (arith, elem-append_one a b xs)

  pub elem-remove_first_ne :
      (a b : A) (xs : List A) → (a == b) ≡ false → elem b (remove_first a xs) ≡ elem b xs
  unfolding elem remove_first
  elem-remove_first_ne a b [] h = refl
  elem-remove_first_ne a b (x ∷ xs) h = ground (arith, elem-remove_first_ne a b xs)

  pub elem-remove_first_self :
      (a : A) (xs : List A) → Distinct xs → elem a (remove_first a xs) ≡ false
  unfolding elem remove_first
  elem-remove_first_self a [] h = refl
  elem-remove_first_self a (x ∷ xs) h = ground (arith, elem-remove_first_self a xs h.1)

  pub remove_first-Distinct : (a : A) (xs : List A) → Distinct xs → Distinct (remove_first a xs)
  unfolding elem remove_first
  remove_first-Distinct a [] h = tt
  remove_first-Distinct a (x ∷ xs) h =
      ground (arith, remove_first-Distinct a xs h.1, elem-remove_first_ne a x xs)

  pub append_one-Distinct :
      (a : A) (xs : List A) → elem a xs ≡ false → Distinct xs → Distinct (xs ++ a ∷ [])
  unfolding elem
  append_one-Distinct a [] h d = (refl, tt)
  append_one-Distinct a (x ∷ xs) h d =
      ground (arith, append_one-Distinct a xs, elem-append_one x a xs)

  pub remove_first_absent : (a : A) (xs : List A) → elem a xs ≡ false → remove_first a xs ≡ xs
  unfolding elem remove_first
  remove_first_absent a [] h = refl
  remove_first_absent a (x ∷ xs) h = ground (arith, remove_first_absent a xs)

  -- One lemma for every test of membership after a removal.
  pub elem-remove_first :
      (a b : A) (xs : List A)
      → Distinct xs
      → elem b (remove_first a xs) ≡ (if a == b then false else elem b xs)
  elem-remove_first a b xs d =
      ground (arith, elem-remove_first_self a xs d, elem-remove_first_ne a b xs)

module _ {ℓ} {A : Type ℓ} where
  abbrev pub take : ℕ → List A → List A
  take zero xs = []
  take (suc n) [] = []
  take (suc n) (x ∷ xs) = x ∷ take n xs

  abbrev pub drop : ℕ → List A → List A
  drop zero xs = xs
  drop (suc n) [] = []
  drop (suc n) (x ∷ xs) = drop n xs

  pub take-nil : (n : ℕ) → take n [] ≡ []
  take-nil zero = refl
  take-nil (suc n) = refl
