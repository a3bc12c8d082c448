-- ===== src/Base/Maps.antt =====
-- Go's maps as association lists: a write to a present key keeps its place, a `range` loop walks
-- the entries in the order of the list.
use mathlib.Core.Path.{◌≡◌, refl, subst₂}
use mathlib.Core.Logic.{inl, inr}
use mathlib.Core.Bool.{Bool, true, false, ◌||◌}
use mathlib.Core.List.{List, [], ◌∷◌}
use mathlib.Core.Option.{Option, none, some}
use native.Mathlib.Omega.{arith}
use spatial_server.Base.Tests.{Key, ◌==◌, Bool-cases, if◌then◌else◌}
use spatial_server.Base.Lists.{elem, Distinct}

abbrev pub Map {ℓ} : Type ℓ → Type ℓ → Type ℓ
Map K V = List (K × V)

module _ {ℓ} {K V : Type ℓ} ⦃e : Key K⦄ where
  unfoldable pub get : Map K V → K → Option V
  get [] k = none
  get ((j, v) ∷ m) k = if j == k then some v else get m k

  unfoldable pub put : Map K V → K → V → Map K V
  put [] k v = (k, v) ∷ []
  put ((j, w) ∷ m) k v = if j == k then (k, v) ∷ m else (j, w) ∷ put m k v

  -- `delete(m, k)`
  unfoldable pub delete : Map K V → K → Map K V
  delete [] k = []
  delete ((j, v) ∷ m) k = let rest = delete m k in if j == k then rest else (j, v) ∷ rest

  unfoldable pub keys : Map K V → List K
  keys [] = []
  keys ((j, v) ∷ m) = j ∷ keys m

  unfoldable pub has_key : Map K V → K → Bool
  unfolding get
  has_key m k = elim (get m k) [ none ↦ false | some _ ↦ true ]

  -- The loop that deletes every entry which fails the test.
  unfoldable pub retain : (K → V → Bool) → Map K V → Map K V
  retain keep [] = []
  retain keep ((j, v) ∷ m) =
      let rest = retain keep m in if keep j v then (j, v) ∷ delete rest j else delete rest j

  pub get-empty : (k : K) → get [] k ≡ none
  unfolding get
  get-empty k = refl

  pub get-put :
      (m : Map K V) (k j : K) (v : V) → get (put m k v) j ≡ (if k == j then some v else get m j)
  unfolding get put
  get-put [] k j v = refl
  get-put ((i, w) ∷ m) k j v = ground (arith, get-put m k j v)

  pub get-delete : (m : Map K V) (k j : K) → get (delete m k) j ≡ (if k == j then none else get m j)
  unfolding get delete
  get-delete [] k j = ground arith
  get-delete ((i, w) ∷ m) k j = ground (arith, get-delete m k j)

  -- What is left of a value after the test.
  abbrev pub kept : (K → V → Bool) → K → Option V → Option V
  kept keep k none = none
  kept keep k (some v) = if keep k v then some v else none

  pub get-retain :
      (keep : K → V → Bool) (m : Map K V) (k : K) → get (retain keep m) k ≡ kept keep k (get m k)
  unfolding get retain
  get-retain keep [] k = refl
  get-retain keep ((j, v) ∷ m) k =
      ground (arith, get-retain keep m k, get-delete (retain keep m) j k)

  -- A key is walked over exactly if the map holds it.
  pub elem-keys : (m : Map K V) (k : K) → elem k (keys m) ≡ has_key m k
  unfolding has_key elem keys get
  elem-keys [] k = refl
  elem-keys ((j, v) ∷ m) k = ground (arith, elem-keys m k)

  -- No key has two entries: the representation of every map that the operations build.
  abbrev pub NodupKeys : Map K V → Type 0
  NodupKeys m = Distinct (keys m)

  elem-keys-put :
      (m : Map K V) (k j : K) (v : V) → elem j (keys (put m k v)) ≡ ((k == j) || elem j (keys m))
  unfolding keys put elem
  elem-keys-put [] k j v = refl
  elem-keys-put ((i, w) ∷ m) k j v = ground (arith, elem-keys-put m k j v)

  elem-keys-delete :
      (m : Map K V) (k j : K)
      → elem j (keys (delete m k)) ≡ (if k == j then false else elem j (keys m))
  unfolding keys delete elem
  elem-keys-delete [] k j = ground arith
  elem-keys-delete ((i, w) ∷ m) k j = ground (arith, elem-keys-delete m k j)

  pub put-NodupKeys : (m : Map K V) (k : K) (v : V) → NodupKeys m → NodupKeys (put m k v)
  unfolding keys put elem
  put-NodupKeys [] k v h = (refl, tt)
  put-NodupKeys ((j, w) ∷ m) k v h = ground (arith, put-NodupKeys m k v h.1, elem-keys-put m k j v)

  pub delete-NodupKeys : (m : Map K V) (k : K) → NodupKeys m → NodupKeys (delete m k)
  unfolding keys delete elem
  delete-NodupKeys [] k h = tt
  delete-NodupKeys ((j, w) ∷ m) k h =
      ground (arith, delete-NodupKeys m k h.1, elem-keys-delete m k j)

  pub get-key_head : (j : K) (v : V) (m : Map K V) → get ((j, v) ∷ m) j ≡ some v
  unfolding get
  get-key_head j v m = ground arith

-- Every entry of the map satisfies `P`.
module _ {ℓ κ} {K V : Type ℓ} ⦃e : Key K⦄ (P : K → V → Type κ) where
  abbrev pub Entries : Map K V → Type κ
  Entries [] = Unit
  Entries ((k, v) ∷ m) = P k v × Entries m

  pub put-Entries : (m : Map K V) (k : K) (v : V) → P k v → Entries m → Entries (put m k v)
  unfolding put
  put-Entries [] k v p h = (p, tt)
  put-Entries ((j, w) ∷ m) k v p h = elim (Bool-cases (j == k)) [
    | inl same ↦ rw same (p, h.1)
    | inr other ↦ rw other (h.0, put-Entries m k v p h.1)
  ]

  pub delete-Entries : (m : Map K V) (k : K) → Entries m → Entries (delete m k)
  unfolding delete
  delete-Entries [] k h = tt
  delete-Entries ((j, w) ∷ m) k h = elim (Bool-cases (j == k)) [
    | inl same ↦ rw same (delete-Entries m k h.1)
    | inr other ↦ rw other (h.0, delete-Entries m k h.1)
  ]

  pub get-Entries : (m : Map K V) (k : K) (v : V) → Entries m → get m k ≡ some v → P k v
  unfolding get
  get-Entries [] k v h g = cc
  get-Entries ((j, w) ∷ m) k v h g = elim (e.dec j k) [
    | yes same ↦ subst₂ P same (ground arith) h.0
    | no other ↦ get-Entries m k v h.1 (ground arith)
  ]

pub Entries-weaken {ℓ κ} :
    {K V : Type ℓ} ⦃e : Key K⦄ (P Q : K → V → Type κ) (m : Map K V)
    → ((k : K) (v : V) → P k v → Q k v)
    → Entries P m
    → Entries Q m
Entries-weaken P Q [] f h = tt
Entries-weaken P Q ((k, v) ∷ m) f h = (f k v h.0, Entries-weaken P Q m f h.1)

pub ruleset map_laws = (get-empty, get-put, get-delete, get-retain)
