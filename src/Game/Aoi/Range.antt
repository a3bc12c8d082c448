-- ===== src/Game/Aoi/Range.antt =====
-- internal/game/aoi/aoi.go: `EntitiesInRange` against the search through all positions.
use native.Mathlib.Decide.{dec_le}
use spatial_server.Base.{
  ℕ, zero, suc, ◌+◌, ◌-◌, ◌*◌, ◌≤◌, ◌<◌, ◌≡◌, refl, Bool, true, false, ◌||◌, ◌&&◌, Option, none,
  some, List, [], ◌∷◌, ◌++◌, ◌==◌, string_key, elem, elem-append_one, get, arith, ℕ_discrete, ap,
  Option-cases, inl, inr, leb→le,
}
use spatial_server.Base.Int.{
  ℤ, pos, negsuc, int_key, ◌+ℤ◌, ◌-ℤ◌, sub_ℕ, floor_div, magnitude, Near, Near-floor_div, int_laws,
}
use spatial_server.Types.{EntityId, Vector3}
use spatial_server.Game.Aoi.{
  CellKey, cell_key, Aoi, cell_key_for, cell, offsets_from, offsets, collect, scan_column, scan,
  insert, sort, query, position_or_zero, within, filter_range, entities_in_range,
}
use spatial_server.Game.Aoi.Index.{IsIndexed}

elem-collect :
    (j : EntityId) (result ids : List EntityId)
    → elem j (collect result ids) ≡ (elem j result || elem j ids)
unfolding collect elem
elem-collect j result [] = ground arith
elem-collect j result (id ∷ ids) = ground (
  arith,
  elem-collect j result ids,
  elem-collect j (result ++ id ∷ []) ids,
  elem-append_one j id result,
)

elem-insert :
    (j id : EntityId) (ids : List EntityId) → elem j (insert id ids) ≡ ((id == j) || elem j ids)
unfolding insert elem
elem-insert j id [] = refl
elem-insert j id (k ∷ ids) = ground (arith, elem-insert j id ids)

elem-sort : (j : EntityId) (ids : List EntityId) → elem j (sort ids) ≡ elem j ids
unfolding sort elem
elem-sort j [] = refl
elem-sort j (id ∷ ids) = ground (arith, elem-insert j id (sort ids), elem-sort j ids)

elem-filter_range :
    (a : Aoi) (center : Vector3) (radius : ℕ) (j : EntityId) (ids : List EntityId)
    → elem j (filter_range a center radius ids)
      ≡ (elem j ids && within center radius (position_or_zero (get a.positions j)))
unfolding filter_range elem
elem-filter_range a center radius j [] = refl
elem-filter_range a center radius j (id ∷ ids) =
    ground (arith, elem-filter_range a center radius j ids)

module _ (a : Aoi) (center : CellKey) (j : EntityId) where
  abbrev at : ℤ → ℤ → List EntityId
  at dx dy = cell a.cells (record { x = center.x +ℤ dx; y = center.y +ℤ dy })

  in_column : ℤ → List ℤ → Bool
  in_column dx [] = false
  in_column dx (dy ∷ dys) = elem j (at dx dy) || in_column dx dys

  in_grid : List ℤ → Bool
  in_grid [] = false
  in_grid (dx ∷ dxs) = in_column dx (offsets a.cell_range) || in_grid dxs

  elem-scan_column :
      (dx : ℤ) (result : List EntityId) (dys : List ℤ)
      → elem j (scan_column a center dx result dys) ≡ (elem j result || in_column dx dys)
  unfolding scan_column in_column
  elem-scan_column dx result [] = ground arith
  elem-scan_column dx result (dy ∷ dys) =
      ground (
        arith,
        elem-scan_column dx (collect result (at dx dy)) dys,
        elem-collect j result (at dx dy),
      )

  elem-scan :
      (result : List EntityId) (dxs : List ℤ)
      → elem j (scan a center result dxs) ≡ (elem j result || in_grid dxs)
  unfolding scan in_grid
  elem-scan result [] = ground arith
  elem-scan result (dx ∷ dxs) = ground (
    arith,
    elem-scan (scan_column a center dx result (offsets a.cell_range)) dxs,
    elem-scan_column dx result (offsets a.cell_range),
  )

  in_column_absent :
      ((key : CellKey) → elem j (cell a.cells key) ≡ false)
      → (dx : ℤ) (dys : List ℤ) → in_column dx dys ≡ false
  unfolding in_column
  in_column_absent h dx [] = refl
  in_column_absent h dx (dy ∷ dys) =
      ground
        (arith, in_column_absent h dx dys, h (record { x = center.x +ℤ dx; y = center.y +ℤ dy }))

  in_grid_absent :
      ((key : CellKey) → elem j (cell a.cells key) ≡ false) → (dxs : List ℤ) → in_grid dxs ≡ false
  unfolding in_grid
  in_grid_absent h [] = refl
  in_grid_absent h (dx ∷ dxs) =
      ground (arith, in_grid_absent h dxs, in_column_absent h dx (offsets a.cell_range))

  in_column_present :
      (dx dy : ℤ) (dys : List ℤ)
      → elem dy dys ≡ true
      → elem j (at dx dy) ≡ true
      → in_column dx dys ≡ true
  unfolding in_column elem
  in_column_present dx dy [] m h = cc
  in_column_present dx dy (d ∷ dys) m h = ground (arith, in_column_present dx dy dys)

  in_grid_present :
      (dx dy : ℤ) (dxs : List ℤ)
      → elem dx dxs ≡ true
      → elem dy (offsets a.cell_range) ≡ true
      → elem j (at dx dy) ≡ true
      → in_grid dxs ≡ true
  unfolding in_grid elem
  in_grid_present dx dy [] m n h = cc
  in_grid_present dx dy (d ∷ dxs) m n h =
      ground (arith, in_grid_present dx dy dxs, in_column_present dx dy (offsets a.cell_range))

-- The loop variable takes every value from -n to n.
elem-offsets_from : (k i n m : ℕ) → i ≤ m → m < i + k → elem (sub_ℕ m n) (offsets_from k i n) ≡ true
unfolding offsets_from elem
elem-offsets_from zero i n m h l = absurd (omega arith)
elem-offsets_from (suc k) i n m h l = elim (ℕ_discrete i m) [
  | yes e ↦ ground (arith, ap (λ (t : ℕ). sub_ℕ t n) e)
  | no ne ↦ ground (arith, elem-offsets_from k (suc i) n m)
]

sub_ℕ-add : (k n : ℕ) → sub_ℕ (k + n) n ≡ pos k
sub_ℕ-add k n = ground arith

sub_ℕ-sub : (k n : ℕ) → suc k ≤ n → sub_ℕ (n - suc k) n ≡ negsuc k
sub_ℕ-sub k n h = ground arith

elem-offsets : (n : ℕ) (d : ℤ) → magnitude d ≤ n → elem d (offsets n) ≡ true
unfolding offsets
elem-offsets n (pos k) h =
    rw (← sub_ℕ-add k n) (elem-offsets_from (suc (n + n)) 0 n (k + n) (omega arith) (omega arith))
elem-offsets n (negsuc k) h =
    rw (← sub_ℕ-sub k n (omega arith))
      (elem-offsets_from (suc (n + n)) 0 n (n - suc k) (omega arith) (omega arith))

magnitude_of_Near : (n : ℕ) (p c : ℤ) → Near n p c → magnitude (p -ℤ c) ≤ n
unfolding ◌-ℤ◌
magnitude_of_Near n p c h = ground arith

Near-of_magnitude : (n : ℕ) (p c : ℤ) → magnitude (p -ℤ c) ≤ n → Near n p c
unfolding ◌-ℤ◌
Near-of_magnitude n p c h = ground arith

square_mono : (d r : ℕ) → r < d → r * r < d * d
square_mono d r h = grind arith

le_of_square : (d e r : ℕ) → d * d + e ≤ r * r → d ≤ r
le_of_square d e r h = elim (dec_le d r) [
  | yes p ↦ p
  | no p ↦ absurd (grind (arith, square_mono d r))
]

add_sub : (c p : ℤ) → c +ℤ (p -ℤ c) ≡ p
add_sub c p = omega int_laws

-- What `EntitiesInRange` promises of one entity: it is in the grid, within the radius.
abbrev pub is_near : Vector3 → ℕ → Option Vector3 → Bool
is_near center radius none = false
is_near center radius (some p) = within center radius p

module _ (a : Aoi) (v : IsIndexed a) (center : Vector3) (id : EntityId) where
  elem-query :
      elem id (query a center) ≡ in_grid a (cell_key_for a center) id (offsets a.cell_range)
  unfolding query elem
  elem-query = ground (
    arith,
    elem-sort id (scan a (cell_key_for a center) [] (offsets a.cell_range)),
    elem-scan a (cell_key_for a center) id [] (offsets a.cell_range),
  )

  cell_gap :
      (radius : ℕ) (p c : ℤ)
      → radius ≤ a.radius
      → magnitude (p -ℤ c) ≤ radius
      → Near a.cell_range (floor_div p a.cell_size) (floor_div c a.cell_size)
  cell_gap radius p c le h = rw v.ranged (
      Near-floor_div p c a.radius a.cell_size v.sized
        (Near-of_magnitude a.radius p c (omega arith)))

  listed_here :
      (p : Vector3) → get a.positions id ≡ some p → elem id (cell a.cells (cell_key_for a p)) ≡ true
  listed_here p e = ground (arith, v.listed id (cell_key_for a p))

  absent_query : get a.positions id ≡ none → elem id (query a center) ≡ false
  absent_query e = rw elem-query (
      in_grid_absent a (cell_key_for a center) id (λ key. ground (arith, v.listed id key))
        (offsets a.cell_range))

  -- The query meets every entity within the radius that the grid was made for.
  query_complete :
      (radius : ℕ) (p : Vector3)
      → radius ≤ a.radius
      → get a.positions id ≡ some p
      → within center radius p ≡ true
      → elem id (query a center) ≡ true
  unfolding within cell_key_for
  query_complete radius p le e w =
      let c = cell_key_for a center in
      let k = cell_key_for a p in
      let bound = leb→le _ _ w in
      let nx = cell_gap radius p.x center.x le (le_of_square _ _ radius bound) in
      let dx = magnitude (p.x -ℤ center.x) in
      let nz = cell_gap radius p.z center.z le (le_of_square _ (dx * dx) radius (omega arith)) in
      let found = in_grid_present a c id (k.x -ℤ c.x) (k.y -ℤ c.y) (offsets a.cell_range) in
      rw elem-query (
        found (elem-offsets a.cell_range (k.x -ℤ c.x) (magnitude_of_Near a.cell_range k.x c.x nx))
          (elem-offsets a.cell_range (k.y -ℤ c.y) (magnitude_of_Near a.cell_range k.y c.y nz))
          (rw (add_sub c.x k.x, add_sub c.y k.y) (listed_here p e)))

-- In a well-formed grid, `EntitiesInRange` with a radius up to the grid's own returns exactly the
-- entities whose position is within the radius of the centre: the cells hide none and add none.
pub entities_in_range_exact :
    (a : Aoi) (center : Vector3) (radius : ℕ) (id : EntityId)
    → IsIndexed a
    → radius ≤ a.radius
    → elem id (entities_in_range a center radius) ≡ is_near center radius (get a.positions id)
unfolding entities_in_range
entities_in_range_exact a center radius id v le = elim (Option-cases (get a.positions id)) [
  | inl absent ↦ ground (
    arith,
    elem-filter_range a center radius id (query a center),
    absent_query a v center id absent,
  )
  | inr (p, e) ↦ ground (
    arith,
    elem-filter_range a center radius id (query a center),
    query_complete a v center id radius p le e,
  )
]
