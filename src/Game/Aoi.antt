-- ===== src/Game/Aoi.antt =====
-- internal/game/aoi/aoi.go: a grid of square cells over the entities' positions. The proofs are in
-- the modules below.
pub mod Index
pub mod Range
pub mod History
pub mod Restore
mod Tests
use Prim.Native.String.{compare}
use text.Mathlib.Text.{is_lt}
use spatial_server.Base.{
  ℕ, zero, suc, ◌+◌, ◌*◌, Bool, Option, none, some, List, [], ◌∷◌, ◌++◌, if◌then◌else◌, leb, Key,
  string_key, ◌==◌, elem, remove_first, Map, get, put, delete, length,
}
use spatial_server.Base.Int.{ℤ, pos, ℤ_discrete, ◌+ℤ◌, ◌-ℤ◌, sub_ℕ, magnitude, floor_div, ceil_div}
use spatial_server.Types.{EntityId, Vector3}

-- `cellKey`
pub record CellKey : Type 0 where
  pub x : ℤ
  pub y : ℤ

unfoldable pub CellKey_discrete : Discrete CellKey
unfolding ℤ_discrete
CellKey_discrete = hlevel ℤ_discrete

instance abbrev pub cell_key : Key CellKey
cell_key = record { dec = CellKey_discrete }

pub record Aoi : Type 0 where
  pub cell_size : ℕ
  pub radius : ℕ
  pub cell_range : ℕ
  pub cells : Map CellKey (List EntityId)
  pub positions : Map EntityId Vector3

unfoldable pub new : ℕ → ℕ → Aoi
new cell_size radius = record {
  cell_size = cell_size;
  radius = radius;
  cell_range = ceil_div radius cell_size;
  cells = [];
  positions = [];
}

-- `cellKeyFor`
unfoldable pub cell_key_for : Aoi → Vector3 → CellKey
cell_key_for a p = record { x = floor_div p.x a.cell_size; y = floor_div p.z a.cell_size }

-- A read of a missing key gives the nil slice.
ids_at : Option (List EntityId) → List EntityId
ids_at none = []
ids_at (some ids) = ids

unfoldable pub cell : Map CellKey (List EntityId) → CellKey → List EntityId
unfolding ids_at
cell cells key = ids_at (get cells key)

unfoldable pub enter : Aoi → EntityId → Vector3 → Aoi
enter a id p =
    let key = cell_key_for a p in
    record a {
      cells = put a.cells key (cell a.cells key ++ id ∷ []);
      positions = put a.positions id p;
    }

-- The loop over `ids` that cuts the first occurrence out and writes the slice back.
unfoldable pub cut :
    Map CellKey (List EntityId) → CellKey → List EntityId → EntityId → Map CellKey (List EntityId)
cut cells key ids id = if elem id ids then put cells key (remove_first id ids) else cells

leave_at : Aoi → EntityId → Option Vector3 → Aoi
unfolding cut
leave_at a id none = a
leave_at a id (some p) =
    let key = cell_key_for a p in
    record a { cells = cut a.cells key (cell a.cells key) id; positions = delete a.positions id }

unfoldable pub leave : Aoi → EntityId → Aoi
unfolding leave_at
leave a id = leave_at a id (get a.positions id)

-- The tail of `Move`, where the entity changes its cell.
change_cell : Aoi → EntityId → CellKey → Vector3 → Aoi
unfolding cut
change_cell a id old_key p =
    let moved = cut a.cells old_key (cell a.cells old_key) id in
    let new_key = cell_key_for a p in
    record a {
      cells = put moved new_key (cell moved new_key ++ id ∷ []);
      positions = put a.positions id p;
    }

move_from : Aoi → EntityId → Vector3 → Option Vector3 → Aoi
unfolding change_cell
move_from a id p none = enter a id p
move_from a id p (some old) =
    if cell_key_for a old == cell_key_for a p
    then record a { positions = put a.positions id p }
    else change_cell a id (cell_key_for a old) p

unfoldable pub move : Aoi → EntityId → Vector3 → Aoi
unfolding move_from
move a id p = move_from a id p (get a.positions id)

-- `for d := -n; d <= n; d++`
offsets_from : ℕ → ℕ → ℕ → List ℤ
offsets_from zero i n = []
offsets_from (suc k) i n = sub_ℕ i n ∷ offsets_from k (suc i) n

unfoldable pub offsets : ℕ → List ℤ
unfolding offsets_from
offsets n = offsets_from (suc (n + n)) 0 n

-- `seen` holds what `result` holds, so one list stands for both.
unfoldable pub collect : List EntityId → List EntityId → List EntityId
collect result [] = result
collect result (id ∷ ids) = collect (if elem id result then result else result ++ id ∷ []) ids

-- The inner loop of `Query`, over `dy`.
unfoldable pub scan_column : Aoi → CellKey → ℤ → List EntityId → List ℤ → List EntityId
unfolding collect
scan_column a center dx result [] = result
scan_column a center dx result (dy ∷ dys) =
    scan_column a center dx
      (collect result (cell a.cells (record { x = center.x +ℤ dx; y = center.y +ℤ dy }))) dys

-- The outer loop, over `dx`.
unfoldable pub scan : Aoi → CellKey → List EntityId → List ℤ → List EntityId
unfolding scan_column
scan a center result [] = result
scan a center result (dx ∷ dxs) =
    scan a center (scan_column a center dx result (offsets a.cell_range)) dxs

-- `sort.Slice` by `<` on the identifiers.
insert : EntityId → List EntityId → List EntityId
insert id [] = id ∷ []
insert id (j ∷ ids) = if is_lt (compare j id) then j ∷ insert id ids else id ∷ j ∷ ids

unfoldable pub sort : List EntityId → List EntityId
unfolding insert
sort [] = []
sort (id ∷ ids) = insert id (sort ids)

unfoldable pub query : Aoi → Vector3 → List EntityId
unfolding scan sort
query a p = sort (scan a (cell_key_for a p) [] (offsets a.cell_range))

-- A read of a missing key gives the zero vector.
abbrev pub position_or_zero : Option Vector3 → Vector3
position_or_zero none = record { x = pos 0; y = pos 0; z = pos 0 }
position_or_zero (some p) = p

-- `dx*dx + dz*dz <= radiusSq`; the square of an integer is that of its magnitude.
unfoldable pub within : Vector3 → ℕ → Vector3 → Bool
within center radius p =
    let dx = magnitude (p.x -ℤ center.x) in
    let dz = magnitude (p.z -ℤ center.z) in leb (dx * dx + dz * dz) (radius * radius)

unfoldable pub filter_range : Aoi → Vector3 → ℕ → List EntityId → List EntityId
filter_range a center radius [] = []
filter_range a center radius (id ∷ ids) =
    let rest = filter_range a center radius ids in
    if within center radius (position_or_zero (get a.positions id)) then id ∷ rest else rest

unfoldable pub entities_in_range : Aoi → Vector3 → ℕ → List EntityId
unfolding filter_range
entities_in_range a center radius = filter_range a center radius (query a center)

unfoldable pub count : Aoi → ℕ
count a = length a.positions

-- The state that `Serialize` encodes by gob, with the encoding left out.
pub record SerializedAoi : Type 0 where
  pub cell_size : ℕ
  pub radius : ℕ
  pub positions : Map EntityId Vector3

unfoldable pub serialize : Aoi → SerializedAoi
serialize a = record { cell_size = a.cell_size; radius = a.radius; positions = a.positions }

unfoldable pub enter_all : Aoi → Map EntityId Vector3 → Aoi
enter_all a [] = a
enter_all a ((id, p) ∷ rest) = enter_all (enter a id p) rest

-- `Deserialize`, given what the gob decoder returns.
unfoldable pub deserialize : ℕ → ℕ → Option SerializedAoi → Aoi
unfolding enter_all new
deserialize cell_size radius none = new cell_size radius
deserialize cell_size radius (some s) = enter_all (new s.cell_size s.radius) s.positions
