-- ===== src/Game/Aoi/History.antt =====
-- internal/game/aoi/aoi.go: what sequences of calls of `Enter`, `Leave` and `Move` do to a grid.
use spatial_server.Base.{
  ℕ, ◌≤◌, ◌<◌, ◌≡◌, refl, true, false, Option, none, some, List, [], ◌∷◌, ◌++◌, if◌then◌else◌, ◌==◌,
  string_key, elem, get, get-put, get-delete, arith,
}
use spatial_server.Types.{EntityId, Vector3}
use spatial_server.Game.Aoi.{
  CellKey, Aoi, new, cell_key_for, cell_key, cell, enter, leave, move, change_cell,
  entities_in_range,
}
use spatial_server.Game.Aoi.Index.{
  IsIndexed, new-IsIndexed, enter-IsIndexed, leave-IsIndexed, move-IsIndexed, cell-put, cell-leave,
}
use spatial_server.Game.Aoi.Range.{is_near, entities_in_range_exact}

pub data Call : Type 0 where
  entering : EntityId → Vector3 → Call
  leaving : EntityId → Call
  moving : EntityId → Vector3 → Call

unfoldable pub call : Aoi → Call → Aoi
call a (entering id p) = enter a id p
call a (leaving id) = leave a id
call a (moving id p) = move a id p

unfoldable pub run : Aoi → List Call → Aoi
run a [] = a
run a (c ∷ cs) = run (call a c) cs

pub radius-move : (a : Aoi) (id : EntityId) (p : Vector3) → (move a id p).radius ≡ a.radius
unfolding move change_cell enter
radius-move a id p = ground arith

-- What a client believes: the last position given for an entity that has not left since.
unfoldable pub last_position : EntityId → Option Vector3 → List Call → Option Vector3
last_position id o [] = o
last_position id o (entering j p ∷ cs) = last_position id (if j == id then some p else o) cs
last_position id o (leaving j ∷ cs) = last_position id (if j == id then none else o) cs
last_position id o (moving j p ∷ cs) = last_position id (if j == id then some p else o) cs

-- Each call of `Enter` is for an entity that the grid does not hold then.
abbrev pub EntersFresh : Aoi → List Call → Type 0
EntersFresh a [] = Unit
EntersFresh a (entering id p ∷ cs) = (get a.positions id ≡ none) × EntersFresh (enter a id p) cs
EntersFresh a (leaving id ∷ cs) = EntersFresh (leave a id) cs
EntersFresh a (moving id p ∷ cs) = EntersFresh (move a id p) cs

pub position-enter :
    (a : Aoi) (id j : EntityId) (p : Vector3)
    → get (enter a id p).positions j ≡ (if id == j then some p else get a.positions j)
unfolding enter
position-enter a id j p = get-put a.positions id j p

pub position-leave :
    (a : Aoi) (id j : EntityId)
    → get (leave a id).positions j ≡ (if id == j then none else get a.positions j)
unfolding leave
position-leave a id j = ground (arith, get-delete a.positions id j)

pub position-move :
    (a : Aoi) (id j : EntityId) (p : Vector3)
    → get (move a id p).positions j ≡ (if id == j then some p else get a.positions j)
unfolding move change_cell enter
position-move a id j p = ground (arith, get-put a.positions id j p)

radius-run : (a : Aoi) (cs : List Call) → (run a cs).radius ≡ a.radius
unfolding run call enter leave move change_cell
radius-run a [] = refl
radius-run a (entering id p ∷ cs) = radius-run (enter a id p) cs
radius-run a (leaving id ∷ cs) = ground (arith, radius-run (leave a id) cs)
radius-run a (moving id p ∷ cs) = ground (arith, radius-run (move a id p) cs)

position-run :
    (a : Aoi) (cs : List Call) (id : EntityId)
    → get (run a cs).positions id ≡ last_position id (get a.positions id) cs
unfolding run call last_position
position-run a [] id = refl
position-run a (entering j p ∷ cs) id =
    rw (← position-enter a j id p) (position-run (enter a j p) cs id)
position-run a (leaving j ∷ cs) id = rw (← position-leave a j id) (position-run (leave a j) cs id)
position-run a (moving j p ∷ cs) id =
    rw (← position-move a j id p) (position-run (move a j p) cs id)

run-IsIndexed : (a : Aoi) (cs : List Call) → EntersFresh a cs → IsIndexed a → IsIndexed (run a cs)
unfolding run call
run-IsIndexed a [] f v = v
run-IsIndexed a (entering id p ∷ cs) f v =
    run-IsIndexed (enter a id p) cs f.1 (enter-IsIndexed a id p f.0 v)
run-IsIndexed a (leaving id ∷ cs) f v = run-IsIndexed (leave a id) cs f (leave-IsIndexed a id v)
run-IsIndexed a (moving id p ∷ cs) f v = run-IsIndexed (move a id p) cs f (move-IsIndexed a id p v)

-- After any calls from an empty grid in which `Enter` is only called for an entity that is not in
-- the grid, `EntitiesInRange` returns, for a radius up to the grid's, exactly the entities whose
-- last position is within the radius and that have not left since.
pub history_refines :
    (cell_size grid_radius : ℕ) (cs : List Call) (center : Vector3) (radius : ℕ) (id : EntityId)
    → 0 < cell_size
    → radius ≤ grid_radius
    → EntersFresh (new cell_size grid_radius) cs
    → elem id (entities_in_range (run (new cell_size grid_radius) cs) center radius)
      ≡ is_near center radius (last_position id none cs)
unfolding new get
history_refines cell_size grid_radius cs center radius id pos le f =
    let g = new cell_size grid_radius in
    ground (
      arith,
      entities_in_range_exact (run g cs) center radius id
          (run-IsIndexed g cs f (new-IsIndexed cell_size grid_radius pos)),
      radius-run g cs,
      position-run g cs id,
    )

key-enter :
    (a : Aoi) (id : EntityId) (p : Vector3) → cell_key_for (enter a id p) p ≡ cell_key_for a p
unfolding enter cell_key_for
key-enter a id p = refl

cell-enter :
    (a : Aoi) (id : EntityId) (p : Vector3) (key : CellKey)
    → cell (enter a id p).cells key ≡ (
        if cell_key_for a p == key
        then cell a.cells (cell_key_for a p) ++ id ∷ []
        else cell a.cells key)
unfolding enter
cell-enter a id p key =
    cell-put a.cells (cell_key_for a p) key (cell a.cells (cell_key_for a p) ++ id ∷ [])

-- Entering an entity again, from another cell, leaves it listed in its first cell for good: after
-- the `Leave` that follows, the grid has no position for it, and the first cell still lists it.
pub reenter_leaves_stale :
    (a : Aoi) (id : EntityId) (old p : Vector3)
    → IsIndexed a
    → get a.positions id ≡ some old
    → (cell_key_for a old == cell_key_for a p) ≡ false
    → (get (leave (enter a id p) id).positions id ≡ none)
      × (elem id (cell (leave (enter a id p) id).cells (cell_key_for a old)) ≡ true)
reenter_leaves_stale a id old p v e apart =
    let k = cell_key_for a old in
    let b = enter a id p in
    let ids = cell a.cells (cell_key_for a p) ++ id ∷ [] in
    (
      ground (arith, position-leave b id id),
      ground (
        arith,
        cell-leave b id p k,
        position-enter a id id p,
        cell-enter a id p k,
        key-enter a id p,
        v.listed id k,
      ),
    )
