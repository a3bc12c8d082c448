-- ===== src/Game/Aoi/Restore.antt =====
-- internal/game/aoi/aoi.go: `Deserialize` after `Serialize`.
use spatial_server.Base.{
  ℕ, ◌≤◌, ◌≡◌, refl, true, false, Option, none, some, [], ◌∷◌, string_key, elem, Map, get, get-put,
  keys, NodupKeys, arith,
}
use spatial_server.Types.{EntityId, Vector3}
use spatial_server.Game.Aoi.{Aoi, new, enter, enter_all, entities_in_range, serialize, deserialize}
use spatial_server.Game.Aoi.Index.{IsIndexed, new-IsIndexed, enter-IsIndexed}
use spatial_server.Game.Aoi.Range.{entities_in_range_exact}

abbrev or_else : Option Vector3 → Option Vector3 → Option Vector3
or_else none o = o
or_else (some p) o = some p

get-absent : (m : Map EntityId Vector3) (id : EntityId) → elem id (keys m) ≡ false → get m id ≡ none
unfolding get keys elem
get-absent [] id h = refl
get-absent ((j, p) ∷ m) id h = ground (arith, get-absent m id)

position-enter_all :
    (a : Aoi) (m : Map EntityId Vector3) (id : EntityId)
    → NodupKeys m
    → get (enter_all a m).positions id ≡ or_else (get m id) (get a.positions id)
unfolding enter_all enter get keys elem
position-enter_all a [] id d = refl
position-enter_all a ((j, p) ∷ m) id d = ground (
  arith,
  position-enter_all (enter a j p) m id d.1,
  get-put a.positions j id p,
  get-absent m j d.0,
)

enter_all-IsIndexed :
    (a : Aoi) (m : Map EntityId Vector3)
    → NodupKeys m
    → ((id : EntityId) → elem id (keys m) ≡ true → get a.positions id ≡ none)
    → IsIndexed a
    → IsIndexed (enter_all a m)
unfolding enter_all keys elem
enter_all-IsIndexed a [] d f v = v
enter_all-IsIndexed a ((j, p) ∷ m) d f v =
    enter_all-IsIndexed (enter a j p) m d.1
      (λ id h. unfold enter in ground (arith, get-put a.positions j id p, f id))
      (enter-IsIndexed a j p (ground (arith, f j)) v)

radius-enter_all : (a : Aoi) (m : Map EntityId Vector3) → (enter_all a m).radius ≡ a.radius
unfolding enter_all enter
radius-enter_all a [] = refl
radius-enter_all a ((j, p) ∷ m) = radius-enter_all (enter a j p) m

-- A well-formed grid that is encoded and decoded answers every range query, for a radius up to the
-- grid's, as before, and is well formed again; the cells are built anew from the positions.
pub restore_answers :
    (a : Aoi) (cell_size grid_radius : ℕ) (center : Vector3) (radius : ℕ) (id : EntityId)
    → IsIndexed a
    → NodupKeys a.positions
    → radius ≤ a.radius
    → IsIndexed (deserialize cell_size grid_radius (some (serialize a)))
      × (elem id (
            entities_in_range
              (deserialize cell_size grid_radius (some (serialize a)))
              center
              radius)
          ≡ elem id (entities_in_range a center radius))
unfolding deserialize serialize get
restore_answers a cell_size grid_radius center radius id v d le =
    let b = new a.cell_size a.radius in
    let w =
      enter_all-IsIndexed b a.positions d (λ j h. refl)
        (new-IsIndexed a.cell_size a.radius v.sized) in
    (
      w,
      ground (
        arith,
        entities_in_range_exact a center radius id v le,
        entities_in_range_exact (enter_all b a.positions) center radius id w,
        radius-enter_all b a.positions,
        position-enter_all b a.positions id d,
      ),
    )
