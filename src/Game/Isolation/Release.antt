-- ===== src/Game/Isolation/Release.antt =====
-- internal/game/simulation.go: `ReleaseZone`, which lets the entities of the zone go first.
use spatial_server.Base.{
  ◌≡◌, ◌≢◌, some, [], ◌∷◌, if◌then◌else◌, ◌==◌, string_key, nat_key, Map, get, has_key, get-delete,
  arith, Option-cases, Bool-cases, inl, inr,
}
use spatial_server.Types.{EntityId, ZoneId}
use spatial_server.Game.State.{Game}
use spatial_server.Game.Zones.{release_zone, drop_entities_of}
use spatial_server.Game.Entities.{forget}
use spatial_server.Game.Isolation.Core.{forget-IsIsolated, drop_zone-IsIsolated}
use spatial_server.Game.Isolation.Calls.{Keeps, if-Keeps}

drop_entities_of-Keeps :
    (g : Game) (id : ZoneId) (l : Map EntityId ZoneId) → Keeps g → Keeps (drop_entities_of g id l)
unfolding drop_entities_of forget
drop_entities_of-Keeps g id [] v = v
drop_entities_of-Keeps g id ((eid, zid) ∷ rest) v =
    drop_entities_of-Keeps (if zid == id then forget g eid else g) id rest
      (if-Keeps (zid == id) _ _ (forget-IsIsolated v eid) v)

-- The loop lets go every entity that the list has in the zone, and adds none.
gone_on :
    (g : Game) (id : ZoneId) (l : Map EntityId ZoneId) (j : EntityId)
    → get g.entity_zone j ≢ some id
    → get (drop_entities_of g id l).entity_zone j ≢ some id
unfolding drop_entities_of forget
gone_on g id [] j ne = ne
gone_on g id ((eid, zid) ∷ rest) j ne =
    gone_on (if zid == id then forget g eid else g) id rest j (elim (Bool-cases (zid == id)) [
      | inl here ↦ rw here (ground (arith, get-delete g.entity_zone eid j))
      | inr there ↦ rw there ne
    ])

gone :
    (g : Game) (id : ZoneId) (l : Map EntityId ZoneId) (j : EntityId)
    → get l j ≡ some id
    → get (drop_entities_of g id l).entity_zone j ≢ some id
unfolding drop_entities_of get forget
gone g id [] j e = ground arith
gone g id ((eid, zid) ∷ rest) j e = elim (Bool-cases (eid == j)) [
  | inl same ↦
      gone_on (if zid == id then forget g eid else g) id rest j
        (ground (arith, get-delete g.entity_zone eid j))
  | inr other ↦ gone (if zid == id then forget g eid else g) id rest j (ground arith)
]

empty :
    (g : Game) (id : ZoneId) (j : EntityId)
    → get (drop_entities_of g id g.entity_zone).entity_zone j ≢ some id
empty g id j = elim (Option-cases (get g.entity_zone j)) [
  | inl absent ↦ gone_on g id g.entity_zone j (ground arith)
  | inr (zid, at) ↦ elim (Bool-cases (zid == id)) [
    | inl here ↦ gone g id g.entity_zone j (ground arith)
    | inr there ↦ gone_on g id g.entity_zone j (ground arith)
  ]
]

pub release_zone-Keeps : (g : Game) (id : ZoneId) → Keeps g → Keeps (release_zone g id).0
unfolding release_zone
release_zone-Keeps g id v = elim (Bool-cases (has_key g.zones id)) [
  | inl taken ↦
      rw taken (drop_zone-IsIsolated (drop_entities_of-Keeps g id g.entity_zone v) id (empty g id))
  | inr free ↦ rw free v
]
