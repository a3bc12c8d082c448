-- ===== src/Game/Zones.antt =====
-- internal/game/simulation.go: the zones that a server takes and gives up.
use spatial_server.Base.{
  ◌+◌, Option, none, some, [], ◌∷◌, if◌then◌else◌, ◌==◌, string_key, nat_key, Map, get, put, delete,
  retain, has_key, not,
}
use spatial_server.Types.{EntityId, ZoneId, ServerId, Error, not_found, conflict}
use spatial_server.Game.Aoi
use spatial_server.Game.Entities.{forget}
use spatial_server.Game.Aoi.{Aoi}
use spatial_server.Game.Zone.{Zone}
use spatial_server.Game.State.{Game, ZoneSim, default_cell_size}

-- One new grid is shared by the zone and the index.
unfoldable pub assign_zone : Game → Zone → Game × Option Error
assign_zone g z = if has_key g.zones z.id then (g, some conflict) else (
  record g {
    zones = put g.zones z.id (record { zone = some z; aoi = g.next_ref; entities = [] });
    aoi_index = put g.aoi_index z.id g.next_ref;
    ghost_store = put g.ghost_store z.id [];
    grid_store = put g.grid_store g.next_ref (Aoi.new default_cell_size g.aoi_radius);
    next_ref = g.next_ref + 1;
  },
  none,
)

unfoldable pub register_peer_zone : Game → ZoneId → ServerId → Game
register_peer_zone g zone server = record g { peer_zone = put g.peer_zone zone server }

-- The loop over `entityZone` that drops the zone's entities from three maps.
unfoldable pub drop_entities_of : Game → ZoneId → Map EntityId ZoneId → Game
unfolding forget
drop_entities_of g id [] = g
drop_entities_of g id ((eid, zid) ∷ rest) =
    drop_entities_of (if zid == id then forget g eid else g) id rest

unfoldable pub release_zone : Game → ZoneId → Game × Option Error
unfolding drop_entities_of
release_zone g id =
    if has_key g.zones id
    then (let h = drop_entities_of g id g.entity_zone in
        (
          record h {
            ghosts = retain (λ gid ghost. not (ghost.origin_zone == id)) h.ghosts;
            zones = delete h.zones id;
            aoi_index = delete h.aoi_index id;
            ghost_store = delete h.ghost_store id;
            peer_zone = delete h.peer_zone id;
          },
          none,
        ))
    else (g, some not_found)

grid_of : Game → Option ZoneSim → Option Aoi
grid_of g none = none
grid_of g (some sim) = get g.grid_store sim.aoi

unfoldable pub aoi_for : Game → ZoneId → Option Aoi
unfolding grid_of
aoi_for g zid = grid_of g (get g.zones zid)

zone_or_empty : Option ZoneId → ZoneId
zone_or_empty none = ""
zone_or_empty (some zid) = zid

unfoldable pub zone_of : Game → EntityId → ZoneId
unfolding zone_or_empty
zone_of g id = zone_or_empty (get g.entity_zone id)
