-- ===== src/Game/Entities.antt =====
-- internal/game/simulation.go: the entities that come and go.
use spatial_server.Base.{
  ℕ, ◌+◌, Option, none, some, [], if◌then◌else◌, ◌==◌, String, string_key, nat_key, get, put,
  delete, not, length,
}
use spatial_server.Types.{EntityId, ZoneId, Vector3}
use spatial_server.Game.Aoi
use spatial_server.Game.Aoi.{Aoi}
use spatial_server.Game.Zone.{Zone}
use spatial_server.Game.State.{
  Game, Entity, ZoneSim, default_cell_size, default_zone_id, new_entity, update_grid,
}

-- The first lines of `addEntity`: an entity without a zone goes to the default one.
unfoldable pub placed : Entity → Entity
placed e = if e.zone_id == "" then record e { zone_id = default_zone_id } else e

-- The zone's simulation, made if it is missing; it is not put into `aoiIndex`.
unfoldable pub sim_or_new : Game → ZoneId → Option ZoneSim → Game × ZoneSim
sim_or_new g zid (some sim) = (g, sim)
sim_or_new g zid none =
    let sim : ZoneSim = record { zone = none; aoi = g.next_ref; entities = [] } in
    (
      record g {
        zones = put g.zones zid sim;
        grid_store = put g.grid_store g.next_ref (Aoi.new default_cell_size g.aoi_radius);
        next_ref = g.next_ref + 1;
      },
      sim,
    )

-- The Space of an entity is that of its zone.
unfoldable pub in_space : Option Zone → Entity → Entity
in_space none e = e
in_space (some z) e = if not (z.runtime_id == "") then record e { runtime_id = z.runtime_id } else e

-- The writes of `addEntity`, behind a fresh reference to the entity.
unfoldable pub insert_entity : Game → ZoneId → ZoneSim → Entity → Game
unfolding update_grid
insert_entity g zid sim e = record g {
  entities = put g.entities e.id g.next_ref;
  entity_zone = put g.entity_zone e.id zid;
  zones = put g.zones zid (record sim { entities = put sim.entities e.id g.next_ref });
  grid_store = update_grid g.grid_store sim.aoi (λ a. Aoi.enter a e.id e.position);
  entity_aoi = put g.entity_aoi e.id (record { visible = []; last_position = e.position });
  entity_store = put g.entity_store g.next_ref e;
  next_ref = g.next_ref + 1;
}

unfoldable pub add_placed : Game × ZoneSim → Entity → Game
unfolding in_space insert_entity
add_placed (g, sim) e = insert_entity g e.zone_id sim (in_space sim.zone e)

-- `addEntity` and `AddEntity`
unfoldable pub add_entity : Game → Entity → Game
unfolding placed sim_or_new add_placed
add_entity g e = let p = placed e in add_placed (sim_or_new g p.zone_id (get g.zones p.zone_id)) p

-- The entity leaves its zone's grid and the zone's own map.
unfoldable pub leave_sim : Game → ZoneId → EntityId → Option ZoneSim → Game
unfolding update_grid
leave_sim g zid id none = g
leave_sim g zid id (some sim) = record g {
  grid_store = update_grid g.grid_store sim.aoi (λ a. Aoi.leave a id);
  zones = put g.zones zid (record sim { entities = delete sim.entities id });
}

unfoldable pub forget : Game → EntityId → Game
forget g id = record g {
  entities = delete g.entities id;
  entity_aoi = delete g.entity_aoi id;
  entity_zone = delete g.entity_zone id;
}

unfoldable pub remove_from : Game → EntityId → Option ZoneId → Game
unfolding leave_sim forget
remove_from g id none = g
remove_from g id (some zid) = forget (leave_sim g zid id (get g.zones zid)) id

-- `removeEntity`, `RemoveEntity` and `MigrateEntityOut`
unfoldable pub remove_entity : Game → EntityId → Game
unfolding remove_from
remove_entity g id = remove_from g id (get g.entity_zone id)

unfoldable pub entity_count : Game → ℕ
entity_count g = length g.entities

-- `MigrateEntityIn`, from the fields of the snapshot.
unfoldable pub migrate_entity_in : Game → EntityId → String → Vector3 → ZoneId → Game
unfolding new_entity add_entity
migrate_entity_in g id kind position target =
    add_entity g (record (new_entity id kind "") { zone_id = target; position = position })
