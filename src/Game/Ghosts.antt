-- ===== src/Game/Ghosts.antt =====
-- internal/game/boundary.go, simulation.go: ghosts, the images of entities in the grid of a zone in
-- which they are not.
pub mod Placed
use spatial_server.Base.{
  ℕ, ◌+◌, ◌*◌, Bool, true, false, Option, none, some, List, [], ◌∷◌, ◌&&◌, if◌then◌else◌, ◌==◌,
  String, string_key, ltb, nat_key, Map, get, put, delete, has_key, elem, not,
}
use spatial_server.Base.Text.{◌<>◌}
use spatial_server.Base.Int.{ℤ}
use spatial_server.Types.{EntityId, ZoneId, Vector3}
use spatial_server.Game.Aoi
use spatial_server.Game.Aoi.{Aoi, cell_key, cell_key_for}
use spatial_server.Game.Zone.{Zone}
use spatial_server.Game.State.{
  Game, Entity, ZoneSim, GhostKind, GhostEntry, EntityAoiState, update_grid, Ref,
}

-- The body of the loop of `detectZoneBoundaries`, where the entity has changed its cell.
leave_ghost : Game → ZoneId → ZoneSim → EntityId → Vector3 → ℕ → Game
unfolding update_grid
leave_ghost g zid sim id last now =
    let ghost_id = id <> "_ghost" in
    record g {
      ghosts = put g.ghosts ghost_id (record {
        kind = GhostKind.local;
        entity_id = id;
        origin_zone = zid;
        position = last;
        created_at = now;
        expires_at = now + g.ghost_ttl;
      });
      grid_store = update_grid g.grid_store sim.aoi (λ a. Aoi.enter a ghost_id last);
    }

-- Whether `CellCoord` differs.
crossed : Option Aoi → Vector3 → Vector3 → Bool
crossed none last position = false
crossed (some a) last position = not (cell_key_for a last == cell_key_for a position)

detect : Game → ZoneId → ZoneSim → EntityId → ℕ → Option EntityAoiState → Option Entity → Game
unfolding leave_ghost crossed
detect g zid sim id now (some st) (some e) =
    if crossed (get g.grid_store sim.aoi) st.last_position e.position
    then leave_ghost g zid sim id st.last_position now
    else g
detect g zid sim id now _ _ = g

detect_all : Game → ZoneId → ZoneSim → ℕ → Map EntityId Ref → Game
unfolding detect
detect_all g zid sim now [] = g
detect_all g zid sim now ((id, r) ∷ rest) =
    detect_all (detect g zid sim id now (get g.entity_aoi id) (get g.entity_store r)) zid sim now
      rest

detect_in : Game → ZoneId → ℕ → Option ZoneSim → Game
unfolding detect_all
detect_in g zid now none = g
detect_in g zid now (some sim) = detect_all g zid sim now sim.entities

-- `now` stands for the readings of the clock.
unfoldable pub detect_zone_boundaries : Game → ZoneId → ℕ → Game
unfolding detect_in
detect_zone_boundaries g zid now = detect_in g zid now (get g.zones zid)

-- The ghost leaves the grid of its zone, if there is the zone.
leave_origin : Game → EntityId → Option ZoneSim → Game
unfolding update_grid
leave_origin g id none = g
leave_origin g id (some sim) = record g {
  grid_store = update_grid g.grid_store sim.aoi (λ a. Aoi.leave a id);
}

drop_ghost : Game → EntityId → GhostEntry → Game
unfolding leave_origin
drop_ghost g id ghost =
    let h = leave_origin g id (get g.zones ghost.origin_zone) in
    record h { ghosts = delete h.ghosts id }

unfoldable pub sweep_entries : Game → ℕ → Map EntityId GhostEntry → Game
unfolding drop_ghost
sweep_entries g now [] = g
sweep_entries g now ((id, ghost) ∷ rest) =
    sweep_entries (if ltb ghost.expires_at now then drop_ghost g id ghost else g) now rest

unfoldable pub sweep_ghosts : Game → ℕ → Game
unfolding sweep_entries
sweep_ghosts g now = sweep_entries g now g.ghosts

-- A zone's grid in `aoiIndex` with its entry in `ghostStore`: what the calls of the neighbours change.
pub record Border : Type 0 where
  pub grid : Aoi
  pub store : Map EntityId GhostEntry

unfoldable pub ghost_id_of : EntityId → EntityId
ghost_id_of id = id <> "@ghost"

-- An image of a neighbour's entity lives six times as long as a local one.
unfoldable pub remote_entry : EntityId → ZoneId → Vector3 → ℕ → ℕ → GhostEntry
remote_entry id zone position now ttl = record {
  kind = GhostKind.remote;
  entity_id = id;
  origin_zone = zone;
  position = position;
  created_at = now;
  expires_at = now + ttl * 6;
}

-- `ApplyEntityEnter`, behind its guard
unfoldable pub border_enter : Border → ZoneId → EntityId → Vector3 → ℕ → ℕ → Border
unfolding ghost_id_of remote_entry
border_enter b zone id position now ttl =
    let ghost_id = ghost_id_of id in
    record {
      grid = Aoi.enter b.grid ghost_id position;
      store = put b.store ghost_id (remote_entry id zone position now ttl);
    }

-- `ApplyEntityLeave`, behind its guard
unfoldable pub border_leave : Border → EntityId → Border
unfolding ghost_id_of
border_leave b id =
    let ghost_id = ghost_id_of id in
    record { grid = Aoi.leave b.grid ghost_id; store = delete b.store ghost_id }

update_entry : Border → EntityId → Vector3 → ℕ → ℕ → Option GhostEntry → Border
update_entry b ghost_id position now ttl none = b
update_entry b ghost_id position now ttl (some entry) = record {
  grid = Aoi.move b.grid ghost_id position;
  store = put b.store ghost_id (record entry { position = position; expires_at = now + ttl * 6 });
}

-- `ApplyEntityUpdate`, behind its guard
unfoldable pub border_update : Border → EntityId → Vector3 → ℕ → ℕ → Border
unfolding update_entry ghost_id_of
border_update b id position now ttl =
    update_entry b (ghost_id_of id) position now ttl (get b.store (ghost_id_of id))

-- `neighborEntity`: what the querier answers with, by the identifier and the position.
pub record NeighborEntity : Type 0 where
  pub id : EntityId
  pub pos : Vector3

-- The loop of `ReconcileNeighborGhosts` over the answer.
unfoldable pub border_seen : Border → ZoneId → ℕ → ℕ → List NeighborEntity → Border
unfolding ghost_id_of remote_entry
border_seen b neighbor now ttl [] = b
border_seen b neighbor now ttl (n ∷ rest) =
    let ghost_id = ghost_id_of n.id in
    border_seen
      (record {
        grid =
            if not (has_key b.store ghost_id)
            then Aoi.enter b.grid ghost_id n.pos
            else Aoi.move b.grid ghost_id n.pos;
        store = put b.store ghost_id (remote_entry n.id neighbor n.pos now ttl);
      })
      neighbor now ttl rest

unfoldable pub seen_ids : List NeighborEntity → List EntityId
unfolding ghost_id_of
seen_ids [] = []
seen_ids (n ∷ rest) = ghost_id_of n.id ∷ seen_ids rest

is_remote : GhostKind → Bool
is_remote GhostKind.local = false
is_remote GhostKind.remote = true

-- The loop of `ReconcileNeighborGhosts` over the store.
unfoldable pub border_expire : Border → List EntityId → ℕ → Map EntityId GhostEntry → Border
unfolding is_remote
border_expire b seen now [] = b
border_expire b seen now ((gid, entry) ∷ rest) =
    border_expire
      (if elem gid seen
        then b
        else if is_remote entry.kind && ltb entry.expires_at now
        then record { grid = Aoi.leave b.grid gid; store = delete b.store gid }
        else b)
      seen now rest

unfoldable pub border_reconcile : Border → ZoneId → List NeighborEntity → ℕ → ℕ → Border
unfolding border_seen border_expire seen_ids
border_reconcile b neighbor results now ttl =
    let c = border_seen b neighbor now ttl results in border_expire c (seen_ids results) now c.store

border_with : Ref → Option Aoi → Option (Map EntityId GhostEntry) → Option (Ref × Border)
border_with r (some grid) (some store) = some (r, record { grid = grid; store = store })
border_with r _ _ = none

border_at : Game → ZoneId → Option Ref → Option (Ref × Border)
unfolding border_with
border_at g zone none = none
border_at g zone (some r) = border_with r (get g.grid_store r) (get g.ghost_store zone)

-- The zone's grid, behind its reference, and its store, if the zone has both.
unfoldable pub border : Game → ZoneId → Option (Ref × Border)
unfolding border_at
border g zone = border_at g zone (get g.aoi_index zone)

write_border : Game → ZoneId → (Border → Border) → Option (Ref × Border) → Game
write_border g zone f none = g
write_border g zone f (some (r, b)) =
    let c = f b in
    record g {
      grid_store = put g.grid_store r c.grid;
      ghost_store = put g.ghost_store zone c.store;
    }

-- The guard of the calls of the neighbours: without the grid or the store they change nothing.
unfoldable pub on_border : Game → ZoneId → (Border → Border) → Game
unfolding write_border border
on_border g zone f = write_border g zone f (border g zone)

-- The zone of the entry is the zone that the call names, in which the ghost is.
unfoldable pub apply_entity_enter : Game → ZoneId → EntityId → Vector3 → ℕ → Game
unfolding on_border
apply_entity_enter g zone id position now =
    on_border g zone (λ b. border_enter b zone id position now g.ghost_ttl)

unfoldable pub apply_entity_leave : Game → ZoneId → EntityId → Game
unfolding on_border
apply_entity_leave g zone id = on_border g zone (λ b. border_leave b id)

unfoldable pub apply_entity_update : Game → ZoneId → EntityId → Vector3 → ℕ → Game
unfolding on_border
apply_entity_update g zone id position now =
    on_border g zone (λ b. border_update b id position now g.ghost_ttl)

-- What the registry of peers has set: it asks the neighbour's server about the entities around a cell.
abbrev pub NeighborQuerier : Type 0
NeighborQuerier = ZoneId → ℤ → ℤ → ℕ → List NeighborEntity

reconcile_from : Game → ZoneId → ZoneId → ℕ → Option NeighborQuerier → Option Zone → Game
unfolding on_border
reconcile_from g owner neighbor now (some querier) (some z) = on_border g owner (λ b.
    border_reconcile b neighbor (querier neighbor z.grid.x z.grid.y g.aoi_radius) now g.ghost_ttl)
reconcile_from g owner neighbor now _ _ = g

zone_in : Option ZoneSim → Option Zone
zone_in none = none
zone_in (some sim) = sim.zone

-- `ReconcileNeighborGhosts`; `now` stands for the readings of the clock.
unfoldable pub reconcile_neighbor_ghosts :
    Game → ZoneId → ZoneId → ℕ → Option NeighborQuerier → Game
unfolding reconcile_from zone_in
reconcile_neighbor_ghosts g owner neighbor now querier =
    reconcile_from g owner neighbor now querier (zone_in (get g.zones owner))
