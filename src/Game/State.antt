-- ===== src/Game/State.antt =====
-- internal/game/simulation.go, event.go, lifecycle.go, entity/entity.go: the state of a `Game`.
-- Entities and grids are shared: an entity by `Entities` and by its zone's `entities`, a grid by
-- its zone and by `aoiIndex`. So both live in stores, and the maps hold references. What one map
-- alone points to (ghosts, sessions, visibility, zones) is a value.
use spatial_server.Base.{
  ℕ, Option, none, some, List, [], String, string_key, nat_key, Map, get, put,
}
use spatial_server.Base.Int.{pos}
use spatial_server.Types.{EntityId, ZoneId, RuntimeId, ServerId, Vector3}
use spatial_server.Game.Aoi.{Aoi}
use spatial_server.Game.Zone.{Zone}

-- `entity.Entity`, without the rotation, which nothing reads, and the lifecycle.
pub record Entity : Type 0 where
  pub id : EntityId
  pub kind : String
  pub position : Vector3
  pub attrs : Map String String
  pub zone_id : ZoneId
  pub owner_id : String
  pub runtime_id : RuntimeId

-- `entity.New`
unfoldable pub new_entity : EntityId → String → RuntimeId → Entity
new_entity id kind runtime_id = record {
  id = id;
  kind = kind;
  position = record { x = pos 0; y = pos 0; z = pos 0 };
  attrs = [];
  zone_id = "";
  owner_id = "";
  runtime_id = runtime_id;
}

pub record EntityAoiState : Type 0 where
  pub visible : List EntityId
  pub last_position : Vector3

pub data GhostKind : Type 0 where
  local remote : GhostKind

pub record GhostEntry : Type 0 where
  pub kind : GhostKind
  pub entity_id : EntityId
  pub origin_zone : ZoneId
  pub position : Vector3
  pub created_at : ℕ
  pub expires_at : ℕ

pub data SessionStatus : Type 0 where
  active disconnected despawned : SessionStatus

pub record SessionState : Type 0 where
  pub status : SessionStatus
  pub disconnected_at : ℕ

pub data EventKind : Type 0 where
  spawn despawn moved state : EventKind

-- A payload is bytes.
pub record Event : Type 0 where
  pub kind : EventKind
  pub space : RuntimeId
  pub observer : EntityId
  pub entity_id : EntityId
  pub type_name : String
  pub position : Vector3
  pub payload : List ℕ

-- `InboxBufferSize`, the capacity of the channel of the events
abbrev pub inbox_buffer_size : ℕ
inbox_buffer_size = 4096

-- A reference into a store.
abbrev pub Ref : Type 0
Ref = ℕ

-- `zone` is nil in a zone that `addEntity` makes.
pub record ZoneSim : Type 0 where
  pub zone : Option Zone
  pub aoi : Ref
  pub entities : Map EntityId Ref

pub record Game : Type 0 where
  pub server_id : ServerId
  pub zones : Map ZoneId ZoneSim
  pub entities : Map EntityId Ref
  pub entity_zone : Map EntityId ZoneId
  pub entity_aoi : Map EntityId EntityAoiState
  pub ghosts : Map EntityId GhostEntry
  pub aoi_index : Map ZoneId Ref
  pub ghost_store : Map ZoneId (Map EntityId GhostEntry)
  pub peer_zone : Map ZoneId ServerId
  pub session_states : Map EntityId SessionState
  -- What the channel holds and nobody has received yet.
  pub events : List Event
  pub aoi_radius : ℕ
  pub ghost_ttl : ℕ
  pub reconnect_window : ℕ
  -- The stores, and the first reference that is not in use.
  pub entity_store : Map Ref Entity
  pub grid_store : Map Ref Aoi
  pub next_ref : Ref

-- `DefaultCellSize`, `DefaultAOIRadius` and `DefaultZoneID`, in the unit of the coordinates.
abbrev pub default_cell_size : ℕ
default_cell_size = 100

abbrev pub default_aoi_radius : ℕ
default_aoi_radius = 300

abbrev pub default_zone_id : ZoneId
default_zone_id = "default"

-- `New` with no option; times are nanoseconds.
unfoldable pub new : ServerId → Game
new sid = record {
  server_id = sid;
  zones = [];
  entities = [];
  entity_zone = [];
  entity_aoi = [];
  ghosts = [];
  aoi_index = [];
  ghost_store = [];
  peer_zone = [];
  session_states = [];
  events = [];
  aoi_radius = default_aoi_radius;
  ghost_ttl = 5_000_000_000;
  reconnect_window = 30_000_000_000;
  entity_store = [];
  grid_store = [];
  next_ref = 0;
}

-- A call on the grid behind a reference. Every reference in use has its grid.
on_grid : Map Ref Aoi → Ref → (Aoi → Aoi) → Option Aoi → Map Ref Aoi
on_grid store r f none = store
on_grid store r f (some a) = put store r (f a)

unfoldable pub update_grid : Map Ref Aoi → Ref → (Aoi → Aoi) → Map Ref Aoi
unfolding on_grid
update_grid store r f = on_grid store r f (get store r)
