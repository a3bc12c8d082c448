-- ===== src/Game/Events.antt =====
-- internal/game/simulation.go, event.go: what the simulation tells the observers of an entity.
pub mod Moves
pub mod Changes
pub mod Visibility
use spatial_server.Base.{
  ℕ, ◌≡◌, refl, Bool, true, false, Option, none, some, List, [], ◌∷◌, ◌++◌, if◌then◌else◌, ◌==◌,
  String, string_key, nat_key, Map, get, put, has_key, elem, not, ◌&&◌,
}
use spatial_server.Base.Int.{pos}
use spatial_server.Base.Queue.{offer, offers}
use spatial_server.Types.{EntityId, ZoneId, RuntimeId, Vector3}
use spatial_server.Game.Aoi
use spatial_server.Game.Aoi.{Aoi}
use spatial_server.Game.State.{
  Game, Entity, ZoneSim, EntityAoiState, Event, EventKind, Ref, inbox_buffer_size, update_grid,
}

-- The `select` with a default: a full channel drops the event.
unfoldable pub publish : Game → Event → Game
publish g event = record g { events = offer inbox_buffer_size g.events event }

-- The calls of `publish` of a loop
unfoldable pub publish_all : Game → List Event → Game
unfolding publish
publish_all g [] = g
publish_all g (event ∷ events) = publish_all (publish g event) events

pub publish_all_lem :
    (g : Game) (events : List Event)
    → publish_all g events ≡ record g { events = offers inbox_buffer_size g.events events }
unfolding publish_all publish offers
publish_all_lem g [] = refl
publish_all_lem g (event ∷ events) = publish_all_lem (publish g event) events

abbrev zero_position : Vector3
zero_position = record { x = pos 0; y = pos 0; z = pos 0 }

unfoldable pub move_event : RuntimeId → EntityId → Vector3 → EntityId → Event
move_event space id position observer = record {
  kind = EventKind.moved;
  space = space;
  observer = observer;
  entity_id = id;
  type_name = "";
  position = position;
  payload = [];
}

-- The events of a loop over the observers, which passes over the entity itself.
unfoldable pub told : EntityId → (EntityId → Event) → List EntityId → List Event
told id event [] = []
told id event (o ∷ rest) =
    let later = told id event rest in if o == id then later else event o ∷ later

in_range_of : Option Aoi → Vector3 → ℕ → List EntityId
in_range_of none p radius = []
in_range_of (some a) p radius = Aoi.entities_in_range a p radius

-- The range query on the grid behind a reference.
unfoldable pub in_range : Game → Ref → Vector3 → List EntityId
unfolding in_range_of
in_range g r p = in_range_of (get g.grid_store r) p g.aoi_radius

sim_in : Game → Option ZoneId → Option ZoneSim
sim_in g none = none
sim_in g (some zid) = get g.zones zid

-- The simulation of the zone that an entity is registered in.
unfoldable pub sim_of : Game → EntityId → Option ZoneSim
unfolding sim_in
sim_of g id = sim_in g (get g.entity_zone id)

unfoldable pub entity_at : Game → Option Ref → Option Entity
entity_at g none = none
entity_at g (some r) = get g.entity_store r

unfoldable pub entity_of : Game → EntityId → Option Entity
unfolding entity_at
entity_of g id = entity_at g (get g.entities id)

unfoldable pub runtime_or_empty : Option Entity → RuntimeId
runtime_or_empty none = ""
runtime_or_empty (some e) = e.runtime_id

unfoldable pub enqueue_move_in : Game → EntityId → Vector3 → Option ZoneSim → Game
unfolding publish_all told move_event in_range runtime_or_empty
enqueue_move_in g id p none = g
enqueue_move_in g id p (some sim) =
    publish_all g
      (told id (move_event (runtime_or_empty (entity_of g id)) id p) (in_range g sim.aoi p))

unfoldable pub enqueue_move : Game → EntityId → Vector3 → Game
unfolding enqueue_move_in
enqueue_move g id p = enqueue_move_in g id p (sim_of g id)

unfoldable pub move_in_grid : Game → EntityId → Vector3 → Option ZoneSim → Game
unfolding update_grid
move_in_grid g id p none = g
move_in_grid g id p (some sim) = record g {
  grid_store = update_grid g.grid_store sim.aoi (λ a. Aoi.move a id p);
}

unfoldable pub position_update_of : Game → Vector3 → Option Ref → Option Entity → Game
unfolding move_in_grid enqueue_move
position_update_of g p (some r) (some e) =
    let moved : Game = record g {
      entity_store = put g.entity_store r (record e { position = p });
    } in
    enqueue_move (move_in_grid moved e.id p (sim_of moved e.id)) e.id p
position_update_of g p _ _ = g

-- `dispatch` of a decoded position update of a client, which moves the entity of its own name.
unfoldable pub position_update : Game → EntityId → Vector3 → Game
unfolding position_update_of
position_update g client p = position_update_of g p (get g.entities client) (entity_of g client)

unfoldable pub state_event : RuntimeId → EntityId → List ℕ → EntityId → Event
state_event space id frame observer = record {
  kind = EventKind.state;
  space = space;
  observer = observer;
  entity_id = id;
  type_name = "";
  position = zero_position;
  payload = frame;
}

entity_state_of : Game → List ℕ → Option Entity → Option ZoneSim → Game
unfolding publish_all told state_event in_range
entity_state_of g frame (some e) (some sim) =
    publish_all g (told e.id (state_event e.runtime_id e.id frame) (in_range g sim.aoi e.position))
entity_state_of g frame _ _ = g

sim_of_entity : Game → Option Entity → Option ZoneSim
sim_of_entity g none = none
sim_of_entity g (some e) = sim_of g e.id

-- `dispatch` of a decoded state of an entity, with the payload as it came.
unfoldable pub entity_state : Game → EntityId → List ℕ → Game
unfolding entity_state_of sim_of_entity
entity_state g id frame =
    entity_state_of g frame (entity_of g id) (sim_of_entity g (entity_of g id))

spawn_event : Entity → Entity → Event
spawn_event e other = record {
  kind = EventKind.spawn;
  space = e.runtime_id;
  observer = e.id;
  entity_id = other.id;
  type_name = other.kind;
  position = other.position;
  payload = [];
}

despawn_event : Entity → EntityId → Event
despawn_event e id = record {
  kind = EventKind.despawn;
  space = e.runtime_id;
  observer = e.id;
  entity_id = id;
  type_name = "";
  position = zero_position;
  payload = [];
}

spawn_of : Entity → Option Entity → List Event → List Event
unfolding spawn_event
spawn_of e none later = later
spawn_of e (some other) later = spawn_event e other ∷ later

-- What `updateVisibility` publishes for the entities that have come into view.
unfoldable pub spawns : Game → Entity → List EntityId → List EntityId → List Event
unfolding spawn_of
spawns g e visible [] = []
spawns g e visible (id ∷ rest) =
    let later = spawns g e visible rest in
    if not (elem id visible) && not (id == e.id) then spawn_of e (entity_of g id) later else later

-- What it publishes for those that have gone out of view.
unfoldable pub despawns : Entity → List EntityId → List EntityId → List Event
unfolding despawn_event
despawns e current [] = []
despawns e current (id ∷ rest) =
    let later = despawns e current rest in
    if not (elem id current) then despawn_event e id ∷ later else later

unfoldable pub visible_of : Option EntityAoiState → List EntityId
visible_of none = []
visible_of (some st) = st.visible

-- `currentSet`: each entity once.
unfoldable pub set_of : List EntityId → List EntityId
set_of [] = []
set_of (id ∷ rest) = let later = set_of rest in if elem id later then later else id ∷ later

-- The body of the loop of `updateVisibility`. The order of the two loops over sets is that of the lists.
unfoldable pub look_around : Game → ZoneSim → Entity → Game
unfolding publish_all spawns despawns in_range visible_of set_of
look_around g sim e =
    let current = set_of (in_range g sim.aoi e.position) in
    let visible = visible_of (get g.entity_aoi e.id) in
    let told = publish_all g (spawns g e visible current ++ despawns e current visible) in
    record told {
      entity_aoi =
          put told.entity_aoi e.id (record { visible = current; last_position = e.position });
    }

look_from : Game → ZoneSim → Option Entity → Game
unfolding look_around
look_from g sim none = g
look_from g sim (some e) = look_around g sim e

unfoldable pub look_all : Game → ZoneSim → Map EntityId Ref → Game
unfolding look_from
look_all g sim [] = g
look_all g sim ((id, r) ∷ rest) = look_all (look_from g sim (get g.entity_store r)) sim rest

update_visibility_in : Game → Option ZoneSim → Game
unfolding look_all
update_visibility_in g none = g
update_visibility_in g (some sim) = look_all g sim sim.entities

unfoldable pub update_visibility : Game → ZoneId → Game
unfolding update_visibility_in
update_visibility g zid = update_visibility_in g (get g.zones zid)
