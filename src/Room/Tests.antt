-- ===== src/Room/Tests.antt =====
-- internal/room: the room service on concrete calls.
use spatial_server.Base.{
  ◌≡◌, refl, true, none, some, List, [], ◌∷◌, String_dec, string_key, elem, arith, get, put,
  ne_of_test, keys, has_key, ℕ, ℕ_discrete,
}
use spatial_server.Types.{
  ServerId, ServerStatus, ServerStatus-discrete, ZoneStatus, server_status_key, ok, conflict,
  invalid_arg,
}
use spatial_server.Base.Int.{pos}
use spatial_server.Room.Runtimes.{
  SpatialServerApi, CreateRuntimeRequest, new_spatial_server_api, new_memory_runtime_store,
  create_runtime, destroy_runtime, get_runtime_info, answer, failed, internal, zone_names,
  or_default, status_active, status_destroyed,
}
use spatial_server.Room.Runtimes.Lifecycle.{made, runtime_lifecycle}
use spatial_server.Room.Node.{NodeDescriptor, can_accept, load_score, select}
use spatial_server.Room.Node.Select.{IsSelection, select-IsSelection}
use spatial_server.Room.Registry
use spatial_server.Room.Registry.{ServerRegistry, find, heartbeat, update_load, least_loaded}
use spatial_server.Room.Registry.Life.{
  Call, registering, beating, call, run, heard, chosen_was_heard,
}
use spatial_server.Room.Ownership.{ZoneOwnership, lookup}
use spatial_server.Room.Ownership.Exclusive
use spatial_server.Room.Ownership.Exclusive.{
  claiming, releasing, claim_result, release_result, gives_back, claim_exact, release_exact,
  owner_keeps,
}
use spatial_server.Room.Migration.{MigrationCoordinator, prepare_transfer, complete_transfer}
use spatial_server.Room.Migration.Transfer.{transfer_once}
use spatial_server.Room.Sweeper.{Sweeper, sweep}
use spatial_server.Room.Sweeper.Sweep.{buried, freed, sweep_exact}
use spatial_server.Room.Fanout.{OwnershipChange, WatcherFanout}
use spatial_server.Room.Fanout.Watch.{broadcast_all, filled_channel, broadcasts_fill}

abbrev node : ServerId → ℕ → ServerStatus → NodeDescriptor
node id zones status = record {
  node_id = id;
  advertise_addr = "";
  host = "127.0.0.1";
  port = 9000;
  version = "";
  build = "";
  capacity = record { max_zones = 4; max_entities = 0 };
  load = record {
    zone_count = zones;
    active_entities = 3;
    active_spaces = 0;
    connected_users = 0;
    queue_depth = 0;
    tick_duration = 0;
  };
  labels = [];
  status = status;
  start_time = 0;
  last_heartbeat = 0;
}

abbrev full : NodeDescriptor
full = node "a" 4 ServerStatus.active

abbrev busy : NodeDescriptor
busy = node "b" 2 ServerStatus.active

abbrev idle : NodeDescriptor
idle = node "c" 1 ServerStatus.active

select-idle : select (some full ∷ none ∷ some busy ∷ some idle ∷ []) ≡ ok idle
unfolding select can_accept load_score ServerStatus-discrete
select-idle = refl

select-IsSelection_example :
    IsSelection
      (some full ∷ none ∷ some busy ∷ some idle ∷ [])
      (select (some full ∷ none ∷ some busy ∷ some idle ∷ []))
select-IsSelection_example = select-IsSelection (some full ∷ none ∷ some busy ∷ some idle ∷ [])

abbrev joining : List Call
joining =
    registering (node "a" 0 ServerStatus.joining) 10 11
    ∷ registering (node "b" 2 ServerStatus.joining) 12 13
    ∷ beating "b" 20
    ∷ []

abbrev chosen : NodeDescriptor
chosen = record (node "b" 2 ServerStatus.active) { start_time = 13; last_heartbeat = 20 }

chosen_was_heard_example : (can_accept chosen ≡ true) × (elem "b" (heard [] joining) ≡ true)
unfolding Registry.new run call Registry.register heartbeat least_loaded Registry.list select get
    put has_key ServerStatus-discrete String_dec ℕ_discrete can_accept load_score
chosen_was_heard_example = chosen_was_heard joining chosen (ground arith, (ground arith, tt)) refl

abbrev two_servers : ServerRegistry
two_servers = record { svr = ("a", node "a" 0 ServerStatus.active) ∷ ("b", busy) ∷ [] }

abbrev table : ZoneOwnership
table = record { zones = ("z", "a") ∷ [] }

owner_keeps_example :
    lookup (Exclusive.run table (claiming "z" "b" ∷ releasing "z" "b" ∷ claiming "y" "b" ∷ [])) "z"
    ≡ some "a"
unfolding get gives_back String_dec lookup
owner_keeps_example =
    owner_keeps table (claiming "z" "b" ∷ releasing "z" "b" ∷ claiming "y" "b" ∷ []) "z" "a" refl
      refl

abbrev moving : MigrationCoordinator
moving = record {
  rows = ("z", record { owner = "a"; status = ZoneStatus.active }) ∷ [];
  listeners = [] ∷ [];
}

transfer_once_example :
    let p = prepare_transfer moving "z" "b" in
    let c = complete_transfer p.0 "z" "c" in
    (p.2 ≡ none)
    × (get p.0.rows "z" ≡ some (record { owner = "a"; status = ZoneStatus.transferring }))
    × ((prepare_transfer p.0 "z" "d").2 ≡ some conflict)
    × (c.1 ≡ none)
    × (get c.0.rows "z" ≡ some (record { owner = "c"; status = ZoneStatus.active }))
    × (c.0.listeners ≡ (record { zone = "z"; owner = "c"; status = ZoneStatus.active } ∷ []) ∷ [])
    × ((complete_transfer c.0 "z" "d").1 ≡ some invalid_arg)
    × ((prepare_transfer c.0 "z" "d").2 ≡ none)
unfolding get String_dec
transfer_once_example =
    transfer_once moving "z" (record { owner = "a"; status = ZoneStatus.active }) "b" "c" "d" refl
      refl

abbrev sweeper : Sweeper
sweeper = record {
  reg = two_servers;
  zo = table;
  cfg = record { interval = 5; miss_threshold = 15 };
  has_reassign = true;
  reassigned = [];
}

sweep_exact_example :
    (get (sweep sweeper 100).reg.svr "a" ≡ buried sweeper.cfg 100 (get two_servers.svr "a"))
    × (get (sweep sweeper 100).zo.zones "z"
        ≡ freed sweeper.cfg 100 two_servers (get table.zones "z"))
unfolding keys elem String_dec
sweep_exact_example = sweep_exact sweeper 100 "a" "z" (refl, (refl, tt))

abbrev change : OwnershipChange
change = record { zone_id = "z"; server_id = "a"; host = "127.0.0.1"; port = 9000 }

abbrev watched : WatcherFanout
watched = record { channels = ("w1", []) ∷ []; next_id = 1 }

broadcasts_fill_example :
    get (broadcast_all watched (change ∷ change ∷ [])).channels "w1"
    ≡ filled_channel (get watched.channels "w1") (change ∷ change ∷ [])
broadcasts_fill_example = broadcasts_fill watched (change ∷ change ∷ []) "w1"

abbrev api : SpatialServerApi
api = record {
  store = record {
    records = ("old", made asked_old (new_spatial_server_api new_memory_runtime_store "g") 3) ∷ [];
  };
  gateway_addr = "gateway:8080";
  default_zones = 1;
  default_size = 100;
}
  where
    asked_old : CreateRuntimeRequest
    asked_old = record { runtime_id = "old"; zone_count = pos 2; zone_size = pos 50 }

abbrev asked : CreateRuntimeRequest
asked = record { runtime_id = "new"; zone_count = pos 0; zone_size = pos 50 }

runtime_lifecycle_example :
    let c = create_runtime api asked 5 in
    let d = destroy_runtime c.0 "new" in
    (c.1
      ≡ answer (record {
        runtime_id = "new";
        gateway_addr = "gateway:8080";
        zone_count = 1;
        zones = zone_names "new" 1;
      }))
    × (get_runtime_info c.0 "new"
        ≡ answer (record {
          runtime_id = "new";
          status = status_active;
          zone_count = 1;
          player_count = 0;
          created_at = 5;
        }))
    × (d.1 ≡ answer true)
    × (get_runtime_info d.0 "new"
        ≡ answer (record {
          runtime_id = "new";
          status = status_destroyed;
          zone_count = 1;
          player_count = 0;
          created_at = 5;
        }))
    × ((create_runtime d.0 asked 9).1 ≡ failed (internal conflict))
unfolding get String_dec or_default
runtime_lifecycle_example = runtime_lifecycle api asked 5 9 (ne_of_test "new" "" refl) refl
