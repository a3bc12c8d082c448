-- ===== src/Room/Service/Tests.antt =====
-- apps/room-service and internal/storage/room: lookups and a sweep on concrete tables.
use spatial_server.Base.{
  ◌≡◌, refl, ◌⊎◌, Bool, true, false, none, some, List, [], ◌∷◌, String, String_dec, string_key,
  elem, keys, get, NodupKeys, put, has_key,
}
use spatial_server.Room.Node.{select}
use spatial_server.Types.{ServerStatus-discrete}
use spatial_server.Room.Database.{fails, asked, Database, ServerRow, ZoneRow}
use spatial_server.Room.Database.Servers.{dead_servers}
use spatial_server.Room.Database.Live.{first_active}
use spatial_server.Room.Database.Shut.{shut_if}
use spatial_server.Room.Production.{ProductionSweeper, sweep}
use spatial_server.Room.Production.Rehomed.{rehomed_all, sweep_rehomes}
use spatial_server.Room.Service.{lookup_zone}
use spatial_server.Room.Service.Lookup.{IsAssigned, lookup_zone-Assigns}
use spatial_server.Room.Service.Replies.{expected, lookup_zone_answers}
use spatial_server.Room.Service.Repeats.{lookup_zone_repeats}

abbrev host : String → ServerRow
host name = record {
  host = name;
  port = 9000;
  status = "active";
  max_zones = 4;
  last_heartbeat = 1_000_000_000;
}

abbrev free_zone : ZoneRow
free_zone = record {
  runtime_id = "r";
  grid_x = 0;
  grid_y = 0;
  status = "unowned";
  server_id = none;
}

abbrev owned_zone : ZoneRow
owned_zone = record free_zone { status = "active"; server_id = some "a" }

-- A dead server `a` that owns the zone `y`, a server `b` that beats, and a zone `z` without an owner.
abbrev tables : List Bool → Database
tables faults = record {
  servers =
      ("a", host "10.0.0.1")
      ∷ ("b", record (host "10.0.0.2") { last_heartbeat = 90_000_000_000 })
      ∷ [];
  zones = ("y", owned_zone) ∷ ("z", free_zone) ∷ [];
  runtimes = "r" ∷ [];
  now = 100_000_000_000;
  faults = faults;
}

servers_apart : NodupKeys {K = String} (tables []).servers
unfolding keys elem String_dec
servers_apart = (refl, (refl, tt))

lookup_zone-Assigns_example :
    ((lookup_zone (tables (false ∷ false ∷ true ∷ [])) "z").1.servers ≡ (tables []).servers)
    × ((other : String)
        → (get (lookup_zone (tables (false ∷ false ∷ true ∷ [])) "z").1.zones other
            ≡ get (tables []).zones other)
          ⊎ ((other ≡ "z")
              × IsAssigned
                  (tables (false ∷ false ∷ true ∷ []))
                  (lookup_zone (tables (false ∷ false ∷ true ∷ [])) "z").1
                  "z"))
lookup_zone-Assigns_example =
    lookup_zone-Assigns (tables (false ∷ false ∷ true ∷ [])) "z" servers_apart

lookup_zone_answers_example : lookup_zone (tables []) "z" ≡ expected (tables []) "z"
lookup_zone_answers_example = lookup_zone_answers (tables []) "z" refl servers_apart

lookup_zone_repeats_example :
    lookup_zone (lookup_zone (tables []) "z").1 "z" ≡ lookup_zone (tables []) "z"
lookup_zone_repeats_example = lookup_zone_repeats (tables []) "z" refl servers_apart

abbrev sweeper : ProductionSweeper
sweeper = record {
  db = tables [];
  fanout = none;
  cfg = record { interval = 5_000_000_000; miss_threshold = 15_000_000_000 };
}

sweep_rehomes_example :
    (get (sweep sweeper).db.servers "a"
      ≡ shut_if
          (elem "a" (dead_servers 100_000_000_000 15_000_000_000 (tables []).servers))
          (some (host "10.0.0.1")))
    × (get (sweep sweeper).db.zones "y"
        ≡ rehomed_all
            (first_active (sweep sweeper).db.servers)
            (dead_servers 100_000_000_000 15_000_000_000 (tables []).servers)
            (some owned_zone))
unfolding get String_dec
sweep_rehomes_example = sweep_rehomes sweeper "a" "y" refl servers_apart

-- The zone of the dead server goes to the other one.
sweep_moves : get (sweep sweeper).db.zones "y" ≡ some (record owned_zone { server_id = some "b" })
unfolding sweep dead_servers has_key get put elem String_dec fails asked select
    ServerStatus-discrete
sweep_moves = refl
