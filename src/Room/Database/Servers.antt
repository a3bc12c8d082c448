-- ===== src/Room/Database/Servers.antt =====
-- internal/storage/room/server_repo.go: `ServerRepository`, the servers in the database.
use spatial_server.Base.{
  false, ℕ, ◌+◌, ◌*◌, ◌/◌, Bool, Option, none, some, List, [], ◌∷◌, if◌then◌else◌, ◌==◌, ltb,
  String, string_key, Map, get, put, delete,
}
use spatial_server.Types.{ServerId, ServerStatus, show_server_status, not_found}
use spatial_server.Room.Node.{NodeDescriptor, NodeLoad}
use spatial_server.Room.Database.{
  Database, ServerRow, ZoneRow, Answer, answer, refused, failed, fails, asked,
}

-- The row that `INSERT ... ON CONFLICT (id) DO UPDATE` leaves.
upserted : ℕ → NodeDescriptor → Option ServerRow → ServerRow
upserted now info none = record {
  host = info.host;
  port = info.port;
  status = show_server_status info.status;
  max_zones = info.capacity.max_zones;
  last_heartbeat = now;
}
upserted now info (some row) = record row {
  host = info.host;
  port = info.port;
  max_zones = info.capacity.max_zones;
}

unfoldable pub register : Database → NodeDescriptor → Answer Unit × Database
unfolding upserted
register d info = if fails d then (failed, asked d) else (
  answer tt,
  record (asked d) {
    servers = put d.servers info.node_id (upserted d.now info (get d.servers info.node_id));
  },
)

beat : Database → ServerId → Option ServerRow → Answer Unit × Database
beat d id none = (refused not_found, d)
beat d id (some row) = (
  answer tt,
  record d {
    servers = put d.servers id (record row { status = "active"; last_heartbeat = d.now });
  },
)

unfoldable pub heartbeat : Database → ServerId → NodeLoad → Answer Unit × Database
unfolding beat
heartbeat d id load = if fails d then (failed, asked d) else beat (asked d) id (get d.servers id)

-- What `Scan` fills in of a descriptor; the status is set to active, whatever the row says.
unfoldable pub scanned : ServerId → ServerRow → ℕ → NodeDescriptor
scanned id row heard = record {
  node_id = id;
  advertise_addr = "";
  host = row.host;
  port = row.port;
  version = "";
  build = "";
  capacity = record { max_zones = row.max_zones; max_entities = 0 };
  load = record {
    zone_count = 0;
    active_entities = 0;
    active_spaces = 0;
    connected_users = 0;
    queue_depth = 0;
    tick_duration = 0;
  };
  labels = [];
  status = ServerStatus.active;
  start_time = 0;
  last_heartbeat = heard;
}

-- `scanServer`, on the row of the query or no row.
unfoldable pub scan_server : Database → ServerId → Option ServerRow → Answer NodeDescriptor
unfolding scanned
scan_server d id none = refused not_found
scan_server d id (some row) = answer (scanned id row d.now)

unfoldable pub get_server : Database → ServerId → Answer NodeDescriptor × Database
unfolding scan_server
get_server d id =
    if fails d then (failed, asked d) else (scan_server d id (get d.servers id), asked d)

-- The rows of `WHERE status='active'`, in the order of the table.
unfoldable pub active_servers : Map ServerId ServerRow → List (Option NodeDescriptor)
unfolding scanned
active_servers [] = []
active_servers ((id, row) ∷ m) =
    let rest = active_servers m in
    if row.status == "active" then some (scanned id row 0) ∷ rest else rest

unfoldable pub list_servers : Database → Answer (List (Option NodeDescriptor)) × Database
unfolding active_servers
list_servers d = if fails d then (failed, asked d) else (answer (active_servers d.servers), asked d)

-- The interval is a number of whole seconds.
unfoldable pub whole_seconds : ℕ → ℕ
whole_seconds since = since / 1_000_000_000 * 1_000_000_000

unfoldable pub is_dead_row : ℕ → ℕ → ServerRow → Bool
unfolding whole_seconds
is_dead_row now since row =
    if row.status == "active" then ltb (row.last_heartbeat + whole_seconds since) now else false

unfoldable pub dead_servers : ℕ → ℕ → Map ServerId ServerRow → List ServerId
unfolding is_dead_row
dead_servers now since [] = []
dead_servers now since ((id, row) ∷ m) =
    let rest = dead_servers now since m in if is_dead_row now since row then id ∷ rest else rest

unfoldable pub list_dead : Database → ℕ → Answer (List ServerId) × Database
unfolding dead_servers
list_dead d since =
    if fails d then (failed, asked d) else (answer (dead_servers d.now since d.servers), asked d)

unfoldable pub shut_row :
    Map ServerId ServerRow → ServerId → Option ServerRow → Map ServerId ServerRow
shut_row m id none = m
shut_row m id (some row) = put m id (record row { status = "shutdown" })

unfoldable pub mark_shutdown : Database → ServerId → Answer Unit × Database
unfolding shut_row
mark_shutdown d id =
    if fails d
    then (failed, asked d)
    else (answer tt, record (asked d) { servers = shut_row d.servers id (get d.servers id) })

-- `ON DELETE SET NULL` of the zones of the server.
unfoldable pub disowned : ServerId → Map String ZoneRow → Map String ZoneRow
disowned id [] = []
disowned id ((zone, row) ∷ m) =
    let rest = disowned id m in
    elim row.server_id [
      | none ↦ (zone, row) ∷ rest
      | some owner ↦
          if owner == id then (zone, record row { server_id = none }) ∷ rest else (zone, row) ∷ rest
    ]

unfoldable pub remove : Database → ServerId → Answer Unit × Database
unfolding disowned
remove d id = if fails d then (failed, asked d) else (
  answer tt,
  record (asked d) { servers = delete d.servers id; zones = disowned id d.zones },
)
