-- ===== src/Room/Service.antt =====
-- apps/room-service/main.go: the calls of the coordinator, on the repositories.
pub mod Lookup
pub mod Replies
pub mod Repeats
mod Tests
use spatial_server.Base.{ℕ, Bool, true, false, Option, none, some, List, [], ◌∷◌, String, Map}
use spatial_server.Types.{ServerId, ServerStatus, Result, ok, err}
use spatial_server.Room.Node.{NodeDescriptor, NodeLoad, address, select}
use spatial_server.Room.Database.{Database, Answer, answer, refused, failed}
use spatial_server.Room.Database.Servers as Servers
use spatial_server.Room.Database.Zones as Zones

-- The messages of proto/spatialserver/v1/room_service.proto.
pub record RegisterRequest : Type 0 where
  pub server_id : String
  pub advertise_addr : String
  pub host : String
  pub port : ℕ
  pub version : String
  pub build : String
  pub max_zones : ℕ
  pub labels : Map String String

pub record HeartbeatRequest : Type 0 where
  pub node_id : String
  pub active_entities : ℕ
  pub active_spaces : ℕ
  pub connected_users : ℕ
  pub queue_depth : ℕ
  pub tick_duration_ms : ℕ

pub record LookupZoneResponse : Type 0 where
  pub server : String
  pub advertise_addr : String

-- The codes of the errors that `LookupZone` returns.
pub data Code : Type 0 where
  unavailable internal : Code

pub data Reply : Type 0 where
  reply : LookupZoneResponse → Reply
  status : Code → Reply

succeeded : Answer Unit → Bool
succeeded (answer _) = true
succeeded (refused e) = false
succeeded failed = false

-- The descriptor of a registration; its status is the zero value, `joining`.
unfoldable pub descriptor_of : RegisterRequest → NodeDescriptor
descriptor_of req = record {
  node_id = req.server_id;
  advertise_addr = req.advertise_addr;
  host = req.host;
  port = req.port;
  version = req.version;
  build = req.build;
  capacity = record { max_zones = req.max_zones; max_entities = 0 };
  load = record {
    zone_count = 0;
    active_entities = 0;
    active_spaces = 0;
    connected_users = 0;
    queue_depth = 0;
    tick_duration = 0;
  };
  labels = req.labels;
  status = ServerStatus.joining;
  start_time = 0;
  last_heartbeat = 0;
}

-- The answer is the field `Success`.
unfoldable pub register : Database → RegisterRequest → Bool × Database
unfolding succeeded descriptor_of Servers.register
register d req = let r = Servers.register d (descriptor_of req) in (succeeded r.0, r.1)

-- The answer is the field `Acknowledged`.
unfoldable pub heartbeat : Database → HeartbeatRequest → Bool × Database
unfolding succeeded Servers.heartbeat
heartbeat d req =
    let load : NodeLoad = record {
      zone_count = 0;
      active_entities = req.active_entities;
      active_spaces = req.active_spaces;
      connected_users = req.connected_users;
      queue_depth = req.queue_depth;
      tick_duration = req.tick_duration_ms;
    } in
    let r = Servers.heartbeat d req.node_id load in (succeeded r.0, r.1)

unfoldable pub response : NodeDescriptor → Reply
response info = reply (record { server = info.node_id; advertise_addr = address info })

-- `LookupZone` from its end: after the claim, after the choice, after the list of the servers.
claimed : NodeDescriptor → Database → Answer Unit → Reply × Database
unfolding response
claimed server d (answer _) = (response server, d)
claimed server d (refused e) = (status Code.internal, d)
claimed server d failed = (status Code.internal, d)

selected : Database → String → Result NodeDescriptor → Reply × Database
unfolding claimed Zones.claim
selected d zone (err e) = (status Code.unavailable, d)
selected d zone (ok server) = let r = Zones.claim d zone "" server.node_id in claimed server r.1 r.0

listed : Database → String → Answer (List (Option NodeDescriptor)) → Reply × Database
unfolding selected
listed d zone (refused e) = (status Code.unavailable, d)
listed d zone failed = (status Code.unavailable, d)
listed d zone (answer []) = (status Code.unavailable, d)
listed d zone (answer (node ∷ nodes)) = selected d zone (select (node ∷ nodes))

-- The lines of `LookupZone` for a zone that has no owner that can be reached.
unfoldable pub assign : Database → String → Reply × Database
unfolding listed Servers.list_servers
assign d zone = let r = Servers.list_servers d in listed r.1 zone r.0

described : Database → String → Answer NodeDescriptor → Reply × Database
unfolding response assign
described d zone (answer info) = (response info, d)
described d zone (refused e) = assign d zone
described d zone failed = assign d zone

located : Database → String → Answer ServerId → Reply × Database
unfolding described assign Servers.get_server
located d zone (answer id) = let r = Servers.get_server d id in described r.1 zone r.0
located d zone (refused e) = assign d zone
located d zone failed = assign d zone

unfoldable pub lookup_zone : Database → String → Reply × Database
unfolding located Zones.lookup
lookup_zone d zone = let r = Zones.lookup d zone in located r.1 zone r.0
