-- ===== src/Room/Node.antt =====
-- internal/room/node.go and internal/room/allocator.go: a runtime node, and the choice of one.
pub mod Select
use spatial_server.Base.{
  ℕ, ◌+◌, ◌*◌, Bool, true, false, Option, none, some, List, [], ◌∷◌, if◌then◌else◌, ltb, leb, ◌==◌,
  ◌&&◌, not, String, string_key, Map,
}
use spatial_server.Base.Text.{decimal, ◌<>◌}
use spatial_server.Types.{ServerId, ServerStatus, server_status_key, Result, ok, err, no_capacity}

pub record NodeCapacity : Type 0 where
  pub max_zones : ℕ
  pub max_entities : ℕ

pub record NodeLoad : Type 0 where
  pub zone_count : ℕ
  pub active_entities : ℕ
  pub active_spaces : ℕ
  pub connected_users : ℕ
  pub queue_depth : ℕ
  pub tick_duration : ℕ

-- Times are instants on one clock, as numbers; 0 is the zero time.
pub record NodeDescriptor : Type 0 where
  pub node_id : ServerId
  pub advertise_addr : String
  pub host : String
  pub port : ℕ
  pub version : String
  pub build : String
  pub capacity : NodeCapacity
  pub load : NodeLoad
  pub labels : Map String String
  pub status : ServerStatus
  pub start_time : ℕ
  pub last_heartbeat : ℕ

-- `Address`
unfoldable pub address : NodeDescriptor → String
address d =
    if not (d.advertise_addr == "") then d.advertise_addr else d.host <> ":" <> decimal d.port

-- `CanAccept`
unfoldable pub can_accept : NodeDescriptor → Bool
can_accept d =
    if not (d.status == ServerStatus.active)
    then false
    else if ltb 0 d.capacity.max_zones && leb d.capacity.max_zones d.load.zone_count
    then false
    else true

unfoldable pub load_score : NodeDescriptor → ℕ
load_score n = n.load.zone_count * 100000 + n.load.active_entities

-- The loop of `Select`, over `best`. A candidate may be nil.
better : Option NodeDescriptor → NodeDescriptor → Bool
unfolding load_score
better none n = true
better (some best) n = ltb (load_score n) (load_score best)

consider : Option NodeDescriptor → NodeDescriptor → Option NodeDescriptor
unfolding better can_accept
consider best n = if not (can_accept n) then best else if better best n then some n else best

choose : Option NodeDescriptor → List (Option NodeDescriptor) → Option NodeDescriptor
unfolding consider
choose best [] = best
choose best (none ∷ candidates) = choose best candidates
choose best (some n ∷ candidates) = choose (consider best n) candidates

or_no_capacity : Option NodeDescriptor → Result NodeDescriptor
or_no_capacity none = err no_capacity
or_no_capacity (some n) = ok n

-- `LeastLoadedAllocator.Select`
unfoldable pub select : List (Option NodeDescriptor) → Result NodeDescriptor
unfolding choose or_no_capacity
select candidates = or_no_capacity (choose none candidates)
