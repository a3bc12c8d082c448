-- ===== src/Room/Sweeper.antt =====
-- internal/room/sweeper.go: servers whose heartbeats stopped lose their zones.
pub mod Sweep
use spatial_server.Base.{
  ℕ, ◌-◌, Bool, true, false, Option, none, some, List, [], ◌∷◌, ◌++◌, if◌then◌else◌, ◌==◌, ltb,
  String, string_key, nat_key, Map, get, put, retain, not,
}
use spatial_server.Types.{ServerId, ServerStatus, server_status_key}
use spatial_server.Room.Node.{NodeDescriptor}
use spatial_server.Room.Registry.{ServerRegistry, least_loaded}
use spatial_server.Room.Ownership.{ZoneOwnership}

-- Durations are numbers of nanoseconds.
pub record SweeperConfig : Type 0 where
  pub interval : ℕ
  pub miss_threshold : ℕ

unfoldable pub with_defaults : SweeperConfig → SweeperConfig
with_defaults cfg = record {
  interval = if cfg.interval == 0 then 5_000_000_000 else cfg.interval;
  miss_threshold = if cfg.miss_threshold == 0 then 15_000_000_000 else cfg.miss_threshold;
}

-- A call of the `reassign` callback.
pub record Reassignment : Type 0 where
  pub zone : String
  pub target : ServerId

-- The registry, the table, and the calls of the callback so far. A sweeper without a callback makes
-- none.
pub record Sweeper : Type 0 where
  pub reg : ServerRegistry
  pub zo : ZoneOwnership
  pub cfg : SweeperConfig
  pub has_reassign : Bool
  pub reassigned : List Reassignment

unfoldable pub new : ServerRegistry → ZoneOwnership → SweeperConfig → Bool → Sweeper
unfolding with_defaults
new reg zo cfg has_reassign = record {
  reg = reg;
  zo = zo;
  cfg = with_defaults cfg;
  has_reassign = has_reassign;
  reassigned = [];
}

-- A heartbeat later than `now` is no miss.
unfoldable pub is_dead : SweeperConfig → ℕ → NodeDescriptor → Bool
is_dead cfg now info =
    if info.status == ServerStatus.shutdown
    then false
    else ltb cfg.miss_threshold (now - info.last_heartbeat)

unfoldable pub dead_in : SweeperConfig → ℕ → Map ServerId NodeDescriptor → List ServerId
dead_in cfg now [] = []
dead_in cfg now ((id, info) ∷ m) =
    let rest = dead_in cfg now m in if is_dead cfg now info then id ∷ rest else rest

shut : Map ServerId NodeDescriptor → ServerId → Option NodeDescriptor → Map ServerId NodeDescriptor
shut m id none = m
shut m id (some info) = put m id (record info { status = ServerStatus.shutdown })

unfoldable pub mark_shutdown : ServerRegistry → ServerId → ServerRegistry
unfolding shut
mark_shutdown r id = record { svr = shut r.svr id (get r.svr id) }

unfoldable pub zones_of : ServerId → Map String ServerId → List String
zones_of dead [] = []
zones_of dead ((zone, owner) ∷ m) =
    let rest = zones_of dead m in if owner == dead then zone ∷ rest else rest

-- What the loop over the orphaned zones does with one of them.
hand_over : Sweeper → String → Option NodeDescriptor → Sweeper
hand_over s zone none = s
hand_over s zone (some target) =
    if s.has_reassign
    then record s {
      reassigned = s.reassigned ++ record { zone = zone; target = target.node_id } ∷ [];
    }
    else s

unfoldable pub hand_over_all : Sweeper → List String → Sweeper
unfolding hand_over
hand_over_all s [] = s
hand_over_all s (zone ∷ zones) = hand_over_all (hand_over s zone (least_loaded s.reg)) zones

unfoldable pub reassign_zones_of : Sweeper → ServerId → Sweeper
unfolding hand_over_all zones_of
reassign_zones_of s dead =
    let orphaned = zones_of dead s.zo.zones in
    hand_over_all
      (record s { zo = record { zones = retain (λ zone owner. not (owner == dead)) s.zo.zones } })
      orphaned

unfoldable pub bury : Sweeper → List ServerId → Sweeper
unfolding mark_shutdown reassign_zones_of
bury s [] = s
bury s (id ∷ ids) = bury (reassign_zones_of (record s { reg = mark_shutdown s.reg id }) id) ids

unfoldable pub sweep : Sweeper → ℕ → Sweeper
unfolding bury dead_in is_dead
sweep s now = bury s (dead_in s.cfg now s.reg.svr)
