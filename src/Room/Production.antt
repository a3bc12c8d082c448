-- ===== src/Room/Production.antt =====
-- internal/room/sweeper_production.go: the sweeper of the coordinator that runs on the database. Its
-- stores are the repositories, which have all the methods that it asks for.
pub mod Handed
pub mod Rehomed
use spatial_server.Base.{ℕ, Option, none, some, List, [], ◌∷◌, if◌then◌else◌, ◌==◌, String}
use spatial_server.Types.{ServerId, Result, ok, err}
use spatial_server.Room.Node.{NodeDescriptor, select}
use spatial_server.Room.Fanout.{WatcherFanout, OwnershipChange, broadcast}
use spatial_server.Room.Sweeper.{SweeperConfig, with_defaults}
use spatial_server.Room.Database.{Database, Answer, answer, refused, failed}
use spatial_server.Room.Database.Servers.{list_servers, list_dead, mark_shutdown}
use spatial_server.Room.Database.Zones.{claim, release, list_by_server}

-- The fanout may be nil.
pub record ProductionSweeper : Type 0 where
  pub db : Database
  pub fanout : Option WatcherFanout
  pub cfg : SweeperConfig

unfoldable pub new : Database → Option WatcherFanout → SweeperConfig → ProductionSweeper
unfolding with_defaults
new db fanout cfg = record { db = db; fanout = fanout; cfg = with_defaults cfg }

unfoldable pub change_to : String → NodeDescriptor → OwnershipChange
change_to zone target = record {
  zone_id = zone;
  server_id = target.node_id;
  host = target.host;
  port = target.port;
}

tell : OwnershipChange → Option WatcherFanout → Option WatcherFanout
unfolding broadcast
tell change none = none
tell change (some f) = some (broadcast f change)

-- The body of the loop of `reassignZonesFor`, from its end: after the claim, after the choice of the
-- target, after the list of the servers and after the release.
claimed : String → NodeDescriptor → ProductionSweeper → Answer Unit → ProductionSweeper
unfolding tell change_to
claimed zone target s (answer _) = record s { fanout = tell (change_to zone target) s.fanout }
claimed zone target s (refused e) = s
claimed zone target s failed = s

chosen : String → ProductionSweeper → Result NodeDescriptor → ProductionSweeper
unfolding claimed claim
chosen zone s (err e) = s
chosen zone s (ok target) =
    let r = claim s.db zone "" target.node_id in claimed zone target (record s { db = r.1 }) r.0

listed : String → ProductionSweeper → Answer (List (Option NodeDescriptor)) → ProductionSweeper
unfolding chosen
listed zone s (refused e) = s
listed zone s failed = s
listed zone s (answer []) = s
listed zone s (answer (node ∷ nodes)) = chosen zone s (select (node ∷ nodes))

released : String → ProductionSweeper → Answer Unit → ProductionSweeper
unfolding listed list_servers
released zone s (refused e) = s
released zone s failed = s
released zone s (answer _) = let r = list_servers s.db in listed zone (record s { db = r.1 }) r.0

unfoldable pub reassign_zone : ProductionSweeper → ServerId → String → ProductionSweeper
unfolding released release
reassign_zone s dead zone =
    let r = release s.db zone dead in released zone (record s { db = r.1 }) r.0

unfoldable pub reassign_zones : ProductionSweeper → ServerId → List String → ProductionSweeper
unfolding reassign_zone
reassign_zones s dead [] = s
reassign_zones s dead (zone ∷ zones) = reassign_zones (reassign_zone s dead zone) dead zones

orphans : ProductionSweeper → ServerId → Answer (List String) → ProductionSweeper
unfolding reassign_zones
orphans s dead (answer zones) = reassign_zones s dead zones
orphans s dead (refused e) = s
orphans s dead failed = s

unfoldable pub reassign_zones_for : ProductionSweeper → ServerId → ProductionSweeper
unfolding orphans list_by_server
reassign_zones_for s dead =
    let r = list_by_server s.db dead in orphans (record s { db = r.1 }) dead r.0

-- The body of the loop of `sweep`, after the call of `MarkShutdown`.
marked : ProductionSweeper → ServerId → Answer Unit → ProductionSweeper
unfolding reassign_zones_for
marked s dead (answer _) = reassign_zones_for s dead
marked s dead (refused e) = s
marked s dead failed = s

unfoldable pub bury : ProductionSweeper → List ServerId → ProductionSweeper
unfolding marked mark_shutdown
bury s [] = s
bury s (dead ∷ ids) =
    let r = mark_shutdown s.db dead in bury (marked (record s { db = r.1 }) dead r.0) ids

found_dead : ProductionSweeper → Answer (List ServerId) → ProductionSweeper
unfolding bury
found_dead s (answer ids) = bury s ids
found_dead s (refused e) = s
found_dead s failed = s

-- The time of the tick is not used: the database compares the heartbeats with its own clock.
unfoldable pub sweep : ProductionSweeper → ProductionSweeper
unfolding found_dead list_dead
sweep s = let r = list_dead s.db s.cfg.miss_threshold in found_dead (record s { db = r.1 }) r.0
