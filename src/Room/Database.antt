-- ===== src/Room/Database.antt =====
-- internal/storage/room: the tables of the coordinator in PostgreSQL, and a call of the database.
pub mod Servers
pub mod Zones
pub mod Live
pub mod Reliable
pub mod Shut
use spatial_server.Base.{ℕ, Bool, false, Option, List, [], ◌∷◌, String, Map}
use spatial_server.Types.{Error, RuntimeId, ServerId}

-- A row of the table `game_servers`; its key is the column `id`.
pub record ServerRow : Type 0 where
  pub host : String
  pub port : ℕ
  pub status : String
  pub max_zones : ℕ
  pub last_heartbeat : ℕ

-- A row of the table `zones`; its key is the column `id`. `none` is NULL.
pub record ZoneRow : Type 0 where
  pub runtime_id : RuntimeId
  pub grid_x : ℕ
  pub grid_y : ℕ
  pub status : String
  pub server_id : Option ServerId

-- `runtimes` are the keys of the table `runtimes`, which rows of `zones` refer to. `now` is the clock of the database, in nanoseconds. `faults` says of each of the next calls
-- whether it fails; after the end of the list none does. A call that fails changes no table.
pub record Database : Type 0 where
  pub servers : Map ServerId ServerRow
  pub zones : Map String ZoneRow
  pub runtimes : List RuntimeId
  pub now : ℕ
  pub faults : List Bool

-- The result of a method of a repository: `refused` is an error that wraps a sentinel, `failed` one
-- that wraps an error of the database.
pub data Answer (A : Type 0) : Type 0 where
  answer : A → Answer A
  refused : Error → Answer A
  failed : Answer A

first_fault : List Bool → Bool
first_fault [] = false
first_fault (f ∷ fs) = f

later_faults : List Bool → List Bool
later_faults [] = []
later_faults (f ∷ fs) = fs

unfoldable pub fails : Database → Bool
unfolding first_fault
fails d = first_fault d.faults

unfoldable pub asked : Database → Database
unfolding later_faults
asked d = record d { faults = later_faults d.faults }
