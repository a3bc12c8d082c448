-- ===== src/Room/Migration.antt =====
-- internal/room/migration.go: the transfer of a zone from one server to another.
pub mod Transfer
use spatial_server.Base.{
  Bool, true, false, Option, none, some, List, [], ◌∷◌, ◌++◌, if◌then◌else◌, ◌==◌, not, String,
  string_key, Map, get, put,
}
use spatial_server.Types.{
  ServerId, ZoneStatus, zone_status_key, Error, not_found, conflict, invalid_arg,
}

pub record ZoneRow : Type 0 where
  pub owner : ServerId
  pub status : ZoneStatus

-- What a listener is called with.
pub record Notice : Type 0 where
  pub zone : String
  pub owner : ServerId
  pub status : ZoneStatus

-- A listener is known by the notices that it was given.
pub record MigrationCoordinator : Type 0 where
  pub rows : Map String ZoneRow
  pub listeners : List (List Notice)

unfoldable pub new : MigrationCoordinator
new = record { rows = []; listeners = [] }

unfoldable pub with_listener : MigrationCoordinator → MigrationCoordinator
with_listener m = record m { listeners = m.listeners ++ [] ∷ [] }

-- `zoneTable.set` and `zoneTable.update`
unfoldable pub update : MigrationCoordinator → String → ServerId → ZoneStatus → MigrationCoordinator
update m zone owner status = record m {
  rows = put m.rows zone (record { owner = owner; status = status });
}

prepare_row :
    MigrationCoordinator → String → Option ZoneRow → MigrationCoordinator × Bool × Option Error
unfolding update
prepare_row m zone none = (m, false, some not_found)
prepare_row m zone (some row) =
    if not (row.status == ZoneStatus.active)
    then (m, false, some conflict)
    else (update m zone row.owner ZoneStatus.transferring, true, none)

-- The target is a parameter of the source too, which does not read it.
unfoldable pub prepare_transfer :
    MigrationCoordinator → String → ServerId → MigrationCoordinator × Bool × Option Error
unfolding prepare_row
prepare_transfer m zone target = prepare_row m zone (get m.rows zone)

unfoldable pub notify : List (List Notice) → Notice → List (List Notice)
notify [] n = []
notify (l ∷ ls) n = (l ++ n ∷ []) ∷ notify ls n

complete_row :
    MigrationCoordinator → String → ServerId → Option ZoneRow → MigrationCoordinator × Option Error
unfolding update
complete_row m zone target none = (m, some not_found)
complete_row m zone target (some row) =
    if not (row.status == ZoneStatus.transferring)
    then (m, some invalid_arg)
    else let m' = update m zone target ZoneStatus.active in
      (
        record m' {
          listeners =
              notify m'.listeners
                (record { zone = zone; owner = target; status = ZoneStatus.active });
        },
        none,
      )

unfoldable pub complete_transfer :
    MigrationCoordinator → String → ServerId → MigrationCoordinator × Option Error
unfolding complete_row
complete_transfer m zone target = complete_row m zone target (get m.rows zone)

status_of : Option ZoneRow → Option ZoneStatus
status_of none = none
status_of (some row) = some row.status

unfoldable pub status : MigrationCoordinator → String → Option ZoneStatus
unfolding status_of
status m zone = status_of (get m.rows zone)
