-- ===== src/Room/Database/Zones.antt =====
-- internal/storage/room/zone_repo.go: `ZoneRepository`, the owners of zones in the database.
pub mod Claims
use spatial_server.Base.{
  Bool, Option, none, some, List, [], ◌∷◌, if◌then◌else◌, ◌==◌, ◌&&◌, not, String, string_key, Map,
  get, put, false, has_key, elem, nat_key, ◌||◌,
}
use spatial_server.Types.{RuntimeId, ServerId, not_found, conflict, not_owned}
use spatial_server.Room.Database.{Database, ZoneRow, Answer, answer, refused, failed, fails, asked}

-- The unique columns `runtime_id`, `grid_x` and `grid_y`.
is_taken : RuntimeId → Map String ZoneRow → Bool
is_taken runtime [] = false
is_taken runtime ((id, row) ∷ m) =
    (row.runtime_id == runtime) && (row.grid_x == 0) && (row.grid_y == 0) || is_taken runtime m

new_row : RuntimeId → ZoneRow
new_row runtime = record {
  runtime_id = runtime;
  grid_x = 0;
  grid_y = 0;
  status = "unowned";
  server_id = none;
}

-- The insertion fails if the table has no such runtime, or another zone of it in the same cell.
inserted : Database → String → RuntimeId → Option ZoneRow → Answer Unit × Database
unfolding is_taken new_row
inserted d zone runtime (some row) = (answer tt, d)
inserted d zone runtime none =
    if not (elem runtime d.runtimes) || is_taken runtime d.zones
    then (failed, d)
    else (answer tt, record d { zones = put d.zones zone (new_row runtime) })

unfoldable pub ensure_row : Database → String → RuntimeId → Answer Unit × Database
unfolding inserted
ensure_row d zone runtime =
    if fails d then (failed, asked d) else inserted (asked d) zone runtime (get d.zones zone)

unfoldable pub claimed_row : ServerId → ZoneRow → ZoneRow
claimed_row server row = record row { server_id = some server; status = "active" }

unfoldable pub released_row : ZoneRow → ZoneRow
released_row row = record row { server_id = none; status = "unowned" }

-- The owner of a row must be in the table of the servers. `Claim`, when its update found no row that is free: an error of the second query other than that
-- of a missing row leaves the owner nil.
claim_row : Database → String → ServerId → ZoneRow → Option ServerId → Answer Unit × Database
unfolding claimed_row
claim_row d zone server row none =
    if has_key d.servers server
    then (answer tt, record d { zones = put d.zones zone (claimed_row server row) })
    else (failed, d)
claim_row d zone server row (some owner) =
    if fails d
    then (answer tt, asked d)
    else if not (owner == "") && not (owner == server)
    then (refused conflict, asked d)
    else (answer tt, asked d)

claim_found : Database → String → ServerId → Option ZoneRow → Answer Unit × Database
unfolding claim_row
claim_found d zone server none =
    if fails d then (answer tt, asked d) else (refused not_found, asked d)
claim_found d zone server (some row) = claim_row d zone server row row.server_id

-- The runtime of the call is not used.
unfoldable pub claim : Database → String → RuntimeId → ServerId → Answer Unit × Database
unfolding claim_found
claim d zone runtime server =
    if fails d then (failed, asked d) else claim_found (asked d) zone server (get d.zones zone)

unfoldable pub owns : ServerId → Option ServerId → Bool
owns server none = false
owns server (some owner) = owner == server

release_found : Database → String → ServerId → Option ZoneRow → Answer Unit × Database
unfolding owns released_row
release_found d zone server none =
    if fails d then (refused not_owned, asked d) else (refused not_found, asked d)
release_found d zone server (some row) =
    if owns server row.server_id
    then (answer tt, record d { zones = put d.zones zone (released_row row) })
    else (refused not_owned, asked d)

unfoldable pub release : Database → String → ServerId → Answer Unit × Database
unfolding release_found
release d zone server =
    if fails d then (failed, asked d) else release_found (asked d) zone server (get d.zones zone)

unfoldable pub owned_by : ServerId → Map String ZoneRow → List String
unfolding owns
owned_by server [] = []
owned_by server ((zone, row) ∷ m) =
    let rest = owned_by server m in if owns server row.server_id then zone ∷ rest else rest

unfoldable pub list_by_server : Database → ServerId → Answer (List String) × Database
unfolding owned_by
list_by_server d server =
    if fails d then (failed, asked d) else (answer (owned_by server d.zones), asked d)

unfoldable pub owner_answer : Option ServerId → Answer ServerId
owner_answer none = refused not_found
owner_answer (some owner) = if owner == "" then refused not_found else answer owner

unfoldable pub looked_up : Option ZoneRow → Answer ServerId
unfolding owner_answer
looked_up none = refused not_found
looked_up (some row) = owner_answer row.server_id

unfoldable pub lookup : Database → String → Answer ServerId × Database
unfolding looked_up
lookup d zone = if fails d then (failed, asked d) else (looked_up (get d.zones zone), asked d)
