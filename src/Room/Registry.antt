-- ===== src/Room/Registry.antt =====
-- internal/room/registry.go: the servers that have registered. Each call is one critical section
-- under the registry's mutex, so a history of concurrent calls is a sequence of them.
pub mod Life
use spatial_server.Base.{
  ℕ, Bool, Option, none, some, List, [], ◌∷◌, if◌then◌else◌, ◌==◌, string_key, Map, get, put,
  delete, has_key, String, nat_key,
}
use spatial_server.Types.{ServerId, ServerStatus, Error, Result, ok, err, not_found, conflict}
use spatial_server.Room.Node.{NodeDescriptor, NodeLoad, address, select}
use spatial_server.Room.Ownership.{ZoneOwnership, lookup}

pub record ServerRegistry : Type 0 where
  pub svr : Map ServerId NodeDescriptor

unfoldable pub new : ServerRegistry
new = record { svr = [] }

-- `now` and `later` are the two readings of the clock; 0 is the zero time.
unfoldable pub register : ServerRegistry → NodeDescriptor → ℕ → ℕ → ServerRegistry × Option Error
register r info now later = if has_key r.svr info.node_id then (r, some conflict) else (
  record {
    svr = put r.svr info.node_id (record info {
      last_heartbeat = now;
      start_time = if info.start_time == 0 then later else info.start_time;
    });
  },
  none,
)

unfoldable pub find : ServerRegistry → ServerId → Option NodeDescriptor
find r id = get r.svr id

-- What `Heartbeat` and `UpdateLoad` do to a server that is found.
refresh :
    ServerRegistry
    → ServerId
    → (NodeDescriptor → NodeDescriptor)
    → Option NodeDescriptor
    → ServerRegistry × Option Error
refresh r id change none = (r, some not_found)
refresh r id change (some s) = (record { svr = put r.svr id (change s) }, none)

unfoldable pub heartbeat : ServerRegistry → ServerId → ℕ → ServerRegistry × Option Error
unfolding refresh
heartbeat r id now =
    refresh r id (λ s. record s { last_heartbeat = now; status = ServerStatus.active })
      (get r.svr id)

unfoldable pub update_load :
    ServerRegistry → ServerId → NodeLoad → ℕ → ServerRegistry × Option Error
unfolding refresh
update_load r id load now =
    refresh r id (λ s. record s { load = load; last_heartbeat = now; status = ServerStatus.active })
      (get r.svr id)

unfoldable pub remove : ServerRegistry → ServerId → ServerRegistry
remove r id = record { svr = delete r.svr id }

values : Map ServerId NodeDescriptor → List (Option NodeDescriptor)
values [] = []
values ((_, n) ∷ m) = some n ∷ values m

-- `List`: no entry of it is nil.
unfoldable pub list : ServerRegistry → List (Option NodeDescriptor)
unfolding values
list r = values r.svr

found : Result NodeDescriptor → Option NodeDescriptor
found (ok n) = some n
found (err e) = none

unfoldable pub least_loaded : ServerRegistry → Option NodeDescriptor
unfolding found
least_loaded r = found (select (list r))

resolve_node : ServerId → Option NodeDescriptor → Result (ServerId × String)
resolve_node server none = err not_found
resolve_node server (some info) = ok (server, address info)

resolve_owner : ServerRegistry → Option ServerId → Result (ServerId × String)
unfolding resolve_node
resolve_owner r none = err not_found
resolve_owner r (some server) = resolve_node server (get r.svr server)

-- `ResolveZone`
unfoldable pub resolve_zone : ZoneOwnership → ServerRegistry → String → Result (ServerId × String)
unfolding resolve_owner
resolve_zone zo r zone = resolve_owner r (lookup zo zone)
