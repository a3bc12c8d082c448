-- ===== src/Room/Ownership.antt =====
-- internal/room/registry.go: `ZoneOwnership`, the table of the owners. Each call is one critical
-- section under its mutex, so a history of concurrent calls is a sequence of them.
pub mod Exclusive
use spatial_server.Base.{
  Option, none, some, [], if◌then◌else◌, ◌==◌, string_key, String, Map, get, put, delete, has_key,
  not,
}
use spatial_server.Types.{ServerId, Error, not_found, conflict, not_owned}

pub record ZoneOwnership : Type 0 where
  pub zones : Map String ServerId

unfoldable pub new : ZoneOwnership
new = record { zones = [] }

unfoldable pub claim : ZoneOwnership → String → ServerId → ZoneOwnership × Option Error
claim zo zone server =
    if has_key zo.zones zone
    then (zo, some conflict)
    else (record { zones = put zo.zones zone server }, none)

release_owned : ZoneOwnership → String → ServerId → Option ServerId → ZoneOwnership × Option Error
release_owned zo zone server none = (zo, some not_found)
release_owned zo zone server (some owner) =
    if not (owner == server)
    then (zo, some not_owned)
    else (record { zones = delete zo.zones zone }, none)

unfoldable pub release : ZoneOwnership → String → ServerId → ZoneOwnership × Option Error
unfolding release_owned
release zo zone server = release_owned zo zone server (get zo.zones zone)

unfoldable pub lookup : ZoneOwnership → String → Option ServerId
lookup zo zone = get zo.zones zone
