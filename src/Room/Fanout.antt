-- ===== src/Room/Fanout.antt =====
-- internal/room/registry.go: `WatcherFanout`, the bounded queues of the watchers of ownership.
pub mod Watch
use spatial_server.Base.{
  ℕ, suc, ◌+◌, Bool, Option, none, some, List, [], ◌∷◌, ◌++◌, if◌then◌else◌, ltb, length, String,
  string_key, Map, get, put, delete,
}
use spatial_server.Base.Queue.{offer}
use spatial_server.Base.Text.{decimal, ◌<>◌}

-- `OwnershipChange` of proto/spatialserver/v1/room_service.proto.
pub record OwnershipChange : Type 0 where
  pub zone_id : String
  pub server_id : String
  pub host : String
  pub port : ℕ

abbrev pub channel_capacity : ℕ
channel_capacity = 16

-- A channel is the changes that it holds and no watcher has received yet.
pub record WatcherFanout : Type 0 where
  pub channels : Map String (List OwnershipChange)
  pub next_id : ℕ

unfoldable pub new : WatcherFanout
new = record { channels = []; next_id = 0 }

unfoldable pub subscribe : WatcherFanout → WatcherFanout × String
subscribe f =
    let id = "w" <> decimal (f.next_id + 1) in
    (record { channels = put f.channels id []; next_id = f.next_id + 1 }, id)

unfoldable pub unsubscribe : WatcherFanout → String → WatcherFanout
unsubscribe f id = record f { channels = delete f.channels id }

-- The `select` with a default: a full channel drops the change.
unfoldable pub offer_all :
    OwnershipChange → Map String (List OwnershipChange) → Map String (List OwnershipChange)
offer_all change [] = []
offer_all change ((id, queue) ∷ m) = (id, offer channel_capacity queue change) ∷ offer_all change m

unfoldable pub broadcast : WatcherFanout → OwnershipChange → WatcherFanout
unfolding offer_all
broadcast f change = record f { channels = offer_all change f.channels }
