-- ===== src/Types.antt =====
-- internal/types/types.go: identifiers, vectors, the statuses and the sentinel errors.
use spatial_server.Base.{String, Bool, List, [], ◌∷◌, elem, Key}
use spatial_server.Base.Int.{ℤ}

-- The sentinel errors; `no_capacity` is that of internal/room/node.go. An error that wraps one by
-- `%w` is the one that it wraps, since callers test it by `errors.Is`.
pub data Error : Type 0 where
  not_found conflict invalid_arg not_owned not_empty no_capacity : Error

-- A Go result `(value, error)`.
pub data Result {ℓ} (A : Type ℓ) : Type ℓ where
  ok : A → Result A
  err : Error → Result A

abbrev pub EntityId : Type 0
EntityId = String

abbrev pub ZoneId : Type 0
ZoneId = String

abbrev pub RuntimeId : Type 0
RuntimeId = String

abbrev pub ServerId : Type 0
ServerId = String

-- Coordinates are whole numbers of a fixed small unit, on which the float64 sums, products and
-- comparisons of the source are exact.
pub record Vector3 : Type 0 where
  pub x : ℤ
  pub y : ℤ
  pub z : ℤ

pub data RuntimeStatus : Type 0 where
  creating active draining destroyed : RuntimeStatus

pub data ZoneStatus : Type 0 where
  unowned active transferring orphan : ZoneStatus

pub data ServerStatus : Type 0 where
  joining active draining shutdown : ServerStatus

unfoldable pub ZoneStatus-discrete : Discrete ZoneStatus
ZoneStatus-discrete = hlevel

unfoldable pub ServerStatus-discrete : Discrete ServerStatus
ServerStatus-discrete = hlevel

unfoldable pub RuntimeStatus-discrete : Discrete RuntimeStatus
RuntimeStatus-discrete = hlevel

instance abbrev pub zone_status_key : Key ZoneStatus
zone_status_key = record { dec = ZoneStatus-discrete }

instance abbrev pub server_status_key : Key ServerStatus
server_status_key = record { dec = ServerStatus-discrete }

instance abbrev pub runtime_status_key : Key RuntimeStatus
runtime_status_key = record { dec = RuntimeStatus-discrete }

-- `ZoneStatus.String`
unfoldable pub show_zone_status : ZoneStatus → String
show_zone_status ZoneStatus.unowned = "unowned"
show_zone_status ZoneStatus.active = "active"
show_zone_status ZoneStatus.transferring = "transferring"
show_zone_status ZoneStatus.orphan = "orphan"

-- `ServerStatus.String`
unfoldable pub show_server_status : ServerStatus → String
show_server_status ServerStatus.joining = "joining"
show_server_status ServerStatus.active = "active"
show_server_status ServerStatus.draining = "draining"
show_server_status ServerStatus.shutdown = "shutdown"

-- `RuntimeStatus.String`
unfoldable pub show_runtime_status : RuntimeStatus → String
show_runtime_status RuntimeStatus.creating = "creating"
show_runtime_status RuntimeStatus.active = "active"
show_runtime_status RuntimeStatus.draining = "draining"
show_runtime_status RuntimeStatus.destroyed = "destroyed"

-- The table of `ValidTransition`, row by row.
transitions : ZoneStatus → List ZoneStatus
transitions ZoneStatus.unowned = ZoneStatus.active ∷ []
transitions ZoneStatus.active = ZoneStatus.transferring ∷ ZoneStatus.unowned ∷ []
transitions ZoneStatus.transferring = ZoneStatus.active ∷ ZoneStatus.orphan ∷ []
transitions ZoneStatus.orphan = ZoneStatus.active ∷ ZoneStatus.unowned ∷ []

unfoldable pub valid_transition : ZoneStatus → ZoneStatus → Bool
unfolding transitions elem
valid_transition s to = elem to (transitions s)
