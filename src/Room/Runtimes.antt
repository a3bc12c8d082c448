-- ===== src/Room/Runtimes.antt =====
-- internal/room/api.go: the runtimes that the business backend creates and destroys.
pub mod Lifecycle
use spatial_server.Base.{
  ℕ, zero, suc, ◌+◌, Bool, true, false, Option, none, some, List, [], ◌∷◌, ◌++◌, if◌then◌else◌,
  ◌==◌, not, String, string_key, Map, get, put, has_key,
}
use spatial_server.Base.Text.{decimal, ◌<>◌}
use spatial_server.Base.Int.{ℤ, pos, negsuc}
use spatial_server.Types.{
  RuntimeStatus, runtime_status_key, Error, not_found, conflict, Result, ok, err,
}

-- `zone_size` is a number of the unit of the coordinates; `created_at` an instant.
pub record RuntimeRecord : Type 0 where
  pub id : String
  pub status : RuntimeStatus
  pub zone_count : ℕ
  pub zone_size : ℕ
  pub zone_ids : List String
  pub player_count : ℕ
  pub created_at : ℕ

pub record MemoryRuntimeStore : Type 0 where
  pub records : Map String RuntimeRecord

unfoldable pub new_memory_runtime_store : MemoryRuntimeStore
new_memory_runtime_store = record { records = [] }

-- `"%s-z%d"` for i + 1, up to the count.
zone_names_from : String → ℕ → ℕ → List String
zone_names_from id i zero = []
zone_names_from id i (suc n) = (id <> "-z" <> decimal (i + 1)) ∷ zone_names_from id (i + 1) n

unfoldable pub zone_names : String → ℕ → List String
unfolding zone_names_from
zone_names id n = zone_names_from id 0 n

-- The record is stored when it is active.
unfoldable pub create :
    MemoryRuntimeStore → String → ℕ → ℕ → ℕ → MemoryRuntimeStore × Result RuntimeRecord
unfolding zone_names
create m id zone_count zone_size now =
    if has_key m.records id
    then (m, err conflict)
    else let r : RuntimeRecord = record {
      id = id;
      status = RuntimeStatus.active;
      zone_count = zone_count;
      zone_size = zone_size;
      zone_ids = zone_names id zone_count;
      player_count = 0;
      created_at = now;
    } in
      (record { records = put m.records id r }, ok r)

found_record : Option RuntimeRecord → Result RuntimeRecord
found_record none = err not_found
found_record (some r) = ok r

unfoldable pub get_record : MemoryRuntimeStore → String → Result RuntimeRecord
unfolding found_record
get_record m id = found_record (get m.records id)

destroy_record :
    MemoryRuntimeStore → String → Option RuntimeRecord → MemoryRuntimeStore × Option Error
destroy_record m id none = (m, some not_found)
destroy_record m id (some r) =
    (record { records = put m.records id (record r { status = RuntimeStatus.destroyed }) }, none)

unfoldable pub destroy : MemoryRuntimeStore → String → MemoryRuntimeStore × Option Error
unfolding destroy_record
destroy m id = destroy_record m id (get m.records id)

unfoldable pub live : Map String RuntimeRecord → List RuntimeRecord
live [] = []
live ((_, r) ∷ rest) =
    let out = live rest in if not (r.status == RuntimeStatus.destroyed) then r ∷ out else out

-- The token and the size of the page are not read.
unfoldable pub list_records : MemoryRuntimeStore → List RuntimeRecord
unfolding live
list_records m = live m.records

-- The codes of the answers that fail; an internal error carries the error of the store.
pub data ApiError : Type 0 where
  invalid_argument runtime_not_found : ApiError
  internal : Error → ApiError

pub data Answer {ℓ} (A : Type ℓ) : Type ℓ where
  answer : A → Answer A
  failed : ApiError → Answer A

pub record SpatialServerApi : Type 0 where
  pub store : MemoryRuntimeStore
  pub gateway_addr : String
  pub default_zones : ℕ
  pub default_size : ℕ

unfoldable pub new_spatial_server_api : MemoryRuntimeStore → String → SpatialServerApi
new_spatial_server_api store gateway_addr = record {
  store = store;
  gateway_addr = gateway_addr;
  default_zones = 1;
  default_size = 100;
}

pub record CreateRuntimeRequest : Type 0 where
  pub runtime_id : String
  pub zone_count : ℤ
  pub zone_size : ℤ

-- A zone is known by its name.
pub record CreateRuntimeResponse : Type 0 where
  pub runtime_id : String
  pub gateway_addr : String
  pub zone_count : ℕ
  pub zones : List String

-- The default for what is not positive.
unfoldable pub or_default : ℤ → ℕ → ℕ
or_default (pos zero) d = d
or_default (pos (suc n)) d = suc n
or_default (negsuc n) d = d

created :
    SpatialServerApi
    → MemoryRuntimeStore × Result RuntimeRecord
    → SpatialServerApi × Answer CreateRuntimeResponse
unfolding zone_names
created s (m, err e) = (record s { store = m }, failed (internal e))
created s (m, ok rec) = (
  record s { store = m },
  answer (record {
    runtime_id = rec.id;
    gateway_addr = s.gateway_addr;
    zone_count = rec.zone_count;
    zones = zone_names rec.id rec.zone_count;
  }),
)

unfoldable pub create_runtime :
    SpatialServerApi → CreateRuntimeRequest → ℕ → SpatialServerApi × Answer CreateRuntimeResponse
unfolding created create or_default
create_runtime s req now =
    if req.runtime_id == ""
    then (s, failed invalid_argument)
    else created s (
        create s.store req.runtime_id (or_default req.zone_count s.default_zones)
          (or_default req.zone_size s.default_size) now)

-- `ErrNotFound` has its own code.
failure : Error → ApiError
failure not_found = runtime_not_found
failure e = internal e

destroyed_answer :
    SpatialServerApi → MemoryRuntimeStore × Option Error → SpatialServerApi × Answer Bool
unfolding failure
destroyed_answer s (m, none) = (record s { store = m }, answer true)
destroyed_answer s (m, some e) = (record s { store = m }, failed (failure e))

unfoldable pub destroy_runtime : SpatialServerApi → String → SpatialServerApi × Answer Bool
unfolding destroyed_answer destroy
destroy_runtime s id = destroyed_answer s (destroy s.store id)

-- The values of the wire's enumeration.
pub data ProtoStatus : Type 0 where
  status_unspecified status_creating status_active status_draining status_destroyed : ProtoStatus

unfoldable pub to_proto_status : RuntimeStatus → ProtoStatus
to_proto_status RuntimeStatus.creating = status_creating
to_proto_status RuntimeStatus.active = status_active
to_proto_status RuntimeStatus.draining = status_draining
to_proto_status RuntimeStatus.destroyed = status_destroyed

-- `created_at` is the instant that the source prints.
pub record RuntimeInfo : Type 0 where
  pub runtime_id : String
  pub status : ProtoStatus
  pub zone_count : ℕ
  pub player_count : ℕ
  pub created_at : ℕ

unfoldable pub info_of : RuntimeRecord → RuntimeInfo
unfolding to_proto_status
info_of rec = record {
  runtime_id = rec.id;
  status = to_proto_status rec.status;
  zone_count = rec.zone_count;
  player_count = rec.player_count;
  created_at = rec.created_at;
}

info_answer : Result RuntimeRecord → Answer RuntimeInfo
unfolding failure info_of
info_answer (ok rec) = answer (info_of rec)
info_answer (err e) = failed (failure e)

unfoldable pub get_runtime_info : SpatialServerApi → String → Answer RuntimeInfo
unfolding info_answer get_record
get_runtime_info s id = info_answer (get_record s.store id)

unfoldable pub infos : List RuntimeRecord → List RuntimeInfo
unfolding info_of
infos [] = []
infos (rec ∷ rest) = info_of rec ∷ infos rest

-- The next page's token is always empty.
unfoldable pub list_runtimes : SpatialServerApi → List RuntimeInfo
unfolding infos list_records
list_runtimes s = infos (list_records s.store)
