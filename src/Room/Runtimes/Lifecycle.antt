-- ===== src/Room/Runtimes/Lifecycle.antt =====
-- internal/room/api.go: the life of a runtime, from the answers to the backend.
use spatial_server.Base.{
  ℕ, ◌≡◌, ◌≢◌, refl, Bool, true, false, Option, none, some, List, [], ◌∷◌, ◌==◌, not, String,
  string_key, Map, get, put, get-put, has_key, arith, elem, Entries, NodupKeys, keys, elem-keys,
}
use spatial_server.Types.{RuntimeStatus, runtime_status_key, conflict}
use spatial_server.Room.Runtimes.{
  RuntimeRecord, create, get_record, found_record, destroy, destroy_record, zone_names, internal,
  answer, failed, SpatialServerApi, CreateRuntimeRequest, or_default, created, create_runtime,
  destroyed_answer, destroy_runtime, status_active, status_destroyed, RuntimeInfo, info_of,
  info_answer, get_runtime_info, infos, list_runtimes, list_records, live, to_proto_status,
}

abbrev pub made : CreateRuntimeRequest → SpatialServerApi → ℕ → RuntimeRecord
made req s now = record {
  id = req.runtime_id;
  status = RuntimeStatus.active;
  zone_count = or_default req.zone_count s.default_zones;
  zone_size = or_default req.zone_size s.default_size;
  zone_ids = zone_names req.runtime_id (or_default req.zone_count s.default_zones);
  player_count = 0;
  created_at = now;
}

abbrev pub storing : SpatialServerApi → String → RuntimeRecord → SpatialServerApi
storing s id r = record s { store = record { records = put s.store.records id r } }

create_fresh :
    (s : SpatialServerApi) (req : CreateRuntimeRequest) (now : ℕ)
    → req.runtime_id ≢ ""
    → get s.store.records req.runtime_id ≡ none
    → create_runtime s req now ≡ (
      storing s req.runtime_id (made req s now),
      answer (record {
        runtime_id = req.runtime_id;
        gateway_addr = s.gateway_addr;
        zone_count = or_default req.zone_count s.default_zones;
        zones = zone_names req.runtime_id (or_default req.zone_count s.default_zones);
      }),
    )
unfolding create_runtime created create has_key
create_fresh s req now ne free = ground arith

create_again :
    (s : SpatialServerApi) (req : CreateRuntimeRequest) (now : ℕ) (r : RuntimeRecord)
    → req.runtime_id ≢ ""
    → get s.store.records req.runtime_id ≡ some r
    → (create_runtime s req now).1 ≡ failed (internal conflict)
unfolding create_runtime created create has_key
create_again s req now r ne taken = ground arith

destroy_known :
    (s : SpatialServerApi) (id : String) (r : RuntimeRecord)
    → get s.store.records id ≡ some r
    → destroy_runtime s id
      ≡ (storing s id (record r { status = RuntimeStatus.destroyed }), answer true)
unfolding destroy_runtime destroyed_answer destroy destroy_record
destroy_known s id r e = rw e refl

info_known :
    (s : SpatialServerApi) (id : String) (r : RuntimeRecord)
    → get s.store.records id ≡ some r
    → get_runtime_info s id ≡ answer (info_of r)
unfolding get_runtime_info info_answer get_record found_record
info_known s id r e = rw e refl

stored :
    (s : SpatialServerApi) (id : String) (r : RuntimeRecord)
    → get (storing s id r).store.records id ≡ some r
stored s id r = ground (arith, get-put s.store.records id id r)

-- A runtime with a name that is neither empty nor in use: it is created with the zones that were
-- asked for, or with the default number of them, and is active until it is destroyed. After that it
-- is still found, as destroyed, and its name cannot be used again.
pub runtime_lifecycle :
    (s : SpatialServerApi) (req : CreateRuntimeRequest) (now later : ℕ)
    → req.runtime_id ≢ ""
    → get s.store.records req.runtime_id ≡ none
    → let id = req.runtime_id in
      let c = create_runtime s req now in
      let d = destroy_runtime c.0 id in
      let n = or_default req.zone_count s.default_zones in
      (c.1
        ≡ answer (record {
          runtime_id = id;
          gateway_addr = s.gateway_addr;
          zone_count = n;
          zones = zone_names id n;
        }))
      × (get_runtime_info c.0 id
          ≡ answer (record {
            runtime_id = id;
            status = status_active;
            zone_count = n;
            player_count = 0;
            created_at = now;
          }))
      × (d.1 ≡ answer true)
      × (get_runtime_info d.0 id
          ≡ answer (record {
            runtime_id = id;
            status = status_destroyed;
            zone_count = n;
            player_count = 0;
            created_at = now;
          }))
      × ((create_runtime d.0 req later).1 ≡ failed (internal conflict))
unfolding info_of to_proto_status
runtime_lifecycle s req now later ne free =
    let id = req.runtime_id in
    let r = made req s now in
    let s1 = storing s id r in
    let gone : RuntimeRecord = record r { status = RuntimeStatus.destroyed } in
    let s2 = storing s1 id gone in
    rw (create_fresh s req now ne free, destroy_known s1 id r (stored s id r))
      (
        refl,
        info_known s1 id r (stored s id r),
        refl,
        info_known s2 id gone (stored s1 id gone),
        create_again s2 req later gone ne (stored s1 id gone),
      )

-- The names in a list of runtimes.
abbrev pub names : List RuntimeInfo → List String
names [] = []
names (i ∷ rest) = i.runtime_id ∷ names rest

-- Every record stands under its own name.
abbrev pub Named : String → RuntimeRecord → Type 0
Named k r = r.id ≡ k

abbrev pub is_live : Option RuntimeRecord → Bool
is_live none = false
is_live (some r) = not (r.status == RuntimeStatus.destroyed)

unlisted :
    (m : Map String RuntimeRecord) (id : String)
    → Entries Named m
    → has_key m id ≡ false
    → elem id (names (infos (live m))) ≡ false
unfolding live infos elem has_key get info_of
unlisted [] id v h = refl
unlisted ((k, r) ∷ rest) id v h = ground (arith, unlisted rest id v.1)

listed :
    (m : Map String RuntimeRecord) (id : String)
    → Entries Named m
    → NodupKeys m
    → elem id (names (infos (live m))) ≡ is_live (get m id)
unfolding live infos elem get keys info_of
listed [] id v d = refl
listed ((k, r) ∷ rest) id v d =
    ground (arith, listed rest id v.1 d.1, unlisted rest id v.1, elem-keys rest id)

-- `ListRuntimes` lists exactly the runtimes that are stored and not destroyed, in a store with one
-- record for each name, under that name.
pub list_runtimes_live :
    (s : SpatialServerApi) (id : String)
    → Entries Named s.store.records
    → NodupKeys s.store.records
    → elem id (names (list_runtimes s)) ≡ is_live (get s.store.records id)
unfolding list_runtimes list_records
list_runtimes_live s id v d = listed s.store.records id v d
