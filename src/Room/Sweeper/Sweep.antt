-- ===== src/Room/Sweeper/Sweep.antt =====
-- internal/room/sweeper.go: what one sweep changes.
use spatial_server.Base.{
  ℕ, ◌≡◌, refl, ◌∙◌, Bool, false, Option, none, some, List, [], ◌∷◌, if◌then◌else◌, ◌==◌, elem,
  String, string_key, Map, get, get-put, retain, get-retain, keys, NodupKeys, arith, not,
  Option-cases, inl, inr,
}
use spatial_server.Types.{ServerId, ServerStatus, server_status_key}
use spatial_server.Room.Node.{NodeDescriptor}
use spatial_server.Room.Registry.{ServerRegistry, least_loaded}
use spatial_server.Room.Sweeper.{
  SweeperConfig, Sweeper, is_dead, dead_in, shut, mark_shutdown, hand_over, hand_over_all,
  reassign_zones_of, bury, sweep, zones_of,
}

zo-hand_over_all : (s : Sweeper) (zones : List String) → (hand_over_all s zones).zo ≡ s.zo
unfolding hand_over_all
zo-hand_over_all s [] = refl
zo-hand_over_all s (zone ∷ zones) =
    zo-hand_over_all (hand_over s zone (least_loaded s.reg)) zones ∙ ground arith

reg-hand_over_all : (s : Sweeper) (zones : List String) → (hand_over_all s zones).reg ≡ s.reg
unfolding hand_over_all
reg-hand_over_all s [] = refl
reg-hand_over_all s (zone ∷ zones) =
    reg-hand_over_all (hand_over s zone (least_loaded s.reg)) zones ∙ ground arith

abbrev freed_by : List ServerId → Option ServerId → Option ServerId
freed_by ids none = none
freed_by ids (some owner) = if elem owner ids then none else some owner

zones-reassign :
    (s : Sweeper) (dead : ServerId) (zone : String)
    → get (reassign_zones_of s dead).zo.zones zone ≡ freed_by (dead ∷ []) (get s.zo.zones zone)
unfolding reassign_zones_of elem
zones-reassign s dead zone =
    let left = retain (λ zone owner. not (owner == dead)) s.zo.zones in
    let swept : Sweeper = record s { zo = record { zones = left } } in
    rw (zo-hand_over_all swept (zones_of dead s.zo.zones))
      (ground (arith, get-retain (λ zone owner. not (owner == dead)) s.zo.zones zone))

reg-reassign : (s : Sweeper) (dead : ServerId) → (reassign_zones_of s dead).reg ≡ s.reg
unfolding reassign_zones_of
reg-reassign s dead =
    let left = retain (λ zone owner. not (owner == dead)) s.zo.zones in
    let swept : Sweeper = record s { zo = record { zones = left } } in
    reg-hand_over_all swept (zones_of dead s.zo.zones)

abbrev shutdown_of : Option NodeDescriptor → Option NodeDescriptor
shutdown_of none = none
shutdown_of (some info) = some (record info { status = ServerStatus.shutdown })

svr-mark_shutdown :
    (r : ServerRegistry) (id other : ServerId)
    → get (mark_shutdown r id).svr other
      ≡ (if id == other then shutdown_of (get r.svr id) else get r.svr other)
svr-mark_shutdown r id other = elim (Option-cases (get r.svr id)) [
  | inl absent ↦ unfold mark_shutdown in rw (absent, shut) (ground arith)
  | inr (info, e) ↦ unfold mark_shutdown in rw (e, shut) (get-put r.svr id other _)
]

zones-bury :
    (s : Sweeper) (ids : List ServerId) (zone : String)
    → get (bury s ids).zo.zones zone ≡ freed_by ids (get s.zo.zones zone)
unfolding bury elem
zones-bury s [] zone = ground arith
zones-bury s (id ∷ ids) zone =
    let marked : Sweeper = record s { reg = mark_shutdown s.reg id } in
    zones-bury (reassign_zones_of marked id) ids zone
    ∙ ground (arith, zones-reassign marked id zone)

abbrev shut_by : List ServerId → ServerId → Option NodeDescriptor → Option NodeDescriptor
shut_by ids id o = if elem id ids then shutdown_of o else o

svr-bury :
    (s : Sweeper) (ids : List ServerId) (id : ServerId)
    → get (bury s ids).reg.svr id ≡ shut_by ids id (get s.reg.svr id)
unfolding bury elem
svr-bury s [] id = refl
svr-bury s (dead ∷ ids) id =
    let marked : Sweeper = record s { reg = mark_shutdown s.reg dead } in
    svr-bury (reassign_zones_of marked dead) ids id
    ∙ ground (arith, reg-reassign marked dead, svr-mark_shutdown s.reg dead id)

abbrev pub dead_now : SweeperConfig → ℕ → Option NodeDescriptor → Bool
dead_now cfg now none = false
dead_now cfg now (some info) = is_dead cfg now info

elem-dead_in_absent :
    (cfg : SweeperConfig) (now : ℕ) (m : Map ServerId NodeDescriptor) (id : ServerId)
    → elem id (keys m) ≡ false
    → elem id (dead_in cfg now m) ≡ false
unfolding dead_in elem keys
elem-dead_in_absent cfg now [] id h = refl
elem-dead_in_absent cfg now ((k, info) ∷ m) id h = ground (arith, elem-dead_in_absent cfg now m id)

elem-dead_in :
    (cfg : SweeperConfig) (now : ℕ) (m : Map ServerId NodeDescriptor) (id : ServerId)
    → NodupKeys m
    → elem id (dead_in cfg now m) ≡ dead_now cfg now (get m id)
unfolding dead_in elem keys get
elem-dead_in cfg now [] id d = refl
elem-dead_in cfg now ((k, info) ∷ m) id d =
    ground (arith, elem-dead_in cfg now m id d.1, elem-dead_in_absent cfg now m k d.0)

abbrev pub buried : SweeperConfig → ℕ → Option NodeDescriptor → Option NodeDescriptor
buried cfg now none = none
buried cfg now (some info) =
    if is_dead cfg now info
    then some (record info { status = ServerStatus.shutdown })
    else some info

abbrev pub freed : SweeperConfig → ℕ → ServerRegistry → Option ServerId → Option ServerId
freed cfg now r none = none
freed cfg now r (some owner) = if dead_now cfg now (get r.svr owner) then none else some owner

freed_lem :
    (s : Sweeper) (now : ℕ) (o : Option ServerId)
    → NodupKeys s.reg.svr
    → freed_by (dead_in s.cfg now s.reg.svr) o ≡ freed s.cfg now s.reg o
freed_lem s now none d = refl
freed_lem s now (some owner) d = ground (arith, elem-dead_in s.cfg now s.reg.svr owner d)

-- One sweep marks as shut down exactly the registered servers that are not yet so and whose last
-- heartbeat is longer ago than the threshold, changes no other server, takes exactly the zones of
-- those servers from the table, and leaves every other zone with its owner.
pub sweep_exact :
    (s : Sweeper) (now : ℕ) (id : ServerId) (zone : String)
    → NodupKeys s.reg.svr
    → (get (sweep s now).reg.svr id ≡ buried s.cfg now (get s.reg.svr id))
      × (get (sweep s now).zo.zones zone ≡ freed s.cfg now s.reg (get s.zo.zones zone))
unfolding sweep
sweep_exact s now id zone d =
    let dead = dead_in s.cfg now s.reg.svr in
    (
      svr-bury s dead id ∙ ground (arith, elem-dead_in s.cfg now s.reg.svr id d),
      zones-bury s dead zone ∙ freed_lem s now (get s.zo.zones zone) d,
    )
