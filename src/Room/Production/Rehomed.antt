-- ===== src/Room/Production/Rehomed.antt =====
-- internal/room/sweeper_production.go: what one sweep on the database changes.
use spatial_server.Base.{
  ◌≡◌, refl, sym, ◌∙◌, ap, Bool, false, inl, inr, Bool-cases, Option, none, some, List, [], ◌∷◌,
  if◌then◌else◌, elem, String, string_key, Map, get, NodupKeys, arith,
}
use spatial_server.Types.{ServerId}
use spatial_server.Room.Node.{NodeDescriptor}
use spatial_server.Room.Database.{Database, ServerRow, ZoneRow}
use spatial_server.Room.Database.Servers.{dead_servers}
use spatial_server.Room.Database.Zones.{claimed_row, released_row, owns, owned_by}
use spatial_server.Room.Database.Reliable.{list_dead-free, list_by_server-free, mark_shutdown-free}
use spatial_server.Room.Database.Live.{first_active}
use spatial_server.Room.Database.Shut.{
  Elsewhere, shut_one, shut_all, shut_if, shut_one-NodupKeys, shut_one-Elsewhere, shut_all-none,
  shut_all-some, get-shut_all,
}
use spatial_server.Room.Production.{
  ProductionSweeper, orphans, reassign_zones_for, marked, bury, found_dead, sweep,
}
use spatial_server.Room.Production.Handed.{moved, rehomed, reassign_zones-IsRehomed}

not_owned-rehomed :
    (m : Map String ZoneRow) (dead : ServerId) (zone : String) (first : Option NodeDescriptor)
    → elem zone (owned_by dead m) ≡ false
    → rehomed first dead (get m zone) ≡ get m zone
unfolding owned_by elem get
not_owned-rehomed [] dead zone first h = refl
not_owned-rehomed ((k, row) ∷ m) dead zone first h =
    ground (arith, not_owned-rehomed m dead zone first)

-- The database after a dead server, which is marked, has lost its zones.
abbrev IsFreed : Database → Database → Option NodeDescriptor → ServerId → Type 0
IsFreed before after first dead =
    (after.faults ≡ [])
    × (after.servers ≡ before.servers)
    × ((zone : String) → get after.zones zone ≡ rehomed first dead (get before.zones zone))

reassign_zones_for-IsFreed :
    (s : ProductionSweeper) (dead : ServerId) (first : Option NodeDescriptor)
    → s.db.faults ≡ []
    → NodupKeys s.db.servers
    → first_active s.db.servers ≡ first
    → Elsewhere dead first
    → IsFreed s.db (reassign_zones_for s dead).db first dead
unfolding reassign_zones_for
reassign_zones_for-IsFreed s dead first h keys f e =
    let ids = owned_by dead s.db.zones in
    let done = reassign_zones-IsRehomed s dead ids first h keys f e in
    rw (list_by_server-free s.db dead h) (
      unfold orphans in
      (
        done.0,
        done.1,
        λ zone. ground (arith, done.2 zone, not_owned-rehomed s.db.zones dead zone first),
      ))

abbrev pub owned_any : List ServerId → Option ServerId → Bool
owned_any ids none = false
owned_any ids (some owner) = elem owner ids

-- A zone of one of the dead servers goes to the first active server, if there is one.
abbrev pub rehomed_all : Option NodeDescriptor → List ServerId → Option ZoneRow → Option ZoneRow
rehomed_all first ids none = none
rehomed_all first ids (some row) =
    if owned_any ids row.server_id then some (moved first row) else some row

moved_again :
    (first : Option NodeDescriptor) (n : NodeDescriptor) (row : ZoneRow)
    → moved first (claimed_row n.node_id (released_row row)) ≡ moved first row
unfolding claimed_row released_row
moved_again none n row = refl
moved_again (some k) n row = refl

-- The zone is moved on with each dead server that it was handed to.
rehomed-later :
    (m : Map ServerId ServerRow) (dead : ServerId) (ids : List ServerId)
    (first : Option NodeDescriptor) (found : Option ZoneRow)
    → first_active m ≡ first
    → rehomed_all (first_active (shut_all m ids)) ids (rehomed first dead found)
      ≡ rehomed_all (first_active (shut_all m ids)) (dead ∷ ids) found
unfolding elem owns claimed_row released_row
rehomed-later m dead ids first none h = refl
rehomed-later m dead ids none (some row) h = rw (shut_all-none m ids h) (ground arith)
rehomed-later m dead ids (some n) (some row) h = elim (Bool-cases (elem n.node_id ids)) [
  | inl later ↦ ground (arith, moved_again (first_active (shut_all m ids)) n row)
  | inr stays ↦ rw (shut_all-some m ids n h stays) (ground arith)
]

-- The database after the loop over dead servers.
abbrev IsBuried : Database → Database → List ServerId → Type 0
IsBuried before after ids =
    (after.servers ≡ shut_all before.servers ids)
    × ((zone : String)
        → get after.zones zone
          ≡ rehomed_all (first_active (shut_all before.servers ids)) ids (get before.zones zone))

-- The body of that loop.
bury_one :
    (s : ProductionSweeper) (dead : ServerId)
    → s.db.faults ≡ []
    → NodupKeys s.db.servers
    → (t : ProductionSweeper) × ((ids : List ServerId) → bury s (dead ∷ ids) ≡ bury t ids)
      × (t.db.faults ≡ [])
      × (t.db.servers ≡ shut_one s.db.servers dead)
      × ((zone : String)
          → get t.db.zones zone
            ≡ rehomed (first_active (shut_one s.db.servers dead)) dead (get s.db.zones zone))
bury_one s dead h keys =
    let m = shut_one s.db.servers dead in
    let u : ProductionSweeper = record s { db = record s.db { servers = m } } in
    let done =
      reassign_zones_for-IsFreed u dead (first_active m) h
        (shut_one-NodupKeys s.db.servers dead keys) refl
        (shut_one-Elsewhere s.db.servers dead keys) in
    (
      reassign_zones_for u dead,
      λ ids.
          unfold bury in
          (ap (λ r. bury (marked (record s { db = r.1 }) dead r.0) ids)
              (mark_shutdown-free s.db dead h)
            ∙ unfold marked in refl),
      done.0,
      done.1,
      done.2,
    )

bury-IsBuried :
    (s : ProductionSweeper) (ids : List ServerId)
    → s.db.faults ≡ []
    → NodupKeys s.db.servers
    → IsBuried s.db (bury s ids).db ids
unfolding elem
bury-IsBuried s [] h keys = unfold bury in (refl, λ zone. ground arith)
bury-IsBuried s (dead ∷ ids) h keys =
    let (t, step, th, servers, zones) = bury_one s dead h keys in
    let m = shut_one s.db.servers dead in
    let keys_t : NodupKeys t.db.servers = rw servers (shut_one-NodupKeys s.db.servers dead keys) in
    let rest = bury-IsBuried t ids th keys_t in
    rw (step ids) (
      rest.0 ∙ ap (λ m. shut_all m ids) servers,
      λ zone.
          rest.1 zone
          ∙ ap (λ m. rehomed_all (first_active (shut_all m ids)) ids (get t.db.zones zone)) servers
          ∙ ap (rehomed_all (first_active (shut_all m ids)) ids) (zones zone)
          ∙ rehomed-later m dead ids (first_active m) (get s.db.zones zone) refl,
    )

-- While the database works, one sweep marks exactly the servers that it lists as dead, and hands
-- every zone of theirs to the first server of the table that is active after it; if there is none,
-- those zones are left without an owner. Every other zone keeps its row. No two rows of the table of
-- the servers have the same key.
pub sweep_rehomes :
    (s : ProductionSweeper) (id : ServerId) (zone : String)
    → s.db.faults ≡ []
    → NodupKeys s.db.servers
    → let dead = dead_servers s.db.now s.cfg.miss_threshold s.db.servers in
      (get (sweep s).db.servers id ≡ shut_if (elem id dead) (get s.db.servers id))
      × (get (sweep s).db.zones zone
          ≡ rehomed_all (first_active (sweep s).db.servers) dead (get s.db.zones zone))
sweep_rehomes s id zone h keys =
    let dead = dead_servers s.db.now s.cfg.miss_threshold s.db.servers in
    let done = bury-IsBuried s dead h keys in
    unfold sweep in
    rw (list_dead-free s.db s.cfg.miss_threshold h) (
      unfold found_dead in
      (
        ap (λ m. get m id) done.0 ∙ get-shut_all s.db.servers dead id,
        done.1 zone
            ∙ ap (λ m. rehomed_all (first_active m) dead (get s.db.zones zone)) (sym done.0),
      ))
