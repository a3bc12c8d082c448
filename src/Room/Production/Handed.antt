-- ===== src/Room/Production/Handed.antt =====
-- internal/room/sweeper_production.go: what becomes of one zone of a dead server.
use spatial_server.Base.{
  has_key, ◌≡◌, refl, ◌∙◌, ap, true, inl, inr, Bool-cases, Option, none, some, List, [], ◌∷◌,
  if◌then◌else◌, elem, String, string_key, get, put, get-put, NodupKeys, arith,
}
use spatial_server.Types.{ServerId, ok}
use spatial_server.Room.Node.{NodeDescriptor}
use spatial_server.Room.Database.{Database, ZoneRow, Answer, answer, refused, failed}
use spatial_server.Room.Database.Zones.{claimed_row, released_row, owns}
use spatial_server.Room.Database.Zones.Claims.{settled, claim-free, freed, release-free}
use spatial_server.Room.Database.Reliable.{list_servers-free}
use spatial_server.Room.Database.Live.{
  active_servers-cases, has_key_of, select-listed, first_active,
}
use spatial_server.Room.Database.Shut.{Elsewhere}
use spatial_server.Room.Production.{
  ProductionSweeper, claimed, chosen, listed, released, reassign_zone, reassign_zones,
}

-- A row whose owner is gone: it goes to the first active server, or is left without an owner.
abbrev pub moved : Option NodeDescriptor → ZoneRow → ZoneRow
moved none row = released_row row
moved (some n) row = claimed_row n.node_id (released_row row)

abbrev pub rehomed : Option NodeDescriptor → ServerId → Option ZoneRow → Option ZoneRow
rehomed first dead none = none
rehomed first dead (some row) = if owns dead row.server_id then some (moved first row) else some row

-- The database after the writes for one zone.
abbrev handed_row : Database → String → Option NodeDescriptor → ZoneRow → Database
handed_row d zone none row = record d { zones = put d.zones zone (released_row row) }
handed_row d zone (some n) row = record d {
  zones = put (put d.zones zone (released_row row)) zone (claimed_row n.node_id (released_row row));
}

abbrev handed : Database → String → Option NodeDescriptor → ServerId → Option ZoneRow → Database
handed d zone first dead none = d
handed d zone first dead (some row) =
    if owns dead row.server_id then handed_row d zone first row else d

claimed-db :
    (zone : String) (n : NodeDescriptor) (s : ProductionSweeper) (a : Answer Unit)
    → (claimed zone n s a).db ≡ s.db
unfolding claimed
claimed-db zone n s (answer _) = refl
claimed-db zone n s (refused e) = refl
claimed-db zone n s failed = refl

-- The state after the release.
abbrev let_go : ProductionSweeper → String → ZoneRow → ProductionSweeper
let_go s zone row = record s { db = record s.db { zones = put s.db.zones zone (released_row row) } }

settled-released :
    (d : Database) (zone : String) (n : NodeDescriptor) (row : ZoneRow) (found : Option ZoneRow)
    → found ≡ some (released_row row)
    → (settled d zone n.node_id found).1
      ≡ record d { zones = put d.zones zone (claimed_row n.node_id (released_row row)) }
settled-released d zone n row found h =
    ap (λ f. (settled d zone n.node_id f).1) h ∙ (unfold released_row in refl)

chosen-db :
    (s : ProductionSweeper) (zone : String) (n : NodeDescriptor) (row : ZoneRow)
    → s.db.faults ≡ []
    → has_key s.db.servers n.node_id ≡ true
    → (chosen zone (let_go s zone row) (ok n)).db ≡ handed_row s.db zone (some n) row
unfolding chosen
chosen-db s zone n row h k =
    let d = (let_go s zone row).db in
    claimed-db zone n _ _
    ∙ ap (λ r. r.1) (claim-free d zone "" n.node_id h k)
    ∙ settled-released d zone n row (get d.zones zone)
        (ground (arith, get-put s.db.zones zone zone (released_row row)))

released-db :
    (s : ProductionSweeper) (zone : String) (row : ZoneRow)
    → s.db.faults ≡ []
    → NodupKeys s.db.servers
    → (released zone (let_go s zone row) (answer tt)).db
      ≡ handed_row s.db zone (first_active s.db.servers) row
unfolding released
released-db s zone row h keys =
    let t = let_go s zone row in
    ap (λ r. (listed zone (record t { db = r.1 }) r.0).db) (list_servers-free t.db h)
    ∙ elim (active_servers-cases s.db.servers keys) [
      | inl e ↦ rw e (unfold listed in refl)
      | inr (n, ns, e, l) ↦ rw e (
          unfold listed in
          (rw (select-listed s.db.servers n ns l)
            (chosen-db s zone n row h (has_key_of s.db.servers n.node_id l.0 l.1))))
    ]

freed-db :
    (s : ProductionSweeper) (dead : ServerId) (zone : String) (found : Option ZoneRow)
    → s.db.faults ≡ []
    → NodupKeys s.db.servers
    → (released zone
        (record s { db = (freed s.db zone dead found).1 })
        (freed s.db zone dead found).0).db
      ≡ handed s.db zone (first_active s.db.servers) dead found
freed-db s dead zone none h keys = unfold released in refl
freed-db s dead zone (some row) h keys = elim (Bool-cases (owns dead row.server_id)) [
  | inl mine ↦ rw mine (released-db s zone row h keys)
  | inr other ↦ rw other (unfold released in refl)
]

pub reassign_zone-db :
    (s : ProductionSweeper) (dead : ServerId) (zone : String)
    → s.db.faults ≡ []
    → NodupKeys s.db.servers
    → (reassign_zone s dead zone).db
      ≡ handed s.db zone (first_active s.db.servers) dead (get s.db.zones zone)
unfolding reassign_zone
reassign_zone-db s dead zone h keys =
    ap (λ r. (released zone (record s { db = r.1 }) r.0).db) (release-free s.db zone dead h)
    ∙ freed-db s dead zone (get s.db.zones zone) h keys

-- What the loop over zones changes: no server, and the rows of the zones of the list that `dead` owns.
abbrev pub IsRehomed : Database → Database → Option NodeDescriptor → ServerId → List String → Type 0
IsRehomed before after first dead ids =
    (after.faults ≡ [])
    × (after.servers ≡ before.servers)
    × ((zone : String)
        → get after.zones zone ≡ (
            if elem zone ids
            then rehomed first dead (get before.zones zone)
            else get before.zones zone))

handed-IsRehomed :
    (d : Database) (zone : String) (first : Option NodeDescriptor) (dead : ServerId)
    (found : Option ZoneRow)
    → d.faults ≡ []
    → get d.zones zone ≡ found
    → IsRehomed d (handed d zone first dead found) first dead (zone ∷ [])
unfolding elem
handed-IsRehomed d zone first dead none h g = (h, refl, λ other. ground arith)
handed-IsRehomed d zone none dead (some row) h g = (
  ground arith,
  ground arith,
  λ other. ground (arith, get-put d.zones zone other (released_row row)),
)
handed-IsRehomed d zone (some n) dead (some row) h g = (
  ground arith,
  ground arith,
  λ other. ground (
    arith,
    get-put (put d.zones zone (released_row row)) zone other
        (claimed_row n.node_id (released_row row)),
    get-put d.zones zone other (released_row row),
  ),
)

rehomed-stays :
    (first : Option NodeDescriptor) (dead : ServerId) (found : Option ZoneRow)
    → Elsewhere dead first
    → rehomed first dead (rehomed first dead found) ≡ rehomed first dead found
unfolding owns claimed_row released_row
rehomed-stays first dead none h = refl
rehomed-stays none dead (some row) h = ground arith
rehomed-stays (some n) dead (some row) h = ground arith

pub reassign_zones-IsRehomed :
    (s : ProductionSweeper) (dead : ServerId) (ids : List String) (first : Option NodeDescriptor)
    → s.db.faults ≡ []
    → NodupKeys s.db.servers
    → first_active s.db.servers ≡ first
    → Elsewhere dead first
    → IsRehomed s.db (reassign_zones s dead ids).db first dead ids
unfolding reassign_zones elem
reassign_zones-IsRehomed s dead [] first h keys f e = (h, refl, λ zone. refl)
reassign_zones-IsRehomed s dead (zone ∷ ids) first h keys f e =
    let t = reassign_zone s dead zone in
    let now = reassign_zone-db s dead zone h keys in
    let one : IsRehomed s.db t.db first dead (zone ∷ []) =
      rw now (rw f (handed-IsRehomed s.db zone first dead (get s.db.zones zone) h refl)) in
    let rest = reassign_zones-IsRehomed t dead ids first one.0 (rw one.1 keys) (rw one.1 f) e in
    (
      rest.0,
      rest.1 ∙ one.1,
      λ other.
          ground
            (arith, rest.2 other, one.2 other, rehomed-stays first dead (get s.db.zones other) e),
    )
