-- ===== src/Room/Service/Replies.antt =====
-- apps/room-service/main.go: what `LookupZone` answers while the database works.
use spatial_server.Base.{
  ℕ, List, [], ◌∷◌, Map, ◌≡◌, refl, ◌∙◌, ap, inl, inr, Bool-cases, Option, none, some, [],
  if◌then◌else◌, ◌==◌, ◌&&◌, not, String, string_key, get, put, NodupKeys, arith,
}
use spatial_server.Base.Text.{◌<>◌, decimal}
use spatial_server.Types.{ServerId}
use spatial_server.Room.Node.{NodeDescriptor, address}
use spatial_server.Room.Database.{Database, ServerRow, ZoneRow}
use spatial_server.Room.Database.Servers.{scanned, active_servers, scan_server}
use spatial_server.Room.Database.Zones.{claimed_row, looked_up, owner_answer}
use spatial_server.Room.Database.Zones.Claims.{settled, settled_at, claim-free}
use spatial_server.Room.Database.Reliable.{lookup-free, get_server-free, list_servers-free}
use spatial_server.Room.Database.Live.{
  active_servers-cases, select-listed, has_key_of, first_active,
}
use spatial_server.Room.Service.{
  Code, Reply, reply, status, response, claimed, listed, assign, described, located, lookup_zone,
}

-- The owner of a zone, if the tables have it.
abbrev pub server_row : Database → ServerId → Option ServerRow → Option NodeDescriptor
server_row d id none = none
server_row d id (some row) = some (scanned id row d.now)

abbrev pub owner_server : Database → Option ServerId → Option NodeDescriptor
owner_server d none = none
owner_server d (some owner) = if owner == "" then none else server_row d owner (get d.servers owner)

abbrev pub owner_of : Database → Option ZoneRow → Option NodeDescriptor
owner_of d none = none
owner_of d (some row) = owner_server d row.server_id

-- The reply for a zone whose owner is not found, on the first active server.
abbrev pub placed_at :
    Database → String → NodeDescriptor → ZoneRow → Option ServerId → Reply × Database
placed_at d zone n row none =
    (response n, record d { zones = put d.zones zone (claimed_row n.node_id row) })
placed_at d zone n row (some owner) =
    (if not (owner == "") && not (owner == n.node_id) then status Code.internal else response n, d)

abbrev pub placed : Database → String → Option NodeDescriptor → Option ZoneRow → Reply × Database
placed d zone none found = (status Code.unavailable, d)
placed d zone (some n) none = (status Code.internal, d)
placed d zone (some n) (some row) = placed_at d zone n row row.server_id

abbrev pub found_of : Database → String → Option NodeDescriptor → Reply × Database
found_of d zone (some info) = (response info, d)
found_of d zone none = placed d zone (first_active d.servers) (get d.zones zone)

abbrev pub found_reply : Database → String → Reply × Database
found_reply d zone = found_of d zone (owner_of d (get d.zones zone))

claimed_at-placed :
    (d : Database) (zone : String) (n : NodeDescriptor) (row : ZoneRow) (owner : Option ServerId)
    → claimed n (settled_at d zone n.node_id row owner).1 (settled_at d zone n.node_id row owner).0
      ≡ placed_at d zone n row owner
unfolding claimed
claimed_at-placed d zone n row none = refl
claimed_at-placed d zone n row (some owner) = ground arith

claimed-placed :
    (d : Database) (zone : String) (n : NodeDescriptor) (found : Option ZoneRow)
    → claimed n (settled d zone n.node_id found).1 (settled d zone n.node_id found).0
      ≡ placed d zone (some n) found
unfolding claimed
claimed-placed d zone n none = refl
claimed-placed d zone n (some row) = claimed_at-placed d zone n row row.server_id

assign-placed :
    (d : Database) (zone : String)
    → d.faults ≡ []
    → NodupKeys d.servers
    → assign d zone ≡ placed d zone (first_active d.servers) (get d.zones zone)
unfolding assign listed get
assign-placed d zone h keys =
    ap (λ r. listed r.1 zone r.0) (list_servers-free d h)
    ∙ elim (active_servers-cases d.servers keys) [
      | inl e ↦ rw e (unfold listed in refl)
      | inr (n, ns, e, l) ↦ rw e (
          unfold listed in
          (rw (select-listed d.servers n ns l) (
            ap (λ r. claimed n r.1 r.0)
              (claim-free d zone "" n.node_id h (has_key_of d.servers n.node_id l.0 l.1))
            ∙ claimed-placed d zone n (get d.zones zone))))
    ]

described-found :
    (d : Database) (zone : String) (id : ServerId) (row : Option ServerRow)
    → d.faults ≡ []
    → NodupKeys d.servers
    → described d zone (scan_server d id row) ≡ found_of d zone (server_row d id row)
unfolding described scan_server
described-found d zone id none h keys = assign-placed d zone h keys
described-found d zone id (some row) h keys = refl

located_at-found :
    (d : Database) (zone : String) (owner : Option ServerId)
    → d.faults ≡ []
    → NodupKeys d.servers
    → located d zone (owner_answer owner) ≡ found_of d zone (owner_server d owner)
unfolding located owner_answer
located_at-found d zone none h keys = assign-placed d zone h keys
located_at-found d zone (some owner) h keys = elim (Bool-cases (owner == "")) [
  | inl empty ↦ rw empty (assign-placed d zone h keys)
  | inr named ↦ rw named (
      ap (λ r. described r.1 zone r.0) (get_server-free d owner h)
      ∙ described-found d zone owner (get d.servers owner) h keys)
]

located-found :
    (d : Database) (zone : String) (found : Option ZoneRow)
    → d.faults ≡ []
    → NodupKeys d.servers
    → located d zone (looked_up found) ≡ found_of d zone (owner_of d found)
unfolding looked_up
located-found d zone none h keys = unfold located in assign-placed d zone h keys
located-found d zone (some row) h keys = located_at-found d zone row.server_id h keys

-- The reply that names a server of the table.
abbrev pub answered : ServerId → ServerRow → Reply
answered id row =
    reply (record { server = id; advertise_addr = row.host <> ":" <> decimal row.port })

-- The first server of the table whose status is active.
abbrev pub first_entry : Map ServerId ServerRow → Option (ServerId × ServerRow)
first_entry [] = none
first_entry ((id, row) ∷ m) = if row.status == "active" then some (id, row) else first_entry m

-- The owner of a zone, if it has one and the table of the servers has that.
abbrev pub entry_at : ServerId → Option ServerRow → Option (ServerId × ServerRow)
entry_at id none = none
entry_at id (some row) = some (id, row)

abbrev pub named_entry : Database → Option ServerId → Option (ServerId × ServerRow)
named_entry d none = none
named_entry d (some owner) = if owner == "" then none else entry_at owner (get d.servers owner)

abbrev pub owner_entry : Database → Option ZoneRow → Option (ServerId × ServerRow)
owner_entry d none = none
owner_entry d (some row) = named_entry d row.server_id

-- What becomes of a zone that is given to the first active server.
abbrev pub given_to :
    Database → String → ServerId → ServerRow → ZoneRow → Option ServerId → Reply × Database
given_to d zone id row z none = (
  answered id row,
  record d { zones = put d.zones zone (record z { server_id = some id; status = "active" }) },
)
given_to d zone id row z (some owner) =
    (if not (owner == "") && not (owner == id) then status Code.internal else answered id row, d)

abbrev pub given :
    Database → String → Option (ServerId × ServerRow) → Option ZoneRow → Reply × Database
given d zone none found = (status Code.unavailable, d)
given d zone (some e) none = (status Code.internal, d)
given d zone (some e) (some z) = given_to d zone e.0 e.1 z z.server_id

abbrev pub expected_of : Database → String → Option (ServerId × ServerRow) → Reply × Database
expected_of d zone (some e) = (answered e.0 e.1, d)
expected_of d zone none = given d zone (first_entry d.servers) (get d.zones zone)

abbrev pub expected : Database → String → Reply × Database
expected d zone = expected_of d zone (owner_entry d (get d.zones zone))

-- The descriptor that is scanned from an entry, at a reading of the clock.
abbrev descriptor : ℕ → Option (ServerId × ServerRow) → Option NodeDescriptor
descriptor now none = none
descriptor now (some e) = some (scanned e.0 e.1 now)

first-entry : (m : Map ServerId ServerRow) → first_active m ≡ descriptor 0 (first_entry m)
unfolding active_servers
first-entry [] = refl
first-entry ((id, row) ∷ m) = elim (Bool-cases (row.status == "active")) [
  | inl active ↦ rw active refl
  | inr other ↦ rw other (first-entry m)
]

entry-at :
    (d : Database) (id : ServerId) (row : Option ServerRow)
    → server_row d id row ≡ descriptor d.now (entry_at id row)
entry-at d id none = refl
entry-at d id (some row) = refl

named-entry :
    (d : Database) (owner : Option ServerId)
    → owner_server d owner ≡ descriptor d.now (named_entry d owner)
named-entry d none = refl
named-entry d (some owner) = elim (Bool-cases (owner == "")) [
  | inl empty ↦ rw empty refl
  | inr named ↦ rw named (entry-at d owner (get d.servers owner))
]

owner-entry :
    (d : Database) (found : Option ZoneRow)
    → owner_of d found ≡ descriptor d.now (owner_entry d found)
owner-entry d none = refl
owner-entry d (some row) = named-entry d row.server_id

placed_at-given :
    (d : Database) (zone : String) (id : ServerId) (row : ServerRow) (z : ZoneRow)
    (owner : Option ServerId)
    → placed_at d zone (scanned id row 0) z owner ≡ given_to d zone id row z owner
unfolding scanned response address claimed_row decimal spatial_server.Base.String_dec
placed_at-given d zone id row z none = refl
placed_at-given d zone id row z (some owner) = refl

placed-given :
    (d : Database) (zone : String) (e : Option (ServerId × ServerRow)) (found : Option ZoneRow)
    → placed d zone (descriptor 0 e) found ≡ given d zone e found
placed-given d zone none found = refl
placed-given d zone (some e) none = refl
placed-given d zone (some e) (some z) = placed_at-given d zone e.0 e.1 z z.server_id

found-expected :
    (d : Database) (zone : String) (info : Option NodeDescriptor)
    (e : Option (ServerId × ServerRow))
    → info ≡ descriptor d.now e
    → found_of d zone info ≡ expected_of d zone e
unfolding scanned response address decimal spatial_server.Base.String_dec
found-expected d zone info none h = rw h (
    ap (λ n. placed d zone n (get d.zones zone)) (first-entry d.servers)
    ∙ placed-given d zone (first_entry d.servers) (get d.zones zone))
found-expected d zone info (some e) h = rw h refl

-- The reply by the descriptors that the queries scan.
pub lookup_zone_found :
    (d : Database) (zone : String)
    → d.faults ≡ []
    → NodupKeys d.servers
    → lookup_zone d zone ≡ found_reply d zone
unfolding lookup_zone
lookup_zone_found d zone h keys =
    ap (λ r. located r.1 zone r.0) (lookup-free d zone h)
    ∙ located-found d zone (get d.zones zone) h keys

-- While the database works, `LookupZone` answers the identifier of the owner of the zone and the host
-- and port of its row, if the table of the servers has it. Otherwise it fails as unavailable if no server is active. Otherwise it
-- answers the first active server of the table, whatever the load of that server: it writes it as
-- the owner of a zone without one, with the status "active", and fails with an internal error if the zone has no row or
-- another owner. No two rows of the table of the servers have the same key.
pub lookup_zone_answers :
    (d : Database) (zone : String)
    → d.faults ≡ []
    → NodupKeys d.servers
    → lookup_zone d zone ≡ expected d zone
lookup_zone_answers d zone h keys =
    lookup_zone_found d zone h keys
    ∙ found-expected d zone (owner_of d (get d.zones zone)) (owner_entry d (get d.zones zone))
        (owner-entry d (get d.zones zone))
