-- ===== src/Room/Service/Repeats.antt =====
-- apps/room-service/main.go: a zone that is looked up again.
use spatial_server.Base.{
  ℕ, ◌≡◌, refl, sym, ◌∙◌, ap, true, inl, inr, Bool-cases, Option, none, some, [], ◌==◌, String,
  string_key, get, put, get-put, NodupKeys, arith,
}
use spatial_server.Types.{ServerId}
use spatial_server.Room.Node.{NodeDescriptor, address}
use spatial_server.Room.Database.{Database, ServerRow, ZoneRow}
use spatial_server.Room.Database.Servers.{scanned}
use spatial_server.Room.Database.Zones.{claimed_row}
use spatial_server.Room.Database.Live.{IsListed, first_active-IsListed, first_active}
use spatial_server.Room.Service.{Reply, response, lookup_zone}
use spatial_server.Room.Service.Replies.{
  server_row, owner_of, placed_at, placed, found_of, found_reply, lookup_zone_found,
}

-- The second of two lookups answers what the first does, and changes nothing.
abbrev pub Repeats : Database → String → Type 0
Repeats d zone = lookup_zone (lookup_zone d zone).1 zone ≡ lookup_zone d zone

unchanged-Repeats :
    (d : Database) (zone : String) (r : Reply) → lookup_zone d zone ≡ (r, d) → Repeats d zone
unchanged-Repeats d zone r h = ap (λ p. lookup_zone p.1 zone) h

response-scanned :
    (id : ServerId) (row : ServerRow) (s t : ℕ)
    → response (scanned id row s) ≡ response (scanned id row t)
unfolding response scanned address
response-scanned id row s t = refl

-- The state after the zone is given to `n`.
abbrev given : Database → String → NodeDescriptor → ZoneRow → Database
given d zone n row = record d { zones = put d.zones zone (claimed_row n.node_id row) }

written :
    (d : Database) (zone : String) (n : NodeDescriptor) (row : ZoneRow)
    → get (given d zone n row).zones zone ≡ some (claimed_row n.node_id row)
written d zone n row = ground (arith, get-put d.zones zone zone (claimed_row n.node_id row))

at_empty :
    (e : Database) (zone : String) (n : NodeDescriptor) (row : ZoneRow)
    → first_active e.servers ≡ some n
    → get e.zones zone ≡ some (claimed_row n.node_id row)
    → (n.node_id == "") ≡ true
    → placed e zone (first_active e.servers) (get e.zones zone) ≡ (response n, e)
unfolding claimed_row
at_empty e zone n row first now empty = rw first (rw now (rw empty refl))

at_named :
    (e : Database) (zone : String) (n : NodeDescriptor)
    → IsListed e.servers n
    → found_of e zone (server_row e n.node_id (get e.servers n.node_id)) ≡ (response n, e)
at_named e zone n (host, there, live, same) =
    rw there (ap (λ r. (r, e)) (response-scanned n.node_id host e.now 0 ∙ ap response (sym same)))

given-found :
    (e : Database) (zone : String) (n : NodeDescriptor) (row : ZoneRow)
    → NodupKeys e.servers
    → first_active e.servers ≡ some n
    → get e.zones zone ≡ some (claimed_row n.node_id row)
    → found_reply e zone ≡ (response n, e)
given-found e zone n row keys first now =
    ap (λ found. found_of e zone (owner_of e found)) now
    ∙ unfold claimed_row in
      elim (Bool-cases (n.node_id == "")) [
        | inl empty ↦ rw empty (at_empty e zone n row first now empty)
        | inr named ↦ rw named (at_named e zone n (first_active-IsListed e.servers n keys first))
      ]

-- A lookup that found no owner, by the owner that the row of the zone has.
placed_at-Repeats :
    (d : Database) (zone : String) (n : NodeDescriptor) (row : ZoneRow) (owner : Option ServerId)
    → d.faults ≡ []
    → NodupKeys d.servers
    → first_active d.servers ≡ some n
    → lookup_zone d zone ≡ placed_at d zone n row owner
    → Repeats d zone
placed_at-Repeats d zone n row (some owner) h keys first e = unchanged-Repeats d zone _ e
placed_at-Repeats d zone n row none h keys first e =
    ap (λ p. lookup_zone p.1 zone) e
    ∙ lookup_zone_found (given d zone n row) zone h keys
    ∙ given-found (given d zone n row) zone n row keys first (written d zone n row)
    ∙ sym e

placed-Repeats :
    (d : Database) (zone : String) (first : Option NodeDescriptor) (found : Option ZoneRow)
    → d.faults ≡ []
    → NodupKeys d.servers
    → first_active d.servers ≡ first
    → lookup_zone d zone ≡ placed d zone first found
    → Repeats d zone
placed-Repeats d zone none found h keys first e = unchanged-Repeats d zone _ e
placed-Repeats d zone (some n) none h keys first e = unchanged-Repeats d zone _ e
placed-Repeats d zone (some n) (some row) h keys first e =
    placed_at-Repeats d zone n row row.server_id h keys first e

found_of-Repeats :
    (d : Database) (zone : String) (owner : Option NodeDescriptor)
    → d.faults ≡ []
    → NodupKeys d.servers
    → lookup_zone d zone ≡ found_of d zone owner
    → Repeats d zone
found_of-Repeats d zone (some info) h keys e = unchanged-Repeats d zone _ e
found_of-Repeats d zone none h keys e =
    placed-Repeats d zone (first_active d.servers) (get d.zones zone) h keys refl e

-- While the database works, a second lookup of a zone gives the same reply as the first, be it an
-- address or an error, and writes nothing. No two rows of the table of the servers have the same
-- key.
pub lookup_zone_repeats :
    (d : Database) (zone : String)
    → d.faults ≡ []
    → NodupKeys d.servers
    → lookup_zone (lookup_zone d zone).1 zone ≡ lookup_zone d zone
lookup_zone_repeats d zone h keys =
    found_of-Repeats d zone (owner_of d (get d.zones zone)) h keys (lookup_zone_found d zone h keys)
