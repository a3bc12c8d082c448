-- ===== src/Room/Service/Lookup.antt =====
-- apps/room-service/main.go: what `LookupZone` writes, whether or not the database fails.
use spatial_server.Base.{
  ◌≡◌, refl, sym, ◌∙◌, ◌⊎◌, inl, inr, Bool-cases, none, some, ◌==◌, String, string_key, get,
  get-put, NodupKeys, arith, subst, eq_of_test,
}
use spatial_server.Types.{ServerId, ok}
use spatial_server.Room.Node.{NodeDescriptor}
use spatial_server.Room.Database.{
  Database, ServerRow, ZoneRow, Answer, answer, refused, failed, fails, asked,
}
use spatial_server.Room.Database.Servers.{active_servers, get_server, list_servers}
use spatial_server.Room.Database.Zones.{claim, claimed_row, lookup}
use spatial_server.Room.Database.Zones.Claims.{Same, claim-cases}
use spatial_server.Room.Database.Live.{IsListed, active_servers-cases, select-listed}
use spatial_server.Room.Service.{claimed, selected, listed, assign, described, located, lookup_zone}

-- The zone had a row without an owner, and now has an owner that the table of the servers has as
-- active.
abbrev pub IsAssigned : Database → Database → String → Type 0
IsAssigned before after zone =
    (row : ZoneRow) × (server : ServerId) × (host : ServerRow) × (get before.zones zone ≡ some row)
    × (row.server_id ≡ none)
    × (get after.zones zone ≡ some (claimed_row server row))
    × (get before.servers server ≡ some host)
    × (host.status ≡ "active")

-- Every zone has the row that it had, but for `zone`, which may have been assigned.
abbrev pub Assigns : String → Database → Database → Type 0
Assigns zone before after =
    (after.servers ≡ before.servers)
    × ((other : String)
        → (get after.zones other ≡ get before.zones other)
          ⊎ ((other ≡ zone) × IsAssigned before after zone))

Same-Assigns : (zone : String) (d e : Database) → Same d e → Assigns zone d e
Same-Assigns zone d e (s, z) = (s, λ other. inl (rw z refl))

-- A call of the database before the write changes nothing of this.
after_call : (zone : String) (d c e : Database) → Same d c → Assigns zone c e → Assigns zone d e
after_call zone d c e (s, z) (t, f) = (
  t ∙ s,
  λ other. elim (f other) [
    | inl same ↦ inl (same ∙ rw z refl)
    | inr (at, (row, server, host, g, free, now, there, live)) ↦
        inr (at, (row, server, host, rw (sym z) g, free, now, rw (sym s) there, live))
  ],
)

claim-Assigns :
    (zone : String) (d : Database) (n : NodeDescriptor)
    → IsListed d.servers n
    → Assigns zone d (claim d zone "" n.node_id).1
claim-Assigns zone d n (host, there, live, shape) = elim (claim-cases d zone "" n.node_id) [
  | inl same ↦ Same-Assigns zone d (claim d zone "" n.node_id).1 same
  | inr (row, g, free, now, s) ↦ (
    s,
    λ other. elim (Bool-cases (zone == other)) [
      | inl at ↦ inr (
        sym (eq_of_test zone other at),
        (
          row,
          n.node_id,
          host,
          g,
          free,
          rw now (ground (arith, get-put d.zones zone zone (claimed_row n.node_id row))),
          there,
          live,
        ),
      )
      | inr off ↦
          inl (rw now (ground (arith, get-put d.zones zone other (claimed_row n.node_id row))))
    ],
  )
]

claimed-db : (n : NodeDescriptor) (d : Database) (a : Answer Unit) → (claimed n d a).1 ≡ d
unfolding claimed
claimed-db n d (answer _) = refl
claimed-db n d (refused e) = refl
claimed-db n d failed = refl

selected-Assigns :
    (zone : String) (d : Database) (n : NodeDescriptor)
    → IsListed d.servers n
    → Assigns zone d (selected d zone (ok n)).1
unfolding selected
selected-Assigns zone d n h =
    let r = claim d zone "" n.node_id in
    subst (Assigns zone d) (sym (claimed-db n r.1 r.0)) (claim-Assigns zone d n h)

listed-Assigns :
    (zone : String) (d : Database)
    → NodupKeys d.servers
    → Assigns zone d (listed d zone (answer (active_servers d.servers))).1
listed-Assigns zone d keys = elim (active_servers-cases d.servers keys) [
  | inl e ↦ rw e (unfold listed in Same-Assigns zone d d (refl, refl))
  | inr (n, ns, e, h) ↦
      rw e (unfold listed in (rw (select-listed d.servers n ns h) (selected-Assigns zone d n h)))
]

asked-Same : (d : Database) → Same d (asked d)
unfolding asked
asked-Same d = (refl, refl)

assign-Assigns :
    (zone : String) (d : Database) → NodupKeys d.servers → Assigns zone d (assign d zone).1
unfolding assign list_servers asked
assign-Assigns zone d keys = elim (Bool-cases (fails d)) [
  | inl down ↦ rw down (unfold listed in Same-Assigns zone d (asked d) (asked-Same d))
  | inr up ↦ rw up (
      after_call zone d (asked d) (listed (asked d) zone (answer (active_servers d.servers))).1
        (asked-Same d) (listed-Assigns zone (asked d) keys))
]

get_server-Same : (d : Database) (id : ServerId) → Same d (get_server d id).1
unfolding get_server asked
get_server-Same d id = ground arith

lookup-Same : (d : Database) (zone : String) → Same d (lookup d zone).1
unfolding lookup asked
lookup-Same d zone = ground arith

described-Assigns :
    (zone : String) (d : Database) (a : Answer NodeDescriptor)
    → NodupKeys d.servers
    → Assigns zone d (described d zone a).1
unfolding described
described-Assigns zone d (answer info) keys = Same-Assigns zone d d (refl, refl)
described-Assigns zone d (refused e) keys = assign-Assigns zone d keys
described-Assigns zone d failed keys = assign-Assigns zone d keys

-- The table of the servers still has one row for each key.
kept_keys : (d c : Database) → Same d c → NodupKeys d.servers → NodupKeys c.servers
kept_keys d c (s, z) keys = rw s keys

located-Assigns :
    (zone : String) (d : Database) (a : Answer ServerId)
    → NodupKeys d.servers
    → Assigns zone d (located d zone a).1
unfolding located
located-Assigns zone d (answer id) keys =
    let r = get_server d id in
    after_call zone d r.1 (described r.1 zone r.0).1 (get_server-Same d id)
      (described-Assigns zone r.1 r.0 (kept_keys d r.1 (get_server-Same d id) keys))
located-Assigns zone d (refused e) keys = assign-Assigns zone d keys
located-Assigns zone d failed keys = assign-Assigns zone d keys

-- Whichever calls of the database fail, a lookup changes no server, takes no zone from its owner,
-- and leaves every other zone alone: the only change is that the zone of the lookup, which had a
-- row without an owner, gets a server that the table has as active for its owner. No two rows of
-- the table of the servers have the same key.
pub lookup_zone-Assigns :
    (d : Database) (zone : String) → NodupKeys d.servers → Assigns zone d (lookup_zone d zone).1
unfolding lookup_zone
lookup_zone-Assigns d zone keys =
    let r = lookup d zone in
    after_call zone d r.1 (located r.1 zone r.0).1 (lookup-Same d zone)
      (located-Assigns zone r.1 r.0 (kept_keys d r.1 (lookup-Same d zone) keys))
