-- ===== src/Room/Database/Zones/Claims.antt =====
-- internal/storage/room/zone_repo.go: what `Claim` and `Release` write.
use spatial_server.Base.{
  has_key, ◌≡◌, refl, true, ◌⊎◌, inl, inr, Bool-cases, Option, none, some, [], if◌then◌else◌, ◌==◌,
  ◌&&◌, not, String, string_key, get, put, arith,
}
use spatial_server.Types.{ServerId, RuntimeId, not_found, conflict, not_owned}
use spatial_server.Room.Database.{Database, ZoneRow, Answer, answer, refused, fails, asked}
use spatial_server.Room.Database.Zones.{
  claim, claim_found, claim_row, claimed_row, release, release_found, released_row, owns,
}
use spatial_server.Room.Database.Reliable.{asked-free, fails-free}

-- The call changed no table.
abbrev pub Same : Database → Database → Type 0
Same before after = (after.servers ≡ before.servers) × (after.zones ≡ before.zones)

-- The zone had a row without an owner, and the server is now its owner.
abbrev pub IsClaimed : Database → Database → String → ServerId → Type 0
IsClaimed before after zone server =
    (row : ZoneRow) × (get before.zones zone ≡ some row)
    × (row.server_id ≡ none)
    × (after.zones ≡ put before.zones zone (claimed_row server row))
    × (after.servers ≡ before.servers)

claim_row-cases :
    (d : Database) (zone : String) (server : ServerId) (row : ZoneRow) (owner : Option ServerId)
    → get d.zones zone ≡ some row
    → row.server_id ≡ owner
    → Same d (claim_row d zone server row owner).1
      ⊎ IsClaimed d (claim_row d zone server row owner).1 zone server
unfolding claim_row asked
claim_row-cases d zone server row none g o = elim (Bool-cases (has_key d.servers server)) [
  | inl there ↦ rw there (inr (row, g, o, refl, refl))
  | inr absent ↦ rw absent (inl (refl, refl))
]
claim_row-cases d zone server row (some owner) g o = inl (ground arith)

claim_found-cases :
    (d : Database) (zone : String) (server : ServerId) (found : Option ZoneRow)
    → get d.zones zone ≡ found
    → Same d (claim_found d zone server found).1
      ⊎ IsClaimed d (claim_found d zone server found).1 zone server
unfolding claim_found asked
claim_found-cases d zone server none g = inl (ground arith)
claim_found-cases d zone server (some row) g =
    claim_row-cases d zone server row row.server_id g refl

-- Whether or not the database fails, a claim changes nothing, or gives an owner to a zone without
-- one.
pub claim-cases :
    (d : Database) (zone : String) (runtime : RuntimeId) (server : ServerId)
    → Same d (claim d zone runtime server).1
      ⊎ IsClaimed d (claim d zone runtime server).1 zone server
unfolding claim asked
claim-cases d zone runtime server = elim (Bool-cases (fails d)) [
  | inl down ↦ inl (rw down (refl, refl))
  | inr up ↦ rw up (claim_found-cases (asked d) zone server (get d.zones zone) refl)
]

-- A claim for a server of the table, on a database whose calls do not fail.
abbrev pub settled_at :
    Database → String → ServerId → ZoneRow → Option ServerId → Answer Unit × Database
settled_at d zone server row none =
    (answer tt, record d { zones = put d.zones zone (claimed_row server row) })
settled_at d zone server row (some owner) =
    (if not (owner == "") && not (owner == server) then refused conflict else answer tt, d)

abbrev pub settled : Database → String → ServerId → Option ZoneRow → Answer Unit × Database
settled d zone server none = (refused not_found, d)
settled d zone server (some row) = settled_at d zone server row row.server_id

claim_row-free :
    (d : Database) (zone : String) (server : ServerId) (row : ZoneRow) (owner : Option ServerId)
    → d.faults ≡ []
    → has_key d.servers server ≡ true
    → claim_row d zone server row owner ≡ settled_at d zone server row owner
unfolding claim_row
claim_row-free d zone server row none h k = rw k refl
claim_row-free d zone server row (some owner) h k =
    rw (fails-free d h) (rw (asked-free d h) (ground arith))

claim_found-free :
    (d : Database) (zone : String) (server : ServerId) (found : Option ZoneRow)
    → d.faults ≡ []
    → has_key d.servers server ≡ true
    → claim_found d zone server found ≡ settled d zone server found
unfolding claim_found
claim_found-free d zone server none h k = rw (fails-free d h) (rw (asked-free d h) refl)
claim_found-free d zone server (some row) h k = claim_row-free d zone server row row.server_id h k

pub claim-free :
    (d : Database) (zone : String) (runtime : RuntimeId) (server : ServerId)
    → d.faults ≡ []
    → has_key d.servers server ≡ true
    → claim d zone runtime server ≡ settled d zone server (get d.zones zone)
unfolding claim
claim-free d zone runtime server h k =
    rw (fails-free d h)
      (rw (asked-free d h) (claim_found-free d zone server (get d.zones zone) h k))

-- A release on a database whose calls do not fail.
abbrev pub freed : Database → String → ServerId → Option ZoneRow → Answer Unit × Database
freed d zone server none = (refused not_found, d)
freed d zone server (some row) =
    if owns server row.server_id
    then (answer tt, record d { zones = put d.zones zone (released_row row) })
    else (refused not_owned, d)

release_found-free :
    (d : Database) (zone : String) (server : ServerId) (found : Option ZoneRow)
    → d.faults ≡ []
    → release_found d zone server found ≡ freed d zone server found
unfolding release_found
release_found-free d zone server none h = rw (fails-free d h) (rw (asked-free d h) refl)
release_found-free d zone server (some row) h = rw (asked-free d h) refl

pub release-free :
    (d : Database) (zone : String) (server : ServerId)
    → d.faults ≡ []
    → release d zone server ≡ freed d zone server (get d.zones zone)
unfolding release
release-free d zone server h =
    rw (fails-free d h)
      (rw (asked-free d h) (release_found-free d zone server (get d.zones zone) h))
