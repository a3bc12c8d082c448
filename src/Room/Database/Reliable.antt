-- ===== src/Room/Database/Reliable.antt =====
-- internal/storage/room: a database whose calls do not fail.
use spatial_server.Base.{ℕ, ◌≡◌, refl, sym, ◌∙◌, ap, false, [], String, get, string_key}
use spatial_server.Types.{ServerId}
use spatial_server.Room.Database.{Database, answer, first_fault, later_faults, fails, asked}
use spatial_server.Room.Database.Servers.{
  scan_server, get_server, active_servers, list_servers, dead_servers, list_dead, shut_row,
  mark_shutdown,
}
use spatial_server.Room.Database.Zones.{looked_up, lookup, owned_by, list_by_server}

pub asked-free : (d : Database) → d.faults ≡ [] → asked d ≡ d
unfolding asked later_faults
asked-free d h =
    ap (λ fs. record d { faults = later_faults fs }) h ∙ ap (λ fs. record d { faults = fs }) (sym h)

pub fails-free : (d : Database) → d.faults ≡ [] → fails d ≡ false
unfolding fails first_fault
fails-free d h = rw h refl

pub lookup-free :
    (d : Database) (zone : String)
    → d.faults ≡ []
    → lookup d zone ≡ (looked_up (get d.zones zone), d)
unfolding lookup
lookup-free d zone h = rw (fails-free d h) (rw (asked-free d h) refl)

pub get_server-free :
    (d : Database) (id : ServerId)
    → d.faults ≡ []
    → get_server d id ≡ (scan_server d id (get d.servers id), d)
unfolding get_server
get_server-free d id h = rw (fails-free d h) (rw (asked-free d h) refl)

pub list_servers-free :
    (d : Database) → d.faults ≡ [] → list_servers d ≡ (answer (active_servers d.servers), d)
unfolding list_servers
list_servers-free d h = rw (fails-free d h) (rw (asked-free d h) refl)

pub list_dead-free :
    (d : Database) (since : ℕ)
    → d.faults ≡ []
    → list_dead d since ≡ (answer (dead_servers d.now since d.servers), d)
unfolding list_dead
list_dead-free d since h = rw (fails-free d h) (rw (asked-free d h) refl)

pub list_by_server-free :
    (d : Database) (server : ServerId)
    → d.faults ≡ []
    → list_by_server d server ≡ (answer (owned_by server d.zones), d)
unfolding list_by_server
list_by_server-free d server h = rw (fails-free d h) (rw (asked-free d h) refl)

pub mark_shutdown-free :
    (d : Database) (id : ServerId)
    → d.faults ≡ []
    → mark_shutdown d id
      ≡ (answer tt, record d { servers = shut_row d.servers id (get d.servers id) })
unfolding mark_shutdown
mark_shutdown-free d id h = rw (fails-free d h) (rw (asked-free d h) refl)
