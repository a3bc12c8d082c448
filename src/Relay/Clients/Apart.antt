-- ===== src/Relay/Clients/Apart.antt =====
-- apps/game-server/main.go: the clients of a registry do not share their queues.
use spatial_server.Base.{
  ◌≡◌, refl, ◌∙◌, Bool, true, false, Option, none, some, List, [], ◌∷◌, if◌then◌else◌, ◌==◌, String,
  string_key, get, get-put, arith,
}
use spatial_server.Relay.Clients.{
  Bytes, new_bounded_send_queue, push, ClientEntry, ClientRegistry, send_to, send, register,
}
use spatial_server.Relay.Clients.Newest.{pushes, newest, pushes_keep_newest}

-- A packet for a client.
pub record Parcel : Type 0 where
  pub client : String
  pub packet : Bytes

unfoldable pub sends : ClientRegistry → List Parcel → ClientRegistry
sends r [] = r
sends r (p ∷ rest) = sends (send r p.client p.packet) rest

-- The packets for one client, in order.
abbrev pub own : String → List Parcel → List Bytes
own id [] = []
own id (p ∷ rest) = let later = own id rest in if p.client == id then p.packet ∷ later else later

abbrev pushed : List Bytes → Option ClientEntry → Option ClientEntry
pushed packets none = none
pushed packets (some e) = some (record e { q = pushes e.q packets })

one_to :
    (r : ClientRegistry) (client id : String) (packet : Bytes) (o : Option ClientEntry)
    → get r.clients client ≡ o
    → get (send_to r client packet o).clients id
      ≡ (if client == id then pushed (packet ∷ []) (get r.clients id) else get r.clients id)
unfolding send_to pushes
one_to r client id packet none e = ground arith
one_to r client id packet (some entry) e =
    ground (arith, get-put r.clients client id (record entry { q = push entry.q packet }))

pushed-cons :
    (b : Bool) (packet : Bytes) (packets : List Bytes) (o : Option ClientEntry)
    → pushed packets (if b then pushed (packet ∷ []) o else o)
      ≡ pushed (if b then packet ∷ packets else packets) o
unfolding pushes
pushed-cons true packet packets none = refl
pushed-cons true packet packets (some e) = refl
pushed-cons false packet packets o = refl

pushed-nil : (o : Option ClientEntry) → o ≡ pushed [] o
unfolding pushes
pushed-nil none = refl
pushed-nil (some e) = refl

apart :
    (r : ClientRegistry) (ps : List Parcel) (id : String)
    → get (sends r ps).clients id ≡ pushed (own id ps) (get r.clients id)
unfolding sends send
apart r [] id = pushed-nil (get r.clients id)
apart r (p ∷ rest) id =
    apart (send r p.client p.packet) rest id
    ∙ rw (one_to r p.client id p.packet (get r.clients p.client) refl)
        (pushed-cons (p.client == id) p.packet (own id rest) (get r.clients id))

-- After a client has registered, and packets were sent to any clients while its stream sends none:
-- its queue holds the newest 64 of its own packets, in order.
pub own-newest :
    (r : ClientRegistry) (ps : List Parcel) (id : String)
    → (get (sends (register r id) ps).clients id
        ≡ some (record { q = pushes (new_bounded_send_queue 64) (own id ps); done = false }))
      × ((pushes (new_bounded_send_queue 64) (own id ps)).buffer ≡ newest 64 (own id ps))
unfolding register new_bounded_send_queue
own-newest r ps id =
    let fresh : ClientEntry = record { q = new_bounded_send_queue 64; done = false } in
    (
      apart (register r id) ps id ∙ rw (get-put r.clients id id fresh) (ground arith),
      (pushes_keep_newest (new_bounded_send_queue 64) (own id ps) (omega arith) (omega arith)).0,
    )
