-- ===== src/Relay/Clients.antt =====
-- apps/game-server/main.go: the send queues of the clients, and their registry.
pub mod Newest
pub mod Apart
use spatial_server.Base.{
  ℕ, ◌+◌, Bool, true, false, Option, none, some, List, [], ◌∷◌, ◌++◌, if◌then◌else◌, ltb, length,
  String, string_key, Map, get, put, delete,
}

abbrev pub Bytes : Type 0
Bytes = List ℕ

-- What the channel holds and the stream has not sent yet, the oldest first.
pub record BoundedSendQueue : Type 0 where
  pub capacity : ℕ
  pub buffer : List Bytes
  pub drops : ℕ

unfoldable pub new_bounded_send_queue : ℕ → BoundedSendQueue
new_bounded_send_queue capacity = record { capacity = capacity; buffer = []; drops = 0 }

-- The first of the inner selects: the oldest goes, if there is one.
unfoldable pub drop_oldest : BoundedSendQueue → List Bytes → BoundedSendQueue
drop_oldest q [] = q
drop_oldest q (b ∷ rest) = record q { buffer = rest; drops = q.drops + 1 }

-- The second of the inner selects: the queue takes the data, or counts it as dropped.
unfoldable pub push_again : BoundedSendQueue → Bytes → BoundedSendQueue
push_again q packet =
    if ltb (length q.buffer) q.capacity
    then record q { buffer = q.buffer ++ packet ∷ [] }
    else record q { drops = q.drops + 1 }

-- `push`, when nothing is received between its selects.
unfoldable pub push : BoundedSendQueue → Bytes → BoundedSendQueue
unfolding drop_oldest push_again
push q packet =
    if ltb (length q.buffer) q.capacity
    then record q { buffer = q.buffer ++ packet ∷ [] }
    else push_again (drop_oldest q q.buffer) packet

-- `done` says whether the channel of that name is closed.
pub record ClientEntry : Type 0 where
  pub q : BoundedSendQueue
  pub done : Bool

pub record ClientRegistry : Type 0 where
  pub clients : Map String ClientEntry

unfoldable pub new_client_registry : ClientRegistry
new_client_registry = record { clients = [] }

unfoldable pub register : ClientRegistry → String → ClientRegistry
unfolding new_bounded_send_queue
register r id = record {
  clients = put r.clients id (record { q = new_bounded_send_queue 64; done = false });
}

-- The closed entry leaves the registry.
unfoldable pub unregister : ClientRegistry → String → ClientRegistry
unregister r id = record { clients = delete r.clients id }

send_to : ClientRegistry → String → Bytes → Option ClientEntry → ClientRegistry
unfolding push
send_to r id packet none = r
send_to r id packet (some e) = record {
  clients = put r.clients id (record e { q = push e.q packet });
}

unfoldable pub send : ClientRegistry → String → Bytes → ClientRegistry
unfolding send_to
send r id packet = send_to r id packet (get r.clients id)
