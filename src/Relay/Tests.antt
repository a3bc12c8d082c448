-- ===== src/Relay/Tests.antt =====
-- apps/game-server/main.go: send queues on concrete calls.
use spatial_server.Base.{◌+◌, ◌-◌, ◌≡◌, refl, false, some, List, [], ◌∷◌, string_key, arith, get}
use spatial_server.Relay.Clients.{
  BoundedSendQueue, new_bounded_send_queue, push, drop_oldest, push_again, new_client_registry,
  register,
}
use spatial_server.Relay.Clients.Newest.{pushes, newest, pushes_keep_newest}
use spatial_server.Relay.Clients.Apart.{Parcel, sends, own, own-newest}

abbrev small : BoundedSendQueue
small = record { capacity = 2; buffer = (1 ∷ []) ∷ []; drops = 4 }

oldest_goes : (pushes small ((2 ∷ []) ∷ (3 ∷ []) ∷ [])).buffer ≡ (2 ∷ []) ∷ (3 ∷ []) ∷ []
unfolding pushes push drop_oldest push_again
oldest_goes = refl

pushes_keep_newest_example :
    ((pushes small ((2 ∷ []) ∷ (3 ∷ []) ∷ [])).buffer
      ≡ newest 2 ((1 ∷ []) ∷ (2 ∷ []) ∷ (3 ∷ []) ∷ []))
    × ((pushes small ((2 ∷ []) ∷ (3 ∷ []) ∷ [])).drops ≡ 4 + (3 - 2))
pushes_keep_newest_example =
    pushes_keep_newest small ((2 ∷ []) ∷ (3 ∷ []) ∷ []) (omega arith) (omega arith)

abbrev parcels : List Parcel
parcels = record { client = "a"; packet = 1 ∷ [] } ∷ record { client = "b"; packet = 2 ∷ [] } ∷ []

own-newest_example :
    (get (sends (register new_client_registry "a") parcels).clients "a"
      ≡ some (record { q = pushes (new_bounded_send_queue 64) (own "a" parcels); done = false }))
    × ((pushes (new_bounded_send_queue 64) (own "a" parcels)).buffer ≡ newest 64 (own "a" parcels))
own-newest_example = own-newest new_client_registry parcels "a"
