-- ===== src/Room/Fanout/Watch.antt =====
-- internal/room/registry.go: what a watcher of ownership changes finds in its channel.
use spatial_server.Base.{
  ◌≡◌, refl, Option, none, some, List, [], ◌∷◌, String, string_key, Map, get, arith, ap, ◌∙◌,
}
use spatial_server.Base.Queue.{offer, filled, filled-offer, filled-nil}
use spatial_server.Room.Fanout.{
  OwnershipChange, WatcherFanout, channel_capacity, offer_all, broadcast,
}

abbrev offered : OwnershipChange → Option (List OwnershipChange) → Option (List OwnershipChange)
offered change none = none
offered change (some queue) = some (offer channel_capacity queue change)

get-offer_all :
    (change : OwnershipChange) (m : Map String (List OwnershipChange)) (id : String)
    → get (offer_all change m) id ≡ offered change (get m id)
unfolding offer_all get
get-offer_all change [] id = refl
get-offer_all change ((j, queue) ∷ m) id = ground (arith, get-offer_all change m id)

unfoldable pub broadcast_all : WatcherFanout → List OwnershipChange → WatcherFanout
broadcast_all f [] = f
broadcast_all f (change ∷ changes) = broadcast_all (broadcast f change) changes

abbrev pub filled_channel :
    Option (List OwnershipChange) → List OwnershipChange → Option (List OwnershipChange)
filled_channel none changes = none
filled_channel (some queue) changes = some (filled channel_capacity queue changes)

channel-nil : (o : Option (List OwnershipChange)) → o ≡ filled_channel o []
channel-nil none = refl
channel-nil (some queue) =
    ap {B = Option (List OwnershipChange)} some (filled-nil channel_capacity queue)

filled-offered :
    (change : OwnershipChange) (o : Option (List OwnershipChange)) (changes : List OwnershipChange)
    → filled_channel (offered change o) changes ≡ filled_channel o (change ∷ changes)
filled-offered change none changes = refl
filled-offered change (some queue) changes =
    ap {B = Option (List OwnershipChange)} some (filled-offer channel_capacity queue changes change)

-- While a watcher receives nothing, its channel keeps what it held and takes the next changes in
-- order until it holds sixteen; the changes after that are dropped. A watcher that is not
-- subscribed has no channel before and none after.
pub broadcasts_fill :
    (f : WatcherFanout) (changes : List OwnershipChange) (id : String)
    → get (broadcast_all f changes).channels id ≡ filled_channel (get f.channels id) changes
unfolding broadcast_all broadcast
broadcasts_fill f [] id = channel-nil (get f.channels id)
broadcasts_fill f (change ∷ changes) id =
    broadcasts_fill (broadcast f change) changes id
    ∙ (rw (get-offer_all change f.channels id) (filled-offered change (get f.channels id) changes))
