-- ===== src/Game/Isolation/Spaces.antt =====
-- internal/game/simulation.go, lifecycle.go: isolation through a history of calls.
use spatial_server.Base.{ℕ, ◌≡◌, refl, some, List, [], ◌∷◌, String, string_key, nat_key, get}
use spatial_server.Types.{EntityId, ZoneId, RuntimeId, ServerId, Vector3}
use spatial_server.Game.Zone.{Zone}
use spatial_server.Game.State.{Game, Entity, new, new_entity}
use spatial_server.Game.Zones.{assign_zone, release_zone, register_peer_zone}
use spatial_server.Game.Entities.{add_entity, remove_entity, migrate_entity_in}
use spatial_server.Game.Sessions.{mark_disconnected, mark_reconnected, sweep_disconnected}
use spatial_server.Game.Isolation.Core.{home_in, carried}
use spatial_server.Game.Isolation.Calls.{
  Keeps, assign_zone-Keeps, add_entity-Keeps, remove_entity-Keeps, mark_disconnected-Keeps,
  sweep_disconnected-Keeps,
}
use spatial_server.Game.Isolation.Moves.{position_update-Keeps}
use spatial_server.Game.Events.{position_update}
use spatial_server.Game.Isolation.Release.{release_zone-Keeps}

-- The calls that change who is where, each under the lock of the `Game`.
pub data Call : Type 0 where
  assigning : Zone → Call
  releasing : ZoneId → Call
  peering : ZoneId → ServerId → Call
  adding : Entity → Call
  removing : EntityId → Call
  migrating_in : EntityId → String → Vector3 → ZoneId → Call
  disconnecting : EntityId → ℕ → Call
  reconnecting : EntityId → Call
  sweeping : ℕ → Call
  moving : EntityId → Vector3 → Call

unfoldable pub call : Game → Call → Game
unfolding mark_reconnected register_peer_zone migrate_entity_in
call g (assigning z) = (assign_zone g z).0
call g (releasing id) = (release_zone g id).0
call g (peering id server) = register_peer_zone g id server
call g (adding e) = add_entity g e
call g (removing id) = remove_entity g id
call g (migrating_in id kind position target) = migrate_entity_in g id kind position target
call g (disconnecting id now) = mark_disconnected g id now
call g (reconnecting id) = mark_reconnected g id
call g (sweeping now) = sweep_disconnected g now
call g (moving client p) = position_update g client p

unfoldable pub run : Game → List Call → Game
unfolding call
run g [] = g
run g (c ∷ cs) = run (call g c) cs

call-Keeps : (g : Game) (c : Call) → Keeps g → Keeps (call g c)
unfolding call mark_reconnected register_peer_zone migrate_entity_in
call-Keeps g (assigning z) v = assign_zone-Keeps g z v
call-Keeps g (releasing id) v = release_zone-Keeps g id v
call-Keeps g (peering id server) v = v
call-Keeps g (adding e) v = add_entity-Keeps g e v
call-Keeps g (removing id) v = remove_entity-Keeps g id v
call-Keeps g (migrating_in id kind position target) v =
    add_entity-Keeps g (record (new_entity id kind "") { zone_id = target; position = position }) v
call-Keeps g (disconnecting id now) v = mark_disconnected-Keeps g id now v
call-Keeps g (reconnecting id) v = v
call-Keeps g (sweeping now) v = sweep_disconnected-Keeps g now v
call-Keeps g (moving client p) v = position_update-Keeps g client p v

run-Keeps : (g : Game) (cs : List Call) → Keeps g → Keeps (run g cs)
unfolding run
run-Keeps g [] v = v
run-Keeps g (c ∷ cs) v = run-Keeps (call g c) cs (call-Keeps g c v)

new-Keeps : (server : ServerId) → Keeps (new server)
unfolding new get
new-Keeps server = record { used = λ id. tt; housed = λ id. refl; spaced = λ id s h. cc }

-- After any history of the calls above from a new `Game`, an entity that is registered in a zone with a Space
-- carries that Space, whatever Space it came with.
pub spaces_isolated :
    (server : ServerId) (cs : List Call) (id : EntityId) (space : RuntimeId)
    → home_in (run (new server) cs).zones (get (run (new server) cs).entity_zone id) ≡ some space
    → carried (run (new server) cs).entity_store (get (run (new server) cs).entities id)
      ≡ some space
spaces_isolated server cs id space home =
    (run-Keeps (new server) cs (new-Keeps server)).spaced id space home
