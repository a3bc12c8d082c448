-- ===== src/Game/Isolation/Moves.antt =====
-- internal/game/simulation.go: a client's move changes no Space.
use spatial_server.Base.{
  ◌≡◌, refl, sym, subst, ◌∙◌, Option, none, some, List, Map, get, put, get-put, nat_key, string_key,
  arith,
}
use spatial_server.Types.{EntityId, Vector3}
use spatial_server.Game.State.{Game, Entity, ZoneSim, Event, Ref}
use spatial_server.Game.Events.{
  publish_all, publish_all_lem, enqueue_move, enqueue_move_in, move_in_grid, position_update,
  position_update_of, sim_of, entity_of, entity_at, told, move_event, runtime_or_empty, in_range,
}
use spatial_server.Game.Isolation.Core.{carried}
use spatial_server.Game.Isolation.Calls.{Keeps}

publish_all-Keeps : (g : Game) (events : List Event) → Keeps g → Keeps (publish_all g events)
publish_all-Keeps g events v = subst Keeps (sym (publish_all_lem g events)) v

enqueue_move_in-Keeps :
    (g : Game) (id : EntityId) (p : Vector3) (o : Option ZoneSim)
    → Keeps g
    → Keeps (enqueue_move_in g id p o)
unfolding enqueue_move_in
enqueue_move_in-Keeps g id p none v = v
enqueue_move_in-Keeps g id p (some sim) v =
    publish_all-Keeps g
      (told id (move_event (runtime_or_empty (entity_of g id)) id p) (in_range g sim.aoi p)) v

move_in_grid-Keeps :
    (g : Game) (id : EntityId) (p : Vector3) (o : Option ZoneSim)
    → Keeps g
    → Keeps (move_in_grid g id p o)
unfolding move_in_grid
move_in_grid-Keeps g id p none v = v
move_in_grid-Keeps g id p (some sim) v = v

carried_same :
    (store : Map Ref Entity) (r : Ref) (e e' : Entity) (o : Option Ref)
    → get store r ≡ some e
    → e'.runtime_id ≡ e.runtime_id
    → carried (put store r e') o ≡ carried store o
carried_same store r e e' none at same = refl
carried_same store r e e' (some q) at same = ground (arith, get-put store r q e')

-- An entity that is replaced by one of the same Space.
rewrite-Keeps :
    (g : Game) (r : Ref) (e e' : Entity)
    → get g.entity_store r ≡ some e
    → e'.runtime_id ≡ e.runtime_id
    → Keeps g
    → Keeps (record g { entity_store = put g.entity_store r e' })
rewrite-Keeps g r e e' at same v = record {
  used = v.used;
  housed = v.housed;
  spaced =
      λ id s h. carried_same g.entity_store r e e' (get g.entities id) at same ∙ v.spaced id s h;
}

moved-Keeps :
    (g : Game) (p : Vector3) (o : Option Ref) (s : Option Entity)
    → entity_at g o ≡ s
    → Keeps g
    → Keeps (position_update_of g p o s)
unfolding position_update_of entity_at enqueue_move
moved-Keeps g p none s at v = v
moved-Keeps g p (some r) none at v = v
moved-Keeps g p (some r) (some e) at v =
    let moved : Game = record g {
      entity_store = put g.entity_store r (record e { position = p });
    } in
    enqueue_move_in-Keeps (move_in_grid moved e.id p (sim_of moved e.id)) e.id p
      (sim_of (move_in_grid moved e.id p (sim_of moved e.id)) e.id)
      (move_in_grid-Keeps moved e.id p (sim_of moved e.id)
        (rewrite-Keeps g r e (record e { position = p }) at refl v))

pub position_update-Keeps :
    (g : Game) (client : EntityId) (p : Vector3) → Keeps g → Keeps (position_update g client p)
unfolding position_update entity_of
position_update-Keeps g client p v = moved-Keeps g p (get g.entities client) _ refl v
