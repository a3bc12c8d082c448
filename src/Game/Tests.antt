-- ===== src/Game/Tests.antt =====
-- internal/game/simulation.go, lifecycle.go: a `Game` on concrete calls.
use spatial_server.Base.{
  ◌≡◌, ◌==◌, refl, true, false, none, some, List, [], ◌∷◌, String, String_dec, string_key, nat_key,
  elem, arith, ℕ_discrete, get, put, keys, has_key, if◌then◌else◌, inr, ne_of_test, All,
}
use spatial_server.Base.Int.{pos}
use spatial_server.Types.{Vector3}
use spatial_server.Game.Aoi
use spatial_server.Game.Zone
use spatial_server.Game.Zone.{Zone}
use spatial_server.Game.State.{Game, Entity, new, new_entity, update_grid}
use spatial_server.Game.Zones.{assign_zone}
use spatial_server.Game.Entities.{
  add_entity, placed, in_space, sim_or_new, insert_entity, add_placed,
}
use spatial_server.Game.Sessions.{sweep_disconnected, mark_disconnected}
use spatial_server.Game.Sessions.Sweep.{is_due, sweep_disconnected_exact}
use spatial_server.Game.Sessions.Return.{come_back, returning_is_swept}
use spatial_server.Base.Queue.{filled}
use spatial_server.Game.Aoi.{Aoi}
use spatial_server.Game.Aoi.Index.{IsIndexed, new-IsIndexed, enter-IsIndexed}
use spatial_server.Game.Aoi.Range.{is_near}
use spatial_server.Game.State.{ZoneSim, inbox_buffer_size, default_zone_id}
use spatial_server.Game.Zones.{aoi_for}
use spatial_server.Game.Ghosts.{border}
use spatial_server.Game.Ghosts.Placed
use spatial_server.Game.Ghosts.Placed.{
  Placed, entering, updating, reconciling, leaving, ghosts_placed,
}
use spatial_server.Game.Events.{position_update, visible_of, sim_of, entity_of, entity_at}
use spatial_server.Game.Events.Moves.{news, observers, IsMove, position_update_tells}
use spatial_server.Game.Events.Visibility.{IsLook, view_settles}
use spatial_server.Game.Events.Changes.{OwnName}
use spatial_server.Game.Isolation.Unzoned.{two_clients, both, origin, unzoned_clients_meet}
use spatial_server.Game.Isolation.Core.{carried}
use spatial_server.Game.Isolation.Spaces.{
  Call, assigning, adding, disconnecting, call, run, spaces_isolated,
}

abbrev plaza : Zone
plaza = Zone.new "r:0:0" "r" (pos 0) (pos 0) 100

abbrev guest : Entity
guest = record (new_entity "e" "player" "other") { zone_id = "r:0:0" }

abbrev calls : List Call
calls = assigning plaza ∷ adding guest ∷ disconnecting "e" 5 ∷ []

abbrev played : Game
played = run (new "s") calls

spaces_isolated_example : carried played.entity_store (get played.entities "e") ≡ some "r"
unfolding new run call assign_zone add_entity placed in_space sim_or_new insert_entity add_placed
    mark_disconnected get put has_key String_dec ℕ_discrete update_grid Aoi.new Aoi.enter Zone.new
    new_entity
spaces_isolated_example = spaces_isolated "s" calls "e" "r" refl

sweep_disconnected_exact_example :
    (get (sweep_disconnected played 50_000_000_000).entities "e" ≡ (
      if is_due played 50_000_000_000 (get played.session_states "e")
      then none
      else get played.entities "e"))
    × (get (sweep_disconnected played 50_000_000_000).entity_zone "e" ≡ (
        if is_due played 50_000_000_000 (get played.session_states "e")
        then none
        else get played.entity_zone "e"))
    × (get (sweep_disconnected played 50_000_000_000).session_states "e" ≡ (
        if is_due played 50_000_000_000 (get played.session_states "e")
        then none
        else get played.session_states "e"))
    × ((sweep_disconnected played 50_000_000_000).zones ≡ played.zones)
unfolding new run call assign_zone add_entity placed in_space sim_or_new insert_entity add_placed
    mark_disconnected get put has_key String_dec ℕ_discrete update_grid Aoi.new Aoi.enter Zone.new
    new_entity keys elem
sweep_disconnected_exact_example = sweep_disconnected_exact played 50_000_000_000 "e" (refl, tt)

returning_is_swept_example :
    get (sweep_disconnected (come_back played "e" 7 guest) 40_000_000_000).entities "e" ≡ none
unfolding new run call assign_zone add_entity placed in_space sim_or_new insert_entity add_placed
    mark_disconnected get put has_key String_dec ℕ_discrete update_grid Aoi.new Aoi.enter Zone.new
    new_entity keys elem
returning_is_swept_example =
    returning_is_swept played "e" 7 40_000_000_000 guest refl (refl, tt) refl

unzoned_clients_meet_example :
    (carried
        (two_clients "s" "a" "r" "b" "q").entity_store
        (get (two_clients "s" "a" "r" "b" "q").entities "a")
      ≡ some "r")
    × (carried
          (two_clients "s" "a" "r" "b" "q").entity_store
          (get (two_clients "s" "a" "r" "b" "q").entities "b")
        ≡ some "q")
    × (aoi_for (two_clients "s" "a" "r" "b" "q") default_zone_id ≡ some (both "a" "b"))
    × (elem "b" (Aoi.entities_in_range (both "a" "b") origin 300) ≡ true)
unfolding String_dec
unzoned_clients_meet_example =
    unzoned_clients_meet "s" "a" "b" "b" "r" "q" (ne_of_test "a" "b" refl) (inr refl)

-- A zone of another server's neighbour, with nothing in it.
abbrev bare : Game
bare = run (new "s") (assigning plaza ∷ [])

abbrev neighbors : List Placed.Call
neighbors =
    entering "n" origin 5
    ∷ updating "n" (record { x = pos 9; y = pos 0; z = pos 0 }) 6
    ∷ reconciling "r:1:0" 7 (some (λ zone x y radius. record { id = "m"; pos = origin } ∷ []))
    ∷ leaving "n"
    ∷ []

ghosts_placed_example : Placed (border (Placed.run bare "r:0:0" neighbors) "r:0:0")
unfolding new run call assign_zone get put has_key String_dec ℕ_discrete border Aoi.new Zone.new
ghosts_placed_example = ghosts_placed bare "r:0:0" neighbors (λ gid entry found. cc)

abbrev crowd_grid : Aoi
crowd_grid = Aoi.enter (Aoi.enter (Aoi.new 100 300) "a" origin) "b" origin

abbrev crowd_sim : ZoneSim
crowd_sim = record { zone = some plaza; aoi = 0; entities = ("a", 1) ∷ ("b", 2) ∷ [] }

abbrev avatar : Entity
avatar = record (new_entity "a" "avatar" "r") { zone_id = "r:0:0" }

abbrev crowd : Game
crowd = record (new "s") {
  zones = ("r:0:0", crowd_sim) ∷ [];
  entities = ("a", 1) ∷ ("b", 2) ∷ [];
  entity_zone = ("a", "r:0:0") ∷ ("b", "r:0:0") ∷ [];
  entity_store = (1, avatar) ∷ (2, record (new_entity "b" "avatar" "r") { zone_id = "r:0:0" }) ∷ [];
  grid_store = (0, crowd_grid) ∷ [];
  next_ref = 3;
}

crowd-IsIndexed : IsIndexed crowd_grid
unfolding Aoi.new Aoi.enter get put String_dec
crowd-IsIndexed =
    enter-IsIndexed (Aoi.enter (Aoi.new 100 300) "a" origin) "b" origin refl
      (enter-IsIndexed (Aoi.new 100 300) "a" origin refl (new-IsIndexed 100 300 (omega arith)))

abbrev near : Vector3
near = record { x = pos 10; y = pos 0; z = pos 0 }

position_update_tells_example :
    ((position_update crowd "a" near).events
      ≡ filled inbox_buffer_size [] (news "r" "a" near crowd_grid 300))
    × All (IsMove "r" "a" near) (news "r" "a" near crowd_grid 300)
    × (elem "b" (observers (news "r" "a" near crowd_grid 300)) ≡ (
        if ◌==◌ {K = String} "b" "a"
        then false
        else is_near near 300 (get crowd_grid.positions "b")))
unfolding new get String_dec ℕ_discrete sim_of new_entity Aoi.new Aoi.enter
position_update_tells_example =
    position_update_tells crowd "a" near 1 avatar crowd_sim crowd_grid "b" refl refl refl refl refl
      crowd-IsIndexed (omega arith)

crowd_own : (ids : List String) → All (OwnName crowd) ids
unfolding entity_of entity_at get new_entity String_dec
crowd_own [] = tt
crowd_own (id ∷ ids) = (ground arith, crowd_own ids)

view_settles_example : IsLook crowd crowd_sim avatar "b"
unfolding new visible_of get
view_settles_example = view_settles crowd crowd_sim avatar "b" (crowd_own _) tt
