-- ===== src/Game/Events/Moves.antt =====
-- internal/game/simulation.go: who hears of the move of a client.
use spatial_server.Base.{
  ℕ, ◌≡◌, refl, ◌≤◌, ap, inl, inr, Bool-cases, All, ◌∙◌, false, some, List, [], ◌∷◌, if◌then◌else◌,
  ◌==◌, string_key, nat_key, get, put, get-put, elem, arith,
}
use spatial_server.Base.Queue.{offers_lem, filled}
use spatial_server.Types.{EntityId, RuntimeId, Vector3}
use spatial_server.Game.Aoi
use spatial_server.Game.Aoi.{Aoi}
use spatial_server.Game.Aoi.Index.{IsIndexed, move-IsIndexed}
use spatial_server.Game.Aoi.Range.{is_near, entities_in_range_exact}
use spatial_server.Game.Aoi.History.{position-move, radius-move}
use spatial_server.Game.State.{
  Game, Entity, ZoneSim, Event, EventKind, Ref, inbox_buffer_size, update_grid,
}
use spatial_server.Game.Events.{
  publish_all_lem, move_event, told, in_range, in_range_of, sim_of, sim_in, entity_of, entity_at,
  runtime_or_empty, enqueue_move, enqueue_move_in, move_in_grid, position_update,
  position_update_of,
}

-- The observers of events.
abbrev pub observers : List Event → List EntityId
observers [] = []
observers (event ∷ events) = event.observer ∷ observers events

observers-told :
    (space : RuntimeId) (id : EntityId) (p : Vector3) (l : List EntityId) (o : EntityId)
    → elem o (observers (told id (move_event space id p) l)) ≡ (if o == id then false else elem o l)
unfolding told move_event elem
observers-told space id p [] o = ground arith
observers-told space id p (x ∷ rest) o = ground (arith, observers-told space id p rest o)

-- The move of an entity, in its own grid, and to those around it.
abbrev pub news : RuntimeId → EntityId → Vector3 → Aoi → ℕ → List Event
news space id p a radius =
    told id (move_event space id p) (Aoi.entities_in_range (Aoi.move a id p) p radius)

moved_grid :
    (g : Game) (id : EntityId) (p : Vector3) (sim : ZoneSim) (a : Aoi)
    → get g.grid_store sim.aoi ≡ some a
    → get (move_in_grid g id p (some sim)).grid_store sim.aoi ≡ some (Aoi.move a id p)
unfolding move_in_grid update_grid
moved_grid g id p sim a e =
    rw (e, update_grid) (ground (arith, get-put g.grid_store sim.aoi sim.aoi (Aoi.move a id p)))

heard :
    (g : Game) (id : EntityId) (p : Vector3) (sim : ZoneSim) (a : Aoi)
    → sim_of g id ≡ some sim
    → get g.grid_store sim.aoi ≡ some a
    → (enqueue_move g id p).events
      ≡ filled inbox_buffer_size g.events (
          told id
            (move_event (runtime_or_empty (entity_of g id)) id p)
            (Aoi.entities_in_range a p g.aoi_radius))
unfolding enqueue_move enqueue_move_in in_range in_range_of
heard g id p sim a es ea =
    rw (es, ea) (ap (λ h. h.events) (publish_all_lem g _) ∙ offers_lem inbox_buffer_size g.events _)

entity_of-moved :
    (g : Game) (id : EntityId) (p : Vector3) (r : Ref) (e : Entity) (sim : ZoneSim)
    → get g.entities id ≡ some r
    → entity_of
        (move_in_grid (record g { entity_store = put g.entity_store r e }) id p (some sim))
        id
      ≡ some e
unfolding entity_of entity_at move_in_grid
entity_of-moved g id p r e sim at = rw at (ground (arith, get-put g.entity_store r r e))

told_all :
    (g : Game) (id : EntityId) (p : Vector3) (r : Ref) (e : Entity) (sim : ZoneSim) (a : Aoi)
    → get g.entities id ≡ some r
    → sim_of g id ≡ some sim
    → get g.grid_store sim.aoi ≡ some a
    → (enqueue_move
        (move_in_grid (record g { entity_store = put g.entity_store r e }) id p (some sim))
        id
        p).events
      ≡ filled inbox_buffer_size g.events (news e.runtime_id id p a g.aoi_radius)
unfolding move_in_grid sim_of sim_in runtime_or_empty
told_all g id p r e sim a at zoned grid =
    let moved : Game = record g { entity_store = put g.entity_store r e } in
    heard (move_in_grid moved id p (some sim)) id p sim (Aoi.move a id p) zoned
      (moved_grid moved id p sim a grid)
    ∙ ap
        (λ o. filled inbox_buffer_size g.events (
          told id (move_event (runtime_or_empty o) id p)
            (Aoi.entities_in_range (Aoi.move a id p) p g.aoi_radius)))
        (entity_of-moved g id p r e sim at)

-- What an observer is told of a move: the Space, the entity and its new position, and no more.
abbrev pub IsMove : RuntimeId → EntityId → Vector3 → Event → Type 0
IsMove space id p event =
    (event.kind ≡ EventKind.moved)
    × (event.space ≡ space)
    × (event.entity_id ≡ id)
    × (event.position ≡ p)
    × (event.type_name ≡ "")
    × (event.payload ≡ [])

told-IsMove :
    (space : RuntimeId) (id : EntityId) (p : Vector3) (l : List EntityId)
    → All (IsMove space id p) (told id (move_event space id p) l)
unfolding told move_event
told-IsMove space id p [] = tt
told-IsMove space id p (o ∷ rest) = elim (Bool-cases (o == id)) [
  | inl own ↦ rw own (told-IsMove space id p rest)
  | inr other ↦ rw other ((refl, refl, refl, refl, refl, refl), told-IsMove space id p rest)
]

around :
    (a : Aoi) (space : RuntimeId) (id : EntityId) (p : Vector3) (radius : ℕ) (o : EntityId)
    → IsIndexed a
    → radius ≤ a.radius
    → elem o (observers (news space id p a radius))
      ≡ (if o == id then false else is_near p radius (get a.positions o))
around a space id p radius o v le =
    observers-told space id p (Aoi.entities_in_range (Aoi.move a id p) p radius) o
    ∙ ground (
      arith,
      entities_in_range_exact (Aoi.move a id p) p radius o (move-IsIndexed a id p v)
          (omega (arith, radius-move a id p)),
      position-move a id o p,
    )

-- A position update of a client whose entity is registered under its own name, in a zone with a
-- well-formed grid whose radius covers that of the game: the events are offered to the channel in
-- order; each is a move that carries the Space of the entity, its identifier and its new position;
-- and they go to exactly the others whose position in the grid is within the radius of the new
-- position.
pub position_update_tells :
    (g : Game) (client : EntityId) (p : Vector3) (r : Ref) (e : Entity) (sim : ZoneSim) (a : Aoi)
    (o : EntityId)
    → get g.entities client ≡ some r
    → get g.entity_store r ≡ some e
    → e.id ≡ client
    → sim_of g client ≡ some sim
    → get g.grid_store sim.aoi ≡ some a
    → IsIndexed a
    → g.aoi_radius ≤ a.radius
    → ((position_update g client p).events
        ≡ filled inbox_buffer_size g.events (news e.runtime_id client p a g.aoi_radius))
      × All (IsMove e.runtime_id client p) (news e.runtime_id client p a g.aoi_radius)
      × (elem o (observers (news e.runtime_id client p a g.aoi_radius))
          ≡ (if o == client then false else is_near p g.aoi_radius (get a.positions o)))
unfolding position_update position_update_of entity_of entity_at sim_of sim_in
position_update_tells g client p r e sim a o at held own zoned grid v le = (
  rw (at, held, own, zoned)
      (told_all g client p r (record e { id = client; position = p }) sim a at zoned grid),
  told-IsMove e.runtime_id client p (Aoi.entities_in_range (Aoi.move a client p) p g.aoi_radius),
  around a e.runtime_id client p g.aoi_radius o v le,
)
