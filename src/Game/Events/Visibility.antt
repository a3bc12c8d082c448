-- ===== src/Game/Events/Visibility.antt =====
-- internal/game/simulation.go: `updateVisibility` tells of every change of view once.
use spatial_server.Base.{
  ◌≡◌, refl, sym, ap, ◌∙◌, true, List, [], ◌∷◌, if◌then◌else◌, not, ◌&&◌, ◌==◌, string_key, nat_key,
  get, put, get-put, elem, All, Distinct, arith,
}
use spatial_server.Base.Queue.{offers, offers_lem, filled}
use spatial_server.Types.{EntityId}
use spatial_server.Game.State.{Game, Entity, ZoneSim, inbox_buffer_size}
use spatial_server.Game.Events.{
  publish_all_lem, in_range, entity_of, spawns, despawns, visible_of, set_of, look_around,
}
use spatial_server.Game.Events.Changes.{
  elem-set, set-Distinct, arrivals, departures, OwnName, is_there, IsChange, changes,
  arrivals-append, departures-append, spawns-arrivals, spawns-departures, despawns-departures,
  despawns-arrivals, changes-IsChange, despawns-IsChange, set-All,
}

looked :
    (g : Game) (sim : ZoneSim) (e : Entity)
    → look_around g sim e ≡ record g {
      events = offers inbox_buffer_size g.events (changes g sim e);
      entity_aoi =
          put g.entity_aoi e.id (record {
            visible = set_of (in_range g sim.aoi e.position);
            last_position = e.position;
          });
    }
unfolding look_around
looked g sim e = rw (publish_all_lem g (changes g sim e)) refl

seen :
    (g : Game) (sim : ZoneSim) (e : Entity)
    → visible_of (get (look_around g sim e).entity_aoi e.id)
      ≡ set_of (in_range g sim.aoi e.position)
unfolding visible_of
seen g sim e = rw (looked g sim e) (
    ground (
      arith,
      get-put g.entity_aoi e.id e.id
          (record { visible = set_of (in_range g sim.aoi e.position); last_position = e.position }),
    ))

same_range :
    (g : Game) (sim : ZoneSim) (e : Entity)
    → in_range (look_around g sim e) sim.aoi e.position ≡ in_range g sim.aoi e.position
unfolding in_range
same_range g sim e = rw (looked g sim e) refl

-- All members of the one list are in the other.
abbrev Within : List EntityId → List EntityId → Type 0
Within xs big = All (λ x. elem x big ≡ true) xs

Within-cons : (y : EntityId) (xs big : List EntityId) → Within xs big → Within xs (y ∷ big)
unfolding elem
Within-cons y [] big w = tt
Within-cons y (x ∷ xs) big (h, w) = (ground arith, Within-cons y xs big w)

Within-self : (xs : List EntityId) → Within xs xs
unfolding elem
Within-self [] = tt
Within-self (x ∷ xs) = (ground arith, Within-cons x xs xs (Within-self xs))

no_spawns :
    (g : Game) (e : Entity) (visible xs : List EntityId)
    → Within xs visible
    → spawns g e visible xs ≡ []
unfolding spawns
no_spawns g e visible [] w = refl
no_spawns g e visible (x ∷ xs) (h, w) = ground (arith, no_spawns g e visible xs w)

no_despawns :
    (e : Entity) (current xs : List EntityId) → Within xs current → despawns e current xs ≡ []
unfolding despawns
no_despawns e current [] w = refl
no_despawns e current (x ∷ xs) (h, w) = ground (arith, no_despawns e current xs w)

settled :
    (g : Game) (sim : ZoneSim) (e : Entity)
    → visible_of (get g.entity_aoi e.id) ≡ set_of (in_range g sim.aoi e.position)
    → changes g sim e ≡ []
settled g sim e h =
    let current = set_of (in_range g sim.aoi e.position) in
    rw
      (
        h,
        no_spawns g e current current (Within-self current),
        no_despawns e current current (Within-self current),
      )
      refl

again_silent :
    (g : Game) (sim : ZoneSim) (e : Entity)
    → (look_around (look_around g sim e) sim e).events ≡ (look_around g sim e).events
unfolding offers
again_silent g sim e =
    let h = look_around g sim e in
    ap (λ k. k.events) (looked h sim e)
    ∙ ap (λ l. offers inbox_buffer_size h.events l)
        (settled h sim e (seen g sim e ∙ ap set_of (sym (same_range g sim e))))

-- What a look around tells, and what the view is after it.
abbrev pub IsLook : Game → ZoneSim → Entity → EntityId → Type 0
IsLook g sim e id =
    let ids = in_range g sim.aoi e.position in
    let before = visible_of (get g.entity_aoi e.id) in
    let after = look_around g sim e in
    (after.events ≡ filled inbox_buffer_size g.events (changes g sim e))
    × All (IsChange g e) (changes g sim e)
    × (arrivals id (changes g sim e) ≡ (
        if elem id ids && not (elem id before) && not (id == e.id) && is_there (entity_of g id)
        then 1
        else 0))
    × (departures id (changes g sim e) ≡ (if elem id before && not (elem id ids) then 1 else 0))
    × (elem id (visible_of (get after.entity_aoi e.id)) ≡ elem id ids)
    × ((look_around after sim e).events ≡ after.events)

-- An entity looks around, where the entities in range of it are registered under their own names, and
-- its view has no name twice. The events are offered to the channel in order. Each of them is for the
-- entity and carries its Space; a spawn has the type and the position of the entity that it names.
-- Another entity that is in range, was not in view and is registered is named by exactly one spawn,
-- any other by none; one that was in view and is not in range is named by exactly one despawn, any
-- other by none. After that the view holds exactly what is in range; and looking around again, with
-- nothing moved, publishes no event.
pub view_settles :
    (g : Game) (sim : ZoneSim) (e : Entity) (id : EntityId)
    → All (OwnName g) (in_range g sim.aoi e.position)
    → Distinct (visible_of (get g.entity_aoi e.id))
    → IsLook g sim e id
view_settles g sim e id own once =
    let ids = in_range g sim.aoi e.position in
    let current = set_of ids in
    let before = visible_of (get g.entity_aoi e.id) in
    let own' = set-All (OwnName g) ids own in
    (
      ap (λ h. h.events) (looked g sim e) ∙ offers_lem inbox_buffer_size g.events (changes g sim e),
      changes-IsChange g e before current (despawns e current before) own'
          (despawns-IsChange g e current before),
      ground (
        arith,
        arrivals-append id (spawns g e before current) (despawns e current before),
        spawns-arrivals g e before current id own' (set-Distinct ids),
        despawns-arrivals e current before id,
        elem-set id ids,
      ),
      ground (
        arith,
        departures-append id (spawns g e before current) (despawns e current before),
        spawns-departures g e before current id,
        despawns-departures e current before id once,
        elem-set id ids,
      ),
      ap (elem id) (seen g sim e) ∙ elem-set id ids,
      again_silent g sim e,
    )
