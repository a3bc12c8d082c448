-- ===== src/Game/Events/Changes.antt =====
-- internal/game/simulation.go: the events that `updateVisibility` publishes for one entity.
use spatial_server.Base.{
  ℕ, ◌+◌, ◌≡◌, refl, sym, ap, subst, ◌∙◌, String, Bool, Bool-cases, inl, inr, true, false, Option,
  none, some, List, [], ◌∷◌, ◌++◌, if◌then◌else◌, not, ◌&&◌, ◌==◌, eq_of_test, string_key, nat_key,
  get, elem, All, Distinct, arith,
}
use spatial_server.Types.{EntityId, Vector3}
use spatial_server.Game.State.{Game, Entity, ZoneSim, Event, EventKind}
use spatial_server.Game.Events.{
  in_range, entity_of, spawn_of, spawn_event, despawn_event, spawns, despawns, visible_of, set_of,
}

pub elem-set : (id : EntityId) (xs : List EntityId) → elem id (set_of xs) ≡ elem id xs
unfolding set_of elem
elem-set id [] = refl
elem-set id (x ∷ xs) = elim (Bool-cases (elem x (set_of xs))) [
  | inl again ↦ rw again (ground (arith, again, elem-set id xs, elem-set x xs))
  | inr new ↦ rw new (ground (arith, elem-set id xs))
]

pub set-Distinct : (xs : List EntityId) → Distinct (set_of xs)
unfolding set_of
set-Distinct [] = tt
set-Distinct (x ∷ xs) = elim (Bool-cases (elem x (set_of xs))) [
  | inl again ↦ rw again (set-Distinct xs)
  | inr new ↦ rw new (new, set-Distinct xs)
]

-- The number of the events of a list that tell of an entity that it came into view, or went out of it.
abbrev is_spawn : EventKind → Bool
is_spawn EventKind.spawn = true
is_spawn _ = false

abbrev is_despawn : EventKind → Bool
is_despawn EventKind.despawn = true
is_despawn _ = false

abbrev pub arrivals : EntityId → List Event → ℕ
arrivals id [] = 0
arrivals id (event ∷ events) =
    (if is_spawn event.kind && (event.entity_id == id) then 1 else 0) + arrivals id events

abbrev pub departures : EntityId → List Event → ℕ
departures id [] = 0
departures id (event ∷ events) =
    (if is_despawn event.kind && (event.entity_id == id) then 1 else 0) + departures id events

-- The entity that is registered under a name bears that name, if there is one.
abbrev bears : EntityId → Option Entity → Bool
bears id none = true
bears id (some other) = other.id == id

abbrev pub OwnName : Game → EntityId → Type 0
OwnName g id = bears id (entity_of g id) ≡ true

abbrev pub is_there : Option Entity → Bool
is_there none = false
is_there (some other) = true

-- What an event of a look around says.
abbrev SaysOf : EventKind → Option Entity → String → Vector3 → Type 0
SaysOf EventKind.spawn (some other) kind position =
    (kind ≡ other.kind) × (position ≡ other.position)
SaysOf EventKind.despawn o kind position = kind ≡ ""
SaysOf _ _ kind position = ⊥

abbrev pub IsChange : Game → Entity → Event → Type 0
IsChange g e event =
    (event.observer ≡ e.id)
    × (event.space ≡ e.runtime_id)
    × (event.payload ≡ [])
    × SaysOf event.kind (entity_of g event.entity_id) event.type_name event.position

-- The events of a look around, in order.
abbrev pub changes : Game → ZoneSim → Entity → List Event
changes g sim e =
    let current = set_of (in_range g sim.aoi e.position) in
    let visible = visible_of (get g.entity_aoi e.id) in
    spawns g e visible current ++ despawns e current visible

pub arrivals-append :
    (id : EntityId) (l m : List Event) → arrivals id (l ++ m) ≡ arrivals id l + arrivals id m
arrivals-append id [] m = omega arith
arrivals-append id (event ∷ l) m = omega (arith, arrivals-append id l m)

pub departures-append :
    (id : EntityId) (l m : List Event) → departures id (l ++ m) ≡ departures id l + departures id m
departures-append id [] m = omega arith
departures-append id (event ∷ l) m = omega (arith, departures-append id l m)

spawn_of-arrivals :
    (e : Entity) (x id : EntityId) (o : Option Entity) (later : List Event)
    → bears x o ≡ true
    → arrivals id (spawn_of e o later)
      ≡ (if is_there o && (x == id) then 1 else 0) + arrivals id later
unfolding spawn_of spawn_event
spawn_of-arrivals e x id none later h = omega arith
spawn_of-arrivals e x id (some other) later h = ground (arith, h)

spawn_of-departures :
    (e : Entity) (id : EntityId) (o : Option Entity) (later : List Event)
    → departures id (spawn_of e o later) ≡ departures id later
unfolding spawn_of spawn_event
spawn_of-departures e id none later = refl
spawn_of-departures e id (some other) later = omega arith

pub spawns-arrivals :
    (g : Game) (e : Entity) (visible xs : List EntityId) (id : EntityId)
    → All (OwnName g) xs
    → Distinct xs
    → arrivals id (spawns g e visible xs) ≡ (
        if elem id xs && not (elem id visible) && not (id == e.id) && is_there (entity_of g id)
        then 1
        else 0)
unfolding spawns elem
spawns-arrivals g e visible [] id own once = refl
spawns-arrivals g e visible (x ∷ xs) id (named, own) (new, once) = ground (
  arith,
  new,
  spawn_of-arrivals e x id (entity_of g x) (spawns g e visible xs) named,
  spawns-arrivals g e visible xs id own once,
)

pub spawns-departures :
    (g : Game) (e : Entity) (visible xs : List EntityId) (id : EntityId)
    → departures id (spawns g e visible xs) ≡ 0
unfolding spawns
spawns-departures g e visible [] id = refl
spawns-departures g e visible (x ∷ xs) id = ground (
  arith,
  spawn_of-departures e id (entity_of g x) (spawns g e visible xs),
  spawns-departures g e visible xs id,
)

pub despawns-departures :
    (e : Entity) (current xs : List EntityId) (id : EntityId)
    → Distinct xs
    → departures id (despawns e current xs) ≡ (if elem id xs && not (elem id current) then 1 else 0)
unfolding despawns despawn_event elem
despawns-departures e current [] id once = refl
despawns-departures e current (x ∷ xs) id (new, once) =
    ground (arith, new, despawns-departures e current xs id once)

pub despawns-arrivals :
    (e : Entity) (current xs : List EntityId) (id : EntityId)
    → arrivals id (despawns e current xs) ≡ 0
unfolding despawns despawn_event
despawns-arrivals e current [] id = refl
despawns-arrivals e current (x ∷ xs) id = ground (arith, despawns-arrivals e current xs id)

told_of-IsChange :
    (g : Game) (e : Entity) (x : EntityId) (o : Option Entity) (later : List Event)
    → entity_of g x ≡ o
    → bears x o ≡ true
    → All (IsChange g e) later
    → All (IsChange g e) (spawn_of e o later)
unfolding spawn_of spawn_event
told_of-IsChange g e x none later held own all = all
told_of-IsChange g e x (some other) later held own all =
    let there : entity_of g other.id ≡ some other =
      ap (entity_of g) (eq_of_test other.id x own) ∙ held in
    (
      (
        refl,
        refl,
        refl,
        subst (λ o. SaysOf EventKind.spawn o other.kind other.position) (sym there) (refl, refl),
      ),
      all,
    )

spawn_of-append :
    (e : Entity) (o : Option Entity) (l m : List Event)
    → spawn_of e o l ++ m ≡ spawn_of e o (l ++ m)
unfolding spawn_of
spawn_of-append e none l m = refl
spawn_of-append e (some other) l m = refl

pub changes-IsChange :
    (g : Game) (e : Entity) (visible xs : List EntityId) (later : List Event)
    → All (OwnName g) xs
    → All (IsChange g e) later
    → All (IsChange g e) (spawns g e visible xs ++ later)
unfolding spawns
changes-IsChange g e visible [] later own all = all
changes-IsChange g e visible (x ∷ xs) later (named, own) all =
    let rest = changes-IsChange g e visible xs later own all in
    elim (Bool-cases (not (elem x visible) && not (x == e.id))) [
      | inl fresh ↦ rw fresh (
          subst (All (IsChange g e))
            (sym (spawn_of-append e (entity_of g x) (spawns g e visible xs) later))
            (told_of-IsChange g e x (entity_of g x) (spawns g e visible xs ++ later) refl named
              rest))
      | inr known ↦ rw known rest
    ]

pub despawns-IsChange :
    (g : Game) (e : Entity) (current xs : List EntityId)
    → All (IsChange g e) (despawns e current xs)
unfolding despawns despawn_event
despawns-IsChange g e current [] = tt
despawns-IsChange g e current (x ∷ xs) = elim (Bool-cases (elem x current)) [
  | inl still ↦ rw still (despawns-IsChange g e current xs)
  | inr gone ↦ rw gone ((refl, refl, refl, refl), despawns-IsChange g e current xs)
]

pub set-All : (P : EntityId → Type 0) (xs : List EntityId) → All P xs → All P (set_of xs)
unfolding set_of
set-All P [] all = tt
set-All P (x ∷ xs) (first, all) = elim (Bool-cases (elem x (set_of xs))) [
  | inl again ↦ rw again (set-All P xs all)
  | inr new ↦ rw new (first, set-All P xs all)
]
