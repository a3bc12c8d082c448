-- ===== src/Game/Sessions/Sweep.antt =====
-- internal/game/lifecycle.go: what `SweepDisconnected` removes, and what it leaves.
use spatial_server.Base.{
  ℕ, ◌≡◌, refl, sym, Bool, true, false, Option, none, some, [], ◌∷◌, if◌then◌else◌, ◌==◌,
  string_key, nat_key, Map, get, get-delete, NodupKeys, keys, has_key, elem-keys, arith,
}
use spatial_server.Types.{EntityId, ZoneId}
use spatial_server.Game.State.{Game, SessionState, Ref}
use spatial_server.Game.Entities.{forget}
use spatial_server.Game.Sessions.{
  leave_index, leave_zone_of, expire, is_overdue, sweep_sessions, sweep_disconnected,
}

-- What the sweep of an entity leaves alone.
record Same (g h : Game) : Type 0 where
  zones : h.zones ≡ g.zones
  entities : h.entities ≡ g.entities
  entity_zone : h.entity_zone ≡ g.entity_zone
  session_states : h.session_states ≡ g.session_states
  window : h.reconnect_window ≡ g.reconnect_window

leave_index-Same : (g : Game) (id : EntityId) (o : Option Ref) → Same g (leave_index g id o)
unfolding leave_index
leave_index-Same g id none = record {
  zones = refl;
  entities = refl;
  entity_zone = refl;
  session_states = refl;
  window = refl;
}
leave_index-Same g id (some grid) = record {
  zones = refl;
  entities = refl;
  entity_zone = refl;
  session_states = refl;
  window = refl;
}

leave_zone_of-Same : (g : Game) (id : EntityId) (o : Option ZoneId) → Same g (leave_zone_of g id o)
unfolding leave_zone_of
leave_zone_of-Same g id none = record {
  zones = refl;
  entities = refl;
  entity_zone = refl;
  session_states = refl;
  window = refl;
}
leave_zone_of-Same g id (some zid) = leave_index-Same g id (get g.aoi_index zid)

-- Whether the list has the entity with its time over.
abbrev due : Game → ℕ → Map EntityId SessionState → EntityId → Bool
due g now [] id = false
due g now ((k, st) ∷ rest) id =
    let later = due g now rest id in
    if k == id then (if is_overdue g st now then true else later) else later

abbrev pub is_due : Game → ℕ → Option SessionState → Bool
is_due g now none = false
is_due g now (some st) = is_overdue g st now

module _ (g h : Game) (now : ℕ) (same : h.reconnect_window ≡ g.reconnect_window) where
  due-window : (l : Map EntityId SessionState) (id : EntityId) → due h now l id ≡ due g now l id
  unfolding is_overdue
  due-window [] id = refl
  due-window ((k, st) ∷ rest) id = rw (due-window rest id, same) refl

not_due :
    (g : Game) (now : ℕ) (l : Map EntityId SessionState) (id : EntityId)
    → has_key l id ≡ false
    → due g now l id ≡ false
unfolding has_key get
not_due g now [] id h = refl
not_due g now ((k, st) ∷ rest) id h = ground (arith, not_due g now rest id)

due-get :
    (g : Game) (now : ℕ) (l : Map EntityId SessionState) (id : EntityId)
    → NodupKeys l
    → due g now l id ≡ is_due g now (get l id)
unfolding get keys
due-get g now [] id d = refl
due-get g now ((k, st) ∷ rest) id d =
    ground (arith, due-get g now rest id d.1, not_due g now rest id, elem-keys rest id)

expire_window :
    (g : Game) (b : Bool) (k : EntityId)
    → (if b then expire g k else g).reconnect_window ≡ g.reconnect_window
unfolding expire forget
expire_window g true k = (leave_zone_of-Same g k (get g.entity_zone k)).window
expire_window g false k = refl

expire_zones : (g : Game) (b : Bool) (k : EntityId) → (if b then expire g k else g).zones ≡ g.zones
unfolding expire forget
expire_zones g true k = (leave_zone_of-Same g k (get g.entity_zone k)).zones
expire_zones g false k = refl

module _ (g : Game) (k id : EntityId) where
  expire_entities :
      (b : Bool)
      → get (if b then expire g k else g).entities id
        ≡ (if k == id then (if b then none else get g.entities id) else get g.entities id)
  unfolding expire forget
  expire_entities true =
      rw (leave_zone_of-Same g k (get g.entity_zone k)).entities
        (ground (arith, get-delete g.entities k id))
  expire_entities false = ground arith

  expire_entity_zone :
      (b : Bool)
      → get (if b then expire g k else g).entity_zone id
        ≡ (if k == id then (if b then none else get g.entity_zone id) else get g.entity_zone id)
  unfolding expire forget
  expire_entity_zone true =
      rw (leave_zone_of-Same g k (get g.entity_zone k)).entity_zone
        (ground (arith, get-delete g.entity_zone k id))
  expire_entity_zone false = ground arith

  expire_session :
      (b : Bool)
      → get (if b then expire g k else g).session_states id ≡ (
          if k == id
          then (if b then none else get g.session_states id)
          else get g.session_states id)
  unfolding expire forget
  expire_session true =
      rw (leave_zone_of-Same g k (get g.entity_zone k)).session_states
        (ground (arith, get-delete g.session_states k id))
  expire_session false = ground arith

swept :
    (g : Game) (now : ℕ) (l : Map EntityId SessionState) (id : EntityId)
    → (get (sweep_sessions g now l).entities id
        ≡ (if due g now l id then none else get g.entities id))
      × (get (sweep_sessions g now l).entity_zone id
          ≡ (if due g now l id then none else get g.entity_zone id))
      × (get (sweep_sessions g now l).session_states id
          ≡ (if due g now l id then none else get g.session_states id))
      × ((sweep_sessions g now l).zones ≡ g.zones)
unfolding sweep_sessions
swept g now [] id = (refl, refl, refl, refl)
swept g now ((k, st) ∷ rest) id =
    let b = is_overdue g st now in
    ground (
      arith,
      swept (if b then expire g k else g) now rest id,
      due-window g (if b then expire g k else g) now (expire_window g b k) rest id,
      expire_entities g k id b,
      expire_entity_zone g k id b,
      expire_session g k id b,
      expire_zones g b k,
    )

-- `SweepDisconnected` takes exactly the entities whose time to reconnect is over out of `Entities`,
-- `entityZone` and the sessions, whatever their zone. It changes no `zoneSim`: such an entity
-- stays in the `entities` of its zone.
pub sweep_disconnected_exact :
    (g : Game) (now : ℕ) (id : EntityId)
    → NodupKeys g.session_states
    → let due = is_due g now (get g.session_states id) in
      (get (sweep_disconnected g now).entities id ≡ (if due then none else get g.entities id))
      × (get (sweep_disconnected g now).entity_zone id
          ≡ (if due then none else get g.entity_zone id))
      × (get (sweep_disconnected g now).session_states id
          ≡ (if due then none else get g.session_states id))
      × ((sweep_disconnected g now).zones ≡ g.zones)
unfolding sweep_disconnected
sweep_disconnected_exact g now id d =
    rw (sym (due-get g now g.session_states id d)) (swept g now g.session_states id)
