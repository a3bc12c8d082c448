-- ===== src/Game/Sessions/Return.antt =====
-- apps/game-server/main.go, internal/game/lifecycle.go: a client that comes back on a new stream.
-- `Relay` reports the lost client, removes its entity when the stream ends, and adds an entity under
-- the same name when the client connects again; only a packet of kind RECONNECT clears the session.
use spatial_server.Base.{
  ℕ, ◌-◌, ◌≡◌, refl, sym, subst, ◌∙◌, true, Option, none, some, string_key, nat_key, get, put,
  get-put, has_key, NodupKeys, put-NodupKeys, ltb, arith,
}
use spatial_server.Types.{EntityId, ZoneId}
use spatial_server.Game.State.{Game, Entity, ZoneSim, SessionState, SessionStatus}
use spatial_server.Game.Entities.{
  placed, sim_or_new, insert_entity, add_placed, add_entity, leave_sim, forget, remove_from,
  remove_entity,
}
use spatial_server.Game.Sessions.{mark_disconnected, sweep_disconnected, is_overdue}
use spatial_server.Game.Sessions.Sweep.{sweep_disconnected_exact}

-- What the calls below leave alone.
record Kept (g h : Game) : Type 0 where
  sessions : h.session_states ≡ g.session_states
  window : h.reconnect_window ≡ g.reconnect_window

add_placed-Kept :
    (g : Game) (e : Entity) (o : Option ZoneSim) → Kept g (add_placed (sim_or_new g e.zone_id o) e)
unfolding add_placed sim_or_new insert_entity
add_placed-Kept g e none = record { sessions = refl; window = refl }
add_placed-Kept g e (some sim) = record { sessions = refl; window = refl }

add_entity-Kept : (g : Game) (e : Entity) → Kept g (add_entity g e)
unfolding add_entity
add_entity-Kept g e = add_placed-Kept g (placed e) (get g.zones (placed e).zone_id)

leave_sim-Kept :
    (g : Game) (zid : ZoneId) (id : EntityId) (o : Option ZoneSim)
    → Kept g (forget (leave_sim g zid id o) id)
unfolding leave_sim forget
leave_sim-Kept g zid id none = record { sessions = refl; window = refl }
leave_sim-Kept g zid id (some sim) = record { sessions = refl; window = refl }

remove_from-Kept : (g : Game) (id : EntityId) (o : Option ZoneId) → Kept g (remove_from g id o)
unfolding remove_from
remove_from-Kept g id none = record { sessions = refl; window = refl }
remove_from-Kept g id (some zid) = leave_sim-Kept g zid id (get g.zones zid)

-- The client of the entity is lost, its stream ends, and it connects again.
unfoldable pub come_back : Game → EntityId → ℕ → Entity → Game
unfolding mark_disconnected remove_entity add_entity
come_back g id lost e = add_entity (remove_entity (mark_disconnected g id lost) id) e

lost_session : EntityId → ℕ → Game → Game
lost_session id lost g = record g {
  session_states =
      put g.session_states id
        (record { status = SessionStatus.disconnected; disconnected_at = lost });
}

come_back-Kept :
    (g : Game) (id : EntityId) (lost : ℕ) (e : Entity)
    → has_key g.entities id ≡ true
    → Kept (lost_session id lost g) (come_back g id lost e)
unfolding come_back lost_session mark_disconnected remove_entity
come_back-Kept g id lost e known =
    let m = lost_session id lost g in
    let r = remove_entity m id in
    let removed = remove_from-Kept m id (get g.entity_zone id) in
    let added = add_entity-Kept r e in
    rw known (record {
      sessions = added.sessions ∙ removed.sessions;
      window = added.window ∙ removed.window;
    })

-- In a game with one session for each name: the entity of a client that was lost at the time `lost`
-- and came back on a new stream is not registered after a sweep that comes later than the reconnect
-- window after `lost`. The session of the lost entity outlives it.
pub returning_is_swept :
    (g : Game) (id : EntityId) (lost now : ℕ) (e : Entity)
    → has_key g.entities id ≡ true
    → NodupKeys g.session_states
    → ltb g.reconnect_window (now - lost) ≡ true
    → get (sweep_disconnected (come_back g id lost e) now).entities id ≡ none
unfolding lost_session is_overdue
returning_is_swept g id lost now e known nodup late =
    let h = come_back g id lost e in
    let kept = come_back-Kept g id lost e known in
    let st : SessionState = record {
      status = SessionStatus.disconnected;
      disconnected_at = lost;
    } in
    let d = put-NodupKeys g.session_states id st nodup in
    let exact = sweep_disconnected_exact h now id (subst NodupKeys (sym kept.sessions) d) in
    exact.0
    ∙ rw (kept.sessions, get-put g.session_states id id st) (ground (arith, kept.window, late))
