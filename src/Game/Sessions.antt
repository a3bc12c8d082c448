-- ===== src/Game/Sessions.antt =====
-- internal/game/lifecycle.go: clients that lost their connection, and the time they have to return.
pub mod Sweep
pub mod Return
use spatial_server.Base.{
  ℕ, ◌-◌, Bool, true, false, Option, none, some, List, [], ◌∷◌, if◌then◌else◌, ◌==◌, String,
  string_key, ltb, nat_key, Map, get, put, delete, has_key, not,
}
use spatial_server.Types.{EntityId, ZoneId}
use spatial_server.Game.Aoi
use spatial_server.Game.State.{Game, SessionState, SessionStatus, disconnected, update_grid, Ref}
use spatial_server.Game.Entities.{forget}

unfoldable pub SessionStatus-discrete : Discrete SessionStatus
SessionStatus-discrete = hlevel

abbrev pub is_off : SessionStatus → Bool
is_off SessionStatus.disconnected = true
is_off _ = false

-- `now` is the reading of `lifecycleClock`.
unfoldable pub mark_disconnected : Game → EntityId → ℕ → Game
mark_disconnected g id now =
    if has_key g.entities id
    then record g {
      session_states =
          put g.session_states id
            (record { status = SessionStatus.disconnected; disconnected_at = now });
    }
    else g

unfoldable pub mark_reconnected : Game → EntityId → Game
mark_reconnected g id = record g {
  session_states =
      put g.session_states id (record { status = SessionStatus.active; disconnected_at = 0 });
}

off : Option SessionState → Bool
off none = false
off (some st) = is_off st.status

unfoldable pub is_disconnected : Game → EntityId → Bool
unfolding off
is_disconnected g id = off (get g.session_states id)

-- The grid of `aoiIndex`, if it has one for the entity's zone.
unfoldable pub leave_index : Game → EntityId → Option Ref → Game
unfolding update_grid
leave_index g id none = g
leave_index g id (some grid) = record g {
  grid_store = update_grid g.grid_store grid (λ a. Aoi.leave a id);
}

unfoldable pub leave_zone_of : Game → EntityId → Option ZoneId → Game
unfolding leave_index
leave_zone_of g id none = g
leave_zone_of g id (some zid) = leave_index g id (get g.aoi_index zid)

-- What the sweep does with an entity whose time is over.
unfoldable pub expire : Game → EntityId → Game
unfolding leave_zone_of forget
expire g id =
    let h = forget (leave_zone_of g id (get g.entity_zone id)) id in
    record h { session_states = delete h.session_states id }

-- A clock that went back counts as no time.
unfoldable pub is_overdue : Game → SessionState → ℕ → Bool
is_overdue g st now =
    if is_off st.status then ltb g.reconnect_window (now - st.disconnected_at) else false

unfoldable pub sweep_sessions : Game → ℕ → Map EntityId SessionState → Game
unfolding expire is_overdue
sweep_sessions g now [] = g
sweep_sessions g now ((id, st) ∷ rest) =
    sweep_sessions (if is_overdue g st now then expire g id else g) now rest

-- `SweepDisconnected`
unfoldable pub sweep_disconnected : Game → ℕ → Game
unfolding sweep_sessions
sweep_disconnected g now = sweep_sessions g now g.session_states
