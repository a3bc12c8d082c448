-- ===== src/Game/Npc.antt =====
-- internal/game/npc.go: how an entity of the server's own walks between waypoints.
pub mod Arrives
mod Tests
use spatial_server.Base.{
  ℕ, ◌+◌, ◌%◌, Bool, true, false, Option, none, some, List, [], ◌∷◌, if◌then◌else◌, ◌==◌, ◌&&◌, leb,
  length, zero, suc,
}
use spatial_server.Base.Int.{ℤ, pos, ◌+ℤ◌, ◌-ℤ◌, magnitude, ltb_ℤ, int_key}
use spatial_server.Types.{Vector3}

-- `moveAxis`: the coordinate after a move by at most `delta`, and whether it moved.
unfoldable pub move_axis : ℤ → ℤ → ℕ → ℤ × Bool
move_axis p target delta =
    if p == target
    then (p, false)
    else if leb (magnitude (target -ℤ p)) delta
    then (target, true)
    else if ltb_ℤ p target
    then (p +ℤ pos delta, true)
    else (p -ℤ pos delta, true)

-- `target` is an index of `waypoints`.
pub record PatrolBehavior : Type 0 where
  pub waypoints : List Vector3
  pub target : ℕ

abbrev pub get_elem? {ℓ} : {A : Type ℓ} → List A → ℕ → Option A
get_elem? [] n = none
get_elem? (x ∷ xs) zero = some x
get_elem? (x ∷ xs) (suc n) = get_elem? xs n

-- Both axes moved towards the waypoint; the height is not changed.
unfoldable pub approach : Vector3 → Vector3 → ℕ → Vector3
unfolding move_axis
approach v wp delta = record v {
  x = (move_axis v.x wp.x delta).0;
  z = (move_axis v.z wp.z delta).0;
}

unfoldable pub is_at : Vector3 → Vector3 → Bool
is_at v wp = (v.x == wp.x) && (v.z == wp.z)

-- `Step`, for the waypoint with the index `target`, or out of range of the waypoints, where the
-- source panics. `delta` is `Speed * dt.Seconds()`.
step_to : PatrolBehavior → Vector3 → ℕ → Option Vector3 → PatrolBehavior × Vector3
unfolding approach is_at
step_to p v delta none = (p, v)
step_to p v delta (some wp) =
    let next = approach v wp delta in
    (if is_at next wp then record p { target = (p.target + 1) % length p.waypoints } else p, next)

unfoldable pub patrol_step : PatrolBehavior → Vector3 → ℕ → PatrolBehavior × Vector3
unfolding step_to
patrol_step p v delta = step_to p v delta (get_elem? p.waypoints p.target)

unfoldable pub patrol_steps : PatrolBehavior → Vector3 → ℕ → ℕ → PatrolBehavior × Vector3
unfolding patrol_step
patrol_steps p v delta zero = (p, v)
patrol_steps p v delta (suc n) =
    let next = patrol_step p v delta in patrol_steps next.0 next.1 delta n
