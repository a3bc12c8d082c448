-- ===== src/Game/Npc/Arrives.antt =====
-- internal/game/npc.go: a patrol reaches its waypoint.
use spatial_server.Base.{
  ℕ, zero, suc, ◌-◌, ◌*◌, ◌≤◌, ◌<◌, ◌≡◌, refl, ◌∙◌, ap, true, false, some, arith, Bool-cases, inl,
  inr,
}
use spatial_server.Base.Int.{ℤ, ◌+ℤ◌, ◌-ℤ◌, magnitude, int_key}
use spatial_server.Types.{Vector3}
use spatial_server.Game.Npc.{
  move_axis, PatrolBehavior, get_elem?, approach, is_at, step_to, patrol_step, patrol_steps,
}

-- A move comes nearer by `delta`, until it is there.
move_axis-nearer :
    (p target : ℤ) (delta : ℕ)
    → magnitude (target -ℤ (move_axis p target delta).0) ≡ magnitude (target -ℤ p) - delta
unfolding move_axis ◌+ℤ◌ ◌-ℤ◌
move_axis-nearer p target delta = ground arith

abbrev pub distance : ℤ → ℤ → ℕ
distance p target = magnitude (target -ℤ p)

distance-zero : (p target : ℤ) → distance p target ≡ 0 → p ≡ target
unfolding ◌-ℤ◌
distance-zero p target h = ground arith

near_enough : (v wp : Vector3) → distance v.x wp.x ≡ 0 → distance v.z wp.z ≡ 0 → is_at v wp ≡ true
unfolding is_at
near_enough v wp hx hz = ground (arith, distance-zero v.x wp.x hx, distance-zero v.z wp.z hz)

there : (v wp : Vector3) → is_at v wp ≡ true → (v.x ≡ wp.x) × (v.z ≡ wp.z)
unfolding is_at
there v wp h = (ground arith, ground arith)

step-at :
    (p : PatrolBehavior) (v wp : Vector3) (delta : ℕ)
    → get_elem? p.waypoints p.target ≡ some wp
    → ((patrol_step p v delta).1 ≡ approach v wp delta)
      × (is_at (approach v wp delta) wp ≡ false → (patrol_step p v delta).0 ≡ p)
unfolding patrol_step step_to
step-at p v wp delta h = rw h (refl, λ far. rw far refl)

closer : (d n delta : ℕ) → d ≤ suc n * delta → d - delta ≤ n * delta
closer d n delta h = omega arith

approach-distance :
    (v wp : Vector3) (delta n : ℕ)
    → distance v.x wp.x ≤ suc n * delta
    → distance v.z wp.z ≤ suc n * delta
    → (distance (approach v wp delta).x wp.x ≤ n * delta)
      × (distance (approach v wp delta).z wp.z ≤ n * delta)
unfolding approach
approach-distance v wp delta n hx hz = (
  rw (move_axis-nearer v.x wp.x delta) (closer (distance v.x wp.x) n delta hx),
  rw (move_axis-nearer v.z wp.z delta) (closer (distance v.z wp.z) n delta hz),
)

-- The waypoint is reached after one of the first `n` steps.
abbrev pub IsReached : PatrolBehavior → Vector3 → Vector3 → ℕ → ℕ → Type 0
IsReached p v wp delta n =
    (k : ℕ) × (k < n)
    × ((patrol_steps p v delta (suc k)).1.x ≡ wp.x)
    × ((patrol_steps p v delta (suc k)).1.z ≡ wp.z)

IsReached-now :
    (p : PatrolBehavior) (v wp : Vector3) (delta n : ℕ)
    → get_elem? p.waypoints p.target ≡ some wp
    → is_at (approach v wp delta) wp ≡ true
    → IsReached p v wp delta (suc n)
unfolding patrol_steps
IsReached-now p v wp delta n h at =
    let (x, z) = there (approach v wp delta) wp at in
    let now = (step-at p v wp delta h).0 in
    (0, omega arith, ap (λ v. v.x) now ∙ x, ap (λ v. v.z) now ∙ z)

IsReached-later :
    (p : PatrolBehavior) (v next wp : Vector3) (delta n : ℕ)
    → (patrol_step p v delta).0 ≡ p
    → (patrol_step p v delta).1 ≡ next
    → IsReached p next wp delta n
    → IsReached p v wp delta (suc n)
IsReached-later p v next wp delta n e f (k, lt, x, z) =
    let same : patrol_steps p v delta (suc (suc k)) ≡ patrol_steps p next delta (suc k) =
      unfold patrol_steps in
      (ap (λ q. patrol_steps q (patrol_step p v delta).1 delta (suc k)) e
        ∙ ap (λ w. patrol_steps p w delta (suc k)) f) in
    (suc k, omega arith, ap (λ s. s.1.x) same ∙ x, ap (λ s. s.1.z) same ∙ z)

-- An entity on patrol reaches the waypoint that it heads for, on both axes, within any positive
-- number of steps that together are long enough for the distance on each axis.
pub patrol_reaches :
    (p : PatrolBehavior) (v wp : Vector3) (delta n : ℕ)
    → get_elem? p.waypoints p.target ≡ some wp
    → 0 < n
    → distance v.x wp.x ≤ n * delta
    → distance v.z wp.z ≤ n * delta
    → IsReached p v wp delta n
patrol_reaches p v wp delta zero h positive hx hz = absurd (omega arith)
patrol_reaches p v wp delta (suc zero) h positive hx hz =
    let near = approach-distance v wp delta zero hx hz in
    IsReached-now p v wp delta zero h
      (near_enough (approach v wp delta) wp (omega (arith, near.0)) (omega (arith, near.1)))
patrol_reaches p v wp delta (suc (suc n)) h positive hx hz =
    let next = approach v wp delta in
    let near = approach-distance v wp delta (suc n) hx hz in
    let s = step-at p v wp delta h in
    elim (Bool-cases (is_at next wp)) [
      | inl at ↦ IsReached-now p v wp delta (suc n) h at
      | inr far ↦
          IsReached-later p v next wp delta (suc n) (s.1 far) s.0
            (patrol_reaches p next wp delta (suc n) h (omega arith) near.0 near.1)
    ]
