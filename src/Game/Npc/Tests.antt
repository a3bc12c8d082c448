-- ===== src/Game/Npc/Tests.antt =====
-- internal/game/npc.go: a patrol on concrete waypoints.
use spatial_server.Base.{◌≡◌, refl, [], ◌∷◌, arith, ℕ_discrete}
use spatial_server.Base.Int.{pos, negsuc, ◌-ℤ◌, ℤ_discrete, ◌+ℤ◌}
use spatial_server.Types.{Vector3}
use spatial_server.Game.Npc.{PatrolBehavior, patrol_steps, approach, is_at, move_axis}
use spatial_server.Game.Npc.Arrives.{IsReached, patrol_reaches}

abbrev start : Vector3
start = record { x = pos 7; y = pos 1; z = negsuc 2 }

abbrev corner : Vector3
corner = record { x = pos 0; y = pos 0; z = pos 2 }

abbrev patrol : PatrolBehavior
patrol = record { waypoints = corner ∷ start ∷ []; target = 0 }

patrol_reaches_example : IsReached patrol start corner 3 3
unfolding ◌-ℤ◌
patrol_reaches_example =
    patrol_reaches patrol start corner 3 3 refl (omega arith) (omega arith) (omega arith)

-- After three steps of 3 it has arrived, at its own height, and heads for the other waypoint.
three_steps :
    patrol_steps patrol start 3 3
    ≡ (record patrol { target = 1 }, record { x = pos 0; y = pos 1; z = pos 2 })
unfolding patrol_steps approach is_at move_axis ◌+ℤ◌ ◌-ℤ◌ ℤ_discrete ℕ_discrete
three_steps = refl
