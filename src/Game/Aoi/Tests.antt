-- ===== src/Game/Aoi/Tests.antt =====
-- internal/game/aoi/aoi.go: the grid on concrete calls.
use spatial_server.Base.{
  ◌≡◌, refl, true, none, some, ℕ_discrete, List, [], ◌∷◌, String_dec, string_key, elem, get, put,
  delete, keys, remove_first, arith,
}
use spatial_server.Base.Int.{pos, negsuc, ℤ_discrete, floor_div, ◌+ℤ◌, ◌-ℤ◌}
use spatial_server.Types.{Vector3}
use spatial_server.Game.Aoi.{
  Aoi, CellKey_discrete, new, offsets, within, cell, cell_key_for, enter, leave, move,
  entities_in_range, query, scan, sort, serialize, deserialize,
}
use spatial_server.Game.Aoi.Index.{IsIndexed, new-IsIndexed, enter-IsIndexed}
use spatial_server.Game.Aoi.Range.{is_near}
use spatial_server.Game.Aoi.History.{
  call, Call, entering, leaving, moving, run, last_position, history_refines, reenter_leaves_stale,
}
use spatial_server.Game.Aoi.Restore.{restore_answers}

abbrev near_origin : Vector3
near_origin = record { x = pos 50; y = pos 0; z = negsuc 49 }

abbrev far_off : Vector3
far_off = record { x = pos 350; y = pos 7; z = pos 0 }

abbrev origin : Vector3
origin = record { x = pos 0; y = pos 0; z = pos 0 }

abbrev calls : List Call
calls =
    entering "a" near_origin
    ∷ entering "b" origin
    ∷ moving "a" far_off
    ∷ leaving "b"
    ∷ moving "c" near_origin
    ∷ []

abbrev busy : Aoi
busy = run (new 100 300) calls

range_after_calls : entities_in_range busy origin 300 ≡ "c" ∷ []
unfolding run new enter leave move entities_in_range query scan sort get put delete elem
    remove_first cell cell_key_for floor_div String_dec CellKey_discrete ℤ_discrete ◌+ℤ◌ ◌-ℤ◌
    offsets call ℕ_discrete within
range_after_calls = refl

history_refines_example :
    elem "c" (entities_in_range busy origin 300) ≡ is_near origin 300 (last_position "c" none calls)
unfolding new enter get put String_dec
history_refines_example =
    history_refines 100 300 calls origin 300 "c" (omega arith) (omega arith) (refl, (refl, tt))

abbrev one : Aoi
one = enter (new 100 300) "a" origin

one-IsIndexed : IsIndexed one
unfolding new get
one-IsIndexed = enter-IsIndexed (new 100 300) "a" origin refl (new-IsIndexed 100 300 (omega arith))

reenter_leaves_stale_example :
    (get (leave (enter one "a" far_off) "a").positions "a" ≡ none)
    × (elem "a" (cell (leave (enter one "a" far_off) "a").cells (cell_key_for one origin)) ≡ true)
unfolding enter new get put cell_key_for floor_div String_dec CellKey_discrete ℤ_discrete ℕ_discrete
reenter_leaves_stale_example = reenter_leaves_stale one "a" origin far_off one-IsIndexed refl refl

restore_answers_example :
    IsIndexed (deserialize 1 1 (some (serialize one)))
    × (elem "a" (entities_in_range (deserialize 1 1 (some (serialize one))) origin 300)
        ≡ elem "a" (entities_in_range one origin 300))
unfolding enter new get put keys elem
restore_answers_example =
    restore_answers one 1 1 origin 300 "a" one-IsIndexed (refl, tt) (omega arith)
