-- ===== src/Game/Zone/Tests.antt =====
-- internal/game/zone/zone.go: zones on concrete calls.
use spatial_server.Base.{
  ◌≡◌, refl, true, none, some, arith, ◌&&◌, String_dec, string_key, elem, ne_of_test,
}
use spatial_server.Base.Int.{pos, negsuc}
use spatial_server.Types.{ZoneStatus, zone_status_key, valid_transition}
use spatial_server.Game.Zone.{Zone, new, mark_orphan, adjacent_zones}
use spatial_server.Game.Zone.Life.{
  claiming, beginning, call, called, orphaned, here, next, IsOwned, call_follows_table,
  life-IsOwned,
}
use spatial_server.Game.Zone.Adjacent.{is_near, lists, entries, adjacent_zones_exact}

abbrev fresh : Zone
fresh = new "r:0:0" "r" (pos 0) (pos 0) 100

call_follows_table_example :
    (call fresh (claiming "s1")
      ≡ (record fresh { status = ZoneStatus.active; server_id = "s1" }, none))
    × (valid_transition fresh.status ZoneStatus.active ≡ true)
unfolding elem spatial_server.Types.ZoneStatus-discrete valid_transition new
call_follows_table_example = call_follows_table fresh (claiming "s1")

-- Claimed, put into transfer, orphaned and claimed by another server.
life-IsOwned_example :
    IsOwned (call (mark_orphan (call (call fresh (claiming "s1")).0 beginning).0) (claiming "s2")).0
unfolding String_dec
life-IsOwned_example = life-IsOwned "r:0:0" "r" (pos 0) (pos 0) 100 (
    next
      (next
        (next (next here (called (claiming "s1") (ne_of_test "s1" "" refl))) (called beginning tt))
        orphaned)
      (called (claiming "s2") (ne_of_test "s2" "" refl)))

adjacent_zones_exact_example :
    (lists
        (record { x = pos 1; y = negsuc 0 })
        (adjacent_zones (record { x = pos 0; y = pos 0 }) (pos 1))
      ≡ (is_near 1 (pos 1) (pos 0) && is_near 1 (negsuc 0) (pos 0)))
    × (entries (adjacent_zones (record { x = pos 0; y = pos 0 }) (pos 1)) ≡ some 9)
adjacent_zones_exact_example =
    adjacent_zones_exact (record { x = pos 0; y = pos 0 }) (record { x = pos 1; y = negsuc 0 }) 1
      (omega arith) (omega arith) (omega arith) (omega arith)
