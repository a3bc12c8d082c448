-- ===== src/Game/Zone.antt =====
-- internal/game/zone/zone.go: a zone, its owner and the life of its status. The proofs are in the
-- modules below.
pub mod Life
pub mod Adjacent
mod Tests
use spatial_server.Base.{
  ℕ, zero, suc, ◌+◌, ◌-◌, ◌%◌, ltb, ◌||◌, Bool, true, false, List, [], ◌∷◌, ◌++◌, if◌then◌else◌,
  ◌==◌, ◌&&◌, string_key, Option, none, some, not,
}
use spatial_server.Base.Int.{ℤ, int_key, pos_part, neg_part, ◌+ℤ◌, ◌-ℤ◌, pos, negsuc}
use spatial_server.Types.{
  ZoneId, RuntimeId, ServerId, ZoneStatus, zone_status_key, valid_transition, Error, conflict,
  invalid_arg,
}

pub record GridCoord : Type 0 where
  pub x : ℤ
  pub y : ℤ

pub record Zone : Type 0 where
  pub id : ZoneId
  pub runtime_id : RuntimeId
  pub grid : GridCoord
  pub size : ℕ
  pub status : ZoneStatus
  pub server_id : ServerId

unfoldable pub new : ZoneId → RuntimeId → ℤ → ℤ → ℕ → Zone
new id runtime_id x y size = record {
  id = id;
  runtime_id = runtime_id;
  grid = record { x = x; y = y };
  size = size;
  status = ZoneStatus.unowned;
  server_id = "";
}

-- A method returns the new state and its error, if any.
unfoldable pub claim : Zone → ServerId → Zone × Option Error
claim z server =
    if not (valid_transition z.status ZoneStatus.active)
    then (z, some conflict)
    else (record z { status = ZoneStatus.active; server_id = server }, none)

unfoldable pub release : Zone → Zone × Option Error
release z =
    if not (z.status == ZoneStatus.active) && not (z.status == ZoneStatus.orphan)
    then (z, some invalid_arg)
    else (record z { status = ZoneStatus.unowned; server_id = "" }, none)

unfoldable pub begin_transfer : Zone → Zone × Option Error
begin_transfer z =
    if not (valid_transition z.status ZoneStatus.transferring)
    then (z, some conflict)
    else (record z { status = ZoneStatus.transferring }, none)

unfoldable pub complete_transfer : Zone → ServerId → Zone × Option Error
complete_transfer z server =
    if not (z.status == ZoneStatus.transferring)
    then (z, some invalid_arg)
    else (record z { status = ZoneStatus.active; server_id = server }, none)

unfoldable pub mark_orphan : Zone → Zone
mark_orphan z = record z { status = ZoneStatus.orphan }

unfoldable pub is_owned_by : Zone → ServerId → Bool
is_owned_by z server = (z.status == ZoneStatus.active) && (z.server_id == server)

-- `for y := …; y <= …; y++`, over the values that are left.
column : ℤ → ℕ → ℤ → List GridCoord
column x zero y = []
column x (suc n) y = record { x = x; y = y } ∷ column x n (y +ℤ pos 1)

columns : ℕ → ℕ → ℤ → ℤ → List GridCoord
unfolding column
columns side zero x y = []
columns side (suc n) x y = column x side y ++ columns side n (x +ℤ pos 1) y

-- An `int` of 64 bits: sums and differences wrap.
abbrev pub int_bound : ℕ
int_bound = 9_223_372_036_854_775_808

complement : ℤ → ℤ
complement (pos n) = negsuc n
complement (negsuc n) = pos n

wrap_ℕ : ℕ → ℤ
wrap_ℕ n =
    let m = n % (int_bound + int_bound) in
    if ltb m int_bound then pos m else negsuc (int_bound + int_bound - 1 - m)

wrap : ℤ → ℤ
unfolding complement wrap_ℕ
wrap (pos n) = wrap_ℕ n
wrap (negsuc n) = complement (wrap_ℕ n)

-- How many values a loop from the first to the second takes.
rounds : ℤ → ℤ → ℕ
rounds first last = (pos_part last + neg_part first + 1) - (pos_part first + neg_part last)

-- A loop up to the greatest `int` does not end, since its counter wraps before it passes that.
is_endless : ℤ → Bool
is_endless last = last == pos (int_bound - 1)

-- The two loops, by their bounds; `none` is a loop that does not end.
zones_between : ℤ → ℤ → ℤ → ℤ → Option (List GridCoord)
unfolding columns rounds is_endless
zones_between first_x last_x first_y last_y =
    if is_endless last_x || (ltb 0 (rounds first_x last_x) && is_endless last_y)
    then none
    else some (columns (rounds first_y last_y) (rounds first_x last_x) first_x first_y)

unfoldable pub adjacent_zones : GridCoord → ℤ → Option (List GridCoord)
unfolding wrap zones_between
adjacent_zones center radius =
    zones_between (wrap (center.x -ℤ radius)) (wrap (center.x +ℤ radius))
      (wrap (center.y -ℤ radius)) (wrap (center.y +ℤ radius))
