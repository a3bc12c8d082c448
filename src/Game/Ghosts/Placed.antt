-- ===== src/Game/Ghosts/Placed.antt =====
-- internal/game/boundary.go: the images of a neighbour's entities stand in the grid where the store
-- says, through every history of the neighbours' calls.
use spatial_server.Base.{
  ℕ, ◌≡◌, refl, sym, ap, subst, Bool, true, false, Option, none, some, some-injective, List, [],
  ◌∷◌, ◌&&◌, if◌then◌else◌, ◌==◌, string_key, nat_key, ltb, Map, get, put, delete, get-put,
  get-delete, has_key, elem, not, arith,
}
use spatial_server.Types.{EntityId, ZoneId, Vector3}
use spatial_server.Game.Aoi
use spatial_server.Game.Aoi.{Aoi}
use spatial_server.Game.Aoi.History.{position-enter, position-leave, position-move}
use spatial_server.Game.Zone.{Zone}
use spatial_server.Game.State.{Game, GhostEntry, Ref}
use spatial_server.Game.Ghosts.{
  Border, border, border_at, border_with, write_border, on_border, border_enter, border_leave,
  border_update, update_entry, border_seen, border_expire, border_reconcile, seen_ids, ghost_id_of,
  remote_entry, NeighborEntity, NeighborQuerier, apply_entity_enter, apply_entity_leave,
  apply_entity_update, reconcile_from, zone_in, is_remote, reconcile_neighbor_ghosts,
}

-- Every image of the store stands in the grid, at the position of its entry.
abbrev pub IsPlaced : Border → Type 0
IsPlaced b =
    (gid : EntityId) (entry : GhostEntry)
    → get b.store gid ≡ some entry
    → get b.grid.positions gid ≡ some entry.position

put-IsPlaced :
    (grid' : Aoi) (b : Border) (id : EntityId) (entry : GhostEntry)
    → ((j : EntityId)
        → get grid'.positions j ≡ (if id == j then some entry.position else get b.grid.positions j))
    → IsPlaced b
    → IsPlaced (record { grid = grid'; store = put b.store id entry })
put-IsPlaced grid' b id entry moved v gid found h =
    ground (arith, moved gid, get-put b.store id gid entry, v gid found)

drop-IsPlaced :
    (b : Border) (id : EntityId)
    → IsPlaced b
    → IsPlaced (record { grid = Aoi.leave b.grid id; store = delete b.store id })
drop-IsPlaced b id v gid found h =
    ground (arith, position-leave b.grid id gid, get-delete b.store id gid, v gid found)

enter-IsPlaced :
    (b : Border) (zone : ZoneId) (id : EntityId) (p : Vector3) (now ttl : ℕ)
    → IsPlaced b
    → IsPlaced (border_enter b zone id p now ttl)
unfolding border_enter remote_entry
enter-IsPlaced b zone id p now ttl v =
    put-IsPlaced (Aoi.enter b.grid (ghost_id_of id) p) b (ghost_id_of id) _
      (λ j. position-enter b.grid (ghost_id_of id) j p) v

update_entry-IsPlaced :
    (b : Border) (gid : EntityId) (p : Vector3) (now ttl : ℕ) (o : Option GhostEntry)
    → IsPlaced b
    → IsPlaced (update_entry b gid p now ttl o)
unfolding update_entry
update_entry-IsPlaced b gid p now ttl none v = v
update_entry-IsPlaced b gid p now ttl (some entry) v =
    put-IsPlaced (Aoi.move b.grid gid p) b gid _ (λ j. position-move b.grid gid j p) v

update-IsPlaced :
    (b : Border) (id : EntityId) (p : Vector3) (now ttl : ℕ)
    → IsPlaced b
    → IsPlaced (border_update b id p now ttl)
unfolding border_update
update-IsPlaced b id p now ttl v = update_entry-IsPlaced b (ghost_id_of id) p now ttl _ v

leave-IsPlaced : (b : Border) (id : EntityId) → IsPlaced b → IsPlaced (border_leave b id)
unfolding border_leave
leave-IsPlaced b id v = drop-IsPlaced b (ghost_id_of id) v

come_or_move :
    (a : Aoi) (c : Bool) (id j : EntityId) (p : Vector3)
    → get (if c then Aoi.enter a id p else Aoi.move a id p).positions j
      ≡ (if id == j then some p else get a.positions j)
come_or_move a true id j p = position-enter a id j p
come_or_move a false id j p = position-move a id j p

seen-IsPlaced :
    (b : Border) (neighbor : ZoneId) (now ttl : ℕ) (results : List NeighborEntity)
    → IsPlaced b
    → IsPlaced (border_seen b neighbor now ttl results)
unfolding border_seen remote_entry
seen-IsPlaced b neighbor now ttl [] v = v
seen-IsPlaced b neighbor now ttl (n ∷ rest) v =
    let gid = ghost_id_of n.id in
    let fresh = not (has_key b.store gid) in
    let grid' = if fresh then Aoi.enter b.grid gid n.pos else Aoi.move b.grid gid n.pos in
    let entry = remote_entry n.id neighbor n.pos now ttl in
    let c : Border = record { grid = grid'; store = put b.store gid entry } in
    seen-IsPlaced c neighbor now ttl rest
      (put-IsPlaced grid' b gid entry (λ j. come_or_move b.grid fresh gid j n.pos) v)

if-IsPlaced : (t : Bool) (b c : Border) → IsPlaced b → IsPlaced c → IsPlaced (if t then b else c)
if-IsPlaced true b c v w = v
if-IsPlaced false b c v w = w

expire-IsPlaced :
    (b : Border) (seen : List EntityId) (now : ℕ) (l : Map EntityId GhostEntry)
    → IsPlaced b
    → IsPlaced (border_expire b seen now l)
unfolding border_expire
expire-IsPlaced b seen now [] v = v
expire-IsPlaced b seen now ((gid, entry) ∷ rest) v =
    let gone : Border = record { grid = Aoi.leave b.grid gid; store = delete b.store gid } in
    let over = is_remote entry.kind && ltb entry.expires_at now in
    expire-IsPlaced (if elem gid seen then b else if over then gone else b) seen now rest
      (if-IsPlaced (elem gid seen) b _ v (if-IsPlaced over gone b (drop-IsPlaced b gid v) v))

reconcile-IsPlaced :
    (b : Border) (neighbor : ZoneId) (results : List NeighborEntity) (now ttl : ℕ)
    → IsPlaced b
    → IsPlaced (border_reconcile b neighbor results now ttl)
unfolding border_reconcile
reconcile-IsPlaced b neighbor results now ttl v =
    let c = border_seen b neighbor now ttl results in
    expire-IsPlaced c (seen_ids results) now c.store (seen-IsPlaced b neighbor now ttl results v)

-- Of the zone, if it has a grid and a store.
abbrev pub Placed : Option (Ref × Border) → Type 0
Placed none = Unit
Placed (some (r, b)) = IsPlaced b

abbrev changed : (Border → Border) → Option (Ref × Border) → Option (Ref × Border)
changed f none = none
changed f (some (r, b)) = some (r, f b)

with_ref :
    (r q : Ref) (o : Option Aoi) (s : Option (Map EntityId GhostEntry)) (b : Border)
    → border_with r o s ≡ some (q, b)
    → r ≡ q
unfolding border_with
with_ref r q (some grid) (some store) b e = ap (λ x. x.0) (some-injective _ _ e)
with_ref r q (some grid) none b e = cc
with_ref r q none s b e = cc

at_ref :
    (g : Game) (zone : ZoneId) (o : Option Ref) (q : Ref) (b : Border)
    → border_at g zone o ≡ some (q, b)
    → o ≡ some q
unfolding border_at
at_ref g zone none q b e = cc
at_ref g zone (some r) q b e = ap some (with_ref r q _ _ b e)

border-write :
    (g : Game) (zone : ZoneId) (f : Border → Border) (o : Option (Ref × Border))
    → border g zone ≡ o
    → border (write_border g zone f o) zone ≡ changed f o
unfolding border border_at border_with write_border
border-write g zone f none e = e
border-write g zone f (some (r, b)) e =
    rw
      (
        at_ref g zone (get g.aoi_index zone) r b e,
        get-put g.grid_store r r (f b).grid,
        get-put g.ghost_store zone zone (f b).store,
      )
      (ground arith)

changed-Placed :
    (f : Border → Border) (o : Option (Ref × Border))
    → ((b : Border) → IsPlaced b → IsPlaced (f b))
    → Placed o
    → Placed (changed f o)
changed-Placed f none keeps v = v
changed-Placed f (some (r, b)) keeps v = keeps b v

on_border-Placed :
    (g : Game) (zone : ZoneId) (f : Border → Border)
    → ((b : Border) → IsPlaced b → IsPlaced (f b))
    → Placed (border g zone)
    → Placed (border (on_border g zone f) zone)
unfolding on_border
on_border-Placed g zone f keeps v =
    subst Placed (sym (border-write g zone f (border g zone) refl))
      (changed-Placed f (border g zone) keeps v)

-- The calls for one zone: those of a neighbour's server, and the reconciliation with the querier.
pub data Call : Type 0 where
  entering : EntityId → Vector3 → ℕ → Call
  leaving : EntityId → Call
  updating : EntityId → Vector3 → ℕ → Call
  reconciling : ZoneId → ℕ → Option NeighborQuerier → Call

unfoldable pub call : Game → ZoneId → Call → Game
call g zone (entering id p now) = apply_entity_enter g zone id p now
call g zone (leaving id) = apply_entity_leave g zone id
call g zone (updating id p now) = apply_entity_update g zone id p now
call g zone (reconciling neighbor now querier) =
    reconcile_neighbor_ghosts g zone neighbor now querier

unfoldable pub run : Game → ZoneId → List Call → Game
run g zone [] = g
run g zone (c ∷ cs) = run (call g zone c) zone cs

reconcile_from-Placed :
    (g : Game) (zone neighbor : ZoneId) (now : ℕ) (q : Option NeighborQuerier) (z : Option Zone)
    → Placed (border g zone)
    → Placed (border (reconcile_from g zone neighbor now q z) zone)
unfolding reconcile_from
reconcile_from-Placed g zone neighbor now (some querier) (some z) v =
    on_border-Placed g zone _
      (λ b w.
        reconcile-IsPlaced b neighbor (querier neighbor z.grid.x z.grid.y g.aoi_radius) now
          g.ghost_ttl w)
      v
reconcile_from-Placed g zone neighbor now (some querier) none v = v
reconcile_from-Placed g zone neighbor now none z v = v

call-Placed :
    (g : Game) (zone : ZoneId) (c : Call)
    → Placed (border g zone)
    → Placed (border (call g zone c) zone)
unfolding call apply_entity_enter apply_entity_leave apply_entity_update reconcile_neighbor_ghosts
call-Placed g zone (entering id p now) v =
    on_border-Placed g zone _ (λ b w. enter-IsPlaced b zone id p now g.ghost_ttl w) v
call-Placed g zone (leaving id) v = on_border-Placed g zone _ (λ b w. leave-IsPlaced b id w) v
call-Placed g zone (updating id p now) v =
    on_border-Placed g zone _ (λ b w. update-IsPlaced b id p now g.ghost_ttl w) v
call-Placed g zone (reconciling neighbor now querier) v =
    reconcile_from-Placed g zone neighbor now querier (zone_in (get g.zones zone)) v

-- If every image in the ghost store of a zone stands in the zone's grid at the position of its
-- entry, then so it is after any of the neighbours' calls for that zone and of the reconciliations.
pub ghosts_placed :
    (g : Game) (zone : ZoneId) (cs : List Call)
    → Placed (border g zone)
    → Placed (border (run g zone cs) zone)
unfolding run
ghosts_placed g zone [] v = v
ghosts_placed g zone (c ∷ cs) v = ghosts_placed (call g zone c) zone cs (call-Placed g zone c v)
