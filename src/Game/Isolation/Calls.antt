-- ===== src/Game/Isolation/Calls.antt =====
-- internal/game/simulation.go, lifecycle.go: each call keeps the entities of different Spaces apart.
use spatial_server.Base.{
  ℕ, ◌+◌, ◌≡◌, refl, Bool, true, false, Option, none, some, [], ◌∷◌, if◌then◌else◌, string_key,
  nat_key, Map, get, has_key, get-put, arith, Bool-cases, inl, inr,
}
use spatial_server.Types.{EntityId, ZoneId}
use spatial_server.Game.Zone.{Zone}
use spatial_server.Game.State.{Game, Entity, ZoneSim, SessionState, Ref}
use spatial_server.Game.Zones.{assign_zone}
use spatial_server.Game.Entities.{
  in_space, placed, sim_or_new, insert_entity, add_placed, add_entity, leave_sim, forget,
  remove_from, remove_entity,
}
use spatial_server.Game.Sessions.{
  leave_index, leave_zone_of, expire, is_overdue, sweep_sessions, sweep_disconnected,
  mark_disconnected,
}
use spatial_server.Game.Isolation.Core.{
  IsIsolated, forget-IsIsolated, resim-IsIsolated, add_zone-IsIsolated, insert-IsIsolated,
  runtime-in_space,
}

abbrev pub Keeps : Game → Type 0
Keeps g = IsIsolated g.zones g.entities g.entity_zone g.entity_store g.next_ref

pub if-Keeps : (b : Bool) (g h : Game) → Keeps g → Keeps h → Keeps (if b then g else h)
if-Keeps true g h v w = v
if-Keeps false g h v w = w

assign-Keeps :
    (g : Game) (z : Zone) (o : Option ZoneSim)
    → get g.zones z.id ≡ o
    → Keeps g
    → Keeps (assign_zone g z).0
unfolding assign_zone has_key
assign-Keeps g z none free v =
    rw (free, has_key) (add_zone-IsIsolated v z.id _ (g.next_ref + 1) free (omega arith))
assign-Keeps g z (some sim) taken v = rw (taken, has_key) v

pub assign_zone-Keeps : (g : Game) (z : Zone) → Keeps g → Keeps (assign_zone g z).0
assign_zone-Keeps g z v = assign-Keeps g z _ refl v

insert_entity-Keeps :
    (g : Game) (zid : ZoneId) (sim : ZoneSim) (e : Entity)
    → get g.zones zid ≡ some sim
    → Keeps g
    → Keeps (insert_entity g zid sim (in_space sim.zone e))
unfolding insert_entity
insert_entity-Keeps g zid sim e at v =
    resim-IsIsolated
      (insert-IsIsolated v zid sim _ (in_space sim.zone e) at (runtime-in_space sim.zone e)) zid sim
      _ at refl

add_placed-Keeps :
    (g : Game) (e : Entity) (o : Option ZoneSim)
    → get g.zones e.zone_id ≡ o
    → Keeps g
    → Keeps (add_placed (sim_or_new g e.zone_id o) e)
unfolding add_placed sim_or_new
add_placed-Keeps g e (some sim) at v = insert_entity-Keeps g e.zone_id sim e at v
add_placed-Keeps g e none free v =
    let h = (sim_or_new g e.zone_id none).0 in
    let sim = (sim_or_new g e.zone_id none).1 in
    insert_entity-Keeps h e.zone_id sim e (ground (arith, get-put g.zones e.zone_id e.zone_id sim))
      (add_zone-IsIsolated v e.zone_id sim (g.next_ref + 1) free (omega arith))

pub add_entity-Keeps : (g : Game) (e : Entity) → Keeps g → Keeps (add_entity g e)
unfolding add_entity
add_entity-Keeps g e v = add_placed-Keeps g (placed e) _ refl v

leave_sim-Keeps :
    (g : Game) (zid : ZoneId) (id : EntityId) (o : Option ZoneSim)
    → get g.zones zid ≡ o
    → Keeps g
    → Keeps (leave_sim g zid id o)
unfolding leave_sim
leave_sim-Keeps g zid id none at v = v
leave_sim-Keeps g zid id (some sim) at v = resim-IsIsolated v zid sim _ at refl

remove_from-Keeps :
    (g : Game) (id : EntityId) (o : Option ZoneId) → Keeps g → Keeps (remove_from g id o)
unfolding remove_from forget
remove_from-Keeps g id none v = v
remove_from-Keeps g id (some zid) v = forget-IsIsolated (leave_sim-Keeps g zid id _ refl v) id

pub remove_entity-Keeps : (g : Game) (id : EntityId) → Keeps g → Keeps (remove_entity g id)
unfolding remove_entity
remove_entity-Keeps g id v = remove_from-Keeps g id _ v

leave_index-Keeps :
    (g : Game) (id : EntityId) (o : Option Ref) → Keeps g → Keeps (leave_index g id o)
unfolding leave_index
leave_index-Keeps g id none v = v
leave_index-Keeps g id (some grid) v = v

leave_zone_of-Keeps :
    (g : Game) (id : EntityId) (o : Option ZoneId) → Keeps g → Keeps (leave_zone_of g id o)
unfolding leave_zone_of
leave_zone_of-Keeps g id none v = v
leave_zone_of-Keeps g id (some zid) v = leave_index-Keeps g id (get g.aoi_index zid) v

expire-Keeps : (g : Game) (id : EntityId) → Keeps g → Keeps (expire g id)
unfolding expire forget
expire-Keeps g id v = forget-IsIsolated (leave_zone_of-Keeps g id _ v) id

sweep_sessions-Keeps :
    (g : Game) (now : ℕ) (l : Map EntityId SessionState) → Keeps g → Keeps (sweep_sessions g now l)
unfolding sweep_sessions
sweep_sessions-Keeps g now [] v = v
sweep_sessions-Keeps g now ((id, st) ∷ rest) v =
    sweep_sessions-Keeps (if is_overdue g st now then expire g id else g) now rest
      (if-Keeps (is_overdue g st now) _ _ (expire-Keeps g id v) v)

pub sweep_disconnected-Keeps : (g : Game) (now : ℕ) → Keeps g → Keeps (sweep_disconnected g now)
unfolding sweep_disconnected
sweep_disconnected-Keeps g now v = sweep_sessions-Keeps g now g.session_states v

pub mark_disconnected-Keeps :
    (g : Game) (id : EntityId) (now : ℕ) → Keeps g → Keeps (mark_disconnected g id now)
unfolding mark_disconnected
mark_disconnected-Keeps g id now v = elim (Bool-cases (has_key g.entities id)) [
  | inl known ↦ rw known v
  | inr unknown ↦ rw unknown v
]
