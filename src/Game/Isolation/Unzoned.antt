-- ===== src/Game/Isolation/Unzoned.antt =====
-- apps/game-server/main.go, internal/game/simulation.go: entities without a zone. `Relay` adds a
-- client's entity with the runtime of its connection and without a zone.
use spatial_server.Base.{
  ℕ, ◌≡◌, ◌≢◌, refl, ◌∙◌, ◌⊎◌, true, none, some, [], ◌∷◌, String_dec, string_key, nat_key,
  ℕ_discrete, Map, get, put, get-put, elem, arith,
}
use spatial_server.Base.Int.{pos, ◌-ℤ◌}
use spatial_server.Types.{EntityId, RuntimeId, ServerId, Vector3}
use spatial_server.Game.Aoi
use spatial_server.Game.Aoi.{Aoi}
use spatial_server.Game.Aoi.History
use spatial_server.Game.Aoi.History.{entering, last_position, history_refines}
use spatial_server.Game.Aoi.Range.{is_near}
use spatial_server.Game.State.{
  Game, Entity, new, new_entity, default_zone_id, default_cell_size, default_aoi_radius,
  update_grid,
}
use spatial_server.Game.Zones.{aoi_for}
use spatial_server.Game.Entities.{
  placed, sim_or_new, insert_entity, add_placed, add_entity, in_space,
}
use spatial_server.Game.Isolation.Core.{carried}

-- Two clients connect, of two runtimes.
unfoldable pub two_clients : ServerId → EntityId → RuntimeId → EntityId → RuntimeId → Game
unfolding new new_entity add_entity
two_clients server a s b t =
    add_entity (add_entity (new server) (new_entity a "avatar" s)) (new_entity b "avatar" t)

abbrev pub origin : Vector3
origin = record { x = pos 0; y = pos 0; z = pos 0 }

abbrev pub both : EntityId → EntityId → Aoi
both a b =
    History.run (Aoi.new default_cell_size default_aoi_radius)
      (entering a origin ∷ entering b origin ∷ [])

one_grid :
    (server : ServerId) (a b : EntityId) (s t : RuntimeId)
    → aoi_for (two_clients server a s b t) default_zone_id ≡ some (both a b)
unfolding two_clients new new_entity add_entity placed sim_or_new insert_entity add_placed in_space
    aoi_for update_grid get put String_dec ℕ_discrete History.run History.call
one_grid server a b s t = refl

fresh_other :
    (a b : EntityId)
    → a ≢ b
    → get (Aoi.enter (Aoi.new default_cell_size default_aoi_radius) a origin).positions b ≡ none
unfolding Aoi.enter Aoi.new get put
fresh_other a b ne = ground arith

at_origin : Aoi.within origin default_aoi_radius origin ≡ true
unfolding Aoi.within ◌-ℤ◌
at_origin = refl

near_both :
    (a b c : EntityId)
    → (c ≡ a) ⊎ (c ≡ b)
    → is_near origin default_aoi_radius
        (last_position c none (entering a origin ∷ entering b origin ∷ []))
      ≡ true
unfolding last_position
near_both a b c h = ground (arith, at_origin)

sees :
    (a b c : EntityId)
    → a ≢ b
    → (c ≡ a) ⊎ (c ≡ b)
    → elem c (Aoi.entities_in_range (both a b) origin default_aoi_radius) ≡ true
unfolding Aoi.new get
sees a b c ne h =
    history_refines default_cell_size default_aoi_radius
      (entering a origin ∷ entering b origin ∷ []) origin default_aoi_radius c (omega arith)
      (omega arith) (refl, (fresh_other a b ne, tt))
    ∙ near_both a b c h

avatar : EntityId → RuntimeId → Entity
unfolding new_entity
avatar id space = record (new_entity id "avatar" space) { zone_id = default_zone_id }

two_entities :
    (server : ServerId) (a b : EntityId) (s t : RuntimeId)
    → (two_clients server a s b t).entities ≡ put (put [] a 1) b 2
unfolding two_clients new new_entity add_entity placed sim_or_new insert_entity add_placed in_space
    get put String_dec ℕ_discrete
two_entities server a b s t = refl

two_stored :
    (server : ServerId) (a b : EntityId) (s t : RuntimeId)
    → (two_clients server a s b t).entity_store ≡ put (put [] 1 (avatar a s)) 2 (avatar b t)
unfolding two_clients new new_entity add_entity placed sim_or_new insert_entity add_placed in_space
    get put String_dec ℕ_discrete avatar
two_stored server a b s t = refl

carry :
    (server : ServerId) (a b : EntityId) (s t : RuntimeId)
    → a ≢ b
    → (carried
          (two_clients server a s b t).entity_store
          (get (two_clients server a s b t).entities a)
        ≡ some s)
      × (carried
            (two_clients server a s b t).entity_store
            (get (two_clients server a s b t).entities b)
          ≡ some t)
unfolding avatar new_entity
carry server a b s t ne =
    let first : Map ℕ Entity = put [] 1 (avatar a s) in
    let one : Map EntityId ℕ = put [] a 1 in
    rw (two_entities server a b s t, two_stored server a b s t)
      (ground (
        arith,
        get-put one b a 2,
        get-put one b b 2,
        get-put {V = ℕ} [] a a 1,
        get-put first 2 1 (avatar b t),
        get-put first 2 2 (avatar b t),
        get-put {K = ℕ} [] 1 1 (avatar a s),
      ))

-- Two clients of any two runtimes that connect to a new game under different names: their entities
-- carry the two runtimes, and stand in one grid, that of the default zone, where each is in range
-- of the other.
pub unzoned_clients_meet :
    (server : ServerId) (a b c : EntityId) (s t : RuntimeId)
    → a ≢ b
    → (c ≡ a) ⊎ (c ≡ b)
    → (carried
          (two_clients server a s b t).entity_store
          (get (two_clients server a s b t).entities a)
        ≡ some s)
      × (carried
            (two_clients server a s b t).entity_store
            (get (two_clients server a s b t).entities b)
          ≡ some t)
      × (aoi_for (two_clients server a s b t) default_zone_id ≡ some (both a b))
      × (elem c (Aoi.entities_in_range (both a b) origin default_aoi_radius) ≡ true)
unzoned_clients_meet server a b c s t ne h =
    let (first, second) = carry server a b s t ne in
    (first, second, one_grid server a b s t, sees a b c ne h)
