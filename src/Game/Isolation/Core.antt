-- ===== src/Game/Isolation/Core.antt =====
-- internal/game/simulation.go: what isolation says of the maps of a `Game`, and the changes of the
-- maps that keep it.
use spatial_server.Base.{
  ℕ, ◌+◌, ◌<◌, ◌≤◌, ◌≡◌, ◌≢◌, refl, sym, ◌∙◌, Bool, true, Option, none, some, if◌then◌else◌, ◌==◌,
  string_key, nat_key, Map, get, put, delete, has_key, get-put, get-delete, arith,
}
use spatial_server.Types.{EntityId, ZoneId, RuntimeId}
use spatial_server.Game.Zone.{Zone}
use spatial_server.Game.State.{Entity, ZoneSim, Ref}
use spatial_server.Game.Entities.{in_space}

-- The Space of a zone, if the zone has one.
abbrev pub named : Zone → Option RuntimeId
named z = if z.runtime_id == "" then none else some z.runtime_id

abbrev pub space_of : Option Zone → Option RuntimeId
space_of none = none
space_of (some z) = named z

abbrev pub sim_space : Option ZoneSim → Option RuntimeId
sim_space none = none
sim_space (some sim) = space_of sim.zone

-- The Space of the zone in which the entity is registered.
abbrev pub home_in : Map ZoneId ZoneSim → Option ZoneId → Option RuntimeId
home_in zones none = none
home_in zones (some zid) = sim_space (get zones zid)

abbrev pub runtime_of : Option Entity → Option RuntimeId
runtime_of none = none
runtime_of (some e) = some e.runtime_id

-- The Space that the entity itself carries.
abbrev pub carried : Map Ref Entity → Option Ref → Option RuntimeId
carried store none = none
carried store (some r) = runtime_of (get store r)

abbrev pub is_housed : Map ZoneId ZoneSim → Option ZoneId → Bool
is_housed zones none = true
is_housed zones (some zid) = has_key zones zid

abbrev pub Below : ℕ → Option Ref → Type 0
Below n none = Unit
Below n (some r) = r < n

Below-mono : {n m : ℕ} (o : Option Ref) → n ≤ m → Below n o → Below m o
Below-mono none le h = tt
Below-mono (some r) le h = omega arith

-- Of the zones, the entities, their zones, the store of entities and the first unused reference:
-- every entity that is registered in a zone with a Space carries that Space.
pub record IsIsolated (zones : Map ZoneId ZoneSim) (entities : Map EntityId Ref)
    (entity_zone : Map EntityId ZoneId) (store : Map Ref Entity) (n : ℕ) : Type 0 where
  pub used : (id : EntityId) → Below n (get entities id)
  pub housed : (id : EntityId) → is_housed zones (get entity_zone id) ≡ true
  pub spaced :
      (id : EntityId) (s : RuntimeId)
      → home_in zones (get entity_zone id) ≡ some s
      → carried store (get entities id) ≡ some s

module _ (zones : Map ZoneId ZoneSim) (zid : ZoneId) (sim sim' : ZoneSim) where
  housed-resim :
      (o : Option ZoneId) → is_housed zones o ≡ true → is_housed (put zones zid sim') o ≡ true
  unfolding has_key
  housed-resim none h = refl
  housed-resim (some z) h = ground (arith, get-put zones zid z sim')

  home-resim :
      (o : Option ZoneId)
      → get zones zid ≡ some sim
      → sim'.zone ≡ sim.zone
      → home_in (put zones zid sim') o ≡ home_in zones o
  home-resim none e same = refl
  home-resim (some z) e same = ground (arith, get-put zones zid z sim')

  home-add_zone :
      (o : Option ZoneId)
      → get zones zid ≡ none
      → is_housed zones o ≡ true
      → home_in (put zones zid sim') o ≡ home_in zones o
  unfolding has_key
  home-add_zone none e h = refl
  home-add_zone (some z) e h = ground (arith, get-put zones zid z sim')

module _ (zones : Map ZoneId ZoneSim) (zid : ZoneId) where
  housed-drop :
      (o : Option ZoneId)
      → o ≢ some zid
      → is_housed zones o ≡ true
      → is_housed (delete zones zid) o ≡ true
  unfolding has_key
  housed-drop none ne h = refl
  housed-drop (some z) ne h = ground (arith, get-delete zones zid z)

  home-drop : (o : Option ZoneId) → o ≢ some zid → home_in (delete zones zid) o ≡ home_in zones o
  home-drop none ne = refl
  home-drop (some z) ne = ground (arith, get-delete zones zid z)

carried-put :
    (store : Map Ref Entity) (n : ℕ) (e : Entity) (o : Option Ref)
    → Below n o
    → carried (put store n e) o ≡ carried store o
carried-put store n e none h = refl
carried-put store n e (some r) h = ground (arith, get-put store n r e)

pub runtime-in_space :
    (z : Option Zone) (e : Entity) (s : RuntimeId)
    → space_of z ≡ some s
    → (in_space z e).runtime_id ≡ s
unfolding in_space
runtime-in_space none e s h = cc
runtime-in_space (some z) e s h = ground arith

module _ {zones : Map ZoneId ZoneSim} {entities : Map EntityId Ref}
    {entity_zone : Map EntityId ZoneId} {store : Map Ref Entity} {n : ℕ}
    (v : IsIsolated zones entities entity_zone store n) where
  pub forget-IsIsolated :
      (id : EntityId) → IsIsolated zones (delete entities id) (delete entity_zone id) store n
  forget-IsIsolated id = record {
    used = λ j. ground (arith, v.used j, get-delete entities id j);
    housed = λ j. ground (arith, v.housed j, get-delete entity_zone id j);
    spaced = λ j s h.
        ground (arith, v.spaced j s, get-delete entities id j, get-delete entity_zone id j);
  }

  -- A zone whose simulation is replaced by one of the same zone.
  pub resim-IsIsolated :
      (zid : ZoneId) (sim sim' : ZoneSim)
      → get zones zid ≡ some sim
      → sim'.zone ≡ sim.zone
      → IsIsolated (put zones zid sim') entities entity_zone store n
  unfolding has_key
  resim-IsIsolated zid sim sim' e same = record {
    used = v.used;
    housed = λ j. housed-resim zones zid sim sim' (get entity_zone j) (v.housed j);
    spaced =
        λ j s h. v.spaced j s (sym (home-resim zones zid sim sim' (get entity_zone j) e same) ∙ h);
  }

  -- A zone that is added where there was none.
  pub add_zone-IsIsolated :
      (zid : ZoneId) (sim : ZoneSim) (m : ℕ)
      → get zones zid ≡ none
      → n ≤ m
      → IsIsolated (put zones zid sim) entities entity_zone store m
  unfolding has_key
  add_zone-IsIsolated zid sim m e le = record {
    used = λ j. Below-mono (get entities j) le (v.used j);
    housed = λ j. housed-resim zones zid sim sim (get entity_zone j) (v.housed j);
    spaced = λ j s h.
        v.spaced j s (sym (home-add_zone zones zid sim sim (get entity_zone j) e (v.housed j)) ∙ h);
  }

  -- A zone in which no entity is registered goes.
  pub drop_zone-IsIsolated :
      (zid : ZoneId)
      → ((id : EntityId) → get entity_zone id ≢ some zid)
      → IsIsolated (delete zones zid) entities entity_zone store n
  unfolding has_key
  drop_zone-IsIsolated zid empty = record {
    used = v.used;
    housed = λ j. housed-drop zones zid (get entity_zone j) (empty j) (v.housed j);
    spaced = λ j s h. v.spaced j s (sym (home-drop zones zid (get entity_zone j) (empty j)) ∙ h);
  }

  -- A new entity is registered, carrying the Space of its zone.
  pub insert-IsIsolated :
      (zid : ZoneId) (sim : ZoneSim) (id : EntityId) (e : Entity)
      → get zones zid ≡ some sim
      → ((s : RuntimeId) → space_of sim.zone ≡ some s → e.runtime_id ≡ s)
      → IsIsolated zones (put entities id n) (put entity_zone id zid) (put store n e) (n + 1)
  unfolding has_key
  insert-IsIsolated zid sim id e at space = record {
    used = λ j. ground (arith, v.used j, get-put entities id j n);
    housed = λ j. ground (arith, v.housed j, get-put entity_zone id j zid);
    spaced = λ j s h. ground (
      arith,
      get-put entities id j n,
      get-put entity_zone id j zid,
      get-put store n n e,
      carried-put store n e (get entities j),
      space s,
      v.spaced j s,
      v.used j,
    );
  }
