-- ===== src/Gateway/Cache.antt =====
-- internal/gateway/cache.go: the cache of who owns a zone.
pub mod Fresh
use spatial_server.Base.{
  ℕ, ◌+◌, Bool, true, false, Option, none, some, List, [], ◌∷◌, if◌then◌else◌, ltb, String,
  string_key, Map, get, put, delete,
}
use spatial_server.Room.Fanout.{OwnershipChange}

pub record CacheEntry : Type 0 where
  pub server_id : String
  pub host : String
  pub port : ℕ

pub record CacheItem : Type 0 where
  pub entry : CacheEntry
  pub expires_at : ℕ

pub record RouterCache : Type 0 where
  pub ttl : ℕ
  pub entries : Map String CacheItem

unfoldable pub new_router_cache : ℕ → RouterCache
new_router_cache ttl = record { ttl = ttl; entries = [] }

-- `Set`, at the time `now`
unfoldable pub set : RouterCache → String → CacheEntry → ℕ → RouterCache
set rc zone entry now = record rc {
  entries = put rc.entries zone (record { entry = entry; expires_at = now + rc.ttl });
}

unfoldable pub invalidate : RouterCache → String → RouterCache
invalidate rc zone = record rc { entries = delete rc.entries zone }

unfoldable pub apply_change : RouterCache → OwnershipChange → ℕ → RouterCache
unfolding set
apply_change rc c now =
    set rc c.zone_id (record { server_id = c.server_id; host = c.host; port = c.port }) now

-- The first section of `Get`, under the read lock: what it has found, and whether it is expired.
look_item : ℕ → Option CacheItem → Option CacheEntry × Bool
look_item now none = (none, false)
look_item now (some item) =
    if ltb item.expires_at now then (none, true) else (some item.entry, false)

unfoldable pub look : RouterCache → String → ℕ → Option CacheEntry × Bool
unfolding look_item
look rc zone now = look_item now (get rc.entries zone)

-- `Get`, at the time `now`, when no other call comes between its two sections.
unfoldable pub get_entry : RouterCache → String → ℕ → RouterCache × Option CacheEntry
unfolding look invalidate
get_entry rc zone now = let r = look rc zone now in (if r.1 then invalidate rc zone else rc, r.0)
