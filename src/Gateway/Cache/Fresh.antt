-- ===== src/Gateway/Cache/Fresh.antt =====
-- internal/gateway/cache.go: what the cache answers after a history of calls.
use spatial_server.Base.{
  ℕ, ◌+◌, ◌<◌, ◌≤◌, ◌≡◌, refl, subst, ◌⊎◌, inl, inr, Bool, true, false, Option, none, some, List,
  [], ◌∷◌, if◌then◌else◌, ◌==◌, ltb, String, string_key, Map, get, put, delete, get-put, get-delete,
  arith, Bool-cases,
}
use spatial_server.Room.Fanout.{OwnershipChange}
use spatial_server.Gateway.Cache.{
  CacheEntry, CacheItem, RouterCache, new_router_cache, set, invalidate, apply_change, look_item,
  look, get_entry,
}

-- Calls, one after the other; those that read the clock carry the reading.
pub data Call : Type 0 where
  setting : String → CacheEntry → ℕ → Call
  applying : OwnershipChange → ℕ → Call
  invalidating : String → Call
  getting : String → ℕ → Call

unfoldable pub call : RouterCache → Call → RouterCache
call rc (setting zone entry now) = set rc zone entry now
call rc (applying c now) = apply_change rc c now
call rc (invalidating zone) = invalidate rc zone
call rc (getting zone now) = (get_entry rc zone now).0

unfoldable pub run : RouterCache → List Call → RouterCache
run rc [] = rc
run rc (c ∷ cs) = run (call rc c) cs

-- The readings do not go back, and end at the last argument.
abbrev pub Forward : ℕ → List Call → ℕ → Type 0
Forward t [] last = t ≤ last
Forward t (setting zone entry now ∷ cs) last = (t ≤ now) × Forward now cs last
Forward t (applying c now ∷ cs) last = (t ≤ now) × Forward now cs last
Forward t (invalidating zone ∷ cs) last = Forward t cs last
Forward t (getting zone now ∷ cs) last = (t ≤ now) × Forward now cs last

-- What a table without expiry and without `Get` holds for the zone: its last entry, with the time at
-- which the entry expires.
abbrev pub last_set : ℕ → String → Option CacheItem → List Call → Option CacheItem
last_set ttl zone o [] = o
last_set ttl zone o (setting z entry now ∷ cs) =
    last_set ttl zone
      (if z == zone then some (record { entry = entry; expires_at = now + ttl }) else o) cs
last_set ttl zone o (applying c now ∷ cs) =
    last_set ttl zone
      (if c.zone_id == zone
        then some (record {
          entry = record { server_id = c.server_id; host = c.host; port = c.port };
          expires_at = now + ttl;
        })
        else o)
      cs
last_set ttl zone o (invalidating z ∷ cs) = last_set ttl zone (if z == zone then none else o) cs
last_set ttl zone o (getting z now ∷ cs) = last_set ttl zone o cs

-- The entry, until it expires.
abbrev pub fresh_at : ℕ → Option CacheItem → Option CacheEntry
fresh_at now none = none
fresh_at now (some item) = if ltb item.expires_at now then none else some item.entry

abbrev Expired : ℕ → Option CacheItem → Type 0
Expired t none = ⊥
Expired t (some item) = item.expires_at < t

-- The cache holds the last entry, or has dropped it after it expired.
abbrev Agree : ℕ → Option CacheItem → Option CacheItem → Type 0
Agree t o s = (o ≡ s) ⊎ ((o ≡ none) × Expired t s)

Agree-later : (t now : ℕ) (o s : Option CacheItem) → t ≤ now → Agree t o s → Agree now o s
Agree-later t now o none le h = h
Agree-later t now o (some item) le (inl e) = inl e
Agree-later t now o (some item) le (inr (e, x)) = inr (e, omega arith)

looked : (now : ℕ) (o s : Option CacheItem) → Agree now o s → (look_item now o).0 ≡ fresh_at now s
unfolding look_item
looked now none none h = refl
looked now (some item) s h = ground arith
looked now none (some item) h = ground arith

dropped :
    (now : ℕ) (o s : Option CacheItem)
    → Agree now o s
    → Agree now (if (look_item now o).1 then none else o) s
unfolding look_item
dropped now none s h = h
dropped now (some item) s h = ground arith

after_get :
    (rc : RouterCache) (z zone : String) (now : ℕ)
    → get (get_entry rc z now).0.entries zone ≡ (
        if z == zone
        then (if (look_item now (get rc.entries zone)).1 then none else get rc.entries zone)
        else get rc.entries zone)
unfolding get_entry look invalidate
after_get rc z zone now = ground (arith, get-delete rc.entries z zone)

either :
    (t : ℕ) (b : Bool) (o p s : Option CacheItem)
    → Agree t o s
    → Agree t p s
    → Agree t (if b then o else p) s
either t true o p s h k = h
either t false o p s h k = k

got :
    (rc : RouterCache) (z zone : String) (now : ℕ) (s : Option CacheItem)
    → Agree now (get rc.entries zone) s
    → Agree now (get (get_entry rc z now).0.entries zone) s
got rc z zone now s h =
    rw (after_get rc z zone now)
      (either now (z == zone) _ _ s (dropped now (get rc.entries zone) s h) h)

renewed :
    (t : ℕ) (m : Map String CacheItem) (z zone : String) (item : CacheItem) (s : Option CacheItem)
    → Agree t (get m zone) s
    → Agree t (get (put m z item) zone) (if z == zone then some item else s)
renewed t m z zone item s h = elim (Bool-cases (z == zone)) [
  | inl same ↦ rw (get-put m z zone item, same) (inl refl)
  | inr other ↦ rw (get-put m z zone item, other) h
]

cleared :
    (t : ℕ) (m : Map String CacheItem) (z zone : String) (s : Option CacheItem)
    → Agree t (get m zone) s
    → Agree t (get (delete m z) zone) (if z == zone then none else s)
cleared t m z zone s h = elim (Bool-cases (z == zone)) [
  | inl same ↦ rw (get-delete m z zone, same) (inl refl)
  | inr other ↦ rw (get-delete m z zone, other) h
]

ttl_kept : (rc : RouterCache) (c : Call) → (call rc c).ttl ≡ rc.ttl
unfolding call set apply_change invalidate get_entry
ttl_kept rc (setting zone entry now) = refl
ttl_kept rc (applying c now) = refl
ttl_kept rc (invalidating zone) = refl
ttl_kept rc (getting zone now) = ground arith

agrees :
    (rc : RouterCache) (cs : List Call) (zone : String) (s : Option CacheItem) (t last : ℕ)
    → Forward t cs last
    → Agree t (get rc.entries zone) s
    → Agree last (get (run rc cs).entries zone) (last_set rc.ttl zone s cs)
unfolding run call set apply_change invalidate
agrees rc [] zone s t last f h = Agree-later t last (get rc.entries zone) s f h
agrees rc (setting z entry now ∷ cs) zone s t last f h =
    agrees (call rc (setting z entry now)) cs zone _ now last f.1
      (renewed now rc.entries z zone _ s (Agree-later t now (get rc.entries zone) s f.0 h))
agrees rc (applying c now ∷ cs) zone s t last f h =
    agrees (call rc (applying c now)) cs zone _ now last f.1
      (renewed now rc.entries c.zone_id zone _ s (Agree-later t now (get rc.entries zone) s f.0 h))
agrees rc (invalidating z ∷ cs) zone s t last f h =
    agrees (call rc (invalidating z)) cs zone _ t last f (cleared t rc.entries z zone s h)
agrees rc (getting z now ∷ cs) zone s t last f h =
    subst
      (λ ttl.
        Agree last (get (run (get_entry rc z now).0 cs).entries zone) (last_set ttl zone s cs))
      (ttl_kept rc (getting z now))
      (agrees (get_entry rc z now).0 cs zone s now last f.1
        (got rc z zone now s (Agree-later t now (get rc.entries zone) s f.0 h)))

-- After any calls, one after the other, with readings that do not go back, `Get` answers with the
-- last entry of the zone that was set and not invalidated, up to the end of its time to live, and
-- with nothing after that or without such an entry. Every other `Get` is invisible.
pub cache_refines :
    (ttl start now : ℕ) (cs : List Call) (zone : String)
    → Forward start cs now
    → (get_entry (run (new_router_cache ttl) cs) zone now).1
      ≡ fresh_at now (last_set ttl zone none cs)
unfolding get_entry look new_router_cache get
cache_refines ttl start now cs zone f =
    looked now _ _ (agrees (new_router_cache ttl) cs zone none start now f (inl refl))
