-- ===== src/Gateway/Tests.antt =====
-- internal/gateway: limits and the cache on concrete calls.
use spatial_server.Base.{
  ℕ, ◌+◌, ◌-◌, ◌*◌, ◌/◌, ◌≤◌, ◌≡◌, refl, ◌∙◌, ap, Bool, true, false, Option, none, String, Map, ltb,
  get-put, if◌then◌else◌, ◌==◌, nat_key, List, [], ◌∷◌, string_key, arith,
}
use spatial_server.Gateway.Limits.{
  parts, ConnectionLimiter, new_connection_limiter, new_token_bucket, allow, allow_connection,
  loaded, new_ip_limiter, allow_ip, refilled,
}
use spatial_server.Gateway.Limits.Admitted
use spatial_server.Gateway.Limits.Admitted.{admits_at_most, spaced_call_passes}
use spatial_server.Gateway.Limits.Separate
use spatial_server.Gateway.Limits.Separate.{alone, addresses_apart}
use spatial_server.Gateway.Cache.{CacheEntry, new_router_cache, get_entry}
use spatial_server.Gateway.Cache.Fresh
use spatial_server.Gateway.Cache.Fresh.{
  setting, invalidating, getting, last_set, fresh_at, call, cache_refines,
}
use spatial_server.Base.{some, ℕ_discrete, get, put, delete, length, String_dec}
use spatial_server.Gateway.Handler.{
  Claims, Event, requesting, answering, steps, begin_ws, new_handler, relay_packets, new_relay,
}
use spatial_server.Gateway.Handler.Counted
use spatial_server.Gateway.Handler.Counted.{conns_count_requests}
use spatial_server.Gateway.Handler.Limited.{relay_sends_at_most}
use spatial_server.Gateway.Store.{SessionRecord, Client, RedisSessionStore, issue, lookup}
use spatial_server.Gateway.Store.Kept
use spatial_server.Gateway.Store.Kept.{session_kept}

-- A burst of two tokens: the third of three quick calls is refused, and a call a second later is not.
three_calls : (Admitted.run (new_connection_limiter 1 2 5) (6 ∷ 7 ∷ 8 ∷ 1_000_000_008 ∷ [])).1 ≡ 3
unfolding new_connection_limiter new_token_bucket Admitted.run allow_connection allow refilled
three_calls = refl

admits_at_most_example :
    (Admitted.run (new_connection_limiter 1 2 5) (6 ∷ 7 ∷ 8 ∷ [])).1 * parts
    ≤ 2 * parts + (9 - 5) * 1
admits_at_most_example =
    admits_at_most 1 2 5 9 (6 ∷ 7 ∷ 8 ∷ []) (omega arith, (omega arith, (omega arith, omega arith)))

abbrev empty_bucket : ConnectionLimiter
empty_bucket = record {
  bucket = record { tokens = 0; rate = 100; burst = 100 * parts; last_time = 5 };
  drops = 3;
}

abbrev visits : List Separate.Call
visits =
    record { ip = "a"; now = 1 } ∷ record { ip = "b"; now = 2 } ∷ record { ip = "a"; now = 3 } ∷ []

addresses_apart_example :
    (allow_ip (Separate.run (new_ip_limiter 1 2) visits) "a" 4).1
    ≡ (allow (loaded 1 2 4 (alone 1 2 "a" none visits)) 4).1
addresses_apart_example = addresses_apart 1 2 visits "a" 4

abbrev at_home : CacheEntry
at_home = record { server_id = "s"; host = "127.0.0.1"; port = 9000 }

abbrev lookups : List Fresh.Call
lookups = setting "z" at_home 1 ∷ getting "z" 40 ∷ setting "y" at_home 50 ∷ invalidating "x" ∷ []

cache_refines_example :
    (get_entry (Fresh.run (new_router_cache 30) lookups) "z" 60).1
    ≡ fresh_at 60 (last_set 30 "z" none lookups)
cache_refines_example =
    cache_refines 30 0 60 lookups "z" (omega arith, (omega arith, (omega arith, omega arith)))

abbrev player : Claims
player = record { runtime_id = "r"; player_id = "p"; zone_id = "z" }

-- Two requests of one player, of which the first becomes a relay while the second is in flight.
abbrev requests : List Event
requests = requesting 1 "jwt" ∷ requesting 2 "jwt" ∷ answering 1 (some "10.0.0.1:9000") true ∷ []

conns_count_requests_example :
    (steps (λ token. some player) Counted.idle requests).handler.conns
    ≡ length (steps (λ token. some player) Counted.idle requests).in_flight
conns_count_requests_example = conns_count_requests (λ token. some player) requests

-- The relay that runs is not counted.
relay_not_counted :
    ((steps (λ token. some player) Counted.idle requests).handler.conns ≡ 1)
    × ((steps (λ token. some player) Counted.idle requests).relays ≡ "p" ∷ [])
unfolding steps begin_ws new_handler String_dec get put delete ℕ_discrete
relay_not_counted = (refl, refl)

relay_sends_at_most_example :
    (relay_packets new_handler (new_relay "p" 5) (6 ∷ 7 ∷ [])).1.sent * parts
    ≤ 100 * parts + (9 - 5) * 100
relay_sends_at_most_example =
    relay_sends_at_most new_handler "p" 5 9 (6 ∷ 7 ∷ []) (omega arith, (omega arith, omega arith))

abbrev session : SessionRecord
session = record {
  player_id = "p";
  runtime_id = "r";
  zone_id = "z";
  game_server_addr = "10.0.0.1:9000";
  created_at = 0;
  last_activity = 0;
  source_ip = "";
}

-- A client of Redis on a table: `SET` sends milliseconds, at least one, and `EXPIRE` seconds, at least
-- one; both are in nanoseconds here.
record Stored : Type 0 where
  value : SessionRecord
  expires_at : ℕ

abbrev in_units : ℕ → ℕ → ℕ
in_units unit d = if ltb d unit then unit else d / unit * unit

abbrev kept : ℕ → ℕ
kept = in_units 1_000_000

abbrev renewed : ℕ → ℕ
renewed = in_units 1_000_000_000

abbrev live : ℕ → Option Stored → Option SessionRecord
live now none = none
live now (some v) = if ltb now v.expires_at then some v.value else none

abbrev renew : Map String Stored → String → ℕ → ℕ → Option Stored → Map String Stored
renew c key ttl now none = c
renew c key ttl now (some v) =
    if ltb now v.expires_at then put c key (record v { expires_at = now + renewed ttl }) else c

abbrev table : Client (Map String Stored)
table = record {
  set = λ c key v ttl now. put c key (record { value = v; expires_at = now + kept ttl });
  read = λ c key now. live now (get c key);
  expire = λ c key ttl now. renew c key ttl now (get c key);
  del = λ c key. delete c key;
}

live-put :
    (c : Map String Stored) (key : String) (v : Stored) (now : ℕ)
    → live now (get (put c key v) key) ≡ live now (some v)
live-put c key v now = ap (live now) {y = some v} (ground (arith, get-put c key key v))

table_sets :
    (c : Map String Stored) (key : String) (v : SessionRecord) (ttl start now : ℕ)
    → (ttl == 0) ≡ false
    → start ≤ now
    → table.read (table.set c key v ttl start) key now
      ≡ (if ltb now (start + kept ttl) then some v else none)
table_sets c key v ttl start now t le =
    live-put c key (record { value = v; expires_at = start + kept ttl }) now

renew-live :
    (c : Map String Stored) (key : String) (v : SessionRecord) (ttl start now : ℕ)
    (o : Option Stored)
    → live start o ≡ some v
    → live now (get (renew c key ttl start o) key)
      ≡ (if ltb now (start + renewed ttl) then some v else none)
renew-live c key v ttl start now none h = cc
renew-live c key v ttl start now (some w) h = go (ltb start w.expires_at) h
  where
    next : Stored
    next = record w { expires_at = start + renewed ttl }

    go :
        (b : Bool)
        → (if b then some w.value else none) ≡ some v
        → live now (get (if b then put c key next else c) key)
          ≡ (if ltb now (start + renewed ttl) then some v else none)
    go true e =
        live-put c key next now ∙ ap (λ r. if ltb now (start + renewed ttl) then r else none) e
    go false e = cc

table_expires :
    (c : Map String Stored) (key : String) (v : SessionRecord) (ttl start now : ℕ)
    → (ttl == 0) ≡ false
    → table.read c key start ≡ some v
    → start ≤ now
    → table.read (table.expire c key ttl start) key now
      ≡ (if ltb now (start + renewed ttl) then some v else none)
table_expires c key v ttl start now t there le = renew-live c key v ttl start now (get c key) there

-- A time to live of one and a half seconds is renewed for one.
abbrev sessions : RedisSessionStore (Map String Stored)
sessions = record { client = []; ttl = 1_500_000_000 }

session_kept_example :
    (lookup table
      (Kept.lookups table (issue table sessions "t" session 5) "t" (1_200_000_000 ∷ []))
      "t"
      2_100_000_000).0
    ≡ some (Kept.issued session 5)
unfolding ℕ_discrete
session_kept_example =
    session_kept table kept renewed table_sets table_expires sessions "t" session 5
      (1_200_000_000 ∷ []) 2_100_000_000 refl (omega arith, omega arith, tt) (omega arith)
