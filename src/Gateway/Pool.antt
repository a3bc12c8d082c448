-- ===== src/Gateway/Pool.antt =====
-- internal/session/session.go: the sessions of the clients that are connected.
use spatial_server.Base.{
  ℕ, Bool, true, false, Option, length, String, string_key, Map, get, put, delete, [],
}
use spatial_server.Types.{ZoneId, ServerId}

pub record Session : Type 0 where
  pub client_id : String
  pub player_id : String
  pub zone_id : ZoneId
  pub server_id : ServerId
  pub closed : Bool

unfoldable pub new_session : String → String → ZoneId → ServerId → Session
new_session client_id player_id zone_id server_id = record {
  client_id = client_id;
  player_id = player_id;
  zone_id = zone_id;
  server_id = server_id;
  closed = false;
}

unfoldable pub close : Session → Session
close s = record s { closed = true }

pub record Pool : Type 0 where
  pub by_id : Map String Session

unfoldable pub new_pool : Pool
new_pool = record { by_id = [] }

unfoldable pub add : Pool → Session → Pool
add p s = record { by_id = put p.by_id s.client_id s }

unfoldable pub find : Pool → String → Option Session
find p client_id = get p.by_id client_id

unfoldable pub remove : Pool → String → Pool
remove p client_id = record { by_id = delete p.by_id client_id }

unfoldable pub count : Pool → ℕ
count p = length p.by_id
