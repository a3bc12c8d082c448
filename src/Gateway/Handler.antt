-- ===== src/Gateway/Handler.antt =====
-- internal/gateway/handler.go and relay.go: the requests of the clients, and what becomes of them.
pub mod Counted
pub mod Limited
use spatial_server.Base.{
  ℕ, ◌+◌, ◌-◌, Bool, true, false, Option, none, some, List, [], ◌∷◌, if◌then◌else◌, ◌==◌, ◌&&◌, not,
  leb, String, string_key, nat_key, Map, get, put, delete, remove_first,
}
use spatial_server.Gateway.Pool.{Pool, new_pool, new_session, add, remove}
use spatial_server.Gateway.Limits.{
  ConnectionLimiter, IpLimiter, new_connection_limiter, new_ip_limiter, allow_connection, allow_ip,
}

-- `Claims` of internal/auth/auth.go.
pub record Claims : Type 0 where
  pub runtime_id : String
  pub player_id : String
  pub zone_id : String

-- `ready_fn` is what the function answers when it is called; it may be nil. `conns` is an int64.
pub record Handler : Type 0 where
  pub pool : Pool
  pub draining : Bool
  pub conns : ℕ
  pub soft_limit : ℕ
  pub ready_fn : Option Bool
  pub ip_limiter : IpLimiter

unfoldable pub new_handler : Handler
unfolding new_pool new_ip_limiter
new_handler = record {
  pool = new_pool;
  draining = false;
  conns = 0;
  soft_limit = 9000;
  ready_fn = none;
  ip_limiter = new_ip_limiter 500 500;
}

abbrev pub status_ok : ℕ
status_ok = 200

abbrev pub status_bad_request : ℕ
status_bad_request = 400

abbrev pub status_unauthorized : ℕ
status_unauthorized = 401

abbrev pub status_method_not_allowed : ℕ
status_method_not_allowed = 405

abbrev pub status_unavailable : ℕ
status_unavailable = 503

-- The handlers by the status code of their response.
unfoldable pub handle_health : String → ℕ
handle_health method = if not (method == "GET") then status_method_not_allowed else status_ok

unfoldable pub handle_live : String → ℕ
handle_live method = if not (method == "GET") then status_method_not_allowed else status_ok

is_unready : Option Bool → Bool
is_unready none = false
is_unready (some ready) = not ready

unfoldable pub handle_ready : Handler → String → ℕ
unfolding is_unready
handle_ready h method =
    if not (method == "GET")
    then status_method_not_allowed
    else if h.draining
    then status_unavailable
    else if is_unready h.ready_fn
    then status_unavailable
    else if leb h.soft_limit h.conns
    then status_unavailable
    else status_ok

unfoldable pub set_draining : Handler → Bool → Handler
set_draining h draining = record h { draining = draining }

-- `handleWS` runs beside other requests. Its first part ends when it is counted; `validate` is
-- `auth.ValidateToken` with the secret.
pub data Begun : Type 0 where
  rejected : ℕ → Begun
  admitted : Claims → Begun

validated : Handler → Option Claims → Begun × Handler
validated h none = (rejected status_unauthorized, h)
validated h (some claims) = (admitted claims, record h { conns = h.conns + 1 })

unfoldable pub begin_ws : (String → Option Claims) → Handler → String → Begun × Handler
unfolding validated
begin_ws validate h token =
    if h.draining
    then (rejected status_unavailable, h)
    else if token == ""
    then (rejected status_bad_request, h)
    else validated h (validate token)

-- The second part, from the answers of `LookupZone` and `Accept`: the address for the relay, if it
-- is started. The deferred call takes the request out of the count.
unfoldable pub finish_ws : Handler → Claims → Option String → Bool → Option String × Handler
unfolding add new_session
finish_ws h claims none accepted = (none, record h { conns = h.conns - 1 })
finish_ws h claims (some addr) false = (none, record h { conns = h.conns - 1 })
finish_ws h claims (some addr) true = (
  some addr,
  record h {
    pool = add h.pool (new_session claims.player_id claims.player_id claims.zone_id "");
    conns = h.conns - 1;
  },
)

-- `relayWS` as it ends.
unfoldable pub end_relay : Handler → String → Handler
unfolding remove
end_relay h client_id = record h { pool = remove h.pool client_id }

-- A relay as it reads from its client: its own limiter, that of the handler, and the packets that it
-- has sent on. The key for the limiter of the handler is the client's identifier.
pub record Relay : Type 0 where
  pub client_id : String
  pub conn_limiter : ConnectionLimiter
  pub sent : ℕ

unfoldable pub new_relay : String → ℕ → Relay
unfolding new_connection_limiter
new_relay client_id now = record {
  client_id = client_id;
  conn_limiter = new_connection_limiter 100 100 now;
  sent = 0;
}

-- One message of the client, at the reading `now`; sending it on succeeds.
unfoldable pub relay_packet : Handler → Relay → ℕ → Handler × Relay
unfolding allow_connection allow_ip
relay_packet h r now =
    let c = allow_connection r.conn_limiter now in
    let i = allow_ip h.ip_limiter r.client_id now in
    if not c.1
    then (h, record r { conn_limiter = c.0 })
    else if not i.1
    then (record h { ip_limiter = i.0 }, record r { conn_limiter = c.0 })
    else (record h { ip_limiter = i.0 }, record r { conn_limiter = c.0; sent = r.sent + 1 })

-- The handler among its requests and relays: the requests that are counted, by a number for each,
-- and the clients of the relays that run.
pub record Gateway : Type 0 where
  pub handler : Handler
  pub in_flight : Map ℕ Claims
  pub relays : List String

-- What happens to it, in any order.
pub data Event : Type 0 where
  requesting : ℕ → String → Event
  answering : ℕ → Option String → Bool → Event
  ending : String → Event
  setting_draining : Bool → Event

requested : Gateway → ℕ → Begun × Handler → Gateway
requested g id (rejected code, h) = record g { handler = h }
requested g id (admitted claims, h) = record g {
  handler = h;
  in_flight = put g.in_flight id claims;
}

relaying : String → Option String → List String → List String
relaying client none relays = relays
relaying client (some addr) relays = client ∷ relays

answered : Gateway → ℕ → Option String → Bool → Option Claims → Gateway
unfolding finish_ws relaying
answered g id addr accepted none = g
answered g id addr accepted (some claims) =
    let r = finish_ws g.handler claims addr accepted in
    record {
      handler = r.1;
      in_flight = delete g.in_flight id;
      relays = relaying claims.player_id r.0 g.relays;
    }

-- A request has a number that no other in flight has.
numbered : (String → Option Claims) → Gateway → ℕ → String → Option Claims → Gateway
unfolding requested begin_ws
numbered validate g id token (some taken) = g
numbered validate g id token none = requested g id (begin_ws validate g.handler token)

unfoldable pub step : (String → Option Claims) → Gateway → Event → Gateway
unfolding numbered answered end_relay set_draining
step validate g (requesting id token) = numbered validate g id token (get g.in_flight id)
step validate g (answering id addr accepted) = answered g id addr accepted (get g.in_flight id)
step validate g (ending client) = record g {
  handler = end_relay g.handler client;
  relays = remove_first client g.relays;
}
step validate g (setting_draining draining) = record g { handler = set_draining g.handler draining }

unfoldable pub steps : (String → Option Claims) → Gateway → List Event → Gateway
unfolding step
steps validate g [] = g
steps validate g (e ∷ events) = steps validate (step validate g e) events

unfoldable pub relay_packets : Handler → Relay → List ℕ → Handler × Relay
unfolding relay_packet
relay_packets h r [] = (h, r)
relay_packets h r (now ∷ times) =
    let next = relay_packet h r now in relay_packets next.0 next.1 times
