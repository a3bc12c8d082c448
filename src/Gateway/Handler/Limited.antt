-- ===== src/Gateway/Handler/Limited.antt =====
-- internal/gateway/relay.go: how many messages of one client a relay sends on.
use spatial_server.Base.{
  ℕ, ◌+◌, ◌-◌, ◌*◌, ◌≤◌, ◌≡◌, ap, List, [], ◌∷◌, if◌then◌else◌, String, arith,
}
use spatial_server.Gateway.Limits.{parts, allow_connection}
use spatial_server.Gateway.Limits.Admitted.{run, Forward, admits_at_most}
use spatial_server.Gateway.Handler.{Handler, Relay, relay_packet, relay_packets, new_relay}

relay_packet-limited :
    (h : Handler) (r : Relay) (now : ℕ)
    → ((relay_packet h r now).1.conn_limiter ≡ (allow_connection r.conn_limiter now).0)
      × ((relay_packet h r now).1.sent
          ≤ r.sent + (if (allow_connection r.conn_limiter now).1 then 1 else 0))
unfolding relay_packet
relay_packet-limited h r now = (ground arith, ground arith)

-- A relay sends on no more than its own limiter lets through.
relay_packets-limited :
    (h : Handler) (r : Relay) (times : List ℕ)
    → (relay_packets h r times).1.sent ≤ r.sent + (run r.conn_limiter times).1
unfolding relay_packets run
relay_packets-limited h r [] = omega arith
relay_packets-limited h r (now ∷ times) =
    let next = relay_packet h r now in
    let one = relay_packet-limited h r now in
    let rest = relay_packets-limited next.0 next.1 times in
    omega (arith, rest, one.1, ap (λ l. (run l times).1) one.0)

-- Between its start and the reading `last`, a relay sends on at most 100 messages and 100 for each
-- second between, counted in billionths of a message, whatever the state of the handler at its
-- start, for messages at any readings that do not go back.
pub relay_sends_at_most :
    (h : Handler) (client : String) (start last : ℕ) (times : List ℕ)
    → Forward start times last
    → (relay_packets h (new_relay client start) times).1.sent * parts
      ≤ 100 * parts + (last - start) * 100
unfolding new_relay
relay_sends_at_most h client start last times f = omega (
  arith,
  relay_packets-limited h (new_relay client start) times,
  admits_at_most 100 100 start last times f,
)
