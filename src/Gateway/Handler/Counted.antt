-- ===== src/Gateway/Handler/Counted.antt =====
-- internal/gateway/handler.go: what the number of connections counts.
use spatial_server.Base.{
  ℕ, ◌+◌, ◌-◌, ◌≡◌, refl, ◌∙◌, ap, Bool, true, false, Option, none, some, List, [], ◌∷◌,
  if◌then◌else◌, ◌==◌, String, nat_key, string_key, Map, get, put, delete, length, keys, elem,
  NodupKeys, put-NodupKeys, delete-NodupKeys, arith, Bool-cases, inl, inr,
}
use spatial_server.Gateway.Handler.{
  Handler, Claims, Gateway, Event, requesting, answering, ending, setting_draining, rejected,
  begin_ws, validated, finish_ws, requested, answered, numbered, step, steps, new_handler,
  status_unavailable, status_bad_request, end_relay, set_draining,
}

module _ {V : Type 0} where
  length-put_new :
      (m : Map ℕ V) (k : ℕ) (v : V) → get m k ≡ none → length (put m k v) ≡ length m + 1
  unfolding get put
  length-put_new [] k v h = refl
  length-put_new ((j, w) ∷ m) k v h = elim (Bool-cases (j == k)) [
    | inl same ↦ cc
    | inr other ↦ rw other (omega (arith, length-put_new m k v (ground arith)))
  ]

  delete-absent : (m : Map ℕ V) (k : ℕ) → elem k (keys m) ≡ false → delete m k ≡ m
  unfolding delete keys elem
  delete-absent [] k h = refl
  delete-absent ((j, w) ∷ m) k h = ground (arith, delete-absent m k)

  length-delete :
      (m : Map ℕ V) (k : ℕ) (v : V)
      → NodupKeys m
      → get m k ≡ some v
      → length (delete m k) + 1 ≡ length m
  unfolding get delete keys elem
  length-delete [] k v d h = cc
  length-delete ((j, w) ∷ m) k v d h = elim (Bool-cases (j == k)) [
    | inl same ↦
        rw same (ap (λ m. length m + 1) (delete-absent m k (ground (arith, d.0))) ∙ omega arith)
    | inr other ↦ rw other (omega (arith, length-delete m k v d.1 (ground arith)))
  ]

-- Each request that is counted is in flight, and has a number of its own.
abbrev pub IsCounted : Gateway → Type 0
IsCounted g = (g.handler.conns ≡ length g.in_flight) × NodupKeys g.in_flight

validated-IsCounted :
    (g : Gateway) (id : ℕ) (c : Option Claims)
    → get g.in_flight id ≡ none
    → IsCounted g
    → IsCounted (requested g id (validated g.handler c))
unfolding requested validated
validated-IsCounted g id none free (n, d) = (n, d)
validated-IsCounted g id (some claims) free (n, d) = (
  omega (arith, n, length-put_new g.in_flight id claims free),
  put-NodupKeys g.in_flight id claims d,
)

checked-IsCounted :
    (g : Gateway) (id : ℕ) (draining empty : Bool) (c : Option Claims)
    → get g.in_flight id ≡ none
    → IsCounted g
    → IsCounted (
        requested g id (
          if draining
          then (rejected status_unavailable, g.handler)
          else if empty
          then (rejected status_bad_request, g.handler)
          else validated g.handler c))
unfolding requested
checked-IsCounted g id true empty c free h = h
checked-IsCounted g id false true c free h = h
checked-IsCounted g id false false c free h = validated-IsCounted g id c free h

begun-IsCounted :
    (validate : String → Option Claims) (g : Gateway) (id : ℕ) (token : String)
    → get g.in_flight id ≡ none
    → IsCounted g
    → IsCounted (requested g id (begin_ws validate g.handler token))
unfolding begin_ws
begun-IsCounted validate g id token free h =
    checked-IsCounted g id g.handler.draining (token == "") (validate token) free h

numbered-IsCounted :
    (validate : String → Option Claims) (g : Gateway) (id : ℕ) (token : String) (o : Option Claims)
    → get g.in_flight id ≡ o
    → IsCounted g
    → IsCounted (numbered validate g id token o)
unfolding numbered
numbered-IsCounted validate g id token none free c = begun-IsCounted validate g id token free c
numbered-IsCounted validate g id token (some taken) free c = c

finish_ws-conns :
    (h : Handler) (claims : Claims) (addr : Option String) (accepted : Bool)
    → (finish_ws h claims addr accepted).1.conns ≡ h.conns - 1
unfolding finish_ws
finish_ws-conns h claims none accepted = refl
finish_ws-conns h claims (some addr) false = refl
finish_ws-conns h claims (some addr) true = refl

answered-IsCounted :
    (g : Gateway) (id : ℕ) (addr : Option String) (accepted : Bool) (o : Option Claims)
    → get g.in_flight id ≡ o
    → IsCounted g
    → IsCounted (answered g id addr accepted o)
unfolding answered
answered-IsCounted g id addr accepted none there c = c
answered-IsCounted g id addr accepted (some claims) there (n, d) = (
  omega (
    arith,
    n,
    finish_ws-conns g.handler claims addr accepted,
    length-delete g.in_flight id claims d there,
  ),
  delete-NodupKeys g.in_flight id d,
)

step-IsCounted :
    (validate : String → Option Claims) (g : Gateway) (e : Event)
    → IsCounted g
    → IsCounted (step validate g e)
unfolding step end_relay set_draining
step-IsCounted validate g (requesting id token) c =
    numbered-IsCounted validate g id token (get g.in_flight id) refl c
step-IsCounted validate g (answering id addr accepted) c =
    answered-IsCounted g id addr accepted (get g.in_flight id) refl c
step-IsCounted validate g (ending client) c = c
step-IsCounted validate g (setting_draining draining) c = c

steps-IsCounted :
    (validate : String → Option Claims) (g : Gateway) (events : List Event)
    → IsCounted g
    → IsCounted (steps validate g events)
unfolding steps
steps-IsCounted validate g [] c = c
steps-IsCounted validate g (e ∷ events) c =
    steps-IsCounted validate (step validate g e) events (step-IsCounted validate g e c)

abbrev pub idle : Gateway
idle = record { handler = new_handler; in_flight = []; relays = [] }

-- In whichever order requests come in, are answered and relays end, the number of connections of the
-- handler is the number of the requests that are in flight. A relay that runs is not in it.
pub conns_count_requests :
    (validate : String → Option Claims) (events : List Event)
    → (steps validate idle events).handler.conns ≡ length (steps validate idle events).in_flight
unfolding new_handler keys
conns_count_requests validate events = (steps-IsCounted validate idle events (refl, tt)).0
