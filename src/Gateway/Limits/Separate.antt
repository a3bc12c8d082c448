-- ===== src/Gateway/Limits/Separate.antt =====
-- internal/gateway/ratelimit.go: the addresses of an `ipLimiter` do not share their buckets.
use spatial_server.Base.{
  ℕ, ◌≡◌, refl, ◌∙◌, Option, none, some, List, [], ◌∷◌, if◌then◌else◌, ◌==◌, String, string_key,
  get, get-put, arith,
}
use spatial_server.Gateway.Limits.{TokenBucket, allow, loaded, IpLimiter, new_ip_limiter, allow_ip}

-- A call of an address, at a reading.
pub record Call : Type 0 where
  pub ip : String
  pub now : ℕ

unfoldable pub run : IpLimiter → List Call → IpLimiter
run l [] = l
run l (c ∷ cs) = run (allow_ip l c.ip c.now).0 cs

-- One address on its own: its bucket, if it has one, after its own calls among these.
abbrev pub alone : ℕ → ℕ → String → Option TokenBucket → List Call → Option TokenBucket
alone rate burst ip o [] = o
alone rate burst ip o (c ∷ cs) =
    if c.ip == ip
    then alone rate burst ip (some (allow (loaded rate burst c.now o) c.now).0) cs
    else alone rate burst ip o cs

step :
    (l : IpLimiter) (ip other : String) (now : ℕ)
    → (get (allow_ip l ip now).0.buckets other ≡ (
        if ip == other
        then some (allow (loaded l.rate l.burst now (get l.buckets other)) now).0
        else get l.buckets other))
      × ((allow_ip l ip now).0.rate ≡ l.rate)
      × ((allow_ip l ip now).0.burst ≡ l.burst)
unfolding allow_ip
step l ip other now =
    ground (
      arith,
      get-put l.buckets ip other (allow (loaded l.rate l.burst now (get l.buckets ip)) now).0,
    )

apart :
    (l : IpLimiter) (calls : List Call) (ip : String)
    → get (run l calls).buckets ip ≡ alone l.rate l.burst ip (get l.buckets ip) calls
unfolding run
apart l [] ip = refl
apart l (c ∷ cs) ip =
    let (bucket, rate, burst) = step l c.ip ip c.now in
    apart (allow_ip l c.ip c.now).0 cs ip ∙ rw (rate, burst, bucket) (ground arith)

run_rates :
    (l : IpLimiter) (calls : List Call)
    → ((run l calls).rate ≡ l.rate) × ((run l calls).burst ≡ l.burst)
unfolding run
run_rates l [] = (refl, refl)
run_rates l (c ∷ cs) =
    let (bucket, rate, burst) = step l c.ip c.ip c.now in
    let (rates, bursts) = run_rates (allow_ip l c.ip c.now).0 cs in (rates ∙ rate, bursts ∙ burst)

decides :
    (l : IpLimiter) (ip : String) (now : ℕ)
    → (allow_ip l ip now).1 ≡ (allow (loaded l.rate l.burst now (get l.buckets ip)) now).1
unfolding allow_ip
decides l ip now = ground arith

-- What an `ipLimiter` decides for an address, after any calls of any addresses, is what a bucket of
-- that address alone decides after the calls of that address alone.
pub addresses_apart :
    (rate burst : ℕ) (calls : List Call) (ip : String) (now : ℕ)
    → (allow_ip (run (new_ip_limiter rate burst) calls) ip now).1
      ≡ (allow (loaded rate burst now (alone rate burst ip none calls)) now).1
unfolding new_ip_limiter get
addresses_apart rate burst calls ip now =
    let l = run (new_ip_limiter rate burst) calls in
    let (rates, bursts) = run_rates (new_ip_limiter rate burst) calls in
    decides l ip now ∙ rw (rates, bursts, apart (new_ip_limiter rate burst) calls ip) refl
