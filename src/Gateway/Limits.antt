-- ===== src/Gateway/Limits.antt =====
-- internal/gateway/ratelimit.go: the token buckets that limit connections and addresses.
pub mod Admitted
pub mod Separate
use spatial_server.Base.{
  ℕ, ◌+◌, ◌-◌, ◌*◌, Bool, true, false, Option, none, some, List, [], ◌∷◌, if◌then◌else◌, ltb,
  String, string_key, Map, get, put,
}

-- A token is 10 ^ 9 parts, so that a rate of tokens per second times a time in nanoseconds is a
-- number of parts: the arithmetic is exact where the source rounds to float64.
abbrev pub parts : ℕ
parts = 1_000_000_000

-- `rate` is tokens per second; `tokens` and `burst` are parts; `last_time` is in nanoseconds.
pub record TokenBucket : Type 0 where
  pub tokens : ℕ
  pub rate : ℕ
  pub burst : ℕ
  pub last_time : ℕ

-- `newTokenBucket`, for a burst of whole tokens, at the reading `now`.
unfoldable pub new_token_bucket : ℕ → ℕ → ℕ → TokenBucket
new_token_bucket rate burst now = record {
  tokens = burst * parts;
  rate = rate;
  burst = burst * parts;
  last_time = now;
}

abbrev pub capped : ℕ → ℕ → ℕ
capped tokens burst = if ltb burst tokens then burst else tokens

-- The tokens after the refill. The readings of the monotonic clock never go back.
unfoldable pub refilled : TokenBucket → ℕ → ℕ
refilled b now = capped (b.tokens + (now - b.last_time) * b.rate) b.burst

-- `allow`, at the reading `now`
unfoldable pub allow : TokenBucket → ℕ → TokenBucket × Bool
unfolding refilled
allow b now =
    let tokens = refilled b now in
    if ltb tokens parts
    then (record b { tokens = tokens; last_time = now }, false)
    else (record b { tokens = tokens - parts; last_time = now }, true)

pub record ConnectionLimiter : Type 0 where
  pub bucket : TokenBucket
  pub drops : ℕ

unfoldable pub new_connection_limiter : ℕ → ℕ → ℕ → ConnectionLimiter
unfolding new_token_bucket
new_connection_limiter rate burst now = record {
  bucket = new_token_bucket rate burst now;
  drops = 0;
}

unfoldable pub allow_connection : ConnectionLimiter → ℕ → ConnectionLimiter × Bool
unfolding allow
allow_connection l now =
    let r = allow l.bucket now in
    if r.1
    then (record l { bucket = r.0 }, true)
    else (record { bucket = r.0; drops = l.drops + 1 }, false)

pub record IpLimiter : Type 0 where
  pub buckets : Map String TokenBucket
  pub rate : ℕ
  pub burst : ℕ
  pub drops : ℕ

unfoldable pub new_ip_limiter : ℕ → ℕ → IpLimiter
new_ip_limiter rate burst = record { buckets = []; rate = rate; burst = burst; drops = 0 }

-- `LoadOrStore`: a new address gets a full bucket.
unfoldable pub loaded : ℕ → ℕ → ℕ → Option TokenBucket → TokenBucket
unfolding new_token_bucket
loaded rate burst now none = new_token_bucket rate burst now
loaded rate burst now (some b) = b

unfoldable pub allow_ip : IpLimiter → String → ℕ → IpLimiter × Bool
unfolding allow loaded
allow_ip l ip now =
    let r = allow (loaded l.rate l.burst now (get l.buckets ip)) now in
    if r.1
    then (record l { buckets = put l.buckets ip r.0 }, true)
    else (record l { buckets = put l.buckets ip r.0; drops = l.drops + 1 }, false)
