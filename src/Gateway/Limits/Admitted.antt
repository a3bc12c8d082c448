-- ===== src/Gateway/Limits/Admitted.antt =====
-- internal/gateway/ratelimit.go: how many calls a bucket lets through.
use native.Mathlib.Nat.{add-mul}
use spatial_server.Base.{
  sym, ap, ◌∙◌, subst, ℕ, ◌+◌, ◌-◌, ◌*◌, ◌≤◌, ◌≡◌, Bool, true, false, List, [], ◌∷◌, if◌then◌else◌,
  arith,
}
use spatial_server.Gateway.Limits.{
  parts, refilled, allow, ConnectionLimiter, allow_connection, new_connection_limiter,
  new_token_bucket,
}

-- The limiter after calls at these readings, and how many calls it let through.
unfoldable pub run : ConnectionLimiter → List ℕ → ConnectionLimiter × ℕ
run l [] = (l, 0)
run l (now ∷ rest) =
    let r = allow_connection l now in let s = run r.0 rest in (s.0, (if r.1 then 1 else 0) + s.1)

-- The readings do not go back, and end at the last argument.
abbrev pub Forward : ℕ → List ℕ → ℕ → Type 0
Forward t [] last = t ≤ last
Forward t (now ∷ rest) last = (t ≤ now) × Forward now rest last

Forward-le : (t : ℕ) (calls : List ℕ) (last : ℕ) → Forward t calls last → t ≤ last
Forward-le t [] last f = f
Forward-le t (now ∷ rest) last f = omega (arith, Forward-le now rest last f.1)

-- One call never creates tokens: what it lets through is paid from the bucket or the refill.
paid :
    (l : ConnectionLimiter) (now : ℕ)
    → (if (allow_connection l now).1 then parts else 0) + (allow_connection l now).0.bucket.tokens
      ≤ l.bucket.tokens + (now - l.bucket.last_time) * l.bucket.rate
unfolding allow_connection allow refilled
paid l now = ground arith

kept :
    (l : ConnectionLimiter) (now : ℕ)
    → ((allow_connection l now).0.bucket.rate ≡ l.bucket.rate)
      × ((allow_connection l now).0.bucket.last_time ≡ now)
unfolding allow_connection allow
kept l now = ground arith

span : (a b c r : ℕ) → a ≤ b → b ≤ c → (b - a) * r + (c - b) * r ≡ (c - a) * r
span a b c r le le' = sym (add-mul (b - a) (c - b) r) ∙ ap (λ d. d * r) (omega arith)

total : (p n : ℕ) (b : Bool) → ((if b then 1 else 0) + n) * p ≡ (if b then p else 0) + n * p
total p n true = omega arith
total p n false = omega arith

spent :
    (l : ConnectionLimiter) (calls : List ℕ) (last : ℕ)
    → Forward l.bucket.last_time calls last
    → (run l calls).1 * parts + (run l calls).0.bucket.tokens
      ≤ l.bucket.tokens + (last - l.bucket.last_time) * l.bucket.rate
unfolding run
spent l [] last f = omega arith
spent l (now ∷ rest) last f =
    let m = (allow_connection l now).0 in
    let (rate, time) = kept l now in
    let later = spent m rest last (rw time f.1) in
    omega (
      arith,
      subst
          (λ t.
            (run m rest).1 * parts + (run m rest).0.bucket.tokens
            ≤ m.bucket.tokens + (last - t) * m.bucket.rate)
          time later,
      ap (λ r. (last - now) * r) rate,
      span l.bucket.last_time now last l.bucket.rate f.0 (Forward-le now rest last f.1),
      paid l now,
      total parts (run m rest).1 (allow_connection l now).1,
    )

-- Between its start and the reading `last`, a new limiter lets through at most its burst and what
-- the rate allows in that time, in tokens, over calls at any readings that do not go back.
pub admits_at_most :
    (rate burst start last : ℕ) (calls : List ℕ)
    → Forward start calls last
    → (run (new_connection_limiter rate burst start) calls).1 * parts
      ≤ burst * parts + (last - start) * rate
unfolding new_connection_limiter new_token_bucket
admits_at_most rate burst start last calls f =
    omega (arith, spent (new_connection_limiter rate burst start) calls last f)

-- A call that comes at least one token's time after the call before it is let through, in any state
-- of a bucket that can hold a token.
pub spaced_call_passes :
    (l : ConnectionLimiter) (now : ℕ)
    → parts ≤ l.bucket.burst
    → parts ≤ (now - l.bucket.last_time) * l.bucket.rate
    → ((allow_connection l now).1 ≡ true) × ((allow_connection l now).0.drops ≡ l.drops)
unfolding allow_connection allow refilled
spaced_call_passes l now fits waited = ground arith
