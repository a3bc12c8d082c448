-- ===== src/Gateway/Store/Kept.antt =====
-- internal/gateway/store.go: how long a session is kept.
use spatial_server.Base.{
  ℕ, ◌+◌, ◌<◌, ◌≤◌, ◌≡◌, refl, ◌∙◌, false, Option, none, some, List, [], ◌∷◌, if◌then◌else◌, ltb,
  ◌==◌, String, nat_key, arith,
}
use spatial_server.Base.Text.{◌<>◌}
use spatial_server.Gateway.Store.{
  SessionRecord, Client, RedisSessionStore, session_key_prefix, issue, touch, looked_up, lookup,
}

-- The readings come one after the other, each before the session ends, which is `renewed` after the
-- reading before.
abbrev pub InTime : ℕ → ℕ → ℕ → List ℕ → Type 0
InTime renewed start until [] = Unit
InTime renewed start until (now ∷ times) =
    (start ≤ now) × (now < until) × InTime renewed now (now + renewed) times

-- The last reading, and when the session ends after it.
abbrev pub last_of : ℕ → List ℕ → ℕ
last_of start [] = start
last_of start (now ∷ times) = last_of now times

abbrev pub until_after : ℕ → ℕ → List ℕ → ℕ
until_after renewed until [] = until
until_after renewed until (now ∷ times) = until_after renewed (now + renewed) times

-- The record as `Issue` writes it.
abbrev pub issued : SessionRecord → ℕ → SessionRecord
issued rec now =
    let created = if rec.created_at == 0 then now else rec.created_at in
    record rec { created_at = created; last_activity = created }

module _ {R : Type 0} (redis : Client R) where
  -- Lookups at these readings, one after the other.
  unfoldable pub lookups : RedisSessionStore R → String → List ℕ → RedisSessionStore R
  lookups s token [] = s
  lookups s token (now ∷ times) = lookups (lookup redis s token now).1 token times

-- `SET` with an expiration that is not zero keeps the value for the span `kept`, and `EXPIRE` a value
-- that is there for the span `renewed`, from the time of the call on. The client sends the one in
-- milliseconds and the other in whole seconds.
module _ {R : Type 0} (redis : Client R) (kept renewed : ℕ → ℕ)
    (set_keeps : (c : R) (key : String) (v : SessionRecord) (ttl start now : ℕ)
      → (ttl == 0) ≡ false
      → start ≤ now
      → redis.read (redis.set c key v ttl start) key now
        ≡ (if ltb now (start + kept ttl) then some v else none))
    (expire_keeps : (c : R) (key : String) (v : SessionRecord) (ttl start now : ℕ)
      → (ttl == 0) ≡ false
      → redis.read c key start ≡ some v
      → start ≤ now
      → redis.read (redis.expire c key ttl start) key now
        ≡ (if ltb now (start + renewed ttl) then some v else none)) where
  -- From a time on, Redis holds the record for the token until another.
  abbrev Holds : R → String → SessionRecord → ℕ → ℕ → Type 0
  Holds c token rec start until =
      (now : ℕ)
      → start ≤ now
      → redis.read c (session_key_prefix <> token) now ≡ (if ltb now until then some rec else none)

  answer-looked_up :
      (s : RedisSessionStore R) (token : String) (now : ℕ) (o : Option SessionRecord)
      → (looked_up redis s token now o).0 ≡ o
  unfolding looked_up
  answer-looked_up s token now none = refl
  answer-looked_up s token now (some rec) = refl

  lookup-ttl :
      (s : RedisSessionStore R) (token : String) (now : ℕ) (o : Option SessionRecord)
      → (looked_up redis s token now o).1.ttl ≡ s.ttl
  unfolding looked_up touch
  lookup-ttl s token now none = refl
  lookup-ttl s token now (some rec) = refl

  lookup-Holds :
      (s : RedisSessionStore R) (token : String) (rec : SessionRecord) (ttl start until now : ℕ)
      → s.ttl ≡ ttl
      → (ttl == 0) ≡ false
      → start ≤ now
      → now < until
      → Holds s.client token rec start until
      → Holds (lookup redis s token now).1.client token rec now (now + renewed ttl)
  unfolding lookup
  lookup-Holds s token rec ttl start until now e t le lt h later after =
      let there : redis.read s.client (session_key_prefix <> token) now ≡ some rec =
        h now le ∙ ground arith in
      rw there (
        unfold looked_up touch in
        (rw e
          (expire_keeps s.client (session_key_prefix <> token) rec ttl now later t there after)))

  lookups-Holds :
      (s : RedisSessionStore R) (token : String) (rec : SessionRecord) (ttl start until : ℕ)
      (times : List ℕ)
      → s.ttl ≡ ttl
      → (ttl == 0) ≡ false
      → InTime (renewed ttl) start until times
      → Holds s.client token rec start until
      → Holds
          (lookups redis s token times).client
          token
          rec
          (last_of start times)
          (until_after (renewed ttl) until times)
  unfolding lookups lookup
  lookups-Holds s token rec ttl start until [] e t inside h = h
  lookups-Holds s token rec ttl start until (now ∷ times) e t (le, lt, inside) h =
      let found = redis.read s.client (session_key_prefix <> token) now in
      lookups-Holds (lookup redis s token now).1 token rec ttl now (now + renewed ttl) times
        (lookup-ttl s token now found ∙ e) t inside
        (lookup-Holds s token rec ttl start until now e t le lt h)

  issue-Holds :
      (s : RedisSessionStore R) (token : String) (rec : SessionRecord) (start : ℕ)
      → (s.ttl == 0) ≡ false
      → Holds
          (issue redis s token rec start).client
          token
          (issued rec start)
          start
          (start + kept s.ttl)
  unfolding issue
  issue-Holds s token rec start t now le =
      set_keeps s.client (session_key_prefix <> token) (issued rec start) s.ttl start now t le

  -- With a client of Redis whose `set` keeps a value for the span `kept` of its expiration, and whose
  -- `expire` keeps a value that is there for the span `renewed`: a session is found for `kept` of the
  -- time to live after it was issued, or for `renewed` of it after it was last looked up, and no
  -- longer. A lookup after lookups that each came in time, one after the other, finds the record as
  -- it was issued, its last activity with it, exactly if it comes in time too. The time to live is
  -- not zero.
  pub session_kept :
      (s : RedisSessionStore R) (token : String) (rec : SessionRecord) (start : ℕ) (times : List ℕ)
      (now : ℕ)
      → (s.ttl == 0) ≡ false
      → InTime (renewed s.ttl) start (start + kept s.ttl) times
      → last_of start times ≤ now
      → (lookup redis (lookups redis (issue redis s token rec start) token times) token now).0 ≡ (
          if ltb now (until_after (renewed s.ttl) (start + kept s.ttl) times)
          then some (issued rec start)
          else none)
  unfolding lookup
  session_kept s token rec start times now t inside le =
      let last = lookups redis (issue redis s token rec start) token times in
      answer-looked_up last token now (redis.read last.client (session_key_prefix <> token) now)
      ∙ lookups-Holds (issue redis s token rec start) token (issued rec start) s.ttl start
          (start + kept s.ttl) times (unfold issue in refl) t inside
          (issue-Holds s token rec start t) now le
