-- ===== src/Gateway/Store.antt =====
-- internal/gateway/store.go and token.go: the sessions in Redis. The client of Redis is a parameter; a
-- record that is read back is the one that was written, and errors of Redis and of the random source
-- are not modelled.
pub mod Kept
use spatial_server.Base.{ℕ, Option, none, some, if◌then◌else◌, ◌==◌, String, nat_key}
use spatial_server.Base.Text.{◌<>◌}

abbrev pub session_key_prefix : String
session_key_prefix = "session:"

-- A time of 0 is the zero time.
pub record SessionRecord : Type 0 where
  pub player_id : String
  pub runtime_id : String
  pub zone_id : String
  pub game_server_addr : String
  pub created_at : ℕ
  pub last_activity : ℕ
  pub source_ip : String

-- The calls of the client of Redis that the store makes, on what Redis holds. The last number is the
-- time of the call; the one before is the expiration.
pub record Client (R : Type 0) : Type 0 where
  pub set : R → String → SessionRecord → ℕ → ℕ → R
  pub read : R → String → ℕ → Option SessionRecord
  pub expire : R → String → ℕ → ℕ → R
  pub del : R → String → R

pub record RedisSessionStore (R : Type 0) : Type 0 where
  pub client : R
  pub ttl : ℕ

module _ {R : Type 0} (redis : Client R) where
  -- `Issue`, for the token that `GenerateToken` gave.
  unfoldable pub issue : RedisSessionStore R → String → SessionRecord → ℕ → RedisSessionStore R
  issue s token rec now =
      let created = if rec.created_at == 0 then now else rec.created_at in
      record s {
        client =
            redis.set s.client (session_key_prefix <> token)
              (record rec { created_at = created; last_activity = created }) s.ttl now;
      }

  unfoldable pub touch : RedisSessionStore R → String → ℕ → RedisSessionStore R
  touch s token now = record s {
    client = redis.expire s.client (session_key_prefix <> token) s.ttl now;
  }

  looked_up :
      RedisSessionStore R
      → String
      → ℕ
      → Option SessionRecord
      → Option SessionRecord × RedisSessionStore R
  unfolding touch
  looked_up s token now none = (none, s)
  looked_up s token now (some rec) = (some rec, touch s token now)

  unfoldable pub lookup :
      RedisSessionStore R → String → ℕ → Option SessionRecord × RedisSessionStore R
  unfolding looked_up
  lookup s token now = looked_up s token now (redis.read s.client (session_key_prefix <> token) now)

  unfoldable pub revoke : RedisSessionStore R → String → RedisSessionStore R
  revoke s token = record s { client = redis.del s.client (session_key_prefix <> token) }
