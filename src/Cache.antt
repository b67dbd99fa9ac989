-- ===== src/Cache.antt =====
-- pkg/cache/redis.go: the Redis client. go-redis is a parameter, `Redis`. `S` is the state of the
-- server behind it.
pub mod Laws
use ginblade.Http.{Entry, info, str, integer}
use ginblade.Prelude.{
  List, [], ◌∷◌, String, Option, none, some, is_empty, trim_space, if◌then◌else◌,
}
use ginblade.Prelude.Int.{ℤ}
use ginblade.Errors.{GoError, plain, wrap, Result, ok, err}
use ginblade.Context.{Context, background}
use ginblade.Database.{wrapped}

-- RedisConfig
pub record RedisConfig : Type 0 where
  pub addr : String
  pub password : String
  pub db : ℤ

-- What rdb.Get(ctx, key).Result() answers; `missing` is redis.Nil.
pub data GetResult : Type 0 where
  found : String → GetResult
  missing : GetResult
  failed : GoError → GetResult

pub record Redis (S : Type 0) : Type 1 where
  -- *redis.Client
  pub Conn : Type 0
  pub new_client : RedisConfig → Conn
  pub ping : Conn → Context → S → Option GoError
  pub get : Conn → Context → String → S → GetResult
  pub set : Conn → Context → String → String → ℤ → S → Option GoError × S
  pub close : Conn → S → Option GoError × S

abbrev pub connected_entry : RedisConfig → Entry
connected_entry cfg = record {
  level = info;
  message = "redis connection successful";
  trace = "";
  fields = str "addr" cfg.addr ∷ integer "db" cfg.db ∷ [];
}

abbrev pub not_configured : GoError
not_configured = plain "redis client is not configured"

module _ {S : Type 0} (redis : Redis S) where
  -- Client; a nil *Client is `none` of an option.
  pub record Client : Type 0 where
    pub rdb : Option redis.Conn

  -- Underlying
  unfoldable pub underlying : Option Client → Option redis.Conn
  underlying none = none
  underlying (some c) = c.rdb

  abbrev verified : RedisConfig → redis.Conn → Option GoError → Result Client × List Entry
  verified cfg conn none = (ok (record { rdb = some conn }), connected_entry cfg ∷ [])
  verified cfg conn (some e) = (err (wrap "connect to redis" e), [])

  -- NewClient, with what it logs
  unfoldable pub new_client : RedisConfig → S → Result Client × List Entry
  new_client cfg s =
      if is_empty (trim_space cfg.addr)
      then (err (plain "redis address is required"), [])
      else let conn = redis.new_client cfg in verified cfg conn (redis.ping conn background s)

  abbrev ping_conn : Option redis.Conn → Context → S → Option GoError
  ping_conn none ctx s = some not_configured
  ping_conn (some conn) ctx s = wrapped "ping redis" (redis.ping conn ctx s)

  -- Ping
  unfoldable pub ping : Option Client → Context → S → Option GoError
  ping c ctx s = ping_conn (underlying c) ctx s

  abbrev pub close_conn : Option redis.Conn → S → Option GoError × S
  close_conn none s = (none, s)
  close_conn (some conn) s = redis.close conn s

  -- Close
  unfoldable pub close : Option Client → S → Option GoError × S
  close c s = close_conn (underlying c) s

  abbrev value_of : GetResult → Result String
  value_of (found v) = ok v
  value_of missing = ok ""
  value_of (failed e) = err (wrap "redis get" e)

  abbrev get_conn : Option redis.Conn → Context → String → S → Result String
  get_conn none ctx key s = err not_configured
  get_conn (some conn) ctx key s = value_of (redis.get conn ctx key s)

  -- Get
  unfoldable pub get : Option Client → Context → String → S → Result String
  get c ctx key s = get_conn (underlying c) ctx key s

  abbrev set_result : Option GoError × S → Option GoError × S
  set_result (e, s) = (wrapped "redis set" e, s)

  abbrev set_conn : Option redis.Conn → Context → String → String → ℤ → S → Option GoError × S
  set_conn none ctx key value ttl s = (some not_configured, s)
  set_conn (some conn) ctx key value ttl s = set_result (redis.set conn ctx key value ttl s)

  -- Set
  unfoldable pub set : Option Client → Context → String → String → ℤ → S → Option GoError × S
  set c ctx key value ttl s = set_conn (underlying c) ctx key value ttl s
