-- ===== src/Bootstrap.antt =====
-- internal/bootstrap: the resources of a process. `S` is the state of the drivers, whose interfaces
-- are parameters: Sql (gorm and database/sql), Redis (go-redis) and Asynq.
pub mod Closing
pub mod Starting
use ginblade.Http.{Entry}
use ginblade.Prelude.{
  String, Bool, true, false, Option, none, some, List, [], ◌∷◌, ◌++◌, is_empty, trim_space,
  if◌then◌else◌,
}
use ginblade.Prelude.Int.{ℤ}
use ginblade.Errors.{GoError, plain, wrap, Result, ok, err, join_errors}
use ginblade.Context.{Db}
use ginblade.Config.Types.{Config}
use ginblade.Auth.{JwtManager, new_jwt_manager}
use ginblade.Log
use ginblade.Database
use ginblade.Database.{DbManager, Sql, db_of}
use ginblade.Cache
use ginblade.Cache.{Redis, Client}
use ginblade.TaskQueue
use ginblade.TaskQueue.{Queue, new_queue}
use ginblade.Worker.{RedisClientOpt}

-- *asynq.Client
pub record AsynqClient (S : Type 0) : Type 0 where
  pub enqueue : TaskQueue.Client S
  pub close : S → Option GoError × S

-- asynq.NewClient
abbrev pub Asynq : Type 0 → Type 0
Asynq S = RedisClientOpt → AsynqClient S

abbrev pub queue_client_function :
    {S : Type 0} → Option (AsynqClient S) → Option (TaskQueue.Client S)
queue_client_function none = none
queue_client_function (some c) = some c.enqueue

-- The database settings that initDatabase passes on.
abbrev pub database_config : Config → Database.Config
database_config cfg = record {
  dsn = cfg.postgres.dsn;
  log_level = cfg.postgres.log_level;
  max_idle_conns = cfg.postgres.max_idle_conns;
  max_open_conns = cfg.postgres.max_open_conns;
  conn_max_lifetime = cfg.postgres.conn_max_lifetime;
  conn_max_idle_time = cfg.postgres.conn_max_idle_time;
}

abbrev pub cache_config : Config → Cache.RedisConfig
cache_config cfg = record {
  addr = cfg.redis.addr;
  password = cfg.redis.password;
  db = cfg.redis.cache_db;
}

abbrev optional_manager : Result JwtManager → Result (Option JwtManager)
optional_manager (ok m) = ok (some m)
optional_manager (err e) = err e

-- initAuth
unfoldable pub init_auth : Config → Result (Option JwtManager)
init_auth cfg =
    if is_empty (trim_space cfg.auth.jwt_secret)
    then ok none
    else optional_manager (
        new_jwt_manager (record {
          secret = cfg.auth.jwt_secret;
          issuer = cfg.auth.jwt_issuer;
          ttl = cfg.auth.jwt_ttl;
        }))

abbrev first_service : List String → String
first_service [] = ""
first_service (s ∷ ss) = s

-- gin.SetMode, with what it panics with for a mode that it does not know, and zap's parser of levels.
pub record Platform : Type 0 where
  pub set_mode : String → Option GoError
  pub level_set : String → Result ℤ

-- How InitRuntime ends: it returns nil or an error, or it panics.
pub data RuntimeStart : Type 0 where
  set_up : RuntimeStart
  refused : GoError → RuntimeStart
  crashed : GoError → RuntimeStart

abbrev runtime_result : Log.Loggers × Result Log.Logger → Log.Loggers × RuntimeStart
runtime_result (s, ok l) = (s, set_up)
runtime_result (s, err e) = (s, refused (wrap "init logger" e))

abbrev with_mode :
    Platform → Config → String → Log.Loggers → Option GoError → Log.Loggers × RuntimeStart
with_mode platform cfg service s (some panic) = (s, crashed panic)
with_mode platform cfg service s none = runtime_result (
    Log.init platform.level_set
      (record {
        level = cfg.log.level;
        format = cfg.log.format;
        stacktrace_level = cfg.log.stacktrace_level;
        service = service;
      })
      s)

-- InitRuntime
unfoldable pub init_runtime :
    Platform → Option Config → List String → Log.Loggers → Log.Loggers × RuntimeStart
init_runtime platform none service s = (s, refused (plain "config is nil"))
init_runtime platform (some cfg) service s =
    with_mode platform cfg (first_service service) s (platform.set_mode cfg.server.gin_mode)

-- What a failed closing adds to the list of errors.
abbrev pub error_list : String → Option GoError → List GoError
error_list text none = []
error_list text (some e) = wrap text e ∷ []

module _ {S : Type 0} (sql : Sql S) (redis : Redis S) (asynq : Asynq S) where
  -- Registry
  pub record Registry : Type 0 where
    pub cfg : Option Config
    pub db : Option DbManager
    pub cache : Option (Client redis)
    pub auth : Option JwtManager
    pub queue : Option (Queue S)
    pub queue_client : Option (AsynqClient S)

  -- initDatabase
  unfoldable pub init_database : Config → S → Result DbManager × List Entry × S
  init_database cfg s = Database.init sql (database_config cfg) s

  abbrev pub optional_client :
      Result (Client redis) × List Entry → Result (Option (Client redis)) × List Entry
  optional_client (ok c, log) = (ok (some c), log)
  optional_client (err e, log) = (err e, log)

  -- initCache, with what it logs
  unfoldable pub init_cache : Config → S → Result (Option (Client redis)) × List Entry
  init_cache cfg s =
      if is_empty (trim_space cfg.redis.addr)
      then (ok none, [])
      else optional_client (Cache.new_client redis (cache_config cfg) s)

  -- newAsynqClient
  unfoldable pub new_asynq_client : Option Config → Option (AsynqClient S)
  new_asynq_client none = none
  new_asynq_client (some cfg) =
      if is_empty (trim_space cfg.redis.addr)
      then none
      else some (
          asynq (record {
            addr = cfg.redis.addr;
            password = cfg.redis.password;
            db = cfg.redis.queue_db;
          }))

  abbrev pub api_registry :
      Config → DbManager → Option (Client redis) → Option JwtManager → Registry
  api_registry cfg db cache auth =
      let client = new_asynq_client (some cfg) in
      record {
        cfg = some cfg;
        db = some db;
        cache = cache;
        auth = auth;
        queue = new_queue (queue_client_function client);
        queue_client = client;
      }

  abbrev pub api_with_auth :
      Config → DbManager → Option (Client redis) → Result (Option JwtManager) → Result Registry
  api_with_auth cfg db cache (err e) = err (wrap "init auth" e)
  api_with_auth cfg db cache (ok auth) = ok (api_registry cfg db cache auth)

  abbrev pub api_with_cache :
      Config
      → DbManager
      → Result (Option (Client redis)) × List Entry
      → Result Registry × List Entry
  api_with_cache cfg db (err e, log) = (err (wrap "init cache" e), log)
  api_with_cache cfg db (ok cache, log) = (api_with_auth cfg db cache (init_auth cfg), log)

  abbrev pub api_with_primary : Config → DbManager → Option Db → S → Result Registry × List Entry
  api_with_primary cfg db none s = (err (plain "postgres dsn is required for api"), [])
  api_with_primary cfg db (some p) s = api_with_cache cfg db (init_cache cfg s)

  abbrev pub api_with_database :
      Config → Result DbManager × List Entry × S → Result Registry × List Entry × S
  api_with_database cfg (err e, log, s) = (err (wrap "init database" e), log, s)
  api_with_database cfg (ok db, log, s) =
      let (r, more) = api_with_primary cfg db (db_of (some db)) s in (r, log ++ more, s)

  -- InitAPI, with what it logs
  unfoldable pub init_api : Option Config → S → Result Registry × List Entry × S
  unfolding init_database
  init_api none s = (err (plain "config is nil"), [], s)
  init_api (some cfg) s = api_with_database cfg (init_database cfg s)

  abbrev pub worker_registry : Config → Client redis → Option DbManager → Registry
  worker_registry cfg cache db =
      let client = new_asynq_client (some cfg) in
      record {
        cfg = some cfg;
        db = db;
        cache = some cache;
        auth = none;
        queue = new_queue (queue_client_function client);
        queue_client = client;
      }

  abbrev pub worker_with_database :
      Config
      → Client redis
      → List Entry
      → Result DbManager × List Entry × S
      → Result Registry × List Entry × S
  worker_with_database cfg cache log (err e, more, s) =
      (err (wrap "init worker database" e), log ++ more, s)
  worker_with_database cfg cache log (ok db, more, s) =
      (ok (worker_registry cfg cache (some db)), log ++ more, s)

  abbrev pub worker_with_cache :
      Config → Result (Client redis) × List Entry → S → Result Registry × List Entry × S
  worker_with_cache cfg (err e, log) s = (err (wrap "init worker cache" e), log, s)
  worker_with_cache cfg (ok cache, log) s =
      if is_empty (trim_space cfg.postgres.dsn)
      then (ok (worker_registry cfg cache none), log, s)
      else worker_with_database cfg cache log (init_database cfg s)

  -- InitWorker, with what it logs
  unfoldable pub init_worker : Option Config → S → Result Registry × List Entry × S
  unfolding init_database
  init_worker none s = (err (plain "config is nil"), [], s)
  init_worker (some cfg) s =
      if is_empty (trim_space cfg.redis.addr)
      then (err (plain "redis address is required for worker"), [], s)
      else worker_with_cache cfg (Cache.new_client redis (cache_config cfg) s) s

  abbrev pub close_queue_client : Option (AsynqClient S) → S → Option GoError × S
  close_queue_client none s = (none, s)
  close_queue_client (some c) s = c.close s

  -- (*Registry).Close; closing a nil cache or database does nothing, as the tests for nil do.
  unfoldable pub close : Option Registry → S → Option GoError × S
  close none s = (none, s)
  close (some r) s =
      let (queue_error, s₁) = close_queue_client r.queue_client s in
      let (cache_error, s₂) = Cache.close redis r.cache s₁ in
      let (db_error, s₃) = Database.close sql r.db s₂ in
      (
        join_errors (
            error_list "close queue client" queue_error
            ++ error_list "close cache" cache_error
            ++ error_list "close database" db_error),
        s₃,
      )
