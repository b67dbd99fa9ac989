-- ===== src/Server/Wiring.antt =====
-- NewServer's guards, and the registry that InitAPI hands to it.
use ginblade.Auth.{JwtManager}
use ginblade.Bootstrap.{
  api_with_auth, api_with_cache, api_with_primary, Asynq, Registry, init_api, api_with_database,
}
use ginblade.Prelude.{
  ◌/◌, Bool-cases, ap, String, true, false, Option, none, some, List, ◌≡◌, refl, ◌⊎◌, arith, inl,
  inr,
}
use ginblade.Prelude.Int.{ℤ, pos_part, is_positive}
use mathlib.Core.Path.{ap₂}
use ginblade.Errors.{GoError, wrap, Result, ok, err}
use ginblade.Http.{Entry}
use ginblade.Context.{Db}
use ginblade.Config.Types.{Config}
use ginblade.Repository.Library.{Gorm}
use ginblade.Database.{DbManager, Sql, db_of}
use ginblade.Cache.{Redis, Client}
use ginblade.Middleware.RateLimit.{minute, IpRateLimiter, new_ip_rate_limiter_per_minute}
use ginblade.Middleware.RateLimit.Library.{Limiters}
use ginblade.Context.{Context}
use ginblade.Model.{Example}
use ginblade.Task.{Task}
use ginblade.TaskQueue
use ginblade.Repository
use ginblade.Service.{ExampleQueue, new_example_service}
use ginblade.Service.Listing.{new_example_repository}
use ginblade.Handler.{new_auth_handler, manager_of, new_health_handler}
use ginblade.Server.{
  HttpHandlers, example_queue, validate_http_registry, new_http_handlers, err_nil_config,
  err_missing_db,
}
use ginblade.Server.Startup.{
  HttpSettings, new_http_server, HttpServer, Server, new_server, server_rate_limiter,
}

module _ {S : Type 0} (sql : Sql S) (redis : Redis S) (asynq : Asynq S) where
  -- The registry passes the checks of NewServer, and holds the configuration.
  abbrev pub IsReady : Option Config → Registry sql redis asynq → Type 0
  IsReady cfg r = (validate_http_registry sql redis asynq (some r) ≡ none) × (r.cfg ≡ cfg)

  api_with_auth-IsReady :
      (cfg : Config) (db : DbManager) (p : Db) (cache : Option (Client redis))
      → (a : Result (Option JwtManager)) (r : Registry sql redis asynq) → db_of (some db) ≡ some p
      → api_with_auth sql redis asynq cfg db cache a ≡ ok r
      → IsReady (some cfg) r
  unfolding validate_http_registry db_of
  api_with_auth-IsReady cfg db p cache (err e) r has h = cc
  api_with_auth-IsReady cfg db p cache (ok a) r has h = ground (arith)

  api_with_cache-IsReady :
      (cfg : Config) (db : DbManager) (p : Db) (c : Result (Option (Client redis)) × List Entry)
      → (r : Registry sql redis asynq) (log : List Entry) → db_of (some db) ≡ some p
      → api_with_cache sql redis asynq cfg db c ≡ (ok r, log)
      → IsReady (some cfg) r
  api_with_cache-IsReady cfg db p (err e, l) r log has h = cc
  api_with_cache-IsReady cfg db p (ok c, l) r log has h =
      api_with_auth-IsReady cfg db p c _ r has (ap (λ x. x.0) h)

  api_with_primary-IsReady :
      (cfg : Config) (db : DbManager) (p : Option Db) (s : S) (r : Registry sql redis asynq)
      (log : List Entry)
      → db_of (some db) ≡ p
      → api_with_primary sql redis asynq cfg db p s ≡ (ok r, log)
      → IsReady (some cfg) r
  api_with_primary-IsReady cfg db none s r log has h = cc
  api_with_primary-IsReady cfg db (some p) s r log has h =
      api_with_cache-IsReady cfg db p _ r log has h

  api_with_database-IsReady :
      (cfg : Config) (d : Result DbManager × List Entry × S) (r : Registry sql redis asynq)
      (log : List Entry) (s' : S)
      → api_with_database sql redis asynq cfg d ≡ (ok r, log, s')
      → IsReady (some cfg) r
  api_with_database-IsReady cfg (err e, l, s) r log s' h = cc
  api_with_database-IsReady cfg (ok db, l, s) r log s' h =
      api_with_primary-IsReady cfg db _ s r _ refl (ap₂ (λ x y. (x, y)) (ap (λ x. x.0) h) refl)

  -- A registry that InitAPI returns without an error passes the checks of NewServer, and holds the
  -- configuration that it was made from.
  pub init_api-IsReady :
      (cfg : Option Config) (s s' : S) (r : Registry sql redis asynq) (log : List Entry)
      → init_api sql redis asynq cfg s ≡ (ok r, log, s')
      → IsReady cfg r
  unfolding init_api
  init_api-IsReady none s s' r log h = cc
  init_api-IsReady (some cfg) s s' r log h = api_with_database-IsReady cfg _ r log s' h

module _ {S : Type 0} (lib : Limiters) (sql : Sql S) (redis : Redis S) (asynq : Asynq S)
    (gorm : Gorm S) (set_trusted_proxies : List String → Option GoError)
    (listen : HttpSettings → HttpServer S) where
  abbrev pub new : Option (Registry sql redis asynq) → Result (Server lib sql redis)
  unfolding new_server
  new = new_server lib sql redis asynq gorm set_trusted_proxies listen

  -- NewServer refused the registry, with the error of the checks or of the trusted proxies.
  abbrev pub IsRefused : Option (Registry sql redis asynq) → Type 0
  IsRefused reg =
      (e : GoError) × (new reg ≡ err e)
      × ((validate_http_registry sql redis asynq reg ≡ some e)
          ⊎ ((r : Registry sql redis asynq) × (cfg : Config) × (cause : GoError) × (reg ≡ some r)
              × (r.cfg ≡ some cfg)
              × (set_trusted_proxies cfg.server.trusted_proxies ≡ some cause)
              × (e ≡ wrap "set trusted proxies" cause)))

  -- The handlers work on what the registry holds: the token handler on its JWT manager, and there is
  -- none without one; the health check on its database and cache; the example service on its
  -- database's handle, by the repository, and on its queue.
  pub record AreWired (r : Registry sql redis asynq) (h : HttpHandlers sql redis) : Type 0 where
    pub db : Db
    pub queue : ExampleQueue S
    pub opened : (m : DbManager) × (r.db ≡ some m) × (m.primary ≡ some db)
    pub tokens : manager_of h.auth ≡ r.auth
    pub tokenless : r.auth ≡ none → h.auth ≡ none
    pub checks_db : h.health.db ≡ r.db
    pub checks_cache : h.health.cache ≡ r.cache
    pub stores :
        (ctx : Context) (e : Example) (s : S)
        → h.example.repo.create ctx e s ≡ Repository.create gorm db ctx e s
    pub lists :
        (ctx : Context) (limit offset : ℤ) (s : S)
        → h.example.repo.list ctx limit offset s ≡ Repository.list gorm db ctx limit offset s
    pub queued : h.example.queue ≡ some queue
    pub queues : queue.available ≡ TaskQueue.available r.queue
    pub publishes :
        (ctx : Context) (t : Task) (s : S)
        → queue.enqueue ctx t s ≡ TaskQueue.enqueue r.queue (some ctx) (some t) s

  -- NewServer made a server of the registry's configuration, with handlers that work on what the
  -- registry holds; it has a rate limiter exactly when the configured number of requests is
  -- positive, and none was stopped.
  pub record IsAssembled (reg : Option (Registry sql redis asynq)) : Type 0 where
    pub r : Registry sql redis asynq
    pub server : Server lib sql redis
    pub given : reg ≡ some r
    pub checked : validate_http_registry sql redis asynq reg ≡ none
    pub made : new reg ≡ ok server
    pub configured : r.cfg ≡ some server.cfg
    pub manager : server.manager ≡ r.auth
    pub wired : AreWired r server.handlers
    pub serves : server.http ≡ some (new_http_server listen server.cfg)
    pub limited :
        ((is_positive server.cfg.rate_limit.requests_per_minute ≡ true)
          × ((l : IpRateLimiter lib) × (server.rate_limiter ≡ some l) × (l.stopped ≡ false)))
        ⊎ ((is_positive server.cfg.rate_limit.requests_per_minute ≡ false)
            × (server.rate_limiter ≡ none))

  -- The rate limiter fits the configuration.
  abbrev Limited : Config → Option (IpRateLimiter lib) → Type 0
  Limited cfg o =
      ((is_positive cfg.rate_limit.requests_per_minute ≡ true)
        × ((l : IpRateLimiter lib) × (o ≡ some l) × (l.stopped ≡ false)))
      ⊎ ((is_positive cfg.rate_limit.requests_per_minute ≡ false) × (o ≡ none))

  abbrev fresh : Config → IpRateLimiter lib
  fresh cfg = record {
    visitors = λ ip. none;
    rate = minute / pos_part cfg.rate_limit.requests_per_minute;
    burst = pos_part cfg.rate_limit.requests_per_minute;
    stopped = false;
  }

  server_rate_limiter-Limited : (cfg : Config) → Limited cfg (server_rate_limiter lib cfg)
  unfolding server_rate_limiter new_ip_rate_limiter_per_minute
  server_rate_limiter-Limited cfg =
      elim (Bool-cases (is_positive cfg.rate_limit.requests_per_minute)) [
        | inl more ↦ inl (more, (fresh cfg, rw more, refl))
        | inr off ↦ inr (off, rw off)
      ]

  manager_of-new_auth_handler :
      (o : Option JwtManager)
      → (manager_of (new_auth_handler o) ≡ o) × (o ≡ none → new_auth_handler o ≡ none)
  unfolding new_auth_handler
  manager_of-new_auth_handler none = (refl, λ h. refl)
  manager_of-new_auth_handler (some m) = (refl, λ h. cc)

  manager_with :
      (o : Option DbManager) (db : Db)
      → db_of o ≡ some db
      → (m : DbManager) × (o ≡ some m) × (m.primary ≡ some db)
  unfolding db_of
  manager_with none db h = cc
  manager_with (some m) db h = (m, refl, h)

  new_http_handlers-AreWired :
      (r : Registry sql redis asynq) (db : Db)
      → db_of r.db ≡ some db
      → AreWired r (new_http_handlers sql redis asynq gorm r db)
  unfolding new_http_handlers new_health_handler new_example_service new_example_repository
      TaskQueue.available example_queue
  new_http_handlers-AreWired r db has = record {
    db = db;
    queue = example_queue r.queue;
    opened = manager_with r.db db has;
    tokens = (manager_of-new_auth_handler r.auth).0;
    tokenless = (manager_of-new_auth_handler r.auth).1;
    checks_db = refl;
    checks_cache = refl;
    stores = λ ctx e s. refl;
    lists = λ ctx limit offset s. refl;
    queued = refl;
    queues = refl;
    publishes = λ ctx t s. refl;
  }

  with_proxies_verdict :
      (r : Registry sql redis asynq) (cfg : Config) (db : Db) (o : Option GoError)
      → r.cfg ≡ some cfg
      → db_of r.db ≡ some db
      → set_trusted_proxies cfg.server.trusted_proxies ≡ o
      → IsRefused (some r) ⊎ IsAssembled (some r)
  unfolding new_server validate_http_registry new_http_handlers server_rate_limiter new_http_server
  with_proxies_verdict r cfg db (some e) has_cfg has_db h = inl (
    wrap "set trusted proxies" e,
    rw (has_cfg, has_db, h),
    inr (r, cfg, e, refl, has_cfg, h, refl),
  )
  with_proxies_verdict r cfg db none has_cfg has_db h = inr (record {
    r = r;
    server = record {
      cfg = cfg;
      handlers = new_http_handlers sql redis asynq gorm r db;
      manager = r.auth;
      http = some (new_http_server listen cfg);
      rate_limiter = server_rate_limiter lib cfg;
    };
    given = refl;
    checked = rw (has_cfg, has_db);
    made = rw (has_cfg, has_db, h);
    configured = has_cfg;
    manager = refl;
    wired = new_http_handlers-AreWired r db has_db;
    serves = refl;
    limited = server_rate_limiter-Limited cfg;
  })

  registry_verdict :
      (r : Registry sql redis asynq) (cfg : Option Config) (db : Option Db)
      → r.cfg ≡ cfg
      → db_of r.db ≡ db
      → IsRefused (some r) ⊎ IsAssembled (some r)
  unfolding new_server validate_http_registry
  registry_verdict r none db has_cfg has_db = inl (err_nil_config, rw has_cfg, inl (rw has_cfg))
  registry_verdict r (some cfg) none has_cfg has_db =
      inl (err_missing_db, rw (has_cfg, has_db), inl (rw (has_cfg, has_db)))
  registry_verdict r (some cfg) (some db) has_cfg has_db =
      with_proxies_verdict r cfg db _ has_cfg has_db refl

  -- NewServer either refuses a registry, with the error of its checks or with the error that the
  -- trusted proxies gave, or makes a server of the registry's configuration and JWT manager, whose
  -- handlers work on the registry's manager, database, cache and queue, with a rate limiter that
  -- runs exactly when the configured number of requests is positive.
  pub new_server_verdict :
      (reg : Option (Registry sql redis asynq)) → IsRefused reg ⊎ IsAssembled reg
  unfolding new_server validate_http_registry
  new_server_verdict none = inl (_, refl, inl refl)
  new_server_verdict (some r) = registry_verdict r _ _ refl refl
