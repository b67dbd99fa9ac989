-- ===== src/Server/Startup.antt =====
-- NewServer, Run, Shutdown and Close of internal/server.go, and the registry that they start from.
-- net/http's server is a parameter, `HttpServer`; gin's check of the trusted proxies is an argument.
use ginblade.Prelude.{String, Option, none, some, List, if◌then◌else◌}
use ginblade.Prelude.Int.{ℤ, is_positive}
use ginblade.Errors.{GoError, wrap, Result, ok, err, is_sentinel}
use ginblade.Context.{Db, Context}
use ginblade.Config.Types.{Config}
use ginblade.Auth.{JwtManager}
use ginblade.Repository.Library.{Gorm}
use ginblade.Database.{Sql, db_of}
use ginblade.Cache.{Redis}
use ginblade.Bootstrap.{Asynq, Registry}
use ginblade.Middleware.RateLimit.{IpRateLimiter, new_ip_rate_limiter_per_minute, stop}
use ginblade.Middleware.RateLimit.Library.{Limiters}
use ginblade.Server.{
  HttpHandlers, new_http_handlers, err_nil_registry, err_nil_config, err_missing_db,
  err_nil_http_server,
}

-- *http.Server
pub record HttpServer (S : Type 0) : Type 0 where
  pub listen_and_serve : S → Option GoError × S
  pub shutdown : Context → S → Option GoError × S
  pub close : S → Option GoError × S

-- What newHTTPServer sets of http.Server, beside the engine
pub record HttpSettings : Type 0 where
  pub addr : String
  pub read_header_timeout : ℤ

-- newHTTPServer; `listen` is the server that net/http makes of the settings and the engine.
unfoldable pub new_http_server :
    {S : Type 0} → (HttpSettings → HttpServer S) → Config → HttpServer S
new_http_server listen cfg =
    listen (record { addr = cfg.server.port; read_header_timeout = cfg.server.request_timeout })

-- http.ErrServerClosed is no error.
abbrev pub unless_closed : Option GoError → Option GoError
unfolding is_sentinel
unless_closed none = none
unless_closed (some e) = if is_sentinel e "http: Server closed" then none else some e

abbrev pub serve_error : Option GoError → Option GoError
serve_error none = none
serve_error (some e) = some (wrap "listen and serve http server" e)

-- The rate limiter of NewServer, which is there only for a positive number of requests.
unfoldable pub server_rate_limiter : (lib : Limiters) → Config → Option (IpRateLimiter lib)
unfolding new_ip_rate_limiter_per_minute
server_rate_limiter lib cfg =
    if is_positive cfg.rate_limit.requests_per_minute
    then new_ip_rate_limiter_per_minute lib cfg.rate_limit.requests_per_minute
    else none

module _ {S : Type 0} (lib : Limiters) (sql : Sql S) (redis : Redis S) where
  -- Server; `manager` is what the engine's AuthRequired closes over.
  pub record Server : Type 0 where
    pub cfg : Config
    pub handlers : HttpHandlers sql redis
    pub manager : Option JwtManager
    pub http : Option (HttpServer S)
    pub rate_limiter : Option (IpRateLimiter lib)

  -- Run
  unfoldable pub run : Option Server → S → Option GoError × S
  run none s = (some err_nil_http_server, s)
  run (some v) s = elim v.http [
    | none ↦ (some err_nil_http_server, s)
    | some http ↦ let (e, s') = http.listen_and_serve s in (serve_error (unless_closed e), s')
  ]

  abbrev pub stop_limiter : Server → Server
  unfolding stop
  stop_limiter v = record v { rate_limiter = stop lib v.rate_limiter }

  -- Shutdown; it leaves the server with its rate limiter stopped.
  unfoldable pub shutdown : Option Server → Context → S → Option GoError × Option Server × S
  shutdown none ctx s = (some err_nil_http_server, none, s)
  shutdown (some v) ctx s = elim v.http [
    | none ↦ (some err_nil_http_server, some v, s)
    | some http ↦ let (e, s') = http.shutdown ctx s in (e, some (stop_limiter v), s')
  ]

  -- Close
  unfoldable pub close : Option Server → S → Option GoError × Option Server × S
  close none s = (some err_nil_http_server, none, s)
  close (some v) s = elim v.http [
    | none ↦ (some err_nil_http_server, some v, s)
    | some http ↦ let (e, s') = http.close s in (unless_closed e, some (stop_limiter v), s')
  ]

  module _ (asynq : Asynq S) (gorm : Gorm S) (set_trusted_proxies : List String → Option GoError)
      (listen : HttpSettings → HttpServer S) where
    abbrev pub with_proxies :
        Registry sql redis asynq → Config → Db → Option GoError → Result Server
    unfolding new_http_handlers new_http_server
    with_proxies r cfg db (some e) = err (wrap "set trusted proxies" e)
    with_proxies r cfg db none = ok (record {
      cfg = cfg;
      handlers = new_http_handlers sql redis asynq gorm r db;
      manager = r.auth;
      http = some (new_http_server listen cfg);
      rate_limiter = server_rate_limiter lib cfg;
    })

    abbrev with_registry : Registry sql redis asynq → Option Config → Option Db → Result Server
    with_registry r none db = err err_nil_config
    with_registry r (some cfg) none = err err_missing_db
    with_registry r (some cfg) (some db) =
        with_proxies r cfg db (set_trusted_proxies cfg.server.trusted_proxies)

    -- NewServer; the switch of validateHTTPRegistry is made here once more, since it shows that the
    -- configuration and the database are there.
    unfoldable pub new_server : Option (Registry sql redis asynq) → Result Server
    unfolding db_of
    new_server none = err err_nil_registry
    new_server (some r) = with_registry r r.cfg (db_of r.db)
