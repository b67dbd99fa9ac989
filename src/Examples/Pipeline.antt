-- ===== src/Examples/Pipeline.antt =====
-- The middlewares around a handler, the engine, the health check, and stopping, at concrete
-- requests.
use ginblade.Database
use ginblade.Auth.{new_jwt_manager, JwtManager}
use ginblade.TaskQueue.{new_queue}
use ginblade.Bootstrap.{init_cache, init_auth, new_asynq_client, Registry, init_api}
use ginblade.Server.Engine.Replies.{EndsInAnswer}
use ginblade.Server.Engine.Answers.{serve-EndsInAnswer}
use ginblade.Server.Engine.Traces.{FinishesCarrying, serve-FinishesCarrying}
use ginblade.Examples.Requests.{no_binder, request, teapot, crash}
use ginblade.Prelude.{
  trim_space, ◌≡◌, refl, ◌⊎◌, true, Option, none, some, [], ◌∷◌, All, to_lower, ◌↔◌, false,
}
use ginblade.Prelude.Int.{pos}
use ginblade.Errors.{ok}
use ginblade.Http.{Gin, finished}
use ginblade.Middleware.{trace_logger, attach_trace, request_trace, recovery}
use ginblade.Middleware.Recovery.{IsRecovered, IsUntouched, recovery_verdict}
use ginblade.Middleware.Trace.{Carries, IsAudited, trace_logger_lem}
use ginblade.Middleware.RateLimit.{IpRateLimiter, stop}
use ginblade.Config.Types.{Config}
use ginblade.Config.Loading.{defaults}
use ginblade.Database.{connected_entry, DbManager, db_of}
use ginblade.Router.{Route, Dependencies, register_routes, find_route, show_me}
use ginblade.Router.Table.{IsSound, register_routes-IsSound}
use ginblade.Server.{HttpHandlers, Readings, new_http_handlers}
use ginblade.Server.Engine.{serve, routes, run_route_lem, RunsGuarded}
use ginblade.Server.Startup.{HttpServer, Server, shutdown, close}
use ginblade.Context.{background}
use ginblade.Server.Stopping.{IsStopped, IsClosed, stopped_server, stopping_lem}
use ginblade.Server.Wiring.{IsRefused, IsAssembled, new_server_verdict}
use ginblade.Examples.Tokens.{toy_jwt}
use ginblade.Examples.Buckets.{toy_limiters}
use ginblade.Encoding.Payload.{encoding_json}
use ginblade.Examples.Stores.{Table, toy_gorm, toy_sql, idle_redis, toy_asynq}

abbrev get_health : Gin
get_health = request "GET" "/health" "X-Request-ID" "r-1"

recovery_verdict_example :
    IsRecovered crash get_health tt (recovery crash get_health tt)
    ⊎ IsUntouched crash get_health tt (recovery crash get_health tt)
recovery_verdict_example = recovery_verdict crash get_health tt

abbrev traced : Gin
unfolding attach_trace request_trace
traced = attach_trace (request_trace "uuid" get_health) get_health

trace_logger_lem_example :
    Carries "r-1" traced
    × ((c' : Gin) × (trace_logger true ("/metrics" ∷ []) "uuid" 3 10 teapot get_health tt
          ≡ finished c' tt)
        × IsAudited true ("/metrics" ∷ []) 7 (record traced { status = 418 }) c')
unfolding traced attach_trace
trace_logger_lem_example =
    trace_logger_lem true ("/metrics" ∷ []) "uuid" 3 10 teapot get_health
      (record traced { status = 418 }) tt tt refl

abbrev all_deps : Dependencies
all_deps = record { auth = true; auth_required = true; example = true }

all_deps-IsSound : All (IsSound all_deps) (register_routes all_deps)
all_deps-IsSound = register_routes-IsSound all_deps

abbrev database : DbManager
database = record { primary = some 1 }

abbrev cfg : Config
cfg = defaults "postgres://db" "info" "" "" "secret"

abbrev manager : JwtManager
manager = record { secret = "secret"; issuer = "ginblade"; ttl = pos 86400000000000 }

abbrev registry : Registry {S = Table} toy_sql idle_redis toy_asynq
registry = record {
  cfg = some cfg;
  db = some database;
  cache = none;
  auth = some manager;
  queue = none;
  queue_client = none;
}

abbrev handlers : HttpHandlers {S = Table} toy_sql idle_redis
unfolding new_http_handlers
handlers = new_http_handlers toy_sql idle_redis toy_asynq toy_gorm registry 1

abbrev readings : Readings
readings = record {
  uuid = "uuid";
  start = 1;
  end = 9;
  deadline_from = 2;
  seen = 3;
  limited_at = 4;
  answered_at = 5;
  panic = some "index out of range";
}

abbrev world : Option (IpRateLimiter toy_limiters) × Table
world = (none, [])

serve-FinishesCarrying_example : FinishesCarrying "r-1" (
    serve toy_sql idle_redis toy_jwt encoding_json no_binder toy_limiters cfg handlers
      (some manager)
      readings
      get_health
      world)
serve-FinishesCarrying_example =
    serve-FinishesCarrying toy_sql idle_redis toy_jwt encoding_json no_binder toy_limiters cfg
      handlers (some manager) readings get_health world

serve-EndsInAnswer_example : EndsInAnswer get_health.bodies (
    serve toy_sql idle_redis toy_jwt encoding_json no_binder toy_limiters cfg handlers
      (some manager)
      readings
      get_health
      world)
serve-EndsInAnswer_example =
    serve-EndsInAnswer toy_sql idle_redis toy_jwt encoding_json no_binder toy_limiters cfg handlers
      (some manager) readings get_health world

abbrev get_me : Gin
get_me = request "GET" "/api/v1/auth/me" "Authorization" "Bearer alice.signed"

abbrev me_route : Route
me_route = record { method = "GET"; path = "/api/v1/auth/me"; guarded = true; endpoint = show_me }

me_found :
    find_route "GET" "/api/v1/auth/me" (
      routes toy_sql idle_redis toy_jwt encoding_json no_binder toy_limiters handlers
        (some manager))
    ≡ some me_route
unfolding find_route routes register_routes handlers
me_found = refl

run_route_lem_example :
    RunsGuarded toy_sql idle_redis toy_jwt encoding_json no_binder toy_limiters handlers
      (some manager)
      5
      none
      get_me
      world
      me_route
    × ("GET" ≡ get_me.method)
    × ("/api/v1/auth/me" ≡ get_me.path)
run_route_lem_example =
    run_route_lem toy_sql idle_redis toy_jwt encoding_json no_binder toy_limiters handlers
      (some manager) 5 none get_me world me_route me_found

abbrev closed_server : HttpServer Table
closed_server = record {
  listen_and_serve = λ s. (none, s);
  shutdown = λ ctx s. (none, s);
  close = λ s. (none, s);
}

new_server_verdict_example :
    IsRefused toy_limiters toy_sql idle_redis toy_asynq toy_gorm
      (λ ips. none)
      (λ c. closed_server)
      (some registry)
    ⊎ IsAssembled toy_limiters toy_sql idle_redis toy_asynq toy_gorm
        (λ ips. none)
        (λ c. closed_server)
        (some registry)
new_server_verdict_example =
    new_server_verdict toy_limiters toy_sql idle_redis toy_asynq toy_gorm (λ ips. none)
      (λ c. closed_server) (some registry)

api_made :
    init_api {S = Table} toy_sql idle_redis toy_asynq (some cfg) []
    ≡ (ok registry, connected_entry ∷ [], [])
unfolding init_api Database.init trim_space to_lower db_of init_cache init_auth new_jwt_manager
    new_queue new_asynq_client
api_made = refl

abbrev limited : Server {S = Table} toy_limiters toy_sql idle_redis
limited = record {
  cfg = cfg;
  handlers = handlers;
  manager = some manager;
  http = some closed_server;
  rate_limiter = some (record { visitors = λ ip. none; rate = 2; burst = 1; stopped = false });
}

abbrev still : Server {S = Table} toy_limiters toy_sql idle_redis
still = stopped_server toy_limiters toy_sql idle_redis limited closed_server background []

stopping_lem_example :
    (shutdown toy_limiters toy_sql idle_redis (some limited) background [] ≡ (none, some still, []))
    × ((close toy_limiters toy_sql idle_redis (some limited) []).1 ≡ some still)
    × (((close toy_limiters toy_sql idle_redis (some limited) []).0 ≡ none) ↔ IsClosed none)
    × IsStopped still.rate_limiter
    × (stop toy_limiters still.rate_limiter ≡ still.rate_limiter)
stopping_lem_example =
    stopping_lem toy_limiters toy_sql idle_redis limited closed_server background [] refl
