-- ===== src/Server.antt =====
-- internal/server.go: the HTTP server, its guards and its engine. What gin, net/http and the
-- token-bucket library do is a parameter; `S` is the state of the drivers.
pub mod Engine
pub mod Startup
pub mod Wiring
pub mod Stopping
use ginblade.Service.Listing.{new_example_repository}
use ginblade.Prelude.{
  ℕ, String, Bool, true, false, Option, none, some, List, [], ◌∷◌, if◌then◌else◌,
}
use ginblade.Prelude.Int.{ℤ, is_positive}
use ginblade.Errors.{GoError, sentinel, wrap, Result, ok, err, is_sentinel}
use ginblade.Context.{Db, Context}
use ginblade.Config.Types.{Config}
use ginblade.Auth.{JwtManager}
use ginblade.Auth.Library.{Jwt}
use ginblade.Task.{Json}
use ginblade.TaskQueue
use ginblade.TaskQueue.{Queue, available, enqueue}
use ginblade.Repository
use ginblade.Repository.Library.{Gorm}
use ginblade.Service.{ExampleRepository, ExampleQueue, ExampleService, new_example_service}
use ginblade.Handler
use ginblade.Handler.{AuthHandler, HealthHandler, Binder, new_auth_handler, new_health_handler}
use ginblade.Database.{DbManager, Sql, db_of}
use ginblade.Cache.{Redis}
use ginblade.Bootstrap.{Asynq, Registry}
use ginblade.Http.{Gin, Outcome, finished, Handler, Middleware, abort_with_status}
use ginblade.Middleware.{trace_logger, recovery, timeout, cors, bearer_auth}
use ginblade.Middleware.RateLimit.{IpRateLimiter, rate_limit, new_ip_rate_limiter_per_minute, stop}
use ginblade.Middleware.RateLimit.Library.{Limiters}
use ginblade.Router.{
  Route, Endpoint, Dependencies, register_routes, find_route, check_health, create_token, show_me,
  list_examples, create_example, enqueue_task,
}

abbrev pub err_nil_registry : GoError
err_nil_registry = sentinel "app: nil registry"

abbrev pub err_nil_config : GoError
err_nil_config = sentinel "app: nil config"

abbrev pub err_missing_db : GoError
err_missing_db = sentinel "app: missing database"

abbrev pub err_nil_http_server : GoError
err_nil_http_server = sentinel "app: nil http server"

abbrev pub require_db : Option Db → Option GoError
require_db none = some err_missing_db
require_db (some db) = none

abbrev pub require_config : Option Config → Option Db → Option GoError
require_config none db = some err_nil_config
require_config (some cfg) db = require_db db

-- What one request takes from outside: the readings of the clock, the UUID that it may need, and
-- what a library that its handler calls panics with, if one does.
pub record Readings : Type 0 where
  pub uuid : String
  pub start : ℕ
  pub end : ℕ
  pub deadline_from : ℕ
  pub seen : ℕ
  pub limited_at : ℕ
  pub answered_at : ℕ
  pub panic : Option String

abbrev pub is_some {ℓ} : {A : Type ℓ} → Option A → Bool
is_some none = false
is_some (some a) = true

-- The queue as the service's interface. A nil *Queue in it is not available, and answers as the
-- methods of Queue do for nil.
abbrev pub example_queue : {S : Type 0} → Option (Queue S) → ExampleQueue S
unfolding available enqueue
example_queue q = record {
  available = TaskQueue.available q;
  enqueue = λ ctx t s. TaskQueue.enqueue q (some ctx) (some t) s;
}

module _ {S : Type 0} (sql : Sql S) (redis : Redis S) where
  -- HTTPHandlers
  pub record HttpHandlers : Type 0 where
    pub auth : Option AuthHandler
    pub health : HealthHandler sql redis
    pub example : ExampleService S

  module _ (asynq : Asynq S) where
    -- validateHTTPRegistry
    unfoldable pub validate_http_registry : Option (Registry sql redis asynq) → Option GoError
    unfolding db_of
    validate_http_registry none = some err_nil_registry
    validate_http_registry (some r) = require_config r.cfg (db_of r.db)

    -- newHTTPHandlers, for a registry with this database
    unfoldable pub new_http_handlers : Gorm S → Registry sql redis asynq → Db → HttpHandlers
    unfolding new_auth_handler new_health_handler new_example_service new_example_repository
    new_http_handlers gorm r db = record {
      auth = new_auth_handler r.auth;
      health = new_health_handler sql redis r.db r.cache;
      example =
          new_example_service (new_example_repository gorm db) (some (example_queue r.queue) ∷ []);
    }
