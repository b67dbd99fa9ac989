-- ===== src/Examples/Answers.antt =====
-- The answers of the handlers, and stopping the server, at concrete requests.
use ginblade.Handler.ReadBack.{ReadsBack, created_is_listed}
use ginblade.Examples.Stores.{
  toy_gorm-QueryLaws, toy_gorm-InsertLaws, Table, toy_gorm, toy_sql, idle_redis,
}
use ginblade.Examples.Requests.{demo_binder, teapot, request}
use ginblade.Prelude.{refl, ℕ, ◌⊎◌, Option, none, some, [], ◌≡◌, true, false, ◌+◌}
use ginblade.Prelude.Int.{pos, is_positive, pos_part}
use ginblade.Context.{Context, background, with_deadline, deadline}
use ginblade.Middleware.{timeout}
use ginblade.Middleware.Timeout.{IsWithin, timeout_lem}
use ginblade.Errors.{GoError, plain}
use ginblade.Http.{Gin}
use ginblade.Database.{DbManager}
use ginblade.Handler.{
  HealthHandler, create_example, list_examples, enqueue_task, create_token, show_me, AuthHandler,
}
use ginblade.Handler.Envelopes.{IsAnswered, handlers-IsAnswered}
use ginblade.Service.{ExampleService}
use ginblade.Service.Listing.{new_example_repository}
use ginblade.Shutdown.{shutdown_web_server, shutdown_web_server_lem, StopsAs}
use ginblade.Examples.Tokens.{toy_jwt}
use ginblade.Encoding.Payload.{encoding_json}

abbrev get_health : Gin
get_health = request "GET" "/health" "X-Request-ID" "r-1"

abbrev database : DbManager
database = record { primary = some 1 }

abbrev health_handler : HealthHandler {S = Table} toy_sql idle_redis
health_handler = record { db = some database; cache = none }

abbrev repository_only : ExampleService Table
repository_only = record { repo = new_example_repository toy_gorm 1; queue = none }

abbrev auth_handler : AuthHandler
auth_handler = record {
  manager = some (record { secret = "secret"; issuer = "ginblade"; ttl = pos 1 });
}

handlers-IsAnswered_example :
    IsAnswered get_health (create_example demo_binder repository_only get_health [])
    × IsAnswered get_health (list_examples demo_binder repository_only get_health [])
    × IsAnswered get_health (enqueue_task demo_binder encoding_json repository_only get_health [])
    × IsAnswered {S = Table} get_health
        (create_token demo_binder toy_jwt 7 (some auth_handler) get_health [])
    × IsAnswered {S = Table} get_health (show_me get_health [])
handlers-IsAnswered_example =
    handlers-IsAnswered demo_binder toy_jwt encoding_json repository_only (some auth_handler) 7
      get_health []

-- The graceful shutdown runs into its deadline, and the server's exit comes after the close.
abbrev stuck : ℕ → Option GoError × ℕ
stuck s = (some (plain "context deadline exceeded"), s)

abbrev exits : ℕ → Option (Option GoError)
exits s = some none

shutdown_web_server_lem_example :
    StopsAs stuck
      (λ s. (none, 2))
      exits
      (some (plain "context deadline exceeded"), 1)
      (shutdown_web_server stuck (λ s. (none, 2)) exits 1)
shutdown_web_server_lem_example = shutdown_web_server_lem stuck (λ s. (none, 2)) exits 1

-- The request has a deadline already, which is sooner.
abbrev hurried : Gin
hurried = record get_health { ctx = with_deadline 50 background }

timeout_lem_example :
    ((is_positive (pos 100) ≡ true)
      × ((ctx : Context) × (timeout (pos 100) 7 teapot hurried tt
            ≡ teapot (record hurried { ctx = ctx }) tt)
          × IsWithin (7 + pos_part (pos 100)) (deadline hurried.ctx) (deadline ctx)))
    ⊎ ((is_positive (pos 100) ≡ false)
        × (timeout (pos 100) 7 teapot hurried tt ≡ teapot hurried tt))
timeout_lem_example = timeout_lem (pos 100) 7 teapot hurried tt

abbrev post_example : Gin
post_example = request "POST" "/api/v1/examples" "X-Request-ID" "r-1"

abbrev get_examples : Gin
get_examples = request "GET" "/api/v1/examples" "X-Request-ID" "r-2"

created_is_listed_example :
    ReadsBack toy_gorm toy_gorm-QueryLaws toy_gorm-InsertLaws 1 none demo_binder post_example
      get_examples
      (record { name = "demo" })
      0
      []
created_is_listed_example =
    created_is_listed toy_gorm toy_gorm-QueryLaws toy_gorm-InsertLaws 1 none demo_binder
      post_example get_examples (record { name = "demo" }) 0 [] refl refl refl
