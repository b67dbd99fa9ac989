-- ===== src/Handler.antt =====
-- internal/handler: binding a request, calling the service, writing the envelope. gin's binding is
-- a parameter, `Binder`. `S` is the state behind the service.
pub mod Health
pub mod Envelopes
pub mod ReadBack
use ginblade.Prelude.{
  ℕ, ◌+◌, String, Bool, true, false, ◌&&◌, Option, none, some, List, [], ◌∷◌, ◌++◌, if◌then◌else◌,
}
use ginblade.Errors.{GoError, api, Result, ok, err}
use ginblade.Errcode.{unauthorized, invalid_params}
use ginblade.Context.{Context, with_deadline}
use ginblade.Model.{CreateExampleReq, EnqueueExampleTaskReq, ListExamplesReq, CreateTokenReq}
use ginblade.Response.{Data, example, examples, enqueued, token, me, BindError}
use ginblade.Http.{
  Gin, Outcome, finished, Handler, health, write_json, write_success, write_error,
  write_validation_error,
}
use ginblade.Auth.{JwtManager, generate_token}
use ginblade.Auth.Library.{Jwt}
use ginblade.Task.{Json}
use ginblade.Service
use ginblade.Database
use ginblade.Database.{DbManager, Sql}
use ginblade.Cache
use ginblade.Cache.{Client, Redis}
use ginblade.Service.{ExampleService, Reply}
use ginblade.Middleware.{auth_subject}

-- What c.ShouldBindJSON or c.ShouldBindQuery leaves in the request struct.
pub data Bound (A : Type 0) : Type 0 where
  bound : A → Bound A
  refused : BindError → Bound A

pub record Binder : Type 0 where
  pub create_example : Gin → Bound CreateExampleReq
  pub list_examples : Gin → Bound ListExamplesReq
  pub enqueue_task : Gin → Bound EnqueueExampleTaskReq
  pub create_token : Gin → Bound CreateTokenReq

-- AuthHandler
pub record AuthHandler : Type 0 where
  pub manager : Option JwtManager

-- NewAuthHandler
unfoldable pub new_auth_handler : Option JwtManager → Option AuthHandler
new_auth_handler none = none
new_auth_handler (some m) = some (record { manager = some m })

abbrev pub manager_of : Option AuthHandler → Option JwtManager
manager_of none = none
manager_of (some h) = h.manager

module _ {S : Type 0} where
  -- The end of a handler of ExampleHandler: the envelope of the service's reply.
  abbrev pub respond : {A : Type 0} → (A → Data) → Gin → Reply S A → Outcome S
  respond f c r =
      let c' = record c { log = c.log ++ r.log } in
      elim r.result [
        | ok a ↦ finished (write_success (f a) c') r.state
        | err e ↦ finished (write_error e c') r.state
      ]

  abbrev pub with_request : {A : Type 0} → Bound A → (A → Outcome S) → Handler S
  with_request (refused e) k c s = finished (write_validation_error e c) s
  with_request (bound req) k c s = k req

  module _ (binder : Binder) where
    -- (*ExampleHandler).Create
    unfoldable pub create_example : ExampleService S → Handler S
    create_example svc c s =
        with_request (binder.create_example c)
          (λ req. respond example c (Service.create svc c.ctx req s)) c s

    -- (*ExampleHandler).List
    unfoldable pub list_examples : ExampleService S → Handler S
    list_examples svc c s =
        with_request (binder.list_examples c)
          (λ req. respond examples c (Service.list svc c.ctx req s)) c s

    -- (*ExampleHandler).EnqueueTask
    unfoldable pub enqueue_task : Json → ExampleService S → Handler S
    enqueue_task json svc c s =
        with_request (binder.enqueue_task c)
          (λ req. respond enqueued c (Service.enqueue_task json svc c.ctx req s)) c s

    abbrev pub issued : Gin → S → Result String → Outcome S
    issued c s (err e) = finished (write_error (api invalid_params) c) s
    issued c s (ok t) =
        finished (write_success (token (record { access_token = t; token_type = "Bearer" })) c) s

    abbrev pub create_token_with : Jwt → ℕ → Option JwtManager → Handler S
    create_token_with jwt now none c s = finished (write_error (api unauthorized) c) s
    create_token_with jwt now (some m) c s =
        with_request (binder.create_token c)
          (λ req. issued c s (generate_token jwt m now req.subject)) c s

    -- (*AuthHandler).CreateToken; `now` is the manager's reading of the clock.
    unfoldable pub create_token : Jwt → ℕ → Option AuthHandler → Handler S
    create_token jwt now h c s = create_token_with jwt now (manager_of h) c s

  -- (*AuthHandler).Me
  unfoldable pub show_me : Handler S
  show_me c s = finished (write_success (me (record { subject = auth_subject c })) c) s

-- One of the checks of (*HealthHandler).Health: the text, and whether the dependency is up. `none`
-- is a dependency that is not configured, with its own answer; else the error of its Ping.
abbrev pub check : Bool → Option (Option GoError) → String × Bool
check optional none = ("not_configured", optional)
check optional (some (some e)) = ("unavailable", false)
check optional (some none) = ("ok", true)

-- The context of the health check's pings.
abbrev pub health_context : ℕ → Gin → Context
health_context now c = with_deadline (now + 2000000000) c.ctx

-- The error of a dependency's Ping, if it is configured.
abbrev pub pinged : {A : Type 0} → (Option A → Option GoError) → Option A → Option (Option GoError)
pinged ping none = none
pinged ping (some m) = some (ping (some m))

abbrev pub report : {S : Type 0} → Gin → S → String × Bool → String × Bool → Outcome S
report c s (postgres, db_up) (redis, cache_up) =
    let checks = ("postgres", postgres) ∷ ("redis", redis) ∷ [] in
    if db_up && cache_up
    then finished (write_json 200 (health "ok" checks) c) s
    else finished (write_json 503 (health "unhealthy" checks) c) s

module _ {S : Type 0} (sql : Sql S) (redis : Redis S) where
  -- HealthHandler
  pub record HealthHandler : Type 0 where
    pub db : Option DbManager
    pub cache : Option (Client redis)

  -- NewHealthHandler
  unfoldable pub new_health_handler : Option DbManager → Option (Client redis) → HealthHandler
  new_health_handler db cache = record { db = db; cache = cache }

  -- (*HealthHandler).Health; `now` is the reading of the clock for the deadline.
  unfoldable pub show_health : ℕ → HealthHandler → Handler S
  show_health now h c s =
      report c s (check false (pinged (λ m. Database.ping sql m (health_context now c) s) h.db))
        (check true (pinged (λ m. Cache.ping redis m (health_context now c) s) h.cache))
