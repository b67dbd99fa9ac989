-- ===== src/Server/Engine.antt =====
-- newEngine of internal/server.go: the chain that every request runs through. A path that differs
-- from a registered one by a slash at its end is redirected by gin before the chain, and is no
-- request here.
pub mod Handlers
pub mod Traces
pub mod Replies
pub mod Answers
use ginblade.Prelude.{
  String, ℕ, Bool, true, false, Option, none, some, ◌∷◌, ◌≡◌, refl, List, inl, inr, ◌-◌, ◌⊎◌, ◌≢◌,
  All-map,
}
use ginblade.Config.Types.{Config}
use ginblade.Router.Table.{IsSound, find_route-IsFound, register_routes-IsSound}
use mathlib.Core.Bool.{false≢true}
use ginblade.Auth.{JwtManager}
use ginblade.Auth.Library.{Jwt}
use ginblade.Task.{Json}
use ginblade.Database.{Sql}
use ginblade.Cache.{Redis}
use ginblade.Handler
use ginblade.Handler.{Binder, show_health}
use ginblade.Http.{
  Gin, Outcome, finished, panicked, Handler, Middleware, abort_with_status, after, write_json, text,
}
use ginblade.Middleware.{
  trace_logger, recovery, timeout, cors, bearer_auth, recovered, recover, audit,
}
use ginblade.Middleware.RateLimit.{IpRateLimiter, rate_limit}
use ginblade.Middleware.RateLimit.Library.{Limiters}
use ginblade.Router.{
  Route, Endpoint, Dependencies, register_routes, find_route, check_health, create_token, show_me,
  list_examples, create_example, enqueue_task,
}
use ginblade.Server.{HttpHandlers, Readings, is_some}

module _ {S : Type 0} (sql : Sql S) (redis : Redis S) (jwt : Jwt) (json : Json) (binder : Binder)
    (lib : Limiters) where
  abbrev World : Type 0
  World = Option (IpRateLimiter lib) × S

  -- A handler does not touch the rate limiter.
  abbrev lift_outcome : Option (IpRateLimiter lib) → Outcome S → Outcome World
  lift_outcome l (finished c s) = finished c (l, s)
  lift_outcome l (panicked p c s) = panicked p c (l, s)

  -- A handler of a route. A library that it calls may panic, before the handler has written its
  -- answer: `panic` is what it panics with, if it does.
  abbrev lift : Option String → Handler S → Handler World
  lift none h c (l, s) = lift_outcome l (h c s)
  lift (some p) h c (l, s) = panicked p c (l, s)

  -- What runs at the end of a route.
  abbrev pub run_endpoint : HttpHandlers sql redis → ℕ → Endpoint → Handler S
  run_endpoint h now check_health = show_health sql redis now h.health
  run_endpoint h now create_token = Handler.create_token binder jwt now h.auth
  run_endpoint h now show_me = Handler.show_me
  run_endpoint h now list_examples = Handler.list_examples binder h.example
  run_endpoint h now create_example = Handler.create_example binder h.example
  run_endpoint h now enqueue_task = Handler.enqueue_task binder json h.example

  abbrev pub guard : Bool → Option JwtManager → ℕ → Middleware World
  unfolding bearer_auth
  guard false m now next = next
  guard true m now next = bearer_auth jwt m now next

  -- The handlers of a route; without a route, gin answers 404, with a text of its own.
  abbrev pub run_route :
      HttpHandlers sql redis → Option JwtManager → ℕ → Option String → Option Route → Handler World
  run_route h m now panic none c w = finished (write_json 404 (text "404 page not found") c) w
  run_route h m now panic (some r) c w =
      guard r.guarded m now (lift panic (run_endpoint h now r.endpoint)) c w

  -- What newEngine hands to RegisterRoutes.
  abbrev dependencies_of : HttpHandlers sql redis → Option JwtManager → Dependencies
  dependencies_of h m = record { auth = is_some h.auth; auth_required = is_some m; example = true }

  abbrev health_route : Route
  health_route = record {
    method = "GET";
    path = "/health";
    guarded = false;
    endpoint = check_health;
  }

  -- The routes of newEngine: the health check, and those of RegisterRoutes.
  unfoldable pub routes : HttpHandlers sql redis → Option JwtManager → List Route
  unfolding register_routes
  routes h m = health_route ∷ register_routes (dependencies_of h m)

  -- The chain behind Recovery. The rate limiter is part of the state: without one, its middleware
  -- passes every request on, as if it were not registered.
  unfoldable pub answer :
      Config → HttpHandlers sql redis → Option JwtManager → Readings → Handler World
  unfolding timeout cors rate_limit find_route routes
  answer cfg h m at = timeout cfg.server.request_timeout at.deadline_from (
      cors cfg.cors.allow_origins (
        rate_limit lib at.seen at.limited_at (λ c w.
          run_route h m at.answered_at at.panic (find_route c.method c.path (routes h m)) c w)))

  -- newEngine, as what the engine does with one request
  unfoldable pub serve :
      Config → HttpHandlers sql redis → Option JwtManager → Readings → Handler World
  unfolding trace_logger recovery answer
  serve cfg h m at =
      trace_logger cfg.log.audit_enabled cfg.log.audit_excludes at.uuid at.start at.end
        (recovery (answer cfg h m at))

  -- What running a route amounts to.
  abbrev pub RunsGuarded :
      HttpHandlers sql redis → Option JwtManager → ℕ → Option String → Gin → World → Route → Type 0
  RunsGuarded h m now panic c w r =
      ((r.endpoint ≡ show_me)
        × ((j : JwtManager) × (m ≡ some j)
            × (run_route h m now panic (some r) c w
                ≡ bearer_auth jwt (some j) now (lift panic Handler.show_me) c w)))
      ⊎ ((r.endpoint ≢ show_me)
          × (run_route h m now panic (some r) c w ≡ lift panic (run_endpoint h now r.endpoint) c w))

  runs_guarded :
      (h : HttpHandlers sql redis) (m : Option JwtManager) (now : ℕ) (panic : Option String)
      (c : Gin) (w : World)
      → (r : Route) → IsSound (dependencies_of h m) r
      → RunsGuarded h m now panic c w r
  unfolding guard bearer_auth
  runs_guarded h none now panic c w r (inl (g, e, a, k)) = absurd (false≢true k)
  runs_guarded h (some j) now panic c w r (inl (g, e, a, k)) = inl (e, (j, refl, rw (g, e)))
  runs_guarded h m now panic c w r (inr (g, e)) = inr (e, rw g)

  -- A request that the router sends to the handler of the authenticated subject goes through
  -- BearerAuth, with a manager that is configured; every other route's handler runs at once. The
  -- route has the request's method and path.
  pub run_route_lem :
      (h : HttpHandlers sql redis) (m : Option JwtManager) (now : ℕ) (panic : Option String)
      (c : Gin) (w : World)
      → (r : Route) → find_route c.method c.path (routes h m) ≡ some r
      → RunsGuarded h m now panic c w r × (r.method ≡ c.method) × (r.path ≡ c.path)
  unfolding routes
  run_route_lem h m now panic c w r found =
      let deps : Dependencies = dependencies_of h m in
      find_route-IsFound (RunsGuarded h m now panic c w) c.method c.path (routes h m)
        (
          runs_guarded h m now panic c w health_route (inr (refl, λ e. cc)),
          All-map (runs_guarded h m now panic c w) (register_routes deps)
              (register_routes-IsSound deps),
        )
        r found
