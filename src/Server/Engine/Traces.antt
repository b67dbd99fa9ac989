-- ===== src/Server/Engine/Traces.antt =====
-- The trace id on its way through the engine: from TraceLogger to the answer.
use ginblade.Prelude.{
  ℕ, ◌-◌, ◌≡◌, refl, inl, inr, String, Bool, true, false, Option, none, some, List, Bool-cases,
  is_empty, trim_space, if◌then◌else◌, str_eq, not, ◌&&◌,
}
use ginblade.Prelude.Int.{ℤ, is_positive}
use ginblade.Errors.{Result, ok, err}
use ginblade.Config.Types.{Config}
use ginblade.Auth.{JwtManager}
use ginblade.Auth.Library.{Jwt, Claims}
use ginblade.Task.{Json}
use ginblade.Database.{Sql}
use ginblade.Cache.{Redis}
use ginblade.Handler.{Binder}
use ginblade.Log.{trace_id_from}
use ginblade.Http.{after, Gin, Outcome, finished, panicked, Handler, trace_of, get_string}
use ginblade.Middleware.{
  trace_logger, recovery, timeout, cors, bearer_auth, recovered, admit, recover, audit,
  cors_headers, allow_origin, request_trace, contains, excluded_paths, allowed_origins,
}
use ginblade.Middleware.RateLimit.{IpRateLimiter, rate_limit, decide}
use ginblade.Middleware.RateLimit.Library.{Limiters}
use ginblade.Middleware.Trace.{Carries, attach_trace-Carries}
use ginblade.Router.{Route, Endpoint, find_route}
use ginblade.Server.{HttpHandlers, Readings}
use ginblade.Server.Engine.{
  lift_outcome, lift, run_endpoint, guard, run_route, routes, answer, serve,
}
use ginblade.Server.Engine.Handlers.{CarriesOut, Keeps, Carries-congr, run_endpoint-Keeps}

cors_headers-Carries :
    {id : String} (os : List String) (c : Gin) → Carries id c → Carries id (cors_headers os c)
unfolding cors_headers allow_origin trace_of get_string
cors_headers-Carries os c h =
    elim (Bool-cases (
      not (is_empty (trim_space (c.header "Origin")))
      && contains (allowed_origins os) (trim_space (c.header "Origin")))) [
        | inl named ↦ rw named (Carries-congr c _ refl refl refl h)
        | inr unnamed ↦ rw unnamed h
      ]

module _ {W : Type 0} {id : String} where
  admit-Keeps : (r : Result Claims) (next : Handler W) → Keeps id next → Keeps id (admit r next)
  unfolding trace_of get_string
  admit-Keeps (err e) next k c w h = Carries-congr c _ refl refl refl h
  admit-Keeps (ok claims) next k c w h = k _ w (Carries-congr c _ refl refl refl h)

  bearer_auth-Keeps :
      (jwt : Jwt) (m : Option JwtManager) (now : ℕ) (next : Handler W)
      → Keeps id next
      → Keeps id (bearer_auth jwt m now next)
  unfolding bearer_auth trace_of
  bearer_auth-Keeps jwt none now next k c w h = Carries-congr c _ refl refl refl h
  bearer_auth-Keeps jwt (some m) now next k c w h = admit-Keeps _ next k c w h

  cors-Keeps : (os : List String) (next : Handler W) → Keeps id next → Keeps id (cors os next)
  unfolding cors trace_of
  cors-Keeps os next k c w h = elim (Bool-cases (str_eq (cors_headers os c).method "OPTIONS")) [
    | inl preflight ↦
        rw preflight
          (Carries-congr (cors_headers os c) _ refl refl refl (cors_headers-Carries os c h))
    | inr other ↦ rw other (k _ w (cors_headers-Carries os c h))
  ]

  timeout-Keeps :
      (d : ℤ) (now : ℕ) (next : Handler W) → Keeps id next → Keeps id (timeout d now next)
  unfolding timeout trace_of trace_id_from
  timeout-Keeps d now next k c w h = elim (Bool-cases (is_positive d)) [
    | inl bounded ↦ rw bounded (k _ w (Carries-congr c _ refl refl refl h))
    | inr free ↦ rw free (k c w h)
  ]

recovered-CarriesOut :
    {W : Type 0} (id : String) (o : Outcome W) → CarriesOut id o → CarriesOut id (recovered o)
unfolding recover trace_of
recovered-CarriesOut id (finished c w) h = h
recovered-CarriesOut id (panicked p c w) h = Carries-congr c _ refl refl refl h

audit-Carries :
    {id : String} (enabled : Bool) (excludes : List String) (latency : ℕ) (c : Gin)
    → Carries id c
    → Carries id (audit enabled excludes latency c)
unfolding audit trace_of
audit-Carries false excludes latency c h = h
audit-Carries true excludes latency c h =
    elim (Bool-cases (contains (excluded_paths excludes) c.path)) [
      | inl skip ↦ rw skip h
      | inr keep ↦ rw keep (Carries-congr c _ refl refl refl h)
    ]

-- A request that finishes with the trace id in all three places.
abbrev pub FinishesCarrying : {W : Type 0} → String → Outcome W → Type 0
FinishesCarrying {W} id o = (c : Gin) × (w : W) × (o ≡ finished c w) × Carries id c

after_recovery :
    {W : Type 0} (id : String) (enabled : Bool) (excludes : List String) (latency : ℕ)
    (o : Outcome W)
    → CarriesOut id o
    → FinishesCarrying id
        (after (recovered o) (λ c w. finished (audit enabled excludes latency c) w))
after_recovery id enabled excludes latency (finished c w) h =
    (_, w, refl, audit-Carries enabled excludes latency c h)
after_recovery id enabled excludes latency (panicked p c w) h = (
  _,
  w,
  refl,
  audit-Carries enabled excludes latency _ (recovered-CarriesOut id (panicked p c w) h),
)

module _ {S : Type 0} (sql : Sql S) (redis : Redis S) (jwt : Jwt) (json : Json) (binder : Binder)
    (lib : Limiters) (id : String) where
  lift_outcome-CarriesOut :
      (l : Option (IpRateLimiter lib)) (o : Outcome S)
      → CarriesOut id o
      → CarriesOut id (lift_outcome sql redis jwt json binder lib l o)
  lift_outcome-CarriesOut l (finished c s) h = h
  lift_outcome-CarriesOut l (panicked p c s) h = h

  guard-Keeps :
      (guarded : Bool) (m : Option JwtManager) (now : ℕ)
      (next : Handler (Option (IpRateLimiter lib) × S))
      → Keeps id next
      → Keeps id (guard sql redis jwt json binder lib guarded m now next)
  unfolding guard bearer_auth
  guard-Keeps false m now next k = k
  guard-Keeps true m now next k = bearer_auth-Keeps jwt m now next k

  lift_endpoint-Keeps :
      (h : HttpHandlers sql redis) (now : ℕ) (panic : Option String) (e : Endpoint)
      → Keeps id (
          lift sql redis jwt json binder lib panic
            (run_endpoint sql redis jwt json binder lib h now e))
  lift_endpoint-Keeps h now (some p) e c (l, s) k = k
  lift_endpoint-Keeps h now none e c (l, s) k =
      lift_outcome-CarriesOut l _ (run_endpoint-Keeps sql redis jwt json binder lib h now e c s k)

  run_route-Keeps :
      (h : HttpHandlers sql redis) (m : Option JwtManager) (now : ℕ) (panic : Option String)
      (r : Option Route)
      → Keeps id (run_route sql redis jwt json binder lib h m now panic r)
  unfolding trace_of
  run_route-Keeps h m now panic none c w k = Carries-congr c _ refl refl refl k
  run_route-Keeps h m now panic (some r) c w k =
      guard-Keeps r.guarded m now _ (lift_endpoint-Keeps h now panic r.endpoint) c w k

  decide-Keeps :
      (allowed : Bool) (next : Handler (Option (IpRateLimiter lib) × S))
      (w : Option (IpRateLimiter lib) × S) (c : Gin)
      → Keeps id next
      → Carries id c
      → CarriesOut id (decide lib allowed c (λ c'. next c' w) w)
  unfolding trace_of
  decide-Keeps true next w c k h = k c w h
  decide-Keeps false next w c k h = Carries-congr c _ refl refl refl h

  rate_limit-Keeps :
      (seen at : ℕ) (next : Handler (Option (IpRateLimiter lib) × S))
      → Keeps id next
      → Keeps id (rate_limit lib seen at next)
  unfolding rate_limit
  rate_limit-Keeps seen at next k c (none, w) h = k c (none, w) h
  rate_limit-Keeps seen at next k c (some l, w) h = decide-Keeps _ next _ c k h

  answer-Keeps :
      (cfg : Config) (h : HttpHandlers sql redis) (m : Option JwtManager) (at : Readings)
      → Keeps id (answer sql redis jwt json binder lib cfg h m at)
  unfolding answer timeout cors rate_limit
  answer-Keeps cfg h m at = timeout-Keeps cfg.server.request_timeout at.deadline_from _ (
      cors-Keeps cfg.cors.allow_origins _ (
        rate_limit-Keeps at.seen at.limited_at _ (λ c w k.
          run_route-Keeps h m at.answered_at at.panic
            (find_route c.method c.path (routes sql redis jwt json binder lib h m)) c w k)))

-- The engine answers every request without a panic, even if its handler panics, and the answer carries the request's trace id:
-- the caller's X-Request-ID, or the new UUID if there is none. It is in the answer's X-Request-ID,
-- in gin's keys, and in the request's context.
pub serve-FinishesCarrying :
    {S : Type 0} (sql : Sql S) (redis : Redis S) (jwt : Jwt) (json : Json) (binder : Binder)
    (lib : Limiters) (cfg : Config) (h : HttpHandlers sql redis) (m : Option JwtManager)
    (at : Readings) (c : Gin) (w : Option (IpRateLimiter lib) × S)
    → FinishesCarrying
        (if is_empty (c.header "X-Request-ID") then at.uuid else c.header "X-Request-ID")
        (serve sql redis jwt json binder lib cfg h m at c w)
unfolding serve trace_logger recovery request_trace
serve-FinishesCarrying sql redis jwt json binder lib cfg h m at c w =
    after_recovery _ cfg.log.audit_enabled cfg.log.audit_excludes (at.end - at.start) _ (
      answer-Keeps sql redis jwt json binder lib _ cfg h m at _ w
        (attach_trace-Carries (request_trace at.uuid c) c))
