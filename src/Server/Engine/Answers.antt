-- ===== src/Server/Engine/Answers.antt =====
-- The engine of internal/server.go answers every request once.
use ginblade.Server.Engine.Replies.{
  IsAnswer, EndsInAnswer, MayAnswer, AnswersOrPanics, written, run_endpoint-Answers,
}
use ginblade.Prelude.{
  [], ◌∷◌, ◌++◌, ap, ℕ, ◌≡◌, refl, ◌∙◌, inl, inr, String, Bool, true, false, Option, none, some,
  List, Bool-cases, is_empty, trim_space, str_eq, not, ◌&&◌, ◌-◌,
}
use ginblade.Prelude.Int.{ℤ, is_positive}
use ginblade.Errors.{Result, ok, err}
use ginblade.Auth.{JwtManager}
use ginblade.Auth.Library.{Jwt, Claims}
use ginblade.Handler.{Binder}
use ginblade.Http.{Body, text, Gin, Outcome, finished, panicked, Handler, after}
use ginblade.Middleware.{
  timeout, cors, bearer_auth, admit, cors_headers, allow_origin, contains, allowed_origins,
  trace_logger, recovery, recovered, recover, audit, attach_trace, request_trace, excluded_paths,
}
use ginblade.Config.Types.{Config}
use ginblade.Task.{Json}
use ginblade.Database.{Sql}
use ginblade.Cache.{Redis}
use ginblade.Middleware.RateLimit.{IpRateLimiter, rate_limit, decide}
use ginblade.Middleware.RateLimit.Library.{Limiters}
use ginblade.Router.{Route, Endpoint, find_route}
use ginblade.Server.{HttpHandlers, Readings}
use ginblade.Server.Engine.{
  lift_outcome, lift, run_endpoint, guard, run_route, routes, answer, serve,
}

cors_headers-bodies : (os : List String) (c : Gin) → (cors_headers os c).bodies ≡ c.bodies
unfolding cors_headers allow_origin
cors_headers-bodies os c =
    elim (Bool-cases (
      not (is_empty (trim_space (c.header "Origin")))
      && contains (allowed_origins os) (trim_space (c.header "Origin")))) [
        | inl named ↦ rw named refl
        | inr unnamed ↦ rw unnamed refl
      ]

module _ {W : Type 0} where
  admit-Answers :
      (r : Result Claims) (next : Handler W) → AnswersOrPanics next → AnswersOrPanics (admit r next)
  admit-Answers (err e) next k bodies c w h = written bodies _ c tt h
  admit-Answers (ok claims) next k bodies c w h = k bodies _ w h

  bearer_auth-Answers :
      (jwt : Jwt) (m : Option JwtManager) (now : ℕ) (next : Handler W)
      → AnswersOrPanics next
      → AnswersOrPanics (bearer_auth jwt m now next)
  unfolding bearer_auth
  bearer_auth-Answers jwt none now next k bodies c w h = written bodies _ c tt h
  bearer_auth-Answers jwt (some m) now next k bodies c w h = admit-Answers _ next k bodies c w h

  cors-Answers :
      (os : List String) (next : Handler W) → AnswersOrPanics next → AnswersOrPanics (cors os next)
  unfolding cors
  cors-Answers os next k bodies c w h =
      let kept = cors_headers-bodies os c ∙ h in
      elim (Bool-cases (str_eq (cors_headers os c).method "OPTIONS")) [
        | inl preflight ↦ rw preflight (inr (kept, refl))
        | inr other ↦ rw other (k bodies _ w kept)
      ]

  timeout-Answers :
      (d : ℤ) (now : ℕ) (next : Handler W)
      → AnswersOrPanics next
      → AnswersOrPanics (timeout d now next)
  unfolding timeout
  timeout-Answers d now next k bodies c w h = elim (Bool-cases (is_positive d)) [
    | inl bounded ↦ rw bounded (k bodies _ w h)
    | inr free ↦ rw free (k bodies c w h)
  ]

audit-IsAnswer :
    (bodies : List Body) (enabled : Bool) (excludes : List String) (latency : ℕ) (c : Gin)
    → IsAnswer bodies c
    → IsAnswer bodies (audit enabled excludes latency c)
unfolding audit
audit-IsAnswer bodies false excludes latency c h = h
audit-IsAnswer bodies true excludes latency c h =
    elim (Bool-cases (contains (excluded_paths excludes) c.path)) [
      | inl skip ↦ rw skip h
      | inr keep ↦ rw keep h
    ]

recover-IsAnswer :
    (bodies : List Body) (p : String) (c : Gin) → c.bodies ≡ bodies → IsAnswer bodies (recover p c)
unfolding recover
recover-IsAnswer bodies p c h = written bodies _ c tt h

-- Recovery answers for a chain that panicked.
audited-EndsInAnswer :
    {W : Type 0} (bodies : List Body) (enabled : Bool) (excludes : List String) (latency : ℕ)
    (o : Outcome W)
    → MayAnswer bodies o
    → EndsInAnswer bodies
        (after (recovered o) (λ c w. finished (audit enabled excludes latency c) w))
unfolding recover
audited-EndsInAnswer bodies enabled excludes latency (finished c w) h =
    audit-IsAnswer bodies enabled excludes latency c h
audited-EndsInAnswer bodies enabled excludes latency (panicked p c w) h =
    audit-IsAnswer bodies enabled excludes latency (recover p c) (recover-IsAnswer bodies p c h)

module _ {S : Type 0} (sql : Sql S) (redis : Redis S) (jwt : Jwt) (json : Json) (binder : Binder)
    (lib : Limiters) where
  lift_outcome-MayAnswer :
      (bodies : List Body) (l : Option (IpRateLimiter lib)) (o : Outcome S)
      → EndsInAnswer bodies o
      → MayAnswer bodies (lift_outcome sql redis jwt json binder lib l o)
  lift_outcome-MayAnswer bodies l (finished c s) h = h
  lift_outcome-MayAnswer bodies l (panicked p c s) h = absurd h

  lift_endpoint-Answers :
      (h : HttpHandlers sql redis) (now : ℕ) (panic : Option String) (e : Endpoint)
      → AnswersOrPanics (
          lift sql redis jwt json binder lib panic
            (run_endpoint sql redis jwt json binder lib h now e))
  lift_endpoint-Answers h now (some p) e bodies c (l, s) k = k
  lift_endpoint-Answers h now none e bodies c (l, s) k =
      lift_outcome-MayAnswer bodies l _
        (run_endpoint-Answers sql redis jwt json binder lib h now e bodies c s k)

  guard-Answers :
      (guarded : Bool) (m : Option JwtManager) (now : ℕ)
      (next : Handler (Option (IpRateLimiter lib) × S))
      → AnswersOrPanics next
      → AnswersOrPanics (guard sql redis jwt json binder lib guarded m now next)
  unfolding guard bearer_auth
  guard-Answers false m now next k = k
  guard-Answers true m now next k = bearer_auth-Answers jwt m now next k

  run_route-Answers :
      (h : HttpHandlers sql redis) (m : Option JwtManager) (now : ℕ) (panic : Option String)
      (r : Option Route)
      → AnswersOrPanics (run_route sql redis jwt json binder lib h m now panic r)
  run_route-Answers h m now panic none bodies c w k = inl (
    text "404 page not found",
    ap (λ bs. bs ++ text "404 page not found" ∷ []) k,
    inr (refl, refl),
  )
  run_route-Answers h m now panic (some r) bodies c w k =
      guard-Answers r.guarded m now _ (lift_endpoint-Answers h now panic r.endpoint) bodies c w k

  decide-MayAnswer :
      (allowed : Bool) (next : Handler (Option (IpRateLimiter lib) × S))
      (w : Option (IpRateLimiter lib) × S) (bodies : List Body) (c : Gin)
      → AnswersOrPanics next
      → c.bodies ≡ bodies
      → MayAnswer bodies (decide lib allowed c (λ c'. next c' w) w)
  decide-MayAnswer true next w bodies c k h = k bodies c w h
  decide-MayAnswer false next w bodies c k h = written bodies _ c tt h

  rate_limit-Answers :
      (seen at : ℕ) (next : Handler (Option (IpRateLimiter lib) × S))
      → AnswersOrPanics next
      → AnswersOrPanics (rate_limit lib seen at next)
  unfolding rate_limit
  rate_limit-Answers seen at next k bodies c (none, w) h = k bodies c (none, w) h
  rate_limit-Answers seen at next k bodies c (some l, w) h = decide-MayAnswer _ next _ bodies c k h

  answer-Answers :
      (cfg : Config) (h : HttpHandlers sql redis) (m : Option JwtManager) (at : Readings)
      → AnswersOrPanics (answer sql redis jwt json binder lib cfg h m at)
  unfolding answer timeout cors rate_limit
  answer-Answers cfg h m at = timeout-Answers cfg.server.request_timeout at.deadline_from _ (
      cors-Answers cfg.cors.allow_origins _ (
        rate_limit-Answers at.seen at.limited_at _ (λ bodies c w k.
          run_route-Answers h m at.answered_at at.panic
            (find_route c.method c.path (routes sql redis jwt json binder lib h m)) bodies c w k)))

-- The engine answers every request once and without a panic, even if a library panics in the
-- request's handler. Either one JSON body is written at status 200 or 503, or gin's text for an
-- unknown path at status 404, or no body is written and the status is 204.
pub serve-EndsInAnswer :
    {S : Type 0} (sql : Sql S) (redis : Redis S) (jwt : Jwt) (json : Json) (binder : Binder)
    (lib : Limiters) (cfg : Config) (h : HttpHandlers sql redis) (m : Option JwtManager)
    (at : Readings) (c : Gin) (w : Option (IpRateLimiter lib) × S)
    → EndsInAnswer c.bodies (serve sql redis jwt json binder lib cfg h m at c w)
unfolding serve trace_logger recovery attach_trace request_trace
serve-EndsInAnswer sql redis jwt json binder lib cfg h m at c w =
    audited-EndsInAnswer c.bodies cfg.log.audit_enabled cfg.log.audit_excludes (at.end - at.start) _
      (answer-Answers sql redis jwt json binder lib cfg h m at c.bodies _ w refl)
