-- ===== src/Server/Engine/Replies.antt =====
-- The handlers of internal/handler answer every request once.
use ginblade.Prelude.{
  ℕ, ◌≡◌, refl, ap, inl, inr, ◌⊎◌, String, Bool, true, false, Option, none, some, List, [], ◌∷◌,
  ◌++◌,
}
use ginblade.Errors.{Result, ok, err}
use ginblade.Auth.{JwtManager}
use ginblade.Auth.Library.{Jwt}
use ginblade.Response.{Data}
use ginblade.Service.{Reply}
use ginblade.Handler.{
  Binder, Bound, bound, refused, with_request, respond, report, issued, create_token_with, check,
  pinged, health_context, show_health,
}
use ginblade.Http.{
  Body, envelope, health, text, Entry, Gin, Outcome, finished, panicked, Handler, write_json,
  write_success, write_error, write_validation_error,
}
use ginblade.Handler
use ginblade.Database
use ginblade.Cache
use ginblade.Task.{Json}
use ginblade.Database.{Sql}
use ginblade.Cache.{Redis}
use ginblade.Middleware.RateLimit.Library.{Limiters}
use ginblade.Router.{
  Endpoint, check_health, create_token, show_me, list_examples, create_example, enqueue_task,
}
use ginblade.Server.{HttpHandlers}
use ginblade.Server.Engine.{run_endpoint}

-- A JSON body, not gin's own text.
abbrev pub IsJson : Body → Type 0
IsJson (envelope r) = Unit
IsJson (health status checks) = Unit
IsJson (text t) = ⊥

-- One body more: JSON at status 200 or 503, or gin's text at status 404; or none, at status 204.
abbrev pub IsAnswer : List Body → Gin → Type 0
IsAnswer bodies c =
    ((b : Body) × (c.bodies ≡ bodies ++ b ∷ [])
      × ((IsJson b × ((c.status ≡ 200) ⊎ (c.status ≡ 503)))
          ⊎ ((b ≡ text "404 page not found") × (c.status ≡ 404))))
    ⊎ ((c.bodies ≡ bodies) × (c.status ≡ 204))

-- A request that finishes with an answer.
abbrev pub EndsInAnswer : {W : Type 0} → List Body → Outcome W → Type 0
EndsInAnswer bodies (finished c w) = IsAnswer bodies c
EndsInAnswer bodies (panicked p c w) = ⊥

-- However a request ends, with an answer, or with a panic before a body was written.
abbrev pub MayAnswer : {W : Type 0} → List Body → Outcome W → Type 0
MayAnswer bodies (finished c w) = IsAnswer bodies c
MayAnswer bodies (panicked p c w) = c.bodies ≡ bodies

-- A handler that answers every request.
abbrev pub Answers : {W : Type 0} → Handler W → Type 0
Answers {W} h =
    (bodies : List Body) (c : Gin) (w : W) → c.bodies ≡ bodies → EndsInAnswer bodies (h c w)

-- A chain that answers every request on which it does not panic.
abbrev pub AnswersOrPanics : {W : Type 0} → Handler W → Type 0
AnswersOrPanics {W} h =
    (bodies : List Body) (c : Gin) (w : W) → c.bodies ≡ bodies → MayAnswer bodies (h c w)

pub written :
    (bodies : List Body) (b : Body) (c : Gin)
    → IsJson b
    → c.bodies ≡ bodies
    → IsAnswer bodies (write_json 200 b c)
written bodies b c json h = inl (b, ap (λ bs. bs ++ b ∷ []) h, inl (json, inl refl))

unwell :
    (bodies : List Body) (b : Body) (c : Gin)
    → IsJson b
    → c.bodies ≡ bodies
    → IsAnswer bodies (write_json 503 b c)
unwell bodies b c json h = inl (b, ap (λ bs. bs ++ b ∷ []) h, inl (json, inr refl))

module _ {S : Type 0} where
  with_request-Answers :
      {A : Type 0} (bodies : List Body) (b : Bound A) (k : A → Outcome S) (c : Gin) (s : S)
      → c.bodies ≡ bodies
      → ((a : A) → EndsInAnswer bodies (k a))
      → EndsInAnswer bodies (with_request b k c s)
  unfolding write_validation_error
  with_request-Answers bodies (bound a) k c s h f = f a
  with_request-Answers bodies (refused e) k c s h f = written bodies _ c tt h

  respond_with_log :
      {A : Type 0} (bodies : List Body) (f : A → Data) (c : Gin) (r : Result A) (log : List Entry)
      (s : S)
      → c.bodies ≡ bodies
      → EndsInAnswer bodies (respond f c (record { result = r; log = log; state = s }))
  unfolding write_success write_error
  respond_with_log bodies f c (ok a) log s h =
      written bodies _ (record c { log = c.log ++ log }) tt h
  respond_with_log bodies f c (err e) log s h =
      written bodies _ (record c { log = c.log ++ log }) tt h

  report-Answers :
      (bodies : List Body) (c : Gin) (s : S) (a b : String × Bool)
      → c.bodies ≡ bodies
      → EndsInAnswer bodies (report c s a b)
  report-Answers bodies c s (p, true) (r, true) h = written bodies _ c tt h
  report-Answers bodies c s (p, true) (r, false) h = unwell bodies _ c tt h
  report-Answers bodies c s (p, false) (r, u) h = unwell bodies _ c tt h

  issued-Answers :
      (bodies : List Body) (binder : Binder) (c : Gin) (s : S) (r : Result String)
      → c.bodies ≡ bodies
      → EndsInAnswer bodies (issued binder c s r)
  unfolding write_success write_error
  issued-Answers bodies binder c s (ok t) h = written bodies _ c tt h
  issued-Answers bodies binder c s (err e) h = written bodies _ c tt h

  respond-Answers :
      {A : Type 0} (bodies : List Body) (f : A → Data) (c : Gin) (r : Reply S A)
      → c.bodies ≡ bodies
      → EndsInAnswer bodies (respond f c r)
  respond-Answers bodies f c r h = respond_with_log bodies f c r.result r.log r.state h

  create_token_with-Answers :
      (binder : Binder) (jwt : Jwt) (now : ℕ) (m : Option JwtManager)
      → Answers (create_token_with {S = S} binder jwt now m)
  unfolding write_error
  create_token_with-Answers binder jwt now none bodies c s h = written bodies _ c tt h
  create_token_with-Answers binder jwt now (some m) bodies c s h =
      with_request-Answers bodies (binder.create_token c) _ c s h
        (λ req. issued-Answers bodies binder c s _ h)

module _ {S : Type 0} (sql : Sql S) (redis : Redis S) (jwt : Jwt) (json : Json) (binder : Binder)
    (lib : Limiters) where
  pub run_endpoint-Answers :
      (h : HttpHandlers sql redis) (now : ℕ) (e : Endpoint)
      → Answers (run_endpoint sql redis jwt json binder lib h now e)
  unfolding show_health Handler.create_token Handler.show_me Handler.list_examples
      Handler.create_example Handler.enqueue_task write_success
  run_endpoint-Answers h now check_health bodies c s k =
      report-Answers bodies c s
        (check false (pinged (λ m. Database.ping sql m (health_context now c) s) h.health.db))
        (check true (pinged (λ m. Cache.ping redis m (health_context now c) s) h.health.cache)) k
  run_endpoint-Answers h now create_token bodies c s k =
      create_token_with-Answers binder jwt now _ bodies c s k
  run_endpoint-Answers h now show_me bodies c s k = written bodies _ c tt k
  run_endpoint-Answers h now list_examples bodies c s k =
      with_request-Answers bodies (binder.list_examples c) _ c s k
        (λ req. respond-Answers bodies _ c _ k)
  run_endpoint-Answers h now create_example bodies c s k =
      with_request-Answers bodies (binder.create_example c) _ c s k
        (λ req. respond-Answers bodies _ c _ k)
  run_endpoint-Answers h now enqueue_task bodies c s k =
      with_request-Answers bodies (binder.enqueue_task c) _ c s k
        (λ req. respond-Answers bodies _ c _ k)
