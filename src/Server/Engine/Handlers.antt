-- ===== src/Server/Engine/Handlers.antt =====
-- The handlers keep the trace id of a request.
use ginblade.Log.{trace_id_from}
use ginblade.Prelude.{ℕ, ◌≡◌, refl, String, Bool, true, false, Option, none, some, List, ◌∙◌}
use ginblade.Errors.{GoError, Result, ok, err}
use ginblade.Auth.{JwtManager}
use ginblade.Auth.Library.{Jwt}
use ginblade.Task.{Json}
use ginblade.Database.{Sql}
use ginblade.Cache.{Redis}
use ginblade.Handler
use ginblade.Database
use ginblade.Cache
use ginblade.Handler.{
  check, pinged, health_context, Binder, Bound, bound, refused, with_request, respond, report,
  show_health, issued, create_token_with,
}
use ginblade.Http.{
  Gin, Outcome, finished, panicked, Handler, write_validation_error, Entry, get_string, trace_of,
  write_success, write_error,
}
use ginblade.Response.{Data}
use ginblade.Service.{Reply}
use ginblade.Middleware.RateLimit.Library.{Limiters}
use ginblade.Middleware.Trace.{Carries}
use ginblade.Router.{
  Endpoint, check_health, create_token, show_me, list_examples, create_example, enqueue_task,
}
use ginblade.Server.{HttpHandlers}
use ginblade.Server.Engine.{run_endpoint}

-- However a request ends, it carries the trace id.
abbrev pub CarriesOut : {W : Type 0} → String → Outcome W → Type 0
CarriesOut id (finished c w) = Carries id c
CarriesOut id (panicked p c w) = Carries id c

-- A handler keeps the trace id of every request that carries it.
abbrev pub Keeps : {W : Type 0} → String → Handler W → Type 0
Keeps {W} id h = (c : Gin) (w : W) → Carries id c → CarriesOut id (h c w)

pub Carries-congr :
    {id : String} (c c' : Gin)
    → trace_of c' ≡ trace_of c
    → trace_id_from (some c'.ctx) ≡ trace_id_from (some c.ctx)
    → get_string "X-Request-ID" c'.response_header ≡ get_string "X-Request-ID" c.response_header
    → Carries id c
    → Carries id c'
Carries-congr c c' keys ctx header h = record {
  in_keys = keys ∙ h.in_keys;
  in_context = ctx ∙ h.in_context;
  in_header = header ∙ h.in_header;
}

write_success-Carries :
    {id : String} (d : Data) (c : Gin) → Carries id c → Carries id (write_success d c)
unfolding write_success trace_of
write_success-Carries d c h = Carries-congr c _ refl refl refl h

write_error-Carries :
    {id : String} (e : GoError) (c : Gin) → Carries id c → Carries id (write_error e c)
unfolding write_error trace_of
write_error-Carries e c h = Carries-congr c _ refl refl refl h

module _ {S : Type 0} {id : String} where
  with_request-Keeps :
      {A : Type 0} (b : Bound A) (k : A → Outcome S) (c : Gin) (s : S)
      → Carries id c
      → ((a : A) → CarriesOut id (k a))
      → CarriesOut id (with_request b k c s)
  unfolding write_validation_error trace_of
  with_request-Keeps (bound a) k c s h f = f a
  with_request-Keeps (refused e) k c s h f = Carries-congr c _ refl refl refl h

  respond_with_log :
      {A : Type 0} (f : A → Data) (c : Gin) (r : Result A) (log : List Entry) (s : S)
      → Carries id c
      → CarriesOut id (respond f c (record { result = r; log = log; state = s }))
  unfolding trace_of
  respond_with_log f c (ok a) log s h =
      write_success-Carries (f a) _ (Carries-congr c _ refl refl refl h)
  respond_with_log f c (err e) log s h =
      write_error-Carries e _ (Carries-congr c _ refl refl refl h)

  respond-Keeps :
      {A : Type 0} (f : A → Data) (c : Gin) (r : Reply S A)
      → Carries id c
      → CarriesOut id (respond f c r)
  respond-Keeps f c r h = respond_with_log f c r.result r.log r.state h

  report-Keeps :
      (c : Gin) (s : S) (a b : String × Bool) → Carries id c → CarriesOut id (report c s a b)
  unfolding trace_of
  report-Keeps c s (p, true) (r, true) h = Carries-congr c _ refl refl refl h
  report-Keeps c s (p, true) (r, false) h = Carries-congr c _ refl refl refl h
  report-Keeps c s (p, false) (r, u) h = Carries-congr c _ refl refl refl h

  issued-Keeps :
      (binder : Binder) (c : Gin) (s : S) (r : Result String)
      → Carries id c
      → CarriesOut id (issued binder c s r)
  issued-Keeps binder c s (ok t) h = write_success-Carries _ c h
  issued-Keeps binder c s (err e) h = write_error-Carries _ c h

  create_token_with-Keeps :
      (binder : Binder) (jwt : Jwt) (now : ℕ) (m : Option JwtManager)
      → Keeps id (create_token_with {S = S} binder jwt now m)
  create_token_with-Keeps binder jwt now none c s h = write_error-Carries _ c h
  create_token_with-Keeps binder jwt now (some m) c s h =
      with_request-Keeps (binder.create_token c) _ c s h (λ req. issued-Keeps binder c s _ h)

module _ {S : Type 0} (sql : Sql S) (redis : Redis S) (jwt : Jwt) (json : Json) (binder : Binder)
    (lib : Limiters) {id : String} where
  pub run_endpoint-Keeps :
      (h : HttpHandlers sql redis) (now : ℕ) (e : Endpoint)
      → Keeps id (run_endpoint sql redis jwt json binder lib h now e)
  unfolding show_health Handler.create_token Handler.show_me Handler.list_examples
      Handler.create_example Handler.enqueue_task
  run_endpoint-Keeps h now check_health c s k =
      report-Keeps c s
        (check false (pinged (λ m. Database.ping sql m (health_context now c) s) h.health.db))
        (check true (pinged (λ m. Cache.ping redis m (health_context now c) s) h.health.cache)) k
  run_endpoint-Keeps h now create_token c s k = create_token_with-Keeps binder jwt now _ c s k
  run_endpoint-Keeps h now show_me c s k = write_success-Carries _ c k
  run_endpoint-Keeps h now list_examples c s k =
      with_request-Keeps (binder.list_examples c) _ c s k (λ req. respond-Keeps _ c _ k)
  run_endpoint-Keeps h now create_example c s k =
      with_request-Keeps (binder.create_example c) _ c s k (λ req. respond-Keeps _ c _ k)
  run_endpoint-Keeps h now enqueue_task c s k =
      with_request-Keeps (binder.enqueue_task c) _ c s k (λ req. respond-Keeps _ c _ k)
