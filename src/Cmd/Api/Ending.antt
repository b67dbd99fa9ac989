-- ===== src/Cmd/Api/Ending.antt =====
-- How the API process can end.
use ginblade.Prelude.{
  some-injective, none-ne-some, ap, sym, ◌∙◌, Bool-cases, ◌≡◌, ◌⊎◌, refl, inl, inr, String, true,
  false, Option, none, some, List, [], ◌∷◌, ◌++◌,
}
use ginblade.Errors.{ok-injective, ok-ne-err, GoError, Result, ok, err}
use mathlib.Core.Path.{ap₂}
use ginblade.Http.{Entry, fatal}
use ginblade.Shutdown.{process_entry}
use ginblade.Cmd.Api.{
  starting, Serving, run_api, stop_server, after_exit, serve, with_server, after_stop, with_runtime,
  with_registry, leave,
}
use ginblade.Log.{Loggers}
use ginblade.Config.Types.{Config}
use ginblade.Repository.Library.{Gorm}
use ginblade.Database.{Sql}
use ginblade.Cache.{Redis}
use ginblade.Middleware.RateLimit.Library.{Limiters}
use ginblade.Bootstrap
use ginblade.Bootstrap.{
  Asynq, Registry, init_runtime, Platform, RuntimeStart, set_up, refused, crashed, init_api,
}
use ginblade.Server.Startup
use ginblade.Server.Startup.{HttpSettings, new_http_server, HttpServer, Server, new_server}
use ginblade.Server.Wiring.{init_api-IsReady, new_server_verdict}
use ginblade.Cmd.Starting.{NeverStarted}
use ginblade.Cmd.{Process, returned, exited, dies, returns}
use ginblade.Cmd.Api.Stopping.{HasStopped, stop_server-HasStopped}

module _ {S : Type 0} (lib : Limiters) (sql : Sql S) (redis : Redis S) (serving : Serving S)
    (asynq : Asynq S) (gorm : Gorm S) (set_trusted_proxies : List String → Option GoError)
    (listen : HttpSettings → HttpServer S) (platform : Platform) (cfg : Config) (loggers : Loggers)
    (s : S) where
  -- The state once InitAPI has run.
  abbrev pub opened : S
  opened = (init_api sql redis asynq (some cfg) s).2

  -- What InitAPI logs.
  abbrev pub opening : List Entry
  opening = (init_api sql redis asynq (some cfg) s).1

  -- What the server serves from: the registry that InitAPI made, and the server that NewServer
  -- made of it.
  pub record Assembled : Type 0 where
    pub r : Registry sql redis asynq
    pub v : Server lib sql redis
    pub initialized : init_api sql redis asynq (some cfg) s ≡ (ok r, opening, opened)
    pub made : new_server lib sql redis asynq gorm set_trusted_proxies listen (some r) ≡ ok v

  -- An exit before the server serves, for the error of InitAPI or, once the resources are open, for
  -- that of the trusted proxies.
  abbrev pub NeverServed : Process S → Type 0
  NeverServed p =
      (p.exit ≡ exited)
      × (p.state ≡ opened)
      × (((e : GoError) × ((init_api sql redis asynq (some cfg) s).0 ≡ err e)
            × (p.log ≡ opening ++ process_entry fatal "initialize application" (some e) ∷ []))
          ⊎ ((e : GoError) × (set_trusted_proxies cfg.server.trusted_proxies ≡ some e)))

  -- An exit since the server failed by itself. The registry is not closed.
  abbrev pub Failed : Process S → Type 0
  Failed p =
      (a : Assembled) × (e : GoError) × (p.exit ≡ exited)
      × (p.synced ≡ false)
      × (Startup.run lib sql redis (some a.v) opened ≡ (some e, p.state))
      × (p.log ≡ (opening ++ starting cfg) ++ process_entry fatal "web server error" (some e) ∷ [])

  -- main returned: the server ended by itself without an error, or a signal stopped it, and then
  -- its rate limiter is stopped; the deferred calls closed the registry and synced the log.
  pub record Returned (p : Process S) : Type 0 where
    pub a : Assembled
    pub last : S
    pub left : p.exit ≡ returned
    pub synced : p.synced ≡ true
    pub closed : p.state ≡ (Bootstrap.close sql redis asynq (some a.r) last).1
    ended :
        (Startup.run lib sql redis (some a.v) opened ≡ (none, last))
        ⊎ ((last ≡ (stop_server lib sql redis serving a.v (serving.at_signal opened)).state.1)
            × HasStopped lib sql redis serving
                (new_http_server listen a.v.cfg)
                (stop_server lib sql redis serving a.v (serving.at_signal opened)).state.0)

  abbrev pub Ends : Process S → Type 0
  Ends p = NeverStarted platform cfg loggers "api" s p ⊎ NeverServed p ⊎ Failed p ⊎ Returned p

  abbrev api : Process S
  unfolding run_api
  api = run_api lib sql redis serving asynq gorm set_trusted_proxies listen platform cfg loggers s

  after_exit-Ends :
      (a : Assembled) (l : Loggers) (p : Option GoError × S)
      → Startup.run lib sql redis (some a.v) opened ≡ p
      → Ends (
          after_exit lib sql redis serving asynq gorm set_trusted_proxies listen a.r cfg opening l
            p)
  unfolding after_exit leave dies returns
  after_exit-Ends a l (none, last) h = inr (
      inr (
        inr (record {
          a = a;
          last = last;
          left = refl;
          synced = refl;
          closed = refl;
          ended = inl h;
        })))
  after_exit-Ends a l (some e, last) h = inr (inr (inl (a, e, refl, refl, h, refl)))

  serve-Ends :
      (a : Assembled) (l : Loggers)
      → a.v.http ≡ some (new_http_server listen a.v.cfg)
      → Ends (
          serve lib sql redis serving asynq gorm set_trusted_proxies listen a.r a.v cfg opening l
            opened)
  unfolding serve after_stop leave returns
  serve-Ends a l has = elim (Bool-cases (serving.ends_first opened)) [
    | inl first ↦ rw first (after_exit-Ends a l _ refl)
    | inr signaled ↦ rw signaled (
        inr (
          inr (
            inr (record {
              a = a;
              last = _;
              left = refl;
              synced = refl;
              closed = refl;
              ended = inr (refl, stop_server-HasStopped lib sql redis serving _ a.v _ has);
            }))))
  ]

  abbrev made_server : Registry sql redis asynq → Result (Server lib sql redis)
  unfolding new_server
  made_server r = new_server lib sql redis asynq gorm set_trusted_proxies listen (some r)

  same_config :
      (r r' : Registry sql redis asynq) (cfg' : Config)
      → some r ≡ some r'
      → r'.cfg ≡ some cfg'
      → r.cfg ≡ some cfg
      → cfg ≡ cfg'
  same_config r r' cfg' is has held =
      some-injective _ _ (sym held ∙ ap (λ q. q.cfg) (some-injective r r' is) ∙ has)

  -- NewServer refuses a registry of InitAPI for the trusted proxies only.
  refused_by_proxies :
      (r : Registry sql redis asynq) (e : GoError)
      → init_api sql redis asynq (some cfg) s ≡ (ok r, opening, opened)
      → made_server r ≡ err e
      → (e : GoError) × (set_trusted_proxies cfg.server.trusted_proxies ≡ some e)
  unfolding made_server
  refused_by_proxies r e made h =
      let ready = init_api-IsReady sql redis asynq (some cfg) s opened r opening made in
      elim (new_server_verdict lib sql redis asynq gorm set_trusted_proxies listen (some r)) [
        | inl (x, failed, inl invalid) ↦ absurd (none-ne-some _ (sym ready.0 ∙ invalid))
        | inl (x, failed, inr (r', cfg', cause, is, has, given, said)) ↦ (
          cause,
          ap (λ c. set_trusted_proxies c.server.trusted_proxies)
                (same_config r r' cfg' is has ready.1)
              ∙ given,
        )
        | inr a ↦ absurd (ok-ne-err (sym a.made ∙ h))
      ]

  made_server-http :
      (r : Registry sql redis asynq) (v : Server lib sql redis)
      → made_server r ≡ ok v
      → v.http ≡ some (new_http_server listen v.cfg)
  unfolding made_server
  made_server-http r v h =
      elim (new_server_verdict lib sql redis asynq gorm set_trusted_proxies listen (some r)) [
        | inl (x, failed, why) ↦ absurd (ok-ne-err (sym h ∙ failed))
        | inr a ↦ rw (← ok-injective (sym a.made ∙ h)) a.serves
      ]

  with_server-Ends :
      (r : Registry sql redis asynq) (l : Loggers) (q : Result (Server lib sql redis))
      → init_api sql redis asynq (some cfg) s ≡ (ok r, opening, opened)
      → made_server r ≡ q
      → Ends (
          with_server lib sql redis serving asynq gorm set_trusted_proxies listen r cfg opening l
            opened q)
  unfolding with_server dies made_server
  with_server-Ends r l (err e) made h = inr (inl (refl, refl, inr (refused_by_proxies r e made h)))
  with_server-Ends r l (ok v) made h =
      serve-Ends (record { r = r; v = v; initialized = made; made = h }) l (made_server-http r v h)

  with_registry-Ends :
      (l : Loggers) (q : Result (Registry sql redis asynq) × List Entry × S)
      → init_api sql redis asynq (some cfg) s ≡ q
      → Ends (with_registry lib sql redis serving asynq gorm set_trusted_proxies listen cfg l q)
  unfolding with_registry dies made_server
  with_registry-Ends l (err e, log, after) h = inr (
      inl (
        refl,
        ap (λ q. q.2) (sym h),
        inl (
          e,
          ap (λ q. q.0) h,
          sym (ap (λ q. q.1 ++ process_entry fatal "initialize application" (some e) ∷ []) h),
        ),
      ))
  with_registry-Ends l (ok r, log, after) h =
      let at = ap (λ q. q.2) h in
      let initialized = h ∙ ap₂ (λ x y. (ok r, x, y)) (sym (ap (λ q. q.1) h)) (sym at) in
      rw (← at, ← ap (λ q. q.1) h) (with_server-Ends r l _ initialized refl)

  with_runtime-Ends :
      (q : Loggers × RuntimeStart)
      → init_runtime platform (some cfg) ("api" ∷ []) loggers ≡ q
      → Ends (with_runtime lib sql redis serving asynq gorm set_trusted_proxies listen cfg s q)
  unfolding with_runtime
  with_runtime-Ends (l, refused e) h = inl (refl, (e, inl (ap (λ q. q.1) h, refl)))
  with_runtime-Ends (l, crashed e) h = inl (refl, (e, inr (ap (λ q. q.1) h, refl)))
  with_runtime-Ends (l, set_up) h = with_registry-Ends l _ refl

  -- The API process either panics, for InitRuntime, and has opened nothing; or exits, for
  -- the error of InitAPI, or for that of the trusted proxies and no other error of NewServer; or
  -- exits since the server that NewServer made failed by itself, in the state that the server left,
  -- without the deferred calls; or returns, and then the registry was closed and the log synced, after
  -- the server ended without an error or a signal's shutdown ended it, with its rate limiter stopped.
  -- An exit for InitAPI or for the server logs that error, behind what InitAPI logged.
  pub run_api_verdict :
      Ends
        (run_api lib sql redis serving asynq gorm set_trusted_proxies listen platform cfg loggers s)
  unfolding run_api
  run_api_verdict = with_runtime-Ends _ refl
