-- ===== src/Cmd/Api.antt =====
-- cmd/api/main.go: main. gin's check of the proxies, net/http's server and what happens while the
-- server serves are arguments.
pub mod Stopping
pub mod Ending
pub mod Lifecycle
use ginblade.Prelude.{ℕ, String, Bool, Option, none, some, List, [], ◌∷◌, ◌++◌, if◌then◌else◌}
use ginblade.Prelude.Int.{ℤ}
use ginblade.Errors.{wrap, GoError, Result, ok, err}
use ginblade.Context.{Context}
use ginblade.Http.{Entry, info, error, str}
use ginblade.Log.{Loggers}
use ginblade.Config.{Env}
use ginblade.Config.Types.{Config}
use ginblade.Repository.Library.{Gorm}
use ginblade.Database.{Sql}
use ginblade.Cache.{Redis}
use ginblade.Middleware.RateLimit.Library.{Limiters}
use ginblade.Bootstrap
use ginblade.Bootstrap.{
  Asynq, Registry, init_runtime, Platform, RuntimeStart, set_up, refused, crashed, init_api,
}
use ginblade.Server.Startup
use ginblade.Server.Startup.{HttpSettings, HttpServer, Server, new_server}
use ginblade.Shutdown.{Stopped, shutdown_web_server, process_entry}
use ginblade.Cmd.{Process, read_config, panics, dies, returns}

-- What happens while the server serves: whether it ends before a signal comes, what the signal finds
-- if it comes first, the context of the shutdown, and what the channel then gives before the timer.
pub record Serving (S : Type 0) : Type 0 where
  pub ends_first : S → Bool
  pub at_signal : S → S
  pub shutdown_context : Context
  pub exit : S → Option (Option GoError)

abbrev pub starting : Config → List Entry
starting cfg =
    record {
      level = info;
      message = "starting web server";
      trace = "";
      fields = str "addr" cfg.server.port ∷ [];
    }
    ∷ []

abbrev pub failure_entries : Option GoError → List Entry
failure_entries none = []
failure_entries (some e) = process_entry error "web server shutdown failed" (some e) ∷ []

module _ {S : Type 0} (lib : Limiters) (sql : Sql S) (redis : Redis S) (serving : Serving S) where
  abbrev pub Owned : Type 0
  Owned = Option (Server lib sql redis) × S

  -- The server with the state that it lives in, as shutdownWebServer stops it.
  unfoldable pub shutdown_owned : Owned → Option GoError × Owned
  unfolding Startup.shutdown
  shutdown_owned (v, s) =
      let (e, v', s') = Startup.shutdown lib sql redis v serving.shutdown_context s in (e, (v', s'))

  unfoldable pub close_owned : Owned → Option GoError × Owned
  unfolding Startup.close
  close_owned (v, s) = let (e, v', s') = Startup.close lib sql redis v s in (e, (v', s'))

  -- shutdownWebServer, for a server that a signal stops
  unfoldable pub stop_server : Server lib sql redis → S → Stopped Owned
  unfolding shutdown_owned close_owned shutdown_web_server
  stop_server v s =
      shutdown_web_server shutdown_owned close_owned (λ o. serving.exit o.1) (some v, s)

  module _ (asynq : Asynq S) (gorm : Gorm S) (set_trusted_proxies : List String → Option GoError)
      (listen : HttpSettings → HttpServer S) where
    -- The deferred closing of the registry, and the deferred Sync.
    abbrev pub leave : Registry sql redis asynq → List Entry → Loggers → S → Process S
    unfolding returns Bootstrap.close
    leave r log loggers s =
        returns "close registry" (Bootstrap.close sql redis asynq (some r)) log loggers s

    unfoldable pub after_exit :
        Registry sql redis asynq → Config → List Entry → Loggers → Option GoError × S → Process S
    unfolding dies leave
    after_exit r cfg log loggers (none, s) = leave r (log ++ starting cfg) loggers s
    after_exit r cfg log loggers (some e, s) =
        dies "web server error" (some e) (log ++ starting cfg) loggers s

    unfoldable pub after_stop :
        Registry sql redis asynq → Config → List Entry → Loggers → Stopped Owned → Process S
    unfolding leave
    after_stop r cfg log loggers stopped =
        leave r (log ++ starting cfg ++ stopped.log ++ failure_entries stopped.failure) loggers
          stopped.state.1

    -- The select, and what follows.
    unfoldable pub serve :
        Registry sql redis asynq
        → Server lib sql redis
        → Config
        → List Entry
        → Loggers
        → S
        → Process S
    unfolding after_exit after_stop Startup.run stop_server
    serve r v cfg log loggers s =
        if serving.ends_first s
        then after_exit r cfg log loggers (Startup.run lib sql redis (some v) s)
        else after_stop r cfg log loggers (stop_server v (serving.at_signal s))

    unfoldable pub with_server :
        Registry sql redis asynq
        → Config
        → List Entry
        → Loggers
        → S
        → Result (Server lib sql redis)
        → Process S
    unfolding dies serve
    with_server r cfg log loggers s (err e) = dies "assemble http server" (some e) log loggers s
    with_server r cfg log loggers s (ok v) = serve r v cfg log loggers s

    unfoldable pub with_registry :
        Config → Loggers → Result (Registry sql redis asynq) × List Entry × S → Process S
    unfolding dies with_server new_server
    with_registry cfg loggers (err e, log, s) = dies "initialize application" (some e) log loggers s
    with_registry cfg loggers (ok r, log, s) =
        with_server r cfg log loggers s
          (new_server lib sql redis asynq gorm set_trusted_proxies listen (some r))

    unfoldable pub with_runtime : Config → S → Loggers × RuntimeStart → Process S
    unfolding with_registry init_api
    with_runtime cfg s (loggers, refused e) = panics (wrap "init runtime" e) loggers s
    with_runtime cfg s (loggers, crashed e) = panics e loggers s
    with_runtime cfg s (loggers, set_up) =
        with_registry cfg loggers (init_api sql redis asynq (some cfg) s)

    -- main, with the configuration that it read
    unfoldable pub run_api : Platform → Config → Loggers → S → Process S
    unfolding with_runtime init_runtime
    run_api platform cfg loggers s =
        with_runtime cfg s (init_runtime platform (some cfg) ("api" ∷ []) loggers)

    -- main
    unfoldable pub main :
        (String → Env → Env) → (ℕ → ℕ → ℕ → ℕ) → Platform → Env → Loggers → S → Process S
    unfolding run_api read_config
    main load_file scale platform env loggers s =
        run_api platform (read_config load_file scale "cmd/api/.env" env) loggers s
