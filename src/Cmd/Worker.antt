-- ===== src/Cmd/Worker.antt =====
-- cmd/worker/main.go: main. What the two goroutines of Run do to the state is an argument.
pub mod Ending
use ginblade.Prelude.{ℕ, String, Option, none, some, List, [], ◌∷◌, ◌++◌}
use ginblade.Prelude.Int.{ℤ}
use ginblade.Errors.{wrap, GoError, Result, ok, err}
use ginblade.Context.{Context}
use ginblade.Http.{Entry, info, str}
use ginblade.Log.{Loggers}
use ginblade.Config.{Env}
use ginblade.Config.Types.{Config}
use ginblade.Task.{Json}
use ginblade.Database.{Sql}
use ginblade.Cache.{Redis}
use ginblade.Bootstrap
use ginblade.Bootstrap.{
  Asynq, Registry, init_runtime, Platform, RuntimeStart, set_up, refused, crashed, init_worker,
}
use ginblade.Worker.{TaskRuntimeMetadata}
use ginblade.Worker.Runtime.{Muxes}
use ginblade.WorkerApp
use ginblade.WorkerApp.{Worker, Group, new_worker}
use ginblade.Shutdown.{process_entry}
use ginblade.Cmd.{Process, read_config, panics, dies, returns}

abbrev pub started_entry : Entry
started_entry = record {
  level = info;
  message = "worker started";
  trace = "";
  fields = str "component" "asynq" ∷ [];
}

module _ {S : Type 0} (sql : Sql S) (redis : Redis S) (asynq : Asynq S) (muxes : Muxes S)
    (json : Json) (meta : Context → TaskRuntimeMetadata) where
  -- What Wait leaves of Run's group, and of the state, when both goroutines have returned.
  abbrev pub Waits : Type 0
  Waits = Worker sql redis asynq muxes json meta → S → Group × S

  module _ (waits : Waits) where
    abbrev wait_error : Group × S → Option GoError × S
    wait_error (g, s) = (g.failure, s)

    abbrev run_group :
        Worker sql redis asynq muxes json meta → S → Result Group → Option GoError × S
    run_group w s (err e) = (some e, s)
    run_group w s (ok g) = wait_error (waits w s)

    -- Run
    unfoldable pub run_worker : Worker sql redis asynq muxes json meta → S → Option GoError × S
    unfolding WorkerApp.run
    run_worker w s = run_group w s (WorkerApp.run (some w))

    -- The deferred closing of the registry, and the deferred Sync.
    unfoldable pub leave : Registry sql redis asynq → List Entry → Loggers → S → Process S
    unfolding returns Bootstrap.close
    leave r log loggers s =
        returns "close registry" (Bootstrap.close sql redis asynq (some r)) log loggers s

    unfoldable pub after_run :
        Registry sql redis asynq → List Entry → Loggers → Option GoError × S → Process S
    unfolding dies leave
    after_run r log loggers (some e, s) =
        dies "worker runtime error" (some e) (log ++ started_entry ∷ []) loggers s
    after_run r log loggers (none, s) =
        leave r (log ++ started_entry ∷ process_entry info "worker shutdown completed" none ∷ [])
          loggers s

    unfoldable pub with_worker :
        Registry sql redis asynq
        → List Entry
        → Loggers
        → S
        → Result (Worker sql redis asynq muxes json meta)
        → Process S
    unfolding dies after_run run_worker
    with_worker r log loggers s (err e) = dies "assemble worker" (some e) log loggers s
    with_worker r log loggers s (ok w) = after_run r log loggers (run_worker w s)

    unfoldable pub with_registry :
        Loggers → Result (Registry sql redis asynq) × List Entry × S → Process S
    unfolding dies with_worker new_worker
    with_registry loggers (err e, log, s) = dies "initialize worker" (some e) log loggers s
    with_registry loggers (ok r, log, s) =
        with_worker r log loggers s (new_worker sql redis asynq muxes json meta (some r))

    unfoldable pub with_runtime : Config → S → Loggers × RuntimeStart → Process S
    unfolding with_registry init_worker
    with_runtime cfg s (loggers, refused e) = panics (wrap "init runtime" e) loggers s
    with_runtime cfg s (loggers, crashed e) = panics e loggers s
    with_runtime cfg s (loggers, set_up) =
        with_registry loggers (init_worker sql redis asynq (some cfg) s)

    -- main, with the configuration that it read
    unfoldable pub work : Platform → Config → Loggers → S → Process S
    unfolding with_runtime init_runtime
    work platform cfg loggers s =
        with_runtime cfg s (init_runtime platform (some cfg) ("worker" ∷ []) loggers)

    -- main
    unfoldable pub main :
        (String → Env → Env) → (ℕ → ℕ → ℕ → ℕ) → Platform → Env → Loggers → S → Process S
    unfolding work read_config
    main load_file scale platform env loggers s =
        work platform (read_config load_file scale "cmd/worker/.env" env) loggers s
