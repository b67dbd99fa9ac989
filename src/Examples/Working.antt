-- ===== src/Examples/Working.antt =====
-- The worker: its registry, and a run whose server fails.
use ginblade.Prelude.{[], ◌∷◌, ◌≤◌, Option, ◌≡◌, refl, ◌⊎◌, true, none, some, trim_space}
use ginblade.WorkerApp.Termination.{
  own_steps, CanMove, AwaitsSignal, AwaitsCancel, reached_terminates,
}
use ginblade.Errors.{GoError, ok, plain}
use ginblade.Config.Types.{Config}
use ginblade.Config.Loading.{defaults}
use ginblade.Bootstrap.{Registry, init_worker, new_asynq_client, queue_client_function}
use ginblade.TaskQueue.{new_queue}
use ginblade.Cache.{new_client, connected_entry}
use ginblade.WorkerApp.{
  Group, started, server_returns, shut_down, Step, serve, watch, Reaches, start, step, run_error,
}
use ginblade.WorkerApp.Lifecycle.{IsDone, reached_done, reached_progress}
use ginblade.Examples.Stores.{Keys, toy_redis, toy_sql, toy_asynq}

abbrev pub cfg : Config
cfg = defaults "" "" "localhost:6379" "" ""

abbrev pub no_keys : Keys
no_keys k = ""

abbrev pub registry : Registry {S = Keys} toy_sql toy_redis toy_asynq
registry = record {
  cfg = some cfg;
  db = none;
  cache = some (record { rdb = some tt });
  auth = none;
  queue =
      new_queue (queue_client_function (new_asynq_client toy_sql toy_redis toy_asynq (some cfg)));
  queue_client = new_asynq_client toy_sql toy_redis toy_asynq (some cfg);
}

worker_made : init_worker {S = Keys} toy_sql toy_redis toy_asynq (some cfg) no_keys ≡ (
  ok registry,
  connected_entry (record { addr = "localhost:6379"; password = ""; db = cfg.redis.cache_db }) ∷ [],
  no_keys,
)
unfolding init_worker trim_space new_client
worker_made = refl

abbrev fault : GoError
fault = plain "redis: connection refused"

abbrev failed : Group
failed = server_returns (some fault) started

abbrev stopped : Group
stopped = shut_down failed

failed_reached : Reaches failed
failed_reached = step started failed start (serve started (some fault) refl tt)

stopped_reached : Reaches stopped
unfolding server_returns
stopped_reached = step failed stopped failed_reached (watch failed refl refl)

reached_done_example :
    (stopped.canceled ≡ true) × (stopped.shutdowns ≡ 1) × (stopped.failure ≡ run_error (some fault))
unfolding server_returns shut_down
reached_done_example = reached_done stopped (some fault) stopped_reached (refl, refl)

failed_progress : IsDone failed (some fault) ⊎ ((h : Group) × Step failed h × IsDone h (some fault))
unfolding server_returns
failed_progress = reached_progress failed fault failed_reached refl

reached_terminates_example :
    (own_steps failed_reached ≤ 2)
    × (CanMove failed
        ⊎ ((e : Option GoError) × IsDone failed e)
        ⊎ AwaitsSignal failed
        ⊎ AwaitsCancel failed)
reached_terminates_example = reached_terminates failed failed_reached
