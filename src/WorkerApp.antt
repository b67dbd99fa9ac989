-- ===== src/WorkerApp.antt =====
-- internal/worker.go: the worker application: its checks, its dependencies, and the two goroutines
-- of Run under an errgroup.
pub mod Ready
pub mod Lifecycle
pub mod Tasks
pub mod Published
pub mod Termination
use ginblade.Prelude.{
  ℕ, suc, String, Bool, true, false, ◌||◌, Option, none, some, ◌≡◌, is_empty, if◌then◌else◌,
}
use ginblade.Errors.{sentinel, Result, ok, err, GoError, plain, wrap, or_else}
use ginblade.Context.{Context}
use ginblade.Task.{Json}
use ginblade.Worker.{TaskRuntimeMetadata, new_redis_opt}
use ginblade.Worker.Runtime.{Deps, Muxes, AsynqServer, new_server, register_handlers}
use ginblade.Config.Types.{Config}
use ginblade.TaskQueue.{Queue}
use ginblade.Database.{DbManager, Sql, db_of}
use ginblade.Cache.{Redis, Client}
use ginblade.Bootstrap.{Asynq, Registry}
use ginblade.Server.{err_nil_registry, err_nil_config}

abbrev pub require_address : Option Config → Option GoError
require_address none = some err_nil_config
require_address (some cfg) =
    if is_empty cfg.redis.addr then some (plain "app: missing redis address") else none

module _ {S : Type 0} (sql : Sql S) (redis : Redis S) (asynq : Asynq S) where
  -- validateWorkerRegistry
  unfoldable pub validate_worker_registry : Option (Registry sql redis asynq) → Option GoError
  validate_worker_registry none = some err_nil_registry
  validate_worker_registry (some r) = require_address r.cfg

  -- buildWorkerDeps; the database of a nil manager is nil.
  unfoldable pub build_worker_deps : Registry sql redis asynq → Deps redis
  unfolding db_of
  build_worker_deps r = record { db = db_of r.db; cache = r.cache; rdb = none; queue = r.queue }

  module _ (muxes : Muxes S) (json : Json) (meta : Context → TaskRuntimeMetadata) where
    -- Worker
    pub record Worker : Type 0 where
      pub server : Option AsynqServer
      pub mux : Option muxes.Mux

    abbrev pub assembled : Registry sql redis asynq → Option Config → Result Worker
    unfolding new_server register_handlers new_redis_opt
    assembled r none = err err_nil_config
    assembled r (some cfg) = ok (record {
      server = some (
          new_server json meta
            (new_redis_opt cfg.redis.addr cfg.redis.password cfg.redis.queue_db));
      mux =
          register_handlers redis muxes json meta (some muxes.new_mux) (some (build_worker_deps r));
    })

    abbrev pub checked : Option (Registry sql redis asynq) → Option GoError → Result Worker
    checked none e = err err_nil_registry
    checked (some r) (some e) = err e
    checked (some r) none = assembled r r.cfg

    -- NewWorker
    unfoldable pub new_worker : Option (Registry sql redis asynq) → Result Worker
    unfolding validate_worker_registry
    new_worker reg = checked reg (validate_worker_registry reg)

abbrev pub err_nil_worker : GoError
err_nil_worker = sentinel "app: nil worker"

-- The goroutine that runs asynq's server.
pub data Serving : Type 0 where
  running : Serving
  returned : Option GoError → Serving

-- The state of Run: its two goroutines, whether the group's context is canceled, whether the process
-- has got an OS signal to exit, how often the server was told to shut down, and the first error,
-- which Wait returns.
pub record Group : Type 0 where
  pub serving : Serving
  pub watching : Bool
  pub canceled : Bool
  pub signalled : Bool
  pub shutdowns : ℕ
  pub failure : Option GoError

abbrev pub started : Group
started = record {
  serving = running;
  watching = true;
  canceled = false;
  signalled = false;
  shutdowns = 0;
  failure = none;
}

abbrev pub run_error : Option GoError → Option GoError
run_error none = none
run_error (some e) = some (wrap "run worker server" e)

abbrev pub is_some : Option GoError → Bool
is_some none = false
is_some (some e) = true

-- The first goroutine returns: an error is kept if it is the first, and cancels the context.
unfoldable pub server_returns : Option GoError → Group → Group
server_returns e g = record g {
  serving = returned e;
  canceled = g.canceled || is_some e;
  failure = or_else g.failure (run_error e);
}

-- The second goroutine, once the context is canceled.
unfoldable pub shut_down : Group → Group
shut_down g = record g { watching = false; shutdowns = suc g.shutdowns }

abbrev pub both_set {ℓ κ} : {A : Type ℓ} {B : Type κ} → Option A → Option B → Result Group
both_set none mux = err err_nil_worker
both_set (some server) none = err err_nil_worker
both_set (some server) (some mux) = ok started

-- asynq's Run returns an error if the server cannot start, and nil only once the process has got a
-- signal to exit: it waits for one even behind a Shutdown.
abbrev pub MayReturn : Group → Option GoError → Type 0
MayReturn g none = g.signalled ≡ true
MayReturn g (some e) = Unit

-- One step of Run. The caller may cancel its context, and the signal may come, at any time.
pub data Step : Group → Group → Type 0 where
  cancel : (g : Group) → Step g (record g { canceled = true })
  signal : (g : Group) → Step g (record g { signalled = true })
  serve :
      (g : Group) (e : Option GoError)
      → g.serving ≡ running
      → MayReturn g e
      → Step g (server_returns e g)
  watch : (g : Group) → g.canceled ≡ true → g.watching ≡ true → Step g (shut_down g)

-- The states that Run can get into.
pub data Reaches : Group → Type 0 where
  start : Reaches started
  step : (g h : Group) → Reaches g → Step g h → Reaches h

module _ {S : Type 0} {sql : Sql S} {redis : Redis S} {asynq : Asynq S} {muxes : Muxes S}
    {json : Json} {meta : Context → TaskRuntimeMetadata} where
  -- Run, up to the start of its goroutines: its error, or the state in which they start.
  unfoldable pub run : Option (Worker sql redis asynq muxes json meta) → Result Group
  run none = err err_nil_worker
  run (some w) = both_set w.server w.mux
