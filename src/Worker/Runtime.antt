-- ===== src/Worker/Runtime.antt =====
-- NewServer and RegisterHandlers of internal/worker: the configuration of asynq's server, and the
-- mux that its tasks go through. asynq's mux is a parameter, `Muxes`, with what its documentation
-- says of one pattern behind one middleware.
use ginblade.Prelude.{ℕ, String, Option, none, some, List, [], ◌∷◌, ◌≡◌}
use ginblade.Prelude.Int.{ℤ}
use ginblade.Errors.{GoError}
use ginblade.Context.{Db, Context}
use ginblade.Http.{Entry}
use ginblade.Task.{Task, Json, type_example_task}
use ginblade.TaskQueue.{Queue}
use ginblade.Cache.{Redis, Client}
use ginblade.Worker.{
  RedisClientOpt, TaskHandler, TaskRuntimeMetadata, retry, log_task_failed, trace_middleware,
  handle_example_task,
}

-- asynq.Config, as far as NewServer sets it
pub record AsynqConfig : Type 0 where
  pub concurrency : ℕ
  pub queues : List (String × ℕ)
  pub retry_delay : ℕ → GoError → Task → ℤ × Entry
  pub error_handler : Context → Task → GoError → Entry

-- *asynq.Server, before it runs
pub record AsynqServer : Type 0 where
  pub redis_opt : RedisClientOpt
  pub config : AsynqConfig

-- NewServer; `meta` is taskRuntimeMetadataFromContext.
unfoldable pub new_server : Json → (Context → TaskRuntimeMetadata) → RedisClientOpt → AsynqServer
unfolding retry log_task_failed
new_server json meta opt = record {
  redis_opt = opt;
  config = record {
    concurrency = 10;
    queues = ("critical", 6) ∷ ("default", 3) ∷ ("low", 1) ∷ [];
    retry_delay = retry json;
    error_handler = λ ctx t e. log_task_failed json ctx t (meta ctx) e;
  };
}

-- asynq.ServeMux
pub record Muxes (S : Type 0) : Type 1 where
  pub Mux : Type 0
  -- asynq.NewServeMux
  pub new_mux : Mux
  -- Use
  pub add_middleware : (TaskHandler S → TaskHandler S) → Mux → Mux
  -- HandleFunc
  pub add_handler : String → TaskHandler S → Mux → Mux
  -- ProcessTask
  pub process : Mux → TaskHandler S

-- A task whose type is the pattern goes to the pattern's handler, through the middleware.
pub record MuxLaws {S : Type 0} (muxes : Muxes S) : Type 0 where
  pub processes :
      (middleware : TaskHandler S → TaskHandler S) (pattern : String) (h : TaskHandler S)
      (ctx : Context) (t : Task) (s : S)
      → t.kind ≡ pattern
      → muxes.process
          (muxes.add_handler pattern h (muxes.add_middleware middleware muxes.new_mux))
          ctx
          t
          s
        ≡ middleware h ctx t s

module _ {S : Type 0} (redis : Redis S) where
  -- Deps
  pub record Deps : Type 0 where
    pub db : Option Db
    pub cache : Option (Client redis)
    pub rdb : Option redis.Conn
    pub queue : Option (Queue S)

  abbrev pub db_of_deps : Option Deps → Option Db
  db_of_deps none = none
  db_of_deps (some d) = d.db

  module _ (muxes : Muxes S) (json : Json) (meta : Context → TaskRuntimeMetadata) where
    -- registerTraceMiddleware, with TraceMiddleware
    unfoldable pub register_trace_middleware : Option muxes.Mux → Option muxes.Mux
    unfolding trace_middleware
    register_trace_middleware none = none
    register_trace_middleware (some mux) =
        some (muxes.add_middleware (λ next. trace_middleware json next meta) mux)

    unfoldable pub add_example_handler : Option Db → Option muxes.Mux → Option muxes.Mux
    unfolding handle_example_task
    add_example_handler db none = none
    add_example_handler db (some mux) =
        some (muxes.add_handler type_example_task (handle_example_task json db) mux)

    -- RegisterHandlers; nil Deps are empty ones.
    unfoldable pub register_handlers : Option muxes.Mux → Option Deps → Option muxes.Mux
    unfolding register_trace_middleware add_example_handler
    register_handlers mux deps =
        add_example_handler (db_of_deps deps) (register_trace_middleware mux)
