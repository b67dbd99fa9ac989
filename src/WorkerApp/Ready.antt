-- ===== src/WorkerApp/Ready.antt =====
-- The registry that InitWorker hands to NewWorker.
use ginblade.Prelude.{
  List, ◌≡◌, refl, inl, inr, String, false, Option, none, some, is_empty, trim_space, Bool-cases,
  arith,
}
use ginblade.Http.{Entry}
use ginblade.Context.{Context}
use ginblade.Task.{Json, type_example_task}
use ginblade.Worker.{TaskRuntimeMetadata, new_redis_opt, trace_middleware, handle_example_task}
use ginblade.Worker.Runtime.{
  Muxes, AsynqServer, new_server, register_handlers, register_trace_middleware, add_example_handler,
}
use ginblade.WorkerApp.{Worker, new_worker, assembled, build_worker_deps, validate_worker_registry}
use ginblade.Errors.{Result, ok, err}
use ginblade.Config.Types.{Config}
use ginblade.Database.{DbManager, Sql, db_of}
use ginblade.Cache.{Redis, Client}
use ginblade.Bootstrap.{Asynq, Registry, init_worker, worker_with_cache, worker_with_database}

given_of_trimmed : (s : String) → is_empty (trim_space s) ≡ false → is_empty s ≡ false
unfolding trim_space
given_of_trimmed String.[] h = h
given_of_trimmed (String.◌∷◌ c s) h = refl

module _ {S : Type 0} (sql : Sql S) (redis : Redis S) (asynq : Asynq S) where
  worker_with_database-cfg :
      (cfg : Config) (c : Client redis) (before : List Entry)
      (d : Result DbManager × List Entry × S) (r : Registry sql redis asynq) (log : List Entry)
      (s' : S)
      → worker_with_database sql redis asynq cfg c before d ≡ (ok r, log, s')
      → r.cfg ≡ some cfg
  worker_with_database-cfg cfg c before (err e, l, s) r log s' h = cc
  worker_with_database-cfg cfg c before (ok db, l, s) r log s' h = ground arith

  worker_with_cache-cfg :
      (cfg : Config) (c : Result (Client redis) × List Entry) (s : S) (r : Registry sql redis asynq)
      (log : List Entry) (s' : S)
      → worker_with_cache sql redis asynq cfg c s ≡ (ok r, log, s')
      → r.cfg ≡ some cfg
  worker_with_cache-cfg cfg (err e, before) s r log s' h = cc
  worker_with_cache-cfg cfg (ok c, before) s r log s' h =
      elim (Bool-cases (is_empty (trim_space cfg.postgres.dsn))) [
        | inl blank ↦ ground arith
        | inr given ↦ worker_with_database-cfg cfg c before _ r log s' (rw given at h)
      ]

  -- The registry passes the checks of NewWorker, and holds the configuration.
  abbrev pub IsReady : Option Config → Registry sql redis asynq → Type 0
  IsReady cfg r = (validate_worker_registry sql redis asynq (some r) ≡ none) × (r.cfg ≡ cfg)

  -- A registry that InitWorker returns without an error passes the checks of NewWorker, and holds
  -- the configuration that it was made from.
  pub init_worker-IsReady :
      (cfg : Option Config) (s s' : S) (r : Registry sql redis asynq) (log : List Entry)
      → init_worker sql redis asynq cfg s ≡ (ok r, log, s')
      → IsReady cfg r
  unfolding init_worker validate_worker_registry
  init_worker-IsReady none s s' r log h = cc
  init_worker-IsReady (some cfg) s s' r log h =
      elim (Bool-cases (is_empty (trim_space cfg.redis.addr))) [
        | inl blank ↦ absurd (ground arith)
        | inr given ↦
            let has = worker_with_cache-cfg cfg _ s r log s' (rw given at h) in
            (rw (has, given_of_trimmed cfg.redis.addr given), has)
      ]

module _ {S : Type 0} (sql : Sql S) (redis : Redis S) (asynq : Asynq S) (muxes : Muxes S)
    (json : Json) (meta : Context → TaskRuntimeMetadata) where
  -- The worker that NewWorker assembles.
  unfoldable pub worker_of :
      Registry sql redis asynq → Config → Worker sql redis asynq muxes json meta
  unfolding new_server register_handlers new_redis_opt
  worker_of r cfg = record {
    server =
        some (
          new_server json meta
            (new_redis_opt cfg.redis.addr cfg.redis.password cfg.redis.queue_db));
    mux =
        register_handlers redis muxes json meta (some muxes.new_mux)
          (some (build_worker_deps sql redis asynq r));
  }

  -- NewWorker makes a worker that has a server and a mux.
  pub record IsMade (r : Registry sql redis asynq) : Type 0 where
    pub w : Worker sql redis asynq muxes json meta
    pub server : AsynqServer
    pub mux : muxes.Mux
    pub made : new_worker sql redis asynq muxes json meta (some r) ≡ ok w
    pub served : w.server ≡ some server
    pub routed : w.mux ≡ some mux

  -- NewWorker does not fail for a registry that passes its checks.
  pub new_worker-IsMade :
      (r : Registry sql redis asynq) (cfg : Config)
      → IsReady sql redis asynq (some cfg) r
      → IsMade r
  unfolding new_worker assembled worker_of build_worker_deps register_handlers
      register_trace_middleware add_example_handler
  new_worker-IsMade r cfg (ready, has) = record {
    w = worker_of r cfg;
    server =
        new_server json meta (new_redis_opt cfg.redis.addr cfg.redis.password cfg.redis.queue_db);
    mux =
        muxes.add_handler type_example_task (handle_example_task json (db_of r.db))
          (muxes.add_middleware (λ next. trace_middleware json next meta) muxes.new_mux);
    made = rw (ready, has);
    served = refl;
    routed = refl;
  }
