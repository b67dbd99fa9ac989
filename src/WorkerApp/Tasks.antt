-- ===== src/WorkerApp/Tasks.antt =====
-- From a request that publishes the example task to the worker that runs it, retries included.
use ginblade.Model.{EnqueueExampleTaskReq}
use ginblade.Task.{type_example_task, JsonLaws, Task, Json}
use ginblade.Context.{Db, Context}
use ginblade.Http.{Entry}
use ginblade.Prelude.{
  is_empty, trim_space, false, Option, List, refl, ℕ, ◌≡◌, String, none, some, All, length, true,
}
use ginblade.Log.{trace_id_from}
use ginblade.Worker.{
  task_log_context, trace_middleware, handle_example_task, retry, retry_entry, log_task_failed,
  new_redis_opt, TaskRuntimeMetadata,
}
use ginblade.Worker.Trace.{
  published, payload_for, task_log_context-trace, new_example_task-published,
  trace_id_from_payload-new_example_task, enqueue_task-trace,
}
use ginblade.Errors.{GoError, ok}
use ginblade.Database.{Sql, db_of}
use ginblade.Config.Types.{Config}
use ginblade.Service.{ExampleService, ExampleQueue, enqueue_task, queue_reply}
use ginblade.Bootstrap.{Registry, Asynq}
use ginblade.Worker.Runtime.{
  MuxLaws, new_server, register_handlers, register_trace_middleware, add_example_handler, Muxes,
  AsynqServer,
}
use ginblade.WorkerApp.Ready.{worker_of}
use ginblade.WorkerApp.{new_worker, assembled, build_worker_deps, validate_worker_registry, Worker}
use ginblade.Cache.{Redis}

module _ {S : Type 0} (sql : Sql S) (redis : Redis S) (asynq : Asynq S) (muxes : Muxes S)
    (json : Json) (meta : Context → TaskRuntimeMetadata) where
  -- A worker whose mux runs one task, from one context, to its end, and whose entries for it, those
  -- of a retry and of a failure included, are under one trace id.
  pub record RunsUnder (id : String) (ctx : Context) (t : Task)
      (w : Worker sql redis asynq muxes json meta) : Type 0 where
    pub server : AsynqServer
    pub mux : muxes.Mux
    pub served : w.server ≡ some server
    pub routed : w.mux ≡ some mux
    pub done : (s : S) → (muxes.process mux ctx t s).0 ≡ none
    pub kept : (s : S) → (muxes.process mux ctx t s).2 ≡ s
    pub logged : (s : S) → length (muxes.process mux ctx t s).1 ≡ 3
    pub traced : (s : S) → All (λ e. e.trace ≡ id) (muxes.process mux ctx t s).1
    pub retried : (n : ℕ) (e : GoError) → (server.config.retry_delay n e t).1.trace ≡ id
    pub failed : (e : GoError) → (server.config.error_handler ctx t e).trace ≡ id

module _ (json : Json) (laws : JsonLaws json) (meta : Context → TaskRuntimeMetadata)
    (ctx worker_ctx : Context) (req : EnqueueExampleTaskReq) where
  abbrev pub id : String
  id = trim_space (trace_id_from (some ctx))

  abbrev pub task : Task
  task = published json laws ctx req

  retry-trace : (n : ℕ) (e : GoError) → (retry json n e task).1.trace ≡ id
  unfolding retry retry_entry
  retry-trace n e =
      trace_id_from_payload-new_example_task json laws req.name (trace_id_from (some ctx)) _
        (new_example_task-published json laws ctx req)

  module _ (given : is_empty (trim_space (trace_id_from (some ctx))) ≡ false)
      (bare : trace_id_from (some worker_ctx) ≡ "") where
    -- The context that the trace middleware makes for the task.
    task_log_context-id :
        trace_id_from (some (task_log_context json worker_ctx task (meta worker_ctx)).0) ≡ id
    task_log_context-id =
        task_log_context-trace json laws req.name (trace_id_from (some ctx)) _ worker_ctx
          (meta worker_ctx) (new_example_task-published json laws ctx req) bare given

    log_task_failed-id :
        (e : GoError) → (log_task_failed json worker_ctx task (meta worker_ctx) e).trace ≡ id
    unfolding log_task_failed
    log_task_failed-id e = task_log_context-id

    module _ {S : Type 0} (db : Option Db) where
      abbrev handled : S → Option GoError × List Entry × S
      unfolding trace_middleware handle_example_task
      handled s = trace_middleware json (handle_example_task json db) meta worker_ctx task s

      -- Done, with three entries under the id, and the state left alone.
      abbrev IsTraced : S → Option GoError × List Entry × S → Type 0
      IsTraced s o = (o.0 ≡ none) × (o.2 ≡ s) × (length o.1 ≡ 3) × All (λ e. e.trace ≡ id) o.1

      handled-IsTraced : (s : S) → IsTraced s (handled s)
      unfolding trace_middleware handle_example_task
      handled-IsTraced s =
          rw (laws.unmarshals (payload_for json laws req.name (trace_id_from (some ctx)))) (
            refl,
            refl,
            refl,
            (task_log_context-id, (task_log_context-id, (task_log_context-id, tt))),
          )

module _ {S : Type 0} (sql : Sql S) (redis : Redis S) (asynq : Asynq S) (muxes : Muxes S)
    (mux_laws : MuxLaws muxes) (json : Json) (laws : JsonLaws json)
    (meta : Context → TaskRuntimeMetadata) (ctx worker_ctx : Context)
    (req : EnqueueExampleTaskReq) where
  abbrev t : Task
  t = task json laws meta ctx worker_ctx req

  -- What the mux of the worker does with the task.
  worker-process :
      (r : Registry sql redis asynq) (s : S)
      → muxes.process
          (muxes.add_handler type_example_task
            (handle_example_task json (db_of r.db))
            (muxes.add_middleware (λ next. trace_middleware json next meta) muxes.new_mux))
          worker_ctx
          t
          s
        ≡ trace_middleware json (handle_example_task json (db_of r.db)) meta worker_ctx t s
  worker-process r s = mux_laws.processes _ _ _ worker_ctx t s refl

  worker-RunsUnder :
      (r : Registry sql redis asynq) (cfg : Config)
      → is_empty (trim_space (trace_id_from (some ctx))) ≡ false
      → trace_id_from (some worker_ctx) ≡ ""
      → RunsUnder sql redis asynq muxes json meta
          (id json laws meta ctx worker_ctx req)
          worker_ctx
          t
          (worker_of sql redis asynq muxes json meta r cfg)
  unfolding new_server register_handlers register_trace_middleware add_example_handler
      build_worker_deps handled worker_of
  worker-RunsUnder r cfg given bare =
      let traced = handled-IsTraced json laws meta ctx worker_ctx req given bare (db_of r.db) in
      record {
        server =
            new_server json meta
              (new_redis_opt cfg.redis.addr cfg.redis.password cfg.redis.queue_db);
        mux =
            muxes.add_handler type_example_task (handle_example_task json (db_of r.db))
              (muxes.add_middleware (λ next. trace_middleware json next meta) muxes.new_mux);
        served = refl;
        routed = refl;
        done = λ s. rw (worker-process r s) (traced s).0;
        kept = λ s. rw (worker-process r s) (traced s).1;
        logged = λ s. rw (worker-process r s) (traced s).2;
        traced = λ s. rw (worker-process r s) (traced s).3;
        retried = retry-trace json laws meta ctx worker_ctx req;
        failed = log_task_failed-id json laws meta ctx worker_ctx req given bare;
      }

  -- A request with a trace id goes through an available queue as one task; and the worker that
  -- NewWorker makes of a registry that passes its checks sends this task, from a context that has no
  -- trace id yet, through its mux: the task is done, the state is left alone, three entries are
  -- logged, and all of them are under the request's trimmed trace id, as are the entry of each retry
  -- and the entry of a failure, if the task fails.
  pub published_task_runs :
      (r : Registry sql redis asynq) (cfg : Config) (svc : ExampleService S) (q : ExampleQueue S)
      → validate_worker_registry sql redis asynq (some r) ≡ none
      → r.cfg ≡ some cfg
      → svc.queue ≡ some q
      → q.available ≡ true
      → is_empty (trim_space (trace_id_from (some ctx))) ≡ false
      → trace_id_from (some worker_ctx) ≡ ""
      → ((s : S) → enqueue_task json svc ctx req s ≡ queue_reply ctx (q.enqueue ctx t s))
        × ((w : Worker sql redis asynq muxes json meta) × (new_worker sql redis asynq muxes json
                meta
                (some r)
              ≡ ok w)
            × RunsUnder sql redis asynq muxes json meta
                (id json laws meta ctx worker_ctx req)
                worker_ctx
                t
                w)
  unfolding new_worker assembled worker_of
  published_task_runs r cfg svc q ready has queue available given bare = (
    λ s.
        (enqueue_task-trace json laws svc q ctx worker_ctx req (meta worker_ctx) s queue available
          given bare).0,
    (
      worker_of sql redis asynq muxes json meta r cfg,
      rw (ready, has),
      worker-RunsUnder r cfg given bare,
    ),
  )
