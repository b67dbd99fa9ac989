-- ===== src/Examples/Tasks.antt =====
-- A mux that is a table of handlers behind one middleware, and a task that goes through it.
use ginblade.Prelude.{
  ◌≡◌, refl, String, true, some, [], if◌then◌else◌, str_eq, eq_refl, trim_space, ap,
}
use ginblade.Errors.{ok, plain, err}
use ginblade.Context.{Context, background, with_trace}
use ginblade.Log.{trace_id_from}
use ginblade.Service.{ExampleService, ExampleQueue, enqueue_task, queue_reply}
use ginblade.Worker.{TaskHandler, TaskRuntimeMetadata}
use ginblade.Model.{EnqueueExampleTaskReq}
use ginblade.Worker.Runtime.{Muxes, MuxLaws}
use ginblade.WorkerApp.{Worker, new_worker, validate_worker_registry}
use ginblade.WorkerApp.Tasks.{RunsUnder}
use ginblade.WorkerApp.Published.{published_id, published_task, enqueued_task_runs}
use ginblade.Encoding.Payload.{encoding_json}
use ginblade.Examples.Stores.{Keys, toy_redis, toy_sql, toy_asynq}
use ginblade.Examples.Working.{cfg, registry}

abbrev MuxTable : Type 0
MuxTable = (TaskHandler Keys → TaskHandler Keys) × (String → TaskHandler Keys)

abbrev not_found : String → TaskHandler Keys
not_found kind ctx t s = (some (plain "handler not found for task"), [], s)

abbrev add : String → TaskHandler Keys → MuxTable → MuxTable
add pattern h (middleware, handlers) =
    (middleware, λ kind. if str_eq pattern kind then h else handlers kind)

abbrev use_middleware : (TaskHandler Keys → TaskHandler Keys) → MuxTable → MuxTable
use_middleware m (middleware, handlers) = (λ h. middleware (m h), handlers)

abbrev route : MuxTable → TaskHandler Keys
route (middleware, handlers) ctx t s = middleware (handlers t.kind) ctx t s

abbrev pub toy_muxes : Muxes Keys
toy_muxes = record {
  Mux = MuxTable;
  new_mux = (λ h. h, not_found);
  add_middleware = use_middleware;
  add_handler = add;
  process = route;
}

routes_lem :
    (pattern kind : String) (h other : TaskHandler Keys)
    → kind ≡ pattern
    → (if str_eq pattern kind then h else other) ≡ h
routes_lem pattern kind h other same = rw (same, eq_refl pattern)

toy_muxes-MuxLaws : MuxLaws toy_muxes
toy_muxes-MuxLaws = record {
  processes = λ middleware pattern h ctx t s same.
      ap (λ h. middleware h ctx t s) (routes_lem pattern t.kind h _ same);
}

abbrev queue : ExampleQueue Keys
queue = record { available = true; enqueue = λ ctx t s. (ok "task-1", λ k. t.payload) }

abbrev traced : Context
traced = with_trace "r-1" background

abbrev svc : ExampleService Keys
svc = record {
  repo = record {
    create = λ ctx e s. (err (plain "read only"), s);
    list = λ ctx limit offset s. (ok ([], 0), s);
  };
  queue = some queue;
}

abbrev pub meta : Context → TaskRuntimeMetadata
meta ctx = record {
  task_id = "task-1";
  queue = "default";
  retry_count = 1;
  retry_count_recorded = true;
}

abbrev req : EnqueueExampleTaskReq
req = record { name = "demo" }

enqueued_task_runs_example :
    ((s : Keys)
      → enqueue_task encoding_json svc traced req s
        ≡ queue_reply traced (queue.enqueue traced (published_task traced req) s))
    × ((w : Worker {S = Keys} toy_sql toy_redis toy_asynq toy_muxes encoding_json meta)
        × (new_worker {S = Keys} toy_sql toy_redis toy_asynq toy_muxes encoding_json meta
              (some registry)
            ≡ ok w)
        × RunsUnder {S = Keys} toy_sql toy_redis toy_asynq toy_muxes encoding_json meta
            (published_id traced)
            background
            (published_task traced req)
            w)
unfolding trace_id_from trim_space validate_worker_registry
enqueued_task_runs_example =
    enqueued_task_runs toy_sql toy_redis toy_asynq toy_muxes toy_muxes-MuxLaws meta traced
      background req registry cfg svc queue refl refl refl refl refl refl
