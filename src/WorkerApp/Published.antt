-- ===== src/WorkerApp/Published.antt =====
-- A published task under encoding/json, from the request to the end of its run.
use ginblade.Prelude.{◌≡◌, String, none, some, is_empty, trim_space, false, true}
use ginblade.Errors.{ok}
use ginblade.Context.{Context}
use ginblade.Log.{trace_id_from}
use ginblade.Model.{EnqueueExampleTaskReq}
use ginblade.Task.{Task}
use ginblade.Encoding.Payload.{marshal, encoding_json}
use ginblade.Encoding.RoundTrip.{encoding_json-JsonLaws}
use ginblade.Config.Types.{Config}
use ginblade.Database.{Sql}
use ginblade.Cache.{Redis}
use ginblade.Bootstrap.{Registry, Asynq}
use ginblade.Service.{ExampleService, ExampleQueue, enqueue_task, queue_reply}
use ginblade.Worker.{TaskRuntimeMetadata}
use ginblade.Worker.Runtime.{MuxLaws, Muxes}
use ginblade.WorkerApp.{new_worker, validate_worker_registry, Worker}
use ginblade.WorkerApp.Tasks.{RunsUnder, published_task_runs}

-- The request's trace id, as the task carries it.
abbrev pub published_id : Context → String
published_id ctx = trim_space (trace_id_from (some ctx))

-- The task of a request.
abbrev pub published_task : Context → EnqueueExampleTaskReq → Task
unfolding marshal
published_task ctx req = record {
  kind = "example:run";
  payload = marshal (record { name = req.name; trace_id = published_id ctx });
  max_retry = 5;
}

-- A request with a trace id goes through an available queue as one task, with the name and the
-- trimmed trace id in its JSON payload; and the worker that NewWorker makes of a registry that passes
-- its checks sends this task, from a context that has no trace id yet, through its mux: the task is
-- done, the state is left alone, three entries are logged, and all of them are under the request's
-- trimmed trace id, as are the entry of each retry and the entry of a failure, if the task fails.
pub enqueued_task_runs :
    {S : Type 0} (sql : Sql S) (redis : Redis S) (asynq : Asynq S) (muxes : Muxes S)
    (mux_laws : MuxLaws muxes) (meta : Context → TaskRuntimeMetadata) (ctx worker_ctx : Context)
    (req : EnqueueExampleTaskReq) (r : Registry sql redis asynq) (cfg : Config)
    (svc : ExampleService S) (q : ExampleQueue S)
    → validate_worker_registry sql redis asynq (some r) ≡ none
    → r.cfg ≡ some cfg
    → svc.queue ≡ some q
    → q.available ≡ true
    → is_empty (published_id ctx) ≡ false
    → trace_id_from (some worker_ctx) ≡ ""
    → ((s : S)
        → enqueue_task encoding_json svc ctx req s
          ≡ queue_reply ctx (q.enqueue ctx (published_task ctx req) s))
      × ((w : Worker sql redis asynq muxes encoding_json meta) × (new_worker sql redis asynq muxes
              encoding_json meta
              (some r)
            ≡ ok w)
          × RunsUnder sql redis asynq muxes encoding_json meta
              (published_id ctx)
              worker_ctx
              (published_task ctx req)
              w)
unfolding encoding_json-JsonLaws
enqueued_task_runs sql redis asynq muxes mux_laws meta ctx worker_ctx req r cfg svc q =
    published_task_runs sql redis asynq muxes mux_laws encoding_json encoding_json-JsonLaws meta ctx
      worker_ctx req r cfg svc q
