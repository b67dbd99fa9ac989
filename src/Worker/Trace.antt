-- ===== src/Worker/Trace.antt =====
-- The trace id of a request on its way through the queue: what EnqueueTask puts into the payload is
-- what the worker's context and log carry.
use ginblade.Prelude.{
  ◌≡◌, sym, ◌∙◌, String, true, false, some, [], ◌∷◌, arith, is_empty, trim_space,
}
use ginblade.Prelude.Text.Trim.{trim_space_idem}
use ginblade.Errors.{ok-injective, Result, ok}
use ginblade.Context.{Context}
use ginblade.Log.{trace_id_from}
use ginblade.Log.Trace.{trace_id_from-ensure_trace_id}
use ginblade.Task.{
  new_task, Task, Json, JsonLaws, ExamplePayload, new_example_task, trace_id_from_payload,
}
use ginblade.Model.{EnqueueExampleTaskReq}
use ginblade.Service.{ExampleService, ExampleQueue, enqueue_task, queue_reply}
use ginblade.Worker.{TaskRuntimeMetadata, task_log_context}

module _ (json : Json) (laws : JsonLaws json) where
  abbrev pub payload_for : String → String → ExamplePayload
  payload_for name id = record { name = name; trace_id = trim_space id }

  new_task-payload : (r : Result String) (t : Task) → new_task json r ≡ ok t → r ≡ ok t.payload
  new_task-payload r t h = ground arith

  -- What NewExampleTask puts into the payload.
  payload-new_example_task :
      (name id : String) (t : Task)
      → new_example_task json name (id ∷ []) ≡ ok t
      → laws.bytes (payload_for name id) ≡ t.payload
  unfolding new_example_task
  payload-new_example_task name id t h =
      ok-injective (sym (laws.marshals (payload_for name id)) ∙ new_task-payload _ t h)

  pub trace_id_from_payload-new_example_task :
      (name id : String) (t : Task)
      → new_example_task json name (id ∷ []) ≡ ok t
      → trace_id_from_payload json t.payload ≡ trim_space id
  unfolding trace_id_from_payload
  trace_id_from_payload-new_example_task name id t h =
      rw (← payload-new_example_task name id t h) (rw (laws.unmarshals_trace (payload_for name id)))

  -- The context that the trace middleware gives to the handler of such a task.
  pub task_log_context-trace :
      (name id : String) (t : Task) (ctx : Context) (meta : TaskRuntimeMetadata)
      → new_example_task json name (id ∷ []) ≡ ok t
      → trace_id_from (some ctx) ≡ ""
      → is_empty (trim_space id) ≡ false
      → trace_id_from (some (task_log_context json ctx t meta).0) ≡ trim_space id
  unfolding task_log_context
  task_log_context-trace name id t ctx meta made bare given =
      rw (trace_id_from_payload-new_example_task name id t made, given)
        (rw (trace_id_from-ensure_trace_id (some ctx) (trim_space id), bare) (trim_space_idem id))

  -- The task that EnqueueTask hands to the queue.
  abbrev pub published : Context → EnqueueExampleTaskReq → Task
  published ctx req = record {
    kind = "example:run";
    payload = laws.bytes (payload_for req.name (trace_id_from (some ctx)));
    max_retry = 5;
  }

  pub new_example_task-published :
      (ctx : Context) (req : EnqueueExampleTaskReq)
      → new_example_task json req.name (trace_id_from (some ctx) ∷ []) ≡ ok (published ctx req)
  unfolding new_example_task
  new_example_task-published ctx req =
      rw (laws.marshals (payload_for req.name (trace_id_from (some ctx))))

  module _ {S : Type 0} where
    -- A request with a trace id, published by EnqueueTask through an available queue, is handed to
    -- the queue once, as a task whose payload decodes to the request's name and its trimmed trace
    -- id; and a worker whose context has no trace id yet runs the task's handler under that id.
    pub enqueue_task-trace :
        (svc : ExampleService S) (q : ExampleQueue S) (ctx worker_ctx : Context)
        (req : EnqueueExampleTaskReq) (meta : TaskRuntimeMetadata) (s : S)
        → svc.queue ≡ some q
        → q.available ≡ true
        → is_empty (trim_space (trace_id_from (some ctx))) ≡ false
        → trace_id_from (some worker_ctx) ≡ ""
        → (enqueue_task json svc ctx req s ≡ queue_reply ctx (q.enqueue ctx (published ctx req) s))
          × (json.unmarshal (published ctx req).payload
              ≡ ok (payload_for req.name (trace_id_from (some ctx))))
          × (trace_id_from (some (task_log_context json worker_ctx (published ctx req) meta).0)
              ≡ trim_space (trace_id_from (some ctx)))
    unfolding enqueue_task
    enqueue_task-trace svc q ctx worker_ctx req meta s has ready given bare = (
      rw (has, ready, new_example_task-published ctx req),
      laws.unmarshals _,
      task_log_context-trace req.name (trace_id_from (some ctx)) _ worker_ctx meta
          (new_example_task-published ctx req) bare given,
    )
