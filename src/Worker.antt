-- ===== src/Worker.antt =====
-- internal/worker: the asynq server's retry delay, the trace middleware around task handlers, and
-- the handler of the example task.
pub mod Retry
pub mod Running
pub mod Runtime
pub mod Trace
use ginblade.Prelude.{
  ℕ, ◌+◌, ◌-◌, ◌*◌, ◌%◌, ◌^◌, String, Bool, true, false, Option, none, some, List, [], ◌∷◌, ◌++◌,
  is_empty, trim_space, ltb, if◌then◌else◌,
}
use ginblade.Prelude.Int.{ℤ, pos, negsuc, ltb_ℤ}
use ginblade.Errors.{GoError, wrap, Result, ok, err}
use ginblade.Context.{Db, Context}
use ginblade.Log.{trace_id_from, ensure_trace_id, new_trace_id}
use ginblade.Http.{Entry, Field, info, warn, error, str, int, duration, fault}
use ginblade.Task.{Task, Json, trace_id_from_payload, ExamplePayload}

-- asynq.RedisClientOpt
pub record RedisClientOpt : Type 0 where
  pub addr : String
  pub password : String
  pub db : ℤ

-- NewRedisOpt
unfoldable pub new_redis_opt : String → String → ℤ → RedisClientOpt
new_redis_opt addr password db = record { addr = addr; password = password; db = db }

-- The int64 of a 64-bit pattern.
abbrev pub signed64 : ℕ → ℤ
signed64 w = if ltb w (2 ^ 63) then pos w else negsuc (2 ^ 64 - w - 1)

abbrev pub hour : ℤ
hour = pos 3600000000000

-- time.Duration(1<<uint(n)) * 5 * time.Second, which wraps around in an int64.
unfoldable pub raw_delay : ℕ → ℤ
raw_delay n = signed64 (2 ^ n * 5000000000 % 2 ^ 64)

-- exampleRetryDelay, its result
unfoldable pub example_retry_delay : ℕ → ℤ
unfolding raw_delay
example_retry_delay n = let delay = raw_delay n in if ltb_ℤ hour delay then hour else delay

-- taskRuntimeMetadata
pub record TaskRuntimeMetadata : Type 0 where
  pub task_id : String
  pub queue : String
  pub retry_count : ℕ
  pub retry_count_recorded : Bool

abbrev pub or_empty : Option String → String
or_empty none = ""
or_empty (some s) = s

abbrev pub or_zero : Option ℕ → ℕ
or_zero none = 0
or_zero (some n) = n

abbrev pub is_some {ℓ} : {A : Type ℓ} → Option A → Bool
is_some none = false
is_some (some a) = true

-- taskRuntimeMetadataFromContext, from what asynq's getters find in the context
unfoldable pub task_runtime_metadata_from_context :
    Option String → Option String → Option ℕ → TaskRuntimeMetadata
task_runtime_metadata_from_context task_id queue retry_count = record {
  task_id = or_empty task_id;
  queue = or_empty queue;
  retry_count = or_zero retry_count;
  retry_count_recorded = is_some retry_count;
}

abbrev pub text_field : String → String → List Field
text_field name value = if is_empty (trim_space value) then [] else str name value ∷ []

abbrev pub retry_field : TaskRuntimeMetadata → List Field
retry_field meta = if meta.retry_count_recorded then int "retry_count" meta.retry_count ∷ [] else []

module _ (json : Json) where
  -- The trace id that taskLogContext takes for a task, and where it came from.
  unfoldable pub task_trace : Task → TaskRuntimeMetadata → String × String
  task_trace t meta =
      let id = trace_id_from_payload json t.payload in
      if is_empty id
      then (new_trace_id ("asynq" ∷ meta.task_id ∷ []), "asynq_task")
      else (id, "request")

  -- taskLogContext
  unfoldable pub task_log_context : Context → Task → TaskRuntimeMetadata → Context × List Field
  unfolding task_trace
  task_log_context ctx t meta =
      let (id, source) = task_trace t meta in
      (
        ensure_trace_id (some ctx) id,
        str "task" t.kind ∷ str "trace_source" source ∷ text_field "task_id" meta.task_id
            ++ text_field "queue" meta.queue
            ++ retry_field meta,
      )

  -- The entry of the warning that exampleRetryDelay logs. Its logger has the payload's trace id.
  unfoldable pub retry_entry : ℕ → GoError → Task → ℤ → Entry
  retry_entry n e t delay = record {
    level = warn;
    message = "asynq task will retry";
    trace = trace_id_from_payload json t.payload;
    fields =
        str "task" t.kind ∷ int "attempt" (n + 1) ∷ duration "retry_after" delay ∷ fault e ∷ [];
  }

  -- exampleRetryDelay, with the entry that it logs
  unfoldable pub retry : ℕ → GoError → Task → ℤ × Entry
  unfolding example_retry_delay retry_entry
  retry n e t = let delay = example_retry_delay n in (delay, retry_entry n e t delay)

  -- logTaskFailed
  unfoldable pub log_task_failed : Context → Task → TaskRuntimeMetadata → GoError → Entry
  unfolding task_log_context
  log_task_failed ctx t meta e =
      let (ctx', fields) = task_log_context ctx t meta in
      record {
        level = error;
        message = "asynq task failed";
        trace = trace_id_from (some ctx');
        fields = fields ++ fault e ∷ [];
      }

-- A task handler: its error, if any, what it logged, and the state.
abbrev pub TaskHandler : Type 0 → Type 0
TaskHandler S = Context → Task → S → Option GoError × List Entry × S

abbrev pub lifecycle_entry : String → Context → List Field → Entry
lifecycle_entry message ctx fields = record {
  level = info;
  message = message;
  trace = trace_id_from (some ctx);
  fields = fields;
}

module _ {S : Type 0} (json : Json) where
  abbrev pub finish :
      Entry → Entry → Option GoError × List Entry × S → Option GoError × List Entry × S
  finish started finished (some e, log, s) = (some e, started ∷ log, s)
  finish started finished (none, log, s) = (none, started ∷ log ++ finished ∷ [], s)

  -- traceMiddleware
  unfoldable pub trace_middleware : TaskHandler S → (Context → TaskRuntimeMetadata) → TaskHandler S
  unfolding task_log_context
  trace_middleware next meta_provider ctx t s =
      let (ctx', fields) = task_log_context json ctx t (meta_provider ctx) in
      finish (lifecycle_entry "asynq task started" ctx' fields)
        (lifecycle_entry "asynq task finished" ctx' fields) (next ctx' t s)

  abbrev pub executed : Context → Bool → Result ExamplePayload → S → Option GoError × List Entry × S
  executed ctx db_available (err e) s = (some (wrap "unmarshal example payload" e), [], s)
  executed ctx db_available (ok p) s = (
    none,
    lifecycle_entry "example task executed" ctx
          (str "name" p.name ∷ str "db_available" (if db_available then "true" else "false") ∷ [])
        ∷ [],
    s,
  )

  -- HandleExampleTask; `db` is the field of Deps, none for nil Deps.
  unfoldable pub handle_example_task : Option Db → TaskHandler S
  handle_example_task db ctx t s = executed ctx (is_some db) (json.unmarshal t.payload) s
