-- ===== src/Worker/Running.antt =====
-- The example task's handler under the trace middleware.
use ginblade.Prelude.{◌≡◌, refl, ◌⊎◌, inl, inr, String, Option, none, some, List, All, length}
use ginblade.Errors.{GoError, wrap, Result, ok, err}
use ginblade.Context.{Db, Context}
use ginblade.Log.{trace_id_from}
use ginblade.Http.{Entry, Field}
use ginblade.Task.{Task, Json, ExamplePayload}
use ginblade.Worker.{
  lifecycle_entry, is_some, TaskRuntimeMetadata, task_log_context, trace_middleware,
  handle_example_task, executed, finish,
}

module _ {S : Type 0} (json : Json) (db : Option Db) (meta : Context → TaskRuntimeMetadata)
    (ctx : Context) (t : Task) (s : S) where
  -- The trace id of the context that the middleware makes for the task.
  abbrev pub task_id : String
  task_id = trace_id_from (some (task_log_context json ctx t (meta ctx)).0)

  -- A task whose payload decodes: it is done, and its start, its execution and its end are logged.
  abbrev pub IsExecuted : Option GoError × List Entry × S → Type 0
  IsExecuted (failure, log, after) =
      ((p : ExamplePayload) × (json.unmarshal t.payload ≡ ok p))
      × (failure ≡ none)
      × (length log ≡ 3)

  -- A task whose payload does not decode: it fails with that error, and only its start is logged.
  abbrev pub IsMalformed : Option GoError × List Entry × S → Type 0
  IsMalformed (failure, log, after) =
      (length log ≡ 1)
      × ((e : GoError) × (json.unmarshal t.payload ≡ err e)
          × (failure ≡ some (wrap "unmarshal example payload" e)))

  -- Either of these, with every entry under the task's trace id, and the state as before.
  abbrev pub IsRun : Option GoError × List Entry × S → Type 0
  IsRun o = All (λ e. e.trace ≡ task_id) o.1 × (o.2 ≡ s) × (IsExecuted o ⊎ IsMalformed o)

  abbrev entry : String → List Field → Entry
  entry message fields = lifecycle_entry message (task_log_context json ctx t (meta ctx)).0 fields

  finish-IsRun :
      (fields : List Field) (r : Result ExamplePayload)
      → json.unmarshal t.payload ≡ r
      → IsRun (
          finish json
            (entry "asynq task started" fields)
            (entry "asynq task finished" fields)
            (executed json (task_log_context json ctx t (meta ctx)).0 (is_some db) r s))
  finish-IsRun fields (ok p) h = ((refl, (refl, (refl, tt))), refl, inl ((p, h), refl, refl))
  finish-IsRun fields (err e) h = ((refl, tt), refl, inr (refl, (e, h, refl)))

  -- The middleware runs the example task to its end, or to the error of its payload if that does
  -- not decode; every entry that the two log is under the task's trace id, three in the first case
  -- and one in the second, and the state is left alone.
  pub example_task_lem : IsRun (trace_middleware json (handle_example_task json db) meta ctx t s)
  unfolding trace_middleware handle_example_task
  example_task_lem = finish-IsRun _ (json.unmarshal t.payload) refl
