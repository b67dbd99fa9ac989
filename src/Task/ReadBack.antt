-- ===== src/Task/ReadBack.antt =====
-- What NewExampleTask writes into a payload, and how the worker reads it.
use ginblade.Prelude.{◌≡◌, refl, String, List, [], ◌∷◌, trim_space}
use ginblade.Errors.{Result, ok}
use ginblade.Encoding.Payload.{marshal, unmarshal, encoding_json}
use ginblade.Encoding.RoundTrip.{unmarshal-marshal}
use ginblade.Task.{Task, ExamplePayload, new_example_task, trace_id_from_payload}

-- A task of the example type with five retries, whose payload json.Unmarshal reads as that name and
-- trace id, and TraceIDFromPayload as that trace id.
abbrev pub IsReadAs : String → String → Result Task → Type 0
IsReadAs name id r =
    (t : Task) × (r ≡ ok t)
    × (t.kind ≡ "example:run")
    × (t.max_retry ≡ 5)
    × (unmarshal t.payload ≡ ok (record { name = name; trace_id = id }))
    × (trace_id_from_payload encoding_json t.payload ≡ id)

task_of : ExamplePayload → Task
task_of p = record { kind = "example:run"; payload = marshal p; max_retry = 5 }

made : (name id : String) → IsReadAs name id (ok (task_of (record { name = name; trace_id = id })))
unfolding trace_id_from_payload encoding_json task_of
made name id =
    let (payload, trace) = unmarshal-marshal (record { name = name; trace_id = id }) in
    (_, refl, refl, refl, payload, rw trace refl)

-- NewExampleTask always makes a task. The worker reads its name and its trace id from the payload:
-- the trimmed trace id that was given first, or none. The name and the trace id are arbitrary texts
-- of valid UTF-8.
pub new_example_task-IsReadAs :
    (name id : String) (ids : List String)
    → IsReadAs name (trim_space id) (new_example_task encoding_json name (id ∷ ids))
      × IsReadAs name "" (new_example_task encoding_json name [])
unfolding new_example_task encoding_json task_of
new_example_task-IsReadAs name id ids = (made name (trim_space id), made name "")
