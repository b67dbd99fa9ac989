-- ===== src/Task.antt =====
-- internal/task: the example task and its payload. encoding/json is an interface, `Json`, that
-- Encoding fills.
pub mod ReadBack
use ginblade.Prelude.{ℕ, String, List, [], ◌∷◌, ◌≡◌, trim_space}
use ginblade.Errors.{Result, ok, err, wrap}

-- TypeExampleTask
abbrev pub type_example_task : String
type_example_task = "example:run"

-- ExamplePayload
pub record ExamplePayload : Type 0 where
  pub name : String
  pub trace_id : String

-- asynq.Task, as far as the program makes and reads it; the payload is its bytes.
pub record Task : Type 0 where
  pub kind : String
  pub payload : String
  pub max_retry : ℕ

-- json.Marshal and json.Unmarshal of the payload, and json.Unmarshal into the struct of trace.go
pub record Json : Type 0 where
  pub marshal : ExamplePayload → Result String
  pub unmarshal : String → Result ExamplePayload
  pub unmarshal_trace : String → Result String

-- A payload of valid UTF-8 is encoded, and decoded again by both structs; a field left out because
-- it is empty reads as "".
pub record JsonLaws (json : Json) : Type 0 where
  pub bytes : ExamplePayload → String
  pub marshals : (p : ExamplePayload) → json.marshal p ≡ ok (bytes p)
  pub unmarshals : (p : ExamplePayload) → json.unmarshal (bytes p) ≡ ok p
  pub unmarshals_trace : (p : ExamplePayload) → json.unmarshal_trace (bytes p) ≡ ok p.trace_id

abbrev first_trimmed : List String → String
first_trimmed [] = ""
first_trimmed (id ∷ ids) = trim_space id

abbrev text_or_empty : Result String → String
text_or_empty (ok s) = s
text_or_empty (err e) = ""

module _ (json : Json) where
  abbrev pub new_task : Result String → Result Task
  new_task (ok payload) = ok (record { kind = type_example_task; payload = payload; max_retry = 5 })
  new_task (err e) = err (wrap "marshal example payload" e)

  -- NewExampleTask
  unfoldable pub new_example_task : String → List String → Result Task
  new_example_task name trace_ids =
      new_task (json.marshal (record { name = name; trace_id = first_trimmed trace_ids }))

  -- TraceIDFromPayload
  unfoldable pub trace_id_from_payload : String → String
  trace_id_from_payload payload = text_or_empty (json.unmarshal_trace payload)
