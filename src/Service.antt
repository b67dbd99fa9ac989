-- ===== src/Service.antt =====
-- internal/service/example.go: the application flow between handlers, repository and queue. `S` is
-- the state of what the service calls.
pub mod Listing
pub mod ReadBack
use ginblade.Prelude.{
  ℕ, String, Bool, true, false, not, Option, none, some, List, [], ◌∷◌, if◌then◌else◌,
}
use ginblade.Prelude.Int.{ℤ, pos, eqb_ℤ}
use ginblade.Errors.{GoError, api, Result, ok, err}
use ginblade.Errcode.{database_error, queue_unavailable, queue_error}
use ginblade.Context.{Context}
use ginblade.Log.{trace_id_from}
use ginblade.Model.{
  Example, CreateExampleReq, EnqueueExampleTaskReq, EnqueueExampleTaskRes, ListExamplesReq,
  ListExamplesRes,
}
use ginblade.Http.{Entry, error, fault}
use ginblade.Task.{Task, Json, new_example_task}

-- ExampleRepository
pub record ExampleRepository (S : Type 0) : Type 0 where
  pub create : Context → Example → S → Result Example × S
  pub list : Context → ℤ → ℤ → S → Result (List Example × ℕ) × S

-- ExampleQueue
pub record ExampleQueue (S : Type 0) : Type 0 where
  pub available : Bool
  pub enqueue : Context → Task → S → Result String × S

-- ExampleService; the queue interface may be nil.
pub record ExampleService (S : Type 0) : Type 0 where
  pub repo : ExampleRepository S
  pub queue : Option (ExampleQueue S)

-- What a method leaves: its result, what it logged, and the state.
pub record Reply (S A : Type 0) : Type 0 where
  pub result : Result A
  pub log : List Entry
  pub state : S

abbrev pub failure_entry : String → Context → GoError → Entry
unfolding trace_id_from
failure_entry message ctx e = record {
  level = error;
  message = message;
  trace = trace_id_from (some ctx);
  fields = fault e ∷ [];
}

-- The default of ListExamplesReq.Limit.
abbrev pub default_limit : ℤ → ℤ
default_limit limit = if eqb_ℤ limit (pos 0) then pos 20 else limit

module _ {S : Type 0} where
  abbrev first_queue : List (Option (ExampleQueue S)) → Option (ExampleQueue S)
  first_queue [] = none
  first_queue (q ∷ qs) = q

  -- NewExampleService
  unfoldable pub new_example_service :
      ExampleRepository S → List (Option (ExampleQueue S)) → ExampleService S
  new_example_service repo queues = record { repo = repo; queue = first_queue queues }

  -- The result of a call, or the API error that stands for its failure, with the entry for the log.
  abbrev pub reply :
      {A B : Type 0} → (A → B) → String → GoError → Context → Result A × S → Reply S B
  reply f message shown ctx (ok a, s) = record { result = ok (f a); log = []; state = s }
  reply f message shown ctx (err e, s) = record {
    result = err shown;
    log = failure_entry message ctx e ∷ [];
    state = s;
  }

  -- Create
  unfoldable pub create : ExampleService S → Context → CreateExampleReq → S → Reply S Example
  create svc ctx req s =
      reply (λ e. e) "failed to create example" (api database_error) ctx
        (svc.repo.create ctx (record { id = 0; name = req.name; created_at = 0; updated_at = 0 }) s)

  abbrev pub is_available : Option (ExampleQueue S) → Bool
  is_available none = false
  is_available (some q) = q.available

  abbrev pub queue_reply : Context → Result String × S → Reply S EnqueueExampleTaskRes
  queue_reply =
      reply (λ id. record { queued = true }) "failed to enqueue example task" (api queue_error)

  abbrev pub publish :
      Option (ExampleQueue S) → Context → Result Task → S → Reply S EnqueueExampleTaskRes
  publish none ctx t s = record { result = err (api queue_unavailable); log = []; state = s }
  publish (some q) ctx (err e) s = record {
    result = err (api queue_error);
    log = failure_entry "failed to create example task" ctx e ∷ [];
    state = s;
  }
  publish (some q) ctx (ok t) s = queue_reply ctx (q.enqueue ctx t s)

  -- EnqueueTask
  unfoldable pub enqueue_task :
      Json → ExampleService S → Context → EnqueueExampleTaskReq → S → Reply S EnqueueExampleTaskRes
  unfolding trace_id_from new_example_task
  enqueue_task json svc ctx req s =
      if not (is_available svc.queue)
      then record { result = err (api queue_unavailable); log = []; state = s }
      else publish svc.queue ctx (new_example_task json req.name (trace_id_from (some ctx) ∷ [])) s

  abbrev pub page_reply : Context → Result (List Example × ℕ) × S → Reply S ListExamplesRes
  page_reply =
      reply (λ r. record { examples = r.0; total = r.1 }) "failed to list examples"
        (api database_error)

  -- List
  unfoldable pub list : ExampleService S → Context → ListExamplesReq → S → Reply S ListExamplesRes
  list svc ctx req s = page_reply ctx (svc.repo.list ctx (default_limit req.limit) req.offset s)
