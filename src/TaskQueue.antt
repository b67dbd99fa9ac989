-- ===== src/TaskQueue.antt =====
-- internal/taskqueue/taskqueue.go: the queue boundary. The asynq client is a parameter of the
-- operations; `S` is the state of the queue's store.
use ginblade.Prelude.{String, Bool, true, false, Option, none, some}
use ginblade.Errors.{GoError, sentinel, Result, err}
use ginblade.Context.{Context, normalize_context}
use ginblade.Task.{Task}

-- asynq.Client.EnqueueContext; it gives back the id of the task.
abbrev pub Client : Type 0 → Type 0
Client S = Context → Task → S → Result String × S

-- Queue
pub record Queue (S : Type 0) : Type 0 where
  pub client : Option (Client S)

abbrev pub err_queue_unavailable : GoError
err_queue_unavailable = sentinel "taskqueue: queue unavailable"

abbrev pub err_nil_task : GoError
err_nil_task = sentinel "taskqueue: nil task"

module _ {S : Type 0} where
  -- NewQueue
  unfoldable pub new_queue : Option (Client S) → Option (Queue S)
  new_queue none = none
  new_queue (some c) = some (record { client = some c })

  abbrev client_of : Option (Queue S) → Option (Client S)
  client_of none = none
  client_of (some q) = q.client

  abbrev is_set : Option (Client S) → Bool
  is_set none = false
  is_set (some c) = true

  -- Available
  unfoldable pub available : Option (Queue S) → Bool
  available q = is_set (client_of q)

  abbrev enqueue_with : Option (Client S) → Option Context → Option Task → S → Result String × S
  enqueue_with none ctx t s = (err err_queue_unavailable, s)
  enqueue_with (some c) ctx none s = (err err_nil_task, s)
  enqueue_with (some c) ctx (some t) s = c (normalize_context ctx) t s

  -- Enqueue
  unfoldable pub enqueue : Option (Queue S) → Option Context → Option Task → S → Result String × S
  unfolding normalize_context
  enqueue q ctx t s = enqueue_with (client_of q) ctx t s
