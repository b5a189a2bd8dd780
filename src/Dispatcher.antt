-- ===== src/Dispatcher.antt =====
-- The queue of hub/dispatcher.py: `enqueue` and the steps of the workers. A worker holds the task
-- that it executes, from `queue.get` to the `finally` that takes the id out of
-- `_enqueued_task_ids`; `running` is the list of what the workers hold.
pub mod Exclusion
pub mod Start
pub mod Execute
pub mod Boot
use antigravity_webhook_hub.Prelude.{
  String, str_eq, Bool, true, false, not, ◌≡◌, List, [], ◌∷◌, ◌++◌, any, keep, if◌then◌else◌,
}

pub record Dispatcher : Type 0 where
  pub queue : List String
  pub enqueued_task_ids : List String
  pub running : List String

abbrev pub member : String → List String → Bool
member i is = any (λ j. str_eq j i) is

abbrev pub remove : String → List String → List String
remove i is = keep (λ j. not (str_eq j i)) is

unfoldable pub enqueue : String → Dispatcher → Dispatcher
enqueue task_id d = if member task_id d.enqueued_task_ids then d else record d {
  queue = d.queue ++ task_id ∷ [];
  enqueued_task_ids = task_id ∷ d.enqueued_task_ids;
}

-- A worker's `queue.get`, which waits while the queue is empty.
unfoldable pub dequeue : Dispatcher → List String → Dispatcher
dequeue d [] = d
dequeue d (task_id ∷ rest) = record d { queue = rest; running = task_id ∷ d.running }

-- The `finally` of the worker that executed the task.
unfoldable pub finish : String → Dispatcher → Dispatcher
finish task_id d = record d {
  enqueued_task_ids = remove task_id d.enqueued_task_ids;
  running = remove task_id d.running;
}

-- What happens to the queue, in any order: calls of `enqueue`, and the steps of the workers.
pub data Step : Dispatcher → Dispatcher → Type 0 where
  enqueues : (task_id : String) (d : Dispatcher) → Step d (enqueue task_id d)
  dequeues : (d : Dispatcher) → Step d (dequeue d d.queue)
  finishes :
      (task_id : String) (d : Dispatcher)
      → member task_id d.running ≡ true
      → Step d (finish task_id d)

pub data Steps : Dispatcher → Dispatcher → Type 0 where
  done : (d : Dispatcher) → Steps d d
  step : {c d e : Dispatcher} → Step c d → Steps d e → Steps c e

pub idle : Dispatcher
idle = record { queue = []; enqueued_task_ids = []; running = [] }
