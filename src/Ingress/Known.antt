-- ===== src/Ingress/Known.antt =====
-- The task that a request leaves in the tables (hub/routes/webhook.py), seen by its key.
use mathlib.Core.Path.{subst}
use antigravity_webhook_hub.Prelude.{
  ℕ, String, str_eq, ◌≡◌, refl, sym, Bool, true, false, some, [], ◌∷◌, ◌++◌, any, Bool-cases, inl,
  inr,
}
use antigravity_webhook_hub.Store.Rows.{Event, received, Task, Db, event_clashes}
use antigravity_webhook_hub.Store.Events.{key_taken, insert_webhook_event}
use antigravity_webhook_hub.Store.Tasks.{get_task_by_idempotency}
use antigravity_webhook_hub.Store.Intake.Duplicates.{inserted-event}
use antigravity_webhook_hub.Schedule.Engine.{Hub}
use antigravity_webhook_hub.Ingress.Check.{Job}
use antigravity_webhook_hub.Ingress.Handle.{
  Handled, hub_after, event_record, find_duplicate, with_inserted, task_of_event, store_task,
  or_task,
}
use antigravity_webhook_hub.Ingress.Joined.{
  took, holds_key, Known, attached-known, fresh_event, refused-holds, found-key, find_event-lookup,
  collision-known,
}

-- What has to hold after a request that was taken.
abbrev pub Remembered : Job → Handled → Type 0
Remembered job h = took h ≡ true → Known job (hub_after h).db

abbrev with_event : Event → Db → Db
with_event e db = record db { events = db.events ++ e ∷ [] }

new-known :
    (job : Job) (event_id task_id : String) (now : ℕ) (hub : Hub)
    → Remembered job (
        with_inserted
          (true, with_event (event_record job event_id received now) hub.db)
          job
          event_id
          task_id
          now
          hub)
new-known job event_id task_id now hub =
    attached-known job event_id task_id false now
      (record hub { db = with_event (event_record job event_id received now) hub.db })
      (fresh_event job event_id task_id now hub.db.events)

old-known :
    (job : Job) (event_id task_id : String) (now : ℕ) (hub : Hub)
    → any (holds_key job.source job.idempotency_key) hub.db.events ≡ true
    → Remembered job (with_inserted (false, hub.db) job event_id task_id now hub)
old-known job event_id task_id now hub h =
    let (e, found) = found-key job hub.db h in
    rw (find_event-lookup job hub.db e found) (
      collision-known
        (or_task (task_of_event (some e) hub.db)
          (get_task_by_idempotency job.source job.idempotency_key hub.db))
        e job event_id task_id now hub found)

pub refused-same :
    (e : Event) (db : Db)
    → (insert_webhook_event e db).0 ≡ false
    → insert_webhook_event e db ≡ (false, db)
unfolding insert_webhook_event
refused-same e db h = elim (Bool-cases (key_taken e db)) [
  | inl k ↦ rw k refl
  | inr k ↦ (elim (Bool-cases (any (event_clashes e) db.events)) [
    | inl c ↦ rw (k, c) refl
    | inr c ↦ absurd (cc (rw (k, c) at h))
  ])
]

abbrev Inserts : Job → String → String → ℕ → Hub → Bool × Db → Type 0
Inserts job event_id task_id now hub stored =
    Remembered job (with_inserted stored job event_id task_id now hub)

pub stored-known :
    (job : Job) (event_id task_id : String) (now : ℕ) (hub : Hub)
    → any (λ e. str_eq e.event_id event_id) hub.db.events ≡ false
    → Remembered job (store_task job event_id task_id now hub)
unfolding store_task
stored-known job event_id task_id now hub fresh =
    let e = event_record job event_id received now in
    elim (Bool-cases (insert_webhook_event e hub.db).0) [
      | inl h ↦
          subst (Inserts job event_id task_id now hub)
            (sym (λ i. (h i, inserted-event e hub.db h i))) (new-known job event_id task_id now hub)
      | inr h ↦
          subst (Inserts job event_id task_id now hub) (sym (refused-same e hub.db h))
            (old-known job event_id task_id now hub (refused-holds job event_id now hub.db fresh h))
    ]

-- The task that an earlier request left decides what a request with its key gets.
pub known-duplicate :
    (job : Job) (db : Db) → Known job db → (u : Task) × (find_duplicate job db ≡ some u)
unfolding find_duplicate
known-duplicate job db (u, h) = (u, rw h refl)
