-- ===== src/Ingress/Joined.antt =====
-- Tasks that are joined with an event by the request's key (hub/routes/webhook.py, hub/db.py).
use antigravity_webhook_hub.Prelude.{
  ℕ, String, str_eq, eq_iff, ◌≡◌, refl, Bool, true, false, ◌&&◌, ◌||◌, Option, none, some, List, [],
  ◌∷◌, ◌++◌, any, find, arith, Bool-cases, Option-cases, inl, inr, any-last, find-none, find-holds,
  find-any,
}
use antigravity_webhook_hub.Store.Rows.{
  Event, EventStatus, received, Task, Db, sql_eq, references, event_clashes, task_allowed,
  create_event,
}
use antigravity_webhook_hub.Store.Events.{key_taken, insert_webhook_event, get_event_by_idempotency}
use antigravity_webhook_hub.Store.Tasks.{insert_task, get_task_by_idempotency}
use antigravity_webhook_hub.Store.Trigger.{auto_events-same}
use antigravity_webhook_hub.Store.Intake.Duplicates.{latest_task-some}
use antigravity_webhook_hub.Schedule.Engine.{Hub}
use antigravity_webhook_hub.Ingress.Check.{accepted, Job}
use antigravity_webhook_hub.Ingress.Handle.{
  Handled, answers, executes, fails, hub_after, event_record, task_record, find_event, attach_task,
  collision,
}

-- The request was taken: its task is in the table, and is queued or executed.
abbrev pub took : Handled → Bool
took (answers (accepted e t d) hub) = true
took (answers r hub) = false
took (executes e t hub) = true
took (fails hub) = false

module _ (source key : String) where
  abbrev pub holds_key : Event → Bool
  holds_key e = str_eq e.source source && sql_eq e.idempotency_key key

  abbrev pub joins_key : List Event → Task → Bool
  joins_key events t = any (λ e. references t e && holds_key e) events

  by_key-some :
      (db : Db)
      → any (joins_key db.events) db.tasks ≡ true
      → (u : Task) × (get_task_by_idempotency source key db ≡ some u)
  unfolding get_task_by_idempotency
  by_key-some db h = latest_task-some (joins_key db.events) db.tasks h

abbrev pub with_task : Task → Db → Db
with_task t db = record (create_event t db) { tasks = db.tasks ++ t ∷ [] }

attached :
    (job : Job) (event_id task_id : String) (dup : Bool) (now : ℕ) (hub : Hub)
    → took (attach_task job event_id task_id dup now hub) ≡ true
    → (hub_after (attach_task job event_id task_id dup now hub)).db
      ≡ with_task (task_record job event_id task_id now) hub.db
unfolding insert_task
attached job event_id task_id dup now hub h =
    let t = task_record job event_id task_id now in
    elim (Bool-cases (task_allowed t (create_event t hub.db))) [
      | inl e ↦ (elim (Bool-cases job.sync) [
        | inl s ↦ rw (insert_task, e, s) refl
        | inr s ↦ rw (insert_task, e, s) refl
      ])
      | inr e ↦ absurd (cc (rw (insert_task, e) at h))
    ]

same_text : (s : String) → str_eq s s ≡ true
same_text s = (eq_iff s s).1 refl

-- The event that a job stores holds the job's key.
own_key :
    (job : Job) (event_id : String) (status : EventStatus) (now : ℕ)
    → holds_key job.source job.idempotency_key (event_record job event_id status now) ≡ true
own_key job event_id status now =
    ground (arith, same_text job.source, same_text job.idempotency_key)

abbrev pub KnownKey : String → String → Db → Type 0
KnownKey source key db = (u : Task) × (get_task_by_idempotency source key db ≡ some u)

abbrev pub Known : Job → Db → Type 0
Known job db = KnownKey job.source job.idempotency_key db

joined-references :
    (job : Job) (t : Task) (es : List Event)
    → joins_key job.source job.idempotency_key es t ≡ true
    → any (references t) es ≡ true
joined-references job t [] h = h
joined-references job t (e ∷ es) h = ground (arith, joined-references job t es)

known :
    (job : Job) (event_id task_id : String) (now : ℕ) (db : Db)
    → joins_key job.source job.idempotency_key db.events (task_record job event_id task_id now)
      ≡ true
    → Known job (with_task (task_record job event_id task_id now) db)
known job event_id task_id now db h =
    let t = task_record job event_id task_id now in
    let same = auto_events-same db.auto_event t db.events (joined-references job t db.events h) in
    by_key-some job.source job.idempotency_key (with_task t db)
      (rw same (any-last (joins_key job.source job.idempotency_key db.events) db.tasks t h))

pub attached-known :
    (job : Job) (event_id task_id : String) (dup : Bool) (now : ℕ) (hub : Hub)
    → joins_key job.source job.idempotency_key hub.db.events (task_record job event_id task_id now)
      ≡ true
    → took (attach_task job event_id task_id dup now hub) ≡ true
    → Known job (hub_after (attach_task job event_id task_id dup now hub)).db
attached-known job event_id task_id dup now hub h k =
    rw (attached job event_id task_id dup now hub k) (known job event_id task_id now hub.db h)

pub fresh_event :
    (job : Job) (event_id task_id : String) (now : ℕ) (events : List Event)
    → joins_key job.source job.idempotency_key
        (events ++ event_record job event_id received now ∷ [])
        (task_record job event_id task_id now)
      ≡ true
fresh_event job event_id task_id now events =
    any-last
      (λ e.
        references (task_record job event_id task_id now) e
        && holds_key job.source job.idempotency_key e)
      events (event_record job event_id received now)
      (ground (arith, same_text event_id, own_key job event_id received now))

clashes-or :
    (job : Job) (event_id : String) (now : ℕ) (es : List Event)
    → any (event_clashes (event_record job event_id received now)) es
      ≡ any (λ e. str_eq e.event_id event_id) es
        || any (holds_key job.source job.idempotency_key) es
clashes-or job event_id now [] = refl
clashes-or job event_id now (e ∷ es) = ground (arith, clashes-or job event_id now es)

-- An insertion is refused only for an event that has the key already.
pub refused-holds :
    (job : Job) (event_id : String) (now : ℕ) (db : Db)
    → any (λ e. str_eq e.event_id event_id) db.events ≡ false
    → (insert_webhook_event (event_record job event_id received now) db).0 ≡ false
    → any (holds_key job.source job.idempotency_key) db.events ≡ true
unfolding insert_webhook_event
refused-holds job event_id now db fresh h =
    elim (Bool-cases (key_taken (event_record job event_id received now) db)) [
      | inl e ↦ ground arith
      | inr e ↦
          (elim (Bool-cases
            (any (event_clashes (event_record job event_id received now)) db.events)) [
              | inl c ↦ ground (arith, clashes-or job event_id now db.events)
              | inr c ↦ absurd (cc (rw (e, c) at h))
            ])
    ]

abbrev pub lookup : Job → Db → Option Event
lookup job db = find (holds_key job.source job.idempotency_key) db.events

pub found-key :
    (job : Job) (db : Db)
    → any (holds_key job.source job.idempotency_key) db.events ≡ true
    → (e : Event) × (lookup job db ≡ some e)
found-key job db h = elim (Option-cases (lookup job db)) [
  | inl e ↦ absurd (cc (find-none (holds_key job.source job.idempotency_key) db.events e, h))
  | inr f ↦ f
]

pub find_event-lookup :
    (job : Job) (db : Db) (e : Event) → lookup job db ≡ some e → find_event job db ≡ some e
unfolding find_event get_event_by_idempotency
find_event-lookup job db e h = rw (find_event, get_event_by_idempotency, h) refl

-- A task for an event that was found joins it.
joins-found :
    (job : Job) (task_id : String) (now : ℕ) (db : Db) (e : Event)
    → lookup job db ≡ some e
    → joins_key job.source job.idempotency_key db.events (task_record job e.event_id task_id now)
      ≡ true
joins-found job task_id now db e h =
    find-any (holds_key job.source job.idempotency_key)
      (λ x.
        references (task_record job e.event_id task_id now) x
        && holds_key job.source job.idempotency_key x)
      db.events e h
      (ground (
        arith,
        same_text e.event_id,
        find-holds (holds_key job.source job.idempotency_key) db.events e h,
      ))

pub collision-known :
    (o : Option Task) (e : Event) (job : Job) (event_id task_id : String) (now : ℕ) (hub : Hub)
    → lookup job hub.db ≡ some e
    → took (collision o (some e) job event_id task_id now hub) ≡ true
    → Known job (hub_after (collision o (some e) job event_id task_id now hub)).db
collision-known (some t) e job event_id task_id now hub h k = cc
collision-known none e job event_id task_id now hub h k =
    attached-known job e.event_id task_id true now hub (joins-found job task_id now hub.db e h) k
