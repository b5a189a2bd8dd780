-- ===== src/Ingress/Answers.antt =====
-- What each answer of `handle_webhook` (hub/routes/webhook.py) says of the hub that it leaves.
use antigravity_webhook_hub.Prelude.{
  Bool, ℕ, String, ◌≡◌, refl, true, Option, none, some, List, any, find-last, Bool-cases, inl, inr,
}
use antigravity_webhook_hub.Prelude.Int.{ℤ}
use antigravity_webhook_hub.Text.{Text}
use antigravity_webhook_hub.Models.{HttpRequest}
use antigravity_webhook_hub.Store.Rows.{scheduled, Task}
use antigravity_webhook_hub.Store.Events.{insert_webhook_event}
use antigravity_webhook_hub.Schedule.Rows.{Schedule, active, insert_schedule, get_schedule, named}
use antigravity_webhook_hub.Schedule.Engine.{Hub}
use antigravity_webhook_hub.Schedule.Create.{planned_run}
use antigravity_webhook_hub.Schedule.Create.{
  Planned, Request, Created, create_schedule, with_run, schedule_record,
}
use antigravity_webhook_hub.Ingress.Check.{
  Response, error, skipped, duplicate, accepted, Job, Checked, refused, crashes, ready, Parsed,
  Triage, AppConfig, is_scheduled, check_request,
}
use antigravity_webhook_hub.Ingress.Check.Keys.{is_refusal, HasKey, check-HasKey}
use antigravity_webhook_hub.Ingress.Scheduled.{
  make_schedule, insert_directly, direct_run, direct_record, schedule_request,
}
use antigravity_webhook_hub.Ingress.Handle.{
  answers, event_record, find_duplicate, with_duplicate, with_created, store_schedule, ingest,
  with_checked, handle_webhook,
}
use antigravity_webhook_hub.Ingress.Truth.{
  OnlyEvents, IsTruthful, inserted-tasks, store_task-IsTruthful, same_text,
}

-- A schedule that was created is in the table, and active.
abbrev IsStored : Created → Type 0
IsStored (Created.created s rows) = (get_schedule s.schedule_id rows ≡ some s) × (s.status ≡ active)
IsStored _ = Unit

refusal-IsTruthful :
    (r : Response) (hub : Hub) → is_refusal r ≡ true → IsTruthful hub (answers r hub)
refusal-IsTruthful (error code reason) hub h = inl refl
refusal-IsTruthful skipped hub h = refl
refusal-IsTruthful (duplicate t e) hub h = refl
refusal-IsTruthful (Response.scheduled e s) hub h = cc
refusal-IsTruthful (accepted e t d) hub h = cc

created-IsTruthful :
    (c : Created) (event_id : String) (before hub : Hub)
    → OnlyEvents before hub
    → IsStored c
    → IsTruthful before (with_created c event_id hub)
created-IsTruthful (Created.created s rows) event_id before hub same found =
    (same.0, s, found.0, found.1)
created-IsTruthful Created.value_error event_id before hub same found = inr (refl, same)
created-IsTruthful Created.other_error event_id before hub same found = tt

module _ (next_run : String → String → Planned)
    (target_time : Option String → Option String → Option String → Planned)
    (params_json : Job → String) (has_scheduler : Bool) where
  run-found :
      (p : Planned) (r : Request) (schedule_id : String) (now : ℕ) (rows : List Schedule)
      → IsStored (with_run next_run target_time p r schedule_id now rows)
  unfolding insert_schedule get_schedule
  run-found (Planned.at next) r schedule_id now rows =
      elim (Bool-cases (any (named schedule_id) rows)) [
        | inl e ↦ rw e tt
        | inr e ↦ rw e (
          find-last (named schedule_id) rows
              (schedule_record next_run target_time r schedule_id next now) e
              (same_text schedule_id),
          refl,
        )
      ]
  run-found Planned.value_error r schedule_id now rows = tt
  run-found Planned.other_error r schedule_id now rows = tt

  direct-found :
      (p : Planned) (r : Request) (schedule_id : String) (now : ℕ) (rows : List Schedule)
      → IsStored
          (insert_directly next_run target_time params_json has_scheduler p r schedule_id now rows)
  unfolding insert_schedule get_schedule
  direct-found (Planned.at next) r schedule_id now rows =
      elim (Bool-cases (any (named schedule_id) rows)) [
        | inl e ↦ rw e tt
        | inr e ↦ rw e (
          find-last (named schedule_id) rows
              (direct_record next_run target_time params_json has_scheduler r schedule_id next now)
              e (same_text schedule_id),
          refl,
        )
      ]
  direct-found Planned.value_error r schedule_id now rows = tt
  direct-found Planned.other_error r schedule_id now rows = tt

  make_schedule-IsStored :
      (r : Request) (schedule_id : String) (now : ℕ) (rows : List Schedule)
      → IsStored
          (make_schedule next_run target_time params_json has_scheduler r schedule_id now rows)
  unfolding make_schedule create_schedule
  make_schedule-IsStored r schedule_id now rows = elim (Bool-cases has_scheduler) [
    | inl e ↦
        rw e (run-found (planned_run next_run target_time r.schedule_type r) r schedule_id now rows)
    | inr e ↦ rw e (
        direct-found (direct_run next_run target_time params_json has_scheduler r) r schedule_id now
          rows)
  ]

  store_schedule-IsTruthful :
      (job : Job) (event_id schedule_id : String) (now : ℕ) (hub : Hub)
      → IsTruthful hub (
          store_schedule next_run target_time params_json has_scheduler job event_id schedule_id now
            hub)
  unfolding store_schedule
  store_schedule-IsTruthful job event_id schedule_id now hub =
      let e = event_record job event_id scheduled now in
      let r = schedule_request next_run target_time params_json has_scheduler job in
      created-IsTruthful
        (make_schedule next_run target_time params_json has_scheduler r schedule_id now
          hub.schedules)
        event_id hub (record hub { db = (insert_webhook_event e hub.db).1 })
        (inserted-tasks e hub.db, refl, refl)
        (make_schedule-IsStored r schedule_id now hub.schedules)

  with_duplicate-IsTruthful :
      (o : Option Task) (job : Job) (event_id task_id schedule_id : String) (now : ℕ) (hub : Hub)
      → IsTruthful hub (
          with_duplicate next_run target_time params_json has_scheduler o job event_id task_id
            schedule_id now hub)
  with_duplicate-IsTruthful (some t) job event_id task_id schedule_id now hub = refl
  with_duplicate-IsTruthful none job event_id task_id schedule_id now hub =
      elim (Bool-cases (is_scheduled job.timing)) [
        | inl e ↦ rw e (store_schedule-IsTruthful job event_id schedule_id now hub)
        | inr e ↦ rw e (store_task-IsTruthful job event_id task_id now hub)
      ]

  with_checked-IsTruthful :
      (c : Checked) (source key event_id task_id schedule_id : String) (now : ℕ) (hub : Hub)
      → HasKey source key c
      → IsTruthful hub (
          with_checked c
            (λ job.
              ingest next_run target_time params_json has_scheduler job event_id task_id schedule_id
                now hub)
            hub)
  unfolding ingest
  with_checked-IsTruthful (refused r) source key event_id task_id schedule_id now hub h =
      refusal-IsTruthful r hub h
  with_checked-IsTruthful crashes source key event_id task_id schedule_id now hub h = tt
  with_checked-IsTruthful (ready job) source key event_id task_id schedule_id now hub h =
      with_duplicate-IsTruthful (find_duplicate job hub.db) job event_id task_id schedule_id now hub

module _ (digest : List ℕ → List ℕ → Text) (payload_hash : List ℕ → String)
    (decode : List ℕ → String) (loads : List ℕ → Parsed) (triage : String → Triage)
    (config : AppConfig) (next_run : String → String → Planned)
    (target_time : Option String → Option String → Option String → Planned)
    (params_json : Job → String) (has_scheduler : Bool) where
  -- What an answer of handle_webhook says holds: after an error the hub is as before, or the error
  -- is invalid_schedule and only the events differ; after skipped and duplicate it is as before; a
  -- schedule that is reported is in the table and active, and the tasks are as before; a task that
  -- is accepted is in the table, queued, belongs to the event that is reported, and is known to
  -- the dispatcher; a task that is executed is in the table, queued.
  pub handle_webhook-IsTruthful :
      (req : HttpRequest) (source : String) (clock : ℤ) (event_id task_id schedule_id : String)
      (now : ℕ) (hub : Hub)
      → IsTruthful hub (
          handle_webhook digest payload_hash decode loads triage config next_run target_time
            params_json has_scheduler req source clock event_id task_id schedule_id now hub)
  unfolding handle_webhook
  handle_webhook-IsTruthful req source clock event_id task_id schedule_id now hub =
      with_checked-IsTruthful next_run target_time params_json has_scheduler
        (check_request payload_hash decode triage config digest loads req source clock) _ _ event_id
        task_id schedule_id now hub
        (check-HasKey payload_hash decode config req digest loads triage source clock)
