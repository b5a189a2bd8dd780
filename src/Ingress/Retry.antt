-- ===== src/Ingress/Retry.antt =====
-- A webhook that is delivered again (hub/routes/webhook.py).
use antigravity_webhook_hub.Schedule.Create.{Planned, Created}
use antigravity_webhook_hub.Prelude.{
  Bool, ℕ, String, str_eq, ◌≡◌, refl, false, Option, none, some, any, Bool-cases, inl, inr,
}
use antigravity_webhook_hub.Store.Rows.{Task}
use antigravity_webhook_hub.Schedule.Engine.{Hub}
use antigravity_webhook_hub.Ingress.Check.{duplicate, Job, is_scheduled}
use antigravity_webhook_hub.Ingress.Scheduled.{schedule_request, make_schedule}
use antigravity_webhook_hub.Ingress.Handle.{
  answers, find_duplicate, with_duplicate, with_created, store_schedule, ingest,
}
use antigravity_webhook_hub.Ingress.Joined.{took, Known}
use antigravity_webhook_hub.Ingress.Known.{Remembered, stored-known, known-duplicate}

created-refuses :
    (c : Created) (event_id : String) (hub : Hub) → took (with_created c event_id hub) ≡ false
created-refuses (Created.created s rows) event_id hub = refl
created-refuses Created.value_error event_id hub = refl
created-refuses Created.other_error event_id hub = refl

module _ (next_run : String → String → Planned)
    (target_time : Option String → Option String → Option String → Planned)
    (params_json : Job → String) (has_scheduler : Bool) where
  scheduled-refuses :
      (job : Job) (event_id schedule_id : String) (now : ℕ) (hub : Hub)
      → took (
          store_schedule next_run target_time params_json has_scheduler job event_id schedule_id now
            hub)
        ≡ false
  unfolding store_schedule
  scheduled-refuses job event_id schedule_id now hub =
      created-refuses
        (make_schedule next_run target_time params_json has_scheduler
          (schedule_request next_run target_time params_json has_scheduler job) schedule_id now
          hub.schedules)
        event_id _

  with_duplicate-known :
      (o : Option Task) (job : Job) (event_id task_id schedule_id : String) (now : ℕ) (hub : Hub)
      → any (λ e. str_eq e.event_id event_id) hub.db.events ≡ false
      → Remembered job (
          with_duplicate next_run target_time params_json has_scheduler o job event_id task_id
            schedule_id now hub)
  with_duplicate-known (some t) job event_id task_id schedule_id now hub fresh = (λ h. cc)
  with_duplicate-known none job event_id task_id schedule_id now hub fresh =
      elim (Bool-cases (is_scheduled job.timing)) [
        | inl e ↦ rw e (λ h. absurd (cc (h, scheduled-refuses job event_id schedule_id now hub)))
        | inr e ↦ rw e (stored-known job event_id task_id now hub fresh)
      ]

  pub ingest-known :
      (job : Job) (event_id task_id schedule_id : String) (now : ℕ) (hub : Hub)
      → any (λ e. str_eq e.event_id event_id) hub.db.events ≡ false
      → Remembered job (
          ingest next_run target_time params_json has_scheduler job event_id task_id schedule_id now
            hub)
  unfolding ingest
  ingest-known job event_id task_id schedule_id now hub =
      with_duplicate-known (find_duplicate job hub.db) job event_id task_id schedule_id now hub

  -- A job whose key is known writes nothing and is not taken.
  pub ingest-again :
      (job : Job) (event_id task_id schedule_id : String) (now : ℕ) (hub : Hub)
      → Known job hub.db
      → (u : Task) × (ingest next_run target_time params_json has_scheduler job event_id task_id
            schedule_id now hub
          ≡ answers (duplicate u.task_id u.event_id) hub)
  unfolding ingest
  ingest-again job event_id task_id schedule_id now hub h =
      let (u, e) = known-duplicate job hub.db h in (u, rw e refl)
