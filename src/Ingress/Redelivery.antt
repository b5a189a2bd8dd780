-- ===== src/Ingress/Redelivery.antt =====
-- Two deliveries of the same request to hub/routes/webhook.py.
use mathlib.Core.Path.{subst}
use antigravity_webhook_hub.Prelude.{
  Bool, ℕ, String, str_eq, ◌≡◌, refl, ap, sym, true, false, Option, List, any,
}
use antigravity_webhook_hub.Prelude.Int.{ℤ}
use antigravity_webhook_hub.Text.{Text}
use antigravity_webhook_hub.Models.{HttpRequest}
use antigravity_webhook_hub.Schedule.Engine.{Hub}
use antigravity_webhook_hub.Schedule.Create.{Planned}
use antigravity_webhook_hub.Ingress.Check.{
  Response, error, skipped, duplicate, scheduled, accepted, Job, Checked, refused, crashes, ready,
  Parsed, Triage, AppConfig, check_request, idempotency_key,
}
use antigravity_webhook_hub.Ingress.Check.Keys.{is_refusal, HasKey, parsed_source, check-HasKey}
use antigravity_webhook_hub.Ingress.Handle.{
  Handled, answers, hub_after, ingest, with_checked, handle_webhook,
}
use antigravity_webhook_hub.Ingress.Joined.{took, Known, KnownKey}
use antigravity_webhook_hub.Ingress.Retry.{ingest-known, ingest-again}

refusal-not_taken : (r : Response) (hub : Hub) → is_refusal r ≡ true → took (answers r hub) ≡ false
refusal-not_taken (error code reason) hub h = refl
refusal-not_taken skipped hub h = refl
refusal-not_taken (duplicate t e) hub h = cc
refusal-not_taken (scheduled e s) hub h = cc
refusal-not_taken (accepted e t d) hub h = cc

job_key :
    (job : Job) (source key : String) (hub : Hub)
    → HasKey source key (ready job)
    → KnownKey source key hub.db
    → Known job hub.db
job_key job source key hub h known =
    subst (λ k. KnownKey job.source k hub.db) (sym h.1)
      (subst (λ s. KnownKey s key hub.db) (sym h.0) known)

key_job :
    (job : Job) (source key : String) (hub : Hub)
    → HasKey source key (ready job)
    → Known job hub.db
    → KnownKey source key hub.db
key_job job source key hub h known =
    subst (λ s. KnownKey s key hub.db) h.0 (subst (λ k. KnownKey job.source k hub.db) h.1 known)

module _ (next_run : String → String → Planned)
    (target_time : Option String → Option String → Option String → Planned)
    (params_json : Job → String) (has_scheduler : Bool) (source key : String)
    (event_id task_id schedule_id : String) (now : ℕ) (hub : Hub) where
  abbrev go_on : Job → Handled
  go_on job =
      ingest next_run target_time params_json has_scheduler job event_id task_id schedule_id now hub

  first-known :
      (c : Checked)
      → HasKey source key c
      → any (λ e. str_eq e.event_id event_id) hub.db.events ≡ false
      → took (with_checked c go_on hub) ≡ true
      → KnownKey source key (hub_after (with_checked c go_on hub)).db
  first-known (refused r) h fresh k = absurd (cc (refusal-not_taken r hub h, k))
  first-known crashes h fresh k = cc
  first-known (ready job) h fresh k = key_job job source key (hub_after (go_on job)) h (
      ingest-known next_run target_time params_json has_scheduler job event_id task_id schedule_id
        now hub fresh k)

  second-unchanged :
      (c : Checked)
      → HasKey source key c
      → KnownKey source key hub.db
      → (hub_after (with_checked c go_on hub) ≡ hub) × (took (with_checked c go_on hub) ≡ false)
  second-unchanged (refused r) h known = (refl, refusal-not_taken r hub h)
  second-unchanged crashes h known = (refl, refl)
  second-unchanged (ready job) h known =
      let (u, e) =
        ingest-again next_run target_time params_json has_scheduler job event_id task_id schedule_id
          now hub (job_key job source key hub h known) in
      (ap hub_after e, ap took e)

module _ (digest : List ℕ → List ℕ → Text) (payload_hash : List ℕ → String)
    (decode : List ℕ → String) (loads : List ℕ → Parsed) (config : AppConfig)
    (next_run : String → String → Planned)
    (target_time : Option String → Option String → Option String → Planned)
    (params_json : Job → String) (has_scheduler : Bool) where
  abbrev handles :
      (String → Triage) → HttpRequest → String → ℤ → String → String → String → ℕ → Hub → Handled
  handles triage =
      handle_webhook digest payload_hash decode loads triage config next_run target_time params_json
        has_scheduler

  -- After a webhook was taken (its task was accepted or handed over for execution), under an event
  -- id that was new, the same request delivered again, at any time and whatever the triage says
  -- then, leaves the hub as it is and is not taken.
  pub redelivery-unchanged :
      (triage triage' : String → Triage) (req : HttpRequest) (source : String) (clock clock' : ℤ)
      (event_id task_id schedule_id event_id' task_id' schedule_id' : String) (now now' : ℕ)
      (hub : Hub)
      → any (λ e. str_eq e.event_id event_id) hub.db.events ≡ false
      → took (handles triage req source clock event_id task_id schedule_id now hub) ≡ true
      → let after =
          hub_after (handles triage req source clock event_id task_id schedule_id now hub) in
        let second = handles triage' req source clock' event_id' task_id' schedule_id' now' after in
        (hub_after second ≡ after) × (took second ≡ false)
  unfolding handle_webhook
  redelivery-unchanged triage triage' req source clock clock' event_id task_id schedule_id event_id'
        task_id' schedule_id' now now' hub fresh h =
      let resolved = parsed_source payload_hash decode config req source (loads req.body) in
      let key = idempotency_key payload_hash req resolved in
      let check = λ (t : String → Triage) (c : ℤ).
        check_request payload_hash decode t config digest loads req source c in
      second-unchanged next_run target_time params_json has_scheduler resolved key event_id'
        task_id' schedule_id' now' _ (check triage' clock')
        (check-HasKey payload_hash decode config req digest loads triage' source clock')
        (first-known next_run target_time params_json has_scheduler resolved key event_id task_id
          schedule_id now hub (check triage clock)
          (check-HasKey payload_hash decode config req digest loads triage source clock) fresh h)
