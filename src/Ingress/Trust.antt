-- ===== src/Ingress/Trust.antt =====
-- Which requests hub/routes/webhook.py lets write.
use antigravity_webhook_hub.Prelude.{
  Bool, ℕ, String, ◌≡◌, refl, true, Option, List, Bool-cases, ◌⊎◌, inl, inr,
}
use antigravity_webhook_hub.Prelude.Int.{ℤ}
use antigravity_webhook_hub.Text.{Text, is_nil}
use antigravity_webhook_hub.Models.{HttpRequest}
use antigravity_webhook_hub.Security.Ingress.{validate_request_security}
use antigravity_webhook_hub.Schedule.Engine.{Hub}
use antigravity_webhook_hub.Schedule.Create.{Planned}
use antigravity_webhook_hub.Ingress.Payload.{Payload}
use antigravity_webhook_hub.Ingress.Check.{
  Job, Parsed, malformed, not_object, object, Triage, AppConfig, with_parsed, check_request,
}
use antigravity_webhook_hub.Ingress.Handle.{Handled, hub_after, with_checked, handle_webhook}

module _ (digest : List ℕ → List ℕ → Text) (payload_hash : List ℕ → String)
    (decode : List ℕ → String) (loads : List ℕ → Parsed) (triage : String → Triage)
    (config : AppConfig) (req : HttpRequest) (hub : Hub) (k : Job → Handled) where
  parsed-trust :
      (source : String) (p : Parsed)
      → (hub_after (with_checked (with_parsed payload_hash decode triage config req source p) k hub)
          ≡ hub)
        ⊎ ((payload : Payload) × (p ≡ object payload))
  parsed-trust source malformed = inl refl
  parsed-trust source not_object = inl refl
  parsed-trust source (object payload) = inr (payload, refl)

  checked-trust :
      (source : String) (clock : ℤ)
      → (hub_after (
            with_checked
              (check_request payload_hash decode triage config digest loads req source clock)
              k
              hub)
          ≡ hub)
        ⊎ ((validate_request_security digest req config.security clock).is_valid ≡ true)
          × (payload : Payload) × (loads req.body ≡ object payload)
  unfolding check_request
  checked-trust source clock =
      elim (Bool-cases (validate_request_security digest req config.security clock).is_valid) [
        | inl v ↦ (elim (Bool-cases (is_nil req.body)) [
          | inl n ↦ inl (rw (v, n) refl)
          | inr n ↦ (elim (parsed-trust source (loads req.body)) [
            | inl same ↦ inl (rw (v, n) same)
            | inr p ↦ inr (v, p.0, p.1)
          ])
        ])
        | inr v ↦ inl (rw v refl)
      ]

module _ (digest : List ℕ → List ℕ → Text) (payload_hash : List ℕ → String)
    (decode : List ℕ → String) (loads : List ℕ → Parsed) (triage : String → Triage)
    (config : AppConfig) (next_run : String → String → Planned)
    (target_time : Option String → Option String → Option String → Planned)
    (params_json : Job → String) (has_scheduler : Bool) where
  -- handle_webhook changes nothing, or the request passed its authentication and its body is a
  -- JSON object.
  pub handle_webhook-authenticated :
      (req : HttpRequest) (source : String) (clock : ℤ) (event_id task_id schedule_id : String)
      (now : ℕ) (hub : Hub)
      → (hub_after (
            handle_webhook digest payload_hash decode loads triage config next_run target_time
              params_json has_scheduler req source clock event_id task_id schedule_id now hub)
          ≡ hub)
        ⊎ ((validate_request_security digest req config.security clock).is_valid ≡ true)
          × (payload : Payload) × (loads req.body ≡ object payload)
  unfolding handle_webhook
  handle_webhook-authenticated req source clock event_id task_id schedule_id now hub =
      checked-trust digest payload_hash decode loads triage config req hub _ source clock
