-- ===== src/Ingress/Check/Keys.antt =====
-- The source and the key that `handle_webhook` (hub/routes/webhook.py) finds for a request.
use antigravity_webhook_hub.Prelude.{
  ℕ, String, str_eq, ◌≡◌, refl, Bool, true, false, Option, List, Bool-cases, inl, inr,
}
use antigravity_webhook_hub.Prelude.Int.{ℤ, pos}
use antigravity_webhook_hub.Text.{Text, is_nil}
use antigravity_webhook_hub.Models.{HttpRequest}
use antigravity_webhook_hub.Security.Ingress.{validate_request_security}
use antigravity_webhook_hub.Ingress.Payload.{
  Payload, Read, invalid, overflows, value, or_given, or_text, source_of, action_of, command_of,
  read_int, read_int_or,
}
use antigravity_webhook_hub.Ingress.Check.{
  Response, error, skipped, Checked, refused, crashes, ready, Parsed, malformed, not_object, object,
  Triage, declined, autonomous, triage_failed, verdict, Triaged, stops, goes_on, AppConfig,
  with_read, with_ints, job_record, with_triaged, with_parsed, check_request, idempotency_key,
  slack_triage,
}

-- The answers of a request that is refused.
abbrev pub is_refusal : Response → Bool
is_refusal (error code reason) = true
is_refusal skipped = true
is_refusal _ = false

abbrev pub HasKey : String → String → Checked → Type 0
HasKey source key (refused response) = is_refusal response ≡ true
HasKey source key crashes = Unit
HasKey source key (ready job) = (job.source ≡ source) × (job.idempotency_key ≡ key)

abbrev Stops : Triaged → Type 0
Stops (stops response) = is_refusal response ≡ true
Stops (goes_on action command) = Unit

verdict-Stops :
    (t : Triage) (action command : Option String) (message : String)
    → Stops (verdict t action command message)
verdict-Stops declined action command message = refl
verdict-Stops autonomous action command message = tt
verdict-Stops triage_failed action command message = tt

slack_triage-Stops :
    (triage : String → Triage) (source : String) (payload : Payload)
    → Stops (slack_triage triage source payload)
unfolding slack_triage
slack_triage-Stops triage source payload =
    let message = or_text payload.text (or_text payload.message "") in
    elim (Bool-cases (str_eq source "slack-make")) [
      | inl s ↦ (elim (Bool-cases (str_eq message "")) [
        | inl e ↦ rw (s, e) refl
        | inr e ↦
            rw (s, e)
              (verdict-Stops (triage message) (or_given payload.action_type payload.action)
                payload.command message)
      ])
      | inr s ↦ rw s tt
    ]

with_read-HasKey :
    (source key : String) (r : Read) (k : ℤ → Checked)
    → ((n : ℤ) → HasKey source key (k n))
    → HasKey source key (with_read r k)
with_read-HasKey source key invalid k h = refl
with_read-HasKey source key overflows k h = tt
with_read-HasKey source key (value n) k h = h n

with_ints-HasKey :
    (source key : String) (a b c : Read) (k : ℤ → ℤ → ℤ → Checked)
    → ((p t m : ℤ) → HasKey source key (k p t m))
    → HasKey source key (with_ints a b c k)
with_ints-HasKey source key a b c k h =
    with_read-HasKey source key a (λ p. with_read b λ t. with_read c λ m. k p t m)
      λ p.
        with_read-HasKey source key b (λ t. with_read c λ m. k p t m)
          λ t. with_read-HasKey source key c (λ m. k p t m) λ m. h p t m

module _ (payload_hash : List ℕ → String) (decode : List ℕ → String) (config : AppConfig)
    (req : HttpRequest) where
  with_triaged-HasKey :
      (triage : String → Triage) (t : Triaged) (payload : Payload) (source : String)
      → Stops t
      → HasKey source
          (idempotency_key payload_hash req source)
          (with_triaged payload_hash decode triage config t req payload source)
  with_triaged-HasKey triage (stops answer) payload source h = h
  with_triaged-HasKey triage (goes_on action command) payload source h =
      let action_type = action_of action source req.path in
      let job =
        job_record payload_hash decode triage config req payload source action_type
          (command_of command action_type source req.path payload) in
      with_ints-HasKey source (idempotency_key payload_hash req source)
        (read_int payload.priority (pos 0))
        (read_int_or payload.timeout_seconds config.default_action_timeout_seconds)
        (read_int payload.max_retries (pos 0)) (λ p t m. ready (job p t m)) (λ p t m. (refl, refl))

  -- The source of a request without an object does not matter.
  abbrev pub parsed_source : String → Parsed → String
  parsed_source source malformed = source
  parsed_source source not_object = source
  parsed_source source (object payload) = source_of source payload

  with_parsed-HasKey :
      (triage : String → Triage) (source : String) (p : Parsed)
      → HasKey
          (parsed_source source p)
          (idempotency_key payload_hash req (parsed_source source p))
          (with_parsed payload_hash decode triage config req source p)
  with_parsed-HasKey triage source malformed = refl
  with_parsed-HasKey triage source not_object = refl
  with_parsed-HasKey triage source (object payload) =
      with_triaged-HasKey triage (slack_triage triage (source_of source payload) payload) payload
        (source_of source payload) (slack_triage-Stops triage (source_of source payload) payload)

  module _ (digest : List ℕ → List ℕ → Text) (loads : List ℕ → Parsed) where
    pub check-HasKey :
        (triage : String → Triage) (source : String) (now : ℤ)
        → HasKey
            (parsed_source source (loads req.body))
            (idempotency_key payload_hash req (parsed_source source (loads req.body)))
            (check_request payload_hash decode triage config digest loads req source now)
    unfolding check_request
    check-HasKey triage source now =
        elim (Bool-cases (validate_request_security digest req config.security now).is_valid) [
          | inl v ↦ (elim (Bool-cases (is_nil req.body)) [
            | inl n ↦ rw (v, n) refl
            | inr n ↦ rw (v, n) (with_parsed-HasKey triage source (loads req.body))
          ])
          | inr v ↦ rw v refl
        ]
