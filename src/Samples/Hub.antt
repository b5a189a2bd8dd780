-- ===== src/Samples/Hub.antt =====
-- The broker, the alert filter, the dispatcher and the scheduler on concrete inputs.
use antigravity_webhook_hub.Prelude.{
  not, ℕ, zero, suc, not, ltb, ◌≡◌, ◌⊎◌, ◌++◌, refl, true, none, some, [], ◌∷◌, drop, length,
  if◌then◌else◌,
}
use antigravity_webhook_hub.Prelude.Int.{pos}
use antigravity_webhook_hub.Text.{codes, text_eq}
use antigravity_webhook_hub.Broker.{Queue, Broker, publish, target_queues, full}
use antigravity_webhook_hub.Broker.Delivery.{publish-items, hears}
use antigravity_webhook_hub.AlertFilter.{
  JevAlertFilter, Floats, Attempt, Body, response, net_error, answers, value, evaluate_alert,
  threshold_of,
}
use antigravity_webhook_hub.AlertFilter.Decisions.{TooLow, suppressed-answered}
use antigravity_webhook_hub.Dispatcher.{idle, enqueue, dequeue, enqueues, dequeues, step, done}
use antigravity_webhook_hub.Dispatcher.Exclusion.{NoRepeats, single_execution}

abbrev empty_queue : Queue ℕ
empty_queue = record { maxsize = pos 1; items = 7 ∷ [] }

abbrev broker : Broker ℕ
broker = record {
  default_queue_size = pos 256;
  subscribers =
      (record { topic = codes "task.a"; members = 0 ∷ 1 ∷ [] })
      ∷ (record { topic = codes "*"; members = 1 ∷ [] })
      ∷ [];
  queues = λ i. empty_queue;
  next = 2;
}

publish-items_example :
    ((publish (codes "a") 8 broker).0 ≡ length (target_queues (codes "a") broker.subscribers))
    × ((i : ℕ)
        → ((publish (codes "a") 8 broker).1.queues i).items ≡ (
            if hears i (codes "a") broker.subscribers
            then (if full (broker.queues i)
                then drop 1 (broker.queues i).items
                else (broker.queues i).items)
              ++ 8 ∷ []
            else (broker.queues i).items))
publish-items_example = publish-items (codes "a") 8 broker (λ i. refl)

-- Numbers in place of floats.
abbrev floats : Floats ℕ
floats = record { zero = 0; half = 50; one = 100; geb = λ a b. not (ltb a b) }

abbrev filter : JevAlertFilter ℕ
filter = record {
  enabled = true;
  critical_threshold = 70;
  fallback_mode = codes "fail_open";
  model = codes "jev-latest";
  explicit_key = some (codes "k");
  total_evaluated = 0;
  total_suppressed = 0;
  total_escalated = 0;
  total_fallbacks = 0;
  last_evaluated_at = none;
  recent_evaluations = [];
}

-- The first attempt breaks off, the second is answered with a low value.
abbrev api : ℕ → Attempt ℕ
api zero = net_error
api (suc i) = response (answers none (some (value 20)))

suppressed-answered_example :
    (filter.enabled ≡ true)
    × (body : Body ℕ) × ((api 0 ≡ response body) ⊎ (api 1 ≡ response body))
    × TooLow floats body (threshold_of floats none filter)
suppressed-answered_example =
    suppressed-answered floats (codes "svc") (codes "down") 9 filter (some (codes "k")) api none
      (unfold text_eq in refl) (unfold text_eq in refl) (unfold evaluate_alert in refl)

single_execution_example :
    let d = dequeue (enqueue "b" (enqueue "a" idle)) (enqueue "b" (enqueue "a" idle)).queue in
    NoRepeats (d.running ++ d.queue)
single_execution_example = single_execution (
    step (enqueues "a" idle) (
      step (enqueues "b" (enqueue "a" idle))
        (step (dequeues (enqueue "b" (enqueue "a" idle))) (done _))))
