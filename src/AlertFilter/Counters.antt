-- ===== src/AlertFilter/Counters.antt =====
-- The metrics of hub/alert_filter.py: the counters and the ring buffer.
use antigravity_webhook_hub.Prelude.{
  ℕ, suc, ◌+◌, ◌≤◌, ◌≡◌, ◌⊎◌, refl, Bool, true, false, Option, none, some, ◌∷◌, length, take, arith,
  length-take-le, inl, inr,
}
use antigravity_webhook_hub.Text.{Text, truthy}
use antigravity_webhook_hub.AlertFilter.{
  JevAlertFilter, AlertFilterResult, Attempt, Body, Floats, record_result, apply_fallback, call_api,
  decide, evaluate_alert, recorded, branch, threshold_of,
}

-- Every alert is counted once, as escalated or as suppressed; a fallback is one of them; and the
-- buffer holds the last fifty.
pub record IsBalanced {Float : Type 0} (f : JevAlertFilter Float) : Type 0 where
  pub split : f.total_evaluated ≡ f.total_escalated + f.total_suppressed
  pub fallbacks : f.total_fallbacks ≤ f.total_evaluated
  pub recent : length f.recent_evaluations ≤ 50

module _ {Float : Type 0} where
  record_result-IsBalanced :
      (res : AlertFilterResult Float) (service message : Text) (f : JevAlertFilter Float)
      → f.total_evaluated ≡ f.total_escalated + f.total_suppressed
      → f.total_fallbacks ≤ suc f.total_evaluated
      → IsBalanced (record_result res service message f)
  unfolding record_result
  record_result-IsBalanced res service message f h k = record {
    split = ground arith;
    fallbacks = k;
    recent = length-take-le 50 (
        record { result = res; service = service; message_snippet = take 120 message }
        ∷ f.recent_evaluations);
  }

  -- A decision counts nothing but a fallback.
  branch-counts :
      (floats : Floats Float) (enabled keyed : Bool) (answer : Option (Body Float))
      (service message : Text) (threshold clock : Float) (f : JevAlertFilter Float)
      → ((branch floats enabled keyed answer service message threshold clock f).1 ≡ f)
        ⊎ ((branch floats enabled keyed answer service message threshold clock f).1
            ≡ record f { total_fallbacks = suc f.total_fallbacks })
  unfolding apply_fallback
  branch-counts floats false keyed answer service message threshold clock f = inl refl
  branch-counts floats true false answer service message threshold clock f = inr refl
  branch-counts floats true true none service message threshold clock f = inr refl
  branch-counts floats true true (some body) service message threshold clock f = inl refl

  recorded-IsBalanced :
      (service message : Text) (f : JevAlertFilter Float)
      (r : AlertFilterResult Float × JevAlertFilter Float)
      → IsBalanced f
      → (r.1 ≡ f) ⊎ (r.1 ≡ record f { total_fallbacks = suc f.total_fallbacks })
      → IsBalanced (recorded service message r).1
  recorded-IsBalanced service message f (res, g) h (inl e) =
      rw e (record_result-IsBalanced res service message f h.split (omega (arith, h.fallbacks)))
  recorded-IsBalanced service message f (res, g) h (inr e) = rw e (
      record_result-IsBalanced res service message
        (record f { total_fallbacks = suc f.total_fallbacks }) h.split (omega (arith, h.fallbacks)))

  -- An evaluation keeps the metrics in balance: the alerts evaluated are those escalated and those
  -- suppressed, the fallbacks are no more than the evaluations, and the ring buffer holds at most
  -- fifty entries.
  evaluate_alert-IsBalanced :
      (floats : Floats Float) (key : Option Text) (api : ℕ → Attempt Float) (clock : Float)
      (service message : Text) (custom : Option Float) (f : JevAlertFilter Float)
      → IsBalanced f
      → IsBalanced (evaluate_alert floats key api clock service message custom f).1
  unfolding evaluate_alert decide
  evaluate_alert-IsBalanced floats key api clock service message custom f h =
      recorded-IsBalanced service message f
        (branch floats f.enabled (truthy key) (call_api 2 api 0).1 service message
          (threshold_of floats custom f) clock f)
        h
        (branch-counts floats f.enabled (truthy key) (call_api 2 api 0).1 service message
          (threshold_of floats custom f) clock f)
