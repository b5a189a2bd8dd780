-- ===== src/AlertFilter/Decisions.antt =====
-- When hub/alert_filter.py suppresses an alert.
use antigravity_webhook_hub.Prelude.{
  ℕ, ◌≡◌, ◌⊎◌, refl, Bool, true, false, Option, none, some, arith, inl, inr,
}
use antigravity_webhook_hub.Text.{Text, text_eq, codes, truthy}
use antigravity_webhook_hub.AlertFilter.{
  JevAlertFilter, Attempt, Body, Floats, response, http_error, net_error, apply_fallback, call_api,
  decide, evaluate_alert, noul_of, threshold_of, branch, turn, not_a_dict, answers, absent,
  unreadable, too_large, value,
}

-- The number in an answer, if it carries one.
abbrev pub number_of : {Float : Type 0} → Body Float → Option Float
number_of not_a_dict = none
number_of (answers model none) = none
number_of (answers model (some absent)) = none
number_of (answers model (some unreadable)) = none
number_of (answers model (some too_large)) = none
number_of (answers model (some (value v))) = some v

module _ {Float : Type 0} where
  turn-some :
      (a : Attempt Float) (r : ℕ × Option (Body Float)) (body : Body Float)
      → (turn a r).1 ≡ some body
      → (a ≡ response body) ⊎ (r.1 ≡ some body)
  turn-some (response not_a_dict) (n, o) body h = ground arith
  turn-some (response (answers m none)) (n, o) body h = ground arith
  turn-some (response (answers m (some absent))) (n, o) body h = ground arith
  turn-some (response (answers m (some unreadable))) (n, o) body h = ground arith
  turn-some (response (answers m (some too_large))) (n, o) body h = ground arith
  turn-some (response (answers m (some (value v)))) (n, o) body h = ground arith
  turn-some (http_error c) (n, o) body h = ground arith
  turn-some net_error (n, o) body h = inr h

  -- An answer of the loop is the response to one of its attempts, and none is sent after it.
  call_api-answered :
      (api : ℕ → Attempt Float) (body : Body Float)
      → (call_api 2 api 0).1 ≡ some body
      → (api 0 ≡ response body) ⊎ (api 1 ≡ response body)
  unfolding call_api
  call_api-answered api body h = elim (turn-some (api 0) (turn (api 1) (0, none)) body h) [
    | inl e ↦ inl e
    | inr e ↦ (elim (turn-some (api 1) (0, none) body e) [ inl k ↦ inr k | inr k ↦ cc ])
  ]

  module _ (floats : Floats Float) where
    -- The number of an answer does not reach the threshold; or there is none, and 0.5 does not.
    abbrev pub TooLow : Body Float → Float → Type 0
    TooLow body threshold =
        ((v : Float) × (number_of body ≡ some v) × (floats.geb v threshold ≡ false))
        ⊎ ((number_of body ≡ none) × (floats.geb floats.half threshold ≡ false))

    noul_of-TooLow :
        (body : Body Float) (threshold : Float)
        → floats.geb (noul_of floats body) threshold ≡ false
        → TooLow body threshold
    noul_of-TooLow not_a_dict threshold h = inr (refl, h)
    noul_of-TooLow (answers m none) threshold h = inr (refl, h)
    noul_of-TooLow (answers m (some absent)) threshold h = inr (refl, h)
    noul_of-TooLow (answers m (some unreadable)) threshold h = inr (refl, h)
    noul_of-TooLow (answers m (some too_large)) threshold h = inr (refl, h)
    noul_of-TooLow (answers m (some (value v))) threshold h = inl (v, refl, h)

  module _ (floats : Floats Float) (service message : Text) (clock : Float)
      (f : JevAlertFilter Float) where
    branch-suppresses :
        (enabled keyed : Bool) (answer : Option (Body Float)) (threshold : Float)
        → text_eq f.fallback_mode (codes "fail_closed") ≡ false
        → text_eq f.fallback_mode (codes "heuristic") ≡ false
        → (branch floats enabled keyed answer service message threshold clock f).0.is_critical
          ≡ false
        → (enabled ≡ true)
          × (body : Body Float) × (answer ≡ some body)
          × (floats.geb (noul_of floats body) threshold ≡ false)
    unfolding apply_fallback
    branch-suppresses false keyed answer threshold closed heuristic h = cc
    branch-suppresses true false answer threshold closed heuristic h =
        absurd (cc (rw (closed, heuristic) at h))
    branch-suppresses true true none threshold closed heuristic h =
        absurd (cc (rw (closed, heuristic) at h))
    branch-suppresses true true (some body) threshold closed heuristic h = (refl, body, refl, h)

    -- In the fallback mode fail_open an alert is suppressed only if the filter is on and one of
    -- the two attempts was answered, either with a number that does not reach the threshold, or
    -- without a number, while 0.5 does not reach the threshold.
    pub suppressed-answered :
        (key : Option Text) (api : ℕ → Attempt Float) (custom : Option Float)
        → text_eq f.fallback_mode (codes "fail_closed") ≡ false
        → text_eq f.fallback_mode (codes "heuristic") ≡ false
        → (evaluate_alert floats key api clock service message custom f).0.is_critical ≡ false
        → (f.enabled ≡ true)
          × (body : Body Float) × ((api 0 ≡ response body) ⊎ (api 1 ≡ response body))
          × TooLow floats body (threshold_of floats custom f)
    unfolding evaluate_alert decide
    suppressed-answered key api custom closed heuristic h =
        let (on, body, answered, below) =
          branch-suppresses f.enabled (truthy key) (call_api 2 api 0).1
            (threshold_of floats custom f) closed heuristic h in
        (on, body, call_api-answered api body answered, noul_of-TooLow floats body _ below)
