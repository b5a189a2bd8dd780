-- ===== src/AlertFilter.antt =====
-- hub/alert_filter.py: the filter that decides which alerts reach a person.
-- Python's floats are the parameter `Float`, with the constants and the comparison that the code
-- uses; the service behind `urlopen` is a function from the number of the attempt to its outcome,
-- and `clock` is the time stamp of a result. The text of `reason` and `duration_ms` are left out:
-- no code reads them back.
pub mod Decisions
pub mod Counters
use antigravity_webhook_hub.Prelude.{
  ℕ, zero, suc, ◌+◌, String, Bool, true, false, not, ◌&&◌, ◌||◌, Option, none, some, List, [], ◌∷◌,
  ◌++◌, any, take, leb, ltb, ◌==◌, if◌then◌else◌,
}
use antigravity_webhook_hub.Text.{
  Text, codes, text_eq, is_nil, or_empty, truthy, strip, lower_char, contains,
}

pub data Action : Type 0 where
  escalate suppress : Action

pub data EvalSource : Type 0 where
  jev fallback : EvalSource

pub record AlertFilterResult (Float : Type 0) : Type 0 where
  pub is_critical : Bool
  pub noul : Float
  pub threshold : Float
  pub action : Action
  pub model : Text
  pub eval_source : EvalSource
  pub timestamp : Float

pub record Entry (Float : Type 0) : Type 0 where
  pub result : AlertFilterResult Float
  pub service : Text
  pub message_snippet : Text

pub record JevAlertFilter (Float : Type 0) : Type 0 where
  pub enabled : Bool
  pub critical_threshold : Float
  pub fallback_mode : Text
  pub model : Text
  pub explicit_key : Option Text
  pub total_evaluated : ℕ
  pub total_suppressed : ℕ
  pub total_escalated : ℕ
  pub total_fallbacks : ℕ
  pub last_evaluated_at : Option Float
  pub recent_evaluations : List (Entry Float)

-- The answer, as far as the code reads it. `noul` is missing or null, refused by `float`, too
-- large for it (an OverflowError), or a number.
pub data Noul (Float : Type 0) : Type 0 where
  absent unreadable too_large : Noul Float
  value : Float → Noul Float

-- Whatever is not a dict, on the way to `noul`, is read as an empty one.
pub data Body (Float : Type 0) : Type 0 where
  not_a_dict : Body Float
  answers : Option Text → Option (Noul Float) → Body Float

-- One attempt: a response, an HTTPError with its code, or another exception.
pub data Attempt (Float : Type 0) : Type 0 where
  response : Body Float → Attempt Float
  http_error : ℕ → Attempt Float
  net_error : Attempt Float

-- `_resolve_typesafe_key`. `secrets` are the results of `op_reference.resolve` on the two
-- references (`none` for an exception), empty without that module.
abbrev stripped : Option Text → Option Text
stripped none = none
stripped (some key) = if is_nil (strip key) then none else some (strip key)

abbrev pub first_of : Option Text → Option Text → Option Text
first_of none b = b
first_of (some a) b = some a

abbrev first_secret : List (Option Text) → Option Text
first_secret [] = none
first_secret (s ∷ ss) = first_of (stripped s) (first_secret ss)

unfoldable pub resolve_typesafe_key :
    Option Text → Option Text → Option Text → List (Option Text) → Option Text
resolve_typesafe_key explicit_key typesafe_env jev_env secrets = first_of (stripped explicit_key) (
    first_of (stripped (if truthy typesafe_env then typesafe_env else jev_env))
      (first_secret secrets))

-- `lower` as far as it makes ASCII letters: those of ASCII, the Kelvin sign and the dotted I.
unfoldable pub lower_to_ascii : Text → Text
lower_to_ascii [] = []
lower_to_ascii (c ∷ s) =
    let rest = lower_to_ascii s in
    if c == 8490 then b'k' ∷ rest else if c == 304 then b'i' ∷ 775 ∷ rest else lower_char c ∷ rest

unfoldable pub is_noise : Text → Text → Bool
unfolding lower_to_ascii
is_noise service message =
    let lower_msg = lower_to_ascii (service ++ codes " " ++ message) in
    contains (codes "keyword is not in") lower_msg
    || contains (codes "empty body") lower_msg
    || contains (codes "gdr-cookie-keeper") lower_msg
    || contains (codes "albato") lower_msg
    || contains (codes "domestic heartbeat") lower_msg

abbrev pub is_client_error : ℕ → Bool
is_client_error code = leb 400 code && ltb code 500

module _ {Float : Type 0} where
  -- `_record`
  unfoldable pub record_result :
      AlertFilterResult Float → Text → Text → JevAlertFilter Float → JevAlertFilter Float
  record_result res service message f = record f {
    total_evaluated = suc f.total_evaluated;
    total_escalated = if res.is_critical then suc f.total_escalated else f.total_escalated;
    total_suppressed = if res.is_critical then f.total_suppressed else suc f.total_suppressed;
    last_evaluated_at = some res.timestamp;
    recent_evaluations = take 50 (
        record { result = res; service = service; message_snippet = take 120 message }
        ∷ f.recent_evaluations);
  }

  -- What an attempt that was answered ends with: the body, unless `float` overflows.
  abbrev pub readable : Body Float → Option (Body Float)
  readable (answers model (some too_large)) = none
  readable body = some body

  -- One turn of the loop: an answer and a 4xx end it, the rest is what the later attempts do.
  abbrev pub turn : Attempt Float → ℕ × Option (Body Float) → ℕ × Option (Body Float)
  turn (response body) (sent, answer) = elim (readable body) [
    | none ↦ (suc sent, answer)
    | some b ↦ (1, some b)
  ]
  turn (http_error code) (sent, answer) =
      if is_client_error code then (1, none) else (suc sent, answer)
  turn net_error (sent, answer) = (suc sent, answer)

  -- The loop over the attempts: the number of requests sent, and the answer, if there is one.
  unfoldable pub call_api : ℕ → (ℕ → Attempt Float) → ℕ → ℕ × Option (Body Float)
  call_api zero api attempt = (0, none)
  call_api (suc n) api attempt = turn (api attempt) (call_api n api (suc attempt))

  -- `self._record(res, service, message); return res`
  abbrev pub recorded :
      Text
      → Text
      → AlertFilterResult Float × JevAlertFilter Float
      → AlertFilterResult Float × JevAlertFilter Float
  recorded service message (res, f) = (res, record_result res service message f)

-- 0.0, 0.5 and 1.0, and `>=` on floats.
pub record Floats (Float : Type 0) : Type 0 where
  pub zero : Float
  pub half : Float
  pub one : Float
  pub geb : Float → Float → Bool

module _ {Float : Type 0} (floats : Floats Float) where
  abbrev pub noul_of : Body Float → Float
  noul_of not_a_dict = floats.half
  noul_of (answers model none) = floats.half
  noul_of (answers model (some absent)) = floats.half
  noul_of (answers model (some unreadable)) = floats.half
  noul_of (answers model (some too_large)) = floats.half
  noul_of (answers model (some (value v))) = v

  abbrev model_of : Body Float → Text → Text
  model_of not_a_dict own = own
  model_of (answers none critical) own = own
  model_of (answers (some m) critical) own = m

  abbrev pub action_of : Bool → Action
  action_of is_critical = if is_critical then escalate else suppress

  abbrev pub verdict : Bool → Float → Text → EvalSource → Float → AlertFilterResult Float
  verdict is_critical threshold model eval_source clock = record {
    is_critical = is_critical;
    noul = if is_critical then floats.one else floats.zero;
    threshold = threshold;
    action = action_of is_critical;
    model = model;
    eval_source = eval_source;
    timestamp = clock;
  }

  -- `_apply_fallback`
  unfoldable pub apply_fallback :
      Text
      → Text
      → Float
      → Float
      → JevAlertFilter Float
      → AlertFilterResult Float × JevAlertFilter Float
  apply_fallback service message threshold clock f = (
    if text_eq f.fallback_mode (codes "fail_closed")
        then verdict false threshold (codes "fallback-fail-closed") fallback clock
        else if text_eq f.fallback_mode (codes "heuristic")
        then verdict (not (is_noise service message)) threshold (codes "fallback-heuristic")
            fallback clock
        else verdict true threshold (codes "fallback-fail-open") fallback clock,
    record f { total_fallbacks = suc f.total_fallbacks },
  )

  abbrev pub judged : Body Float → Float → Float → JevAlertFilter Float → AlertFilterResult Float
  judged body threshold clock f =
      let noul = noul_of body in
      let is_critical = floats.geb noul threshold in
      record {
        is_critical = is_critical;
        noul = noul;
        threshold = threshold;
        action = action_of is_critical;
        model = model_of body f.model;
        eval_source = jev;
        timestamp = clock;
      }

  abbrev pub threshold_of : Option Float → JevAlertFilter Float → Float
  threshold_of none f = f.critical_threshold
  threshold_of (some t) f = t

  -- The branches of `evaluate_alert`: the filter is off, there is no key, the service did not
  -- answer, or it did. The request is sent, and the answer read, in the last two alone.
  abbrev pub branch :
      Bool
      → Bool
      → Option (Body Float)
      → Text
      → Text
      → Float
      → Float
      → JevAlertFilter Float
      → AlertFilterResult Float × JevAlertFilter Float
  branch false keyed answer service message threshold clock f =
      (verdict true threshold (codes "disabled") fallback clock, f)
  branch true false answer service message threshold clock f =
      apply_fallback service message threshold clock f
  branch true true none service message threshold clock f =
      apply_fallback service message threshold clock f
  branch true true (some body) service message threshold clock f =
      (judged body threshold clock f, f)

  -- `key` is the property `api_key`.
  unfoldable pub decide :
      Option Text
      → (ℕ → Attempt Float)
      → Float
      → Text
      → Text
      → Option Float
      → JevAlertFilter Float
      → AlertFilterResult Float × JevAlertFilter Float
  unfolding apply_fallback call_api
  decide key api clock service message custom_threshold f =
      branch f.enabled (truthy key) (call_api 2 api 0).1 service message
        (threshold_of custom_threshold f) clock f

  unfoldable pub evaluate_alert :
      Option Text
      → (ℕ → Attempt Float)
      → Float
      → Text
      → Text
      → Option Float
      → JevAlertFilter Float
      → AlertFilterResult Float × JevAlertFilter Float
  unfolding decide record_result
  evaluate_alert key api clock service message custom_threshold f =
      recorded service message (decide key api clock service message custom_threshold f)
