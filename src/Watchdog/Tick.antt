-- ===== src/Watchdog/Tick.antt =====
-- `resuscitate_stalled_sessions` of hub/antigravity/watchdog.py: one round over the sessions that
-- a scan found. The answers, the clock and what other calls do in the meantime come in as a turn
-- for each session. The relief of memory at the end is left out.
use antigravity_webhook_hub.Prelude.{
  ℕ, ◌+◌, ◌≡◌, refl, sym, ap, ◌∙◌, inl, inr, Bool, true, false, not, ◌&&◌, ◌||◌, Option, none, some,
  List, [], ◌∷◌, any, arith, Bool-cases, ltb, if◌then◌else◌,
}
use antigravity_webhook_hub.Text.{Text, truthy, or_empty}
use antigravity_webhook_hub.Watchdog.Prompts.{StalledSession, target_conversation}
use antigravity_webhook_hub.Watchdog.Eligibility.{WatchdogConfig}
use antigravity_webhook_hub.Watchdog.Resuscitate.{
  Watch, Begun, refused, sending, record_failed, Glance, Answer, begin_resuscitation,
  end_resuscitation, holds_id, min_debounce,
}

pub record Turn : Type 0 where
  pub active_account : Option Text
  pub fresh_id : Text
  pub glance : Glance
  pub now_sweep : ℕ
  pub begun_at : ℕ
  pub ended_at : ℕ
  pub answer : Answer
  pub meanwhile : Watch → Watch

-- What came of a session that was not skipped.
pub record Wake : Type 0 where
  pub session : StalledSession
  pub success : Bool

-- Is the session, its target or its parent among those contacted in this round?
unfoldable pub contacted : StalledSession → List Text → Bool
contacted s awakened =
    holds_id (target_conversation s) awakened
    || holds_id s.conversation_id awakened
    || truthy s.parent_conversation_id && holds_id (or_empty s.parent_conversation_id) awakened

abbrev pub rests : WatchdogConfig → StalledSession → ℕ → Watch → Bool
rests cfg s now w =
    ltb now (w.recently_resuscitated s.conversation_id + min_debounce cfg)
    || ltb now (w.recently_resuscitated (target_conversation s) + min_debounce cfg)

unfoldable pub is_skipped : WatchdogConfig → StalledSession → ℕ → List Text → Watch → Bool
unfolding contacted
is_skipped cfg s now awakened w =
    not s.can_resuscitate || contacted s awakened || rests cfg s now w || not cfg.auto_resuscitate

-- The rest of a call of resuscitate_session; `none` is the exception of the failed record.
unfoldable pub finish_call : WatchdogConfig → Turn → Begun × Watch → Option Bool × Watch
finish_call cfg t (refused r, w) = (some false, w)
finish_call cfg t (record_failed, w) = (none, w)
finish_call cfg t (sending c, w) =
    let (v, after) = end_resuscitation cfg c t.ended_at t.answer (t.meanwhile w) in
    (some v.success, after)

unfoldable pub resuscitate_session :
    WatchdogConfig → StalledSession → Turn → Watch → Option Bool × Watch
unfolding finish_call
resuscitate_session cfg s t w =
    finish_call cfg t
      (begin_resuscitation cfg none t.active_account t.fresh_id s t.glance t.begun_at w)

-- awakened_targets.add(...)
unfoldable pub awake : StalledSession → List Text → List Text
awake s awakened =
    let both = target_conversation s ∷ s.conversation_id ∷ awakened in
    if truthy s.parent_conversation_id then or_empty s.parent_conversation_id ∷ both else both

abbrev pub awake_if : Bool → StalledSession → List Text → List Text
awake_if success s awakened = if success then awake s awakened else awakened

abbrev pub add_wake : StalledSession → Bool → List Wake × Watch → List Wake × Watch
add_wake s success (wakes, w) = (record { session = s; success = success } ∷ wakes, w)

-- One session: whether it is skipped, what became of the call if not, and the rest of the round.
unfoldable pub visit :
    StalledSession
    → Bool
    → Option Bool × Watch
    → List Wake × Watch
    → (Bool → List Wake × Watch)
    → List Wake × Watch
visit s true r next after = next
visit s false (none, w) next after = ([], w)
visit s false (some success, w) next after = add_wake s success (after success)

-- The sessions that were not skipped, also in a round that an exception ends.
unfoldable pub sweep_stalled :
    WatchdogConfig → List (StalledSession × Turn) → List Text → Watch → List Wake × Watch
unfolding visit
sweep_stalled cfg [] awakened w = ([], w)
sweep_stalled cfg ((s, t) ∷ items) awakened w =
    let next = sweep_stalled cfg items awakened w in
    let r = resuscitate_session cfg s t w in
    visit s (is_skipped cfg s t.now_sweep awakened w) r next
      (λ success. sweep_stalled cfg items (awake_if success s awakened) r.1)

-- The probes of the network and of agentapi come first.
unfoldable pub resuscitate_stalled_sessions :
    WatchdogConfig → Bool → Bool → List (StalledSession × Turn) → Watch → List Wake × Watch
resuscitate_stalled_sessions cfg network_healthy agentapi_ready items w =
    if cfg.enabled && network_healthy && agentapi_ready
    then sweep_stalled cfg items [] w
    else ([], w)

-- The conversations that a session stands for: its target, itself and its parent.
abbrev pub ids_of : StalledSession → List Text
ids_of s =
    target_conversation s
    ∷ s.conversation_id
    ∷ (if truthy s.parent_conversation_id then or_empty s.parent_conversation_id ∷ [] else [])

abbrev pub shares : StalledSession → StalledSession → Bool
shares s x = any (λ i. holds_id i (ids_of s)) (ids_of x)

abbrev Apart : StalledSession → List Wake → Type 0
Apart s [] = Unit
Apart s (x ∷ xs) = (shares s x.session ≡ false) × Apart s xs

-- Behind a success, no session that shares a conversation with it.
abbrev pub Once : List Wake → Type 0
Once [] = Unit
Once (x ∷ xs) = (x.success ≡ true → Apart x.session xs) × Once xs

abbrev Uncontacted : List Text → List Wake → Type 0
Uncontacted awakened [] = Unit
Uncontacted awakened (x ∷ xs) = (contacted x.session awakened ≡ false) × Uncontacted awakened xs

contacted-any :
    (s : StalledSession) (awakened : List Text)
    → contacted s awakened ≡ any (λ i. holds_id i awakened) (ids_of s)
unfolding contacted
contacted-any s awakened = ground arith

member-awake :
    (i : Text) (s : StalledSession) (awakened : List Text)
    → holds_id i (awake s awakened) ≡ holds_id i (ids_of s) || holds_id i awakened
unfolding awake
member-awake i s awakened = ground arith

any-or {ℓ} :
    {A : Type ℓ} (p q r : A → Bool) (xs : List A)
    → ((x : A) → r x ≡ p x || q x)
    → any r xs ≡ any p xs || any q xs
any-or p q r [] h = refl
any-or p q r (x ∷ xs) h = ground (arith, h x, any-or p q r xs h)

contacted-awake :
    (x s : StalledSession) (awakened : List Text)
    → contacted x (awake s awakened) ≡ shares s x || contacted x awakened
contacted-awake x s awakened =
    contacted-any x (awake s awakened)
    ∙ any-or (λ i. holds_id i (ids_of s)) (λ i. holds_id i awakened) _ (ids_of x)
        (λ i. member-awake i s awakened)
    ∙ ap (λ b. shares s x || b) (sym (contacted-any x awakened))

Uncontacted-awake :
    (s : StalledSession) (awakened : List Text) (xs : List Wake)
    → Uncontacted (awake s awakened) xs
    → Apart s xs × Uncontacted awakened xs
Uncontacted-awake s awakened [] h = (tt, tt)
Uncontacted-awake s awakened (x ∷ xs) h =
    let rest = Uncontacted-awake s awakened xs h.1 in
    let both = contacted-awake x.session s awakened in
    ((ground (arith, h.0, both), rest.0), (ground (arith, h.0, both), rest.1))

module _ (cfg : WatchdogConfig) where
  skipped-contacted :
      (s : StalledSession) (now : ℕ) (awakened : List Text) (w : Watch)
      → is_skipped cfg s now awakened w ≡ false
      → contacted s awakened ≡ false
  unfolding is_skipped
  skipped-contacted s now awakened w h = ground (arith, h)

  -- What is known of the wakes of a round that starts with the conversations awakened.
  abbrev Fits : List Text → List Wake × Watch → Type 0
  Fits awakened r = Uncontacted awakened r.0 × Once r.0

  add_wake-Fits :
      (s : StalledSession) (success : Bool) (awakened : List Text) (r : List Wake × Watch)
      → contacted s awakened ≡ false
      → Fits (awake_if success s awakened) r
      → Fits awakened (add_wake s success r)
  add_wake-Fits s true awakened (wakes, w) h f =
      let split = Uncontacted-awake s awakened wakes f.0 in ((h, split.1), ((λ _. split.0), f.1))
  add_wake-Fits s false awakened (wakes, w) h f = ((h, f.0), ((λ e. cc), f.1))

  visit-Fits :
      (s : StalledSession) (awakened : List Text) (skip : Bool) (r : Option Bool × Watch)
      (next : List Wake × Watch) (after : Bool → List Wake × Watch)
      → (skip ≡ false → contacted s awakened ≡ false)
      → Fits awakened next
      → ((success : Bool) → Fits (awake_if success s awakened) (after success))
      → Fits awakened (visit s skip r next after)
  unfolding visit
  visit-Fits s awakened true r next after h f g = f
  visit-Fits s awakened false (none, w) next after h f g = (tt, tt)
  visit-Fits s awakened false (some success, w) next after h f g =
      add_wake-Fits s success awakened (after success) (h refl) (g success)

  sweep_stalled-Fits :
      (items : List (StalledSession × Turn)) (awakened : List Text) (w : Watch)
      → Fits awakened (sweep_stalled cfg items awakened w)
  unfolding sweep_stalled
  sweep_stalled-Fits [] awakened w = (tt, tt)
  sweep_stalled-Fits ((s, t) ∷ items) awakened w =
      let r = resuscitate_session cfg s t w in
      visit-Fits s awakened _ r _
        (λ success. sweep_stalled cfg items (awake_if success s awakened) r.1)
        (skipped-contacted s t.now_sweep awakened w) (sweep_stalled-Fits items awakened w)
        (λ success. sweep_stalled-Fits items (awake_if success s awakened) r.1)

  -- In a round of resuscitate_stalled_sessions, behind a session that was woken none is contacted
  -- that has its target, itself or its parent in common with it, whatever other calls do.
  pub resuscitate_stalled_sessions-Once :
      (network_healthy agentapi_ready : Bool) (items : List (StalledSession × Turn)) (w : Watch)
      → Once (resuscitate_stalled_sessions cfg network_healthy agentapi_ready items w).0
  unfolding resuscitate_stalled_sessions
  resuscitate_stalled_sessions-Once network_healthy agentapi_ready items w =
      elim (Bool-cases (cfg.enabled && network_healthy && agentapi_ready)) [
        | inl e ↦ rw e (sweep_stalled-Fits items [] w).1
        | inr e ↦ rw e tt
      ]
