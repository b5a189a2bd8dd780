-- ===== src/Watchdog/Spacing.antt =====
-- However calls of `resuscitate_session` (hub/antigravity/watchdog.py) overlap, a conversation is
-- not woken twice at once, and not twice within the debounce.
use antigravity_webhook_hub.Prelude.{
  ℕ, ◌+◌, ◌≤◌, ◌≡◌, refl, sym, ap, ◌∙◌, true, false, ◌||◌, Option, none, some, List, ◌∷◌, ◌++◌, any,
  keep, length, arith, Bool-cases, inl, inr,
}
use antigravity_webhook_hub.Text.{Text, text_eq, text_eq_iff}
use antigravity_webhook_hub.Watchdog.Prompts.{Prompt, StalledSession, target_conversation}
use antigravity_webhook_hub.Watchdog.Eligibility.{WatchdogConfig}
use antigravity_webhook_hub.Watchdog.Ledger.{Resuscitation, Rows}
use antigravity_webhook_hub.Watchdog.Resuscitate.{
  Watch, Call, Glance, Answer, preflight, end_resuscitation, started, mark_in_flight, call_of,
  holds_id, min_debounce,
}
use antigravity_webhook_hub.Watchdog.Sending.{begin-elim}
use antigravity_webhook_hub.Watchdog.Concurrent.{
  World, CallStep, CallSteps, begins, ends, changes, done, step, IsFresh, concerns, times_of,
  after_begin,
}
use antigravity_webhook_hub.Watchdog.Quiet.{
  Spaced, IsQuiet, calls_about, any-split, about-split, about-zero, sending-IsQuiet,
  waiting-IsQuiet, release-IsQuiet,
}

-- What the checks of a call that goes on have found.
record IsClear (cfg : WatchdogConfig) (i : Text) (now : ℕ) (w : Watch) : Type 0 where
  free : holds_id i w.in_flight_resuscitations ≡ false
  rested : w.recently_resuscitated i + min_debounce cfg ≤ now

module _ (cfg : WatchdogConfig) (s : StalledSession) (g : Glance) (now : ℕ) (w : Watch)
    (clear : preflight cfg s g now w ≡ none) where
  IsClear-session : IsClear cfg s.conversation_id now w
  unfolding preflight
  IsClear-session = record { free = ground arith; rested = ground arith }

  IsClear-target : IsClear cfg (target_conversation s) now w
  unfolding preflight
  IsClear-target = record { free = ground arith; rested = ground arith }

module _ (cfg : WatchdogConfig) (i : Text) where
  abbrev Quiet : World → Type 0
  Quiet = IsQuiet (min_debounce cfg) i

  free_concerned :
      (s : StalledSession) (v : World) (g : Glance) (now : ℕ)
      → preflight cfg s g now v.watch ≡ none
      → (text_eq s.conversation_id i || text_eq (target_conversation s) i) ≡ true
      → holds_id i v.watch.in_flight_resuscitations ≡ false
  free_concerned s v g now clear h = elim (Bool-cases (text_eq s.conversation_id i)) [
    | inl e ↦
        rw (sym ((text_eq_iff s.conversation_id i).0 e))
          (IsClear-session cfg s g now v.watch clear).free
    | inr e ↦
        rw (sym ((text_eq_iff (target_conversation s) i).0 (ground arith)))
          (IsClear-target cfg s g now v.watch clear).free
  ]

  started-Quiet :
      (prompt : Prompt) (s : StalledSession) (g : Glance) (now : ℕ) (v : World)
      (recorded : Option (Resuscitation × Rows))
      → v.clock ≤ now
      → Quiet v
      → preflight cfg s g now v.watch ≡ none
      → Quiet (after_begin now v (started prompt s now v.watch recorded))
  unfolding started
  started-Quiet prompt s g now v none late q clear =
      release-IsQuiet (min_debounce cfg) i v (mark_in_flight s v.watch) s.conversation_id
        (target_conversation s) v.waiting now late q.one_call
        (λ busy. (
          ground (arith, q.flying busy, free_concerned s v g now clear),
          ground (arith, q.flying busy),
        ))
        q.spaced (λ _. q.marked) q.mark_past q.past
  started-Quiet prompt s g now v (some (row, rows)) late q clear =
      sending-IsQuiet (min_debounce cfg) i v (call_of prompt s row)
        (record (mark_in_flight s v.watch) { rows = rows }) now late q
        (free_concerned s v g now clear)
        (λ t.
          rw (sym ((text_eq_iff (target_conversation s) i).0 t))
            (IsClear-target cfg s g now v.watch clear).rested)
        refl refl

  end-Quiet :
      (before after : List Call) (c : Call) (answer : Answer) (now : ℕ) (v : World)
      → v.clock ≤ now
      → v.waiting ≡ before ++ c ∷ after
      → Quiet v
      → Quiet (record v {
        watch = (end_resuscitation cfg c now answer v.watch).1;
        waiting = before ++ after;
        clock = now;
      })
  unfolding end_resuscitation
  end-Quiet before after c answer now v late split q =
      let about = ap (calls_about i) split ∙ about-split i before after c in
      let busy = ap (any (concerns i)) split ∙ any-split i before after c in
      release-IsQuiet (min_debounce cfg) i v _ c.conversation_id c.target_id (before ++ after) now
        late (ground (arith, q.one_call, about))
        (λ h. (
          elim (Bool-cases (concerns i c)) [
            | inl e ↦ cc (about-zero i (before ++ after) (ground (arith, q.one_call, about, e)), h)
            | inr e ↦ e
          ],
          q.flying (ground (arith, busy, h)),
        ))
        q.spaced (λ other idle. q.marked (ground (arith, busy))) q.mark_past q.past

  Step-Quiet : {v w : World} → CallStep cfg v w → Quiet v → Quiet w
  Step-Quiet (begins custom account fresh_id s g now v late) q =
      begin-elim cfg custom account fresh_id s g now v.watch (λ r. Quiet (after_begin now v r))
        (λ r. waiting-IsQuiet (min_debounce cfg) i v v.watch now late q refl refl)
        (λ prompt clear. started-Quiet prompt s g now v _ late q clear)
  Step-Quiet (ends before after c answer now v late split) q =
      end-Quiet before after c answer now v late split q
  Step-Quiet (changes w v flies same) q = record {
    one_call = q.one_call;
    flying = rw flies q.flying;
    spaced = q.spaced;
    marked = rw same q.marked;
    mark_past = rw same q.mark_past;
    past = q.past;
  }

  Steps-Quiet : {v w : World} → CallSteps cfg v w → Quiet v → Quiet w
  Steps-Quiet (done v) q = q
  Steps-Quiet (step ss s) q = Step-Quiet s (Steps-Quiet ss q)

  fresh-Quiet : (v : World) → IsFresh v → Quiet v
  fresh-Quiet v f = record {
    one_call = rw f.no_calls (omega arith);
    flying = rw f.no_calls (λ h. cc);
    spaced = rw f.no_messages tt;
    marked = rw f.no_messages (λ _. tt);
    mark_past = rw (f.no_marks i) (omega arith);
    past = rw f.no_messages tt;
  }

  -- From a new watchdog on, however its calls overlap and whatever the tables hold: at most one
  -- call about a conversation waits for its answer, and two messages to it are at least the
  -- debounce apart.
  pub messages-Spaced :
      {v w : World}
      → IsFresh v
      → CallSteps cfg v w
      → (length (keep (concerns i) w.waiting) ≤ 1)
        × Spaced (min_debounce cfg) (times_of i w.messages)
  messages-Spaced {v} fresh steps =
      let q = Steps-Quiet steps (fresh-Quiet v fresh) in (q.one_call, q.spaced)
