-- ===== src/Watchdog/Concurrent.antt =====
-- Calls of `resuscitate_session` (hub/antigravity/watchdog.py) that overlap: each runs without a
-- break up to its await of `send_message`, and from the answer to its end. The sweeper, the command
-- line and a second sweep make such calls.
use antigravity_webhook_hub.Prelude.{
  ℕ, ◌≤◌, ◌≡◌, Bool, ◌||◌, Option, List, [], ◌∷◌, ◌++◌, keep, map,
}
use antigravity_webhook_hub.Text.{Text, text_eq}
use antigravity_webhook_hub.Watchdog.Prompts.{StalledSession}
use antigravity_webhook_hub.Watchdog.Eligibility.{WatchdogConfig}
use antigravity_webhook_hub.Watchdog.Resuscitate.{
  Watch, Begun, refused, sending, record_failed, Call, Glance, Answer, begin_resuscitation,
  end_resuscitation,
}

pub record Sent : Type 0 where
  pub target_id : Text
  pub time : ℕ

-- The calls that wait for an answer, and the messages sent so far, the last one first.
pub record World : Type 0 where
  pub watch : Watch
  pub waiting : List Call
  pub messages : List Sent
  pub clock : ℕ

-- What a call that has begun leaves behind.
abbrev pub after_begin : ℕ → World → Begun × Watch → World
after_begin now v (sending c, w) = record {
  watch = w;
  waiting = c ∷ v.waiting;
  messages = record { target_id = c.target_id; time = now } ∷ v.messages;
  clock = now;
}
after_begin now v (refused r, w) = record v { watch = w; clock = now }
after_begin now v (record_failed, w) = record v { watch = w; clock = now }

module _ (cfg : WatchdogConfig) where
  -- `changes` is all else: the tables and the start of the server change, the calls' own marks do
  -- not.
  pub data CallStep : World → World → Type 0 where
    begins :
        (custom_prompt active_account : Option Text) (fresh_id : Text) (s : StalledSession)
        (g : Glance) (now : ℕ) (v : World)
        → v.clock ≤ now
        → CallStep v (
            after_begin now v
              (begin_resuscitation cfg custom_prompt active_account fresh_id s g now v.watch))
    ends :
        (before after : List Call) (c : Call) (answer : Answer) (now : ℕ) (v : World)
        → v.clock ≤ now
        → v.waiting ≡ before ++ c ∷ after
        → CallStep v (record v {
          watch = (end_resuscitation cfg c now answer v.watch).1;
          waiting = before ++ after;
          clock = now;
        })
    changes :
        (w : Watch) (v : World)
        → w.in_flight_resuscitations ≡ v.watch.in_flight_resuscitations
        → w.recently_resuscitated ≡ v.watch.recently_resuscitated
        → CallStep v (record v { watch = w })

  pub data CallSteps : World → World → Type 0 where
    done : (v : World) → CallSteps v v
    step : {u v w : World} → CallSteps u v → CallStep v w → CallSteps u w

-- A watchdog that has just been created.
pub record IsFresh (v : World) : Type 0 where
  pub no_calls : v.waiting ≡ []
  pub no_messages : v.messages ≡ []
  pub no_marks : (i : Text) → v.watch.recently_resuscitated i ≡ 0

-- The call is about the conversation.
abbrev pub concerns : Text → Call → Bool
concerns i c = text_eq c.conversation_id i || text_eq c.target_id i

abbrev pub sent_to : Text → Sent → Bool
sent_to i m = text_eq m.target_id i

-- When the messages to a conversation were sent, the last one first.
abbrev pub times_of : Text → List Sent → List ℕ
times_of i messages = map (λ m. m.time) (keep (sent_to i) messages)
