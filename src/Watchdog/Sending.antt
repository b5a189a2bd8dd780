-- ===== src/Watchdog/Sending.antt =====
-- What a call of `resuscitate_session` (hub/antigravity/watchdog.py) writes to the table of
-- resuscitations: the row of an attempt at its begin, the outcome in that row at its end.
use antigravity_webhook_hub.Prelude.{
  ℕ, ◌≡◌, refl, Bool, true, false, Option, none, [], ◌∷◌, any, arith, Bool-cases, Option-cases, inl,
  inr,
}
use antigravity_webhook_hub.Text.{Text, text_eq_refl}
use antigravity_webhook_hub.Watchdog.Prompts.{Prompt, StalledSession}
use antigravity_webhook_hub.Watchdog.Eligibility.{WatchdogConfig}
use antigravity_webhook_hub.Watchdog.Ledger.{
  ResuscitationStatus, Resuscitation, Rows, record_resuscitation, numbered, is_row, update_where,
  update_resuscitation_status, set_outcome,
}
use antigravity_webhook_hub.Watchdog.Resuscitate.{
  Watch, Begun, refused, sending, Refusal, Call, Glance, preflight, begin_resuscitation, start_call,
  started, call_of, attempt_row,
}

-- A call is refused, or it goes on behind the checks.
pub begin-elim :
    (cfg : WatchdogConfig) (custom_prompt active_account : Option Text) (fresh_id : Text)
    (s : StalledSession) (g : Glance) (now : ℕ) (w : Watch) (P : Begun × Watch → Type 0)
    → ((r : Refusal) → P (refused r, w))
    → ((prompt : Prompt)
        → preflight cfg s g now w ≡ none
        → P (
            started prompt s now w
              (record_resuscitation (attempt_row fresh_id prompt s) now w.rows)))
    → P (begin_resuscitation cfg custom_prompt active_account fresh_id s g now w)
unfolding begin_resuscitation start_call
begin-elim cfg custom_prompt active_account fresh_id s g now w P stop go =
    elim (Option-cases (preflight cfg s g now w)) [
      | inl e ↦ rw (e, begin_resuscitation) (go _ e)
      | inr (r, e) ↦ rw (e, begin_resuscitation) (stop r)
    ]

-- The row of an attempt.
abbrev pub row_of : Text → Prompt → StalledSession → ℕ → Rows → Resuscitation
row_of fresh_id prompt s now rows = numbered (attempt_row fresh_id prompt s) now rows

-- The table and the call after a begin that sends.
pub record IsSent (fresh_id : Text) (s : StalledSession) (now : ℕ) (w : Watch) (c : Call)
    (v : Watch) : Type 0 where
  pub prompt : Prompt
  pub fresh : any (is_row fresh_id) w.rows ≡ false
  pub call : c ≡ call_of prompt s (row_of fresh_id prompt s now w.rows)
  pub written : v.rows ≡ row_of fresh_id prompt s now w.rows ∷ w.rows

module _ (fresh_id : Text) (s : StalledSession) (now : ℕ) (w : Watch) (c : Call) (v : Watch) where
  started-IsSent :
      (prompt : Prompt)
      → started prompt s now w (record_resuscitation (attempt_row fresh_id prompt s) now w.rows)
        ≡ (sending c, v)
      → IsSent fresh_id s now w c v
  unfolding started record_resuscitation
  started-IsSent prompt h = elim (Bool-cases (any (is_row fresh_id) w.rows)) [
    | inl e ↦ ground (arith, h, e)
    | inr e ↦ record {
      prompt = prompt;
      fresh = e;
      call = ground (arith, h, e);
      written = ground (arith, h, e);
    }
  ]

  pub begin-IsSent :
      (cfg : WatchdogConfig) (custom_prompt active_account : Option Text) (g : Glance)
      → begin_resuscitation cfg custom_prompt active_account fresh_id s g now w ≡ (sending c, v)
      → IsSent fresh_id s now w c v
  begin-IsSent cfg custom_prompt active_account g =
      begin-elim cfg custom_prompt active_account fresh_id s g now w
        (λ r. r ≡ (sending c, v) → IsSent fresh_id s now w c v) (λ r h. cc)
        (λ prompt _. started-IsSent prompt)

update_where-none :
    (test : Resuscitation → Bool) (change : Resuscitation → Resuscitation) (rows : Rows)
    → any test rows ≡ false
    → update_where test change rows ≡ rows
unfolding update_where
update_where-none test change [] h = refl
update_where-none test change (r ∷ rows) h = ground (arith, update_where-none test change rows)

-- The outcome goes to the row of the attempt alone.
pub outcome-first :
    (i : Text) (status : ResuscitationStatus) (until : Option ℕ) (details : Option Text)
    (r : Resuscitation) (rows : Rows)
    → r.resuscitation_id ≡ i
    → any (is_row i) rows ≡ false
    → update_resuscitation_status i status until details (r ∷ rows)
      ≡ set_outcome status until details r ∷ rows
unfolding update_resuscitation_status
outcome-first i status until details r rows e h =
    let same : is_row i r ≡ true = rw e (text_eq_refl i) in
    let kept = update_where-none (is_row i) (set_outcome status until details) rows h in
    unfold update_where in rw (same, kept) refl
