-- ===== src/Watchdog/Cooldowns.antt =====
-- `check_and_clear_quota_cooldowns` of hub/antigravity/watchdog.py, with `clear_quota_cooldown` of
-- hub/db.py on all conversations.
use antigravity_webhook_hub.Prelude.{
  ℕ, ◌+◌, ◌≡◌, refl, ap, ◌∙◌, inl, inr, Bool, true, false, ◌&&◌, Option, none, some, [], ◌∷◌, find,
  keep, length, arith, Bool-cases, Option-cases,
}
use antigravity_webhook_hub.Text.{Text}
use antigravity_webhook_hub.Watchdog.Ledger.{
  ResuscitationStatus, resolved, quota_cooldown, Resuscitation, Rows, update_where, clears,
  is_cooldown, counts, attempts_of, of_conversation, cooling, get_active_quota_cooldown,
  clear_quota_cooldown,
}

-- What is_active_account_healthy answers, with the active account; it may raise.
pub data Health : Type 0 where
  no_sentinel : Health
  account : Bool → Option Text → Health
  raised : Health

pub record Cleared : Type 0 where
  pub is_healthy : Bool
  pub active_email : Option Text
  pub cleared_count : ℕ

unfoldable pub check_and_clear_quota_cooldowns : Health → Rows → Cleared × Rows
unfolding clear_quota_cooldown
check_and_clear_quota_cooldowns no_sentinel rows =
    (record { is_healthy = false; active_email = none; cleared_count = 0 }, rows)
check_and_clear_quota_cooldowns raised rows =
    (record { is_healthy = false; active_email = none; cleared_count = 0 }, rows)
check_and_clear_quota_cooldowns (account false email) rows =
    (record { is_healthy = false; active_email = email; cleared_count = 0 }, rows)
check_and_clear_quota_cooldowns (account true email) rows =
    let (count, after) = clear_quota_cooldown none rows in
    (record { is_healthy = true; active_email = email; cleared_count = count }, after)

abbrev resolve : Resuscitation → Resuscitation
resolve r = record r { status = resolved }

find-cleared :
    (cid : Text) (rows : Rows) (r : Resuscitation)
    → find (of_conversation cid) (update_where (clears none) resolve rows) ≡ some r
    → is_cooldown r.status ≡ false
unfolding update_where
find-cleared cid [] r h = cc
find-cleared cid (x ∷ rows) r h = elim (Bool-cases (is_cooldown x.status)) [
  | inl e ↦ ground (arith, (rw e at h), find-cleared cid rows r)
  | inr e ↦ ground (arith, e, (rw e at h), find-cleared cid rows r)
]

cooldown-resolved : (r : ResuscitationStatus) → is_cooldown r ≡ true → counts r ≡ false
cooldown-resolved quota_cooldown h = refl
cooldown-resolved r h = cc

attempts-cleared :
    (cid : Text) (rows : Rows)
    → length (attempts_of cid (update_where (clears none) resolve rows))
      ≡ length (attempts_of cid rows)
        + length (keep (λ r. of_conversation cid r && is_cooldown r.status) rows)
unfolding update_where
attempts-cleared cid [] = refl
attempts-cleared cid (r ∷ rows) = elim (Bool-cases (is_cooldown r.status)) [
  | inl e ↦ ground (arith, e, cooldown-resolved r.status, attempts-cleared cid rows)
  | inr e ↦ ground (arith, e, attempts-cleared cid rows)
]

-- When the active account is healthy, no conversation is in a cooldown afterwards; but each row of
-- a cooldown, which did not count as an attempt before, counts as one from then on.
clear-counts :
    (email : Option Text) (cid : Text) (rows : Rows)
    → let after = (check_and_clear_quota_cooldowns (account true email) rows).1 in
      (get_active_quota_cooldown cid after ≡ none)
      × (length (attempts_of cid after)
          ≡ length (attempts_of cid rows)
            + length (keep (λ r. of_conversation cid r && is_cooldown r.status) rows))
unfolding check_and_clear_quota_cooldowns get_active_quota_cooldown
clear-counts email cid rows = (
  elim (Option-cases (find (of_conversation cid) (update_where (clears none) resolve rows))) [
    | inl e ↦ ap cooling e
    | inr (r, e) ↦ ap cooling e ∙ rw (find-cleared cid rows r e) refl
  ],
  attempts-cleared cid rows,
)
