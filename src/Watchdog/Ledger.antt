-- ===== src/Watchdog/Ledger.antt =====
-- The table antigravity_resuscitations of hub/db.py, newest row first, and its methods. Times are
-- milliseconds; resuscitated_at is CURRENT_TIMESTAMP, in whole seconds.
use antigravity_webhook_hub.Prelude.{
  ℕ, ◌+◌, ◌-◌, ◌/◌, Bool, true, false, ◌&&◌, ◌||◌, Option, none, some, List, [], ◌∷◌, any, find,
  keep, length, ltb, leb, if◌then◌else◌,
}
use antigravity_webhook_hub.Text.{Text, text_eq, contains, ascii_lower, starts_with, truthy}
use antigravity_webhook_hub.Watchdog.Prompts.{Prompt}

pub data ResuscitationStatus : Type 0 where
  attempting : ResuscitationStatus
  resuscitated : ResuscitationStatus
  failed : ResuscitationStatus
  exhausted : ResuscitationStatus
  resolved : ResuscitationStatus
  quota_cooldown : ResuscitationStatus
  schedule_remounted : ResuscitationStatus

-- status NOT IN ('quota_cooldown', 'schedule_remounted')
abbrev pub counts : ResuscitationStatus → Bool
counts quota_cooldown = false
counts schedule_remounted = false
counts _ = true

-- status IN ('resuscitated', 'attempting', 'schedule_remounted')
abbrev pub woke : ResuscitationStatus → Bool
woke resuscitated = true
woke attempting = true
woke schedule_remounted = true
woke _ = false

abbrev pub is_attempting : ResuscitationStatus → Bool
is_attempting attempting = true
is_attempting _ = false

abbrev pub is_cooldown : ResuscitationStatus → Bool
is_cooldown quota_cooldown = true
is_cooldown _ = false

pub record Resuscitation : Type 0 where
  pub resuscitation_id : Text
  pub conversation_id : Text
  pub sidecar_slug : Option Text
  pub last_error : Option Text
  pub attempt_count : ℕ
  pub status : ResuscitationStatus
  pub resuscitation_prompt : Option Prompt
  pub last_step_index : ℕ
  pub cooldown_until : Option ℕ
  pub error_details : Option Text
  pub resuscitated_at : ℕ

abbrev pub Rows : Type 0
Rows = List Resuscitation

-- UPDATE ... WHERE
unfoldable pub update_where : (Resuscitation → Bool) → (Resuscitation → Resuscitation) → Rows → Rows
update_where test change [] = []
update_where test change (r ∷ rows) =
    let rest = update_where test change rows in if test r then change r ∷ rest else r ∷ rest

abbrev pub of_conversation : Text → Resuscitation → Bool
of_conversation cid r = text_eq r.conversation_id cid

abbrev pub is_row : Text → Resuscitation → Bool
is_row i r = text_eq r.resuscitation_id i

abbrev pub attempts_of : Text → Rows → Rows
attempts_of cid = keep (λ r. of_conversation cid r && counts r.status)

-- The row that record_resuscitation writes; `row` has the caller's values.
abbrev pub numbered : Resuscitation → ℕ → Rows → Resuscitation
numbered row now rows =
    let prior_count = length (attempts_of row.conversation_id rows) in
    record row {
      attempt_count = if counts row.status then prior_count + 1 else prior_count;
      resuscitated_at = now / 1000;
    }

-- `none` is the IntegrityError of an id that is taken.
unfoldable pub record_resuscitation : Resuscitation → ℕ → Rows → Option (Resuscitation × Rows)
record_resuscitation row now rows =
    if any (is_row row.resuscitation_id) rows
    then none
    else some (numbered row now rows, numbered row now rows ∷ rows)

-- abs(step_idx - anchor_step) <= 1
abbrev pub near : ℕ → ℕ → Bool
near anchor step = leb step (anchor + 1) && leb anchor (step + 1)

unfoldable pub consecutive : ℕ → Rows → ℕ
consecutive anchor [] = 0
consecutive anchor (r ∷ rows) =
    let rest = consecutive anchor rows in if near anchor r.last_step_index then rest + 1 else 0

unfoldable pub count_attempts : Option ℕ → Rows → ℕ
unfolding consecutive
count_attempts current [] = 0
count_attempts none (r ∷ rows) = consecutive r.last_step_index (r ∷ rows)
count_attempts (some step) (r ∷ rows) =
    if ltb (r.last_step_index + 1) step then 0 else consecutive r.last_step_index (r ∷ rows)

unfoldable pub get_resuscitation_attempts : Text → Option ℕ → Rows → ℕ
unfolding count_attempts
get_resuscitation_attempts cid current rows = count_attempts current (attempts_of cid rows)

unfoldable pub get_last_resuscitation : Text → Rows → Option Resuscitation
get_last_resuscitation cid = find (of_conversation cid)

-- `column LIKE '%id%'`, on an id without `%` and `_`.
abbrev pub mentions : Text → Option Text → Bool
mentions cid none = false
mentions cid (some details) = contains (ascii_lower cid) (ascii_lower details)

-- `last_error LIKE 'prefix%'`
abbrev pub begins : Text → Option Text → Bool
begins prefix none = false
begins prefix (some error) = starts_with (ascii_lower prefix) (ascii_lower error)

-- The times are compared as texts; those of the years 2001 to 2286 have ten digits, and the
-- margin of the epoch 0 starts with a sign, so that this is the order of the numbers.
abbrev pub since : ℕ → Resuscitation → Bool
since since_epoch r = leb ((since_epoch - 5000) / 1000) r.resuscitated_at

abbrev pub is_wake : Text → ℕ → Resuscitation → Bool
is_wake cid since_epoch r =
    (of_conversation cid r || mentions cid r.error_details) && woke r.status && since since_epoch r

-- Without an error_prefix.
unfoldable pub has_resuscitation_since : Text → ℕ → Rows → Bool
has_resuscitation_since cid since_epoch = any (is_wake cid since_epoch)

-- With one; no caller's prefix contains `server_restart`.
unfoldable pub has_resuscitation_for : Text → ℕ → Text → Rows → Bool
has_resuscitation_for cid since_epoch error_prefix =
    any (λ r. is_wake cid since_epoch r && begins error_prefix r.last_error)

abbrev pub cooling : Option Resuscitation → Option Resuscitation
cooling none = none
cooling (some r) = if is_cooldown r.status then some r else none

unfoldable pub get_active_quota_cooldown : Text → Rows → Option Resuscitation
unfolding get_last_resuscitation
get_active_quota_cooldown cid rows = cooling (get_last_resuscitation cid rows)

abbrev pub clears : Option Text → Resuscitation → Bool
clears none r = is_cooldown r.status
clears (some cid) r =
    if truthy (some cid)
    then of_conversation cid r && is_cooldown r.status
    else is_cooldown r.status

unfoldable pub clear_quota_cooldown : Option Text → Rows → ℕ × Rows
unfolding update_where
clear_quota_cooldown cid rows = (
  length (keep (clears cid) rows),
  update_where (clears cid) (λ r. record r { status = resolved }) rows,
)

-- COALESCE(new, old)
abbrev pub coalesced {ℓ} : {A : Type ℓ} → Option A → Option A → Option A
coalesced none old = old
coalesced (some new) old = some new

abbrev pub set_outcome :
    ResuscitationStatus → Option ℕ → Option Text → Resuscitation → Resuscitation
set_outcome status cooldown_until error_details r = record r {
  status = status;
  cooldown_until = coalesced cooldown_until r.cooldown_until;
  error_details = coalesced error_details r.error_details;
}

unfoldable pub update_resuscitation_status :
    Text → ResuscitationStatus → Option ℕ → Option Text → Rows → Rows
unfolding update_where
update_resuscitation_status i status cooldown_until error_details =
    update_where (is_row i) (set_outcome status cooldown_until error_details)
