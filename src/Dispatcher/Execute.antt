-- ===== src/Dispatcher/Execute.antt =====
-- `execute_task` of hub/dispatcher.py behind the transition to `running`: the choice of the action,
-- how its end is read, and the terminal transition. The action itself (a signal file, a review, a
-- conversation, an HTTP call, a process) is the parameter `perform`, which gives its end and the
-- store that it leaves. The audit rows, the broadcasts and the sidebar are left out: nothing reads
-- their results.
pub mod Settles
use antigravity_webhook_hub.Prelude.{
  ℕ, zero, ◌==◌, String, str_eq, Bool, true, false, not, ◌&&◌, ◌||◌, Option, none, some, List, [],
  ◌∷◌, ◌++◌, any, if◌then◌else◌,
}
use antigravity_webhook_hub.Prelude.Int.{ℤ, pos, negsuc, ltb_ℤ}
use antigravity_webhook_hub.Text.{
  Text, codes, text_eq, is_nil, truthy, or_empty, lower, strip, starts_with, print_int,
}
use antigravity_webhook_hub.Models.{TaskStatus, running, succeeded, failed, timed_out, status_eq}
use antigravity_webhook_hub.Store.Rows.{Event, Task, Db}
use antigravity_webhook_hub.Store.Rows
use antigravity_webhook_hub.Store.Events.{update_event_status}
use antigravity_webhook_hub.Store.Tasks.{get_task, update_task_status_cas}
use antigravity_webhook_hub.Dispatcher.Start.{
  ExecutionResult, Start, stops, runs, start_task, not_found,
}

-- 3. What is executed. The last two raise ValueError.
pub data Route : Type 0 where
  signal review converse : Route
  call_url : Text → Route
  run_command : Text → Route
  no_url no_command : Route

abbrev one_of : List String → Text → Bool
one_of words s = any (λ w. text_eq s (codes w)) words

abbrev is_url : Text → Bool
is_url s = starts_with (codes "http://") s || starts_with (codes "https://") s

abbrev first_text : Text → Text → Text
first_text a b = if is_nil a then b else a

abbrev call_or_raise : Text → Route
call_or_raise url = if is_nil url then no_url else call_url url

abbrev run_or_raise : Text → Route
run_or_raise cmd = if is_nil cmd then no_command else run_command cmd

abbrev surecart_default : String → Text → Text → Text
surecart_default source action_type cmd =
    if is_nil cmd
      && (one_of ("surecart" ∷ "surecart-acs" ∷ "surecart_acs" ∷ "stripe_acs" ∷ "stripe-acs" ∷ [])
            (codes source)
          || text_eq action_type (codes "surecart_acs"))
    then codes
        "python3 /Users/vecsatfoxmailcom/.agents/skills/stripe-agentic-commerce/scripts/stripe_acs_cli.py surecart sync"
    else cmd

-- The end of the action, one constructor for each way to go on: the signal was written; the review
-- came back, perhaps with an error; the conversation succeeded or failed; the HTTP call gave a
-- status code (-1 without an answer); the process exited; it was killed after the timeout, with the
-- return code that was then read; an exception, with the exit code that was set before it.
-- The cancellation of a worker by `stop` is left out: no handler catches it, and the task stays
-- running.
pub data Ending : Type 0 where
  signalled : Ending
  reviewed : Option Text → Ending
  conversed : Bool → Option Text → Ending
  responded : ℤ → Option Text → Ending
  exited : ℤ → Ending
  overran : Option ℤ → Ending
  raised : Text → Option ℤ → Ending

pub record Outcome : Type 0 where
  pub status : TaskStatus
  pub exit_code : Option ℤ
  pub error_message : Option Text

abbrev success : Option ℤ → Outcome
success code = record { status = succeeded; exit_code = code; error_message = none }

abbrev failure : Option ℤ → Text → Outcome
failure code message = record { status = failed; exit_code = code; error_message = some message }

abbrev or_default : Option Text → Text → Text
or_default o d = if truthy o then or_empty o else d

abbrev killed_code : Option ℤ → ℤ
killed_code none = negsuc 8
killed_code (some (pos n)) = if n == 255 then negsuc 8 else pos n
killed_code (some code) = code

-- int(task_data.get("timeout_seconds") or 300)
abbrev nonzero : ℤ → ℤ
nonzero (pos zero) = pos 300
nonzero n = n

abbrev timeout_of : Task → ℤ
timeout_of t = nonzero t.timeout_seconds

abbrev reviewed_outcome : Option Text → Outcome
reviewed_outcome error =
    if truthy error then failure (some (pos 1)) (or_empty error) else success (some (pos 0))

abbrev conversed_outcome : Bool → Option Text → Outcome
conversed_outcome ok error =
    if ok
    then success (some (pos 0))
    else failure (some (pos 1)) (or_default error (codes "Antigravity task execution failed"))

abbrev responded_outcome : ℤ → Option Text → Outcome
responded_outcome code error =
    if not (ltb_ℤ code (pos 200)) && ltb_ℤ code (pos 400)
    then success (some (pos 0))
    else failure (some (if ltb_ℤ (pos 0) code then code else pos 1))
        (or_default error (codes "Webhook dispatch returned HTTP " ++ print_int code))

abbrev exited_outcome : ℤ → Outcome
exited_outcome (pos zero) = success (some (pos 0))
exited_outcome code =
    failure (some code) (codes "Process exited with non-zero code " ++ print_int code)

abbrev overran_outcome : Task → Option ℤ → Outcome
overran_outcome t code = record {
  status = timed_out;
  exit_code = some (killed_code code);
  error_message =
      some (codes "Process exceeded timeout of " ++ print_int (timeout_of t) ++ codes " seconds");
}

unfoldable pub outcome : Task → Ending → Outcome
outcome t signalled = success none
outcome t (reviewed error) = reviewed_outcome error
outcome t (conversed ok error) = conversed_outcome ok error
outcome t (responded code error) = responded_outcome code error
outcome t (exited code) = exited_outcome code
outcome t (overran code) = overran_outcome t code
outcome t (raised message code) = failure code message

abbrev pub result_of : String → Outcome → ExecutionResult
result_of task_id o = record {
  task_id = task_id;
  status = o.status;
  exit_code = o.exit_code;
  error_message = o.error_message;
}

-- 4. The terminal transition, whose result is not looked at, and the event's status.
abbrev pub event_done : Option String → TaskStatus → Db → Db
event_done none status db = db
event_done (some event_id) status db =
    if status_eq status succeeded && not (str_eq event_id "")
    then (update_event_status event_id Rows.processed db).1
    else db

unfoldable pub finish_task : String → Task → Outcome → ℕ → Db → ExecutionResult × Db
unfolding update_event_status
finish_task task_id t o now db =
    let (_, swapped) =
      update_task_status_cas task_id running o.status o.exit_code o.error_message now db in
    (result_of task_id o, event_done t.event_id o.status swapped)

-- `target_of` and `url_of` are the column `target_action` and the member `url` of the parameters,
-- `uid` the user that launchctl is called for.
module _ (target_of : Task → Text) (url_of : Task → Option Text) (uid : Text) where
  abbrev command_line : Task → Text → Text
  command_line t action_type =
      if one_of ("launchd" ∷ "launchd_job" ∷ []) action_type
      then codes "launchctl kickstart -k gui/"
        ++ uid
        ++ codes "/"
        ++ first_text (target_of t) (codes t.command)
      else surecart_default t.source action_type (first_text (codes t.command) (target_of t))

  abbrev default_cli : Text → Text
  default_cli s = if is_nil s then codes "cli" else s

  abbrev action_type_of : Task → Text
  action_type_of t = strip (lower (default_cli (codes t.action_type)))

  abbrev is_call : Task → Text → Bool
  is_call t action_type =
      one_of ("webhook" ∷ "http" ∷ "webhook_dispatch" ∷ "webhook_forward" ∷ "webhook_call" ∷ [])
        action_type
      || is_url (codes t.command)
      || is_url (target_of t)

  abbrev target_url : Task → Text
  target_url t = strip (or_default (url_of t) (first_text (target_of t) (codes t.command)))

  abbrev is_converse : Text → Bool
  is_converse action_type =
      one_of
        ("antigravity" ∷ "agent_conversation" ∷ "antigravity_task" ∷ "antigravity.run"
          ∷ "antigravity_run" ∷ [])
        action_type

  abbrev is_review : Text → Bool
  is_review action_type =
      one_of ("contact_review" ∷ "review_contact" ∷ "contact-review" ∷ []) action_type

  unfoldable pub route : Task → Route
  route t =
      let action_type = action_type_of t in
      if one_of ("agent_signal" ∷ "signal" ∷ []) action_type
      then signal
      else if is_review action_type
      then review
      else if is_converse action_type
      then converse
      else if is_call t action_type
      then call_or_raise (target_url t)
      else run_or_raise (command_line t action_type)

  -- The exceptions of the last two routes are caught like those of an action.
  module _ (perform : Route → Task → Db → Ending × Db) where
    abbrev pub ending_of : Route → Task → Db → Ending × Db
    ending_of no_url t db =
        (raised (codes "No target URL specified for webhook task " ++ codes t.task_id) none, db)
    ending_of no_command t db =
        (raised (codes "No executable command found for task " ++ codes t.task_id) none, db)
    ending_of r t db = perform r t db

    -- The row that was read before the transition goes on to be used.
    abbrev pub run_started : Option Task → Start → String → ℕ → Db → ExecutionResult × Db
    run_started t (stops result) task_id later db = (result, db)
    run_started none (runs n) task_id later db = (not_found task_id, db)
    run_started (some t) (runs n) task_id later db =
        let (e, after) = ending_of (route t) t db in finish_task task_id t (outcome t e) later after

    -- `now` and `later` are the times of the two transitions.
    unfoldable pub execute_task : String → ℕ → ℕ → Db → ExecutionResult × Db
    unfolding start_task finish_task outcome route
    execute_task task_id now later db =
        let (start, db') = start_task task_id now db in
        run_started (get_task task_id db) start task_id later db'
