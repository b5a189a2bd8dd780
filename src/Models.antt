-- ===== src/Models.antt =====
-- hub/models.py: the task state machine, the result of a security check, and the request as the
-- handlers read it.
use antigravity_webhook_hub.Prelude.{
  ℕ, Bool, true, false, Option, none, some, List, [], ◌∷◌, any, ◌==◌, if◌then◌else◌, String,
}
use antigravity_webhook_hub.Text.{Text, text_eq, lower}

pub data TaskStatus : Type 0 where
  received queued running succeeded failed timed_out cancelled scheduled : TaskStatus

-- Statuses are compared as the strings that they stand for: each has a number of its own.
abbrev ordinal : TaskStatus → ℕ
ordinal received = 0
ordinal queued = 1
ordinal running = 2
ordinal succeeded = 3
ordinal failed = 4
ordinal timed_out = 5
ordinal cancelled = 6
ordinal scheduled = 7

abbrev pub status_eq : TaskStatus → TaskStatus → Bool
status_eq s t = ordinal s == ordinal t

pub terminal_statuses : List TaskStatus
terminal_statuses = succeeded ∷ failed ∷ timed_out ∷ cancelled ∷ []

unfoldable pub is_terminal : TaskStatus → Bool
unfolding terminal_statuses
is_terminal s = any (status_eq s) terminal_statuses

unfoldable pub valid_transitions : TaskStatus → List TaskStatus
valid_transitions received = queued ∷ running ∷ failed ∷ cancelled ∷ scheduled ∷ []
valid_transitions scheduled = queued ∷ running ∷ cancelled ∷ failed ∷ []
valid_transitions queued = running ∷ failed ∷ cancelled ∷ []
valid_transitions running = succeeded ∷ failed ∷ timed_out ∷ cancelled ∷ []
valid_transitions succeeded = []
valid_transitions failed = queued ∷ []
valid_transitions timed_out = queued ∷ []
valid_transitions cancelled = queued ∷ []

unfoldable pub can_transition : TaskStatus → TaskStatus → Bool
unfolding valid_transitions
can_transition from to = any (status_eq to) (valid_transitions from)

-- The free-text `message` is left out: it is a diagnostic that no code reads back.
pub record ValidationResult : Type 0 where
  pub is_valid : Bool
  pub reason : String
  pub status_code : ℕ

abbrev pub reject : String → ℕ → ValidationResult
reject reason status_code = record { is_valid = false; reason = reason; status_code = status_code }

abbrev pub accept : String → ValidationResult
accept reason = record { is_valid = true; reason = reason; status_code = 200 }

-- The parts of a request that the security checks read. `headers` and `query_params` are the
-- dicts; the server stores header names in lower case.
pub record HttpRequest : Type 0 where
  pub path : Text
  pub raw_path : Text
  pub query_params : List (Text × Text)
  pub headers : List (Text × Text)
  pub body : List ℕ

-- dict.get
unfoldable pub get : List (Text × Text) → Text → Option Text
get [] k = none
get ((j, v) ∷ d) k = if text_eq j k then some v else get d k

unfoldable pub header : HttpRequest → Text → Option Text
unfolding get
header request name = get request.headers (lower name)
