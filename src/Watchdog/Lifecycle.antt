-- ===== src/Watchdog/Lifecycle.antt =====
-- The start of the language server as hub/antigravity/watchdog.py follows it:
-- `check_language_server_lifecycle`, what it keeps in the table hub_metadata (hub/db.py), and what
-- `__init__` reads back. The writing and reading of floats are parameters; times are milliseconds.
use antigravity_webhook_hub.Prelude.{
  ℕ, zero, suc, ◌≤◌, ◌≡◌, refl, ap, ◌∙◌, inl, inr, Bool, true, false, not, ◌&&◌, Option, none, some,
  [], ◌∷◌, all, arith, Bool-cases, ltb, ◌==◌, if◌then◌else◌,
}
use antigravity_webhook_hub.Prelude.Int.{ℤ, pos}
use antigravity_webhook_hub.Text.{
  Text, codes, text_eq, is_nil, is_digit, parse_int, print_nat, print_int, parse_int-print_int,
  digits-print_nat, print_nat-ne-nil, count_digits, max_digits,
}

abbrev pub Metadata : Type 0
Metadata = Text → Option Text

-- INSERT ... ON CONFLICT(key) DO UPDATE
abbrev pub set_metadata : Text → Text → Metadata → Metadata
set_metadata key value m k = if text_eq key k then some value else m k

abbrev pub pid_key : Text
pid_key = codes "last_known_ls_pid"

abbrev pub time_key : Text
time_key = codes "ls_restart_time"

-- What the watchdog knows of the server, and the table. The time 0 stands for none.
pub record Server : Type 0 where
  pub last_known_ls_pid : Option ℕ
  pub ls_restart_time : ℕ
  pub metadata : Metadata

pub record FloatTexts : Type 0 where
  pub text : ℕ → Text
  pub read : Text → Option ℕ

-- saved_pid.isdigit() and int(saved_pid): digits alone are no negative number.
abbrev pub natural_of : Option ℤ → Option ℕ
natural_of (some (pos n)) = some n
natural_of _ = none

abbrev pub saved_pid : Option Text → Option ℕ
saved_pid none = none
saved_pid (some t) = if not (is_nil t) && all is_digit t then natural_of (parse_int t) else none

abbrev pub or_zero : Option ℕ → ℕ
or_zero none = 0
or_zero (some n) = n

abbrev pub or_value : Option ℕ → ℕ → ℕ
or_value none n = n
or_value (some zero) n = n
or_value (some (suc m)) n = suc m

module _ (f : FloatTexts) where
  -- `float` on the text; a ValueError, as an empty text, leaves 0.
  abbrev pub saved_time : Option Text → ℕ
  saved_time none = 0
  saved_time (some t) = if is_nil t then 0 else or_zero (f.read t)

  -- The part of `__init__` that reads the table.
  unfoldable pub restore : Metadata → Server
  restore m = record {
    last_known_ls_pid = saved_pid (m pid_key);
    ls_restart_time = saved_time (m time_key);
    metadata = m;
  }

  -- Another pid than the known one: the server has started again.
  unfoldable pub restarted : ℕ → ℕ → Server → Server
  restarted pid time s = record {
    last_known_ls_pid = some pid;
    ls_restart_time = time;
    metadata =
        set_metadata time_key (f.text time) (set_metadata pid_key (print_nat pid) s.metadata);
  }

  -- The first pid.
  unfoldable pub first_seen : ℕ → ℕ → Server → Server
  first_seen pid time s =
      let m = set_metadata pid_key (print_nat pid) s.metadata in
      record {
        last_known_ls_pid = some pid;
        ls_restart_time = time;
        metadata = if ltb 0 time then set_metadata time_key (f.text time) m else m;
      }

  unfoldable pub follow_pid : ℕ → Option ℕ → ℕ → Server → Option ℕ → Bool × Server
  unfolding restarted first_seen
  follow_pid pid start_time now s none = (
    false,
    first_seen pid (if s.ls_restart_time == 0 then or_zero start_time else s.ls_restart_time) s,
  )
  follow_pid pid start_time now s (some old) =
      if pid == old then (false, s) else (true, restarted pid (or_value start_time now) s)

  -- The pid that agentapi reports, as int() reads it; `start_time` is the start of that process, if
  -- `ps` tells it. Was there another start, and what is known now?
  unfoldable pub check_language_server_lifecycle : Option ℕ → Option ℕ → ℕ → Server → Bool × Server
  unfolding follow_pid
  check_language_server_lifecycle none start_time now s = (false, s)
  check_language_server_lifecycle (some pid) start_time now s =
      if ltb 1 pid then follow_pid pid start_time now s s.last_known_ls_pid else (false, s)

  -- A watchdog that is created from the table knows the same.
  pub record IsSaved (s : Server) : Type 0 where
    pub pid : saved_pid (s.metadata pid_key) ≡ s.last_known_ls_pid
    pub time : saved_time (s.metadata time_key) ≡ s.ls_restart_time

-- A float is read back from its own text.
pub record RoundTrips (f : FloatTexts) : Type 0 where
  pub not_empty : (t : ℕ) → is_nil (f.text t) ≡ false
  pub same : (t : ℕ) → f.read (f.text t) ≡ some t

saved_pid-print :
    (n : ℕ) → count_digits (print_nat n) ≤ max_digits → saved_pid (some (print_nat n)) ≡ some n
saved_pid-print n h = elim (Bool-cases (is_nil (print_nat n))) [
  | inl e ↦ absurd (print_nat-ne-nil n (nil-of (print_nat n) e))
  | inr e ↦ rw (e, digits-print_nat n, printed n h)
]
  where
    nil-of : (t : Text) → is_nil t ≡ true → t ≡ []
    nil-of [] h = refl
    nil-of (c ∷ t) h = cc

    printed :
        (n : ℕ) → count_digits (print_nat n) ≤ max_digits → parse_int (print_nat n) ≡ some (pos n)
    printed n h = unfold print_int in parse_int-print_int (pos n) h

module _ (f : FloatTexts) (law : RoundTrips f) (pid : ℕ)
    (short : count_digits (print_nat pid) ≤ max_digits) where
  saved_time-text : (t : ℕ) → saved_time f (some (f.text t)) ≡ t
  saved_time-text t = rw (law.not_empty t, law.same t)

  restarted-IsSaved : (time : ℕ) (s : Server) → IsSaved f (restarted f pid time s)
  unfolding restarted text_eq
  restarted-IsSaved time s = record { pid = saved_pid-print pid short; time = saved_time-text time }

  first_seen-IsSaved :
      (time : ℕ) (s : Server)
      → ((time ≡ 0) → s.ls_restart_time ≡ 0)
      → IsSaved f s
      → IsSaved f (first_seen f pid time s)
  unfolding first_seen text_eq
  first_seen-IsSaved time s h saved = elim (Bool-cases (ltb 0 time)) [
    | inl e ↦ record { pid = rw e (saved_pid-print pid short); time = rw e (saved_time-text time) }
    | inr e ↦ record {
      pid = rw e (saved_pid-print pid short);
      time = rw e (saved.time ∙ ground (arith, h));
    }
  ]

  follow_pid-IsSaved :
      (start_time known : Option ℕ) (now : ℕ) (s : Server)
      → IsSaved f s
      → IsSaved f (follow_pid f pid start_time now s known).1
  unfolding follow_pid
  follow_pid-IsSaved start_time none now s saved =
      first_seen-IsSaved _ s (λ h. ground (arith, h)) saved
  follow_pid-IsSaved start_time (some old) now s saved = elim (Bool-cases (pid == old)) [
    | inl e ↦ rw e saved
    | inr e ↦ rw e (restarted-IsSaved _ s)
  ]

  follow_pid-known :
      (start_time known : Option ℕ) (now : ℕ) (s : Server)
      → s.last_known_ls_pid ≡ known
      → (follow_pid f pid start_time now s known).1.last_known_ls_pid ≡ some pid
  unfolding follow_pid restarted first_seen
  follow_pid-known start_time none now s e = refl
  follow_pid-known start_time (some old) now s e = ground (arith, e)

  -- The pid that is known is no news.
  follow_pid-same :
      (start_time : Option ℕ) (now : ℕ) (s : Server)
      → follow_pid f pid start_time now s (some pid) ≡ (false, s)
  unfolding follow_pid
  follow_pid-same start_time now s = ground arith

-- check_language_server_lifecycle keeps the table and the memory of the watchdog in step: a
-- watchdog that is created from the table afterwards knows the same pid and the same time of the
-- last start. The pid has at most 4300 digits, and floats are read back from their texts.
pub lifecycle-IsSaved :
    (f : FloatTexts) (raw_pid start_time : Option ℕ) (now : ℕ) (s : Server)
    → RoundTrips f
    → count_digits (print_nat (or_zero raw_pid)) ≤ max_digits
    → IsSaved f s
    → IsSaved f (check_language_server_lifecycle f raw_pid start_time now s).1
unfolding check_language_server_lifecycle
lifecycle-IsSaved f none start_time now s law short saved = saved
lifecycle-IsSaved f (some pid) start_time now s law short saved = elim (Bool-cases (ltb 1 pid)) [
  | inl e ↦ rw e (follow_pid-IsSaved f law pid short start_time s.last_known_ls_pid now s saved)
  | inr e ↦ rw e saved
]

restore-pid :
    (f : FloatTexts) (s : Server)
    → IsSaved f s
    → (restore f s.metadata).last_known_ls_pid ≡ s.last_known_ls_pid
unfolding restore
restore-pid f s h = h.pid

-- A start of the server is reported once: after a check that saw a pid, a further check that sees
-- the same pid reports no change and leaves everything as it is, and neither does a check by a
-- watchdog that is created from the table report one, as after a restart of the hub. The table and
-- the memory agreed before, the pid has at most 4300 digits, and floats are read back from their
-- texts.
pub restart-reported_once :
    (f : FloatTexts) (raw_pid start_time start_time' : Option ℕ) (now later : ℕ) (s : Server)
    → RoundTrips f
    → count_digits (print_nat (or_zero raw_pid)) ≤ max_digits
    → IsSaved f s
    → let after = (check_language_server_lifecycle f raw_pid start_time now s).1 in
      (check_language_server_lifecycle f raw_pid start_time' later after ≡ (false, after))
      × ((check_language_server_lifecycle f raw_pid start_time' later (restore f after.metadata)).0
          ≡ false)
unfolding check_language_server_lifecycle
restart-reported_once f none start_time start_time' now later s law short saved = (refl, refl)
restart-reported_once f (some pid) start_time start_time' now later s law short saved =
    elim (Bool-cases (ltb 1 pid)) [
      | inl e ↦
          let after = (follow_pid f pid start_time now s s.last_known_ls_pid).1 in
          let known = follow_pid-known f law pid short start_time s.last_known_ls_pid now s refl in
          let kept =
            follow_pid-IsSaved f law pid short start_time s.last_known_ls_pid now s saved in
          rw e (
            ap (follow_pid f pid start_time' later after) known
                ∙ follow_pid-same f law pid short start_time' later after,
            ap (λ k. (follow_pid f pid start_time' later (restore f after.metadata) k).0)
                  (restore-pid f after kept ∙ known)
                ∙ ap (λ r. r.0)
                    (follow_pid-same f law pid short start_time' later (restore f after.metadata)),
          )
      | inr e ↦ rw e (refl, refl)
    ]
