-- ===== src/Watchdog/Quota.antt =====
-- `parse_quota_reset_seconds` of hub/antigravity/watchdog.py: how long an error message says that
-- the quota is used up, in milliseconds, rounded up. The two regular expressions are matched by hand: where a
-- class of characters ends is clear from the next one, so that no match is tried twice. Digits and
-- letters are those of ASCII.
use mathlib.Core.Option
use antigravity_webhook_hub.Prelude.{
  ℕ, ◌+◌, ◌-◌, ◌*◌, Bool, not, ◌&&◌, ◌||◌, Option, none, some, [], ◌∷◌, drop, any, ltb, ◌==◌,
  if◌then◌else◌,
}
use antigravity_webhook_hub.Text.{Text, codes, lower, starts_with, is_nil, is_space, is_digit}

-- The longest prefix of characters that pass the test, and the rest.
unfoldable pub span : (ℕ → Bool) → Text → Text × Text
span p [] = ([], [])
span p (c ∷ s) = let (run, rest) = span p s in if p c then (c ∷ run, rest) else ([], c ∷ s)

-- ["\s:] and [0-9\.]
abbrev pub is_separator : ℕ → Bool
is_separator c = c == 34 || is_space c || c == b':'

abbrev pub is_decimal : ℕ → Bool
is_decimal c = is_digit c || c == b'.'

abbrev pub of_digits : ℕ → Text → ℕ
of_digits n [] = n
of_digits n (c ∷ s) = of_digits (n * 10 + (c - b'0')) s

-- The digits behind the point, filled up to three, or rounded up to a millisecond, so that a delay
-- that is not zero stays so.
abbrev pub thousandths : Text → ℕ
thousandths (a ∷ b ∷ c ∷ s) =
    of_digits 0 (a ∷ b ∷ c ∷ []) + (if any (λ d. not (d == b'0')) s then 1 else 0)
thousandths (a ∷ b ∷ []) = of_digits 0 (a ∷ b ∷ []) * 10
thousandths (a ∷ []) = of_digits 0 (a ∷ []) * 100
thousandths [] = 0

-- What follows the whole part: nothing, or a point and digits.
abbrev pub with_fraction : Text → Text → Option ℕ
with_fraction whole [] = some (of_digits 0 whole * 1000)
with_fraction whole (point ∷ fraction) =
    if is_nil whole && is_nil fraction || not (is_nil (span is_digit fraction).1)
    then none
    else some (of_digits 0 whole * 1000 + thousandths fraction)

-- float(text) * 1000 on a text of digits and points, without the overflow to inf at some 308
-- digits; `none` is the ValueError.
unfoldable pub parse_float : Text → Option ℕ
unfolding span
parse_float s = let (whole, rest) = span is_digit s in with_fraction whole rest

-- re.search: the first place at which the pattern matches.
unfoldable pub re_search {ℓ} : {A : Type ℓ} → (Text → Option A) → Text → Option A
re_search at [] = at []
re_search at (c ∷ s) = elim (at (c ∷ s)) [ none ↦ re_search at s | some a ↦ some a ]

abbrev pub ended_by : ℕ → Text × Text → Option (Text × Text)
ended_by c (run, []) = none
ended_by c (run, (d ∷ rest)) = if not (is_nil run) && d == c then some (run, rest) else none

abbrev pub fst_of : Text × Text → Text
fst_of p = p.0

-- retryDelay["\s:]+([0-9\.]+)s
unfoldable pub retry_delay_at : Text → Option Text
unfolding span
retry_delay_at s =
    let (separators, rest) = span is_separator (drop 10 s) in
    if starts_with (codes "retryDelay") s && not (is_nil separators)
    then Option.map fst_of (ended_by b's' (span is_decimal rest))
    else none

-- An optional group: a run of the class in front of its unit, or nothing.
abbrev pub or_nothing : Text → Option (Text × Text) → Text × Text
or_nothing s none = ([], s)
or_nothing s (some m) = m

pub record Groups : Type 0 where
  pub hours : Text
  pub minutes : Text
  pub seconds : Text

unfoldable pub groups : Text → Groups
unfolding span
groups s =
    let (hours, s1) = or_nothing s (ended_by b'h' (span is_digit s)) in
    let s1' = (span is_space s1).1 in
    let (minutes, s2) = or_nothing s1' (ended_by b'm' (span is_digit s1')) in
    let s2' = (span is_space s2).1 in
    let (seconds, s3) = or_nothing s2' (ended_by b's' (span is_decimal s2')) in
    record { hours = hours; minutes = minutes; seconds = seconds }

-- (?:Resets in|quotaResetDelay["\s:]+)\s*..., on lowered text.
unfoldable pub resets_at : Text → Option Groups
unfolding span groups
resets_at s =
    let (separators, rest) = span is_separator (drop 15 s) in
    if starts_with (codes "resets in") s
    then some (groups (span is_space (drop 9 s)).1)
    else if starts_with (codes "quotaresetdelay") s && not (is_nil separators)
    then some (groups (span is_space rest).1)
    else none

pub data Delay : Type 0 where
  delay : ℕ → Delay
  no_delay : Delay
  value_error : Text → Delay

abbrev pub positive : ℕ → Delay
positive total = if ltb 0 total then delay total else no_delay

-- The hours and the minutes are digits alone; the seconds may not be a number.
abbrev pub seconds_of : Text → Option ℕ
seconds_of [] = some 0
seconds_of (c ∷ s) = parse_float (c ∷ s)

abbrev pub total_of : Groups → Option ℕ → Delay
total_of g none = value_error g.seconds
total_of g (some ms) = positive (of_digits 0 g.hours * 3600000 + of_digits 0 g.minutes * 60000 + ms)

abbrev pub delay_of : Option Groups → Delay
delay_of none = no_delay
delay_of (some g) = total_of g (seconds_of g.seconds)

unfoldable pub resets_in : Text → Delay
unfolding re_search resets_at parse_float
resets_in text = delay_of (re_search resets_at (lower text))

-- The first expression, unless its number is a ValueError.
unfoldable pub or_resets : Text → Option Text → Delay
unfolding resets_in
or_resets text none = resets_in text
or_resets text (some number) = elim (parse_float number) [
  | none ↦ resets_in text
  | some ms ↦ delay ms
]

unfoldable pub parse_quota_reset_seconds : Text → Delay
unfolding or_resets retry_delay_at
parse_quota_reset_seconds text = or_resets text (re_search retry_delay_at text)
