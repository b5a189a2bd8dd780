-- ===== src/Watchdog/Delays.antt =====
-- `parse_quota_reset_seconds` (hub/antigravity/watchdog.py) on the messages of the service.
use mathlib.Core.List.{map-append}
use mathlib.Core.Option.{some-injective}
use antigravity_webhook_hub.Prelude.{
  ℕ, ◌+◌, ◌-◌, ◌*◌, ◌<◌, ◌≡◌, ◌≢◌, refl, sym, ap, ◌∙◌, inl, inr, Bool, true, false, not, none, some,
  [], ◌∷◌, ◌++◌, all, arith, Bool-cases, ◌==◌,
}
use antigravity_webhook_hub.Text.{
  Text, codes, lower, lower_char, is_space, is_digit, print_nat, digits-print_nat, print_nat-ne-nil,
  scan-print_nat, scan_digits, starts_with,
}
use antigravity_webhook_hub.Watchdog.Quota.{
  span, is_decimal, of_digits, parse_float, re_search, ended_by, retry_delay_at, groups, resets_at,
  resets_in, or_resets, delay, delay_of, seconds_of, parse_quota_reset_seconds,
}

-- A run ends where the test fails.
span-run :
    (p : ℕ → Bool) (run : Text) (c : ℕ) (rest : Text)
    → all p run ≡ true
    → p c ≡ false
    → span p (run ++ c ∷ rest) ≡ (run, c ∷ rest)
unfolding span
span-run p [] c rest h k = rw k refl
span-run p (d ∷ run) c rest h k = elim (Bool-cases (p d)) [
  | inl e ↦ rw (e, span-run p run c rest (rw e at h) k) refl
  | inr e ↦ absurd (cc (rw e at h))
]

span-all : (p : ℕ → Bool) (run : Text) → all p run ≡ true → span p run ≡ (run, [])
unfolding span
span-all p [] h = refl
span-all p (d ∷ run) h = elim (Bool-cases (p d)) [
  | inl e ↦ rw (e, span-all p run (rw e at h)) refl
  | inr e ↦ absurd (cc (rw e at h))
]

-- Digits are no spaces.
skip_spaces :
    (run rest : Text)
    → all is_digit run ≡ true
    → run ≢ []
    → (span is_space (run ++ rest)).1 ≡ run ++ rest
unfolding span
skip_spaces [] rest h ne = absurd (ne refl)
skip_spaces (d ∷ run) rest h ne =
    let digit : is_digit d ≡ true = ground (arith, h) in
    let no_space : is_space d ≡ false = ground (arith, digit) in rw no_space refl

digits-decimal : (s : Text) → all is_digit s ≡ true → all is_decimal s ≡ true
digits-decimal [] h = refl
digits-decimal (c ∷ s) h = ground (arith, digits-decimal s)

digits-lower : (s : Text) → all is_digit s ≡ true → lower s ≡ s
unfolding lower
digits-lower [] h = refl
digits-lower (c ∷ s) h = elim (Bool-cases (is_digit c)) [
  | inl e ↦
      let same : lower_char c ≡ c = unfold lower_char in ground (arith, e) in
      rw (same, digits-lower s (rw e at h)) refl
  | inr e ↦ absurd (cc (rw e at h))
]

scan-of_digits :
    (a : ℕ) (s : Text) → all is_digit s ≡ true → scan_digits false a s ≡ some (of_digits a s)
unfolding scan_digits
scan-of_digits a [] h = refl
scan-of_digits a (c ∷ s) h = elim (Bool-cases (is_digit c)) [
  | inl e ↦ rw e (scan-of_digits (a * 10 + (c - b'0')) s (rw e at h))
  | inr e ↦ absurd (cc (rw e at h))
]

of_digits-print : (n : ℕ) → of_digits 0 (print_nat n) ≡ n
of_digits-print n =
    some-injective _ _
      (sym (scan-of_digits 0 (print_nat n) (digits-print_nat n)) ∙ scan-print_nat false n)

parse_float-print : (n : ℕ) → parse_float (print_nat n) ≡ some (n * 1000)
unfolding parse_float
parse_float-print n =
    rw (span-all is_digit (print_nat n) (digits-print_nat n))
      (ap (λ k. some (k * 1000)) (of_digits-print n))

ended-run :
    (unit : ℕ) (run rest : Text) → run ≢ [] → ended_by unit (run, unit ∷ rest) ≡ some (run, rest)
ended-run unit [] rest ne = absurd (ne refl)
ended-run unit (c ∷ run) rest ne = ground arith

-- "1h54m13s"
abbrev printed_delay : ℕ → ℕ → ℕ → Text
printed_delay h m s = print_nat h ++ b'h' ∷ (print_nat m ++ b'm' ∷ (print_nat s ++ b's' ∷ []))

groups-printed :
    (h m s : ℕ)
    → groups (printed_delay h m s)
      ≡ record { hours = print_nat h; minutes = print_nat m; seconds = print_nat s }
unfolding groups
groups-printed h m s =
    let last = print_nat s ++ b's' ∷ [] in
    let middle = print_nat m ++ b'm' ∷ last in
    rw (span-run is_digit (print_nat h) b'h' middle (digits-print_nat h) refl) (
      rw (ended-run b'h' (print_nat h) middle (print_nat-ne-nil h)) (
        rw (skip_spaces (print_nat m) (b'm' ∷ last) (digits-print_nat m) (print_nat-ne-nil m)) (
          rw (span-run is_digit (print_nat m) b'm' last (digits-print_nat m) refl) (
            rw (ended-run b'm' (print_nat m) last (print_nat-ne-nil m)) (
              rw (skip_spaces (print_nat s) (b's' ∷ []) (digits-print_nat s) (print_nat-ne-nil s)) (
                rw
                  (span-run is_decimal (print_nat s) b's' []
                    (digits-decimal (print_nat s) (digits-print_nat s)) refl)
                  (rw (ended-run b's' (print_nat s) [] (print_nat-ne-nil s)) refl)))))))

seconds-printed : (n : ℕ) (t : Text) → print_nat n ≡ t → seconds_of t ≡ some (n * 1000)
seconds-printed n [] e = absurd (print_nat-ne-nil n e)
seconds-printed n (c ∷ t) e = ap parse_float (sym e) ∙ parse_float-print n

delay-printed :
    (h m s : ℕ)
    → 0 < h + m + s
    → delay_of (some (record { hours = print_nat h; minutes = print_nat m; seconds = print_nat s }))
      ≡ delay (h * 3600000 + m * 60000 + s * 1000)
delay-printed h m s pos =
    rw (seconds-printed s (print_nat s) refl, of_digits-print h, of_digits-print m) (ground arith)

lower-part :
    (n c : ℕ) (rest : Text)
    → lower (print_nat n ++ c ∷ rest) ≡ print_nat n ++ lower_char c ∷ lower rest
unfolding lower
lower-part n c rest =
    map-append lower_char (print_nat n) (c ∷ rest)
    ∙ ap (λ t. t ++ lower_char c ∷ lower rest) (digits-lower (print_nat n) (digits-print_nat n))

lower-printed : (h m s : ℕ) → lower (printed_delay h m s) ≡ printed_delay h m s
lower-printed h m s =
    lower-part h b'h' _
    ∙ (unfold lower_char in
        ap (λ t. print_nat h ++ b'h' ∷ t)
          (lower-part m b'm' (print_nat s ++ b's' ∷ [])
            ∙ ap (λ t. print_nat m ++ b'm' ∷ t) (lower-part s b's' [] ∙ unfold lower in refl)))

search-resets :
    (printed : Text)
    → (span is_space printed).1 ≡ printed
    → re_search resets_at (codes "resets in " ++ printed) ≡ some (groups printed)
unfolding re_search resets_at starts_with span
search-resets printed e = ap (λ t. some (groups t)) e

resets-printed :
    (h m s : ℕ)
    → 0 < h + m + s
    → resets_in (codes "Resets in " ++ printed_delay h m s)
      ≡ delay (h * 3600000 + m * 60000 + s * 1000)
unfolding resets_in
resets-printed h m s pos =
    let printed = printed_delay h m s in
    let lowered : lower (codes "Resets in " ++ printed) ≡ codes "resets in " ++ printed =
      unfold lower in
      unfold lower_char in ap (λ t. codes "resets in " ++ t) (lower-printed h m s) in
    let spaces =
      skip_spaces (print_nat h) (b'h' ∷ (print_nat m ++ b'm' ∷ (print_nat s ++ b's' ∷ [])))
        (digits-print_nat h) (print_nat-ne-nil h) in
    ap (λ t. delay_of (re_search resets_at t)) lowered
    ∙ ap delay_of (search-resets printed spaces)
    ∙ ap (λ g. delay_of (some g)) (groups-printed h m s)
    ∙ delay-printed h m s pos

abbrev no_r : ℕ → Bool
no_r c = not (c == b'r')

search-no_r : (t : Text) → all no_r t ≡ true → re_search retry_delay_at t ≡ none
unfolding re_search retry_delay_at starts_with
search-no_r [] h = refl
search-no_r (c ∷ t) h = elim (Bool-cases (c == b'r')) [
  | inl e ↦ absurd (cc (rw e at h))
  | inr e ↦ ground (arith, e, h, search-no_r t)
]

digits-no_r :
    (s : Text) (c : ℕ) (rest : Text)
    → all is_digit s ≡ true
    → no_r c ≡ true
    → all no_r rest ≡ true
    → all no_r (s ++ c ∷ rest) ≡ true
digits-no_r [] c rest h k l = ground arith
digits-no_r (d ∷ s) c rest h k l = ground (arith, digits-no_r s c rest)

-- A message `Resets in 1h54m13s`, with any numbers that are not all 0, is read as that time.
parse_quota-printed :
    (h m s : ℕ)
    → 0 < h + m + s
    → parse_quota_reset_seconds (codes "Resets in " ++ printed_delay h m s)
      ≡ delay (h * 3600000 + m * 60000 + s * 1000)
unfolding parse_quota_reset_seconds
parse_quota-printed h m s pos =
    let silent : all no_r (printed_delay h m s) ≡ true =
      digits-no_r (print_nat h) b'h' _ (digits-print_nat h) refl (
        digits-no_r (print_nat m) b'm' _ (digits-print_nat m) refl
          (digits-no_r (print_nat s) b's' [] (digits-print_nat s) refl refl)) in
    let no_retry = search-no_r (codes "Resets in " ++ printed_delay h m s) silent in
    ap (or_resets (codes "Resets in " ++ printed_delay h m s)) no_retry
    ∙ (unfold or_resets in resets-printed h m s pos)
