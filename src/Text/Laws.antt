-- ===== src/Text/Laws.antt =====
-- Round trip of decimal integers, and the signed message can be read back in one way only.
use mathlib.Core.Option
use mathlib.Core.List.{append_assoc}
use antigravity_webhook_hub.Prelude.{
  ℕ, zero, suc, ◌+◌, ◌*◌, ◌/◌, ◌%◌, ◌≤◌, ◌<◌, ◌≡◌, refl, sym, ap, ◌∙◌, ◌≢◌, inl, inr, Bool, true,
  false, not, some, List, [], ◌∷◌, ◌++◌, arith, all, ltb, ◌==◌, ==_iff, Bool-cases,
}
use antigravity_webhook_hub.Prelude.Int.{ℤ, pos, negsuc}
use antigravity_webhook_hub.Text.Basic.{Text, codes, is_space, lstrip, rstrip, strip, starts_with}
use antigravity_webhook_hub.Text.Number.{
  is_digit, max_digits, count_digits, scan_digits, magnitude, signed, parse_int, print_digits,
  print_nat, print_int, message_prefix, negate,
}

abbrev no_space : ℕ → Bool
no_space c = not (is_space c)

lstrip-eq_self : (s : Text) → all no_space s ≡ true → lstrip s ≡ s
unfolding lstrip
lstrip-eq_self [] h = refl
lstrip-eq_self (c ∷ s) h = elim (Bool-cases (is_space c)) [ inl e ↦ cc | inr e ↦ rw e ]

rstrip-eq_self : (s : Text) → all no_space s ≡ true → rstrip s ≡ s
unfolding rstrip
rstrip-eq_self [] h = refl
rstrip-eq_self (c ∷ s) h = elim (Bool-cases (is_space c)) [
  | inl e ↦ cc
  | inr e ↦ rw (e, rstrip-eq_self s (rw e at h))
]

pub strip-eq_self : (s : Text) → all (λ c. not (is_space c)) s ≡ true → strip s ≡ s
unfolding strip
strip-eq_self s h = rw (lstrip-eq_self s h) (rstrip-eq_self s h)

-- A text with no white space at its ends is its own stripped form.
rstrip-trimmed :
    (p : Text) (d : ℕ) (t : Text)
    → all (λ c. not (is_space c)) (d ∷ t) ≡ true
    → rstrip (p ++ d ∷ t) ≡ p ++ d ∷ t
unfolding rstrip
rstrip-trimmed [] d t h = rstrip-eq_self (d ∷ t) h
rstrip-trimmed (c ∷ []) d t h = ground (arith, rstrip-eq_self (d ∷ t) h)
rstrip-trimmed (c ∷ b ∷ p) d t h = ground (arith, rstrip-trimmed (b ∷ p) d t h)

pub strip-trimmed :
    (c : ℕ) (p : Text) (d : ℕ) (t : Text)
    → is_space c ≡ false
    → all (λ e. not (is_space e)) (d ∷ t) ≡ true
    → strip (c ∷ (p ++ d ∷ t)) ≡ c ∷ (p ++ d ∷ t)
unfolding strip lstrip
strip-trimmed c p d t e h = rw e (rstrip-trimmed (c ∷ p) d t h)

pub starts_with-append : (p s : Text) → starts_with p (p ++ s) ≡ true
unfolding starts_with
starts_with-append [] s = refl
starts_with-append (c ∷ p) s = ground (arith, starts_with-append p s)

digit-is_digit : (d : ℕ) → d < 10 → is_digit (b'0' + d) ≡ true
digit-is_digit d h = ground arith

scan-digit :
    (must : Bool) (a d : ℕ) (s : Text)
    → d < 10
    → scan_digits must a ((b'0' + d) ∷ s) ≡ scan_digits false (a * 10 + d) s
unfolding scan_digits
scan-digit true a d s h =
    rw (digit-is_digit d h) (ap (λ k. scan_digits false (a * 10 + k) s) (omega arith))
scan-digit false a d s h =
    rw (digit-is_digit d h) (ap (λ k. scan_digits false (a * 10 + k) s) (omega arith))

scan-print :
    (must : Bool) (fuel n : ℕ) (acc : Text)
    → n < fuel
    → scan_digits must 0 (print_digits fuel n acc) ≡ scan_digits false n acc
unfolding print_digits
scan-print must zero n acc h = elim h [ ]
scan-print must (suc fuel) n acc h = elim (Bool-cases (n / 10 == 0)) [
  | inl e ↦ rw e (
      scan-digit must 0 (n % 10) acc (omega arith)
      ∙ ap (λ k. scan_digits false k acc) (omega (arith, (==_iff (n / 10) 0).0 e)))
  | inr e ↦ rw e (
      scan-print must fuel (n / 10) ((b'0' + n % 10) ∷ acc) (ground arith)
      ∙ scan-digit false (n / 10) (n % 10) acc (omega arith)
      ∙ ap (λ k. scan_digits false k acc) (omega arith))
]

digits-print :
    (fuel n : ℕ) (acc : Text)
    → all is_digit acc ≡ true
    → all is_digit (print_digits fuel n acc) ≡ true
unfolding print_digits
digits-print zero n acc h = h
digits-print (suc fuel) n acc h = elim (Bool-cases (n / 10 == 0)) [
  | inl e ↦ rw (e, digit-is_digit (n % 10) (omega arith)) h
  | inr e ↦ rw e (
      digits-print fuel (n / 10) ((b'0' + n % 10) ∷ acc)
        (rw (digit-is_digit (n % 10) (omega arith)) h))
]

-- `print_nat` by its recursion.
pub scan-print_nat : (must : Bool) (n : ℕ) → scan_digits must 0 (print_nat n) ≡ some n
unfolding print_nat scan_digits
scan-print_nat must n = scan-print must (suc n) n [] (omega arith)

pub digits-print_nat : (n : ℕ) → all is_digit (print_nat n) ≡ true
unfolding print_nat
digits-print_nat n = digits-print (suc n) n [] refl

-- A text of digits is its own stripped form.
digit-no_space : (c : ℕ) → is_digit c ≡ true → no_space c ≡ true
digit-no_space c h = ground arith

digits-no_space : (s : Text) → all is_digit s ≡ true → all no_space s ≡ true
digits-no_space [] h = refl
digits-no_space (c ∷ s) h = elim (Bool-cases (is_digit c)) [
  | inl e ↦ rw (digit-no_space c e) (digits-no_space s (rw e at h))
  | inr e ↦ cc
]

-- The first character of a digit text is no sign.
digit-no_sign : (c : ℕ) → is_digit c ≡ true → ((c == b'-') ≡ false) × ((c == b'+') ≡ false)
digit-no_sign c h = ground arith

signed-digits :
    (s : Text) → all is_digit s ≡ true → s ≢ [] → signed s ≡ Option.map pos (magnitude s)
unfolding signed
signed-digits [] h ne = absurd (ne refl)
signed-digits (c ∷ s) h ne = elim (Bool-cases (is_digit c)) [
  | inl e ↦ rw ((digit-no_sign c e).0, (digit-no_sign c e).1)
  | inr e ↦ cc
]

pub print_nat-ne-nil : (n : ℕ) → print_nat n ≢ []
unfolding scan_digits
print_nat-ne-nil n e = cc (scan-print_nat true n, ap (scan_digits true 0) e)

magnitude-print_nat :
    (n : ℕ) → count_digits (print_nat n) ≤ max_digits → magnitude (print_nat n) ≡ some n
unfolding magnitude
magnitude-print_nat n h = elim (Bool-cases (ltb max_digits (count_digits (print_nat n)))) [
  | inl e ↦ absurd (ground arith)
  | inr e ↦ rw e (scan-print_nat true n)
]

parse_int-eq_signed : (s : Text) → all no_space s ≡ true → parse_int s ≡ signed s
unfolding parse_int
parse_int-eq_signed s h = ap signed (strip-eq_self s h)

-- `int(str(t)) = t`, for every integer that Python converts.
pub parse_int-print_int :
    (t : ℤ) → count_digits (print_int t) ≤ max_digits → parse_int (print_int t) ≡ some t
unfolding print_int
parse_int-print_int (pos n) h =
    parse_int-eq_signed (print_nat n) (digits-no_space (print_nat n) (digits-print_nat n))
    ∙ signed-digits (print_nat n) (digits-print_nat n) (print_nat-ne-nil n)
    ∙ ap (Option.map pos) (magnitude-print_nat n h)
parse_int-print_int (negsuc n) h =
    parse_int-eq_signed (b'-' ∷ print_nat (suc n))
      (digits-no_space (print_nat (suc n)) (digits-print_nat (suc n)))
    ∙ (unfold signed in ap (Option.map negate) (magnitude-print_nat (suc n) h))

print_nat-injective : (m n : ℕ) → print_nat m ≡ print_nat n → m ≡ n
print_nat-injective m n e =
    cc (scan-print_nat true m, scan-print_nat true n, ap (scan_digits true 0) e)

-- A minus sign is no digit, so the sign can be read off.
print_nat-ne-minus : (m : ℕ) (s : Text) → print_nat m ≢ b'-' ∷ s
print_nat-ne-minus m s e = cc (digits-print_nat m, ap (all is_digit) e)

print_int-injective : (t u : ℤ) → print_int t ≡ print_int u → t ≡ u
unfolding print_int
print_int-injective (pos m) (pos n) e = ap pos (print_nat-injective m n e)
print_int-injective (pos m) (negsuc n) e = absurd (print_nat-ne-minus m _ e)
print_int-injective (negsuc m) (pos n) e = absurd (print_nat-ne-minus n _ (sym e))
print_int-injective (negsuc m) (negsuc n) e = cc (print_nat-injective (suc m) (suc n) (cc e))

abbrev no_dot : ℕ → Bool
no_dot c = not (c == b'.')

digits-no_dot : (s : Text) → all is_digit s ≡ true → all no_dot s ≡ true
digits-no_dot [] h = refl
digits-no_dot (c ∷ s) h = ground (arith, digits-no_dot s)

print_int-no_dot : (t : ℤ) → all no_dot (print_int t) ≡ true
unfolding print_int
print_int-no_dot (pos n) = digits-no_dot (print_nat n) (digits-print_nat n)
print_int-no_dot (negsuc n) = digits-no_dot (print_nat (suc n)) (digits-print_nat (suc n))

-- What stands before the first dot is determined.
split_at_dot :
    (s t x y : Text)
    → all no_dot s ≡ true
    → all no_dot t ≡ true
    → s ++ b'.' ∷ x ≡ t ++ b'.' ∷ y
    → (s ≡ t) × (x ≡ y)
split_at_dot [] [] x y hs ht e = (refl, cc e)
split_at_dot [] (d ∷ t) x y hs ht e = ground arith
split_at_dot (c ∷ s) [] x y hs ht e = ground arith
split_at_dot (c ∷ s) (d ∷ t) x y hs ht e = ground (arith, split_at_dot s t x y)

-- The message `f"{timestamp}." + body` determines the timestamp and the body.
pub signed_message_injective :
    (t u : ℤ) (x y : List ℕ) → message_prefix t ++ x ≡ message_prefix u ++ y → (t ≡ u) × (x ≡ y)
unfolding message_prefix
signed_message_injective t u x y e =
    let (prefix, body) =
      split_at_dot (print_int t) (print_int u) x y (print_int-no_dot t) (print_int-no_dot u) (
        sym (append_assoc (print_int t) (codes ".") x)
        ∙ e
        ∙ append_assoc (print_int u) (codes ".") y) in
    (print_int-injective t u prefix, body)
