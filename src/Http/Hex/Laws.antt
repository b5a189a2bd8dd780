-- ===== src/Http/Hex/Laws.antt =====
-- `int(f"{n:X}", 16)` is `n`.
use mathlib.Core.Option
use mathlib.Core.List.{append-nil}
use antigravity_webhook_hub.Prelude.{
  ℕ, zero, suc, ◌+◌, ◌*◌, ◌/◌, ◌%◌, ◌≤◌, ◌<◌, ◌≡◌, ◌≢◌, refl, sym, ap, ◌∙◌, Bool, true, false, ◌||◌,
  some, List, [], ◌∷◌, ◌++◌, length, all, ◌==◌, arith, Bool-cases, inl, inr, ==_iff,
}
use antigravity_webhook_hub.Prelude.Int.{pos}
use antigravity_webhook_hub.Http.Hex.{
  is_blank, lstrip_bytes, rstrip_bytes, strip_bytes, is_hex_digit, hex_value, scan_hex,
  hex_magnitude, signed_hex, parse_hex, hex_digit, print_hex_digits, print_hex,
}

hex_digit-is_hex_digit : (d : ℕ) → d < 16 → is_hex_digit (hex_digit d) ≡ true
hex_digit-is_hex_digit d h = ground arith

hex_value-hex_digit : (d : ℕ) → d < 16 → hex_value (hex_digit d) ≡ d
hex_value-hex_digit d h = ground arith

scan_hex-digit :
    (must : Bool) (a d : ℕ) (s : List ℕ)
    → d < 16
    → scan_hex must a (hex_digit d ∷ s) ≡ scan_hex false (a * 16 + d) s
unfolding scan_hex
scan_hex-digit true a d s h = rw (hex_digit-is_hex_digit d h, hex_value-hex_digit d h) refl
scan_hex-digit false a d s h = rw (hex_digit-is_hex_digit d h, hex_value-hex_digit d h) refl

scan_hex-print :
    (must : Bool) (fuel n : ℕ) (acc : List ℕ)
    → n < fuel
    → scan_hex must 0 (print_hex_digits fuel n acc) ≡ scan_hex false n acc
unfolding print_hex_digits
scan_hex-print must zero n acc h = elim h [ ]
scan_hex-print must (suc fuel) n acc h = elim (Bool-cases (n / 16 == 0)) [
  | inl e ↦ rw e (
      scan_hex-digit must 0 (n % 16) acc (omega arith)
      ∙ ap (λ k. scan_hex false k acc) (omega (arith, (==_iff (n / 16) 0).0 e)))
  | inr e ↦ rw e (
      scan_hex-print must fuel (n / 16) (hex_digit (n % 16) ∷ acc) (ground arith)
      ∙ scan_hex-digit false (n / 16) (n % 16) acc (omega arith)
      ∙ ap (λ k. scan_hex false k acc) (omega arith))
]

scan_hex-print_hex : (n : ℕ) → scan_hex true 0 (print_hex n) ≡ some n
unfolding print_hex scan_hex
scan_hex-print_hex n = scan_hex-print true (suc n) n [] (omega arith)

digits-print :
    (fuel n : ℕ) (acc : List ℕ)
    → all is_hex_digit acc ≡ true
    → all is_hex_digit (print_hex_digits fuel n acc) ≡ true
unfolding print_hex_digits
digits-print zero n acc h = h
digits-print (suc fuel) n acc h = elim (Bool-cases (n / 16 == 0)) [
  | inl e ↦ rw (e, hex_digit-is_hex_digit (n % 16) (omega arith)) h
  | inr e ↦ rw e (
      digits-print fuel (n / 16) (hex_digit (n % 16) ∷ acc)
        (rw (hex_digit-is_hex_digit (n % 16) (omega arith)) h))
]

pub all-print_hex : (n : ℕ) → all is_hex_digit (print_hex n) ≡ true
unfolding print_hex
all-print_hex n = digits-print (suc n) n [] refl

pub print_hex-ne-nil : (n : ℕ) → print_hex n ≢ []
unfolding scan_hex
print_hex-ne-nil n e = cc (scan_hex-print_hex n, ap (scan_hex true 0) e)

-- How long they are.
abbrev power_of_sixteen : ℕ → ℕ
power_of_sixteen zero = 1
power_of_sixteen (suc k) = 16 * power_of_sixteen k

length-print_hex_digits-le :
    (k fuel n : ℕ) (acc : List ℕ)
    → n < 16 * power_of_sixteen k
    → length (print_hex_digits fuel n acc) ≤ suc k + length acc
unfolding print_hex_digits
length-print_hex_digits-le k zero n acc h = omega arith
length-print_hex_digits-le zero (suc fuel) n acc h =
    let e : (n / 16 == 0) ≡ true = ground arith in rw e (omega arith)
length-print_hex_digits-le (suc k) (suc fuel) n acc h = elim (Bool-cases (n / 16 == 0)) [
  | inl e ↦ rw e (omega arith)
  | inr e ↦ rw e (
      omega (
        arith,
        length-print_hex_digits-le k fuel (n / 16) (hex_digit (n % 16) ∷ acc) (omega arith),
      ))
]

pub length-print_hex-le : (n : ℕ) → n < 18446744073709551616 → length (print_hex n) ≤ 16
unfolding print_hex
length-print_hex-le n h = length-print_hex_digits-le 15 (suc n) n [] (omega arith)

-- White space round digits.
hex_digit-no_blank : (c : ℕ) → is_hex_digit c ≡ true → is_blank c ≡ false
hex_digit-no_blank c h = ground arith

all-tail : (c : ℕ) (s : List ℕ) → all is_hex_digit (c ∷ s) ≡ true → all is_hex_digit s ≡ true
all-tail c s h = ground arith

rstrip-digits :
    (s blank : List ℕ)
    → all is_hex_digit s ≡ true
    → rstrip_bytes blank ≡ []
    → rstrip_bytes (s ++ blank) ≡ s
unfolding rstrip_bytes
rstrip-digits [] blank h e = e
rstrip-digits (c ∷ s) blank h e =
    rw (hex_digit-no_blank c (ground arith), rstrip-digits s blank (all-tail c s h) e) refl

pub strip-digits :
    (s blank : List ℕ)
    → all is_hex_digit s ≡ true
    → s ≢ []
    → rstrip_bytes blank ≡ []
    → strip_bytes (s ++ blank) ≡ s
unfolding strip_bytes lstrip_bytes
strip-digits [] blank h ne e = absurd (ne refl)
strip-digits (c ∷ s) blank h ne e =
    rw (hex_digit-no_blank c (ground arith)) (rstrip-digits (c ∷ s) blank h e)

hex_digit-no_sign :
    (c : ℕ)
    → is_hex_digit c ≡ true
    → ((c == b'-') ≡ false) × ((c == b'+') ≡ false) × ((c == b'x' || c == b'X') ≡ false)
hex_digit-no_sign c h = (ground arith, ground arith, ground arith)

magnitude-digits :
    (s : List ℕ) → all is_hex_digit s ≡ true → s ≢ [] → hex_magnitude s ≡ scan_hex true 0 s
unfolding hex_magnitude
magnitude-digits [] h ne = absurd (ne refl)
magnitude-digits (c ∷ []) h ne = refl
magnitude-digits (c ∷ d ∷ s) h ne = elim (Bool-cases (c == b'0')) [
  | inl e ↦ rw (e, (hex_digit-no_sign d (ground arith)).2) refl
  | inr e ↦ rw e refl
]

signed-digits :
    (s : List ℕ)
    → all is_hex_digit s ≡ true
    → s ≢ []
    → signed_hex s ≡ Option.map pos (hex_magnitude s)
unfolding signed_hex
signed-digits [] h ne = absurd (ne refl)
signed-digits (c ∷ s) h ne =
    let no_sign = hex_digit-no_sign c (ground arith) in rw (no_sign.0, no_sign.1) refl

pub parse_hex-print_hex : (n : ℕ) → parse_hex (print_hex n) ≡ some (pos n)
unfolding parse_hex
parse_hex-print_hex n =
    let digits = all-print_hex n in
    let ne = print_hex-ne-nil n in
    ap signed_hex (
      ap strip_bytes (sym (append-nil (print_hex n)))
      ∙ strip-digits (print_hex n) [] digits ne (unfold rstrip_bytes in refl))
    ∙ signed-digits (print_hex n) digits ne
    ∙ ap (Option.map pos) (magnitude-digits (print_hex n) digits ne ∙ scan_hex-print_hex n)
