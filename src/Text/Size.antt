-- ===== src/Text/Size.antt =====
-- How many digits a number has in decimal.
use antigravity_webhook_hub.Prelude.{
  ℕ, zero, suc, ◌+◌, ◌*◌, ◌/◌, ◌%◌, ◌≤◌, ◌<◌, ◌≡◌, Bool, true, [], ◌∷◌, length, keep, ◌==◌, arith,
  Bool-cases, inl, inr,
}
use antigravity_webhook_hub.Text.Basic.{Text}
use antigravity_webhook_hub.Text.Number.{print_digits, print_nat, count_digits, is_digit}

abbrev power_of_ten : ℕ → ℕ
power_of_ten zero = 1
power_of_ten (suc k) = 10 * power_of_ten k

length-keep-le : (p : ℕ → Bool) (s : Text) → length (keep p s) ≤ length s
length-keep-le p [] = omega arith
length-keep-le p (c ∷ s) = ground (arith, length-keep-le p s)

length-print_digits-le :
    (k fuel n : ℕ) (acc : Text)
    → n < 10 * power_of_ten k
    → length (print_digits fuel n acc) ≤ suc k + length acc
unfolding print_digits
length-print_digits-le k zero n acc h = omega arith
length-print_digits-le zero (suc fuel) n acc h =
    let e : (n / 10 == 0) ≡ true = ground arith in rw e (omega arith)
length-print_digits-le (suc k) (suc fuel) n acc h = elim (Bool-cases (n / 10 == 0)) [
  | inl e ↦ rw e (omega arith)
  | inr e ↦
      rw e (
        omega (arith, length-print_digits-le k fuel (n / 10) ((b'0' + n % 10) ∷ acc) (omega arith)))
]

-- 19 digits are enough for what SQLite takes as an id.
pub count_digits-print_nat-le : (n : ℕ) → n < 9223372036854775808 → count_digits (print_nat n) ≤ 19
unfolding print_nat
count_digits-print_nat-le n h = omega (
  arith,
  length-keep-le is_digit (print_digits (suc n) n []),
  length-print_digits-le 18 (suc n) n [] (omega arith),
)
