-- ===== src/Text/Number.antt =====
-- `int(text)`, and an integer formatted in decimal by an f-string.
use mathlib.Core.Option
use antigravity_webhook_hub.Prelude.{
  ℕ, zero, suc, ◌+◌, ◌-◌, ◌*◌, ◌/◌, ◌%◌, Bool, true, false, ◌&&◌, ◌||◌, not, Option, none, some, [],
  ◌∷◌, ◌++◌, length, keep, ltb, leb, ◌==◌, if◌then◌else◌,
}
use antigravity_webhook_hub.Prelude.Int.{ℤ, pos, negsuc}
use antigravity_webhook_hub.Text.Basic.{Text, codes, strip}

abbrev pub is_digit : ℕ → Bool
is_digit c = leb b'0' c && leb c b'9'

-- CPython refuses to convert more digits than this.
abbrev pub max_digits : ℕ
max_digits = 4300

abbrev pub count_digits : Text → ℕ
count_digits s = length (keep is_digit s)

-- Digits with single underscores between them. `open` says that a digit must come next.
unfoldable pub scan_digits : Bool → ℕ → Text → Option ℕ
scan_digits true n [] = none
scan_digits false n [] = some n
scan_digits must n (c ∷ s) =
    let rest = scan_digits (not (is_digit c)) (if is_digit c then n * 10 + (c - b'0') else n) s in
    if is_digit c || not must && c == b'_' then rest else none

unfoldable pub magnitude : Text → Option ℕ
magnitude s = if ltb max_digits (count_digits s) then none else scan_digits true 0 s

abbrev pub negate : ℕ → ℤ
negate zero = pos 0
negate (suc n) = negsuc n

unfoldable pub signed : Text → Option ℤ
signed [] = none
signed (c ∷ s) =
    if c == b'-'
    then Option.map negate (magnitude s)
    else if c == b'+'
    then Option.map pos (magnitude s)
    else Option.map pos (magnitude (c ∷ s))

-- `int(text)`; `none` is the ValueError.
unfoldable pub parse_int : Text → Option ℤ
unfolding signed magnitude scan_digits strip
parse_int s = signed (strip s)

-- The decimal digits of `n`, in front of `acc`; `n + 1` rounds are enough.
unfoldable pub print_digits : ℕ → ℕ → Text → Text
print_digits zero n acc = acc
print_digits (suc fuel) n acc =
    let rest = print_digits fuel (n / 10) ((b'0' + n % 10) ∷ acc) in
    if n / 10 == 0 then (b'0' + n % 10) ∷ acc else rest

unfoldable pub print_nat : ℕ → Text
unfolding print_digits
print_nat n = print_digits (suc n) n []

unfoldable pub print_int : ℤ → Text
unfolding print_nat
print_int (pos n) = print_nat n
print_int (negsuc n) = b'-' ∷ print_nat (suc n)

-- f"{timestamp}." in bytes: the text is ASCII.
unfoldable pub message_prefix : ℤ → Text
message_prefix t = print_int t ++ codes "."
