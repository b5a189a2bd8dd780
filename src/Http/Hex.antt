-- ===== src/Http/Hex.antt =====
-- `int(size, 16)` of hub/server.py on bytes, and the format `X`.
pub mod Laws
use mathlib.Core.Option
use antigravity_webhook_hub.Prelude.{
  ℕ, zero, suc, ◌+◌, ◌-◌, ◌*◌, ◌/◌, ◌%◌, Bool, true, false, not, ◌&&◌, ◌||◌, Option, none, some,
  List, [], ◌∷◌, ltb, leb, ◌==◌, if◌then◌else◌,
}
use antigravity_webhook_hub.Prelude.Int.{ℤ, pos, negsuc}
use antigravity_webhook_hub.Text.{Text, is_nil}

-- The bytes that `bytes.strip` and `int` take for white space.
abbrev pub is_blank : ℕ → Bool
is_blank c = leb 9 c && leb c 13 || c == 32

unfoldable pub lstrip_bytes : List ℕ → List ℕ
lstrip_bytes [] = []
lstrip_bytes (c ∷ s) = let rest = lstrip_bytes s in if is_blank c then rest else c ∷ s

unfoldable pub rstrip_bytes : List ℕ → List ℕ
rstrip_bytes [] = []
rstrip_bytes (c ∷ s) =
    let rest = rstrip_bytes s in if is_blank c && is_nil rest then [] else c ∷ rest

unfoldable pub strip_bytes : List ℕ → List ℕ
unfolding lstrip_bytes rstrip_bytes
strip_bytes s = rstrip_bytes (lstrip_bytes s)

abbrev pub is_hex_digit : ℕ → Bool
is_hex_digit c = leb b'0' c && leb c b'9' || leb b'A' c && leb c b'F' || leb b'a' c && leb c b'f'

abbrev pub hex_value : ℕ → ℕ
hex_value c = if leb c b'9' then c - b'0' else if leb c b'F' then c - b'A' + 10 else c - b'a' + 10

-- Digits with single underscores between them. `must` says that a digit has to come next.
unfoldable pub scan_hex : Bool → ℕ → List ℕ → Option ℕ
scan_hex true n [] = none
scan_hex false n [] = some n
scan_hex must n (c ∷ s) =
    let rest =
      scan_hex (not (is_hex_digit c)) (if is_hex_digit c then n * 16 + hex_value c else n) s in
    if is_hex_digit c || not must && c == b'_' then rest else none

-- Behind the prefix one underscore may stand.
abbrev after_prefix : List ℕ → Option ℕ
after_prefix [] = none
after_prefix (c ∷ s) = if c == b'_' then scan_hex true 0 s else scan_hex true 0 (c ∷ s)

unfoldable pub hex_magnitude : List ℕ → Option ℕ
unfolding scan_hex
hex_magnitude [] = none
hex_magnitude (c ∷ []) = scan_hex true 0 (c ∷ [])
hex_magnitude (c ∷ d ∷ s) =
    if c == b'0' && (d == b'x' || d == b'X') then after_prefix s else scan_hex true 0 (c ∷ d ∷ s)

abbrev pub negated : ℕ → ℤ
negated zero = pos 0
negated (suc n) = negsuc n

unfoldable pub signed_hex : List ℕ → Option ℤ
unfolding hex_magnitude
signed_hex [] = none
signed_hex (c ∷ s) =
    if c == b'-'
    then Option.map negated (hex_magnitude s)
    else if c == b'+'
    then Option.map pos (hex_magnitude s)
    else Option.map pos (hex_magnitude (c ∷ s))

-- `int(text, 16)`; `none` is the ValueError.
unfoldable pub parse_hex : List ℕ → Option ℤ
unfolding signed_hex strip_bytes
parse_hex s = signed_hex (strip_bytes s)

abbrev pub hex_digit : ℕ → ℕ
hex_digit d = if ltb d 10 then b'0' + d else b'A' + (d - 10)

-- The digits of `n` in front of `acc`; `n + 1` rounds are enough.
unfoldable pub print_hex_digits : ℕ → ℕ → List ℕ → List ℕ
print_hex_digits zero n acc = acc
print_hex_digits (suc fuel) n acc =
    let rest = print_hex_digits fuel (n / 16) (hex_digit (n % 16) ∷ acc) in
    if n / 16 == 0 then hex_digit (n % 16) ∷ acc else rest

-- f"{n:X}"
unfoldable pub print_hex : ℕ → List ℕ
unfolding print_hex_digits
print_hex n = print_hex_digits (suc n) n []
