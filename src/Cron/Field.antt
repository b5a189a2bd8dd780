-- ===== src/Cron/Field.antt =====
-- `parse_cron_field` of hub/scheduler.py: one field of a cron expression. `none` is the ValueError.
use antigravity_webhook_hub.Prelude.{
  ℕ, zero, suc, ◌+◌, ◌-◌, ◌/◌, Option, none, some, List, [], ◌∷◌, ◌++◌, ◌==◌, if◌then◌else◌,
}
use antigravity_webhook_hub.Prelude.Int.{ℤ, pos, negsuc}
use antigravity_webhook_hub.Text.{
  Text, codes, text_eq, is_nil, is_space, strip, contains, parse_int,
}

-- `s.split(c)` for a character.
abbrev cons_first : ℕ → List Text → List Text
cons_first c [] = (c ∷ []) ∷ []
cons_first c (w ∷ ws) = (c ∷ w) ∷ ws

unfoldable pub split : ℕ → Text → List Text
split at [] = [] ∷ []
split at (c ∷ s) = let rest = split at s in if c == at then [] ∷ rest else cons_first c rest

-- `s.split()`: the runs of characters other than white space. `scan_words` gives the run at the
-- start, which may be empty, and the runs behind it.
abbrev end_word : Text → List Text → List Text
end_word [] ws = ws
end_word (c ∷ w) ws = (c ∷ w) ∷ ws

unfoldable pub scan_words : Text → Text × List Text
scan_words [] = ([], [])
scan_words (c ∷ s) =
    let (word, ws) = scan_words s in if is_space c then ([], end_word word ws) else (c ∷ word, ws)

unfoldable pub words : Text → List Text
unfolding scan_words
words s = let (word, ws) = scan_words s in end_word word ws

-- list(range(start, stop, step)); a step of 0 is a ValueError.
unfoldable pub count_up : ℕ → ℕ → ℕ → List ℕ
count_up zero start step = []
count_up (suc n) start step = start ∷ count_up n (start + step) step

unfoldable pub count_down : ℕ → ℕ → ℕ → List ℕ
count_down zero start step = []
count_down (suc n) start step = start ∷ count_down n (start - step) step

unfoldable pub range : ℕ → ℕ → ℤ → Option (List ℕ)
unfolding count_up count_down
range start stop (pos zero) = none
range start stop (pos (suc k)) = some (count_up ((stop - start + k) / suc k) start (suc k))
range start stop (negsuc k) = some (count_down ((start - stop + k) / suc k) start (suc k))

-- `int(s)` of a text without a minus sign, which is not negative.
abbrev natural : Option ℤ → Option ℕ
natural (some (pos n)) = some n
natural _ = none

abbrev to_nat : Text → Option ℕ
to_nat s = natural (parse_int s)

-- `start, end = map(int, s.split("-"))`
abbrev both : Option ℕ → Option ℕ → Option (ℕ × ℕ)
both (some a) (some b) = some (a, b)
both _ _ = none

abbrev two : List Text → Option (ℕ × ℕ)
two (a ∷ b ∷ []) = both (to_nat a) (to_nat b)
two _ = none

abbrev with_end : Option ℕ → ℕ → Option (ℕ × ℕ)
with_end none max_val = none
with_end (some a) max_val = some (a, max_val)

abbrev bounds : Text → ℕ → ℕ → Option (ℕ × ℕ)
bounds s min_val max_val =
    if text_eq s (codes "*")
    then some (min_val, max_val)
    else if contains (codes "-") s
    then two (split b'-' s)
    else with_end (to_nat s) max_val

abbrev stepped : Option (ℕ × ℕ) → Option ℤ → Option (List ℕ)
stepped (some (a, b)) (some step) = range a (b + 1) step
stepped _ _ = none

-- The part has a slash: `subparts[0]` and `subparts[1]`.
abbrev step_part : List Text → ℕ → ℕ → Option (List ℕ)
step_part (a ∷ n ∷ _) min_val max_val = stepped (bounds a min_val max_val) (parse_int n)
step_part _ min_val max_val = none

abbrev single : Option ℕ → Option (List ℕ)
single none = none
single (some n) = some (n ∷ [])

unfoldable pub parse_part : Text → ℕ → ℕ → Option (List ℕ)
unfolding split range
parse_part part min_val max_val =
    if is_nil part
    then some []
    else if contains (codes "/") part
    then step_part (split b'/' part) min_val max_val
    else if contains (codes "-") part
    then stepped (two (split b'-' part)) (some (pos 1))
    else if text_eq part (codes "*")
    then range min_val (max_val + 1) (pos 1)
    else single (to_nat part)

abbrev joined : Option (List ℕ) → Option (List ℕ) → Option (List ℕ)
joined (some a) (some b) = some (a ++ b)
joined _ _ = none

unfoldable pub parse_parts : List Text → ℕ → ℕ → Option (List ℕ)
unfolding parse_part
parse_parts [] min_val max_val = some []
parse_parts (p ∷ ps) min_val max_val =
    joined (parse_part (strip p) min_val max_val) (parse_parts ps min_val max_val)

-- The set of values, as a list.
unfoldable pub parse_cron_field : Text → ℕ → ℕ → Option (List ℕ)
unfolding parse_parts split
parse_cron_field field min_val max_val = parse_parts (split b',' field) min_val max_val
