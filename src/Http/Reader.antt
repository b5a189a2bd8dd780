-- ===== src/Http/Reader.antt =====
-- The part of asyncio.StreamReader that hub/server.py uses, with its limit of 64 KiB. A connection
-- is the bytes that come in time, and what happens behind them: the client closes it or says
-- nothing more until the time is up.
use mathlib.Core.Option
use antigravity_webhook_hub.Prelude.{
  ℕ, ◌+◌, ◌-◌, Option, none, some, List, [], ◌∷◌, length, take, drop, ltb, leb, if◌then◌else◌,
}
use antigravity_webhook_hub.Text.{Text, starts_with}

pub data Silence : Type 0 where
  closed stalled : Silence

pub record Input : Type 0 where
  pub bytes : List ℕ
  pub silence : Silence

-- The bytes read with the input behind them; IncompleteReadError, TimeoutError, LimitOverrunError.
pub data Reading : Type 0 where
  got : List ℕ → Input → Reading
  incomplete timed_out overrun : Reading

abbrev pub limit : ℕ
limit = 65536

abbrev pub ended : Silence → Reading
ended closed = incomplete
ended stalled = timed_out

abbrev pub in_front : ℕ → List ℕ × List ℕ → List ℕ × List ℕ
in_front c (s, t) = (c ∷ s, t)

-- The text up to the end of the first separator, and the rest.
unfoldable pub split_after : Text → List ℕ → Option (List ℕ × List ℕ)
unfolding starts_with
split_after sep [] = none
split_after sep (c ∷ s) =
    let later = Option.map (in_front c) (split_after sep s) in
    if starts_with sep (c ∷ s) then some (sep, drop (length sep) (c ∷ s)) else later

abbrev pub within_limit : ℕ → List ℕ × List ℕ → Silence → Reading
within_limit size (s, t) silence =
    if ltb limit (length s - size) then overrun else got s (record { bytes = t; silence = silence })

abbrev pub found : Text → Input → Option (List ℕ × List ℕ) → Reading
found sep i none = if ltb limit (length i.bytes + 1 - length sep) then overrun else ended i.silence
found sep i (some p) = within_limit (length sep) p i.silence

unfoldable pub read_until : Text → Input → Reading
unfolding split_after
read_until sep i = found sep i (split_after sep i.bytes)

unfoldable pub read_exactly : ℕ → Input → Reading
read_exactly n i =
    if leb n (length i.bytes)
    then got (take n i.bytes) (record i { bytes = drop n i.bytes })
    else ended i.silence
