-- ===== src/Http/Connection/Ends.antt =====
-- A connection comes to its end: every round takes bytes from it.
use antigravity_webhook_hub.Prelude.{◌<◌, Option, length}
use mathlib.Core.Option
use antigravity_webhook_hub.Http.Reader.{Input}
use antigravity_webhook_hub.Http.Head.{Head}
use antigravity_webhook_hub.Http.Connection.{Env, RoundEnd, closes, reads_on}

module _ {S H : Type 0} (env : Env S H) where
  abbrev TakesFrom : Input → RoundEnd S H → Type 0
  TakesFrom i (closes s) = Unit
  TakesFrom i (reads_on rest s) = length rest.bytes < length i.bytes
