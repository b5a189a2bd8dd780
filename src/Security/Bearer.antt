-- ===== src/Security/Bearer.antt =====
-- `verify_bearer_token` of hub/security.py.
pub mod Laws
use antigravity_webhook_hub.Prelude.{not, Option, none, some, [], ◌∷◌, ◌==◌, if◌then◌else◌}
use antigravity_webhook_hub.Text.{Text, codes, text_eq, is_nil, or_empty, strip, lower, utf8}
use antigravity_webhook_hub.Models.{ValidationResult, reject, accept}

-- `s.split(" ", 1)`: the part before the first space and, if there is one, the part after it.
unfoldable pub split_space : Text → Text × Option Text
split_space [] = ([], none)
split_space (c ∷ s) =
    let (first, rest) = split_space s in if c == b' ' then ([], some s) else (c ∷ first, rest)

unfoldable pub check_token : Text → Text → ValidationResult
check_token expected_token received_token =
    if is_nil received_token
    then reject "missing_bearer_token" 401
    else if is_nil expected_token
    then reject "bearer_token_not_configured" 401
    else if not (text_eq (utf8 expected_token) (utf8 received_token))
    then reject "invalid_bearer_token" 401
    else accept "verified"

unfoldable pub bearer_parts : Text → Text × Option Text → ValidationResult
unfolding check_token
bearer_parts expected_token (scheme, none) = reject "missing_or_malformed_bearer_token" 401
bearer_parts expected_token (scheme, some token) =
    if not (text_eq (lower scheme) (codes "bearer"))
    then reject "missing_or_malformed_bearer_token" 401
    else check_token expected_token (strip token)

unfoldable pub verify_bearer_token : Text → Option Text → ValidationResult
unfolding bearer_parts split_space
verify_bearer_token expected_token auth_header =
    if is_nil (or_empty auth_header)
    then reject "missing_authorization_header" 401
    else bearer_parts expected_token (split_space (strip (or_empty auth_header)))
