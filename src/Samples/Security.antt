-- ===== src/Samples/Security.antt =====
-- Requests to hub/security.py. The digest is a stand-in of the right shape.
use antigravity_webhook_hub.Prelude.{
  ℕ, ◌+◌, ◌%◌, ◌≤◌, ◌≡◌, ◌↔◌, refl, ap, true, Option, some, List, [], ◌∷◌, length, arith,
}
use antigravity_webhook_hub.Prelude.Int.{ℤ, pos, ◌+ℤ◌, ◌-ℤ◌}
use antigravity_webhook_hub.Text.{
  Text, codes, parse_int, print_int, count_digits, max_digits, parse_int-print_int,
  signed_message_injective, lower, text_eq,
}
use antigravity_webhook_hub.Models.{HttpRequest, ValidationResult, accept, get, header}
use antigravity_webhook_hub.Security.Hmac.{generate_hmac_signature, verify_hmac_signature}
use antigravity_webhook_hub.Security.Hmac.Laws.{
  IsSigned, IsSha256, verify_hmac_signature_iff, verify-generate,
}
use antigravity_webhook_hub.Security.Bearer.{verify_bearer_token}
use antigravity_webhook_hub.Security.Bearer.Laws.{verify_bearer_token-accepts}
use antigravity_webhook_hub.Security.Ingress.{
  SecurityConfig, find_signature, find_timestamp, validate_request_security,
}
use antigravity_webhook_hub.Security.Ingress.Policy.{policy, validate-policy}

abbrev digest : List ℕ → List ℕ → Text
digest key message =
    (b'0' + length message % 10)
    ∷ codes "00000000000000000000000000000000000000000000000000000000000000a"

digest-IsSha256 : IsSha256 digest
digest-IsSha256 = record { long = λ key message. refl; hexadecimal = λ key message. ground arith }

abbrev secret : Text
secret = codes "s3cret"

abbrev body : List ℕ
body = codes "{}"

abbrev now : ℤ
now = pos 1000

few_digits : count_digits (print_int now) ≤ max_digits
few_digits = unfold print_int in omega arith

abbrev signature : Option Text
signature = some (generate_hmac_signature digest secret body now true)

abbrev timestamp : Option Text
timestamp = some (print_int now)

verify-generate_example :
    verify_hmac_signature digest secret body signature timestamp (pos 300) (pos 60) now
    ≡ accept "verified"
unfolding ◌-ℤ◌ ◌+ℤ◌
verify-generate_example =
    verify-generate digest digest-IsSha256 secret body now (pos 300) (pos 60) now true few_digits
      (omega arith) (omega arith)

verify_hmac_signature_iff_example :
    ((verify_hmac_signature digest secret body signature timestamp (pos 300) (pos 60) now).is_valid
      ≡ true)
    ↔ ((t : ℤ) × IsSigned digest secret body signature timestamp (pos 300) (pos 60) now t)
verify_hmac_signature_iff_example =
    verify_hmac_signature_iff digest secret body signature timestamp (pos 300) (pos 60) now

parse_int-print_int_example : parse_int (print_int now) ≡ some now
parse_int-print_int_example = parse_int-print_int now few_digits

signed_message_injective_example : (now ≡ now) × (body ≡ body)
signed_message_injective_example = signed_message_injective now now body body refl

abbrev token : Text
token = codes "tok"

carried : (verify_bearer_token token (some (codes "Bearer tok"))).is_valid ≡ true
carried =
    ap (λ (r : ValidationResult). r.is_valid) (verify_bearer_token-accepts b't' (codes "ok") refl)

-- Mode `any`, and a request signed under the empty key.
abbrev open_config : SecurityConfig
open_config = record {
  auth_mode = codes "any";
  webhook_secret = codes "";
  bearer_token = token;
  signature_header = codes "X-Signature";
  timestamp_header = codes "X-Timestamp";
  timestamp_tolerance_seconds = pos 300;
  future_timestamp_tolerance_seconds = pos 60;
}

abbrev forged : HttpRequest
forged = record {
  path = codes "/hook";
  raw_path = codes "/hook";
  query_params = [];
  headers =
      (codes "x-signature", generate_hmac_signature digest (codes "") body now true)
      ∷ (codes "x-timestamp", print_int now)
      ∷ [];
  body = body;
}

validate-policy_example :
    (validate_request_security digest forged open_config now).is_valid
    ≡ policy digest forged open_config now
validate-policy_example = validate-policy digest forged open_config now

forged_signature :
    find_signature forged open_config
    ≡ some (generate_hmac_signature digest (codes "") body now true)
unfolding find_signature header get lower text_eq generate_hmac_signature
forged_signature = refl

forged_timestamp : find_timestamp forged open_config ≡ some (print_int now)
unfolding find_timestamp header get lower text_eq print_int
forged_timestamp = refl
