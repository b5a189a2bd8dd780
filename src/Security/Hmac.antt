-- ===== src/Security/Hmac.antt =====
-- `generate_hmac_signature` and `verify_hmac_signature` of hub/security.py.
pub mod Laws
use antigravity_webhook_hub.Prelude.{
  ℕ, Bool, true, false, not, ◌&&◌, ◌||◌, Option, none, some, List, ◌++◌, length, drop, all, leb,
  ◌==◌, if◌then◌else◌,
}
use antigravity_webhook_hub.Prelude.Int.{ℤ, ltb_ℤ, ◌+ℤ◌, ◌-ℤ◌}
use antigravity_webhook_hub.Text.{
  Text, codes, text_eq, is_nil, or_empty, strip, lower, starts_with, utf8, parse_int,
  message_prefix,
}
use antigravity_webhook_hub.Models.{ValidationResult, reject, accept}

-- c in "0123456789abcdefABCDEF"
abbrev pub is_hex : ℕ → Bool
is_hex c = leb b'0' c && leb c b'9' || leb b'a' c && leb c b'f' || leb b'A' c && leb c b'F'

-- Step 4: the signature without its prefix.
unfoldable pub clean_signature : Text → Text
clean_signature header =
    let received_sig = strip header in
    if starts_with (codes "sha256=") (lower received_sig) then drop 7 received_sig else received_sig

-- `digest` is `_hmac_sha256_hex(key, message)`.
module _ (digest : List ℕ → List ℕ → Text) where
  unfoldable pub generate_hmac_signature : Text → List ℕ → ℤ → Bool → Text
  generate_hmac_signature secret raw_body timestamp include_prefix =
      let d = digest (utf8 secret) (message_prefix timestamp ++ raw_body) in
      if include_prefix then codes "sha256=" ++ d else d

  -- Steps 4 to 6, for a timestamp inside the window.
  unfoldable pub check_signature : Text → List ℕ → Text → ℤ → ValidationResult
  check_signature secret raw_body header req_timestamp =
      let received_sig = clean_signature header in
      if not (length received_sig == 64) || not (all is_hex received_sig)
      then reject "invalid_signature_format" 401
      else if not (
          text_eq (lower (digest (utf8 secret) (message_prefix req_timestamp ++ raw_body)))
            (lower received_sig))
      then reject "signature_mismatch" 401
      else accept "verified"

  -- Steps 2 and 3: the window around the current time.
  unfoldable pub check_window : Text → List ℕ → Text → ℤ → ℤ → ℤ → ℤ → ValidationResult
  check_window secret raw_body header tolerance future_tolerance now req_timestamp =
      if ltb_ℤ req_timestamp (now -ℤ tolerance)
      then reject "timestamp_expired" 401
      else if ltb_ℤ (now +ℤ future_tolerance) req_timestamp
      then reject "timestamp_in_future" 401
      else check_signature secret raw_body header req_timestamp

  unfoldable pub verify_hmac_signature :
      Text → List ℕ → Option Text → Option Text → ℤ → ℤ → ℤ → ValidationResult
  verify_hmac_signature secret raw_body signature_header timestamp_header tolerance future_tolerance
        now =
      if is_nil (or_empty signature_header) || is_nil (or_empty timestamp_header)
      then reject "missing_security_headers" 401
      else (elim (parse_int (or_empty timestamp_header)) [
        | none ↦ reject "invalid_timestamp_format" 401
        | some t ↦
            check_window secret raw_body (or_empty signature_header) tolerance future_tolerance now
              t
      ])
