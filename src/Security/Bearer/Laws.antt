-- ===== src/Security/Bearer/Laws.antt =====
-- What `verify_bearer_token` of hub/security.py accepts.
use antigravity_webhook_hub.Prelude.{
  ℕ, ◌≡◌, ◌≢◌, refl, true, not, Option, none, some, [], ◌∷◌, ◌++◌, arith, all,
}
use antigravity_webhook_hub.Text.{
  Text, codes, text_eq, text_eq_iff, text_eq_refl, is_space, or_empty, strip, lower, utf8,
  strip-eq_self, strip-trimmed,
}
use antigravity_webhook_hub.Models.{accept}
use antigravity_webhook_hub.Security.Bearer.{
  split_space, check_token, bearer_parts, verify_bearer_token,
}

-- The credentials that an Authorization header carries for `expected`.
pub record Carries (expected authorization : Text) : Type 0 where
  pub scheme : Text
  pub token : Text
  pub split : split_space (strip authorization) ≡ (scheme, some token)
  pub is_bearer : lower scheme ≡ codes "bearer"
  pub same_bytes : utf8 expected ≡ utf8 (strip token)
  pub configured : expected ≢ []
  pub present : strip token ≢ []

check_token-valid :
    (expected token : Text)
    → (check_token expected token).is_valid ≡ true
    → (utf8 expected ≡ utf8 token) × (expected ≢ []) × (token ≢ [])
unfolding check_token
check_token-valid [] [] h = cc
check_token-valid [] (d ∷ t) h = cc
check_token-valid (c ∷ s) [] h = cc
check_token-valid (c ∷ s) (d ∷ t) h = ground (arith, text_eq_iff (utf8 (c ∷ s)) (utf8 (d ∷ t)))

bearer_parts-Carries :
    (expected authorization : Text) (parts : Text × Option Text)
    → split_space (strip authorization) ≡ parts
    → (bearer_parts expected parts).is_valid ≡ true
    → Carries expected authorization
unfolding bearer_parts
bearer_parts-Carries expected authorization (scheme, none) e h = cc
bearer_parts-Carries expected authorization (scheme, some token) e h =
    let (same, configured, present) = check_token-valid expected (strip token) (ground arith) in
    record {
      scheme = scheme;
      token = token;
      split = e;
      is_bearer = ground (arith, text_eq_iff (lower scheme) (codes "bearer"));
      same_bytes = same;
      configured = configured;
      present = present;
    }

-- An Authorization header that is accepted has the scheme bearer, in any case of letters, and a
-- token that is not empty and is equal in UTF-8 to the expected token, which is not empty either.
pub verify_bearer_token-Carries :
    (expected : Text) (auth_header : Option Text)
    → (verify_bearer_token expected auth_header).is_valid ≡ true
    → Carries expected (or_empty auth_header)
unfolding verify_bearer_token
verify_bearer_token-Carries expected auth_header h =
    bearer_parts-Carries expected (or_empty auth_header)
      (split_space (strip (or_empty auth_header))) refl (ground arith)

check_token-accepts :
    (c : ℕ) (token : Text) → check_token (c ∷ token) (c ∷ token) ≡ accept "verified"
unfolding check_token
check_token-accepts c token = rw (text_eq_refl (utf8 (c ∷ token)))

-- The header "Bearer", a space and the token is accepted for every expected token that is not
-- empty and has no white space.
pub verify_bearer_token-accepts :
    (c : ℕ) (token : Text)
    → all (λ d. not (is_space d)) (c ∷ token) ≡ true
    → verify_bearer_token (c ∷ token) (some (codes "Bearer " ++ c ∷ token)) ≡ accept "verified"
unfolding verify_bearer_token
verify_bearer_token-accepts c token h = rw (strip-trimmed b'B' (codes "earer ") c token refl h) (
    unfold lower in
    unfold text_eq in rw (strip-eq_self (c ∷ token) h) (check_token-accepts c token))
