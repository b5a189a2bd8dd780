-- ===== src/Security/Hmac/Laws.antt =====
-- What `verify_hmac_signature` of hub/security.py accepts.
use native.Mathlib.Decide.{ℕ_discrete}
use antigravity_webhook_hub.Prelude.{
  ℕ, ◌≡◌, ◌↔◌, ◌≤◌, ◌≢◌, ◌⊎◌, ◌∙◌, [], ◌∷◌, not, drop, if◌then◌else◌, ◌&&◌, ◌||◌, leb, refl, ap,
  sym, Bool, true, false, inl, inr, Option-cases, Option, some, List, ◌++◌, length, all, arith,
}
use antigravity_webhook_hub.Prelude.Int.{ℤ, ◌≤ℤ◌, ◌+ℤ◌, ◌-ℤ◌}
use antigravity_webhook_hub.Text.{
  Text, text_eq_iff, is_nil, or_empty, strip, lower, utf8, parse_int, print_int, starts_with, codes,
  is_space, strip-eq_self, count_digits, max_digits, parse_int-print_int, signed_message_injective,
  message_prefix,
}
use antigravity_webhook_hub.Models.{accept}
use antigravity_webhook_hub.Security.Hmac.{
  is_hex, generate_hmac_signature, clean_signature, check_signature, check_window,
  verify_hmac_signature,
}

abbrev is_lower_hex : ℕ → Bool
is_lower_hex c = leb b'0' c && leb c b'9' || leb b'a' c && leb c b'f'

dec_bytes : Discrete (List ℕ)
dec_bytes = hlevel ℕ_discrete

module _ (digest : List ℕ → List ℕ → Text) (secret : Text) (body : List ℕ) where
  -- The timestamp that a request is signed for, and that it lies in the window.
  pub record IsSigned (sig ts : Option Text) (tolerance future now t : ℤ) : Type 0 where
    pub parsed : parse_int (or_empty ts) ≡ some t
    pub not_expired : (now -ℤ tolerance) ≤ℤ t
    pub not_in_future : t ≤ℤ (now +ℤ future)
    pub long : length (clean_signature (or_empty sig)) ≡ 64
    pub hexadecimal : all is_hex (clean_signature (or_empty sig)) ≡ true
    pub matches :
        lower (digest (utf8 secret) (message_prefix t ++ body))
        ≡ lower (clean_signature (or_empty sig))

  check_signature-valid :
      (header : Text) (t : ℤ)
      → (check_signature digest secret body header t).is_valid ≡ true
      → (length (clean_signature header) ≡ 64)
        × (all is_hex (clean_signature header) ≡ true)
        × (lower (digest (utf8 secret) (message_prefix t ++ body)) ≡ lower (clean_signature header))
  unfolding check_signature
  check_signature-valid header t h = ground (
    arith,
    text_eq_iff (lower (digest (utf8 secret) (message_prefix t ++ body)))
        (lower (clean_signature header)),
  )

  check_window-valid :
      (sig ts : Option Text) (tolerance future now t : ℤ)
      → parse_int (or_empty ts) ≡ some t
      → (check_window digest secret body (or_empty sig) tolerance future now t).is_valid ≡ true
      → IsSigned sig ts tolerance future now t
  unfolding check_window
  check_window-valid sig ts tolerance future now t p h =
      ground (arith, check_signature-valid (or_empty sig) t)

  -- A request that verify_hmac_signature accepts has a timestamp that int() reads, inside the
  -- window, and a signature of 64 hexadecimal digits that is, up to the case of letters, the
  -- digest of the timestamp and the body under the secret.
  pub verify_hmac_signature-IsSigned :
      (sig ts : Option Text) (tolerance future now : ℤ)
      → (verify_hmac_signature digest secret body sig ts tolerance future now).is_valid ≡ true
      → (t : ℤ) × IsSigned sig ts tolerance future now t
  unfolding verify_hmac_signature
  verify_hmac_signature-IsSigned sig ts tolerance future now h =
      elim (Option-cases (parse_int (or_empty ts))) [
        | inl e ↦ absurd (ground arith)
        | inr (t, e) ↦ (t, check_window-valid sig ts tolerance future now t e (ground arith))
      ]

  check_signature-of_IsSigned :
      (sig ts : Option Text) (tolerance future now t : ℤ)
      → IsSigned sig ts tolerance future now t
      → check_signature digest secret body (or_empty sig) t ≡ accept "verified"
  unfolding check_signature
  check_signature-of_IsSigned sig ts tolerance future now t s = ground (
    arith,
    text_eq_iff (lower (digest (utf8 secret) (message_prefix t ++ body)))
        (lower (clean_signature (or_empty sig))),
  )

  IsSigned-signature :
      (header : Text) → length (clean_signature header) ≡ 64 → is_nil header ≡ false
  unfolding clean_signature strip starts_with lower
  IsSigned-signature [] h = absurd (omega arith)
  IsSigned-signature (c ∷ header) h = refl

  IsSigned-timestamp : (header : Text) {t : ℤ} → parse_int header ≡ some t → is_nil header ≡ false
  unfolding parse_int
  IsSigned-timestamp [] h = cc
  IsSigned-timestamp (c ∷ header) h = refl

  -- Every request is accepted whose timestamp int() reads, inside the window, and whose signature
  -- is 64 hexadecimal digits that are, up to the case of letters, the digest of the timestamp and
  -- the body under the secret.
  pub IsSigned-verify_hmac_signature :
      (sig ts : Option Text) (tolerance future now t : ℤ)
      → IsSigned sig ts tolerance future now t
      → verify_hmac_signature digest secret body sig ts tolerance future now ≡ accept "verified"
  unfolding verify_hmac_signature check_window
  IsSigned-verify_hmac_signature sig ts tolerance future now t s = ground (
    arith,
    IsSigned-signature (or_empty sig) s.long,
    IsSigned-timestamp (or_empty ts) s.parsed,
    check_signature-of_IsSigned sig ts tolerance future now t s,
  )

  -- verify_hmac_signature accepts a request exactly if its timestamp is one that int() reads,
  -- inside the window, and its signature is 64 hexadecimal digits that are, up to the case of
  -- letters, the digest of the timestamp and the body under the secret.
  pub verify_hmac_signature_iff :
      (sig ts : Option Text) (tolerance future now : ℤ)
      → ((verify_hmac_signature digest secret body sig ts tolerance future now).is_valid ≡ true)
        ↔ ((t : ℤ) × IsSigned sig ts tolerance future now t)
  verify_hmac_signature_iff sig ts tolerance future now = (
    verify_hmac_signature-IsSigned sig ts tolerance future now,
    λ signed.
        ap (λ r. r.is_valid)
          (IsSigned-verify_hmac_signature sig ts tolerance future now signed.0 signed.1),
  )

hex-of_lower_hex : (d : Text) → all is_lower_hex d ≡ true → all is_hex d ≡ true
hex-of_lower_hex [] h = refl
hex-of_lower_hex (c ∷ d) h = ground (arith, hex-of_lower_hex d)

hex-no_space : (d : Text) → all is_lower_hex d ≡ true → all (λ c. not (is_space c)) d ≡ true
hex-no_space [] h = refl
hex-no_space (c ∷ d) h = ground (arith, hex-no_space d)

hex-no_prefix :
    (d : Text) → all is_lower_hex d ≡ true → starts_with (codes "sha256=") (lower d) ≡ false
unfolding starts_with lower
hex-no_prefix [] h = refl
hex-no_prefix (c ∷ d) h = ground arith

clean-stripped :
    (s : Text)
    → all (λ c. not (is_space c)) s ≡ true
    → clean_signature s ≡ (if starts_with (codes "sha256=") (lower s) then drop 7 s else s)
unfolding clean_signature
clean-stripped s h = rw (strip-eq_self s h)

clean-prefixed : (d : Text) → all is_lower_hex d ≡ true → clean_signature (codes "sha256=" ++ d) ≡ d
clean-prefixed d h =
    clean-stripped (codes "sha256=" ++ d) (hex-no_space d h) ∙ (unfold starts_with lower in refl)

clean-bare : (d : Text) → all is_lower_hex d ≡ true → clean_signature d ≡ d
clean-bare d h = clean-stripped d (hex-no_space d h) ∙ rw (hex-no_prefix d h)

module _ (digest : List ℕ → List ℕ → Text) where
  -- A digest is 64 lower-case hexadecimal digits: `hexdigest()` of SHA-256.
  pub record IsSha256 : Type 0 where
    pub long : (key message : List ℕ) → length (digest key message) ≡ 64
    pub hexadecimal : (key message : List ℕ) → all is_lower_hex (digest key message) ≡ true

  -- Both forms of a generated signature are cleaned to the digest.
  clean-generate :
      IsSha256
      → (secret : Text) (body : List ℕ) (t : ℤ) (prefixed : Bool)
      → clean_signature (generate_hmac_signature digest secret body t prefixed)
        ≡ digest (utf8 secret) (message_prefix t ++ body)
  unfolding generate_hmac_signature
  clean-generate sha secret body t true = clean-prefixed _ (sha.hexadecimal _ _)
  clean-generate sha secret body t false = clean-bare _ (sha.hexadecimal _ _)

  -- A signature from generate_hmac_signature, with or without its prefix, sent with its timestamp
  -- in decimal, is accepted while the timestamp lies in the window. The digest gives 64 lower-case
  -- hexadecimal digits, and the timestamp has at most 4300 digits.
  pub verify-generate :
      IsSha256
      → (secret : Text) (body : List ℕ) (t tolerance future now : ℤ) (prefixed : Bool)
      → count_digits (print_int t) ≤ max_digits
      → (now -ℤ tolerance) ≤ℤ t
      → t ≤ℤ (now +ℤ future)
      → verify_hmac_signature digest secret body
          (some (generate_hmac_signature digest secret body t prefixed))
          (some (print_int t))
          tolerance
          future
          now
        ≡ accept "verified"
  verify-generate sha secret body t tolerance future now prefixed fits old new =
      IsSigned-verify_hmac_signature digest secret body _ _ tolerance future now t (record {
        parsed = parse_int-print_int t fits;
        not_expired = old;
        not_in_future = new;
        long = rw (clean-generate sha secret body t prefixed) (sha.long _ _);
        hexadecimal = rw (clean-generate sha secret body t prefixed) (
            hex-of_lower_hex (digest (utf8 secret) (message_prefix t ++ body))
              (sha.hexadecimal (utf8 secret) (message_prefix t ++ body)));
        matches = rw (clean-generate sha secret body t prefixed);
      })

  -- If one signature is accepted for two requests under one secret, the requests have the same
  -- timestamp and the same body, or the digest, with letters lowered, takes two different messages
  -- to one value.
  accepted_twice-collision :
      (secret : Text) (x y : List ℕ) (sig : Option Text) (ts us : Option Text)
      (tolerance future now tolerance' future' now' : ℤ)
      → (verify_hmac_signature digest secret x sig ts tolerance future now).is_valid ≡ true
      → (verify_hmac_signature digest secret y sig us tolerance' future' now').is_valid ≡ true
      → (parse_int (or_empty ts) ≡ parse_int (or_empty us)) × (x ≡ y)
        ⊎ ((m n : List ℕ) × (m ≢ n)
            × (lower (digest (utf8 secret) m) ≡ lower (digest (utf8 secret) n)))
  accepted_twice-collision secret x y sig ts us tolerance future now tolerance' future' now' a b =
      let (t, s) = verify_hmac_signature-IsSigned digest secret x sig ts tolerance future now a in
      let (u, r) =
        verify_hmac_signature-IsSigned digest secret y sig us tolerance' future' now' b in
      elim (dec_bytes (message_prefix t ++ x) (message_prefix u ++ y)) [
        | yes e ↦
            let (et, ex) = signed_message_injective t u x y e in
            inl (s.parsed ∙ ap some et ∙ sym r.parsed, ex)
        | no ne ↦ inr (_, _, ne, s.matches ∙ sym r.matches)
      ]
