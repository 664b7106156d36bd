-- ===== src/Token/Algorithms.antt =====
-- services/token.ts: which tokens `verifyAccessToken` accepts, and that it accepts its own.
use identity_platform.Prelude.{
  subst, ap, refl, any, eq_refl, ◌<◌, ℕ, ◌+◌, String, true, not, ◌&&◌, Option, none, some, [], ◌∷◌,
  ◌≡◌, ◌≢◌, ◌⊎◌, inl, inr, arith, str_eq, eq_iff, if◌then◌else◌, Bool-cases, ◌∙◌,
}
use identity_platform.Errors.{unexpected}
use identity_platform.Exec.{
  ◌>>=◌, Host, Env, TokenClaims, SigningKey, legacy_secret, private_key, public_key, JwtHeader,
  JwtOptions, State, done, now, or_throw,
}
use identity_platform.Exec.Inversion.{bind_done, or_throw_done}
use identity_platform.Token.{
  verify_as, has_asymmetric_jwt_keys, signing_header, jwt_payload, sign_access_token,
  verify_access_token,
}

-- What jose was asked to accept.
abbrev pub asked : Env → Option String → String → JwtOptions
asked env audience alg = record {
  issuer = env.jwt_issuer;
  audience = audience;
  algorithms = alg ∷ [];
}

-- The token verified under the key that belongs to its algorithm: HS256 only where no key pair is
-- configured or legacy tokens are allowed, everything else as EdDSA under the public key.
pub data IsPinned (env : Env) (h : Host) (token : String) (audience : Option String) (time : ℕ)
    (claims : TokenClaims) : Type 0 where
  legacy :
      h.jwt_alg token ≡ some "HS256"
      → (has_asymmetric_jwt_keys env ≡ true → env.allow_legacy_hs256 ≡ true)
      → h.jwt_verify legacy_secret (asked env audience "HS256") token time ≡ some claims
      → IsPinned env h token audience time claims
  asymmetric :
      (alg : String)
      → h.jwt_alg token ≡ some alg
      → alg ≢ "HS256"
      → has_asymmetric_jwt_keys env ≡ true
      → h.jwt_verify public_key (asked env audience "EdDSA") token time ≡ some claims
      → IsPinned env h token audience time claims

verify_as_sound :
    (env : Env) (h : Host) (token alg : String) (audience : Option String) (time : ℕ) (s : State)
    (c : TokenClaims) (s' : State)
    → h.jwt_alg token ≡ some alg
    → verify_as env h alg token audience time s ≡ done c s'
    → IsPinned env h token audience time c
unfolding verify_as
verify_as_sound env h token alg audience time s c s' found e =
    elim (Bool-cases (str_eq alg "HS256")) [
      | inl hs ↦ elim (Bool-cases (has_asymmetric_jwt_keys env && not env.allow_legacy_hs256)) [
        | inl banned ↦ absurd (cc (rw (hs, banned) at e))
        | inr allowed ↦
            legacy (found ∙ ap some ((eq_iff alg "HS256").0 hs)) (λ pair. ground arith)
              (or_throw_done _ unexpected s c s' (rw (hs, allowed) at e)).0
      ]
      | inr other ↦ elim (Bool-cases (has_asymmetric_jwt_keys env)) [
        | inl pair ↦
            asymmetric alg found (λ same. cc (other, (eq_iff alg "HS256").1 same)) pair
              (or_throw_done _ unexpected s c s' (rw (other, pair) at e)).0
        | inr single ↦ absurd (cc (rw (other, single) at e))
      ]
    ]

-- `verifyAccessToken` returns claims only for a token that jose verified for this issuer and
-- audience, under the secret if its header says HS256, which must then be allowed, and under the
-- public key as EdDSA otherwise: a header cannot make the public key serve as an HMAC secret.
pub verify_access_token_sound :
    (env : Env) (h : Host) (token : String) (audience : Option String) (s : State)
    (claims : TokenClaims) (s' : State)
    → verify_access_token env h token audience s ≡ done claims s'
    → IsPinned env h token audience (h.clock s.step) claims
unfolding verify_access_token now
verify_access_token_sound env h token audience s claims s' e =
    let (alg, t, found, rest) =
      bind_done (or_throw (h.jwt_alg token) unexpected)
        (λ alg. now h >>= λ time. verify_as env h alg token audience time) s claims s' e in
    let (named, same) = or_throw_done (h.jwt_alg token) unexpected s alg t found in
    verify_as_sound env h token alg audience (h.clock s.step)
      (record { store = t.store; step = t.step + 1 }) claims s' named
      (subst
        (λ z.
          verify_as env h alg token audience (h.clock z.step)
            (record { store = t.store; step = t.step + 1 })
          ≡ done claims s')
        same rest)

-- The key that checks what a key signed.
abbrev pub checking_key : SigningKey → SigningKey
checking_key legacy_secret = legacy_secret
checking_key private_key = public_key
checking_key public_key = public_key

-- What jose documents of a token that it signed for these claims, under any key and header, with any
-- issuer, audience and expiry: the header's algorithm can be read; and `jwtVerify` returns the claims
-- with the audience set on them, under the checking key, where the algorithm is allowed, the
-- issuer asked for is the token's, the audience asked for, if any, is the token's, and the lifetime
-- that the expiry stands for is not over.
pub record ReadsBack (h : Host) (lifetime : String → ℕ) (claims : TokenClaims) (token : String)
    : Type 0 where
  pub names_alg :
      (k : SigningKey) (header : JwtHeader) (issuer audience expiry : String) (signed : ℕ)
      → h.jwt_sign k header
          (record { claims = claims; issuer = issuer; audience = audience; expiry = expiry })
          signed
        ≡ some token
      → h.jwt_alg token ≡ some header.alg
  pub verifies :
      (k : SigningKey) (header : JwtHeader) (issuer audience expiry : String) (signed : ℕ)
      → h.jwt_sign k header
          (record { claims = claims; issuer = issuer; audience = audience; expiry = expiry })
          signed
        ≡ some token
      → (options : JwtOptions) (time : ℕ) → any (str_eq header.alg) options.algorithms ≡ true
      → options.issuer ≡ issuer
      → (options.audience ≡ none) ⊎ (options.audience ≡ some audience)
      → time < signed + lifetime expiry
      → h.jwt_verify (checking_key k) options token time ≡ some (record claims { aud = audience })

checks_own :
    (env : Env)
    → checking_key (if has_asymmetric_jwt_keys env then private_key else legacy_secret)
      ≡ (if has_asymmetric_jwt_keys env then public_key else legacy_secret)
checks_own env = elim (Bool-cases (has_asymmetric_jwt_keys env)) [
  | inl pair ↦ rw pair refl
  | inr single ↦ rw single refl
]

verify_as_own :
    (env : Env) (h : Host) (claims : TokenClaims) (token : String) (audience : Option String)
    (time : ℕ) (s : State)
    → h.jwt_verify
        (if has_asymmetric_jwt_keys env then public_key else legacy_secret)
        (asked env audience (signing_header env).alg)
        token
        time
      ≡ some claims
    → verify_as env h (signing_header env).alg token audience time s ≡ done claims s
unfolding verify_as
verify_as_own env h claims token audience time s e =
    elim (Bool-cases (has_asymmetric_jwt_keys env)) [
      | inl pair ↦ let verified = rw pair at e in rw (pair, verified)
      | inr single ↦ let verified = rw single at e in rw (single, verified)
    ]

-- `verifyAccessToken` returns the claims that `signAccessToken` signed, in both deployments, with or
-- without the audience, until the configured lifetime is over, as long as jose does what it
-- documents for a token that it signed.
pub verify-sign_access_token :
    (env : Env) (h : Host) (lifetime : String → ℕ) (claims : TokenClaims) (audience : Option String)
    (s : State) (token : String) (s' t : State)
    → (audience ≡ none) ⊎ (audience ≡ some claims.aud)
    → sign_access_token env h claims s ≡ done token s'
    → ReadsBack h lifetime claims token
    → h.clock t.step < h.clock s.step + lifetime env.jwt_access_expiry
    → verify_access_token env h token audience t
      ≡ done claims (record { store = t.store; step = t.step + 1 })
unfolding verify_access_token sign_access_token now
verify-sign_access_token env h lifetime claims audience s token s' t expected signed jose alive =
    let own : SigningKey = if has_asymmetric_jwt_keys env then private_key else legacy_secret in
    let (by_jose, _) =
      or_throw_done (h.jwt_sign own (signing_header env) (jwt_payload env claims) (h.clock s.step))
        unexpected (record { store = s.store; step = s.step + 1 }) token s' signed in
    let named =
      jose.names_alg own (signing_header env) env.jwt_issuer claims.aud env.jwt_access_expiry
        (h.clock s.step) by_jose in
    let read =
      jose.verifies own (signing_header env) env.jwt_issuer claims.aud env.jwt_access_expiry
        (h.clock s.step) by_jose (asked env audience (signing_header env).alg) (h.clock t.step)
        (own_alg (signing_header env).alg) refl expected alive in
    rw named (
      verify_as_own env h claims token audience (h.clock t.step)
        (record { store = t.store; step = t.step + 1 })
        (subst
          (λ k.
            h.jwt_verify k (asked env audience (signing_header env).alg) token (h.clock t.step)
            ≡ some claims)
          (checks_own env) read))
  where
    own_alg : (alg : String) → any (str_eq alg) (alg ∷ []) ≡ true
    own_alg alg = rw (eq_refl alg) refl
