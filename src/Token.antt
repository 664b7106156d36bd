-- ===== src/Token.antt =====
-- services/token.ts: access tokens (signed by jose), opaque refresh tokens and their hashes.
pub mod Algorithms
use Prim.Native.Char.{Char, code}
use identity_platform.Prelude.{
  ℕ, ◌+◌, ◌-◌, ◌*◌, String, Bool, true, false, not, ◌&&◌, Option, none, some, [], ◌∷◌, leb, ◌==◌,
  str_eq, if◌then◌else◌, is_truthy,
}
use identity_platform.Errors.{unexpected}
use identity_platform.Exec.{
  Host, Env, TokenClaims, legacy_secret, private_key, public_key, JwtHeader, JwtPayload, Exec, pure,
  throw, or_throw, now, random_bytes, ◌>>=◌,
}

-- `hasAsymmetricJwtKeys`
unfoldable pub has_asymmetric_jwt_keys : Env → Bool
has_asymmetric_jwt_keys env = is_truthy env.jwt_private_key && is_truthy env.jwt_public_key

-- `Record<string, number>[unit]`
multiplier : ℕ → Option ℕ
multiplier c =
    if c == b's'
    then some 1
    else if c == b'm'
    then some 60
    else if c == b'h'
    then some 3600
    else if c == b'd'
    then some 86400
    else none

-- The unit must be the last character.
unit_of : Char → String → Option ℕ
unit_of c String.[] = multiplier (code c)
unit_of c (String.◌∷◌ _ _) = none

is_digit : ℕ → Bool
is_digit c = leb b'0' c && leb c b'9'

-- `/^(\d+)([smhd])$/`: the number read so far, and whether a digit has been read.
scan : ℕ → Bool → String → Option (ℕ × ℕ)
scan num seen String.[] = none
scan num seen (String.◌∷◌ c s) =
    let rest = scan (num * 10 + (code c - b'0')) true s in
    if is_digit (code c)
    then rest
    else if seen
    then elim (unit_of c s) [ none ↦ none | some m ↦ some (num, m) ]
    else none

-- The lifetime that a token response states, in seconds.
unfoldable pub parse_expiry : String → ℕ
unfolding scan is_digit unit_of multiplier
parse_expiry expiry = elim (scan 0 false expiry) [ none ↦ 900 | some (num, m) ↦ num * m ]

abbrev pub signing_header : Env → JwtHeader
signing_header env =
    if has_asymmetric_jwt_keys env
    then record { alg = "EdDSA"; kid = env.jwt_key_id }
    else record { alg = "HS256"; kid = "legacy-hs256" }

abbrev pub jwt_payload : Env → TokenClaims → JwtPayload
jwt_payload env claims = record {
  claims = claims;
  issuer = env.jwt_issuer;
  audience = claims.aud;
  expiry = env.jwt_access_expiry;
}

pub record TokenPair : Type 0 where
  pub access_token : String
  pub refresh_token : String
  pub expires_in : ℕ

module _ (env : Env) (h : Host) where
  unfoldable pub sign_access_token : TokenClaims → Exec String
  sign_access_token claims = do
    t ← now h
    or_throw
        (h.jwt_sign (if has_asymmetric_jwt_keys env then private_key else legacy_secret)
          (signing_header env) (jwt_payload env claims) t)
        unexpected

  -- The key and the algorithm that jose is asked to verify with.
  unfoldable pub verify_as : String → String → Option String → ℕ → Exec TokenClaims
  verify_as alg token audience time =
      if str_eq alg "HS256"
      then if has_asymmetric_jwt_keys env && not env.allow_legacy_hs256
        then throw unexpected
        else or_throw
            (h.jwt_verify legacy_secret
              (record { issuer = env.jwt_issuer; audience = audience; algorithms = "HS256" ∷ [] })
              token time)
            unexpected
      else if not (has_asymmetric_jwt_keys env)
      then throw unexpected
      else or_throw
          (h.jwt_verify public_key
            (record { issuer = env.jwt_issuer; audience = audience; algorithms = "EdDSA" ∷ [] })
            token time)
          unexpected

  -- `audience` is undefined in the middleware.
  unfoldable pub verify_access_token : String → Option String → Exec TokenClaims
  unfolding verify_as
  verify_access_token token audience = do
    alg ← or_throw (h.jwt_alg token) unexpected
    time ← now h
    verify_as alg token audience time

  -- `createTokenPair`: the pair and the digest of the refresh token.
  unfoldable pub create_token_pair : TokenClaims → Exec (TokenPair × ℕ)
  unfolding sign_access_token
  create_token_pair claims = do
    access ← sign_access_token claims
    refresh ← random_bytes h
    pure (
      record {
        access_token = access;
        refresh_token = refresh;
        expires_in = parse_expiry env.jwt_access_expiry;
      },
      h.sha256 refresh,
    )
