-- ===== src/OAuth.antt =====
-- services/oauth.ts: providers, the sealed state and its nonce, authorization codes in Redis, PKCE.
pub mod Codes
use identity_platform.Prelude.{
  ℕ, ◌+◌, String, Bool, true, false, not, ◌&&◌, ◌||◌, Option, none, some, List, [], ◌∷◌, ◌++◌, find,
  select, any, append, ltb, leb, ◌==◌, str_eq, if◌then◌else◌, is_truthy,
}
use identity_platform.Errors.{Failure, bad_request, unexpected}
use identity_platform.Schema.{AuthCodeData, CodeEntry, NonceEntry, Store}
use identity_platform.Exec.{
  Host, Env, OAuthState, GoogleUserInfo, GithubUserInfo, GithubEmail, delivered, not_ok, no_answer,
  Exec, pure, throw, or_throw, check, read, write, write_returning, now, statement, ◌>>=◌, ◌>>◌,
  State, done,
}

-- The parts of a provider's configuration that a handler uses.
pub record ProviderConfig : Type 0 where
  pub auth_url : String
  pub client_id : String
  pub scopes : List String

-- Both credentials are set.
abbrev pub enabled : Option String → Option String → Option String
enabled none _ = none
enabled (some id) secret = if is_truthy (some id) && is_truthy secret then some id else none

unfoldable pub get_provider_config : Env → String → Exec ProviderConfig
get_provider_config env provider =
    if str_eq provider "google"
    then (do
      id ←
          or_throw (enabled env.google_client_id env.google_client_secret)
            (bad_request "Google OAuth is not enabled" (some "PROVIDER_DISABLED"))
      pure (record {
        auth_url = "https://accounts.google.com/o/oauth2/v2/auth";
        client_id = id;
        scopes = "openid" ∷ "email" ∷ "profile" ∷ [];
      }))
    else if str_eq provider "github"
    then (do
      id ←
          or_throw (enabled env.github_client_id env.github_client_secret)
            (bad_request "GitHub OAuth is not enabled" (some "PROVIDER_DISABLED"))
      pure (record {
        auth_url = "https://github.com/login/oauth/authorize";
        client_id = id;
        scopes = "user:email" ∷ [];
      }))
    else throw
        (bad_request (append "Unsupported provider: " provider) (some "UNSUPPORTED_PROVIDER"))

abbrev pub state_max_age_ms : ℕ
state_max_age_ms = 600000

-- `!state.iat || Date.now() - state.iat > STATE_MAX_AGE_MS`, negated; the sum stands for the
-- source's difference.
abbrev pub is_fresh : Option ℕ → ℕ → Bool
is_fresh none time = false
is_fresh (some at) time = (if at == 0 then false else true) && leb time (at + state_max_age_ms)

-- A key of Redis is there until it expires.
abbrev pub nonce_is_set : ℕ → ℕ → Store → Bool
nonce_is_set nonce time st = any (λ e. e.key == nonce && ltb time e.expires_at) st.nonces

-- SET key 1 EX 600 NX.
unfoldable pub set_nonce : ℕ → ℕ → Store → Bool × Store
set_nonce nonce time st = if nonce_is_set nonce time st then (false, st) else (
  true,
  record st {
    nonces =
        record { key = nonce; expires_at = time + state_max_age_ms }
        ∷ select (λ e. if e.key == nonce then false else true) st.nonces;
  },
)

abbrev pub code_ttl_ms : ℕ
code_ttl_ms = 60000

-- GET.
abbrev pub get_code : ℕ → ℕ → Store → Option AuthCodeData
get_code key time st = elim (find (λ e. e.key == key && ltb time e.expires_at) st.codes) [
  | none ↦ none
  | some e ↦ some e.value
]

-- DEL.
abbrev pub delete_code : ℕ → Store → Store
delete_code key st = record st {
  codes = select (λ e. if e.key == key then false else true) st.codes;
}

-- SETEX: the entry replaces any other under the key.
unfoldable pub set_code : ℕ → AuthCodeData → ℕ → Store → Store
set_code key data' time st =
    let rest = delete_code key st in
    record rest {
      codes = record { key = key; value = data'; expires_at = time + code_ttl_ms } ∷ rest.codes;
    }

-- `CONSUME_AUTH_CODE_SCRIPT`: GET and DEL in one step.
unfoldable pub take_code : ℕ → ℕ → Store → Option AuthCodeData × Store
take_code key time st = elim (get_code key time st) [
  | none ↦ (none, st)
  | some value ↦ (some value, delete_code key st)
]

-- `OAuthProviderError.redirectCode`
pub data RedirectCode : Type 0 where
  exchange_failed profile_failed email_unverified : RedirectCode

abbrev pub redirect_code_text : RedirectCode → String
redirect_code_text exchange_failed = "exchange_failed"
redirect_code_text profile_failed = "profile_failed"
redirect_code_text email_unverified = "email_unverified"

pub record OAuthUserInfo : Type 0 where
  pub email : String
  pub provider_id : String

-- A profile, or the reason why the provider's answer is no good.
pub data ProfileResult : Type 0 where
  profile : OAuthUserInfo → ProfileResult
  refused : RedirectCode → ProfileResult

-- `e?.email`, where an empty text is as good as none.
email_of : Option GithubEmail → Option String
email_of none = none
email_of (some e) = if str_eq e.email "" then none else some e.email

-- `primary?.email || emails.find((e) => e.verified)?.email`
unfoldable pub verified_email : List GithubEmail → Option String
unfolding email_of
verified_email emails = elim (email_of (find (λ e. e.primary && e.verified) emails)) [
  | none ↦ email_of (find (λ e. e.verified) emails)
  | some email ↦ some email
]

module _ (h : Host) where
  unfoldable pub github_profile : String → Exec ProfileResult
  github_profile access = elim (h.fetch_github access) [
    | not_ok ↦ pure (refused profile_failed)
    | no_answer ↦ throw unexpected
    | delivered user ↦ elim (h.fetch_github_emails access) [
      | not_ok ↦ pure (refused email_unverified)
      | no_answer ↦ throw unexpected
      | delivered emails ↦ elim (verified_email emails) [
        | none ↦ pure (refused email_unverified)
        | some email ↦ pure (profile (record { email = email; provider_id = user.id }))
      ]
    ]
  ]

  unfoldable pub google_profile : String → Exec ProfileResult
  google_profile access = elim (h.fetch_google access) [
    | not_ok ↦ pure (refused profile_failed)
    | no_answer ↦ throw unexpected
    | delivered user ↦ pure (profile (record { email = user.email; provider_id = user.id }))
  ]

  -- `exchangeCodeForProviderToken`, then `fetchProviderUserInfo`. A provider that does not answer, or
  -- not with JSON, is an unexpected error.
  unfoldable pub provider_profile : Env → String → String → Exec ProfileResult
  unfolding github_profile google_profile
  provider_profile env provider code = do
    config ← get_provider_config env provider
    elim (h.fetch_token provider code) [
      | not_ok ↦ pure (refused exchange_failed)
      | no_answer ↦ throw unexpected
      | delivered access ↦
          if str_eq provider "google" then google_profile access else github_profile access
    ]

  unfoldable pub encrypt_state : OAuthState → Exec String
  encrypt_state state = do
    time ← now h
    λ s. done (h.seal s.step (record state { iat = some time })) s

  unfoldable pub decrypt_state : String → Exec OAuthState
  decrypt_state text = do
    state ← or_throw (h.unseal text) unexpected
    time ← now h
    check (is_fresh state.iat time) unexpected
    pure state

  unfoldable pub consume_state_nonce : ℕ → Exec Bool
  consume_state_nonce nonce = statement h (λ d st. some (set_nonce nonce d.time st))

  unfoldable pub store_auth_code : String → AuthCodeData → Exec (Unit {0})
  store_auth_code code data' =
      statement h (λ d st. some (tt, set_code (h.sha256 code) data' d.time st))

  unfoldable pub consume_auth_code : String → Exec (Option AuthCodeData)
  consume_auth_code code = statement h (λ d st. some (take_code (h.sha256 code) d.time st))

  unfoldable pub resolve_auth_code : String → Exec (Option AuthCodeData)
  resolve_auth_code code = statement h (λ d st. some (get_code (h.sha256 code) d.time st, st))

  -- base64url(sha256(verifier)) == challenge
  unfoldable pub verifier_matches_challenge : String → String → Bool
  verifier_matches_challenge verifier challenge = str_eq (h.base64url (h.sha256 verifier)) challenge
