-- ===== src/Sdk/Methods.antt =====
-- sdk/auth-client.ts: the calls that an application makes for its users.
use identity_platform.Prelude.{
  String, Bool, Option, none, some, List, [], ◌∷◌, ◌++◌, append, if◌then◌else◌,
}
use identity_platform.Session.{truthy}
use identity_platform.Sdk.{Json, SdkHost, AuthClient, Sdk, plain_error, Result, ok, failed}
use identity_platform.Sdk.Network.{
  return, raise, ◌>>=◌, is_ok, to_api_error, platform_fetch, post, member, client_credentials,
}

module _ (h : SdkHost) (client : AuthClient) where
  -- `JSON.stringify({...fields, ...clientCredentials()})` and the answer's tokens.
  unfoldable pub exchange_oauth_code : String → Option String → Bool → Sdk Json
  exchange_oauth_code code code_verifier has_signal =
      post h client "/auth/oauth/token"
        (("code", code)
          ∷ (member h client "redirectUri" client.config.redirect_uri
              ++ (member h client "codeVerifier" (truthy code_verifier)
                  ++ client_credentials h client)))
        "Token exchange failed" has_signal

  unfoldable pub refresh_token : String → String → Bool → Sdk Json
  refresh_token token operation_id has_signal =
      post h client "/auth/refresh"
        (("refreshToken", token) ∷ ("operationId", operation_id) ∷ client_credentials h client)
        "Refresh failed" has_signal

  unfoldable pub register : String → String → Bool → Sdk Json
  register email password has_signal =
      post h client "/auth/register"
        (("email", email) ∷ ("password", password) ∷ client_credentials h client)
        "Registration failed" has_signal

  unfoldable pub login : String → String → Bool → Sdk Json
  login email password has_signal =
      post h client "/auth/login"
        (("email", email) ∷ ("password", password) ∷ client_credentials h client) "Login failed"
        has_signal

  -- These await the answer and drop it.
  unfoldable pub forgot_password : String → Bool → Sdk (Unit {0})
  forgot_password email has_signal =
      post h client "/auth/password/forgot" (("email", email) ∷ client_credentials h client)
        "Password reset request failed" has_signal
      >>= λ _. return tt

  unfoldable pub reset_password : String → String → Bool → Sdk (Unit {0})
  reset_password token new_password has_signal =
      post h client "/auth/password/reset"
        (("token", token) ∷ ("newPassword", new_password) ∷ client_credentials h client)
        "Password reset failed" has_signal
      >>= λ _. return tt

  -- No body is read.
  unfoldable pub change_password : String → String → String → Bool → Sdk (Unit {0})
  change_password access_token current_password new_password has_signal = do
    res ←
        platform_fetch h client "/auth/password/change" (some (append "Bearer " access_token))
          (("currentPassword", current_password) ∷ ("newPassword", new_password) ∷ []) has_signal
    if is_ok res then return tt else raise (to_api_error res "Password change failed")

  unfoldable pub send_email_verification : String → Bool → Sdk (Unit {0})
  send_email_verification email has_signal =
      post h client "/auth/email/send-verification" (("email", email) ∷ client_credentials h client)
        "Verification request failed" has_signal
      >>= λ _. return tt

  unfoldable pub confirm_email : String → Bool → Sdk (Unit {0})
  confirm_email token has_signal =
      post h client "/auth/email/verify" (("token", token) ∷ client_credentials h client)
        "Email verification failed" has_signal
      >>= λ _. return tt

  unfoldable pub logout : String → Bool → Sdk (Unit {0})
  logout token has_signal =
      post h client "/auth/logout" (("refreshToken", token) ∷ client_credentials h client)
        "Logout failed" has_signal
      >>= λ _. return tt

  -- The verifier and the challenge.
  unfoldable pub create_pkce_pair : String × String
  create_pkce_pair = (h.random, h.sha256_base64url h.random)

  abbrev challenge_members : Option String → List (String × String)
  challenge_members none = []
  challenge_members (some challenge) =
      ("code_challenge", challenge) ∷ ("code_challenge_method", "S256") ∷ []

  unfoldable pub get_oauth_url : String → Option String → Option String → Result String
  get_oauth_url provider code_challenge state = elim (truthy client.config.redirect_uri) [
    | none ↦ failed (plain_error "redirectUri is required for OAuth flows")
    | some redirect_uri ↦ ok (
        append client.service_url (
          append "/auth/oauth/" (
            append provider (
              append "?" (
                h.query (
                  ("client_id", client.config.client_id)
                  ∷ ("redirect_uri", redirect_uri)
                  ∷ (challenge_members (truthy code_challenge)
                      ++ member h client "state" (truthy state))))))))
  ]
