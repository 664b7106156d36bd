-- ===== src/Sdk/Middleware.antt =====
-- sdk/auth-client.ts: the express middlewares.
use text.Mathlib.Text.{starts_with}
use identity_platform.Prelude.{
  ℕ, String, Bool, true, false, ◌&&◌, ◌||◌, Option, none, some, List, append, get_or, leb, ltb,
  ◌==◌, str_eq, if◌then◌else◌,
}
use identity_platform.Text.{split}
use identity_platform.Permission.{parts, includes}
use identity_platform.Authenticate.{scheme_and_token}
use identity_platform.Sdk.{
  AuthUser, api_key, service_account, MachinePrincipal, SdkPrincipal, user_principal,
  machine_principal, VerifiedKey, VerifyResponse, verified, rejected, SdkHost, AuthClient,
  SdkFailure, api_error, Sdk, ok, failed,
}
use identity_platform.Sdk.Network.{
  return, auth_user, verify_token_remote, verify_api_key, token_header_alg,
}

-- What a middleware leaves on the request when it calls `next()`, or the status and the text with
-- which it answers.
pub record Passed : Type 0 where
  pub user : Option AuthUser
  pub principal : Option SdkPrincipal

pub data Handled : Type 0 where
  next : Passed → Handled
  respond : ℕ → String → Handled

unfoldable pub respond_platform_unavailable : SdkFailure → Handled
respond_platform_unavailable (api_error e) =
    if leb 400 e.status && (ltb e.status 500 && (if e.status == 429 then false else true))
    then respond 502 "Identity platform rejected the verification request"
    else respond 503 "Identity platform unavailable"
respond_platform_unavailable _ = respond 503 "Identity platform unavailable"

-- `authHeader.split(" ")[1]` behind a scheme.
abbrev pub credential : String → String
credential header = (scheme_and_token (split " " header)).1

-- `(err as {code}).code ?? ""` means that no local answer was possible.
unfoldable pub is_jwks_unavailable : String → Bool
is_jwks_unavailable code =
    str_eq code "ERR_JWKS_TIMEOUT"
    || (str_eq code "ERR_JWKS_INVALID"
        || (str_eq code "ERR_JOSE_GENERIC" || (if starts_with code "ERR_" then false else true)))

-- `x || y`
abbrev pub text_or : Option String → String → String
text_or none d = d
text_or (some t) d = if str_eq t "" then d else t

abbrev pub pass_user : AuthUser → Handled
pass_user u = next (record { user = some u; principal = some (user_principal u) })

-- The principal of a key: its service account's if it has one.
abbrev pub machine_of : VerifiedKey → MachinePrincipal
machine_of k = record {
  kind = elim k.service_account [ none ↦ api_key | some a ↦ service_account ];
  client_id = k.client_id;
  name = k.name;
  permissions = k.scopes;
  service_account_id = elim k.service_account [ none ↦ none | some a ↦ some a.0 ];
  service_account_name = elim k.service_account [ none ↦ none | some a ↦ some a.1 ];
}

abbrev pub judge_user : VerifyResponse → Option AuthUser → Handled
judge_user v none = respond 401 (text_or v.error "Invalid token")
judge_user v (some u) =
    if v.valid then pass_user u else respond 401 (text_or v.error "Invalid token")

abbrev pub judge_key : VerifyResponse → Option VerifiedKey → Handled
judge_key v none = respond 401 (text_or v.error "Invalid API key")
judge_key v (some k) =
    if v.valid
    then next (record { user = none; principal = some (machine_principal (machine_of k)) })
    else respond 401 (text_or v.error "Invalid API key")

-- `try { judge(await verify) } catch (e) { respondPlatformUnavailable(e) }`
abbrev pub judged : Sdk VerifyResponse → (VerifyResponse → Handled) → Sdk Handled
judged m judge = record {
  result = elim m.result [ ok v ↦ ok (judge v) | failed e ↦ ok (respond_platform_unavailable e) ];
  requests = m.requests;
}

module _ (h : SdkHost) (client : AuthClient) where
  abbrev pub is_legacy : String → Bool
  is_legacy token =
      client.config.allow_legacy_hs256
      && (elim (token_header_alg h client token) [ none ↦ false | some alg ↦ str_eq alg "HS256" ])

  unfoldable pub require_auth_with : String → Sdk Handled
  require_auth_with token = elim (h.jwt_verify client.issuer client.config.client_id token) [
    | verified payload ↦ return (pass_user (auth_user h client payload))
    | rejected code ↦
        if is_legacy token || is_jwks_unavailable (get_or code "")
        then judged (verify_token_remote h client token none false) (λ v. judge_user v v.user)
        else return (respond 401 "Invalid token")
  ]

  unfoldable pub require_auth : Option String → Sdk Handled
  unfolding require_auth_with
  require_auth none = return (respond 401 "Missing authorization header")
  require_auth (some header) =
      if starts_with header "Bearer "
      then require_auth_with (credential header)
      else return (respond 401 "Missing authorization header")

  unfoldable pub require_api_key : Option String → Sdk Handled
  require_api_key none = return (respond 401 "Missing API key")
  require_api_key (some header) =
      if starts_with header "ApiKey "
      then judged (verify_api_key h client (credential header) none false)
          (λ v. judge_key v v.api_key)
      else return (respond 401 "Missing API key")

  unfoldable pub require_principal : Option String → Sdk Handled
  unfolding require_auth require_api_key
  require_principal authorization =
      let header = get_or authorization "" in
      if starts_with header "Bearer "
      then require_auth authorization
      else if starts_with header "ApiKey "
      then require_api_key authorization
      else return (respond 401 "Invalid authorization scheme. Use: Bearer <jwt> or ApiKey <key>")

abbrev pub principal_permissions : SdkPrincipal → List String
principal_permissions (user_principal u) = u.permissions
principal_permissions (machine_principal m) = m.permissions

-- `req.user?.permissions ?? req.principal?.permissions`
abbrev pub passed_permissions : Option AuthUser → Option SdkPrincipal → Option (List String)
passed_permissions (some u) p = some u.permissions
passed_permissions none none = none
passed_permissions none (some p) = some (principal_permissions p)

unfoldable pub sdk_require_permission : String → Passed → Handled
sdk_require_permission permission req = elim (passed_permissions req.user req.principal) [
  | none ↦ respond 401 "Authentication required"
  | some perms ↦
      if includes perms "*"
        || (includes perms permission || includes perms (append (parts permission).resource ":*"))
      then next req
      else respond 403 (append "Missing permission: " permission)
]

-- Two middlewares in a row.
abbrev pub and_then : Handled → (Passed → Handled) → Handled
and_then (next req) f = f req
and_then (respond status text) f = respond status text
