-- ===== src/Sdk/Network.antt =====
-- sdk/auth-client.ts: `createAuthClient` up to the network layer.
use Prim.Native.String.{[] as empty, ◌∷◌ as cons}
use Prim.Native.Char.{code}
use identity_platform.Prelude.{
  ℕ, ◌*◌, String, Bool, false, ◌&&◌, Option, none, some, List, [], ◌∷◌, ◌++◌, append, leb, get_or,
  ◌==◌, str_eq, if◌then◌else◌,
}
use identity_platform.Text.{split}
use identity_platform.Session.{truthy}
use identity_platform.Sdk.{
  AuthClientConfig, AuthUser, VerifyResponse, AuthJwtPayload, ErrorBody, Json, verification,
  refusal, FetchResponse, FetchResult, answered, unreachable, aborted, SdkRequest, SdkHost,
  RateLimitInfo, Message, sent, labelled, SdkFailure, api_error, transport_error, abort_error,
  plain_error, Result, ok, failed, Sdk, AuthClient,
}

module _ {A : Type 0} where
  abbrev pub return : A → Sdk A
  return a = record { result = ok a; requests = [] }

  abbrev pub raise : SdkFailure → Sdk A
  raise e = record { result = failed e; requests = [] }

abbrev pub after_requests : {A : Type 0} → List SdkRequest → Sdk A → Sdk A
after_requests rs m = record { result = m.result; requests = rs ++ m.requests }

abbrev pub follow : {A B : Type 0} → Result A → List SdkRequest → (A → Sdk B) → Sdk B
follow (ok a) rs f = after_requests rs (f a)
follow (failed e) rs f = record { result = failed e; requests = rs }

infixl 5 ◌>>=◌
abbrev pub ◌>>=◌ : {A B : Type 0} → Sdk A → (A → Sdk B) → Sdk B
m >>= f = follow m.result m.requests f

-- `try { m } catch (e) { f(e) }`
abbrev pub rescue : {A : Type 0} → Sdk A → (SdkFailure → Sdk A) → Sdk A
rescue m f = elim m.result [ ok a ↦ m | failed e ↦ after_requests m.requests (f e) ]

-- `url.replace(/\/+$/, "")`
abbrev pub strip_slashes : String → String
strip_slashes empty = empty
strip_slashes (cons c s) =
    let rest = strip_slashes s in if code c == 47 && str_eq rest "" then empty else cons c rest

-- `config.issuer ?? new URL(serviceUrl).hostname`
abbrev pub issuer_of : SdkHost → String → Option String → Option String
issuer_of h url none = h.hostname url
issuer_of h url (some issuer) = some issuer

-- The checks of `createAuthClient`; a JWKS that is created is fetched later.
unfoldable pub create_auth_client : SdkHost → AuthClientConfig → Result AuthClient
create_auth_client h config =
    if str_eq config.service_url ""
    then failed (plain_error "auth-client: serviceUrl is required")
    else if str_eq config.client_id ""
    then failed (
        plain_error
          "auth-client: clientId is required, the cl_... id from registering this application")
    else let url = strip_slashes config.service_url in
      elim (issuer_of h url config.issuer) [
        | none ↦ failed (plain_error "Invalid URL")
        | some issuer ↦ ok (record {
          config = config;
          service_url = url;
          issuer = issuer;
          request_timeout_ms = get_or config.request_timeout_ms 10000;
        })
      ]

-- `res.ok`
abbrev pub is_ok : FetchResponse → Bool
is_ok res = leb 200 res.status && leb res.status 299

abbrev pub error_body : Option Json → ErrorBody
error_body (some (refusal e)) = e
error_body _ = record { error = none; code = none }

-- `Number(header) || undefined` and `Number(header) || 0`.
abbrev pub nonzero : Option ℕ → Option ℕ
nonzero none = none
nonzero (some n) = if n == 0 then none else some n

abbrev pub in_ms : Option ℕ → Option ℕ
in_ms none = none
in_ms (some seconds) = some (seconds * 1000)

abbrev pub rate_limit_of : FetchResponse → Option RateLimitInfo
rate_limit_of res =
    if res.status == 429
    then some (record {
      limit = nonzero res.headers.limit;
      remaining = get_or res.headers.remaining 0;
      reset_at = in_ms res.headers.reset;
    })
    else none

abbrev pub message_of : Option String → String → ℕ → Message
message_of none label status = labelled label status
message_of (some text) label status = if str_eq text "" then labelled label status else sent text

unfoldable pub to_api_error : FetchResponse → String → SdkFailure
to_api_error res label = api_error (record {
  message = message_of (error_body res.body).error label res.status;
  status = res.status;
  code = (error_body res.body).code;
  rate_limit = rate_limit_of res;
})

-- `opts.signal?.aborted`, where a call may have no signal of the caller's.
unfoldable pub settle_fetch : Bool → FetchResult → Result FetchResponse
settle_fetch has_signal (answered res) = ok res
settle_fetch has_signal unreachable =
    failed (transport_error "Request to the identity platform failed or timed out")
settle_fetch has_signal aborted =
    if has_signal
    then failed abort_error
    else failed (transport_error "Request to the identity platform failed or timed out")

module _ (h : SdkHost) (client : AuthClient) where
  abbrev pub request_to : String → Option String → List (String × String) → SdkRequest
  request_to path authorization body = record {
    url = append client.service_url path;
    authorization = authorization;
    body = body;
    timeout_ms = client.request_timeout_ms;
  }

  unfoldable pub platform_fetch :
      String → Option String → List (String × String) → Bool → Sdk FetchResponse
  unfolding settle_fetch
  platform_fetch path authorization body has_signal =
      let request = request_to path authorization body in
      record { result = settle_fetch has_signal (h.fetch request); requests = request ∷ [] }

  unfoldable pub parse_json : FetchResponse → Sdk Json
  parse_json res = elim res.body [
    | none ↦ raise (transport_error "The identity platform returned a malformed response")
    | some json ↦ return json
  ]

  -- The answer's JSON, or the refusal as an error.
  abbrev pub accept : FetchResponse → String → Sdk Json
  accept res label = if is_ok res then parse_json res else raise (to_api_error res label)

  unfoldable pub post : String → List (String × String) → String → Bool → Sdk Json
  unfolding platform_fetch parse_json
  post path body label has_signal = do
    res ← platform_fetch path none body has_signal
    accept res label

  -- A member that is undefined is no member of the body.
  abbrev pub member : String → Option String → List (String × String)
  member name none = []
  member name (some text) = (name, text) ∷ []

  abbrev pub client_credentials : List (String × String)
  client_credentials =
      ("clientId", client.config.client_id)
      ∷ member "clientSecret" (truthy client.config.client_secret)

  abbrev pub auth_user : AuthJwtPayload → AuthUser
  auth_user p = record {
    id = p.sub;
    client_id = p.cid;
    email = p.email;
    permissions = get_or p.permissions [];
  }

  -- What is read of an answer that should be a verification: without `valid`, it is none.
  abbrev pub as_verification : Json → VerifyResponse
  as_verification (verification v) = v
  as_verification (refusal e) = record {
    valid = false;
    authorized = none;
    user = none;
    api_key = none;
    error = e.error;
  }
  as_verification _ = record {
    valid = false;
    authorized = none;
    user = none;
    api_key = none;
    error = none;
  }

  -- `POST /auth/verify` with a token or with an API key.
  unfoldable pub verify_remote : String → String → Option String → Bool → Sdk VerifyResponse
  unfolding platform_fetch parse_json
  verify_remote name text required has_signal = do
    res ←
        platform_fetch "/auth/verify" none
          ((name, text)
            ∷ ("audience", client.config.client_id)
            ∷ member "requiredPermission" required)
          has_signal
    json ← accept res "Verification failed"
    return (as_verification json)

  abbrev pub verify_token_remote : String → Option String → Bool → Sdk VerifyResponse
  verify_token_remote token required has_signal = verify_remote "token" token required has_signal

  abbrev pub verify_api_key : String → Option String → Bool → Sdk VerifyResponse
  verify_api_key text required has_signal = verify_remote "apiKey" text required has_signal

  unfoldable pub token_header_alg : String → Option String
  token_header_alg token = elim (split "." token) [ [] ↦ none | first ∷ _ ↦ h.header_alg first ]
