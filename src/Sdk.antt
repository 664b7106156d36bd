-- ===== src/Sdk.antt =====
-- sdk/auth-client.ts: the client that applications use, its configuration and its data. It runs in
-- another process than the platform and sees only what is sent over the network.
pub mod Network
pub mod Methods
pub mod Middleware
pub mod Availability
pub mod Wire
pub mod Agreement
use identity_platform.Prelude.{ℕ, String, Bool, Option, none, some, List, str_eq, if◌then◌else◌}

pub record AuthClientConfig : Type 0 where
  pub service_url : String
  pub issuer : Option String
  pub client_id : String
  pub client_secret : Option String
  pub redirect_uri : Option String
  pub request_timeout_ms : Option ℕ
  pub allow_legacy_hs256 : Bool

pub record AuthUser : Type 0 where
  pub id : ℕ
  pub client_id : ℕ
  pub email : String
  pub permissions : List String

pub data MachineKind : Type 0 where
  api_key service_account : MachineKind

pub record MachinePrincipal : Type 0 where
  pub kind : MachineKind
  pub client_id : ℕ
  pub name : String
  pub permissions : List String
  pub service_account_id : Option ℕ
  pub service_account_name : Option String

pub data SdkPrincipal : Type 0 where
  user_principal : AuthUser → SdkPrincipal
  machine_principal : MachinePrincipal → SdkPrincipal

-- `apiKey` of a verification answer.
pub record VerifiedKey : Type 0 where
  pub client_id : ℕ
  pub name : String
  pub scopes : List String
  pub service_account : Option (ℕ × String)

pub record VerifyResponse : Type 0 where
  pub valid : Bool
  pub authorized : Option Bool
  pub user : Option AuthUser
  pub api_key : Option VerifiedKey
  pub error : Option String

-- What jose hands out of a token that verifies.
pub record AuthJwtPayload : Type 0 where
  pub sub : ℕ
  pub cid : ℕ
  pub email : String
  pub permissions : Option (List String)

-- The members of a refusal's body.
pub record ErrorBody : Type 0 where
  pub error : Option String
  pub code : Option String

-- A JSON body, as far as the client reads it.
pub data Json : Type 0 where
  verification : VerifyResponse → Json
  refusal : ErrorBody → Json
  tokens : String → String → Json
  other_json : Json

-- The X-RateLimit headers that are there, as numbers.
pub record RateHeaders : Type 0 where
  pub limit : Option ℕ
  pub remaining : Option ℕ
  pub reset : Option ℕ

-- `body` is `none` where it is no JSON, or is cut off.
pub record FetchResponse : Type 0 where
  pub status : ℕ
  pub body : Option Json
  pub headers : RateHeaders

pub data FetchResult : Type 0 where
  answered : FetchResponse → FetchResult
  -- A network failure or the timeout.
  unreachable : FetchResult
  -- The caller's own signal.
  aborted : FetchResult

-- A POST with a JSON body of texts, where a member that is undefined is left out.
pub record SdkRequest : Type 0 where
  pub url : String
  pub authorization : Option String
  pub body : List (String × String)
  pub timeout_ms : ℕ

pub data JoseResult : Type 0 where
  verified : AuthJwtPayload → JoseResult
  -- With the error's `code`.
  rejected : Option String → JoseResult

-- What the client runs on, during one call of it.
pub record SdkHost : Type 0 where
  pub fetch : SdkRequest → FetchResult
  -- `jwtVerify` with the keys of the platform's JWKS endpoint, an issuer and an audience.
  pub jwt_verify : String → String → String → JoseResult
  -- The `alg` of the first part of a token, if that is base64url of JSON with such a text.
  pub header_alg : String → Option String
  -- `new URL(url).hostname`, which may be an exception.
  pub hostname : String → Option String
  pub uuid : String
  pub random : String
  pub sha256_base64url : String → String
  -- The query of a URL.
  pub query : List (String × String) → String

pub record RateLimitInfo : Type 0 where
  pub limit : Option ℕ
  pub remaining : ℕ
  pub reset_at : Option ℕ

-- The platform's own message, or the label of the call with the status.
pub data Message : Type 0 where
  sent : String → Message
  labelled : String → ℕ → Message

pub record AuthApiError : Type 0 where
  pub message : Message
  pub status : ℕ
  pub code : Option String
  pub rate_limit : Option RateLimitInfo

pub data SdkFailure : Type 0 where
  api_error : AuthApiError → SdkFailure
  transport_error : String → SdkFailure
  abort_error : SdkFailure
  -- `throw new Error(...)`, of the client itself or of the platform it runs on.
  plain_error : String → SdkFailure

-- A result and the requests that were sent for it.
pub data Result (A : Type 0) : Type 0 where
  ok : A → Result A
  failed : SdkFailure → Result A

pub record Sdk (A : Type 0) : Type 0 where
  pub result : Result A
  pub requests : List SdkRequest

-- The client after `createAuthClient`.
pub record AuthClient : Type 0 where
  pub config : AuthClientConfig
  pub service_url : String
  pub issuer : String
  pub request_timeout_ms : ℕ
