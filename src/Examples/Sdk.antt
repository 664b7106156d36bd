-- ===== src/Examples/Sdk.antt =====
-- An application that asks the deployment about an API key.
use identity_platform.Text.{split}
use identity_platform.Prelude.{false, none, some, [], ◌∷◌, ◌≡◌, refl, All, str_eq, if◌then◌else◌}
use identity_platform.Schema.{ApiKey}
use identity_platform.Exec.{State, done}
use identity_platform.Permission.Checks.{IsPair}
use identity_platform.Verify.{KeyGrant, api_key, verify}
use identity_platform.Sdk.{SdkHost, AuthClient, rejected, ok, unreachable}
use identity_platform.Sdk.Middleware.{
  Passed, next, credential, require_principal, require_api_key, sdk_require_permission,
}
use identity_platform.Sdk.Availability.{Justified, require_principal-Justified}
use identity_platform.Sdk.Wire.{platform}
use identity_platform.Sdk.Agreement.{asked_for, passed_key, require_api_key-verify}
use identity_platform.Examples.Fixture.{digest, host, env, store}

abbrev stored_key : ApiKey
stored_key = record {
  id = 90;
  client_id = 10;
  service_account_id = none;
  key_prefix = "sk_abcdefgh";
  key_hash = digest "sk_abcdefgh_i";
  name = "ci";
  scopes = some ("notes:*" ∷ []);
  revoked = false;
  expires_at = none;
  last_used_at = none;
  created_at = 0;
}

abbrev platform_state : State
platform_state = record { store = record store { api_keys = stored_key ∷ [] }; step = 0 }

abbrev app : SdkHost
app = record {
  fetch = λ r.
      if str_eq r.url "https://id.example.org/auth/verify"
      then platform env host platform_state r
      else unreachable;
  jwt_verify = λ _ _ _. rejected (some "ERR_JWT_EXPIRED");
  header_alg = λ _. none;
  hostname = λ _. some "id.example.org";
  uuid = "operation";
  random = "verifier";
  sha256_base64url = λ _. "challenge";
  query = λ _. "query";
}

abbrev app_client : AuthClient
app_client = record {
  config = record {
    service_url = "https://id.example.org";
    issuer = none;
    client_id = "cl_a";
    client_secret = none;
    redirect_uri = none;
    request_timeout_ms = none;
    allow_legacy_hs256 = false;
  };
  service_url = "https://id.example.org";
  issuer = "id.example.org";
  request_timeout_ms = 10000;
}

require_principal-Justified_example :
    Justified app app_client
      (some "ApiKey sk_abcdefgh_i")
      (require_principal app app_client (some "ApiKey sk_abcdefgh_i"))
require_principal-Justified_example =
    require_principal-Justified app app_client (some "ApiKey sk_abcdefgh_i")

require_api_key-verify_example :
    ((p : Passed)
      → (require_api_key app app_client (some "ApiKey sk_abcdefgh_i")).result ≡ ok (next p)
      → sdk_require_permission "notes:write" p ≡ next p
      → (g : KeyGrant) × (s' : State) × (verify env host
            (asked_for (credential "ApiKey sk_abcdefgh_i") "cl_a" "notes:write")
            platform_state
          ≡ done (api_key g) s')
        × (p ≡ passed_key g))
    × ((g : KeyGrant) (s' : State)
        → verify env host
            (asked_for (credential "ApiKey sk_abcdefgh_i") "cl_a" "notes:write")
            platform_state
          ≡ done (api_key g) s'
        → All IsPair g.scopes
        → ((require_api_key app app_client (some "ApiKey sk_abcdefgh_i")).result
            ≡ ok (next (passed_key g)))
          × (sdk_require_permission "notes:write" (passed_key g) ≡ next (passed_key g)))
unfolding split
require_api_key-verify_example =
    require_api_key-verify env host platform_state app app_client "ApiKey sk_abcdefgh_i"
      "notes:write" (λ r e. rw (e) refl) refl refl refl refl
