-- ===== src/Sdk/Wire.antt =====
-- routes/verify.ts and utils/errors.ts as the client sees them: the JSON of each answer, and the
-- platform as what is at the other end of `fetch`.
use identity_platform.Prelude.{
  ℕ, String, true, false, Option, none, some, List, [], ◌∷◌, str_eq, if◌then◌else◌,
}
use identity_platform.Errors.{error_handler}
use identity_platform.Exec.{Env, Host, TokenClaims, State, Outcome, done, fail}
use identity_platform.Verify.{
  VerifyBody, KeyGrant, Verdict, refused, invalid, unauthorized, user, api_key, verify,
}
use identity_platform.Sdk.{
  VerifyResponse, VerifiedKey, AuthUser, verification, refusal, RateHeaders, FetchResponse,
  FetchResult, answered, SdkRequest,
}

abbrev pub no_headers : RateHeaders
no_headers = record { limit = none; remaining = none; reset = none }

abbrev pub sent_user : TokenClaims → AuthUser
sent_user c = record { id = c.sub; client_id = c.cid; email = c.email; permissions = c.permissions }

abbrev pub sent_key : KeyGrant → VerifiedKey
sent_key g = record {
  client_id = g.client_id;
  name = g.name;
  scopes = g.scopes;
  service_account = g.service_account;
}

-- `res.status(…).json(…)` of each branch.
unfoldable pub verdict_json : Verdict → ℕ × VerifyResponse
verdict_json (refused status text) = (
  status,
  record { valid = false; authorized = none; user = none; api_key = none; error = some text },
)
verdict_json (invalid text) = (
  200,
  record { valid = false; authorized = none; user = none; api_key = none; error = some text },
)
verdict_json (unauthorized text) = (
  200,
  record { valid = true; authorized = some false; user = none; api_key = none; error = some text },
)
verdict_json (user c) = (
  200,
  record {
    valid = true;
    authorized = some true;
    user = some (sent_user c);
    api_key = none;
    error = none;
  },
)
verdict_json (api_key g) = (
  200,
  record {
    valid = true;
    authorized = some true;
    user = none;
    api_key = some (sent_key g);
    error = none;
  },
)

unfoldable pub respond_with : Outcome Verdict → FetchResponse
respond_with (done v s) = record {
  status = (verdict_json v).0;
  body = some (verification (verdict_json v).1);
  headers = no_headers;
}
respond_with (fail e s) = record {
  status = (error_handler e).status;
  body =
      some
        (refusal (record { error = some (error_handler e).error; code = (error_handler e).code }));
  headers = no_headers;
}

-- `req.body.name`
abbrev pub body_member : String → List (String × String) → Option String
body_member name [] = none
body_member name (m ∷ rest) =
    let later = body_member name rest in if str_eq m.0 name then some m.1 else later

abbrev pub body_of : SdkRequest → VerifyBody
body_of r = record {
  token = body_member "token" r.body;
  api_key = body_member "apiKey" r.body;
  audience = body_member "audience" r.body;
  required_permission = body_member "requiredPermission" r.body;
}

-- The platform in a state, as it answers a request of `POST /auth/verify`.
unfoldable pub platform : Env → Host → State → SdkRequest → FetchResult
platform env h s r = answered (respond_with (verify env h (body_of r) s))
