-- ===== src/Examples/Fixture.antt =====
-- A deployment in miniature: a host with toy cryptography, one tenant with a user, and its rows.
use Prim.Native.Char.{code}
use Prim.Native.String.{String, [], ◌∷◌}
use identity_platform.Prelude.{
  ℕ, ◌+◌, ◌*◌, ◌==◌, true, false, none, some, List, str_eq, if◌then◌else◌,
}
use identity_platform.Schema.{
  Client, User, RefreshToken, AccountToken, AuthCodeData, Store, rotated, password_reset,
}
use identity_platform.Exec.{Host, Env, Request, State, not_ok}

-- A digest that is good enough for a few short texts.
abbrev pub digest : String → ℕ
digest [] = 7
digest (c ∷ s) = digest s * 131 + code c

abbrev pub host : Host
host = record {
  clock = λ k. 1000000 + k;
  uuid = λ k. 9000 + k;
  row_uuid = λ id k. id + k * 100000;
  random = λ k. if k == 3 then "fresh-token" else "other-token";
  answers = λ _. true;
  others = λ _ st. st;
  sha256 = digest;
  base64url = λ _. "challenge";
  argon2_hash = λ _ password. password;
  argon2_verify = λ hash password. some (str_eq hash password);
  jwt_sign = λ _ _ _ _. some "access";
  jwt_alg = λ _. some "EdDSA";
  jwt_verify = λ _ _ _ _.
      some (record { sub = 20; cid = 10; aud = "cl_a"; email = "a@x.org"; permissions = List.[] });
  seal = λ _ _. "sealed";
  unseal = λ _. none;
  fetch_token = λ _ _. not_ok;
  fetch_google = λ _. not_ok;
  fetch_github = λ _. not_ok;
  fetch_github_emails = λ _. not_ok;
  is_email = λ _. true;
  is_url = λ _. true;
  is_uuid = λ _. true;
}

abbrev pub env : Env
env = record {
  jwt_private_key = some "private";
  jwt_public_key = some "public";
  jwt_key_id = "identity-platform-v1";
  jwt_issuer = "id.example.org";
  jwt_access_expiry = "15m";
  jwt_refresh_expiry_days = 7;
  refresh_retry_grace_seconds = 10;
  allow_legacy_hs256 = false;
  audit_retention_days = 365;
  google_client_id = none;
  google_client_secret = none;
  github_client_id = none;
  github_client_secret = none;
  service_url = "https://id.example.org";
  admin_key = "operator";
}

abbrev pub request : Request
request = record {
  ip = some "10.0.0.1";
  user_agent = none;
  authorization = some "Bearer jwt";
  admin_key = none;
}

abbrev pub client : Client
client = record {
  id = 10;
  name = "A";
  client_id = "cl_a";
  client_secret_hash = some (digest "secret");
  is_public = false;
  allow_user_registration = true;
  redirect_uris = some (List.◌∷◌ "https://a.example.org/cb" List.[]);
  password_reset_url = some "https://a.example.org/reset";
  email_verify_url = none;
  is_active = true;
  created_at = 0;
  updated_at = 0;
}

abbrev pub user : User
user = record {
  id = 20;
  client_id = 10;
  email = "a@x.org";
  password_hash = some "correct horse";
  oauth_provider = none;
  oauth_provider_id = none;
  email_verified = false;
  is_active = true;
  created_at = 0;
  updated_at = 0;
}

abbrev pub token : RefreshToken
token = record {
  id = 30;
  user_id = 20;
  token_hash = digest "live-token";
  ip_address = none;
  user_agent = none;
  revoked = false;
  revoked_reason = none;
  rotation_operation_hash = none;
  rotated_at = none;
  replaced_by_token_id = none;
  expires_at = 2000000;
  created_at = 500000;
}

-- A token that was rotated into `token` a moment ago, by the operation "op".
abbrev pub spent_token : RefreshToken
spent_token = record token {
  id = 29;
  token_hash = digest "old-token";
  revoked = true;
  revoked_reason = some rotated;
  rotation_operation_hash = some (digest "op");
  rotated_at = some 999000;
  replaced_by_token_id = some 30;
}

abbrev pub reset_token : AccountToken
reset_token = record {
  id = 40;
  user_id = 20;
  purpose = password_reset;
  token_hash = digest "reset";
  expires_at = 2000000;
  used_at = none;
  created_at = 500000;
}

abbrev pub code_data : AuthCodeData
code_data = record {
  user_id = 20;
  client_id = 10;
  app_client_id = "cl_a";
  redirect_uri = "https://a.example.org/cb";
  code_challenge = some "challenge";
}

abbrev pub store : Store
store = record {
  clients = List.◌∷◌ client List.[];
  users = List.◌∷◌ user List.[];
  roles = List.[];
  permissions = List.[];
  role_permissions = List.[];
  user_roles = List.[];
  service_accounts = List.[];
  service_account_roles = List.[];
  refresh_tokens = List.◌∷◌ spent_token (List.◌∷◌ token List.[]);
  account_tokens = List.◌∷◌ reset_token List.[];
  api_keys = List.[];
  audit_logs = List.[];
  codes =
      List.◌∷◌ (record { key = digest "code"; value = code_data; expires_at = 1050000 }) List.[];
  nonces = List.[];
  counters = List.[];
  outbox = List.[];
}

abbrev pub state : State
state = record { store = store; step = 0 }
