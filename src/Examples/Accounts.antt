-- ===== src/Examples/Accounts.antt =====
-- Users, their sessions and permissions, and API keys.
use identity_platform.Audit.{audit}
use identity_platform.Schema.Inserts.{insert_audit_log, insert_refresh_token}
use identity_platform.Text.{to_lower, utf16_length}
use identity_platform.Prelude.{◌≡◌, refl, ◌↔◌, false, none, some, [], ◌∷◌, Some}
use identity_platform.Schema.{Permission, ApiKey, Store}
use identity_platform.Exec.{Reply, State, alone, final, now, random_bytes, random_uuid, read, write}
use identity_platform.Token.{create_token_pair, parse_expiry}
use identity_platform.Permission.{Principal, has_scope, key, parts, scope_covers}
use identity_platform.Session.{issue_session, user_permissions, verify_client_credentials}
use identity_platform.Session.Grants.{Grants, user_permissions_iff}
use identity_platform.Authenticate.{authenticate_key}
use identity_platform.Authenticate.Keys.{IsKey, authenticate_key_sound}
use identity_platform.Auth.Password.{CredentialsBody, SignedIn, login, login_schema}
use identity_platform.Auth.Login.{IsSignedIn, login_sound}
use identity_platform.Auth.Refresh.{RefreshBody, refresh}
use identity_platform.Auth.Revoked.{IsRevoked, refresh-IsRevoked}
use identity_platform.Verify.{api_key, verify_key, Verdict, VerifyBody, verify}
use identity_platform.Verify.Authorized.{IsAuthorized, verify_lem}
use identity_platform.Examples.Fixture.{digest, host, env, request, state, store}

abbrev old_body : RefreshBody
old_body = record {
  client_id = "cl_a";
  client_secret = some "secret";
  refresh_token = "live-token";
  operation_id = "op2";
}

refresh-IsRevoked_example :
    IsRevoked (digest "old-token") (final (refresh env host request old_body state)).store
refresh-IsRevoked_example =
    refresh-IsRevoked env host request old_body state (λ k st hash dead. dead) (digest "old-token")
      (refl, refl)

abbrev login_body : CredentialsBody
login_body = record {
  email = "A@X.org";
  password = "correct horse";
  client_id = "cl_a";
  client_secret = some "secret";
}

abbrev signed_in : Reply SignedIn
signed_in = record {
  status = 200;
  body = record {
    id = 20;
    email = "a@x.org";
    session = record { access_token = "access"; refresh_token = "other-token"; expires_in = 900 };
  };
}

login_sound_example : IsSignedIn host login_body state signed_in
unfolding login login_schema utf16_length verify_client_credentials read to_lower issue_session
    create_token_pair now random_bytes random_uuid insert_refresh_token audit insert_audit_log
    parse_expiry
login_sound_example =
    login_sound env host request login_body state signed_in
      (final (login env host request login_body state)) refl

abbrev permission : Permission
permission = record {
  id = 60;
  client_id = 10;
  resource = "users";
  action = "read";
  description = none;
}

abbrev with_roles : Store
with_roles = record store {
  permissions = permission ∷ [];
  role_permissions = record { role_id = 50; permission_id = 60 } ∷ [];
  user_roles = record { user_id = 20; role_id = 50; client_id = 10; assigned_at = 0 } ∷ [];
}

user_permissions_iff_example :
    Some (λ s. s ≡ "users:read") (user_permissions 20 10 with_roles)
    ↔ Some
        (λ ur. (ur.user_id ≡ 20) × (ur.client_id ≡ 10) × Grants ur.role_id "users:read" with_roles)
        with_roles.user_roles
user_permissions_iff_example = user_permissions_iff 20 10 "users:read" with_roles

abbrev api_key_row : ApiKey
api_key_row = record {
  id = 70;
  client_id = 10;
  service_account_id = none;
  key_prefix = "ak_";
  key_hash = digest "the-key";
  name = "ci";
  scopes = some ("users:*" ∷ []);
  revoked = false;
  expires_at = some 2000000;
  last_used_at = none;
  created_at = 0;
}

abbrev with_key : State
with_key = record { store = record store { api_keys = api_key_row ∷ [] }; step = 0 }

abbrev key_principal : Principal
key_principal = key (record {
  id = 70;
  client_id = 10;
  scopes = "users:*" ∷ [];
  service_account_id = none;
  service_account_name = none;
})

authenticate_key_sound_example : IsKey (digest "the-key") 1000000 with_key.store key_principal
unfolding authenticate_key now read write
authenticate_key_sound_example =
    authenticate_key_sound env host "the-key" with_key key_principal
      (final (authenticate_key env (alone host) "the-key" with_key)) refl

abbrev verify_body : VerifyBody
verify_body = record {
  token = none;
  api_key = some "the-key";
  audience = some "cl_a";
  required_permission = some "users:read";
}

abbrev key_verdict : Verdict
key_verdict =
    api_key
      (record { client_id = 10; name = "ci"; scopes = "users:*" ∷ []; service_account = none })

verify_lem_example :
    IsAuthorized env host "cl_a" none (some "the-key") (some "users:read") with_key key_verdict
unfolding verify verify_key read now has_scope scope_covers parts write
verify_lem_example =
    verify_lem env host verify_body "cl_a" with_key key_verdict
      (final (verify env host verify_body with_key)) refl refl
