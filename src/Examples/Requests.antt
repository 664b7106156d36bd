-- ===== src/Examples/Requests.antt =====
-- Requests of clients.
use identity_platform.Prelude.{◌≡◌, refl, true, false, some, ◌⊎◌}
use identity_platform.Errors.{Failure}
use identity_platform.Schema.{Client}
use identity_platform.Exec.{
  State, done, fail, statement, read, write, now, random_uuid, random_bytes,
}
use identity_platform.Text.{utf16_length}
use identity_platform.Schema.Inserts.{insert_refresh_token, insert_audit_log}
use identity_platform.Token.{
  create_token_pair, sign_access_token, has_asymmetric_jwt_keys, parse_expiry,
}
use identity_platform.Audit.{audit, audit_actor}
use identity_platform.Session.{
  find_active_client, verify_client_credentials, invalid_client, issue_session, prepare_session,
  user_permissions, permissions_of_role,
}
use identity_platform.Session.Credentials.{after, IsPresented, credentials_sound}
use identity_platform.OAuth.{
  resolve_auth_code, verifier_matches_challenge, consume_auth_code, take_code,
}
use identity_platform.OAuthRoutes.{ExchangeBody, exchange, token_exchange_schema}
use identity_platform.OAuthRoutes.Exchange.{HoldsBound, exchange_sound}
use identity_platform.Examples.Fixture.{host, env, request, store, state}

abbrev exchange_body : ExchangeBody
exchange_body = record {
  code = "code";
  client_id = "cl_a";
  client_secret = some "secret";
  redirect_uri = "https://a.example.org/cb";
  code_verifier = some "a-code-verifier-of-forty-three-characters-or-more";
}

credentials_sound_example :
    ((c : Client) (s' : State)
      → verify_client_credentials host "cl_a" (some "secret") state ≡ done c s'
      → (find_active_client "cl_a" store ≡ some c)
        × ((c.client_id ≡ "cl_a") × (c.is_active ≡ true) × IsPresented host (some "secret") c)
        × (s' ≡ after host state))
    × ((x : Failure) (s' : State)
        → verify_client_credentials host "cl_a" (some "secret") state ≡ fail x s'
        → (x ≡ invalid_client) ⊎ (host.answers 0 ≡ false))
credentials_sound_example = credentials_sound host "cl_a" (some "secret") state

exchange_sound_example : HoldsBound host exchange_body state
unfolding exchange token_exchange_schema utf16_length resolve_auth_code statement
    verify_client_credentials read verifier_matches_challenge consume_auth_code take_code
    issue_session create_token_pair sign_access_token has_asymmetric_jwt_keys parse_expiry
    user_permissions permissions_of_role insert_refresh_token write now random_uuid random_bytes
    audit audit_actor insert_audit_log prepare_session
exchange_sound_example = exchange_sound env host request exchange_body state _ _ refl
