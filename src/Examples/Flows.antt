-- ===== src/Examples/Flows.antt =====
-- Whole flows: refreshing, signing in with a provider, resetting a password.
use identity_platform.OAuth.{
  consume_state_nonce, decrypt_state, encrypt_state, get_provider_config, set_nonce,
}
use identity_platform.Audit.{audit}
use identity_platform.Auth.Password.{hash_password}
use identity_platform.AccountTokens.{consume_account_token, resolve_account_token, use_token}
use identity_platform.Schema.Inserts.{insert_audit_log, insert_refresh_token}
use identity_platform.Auth.Rotation.{set_tokens, rotate_token}
use identity_platform.Text.{utf16_length}
use identity_platform.Prelude.{
  ◌≡◌, refl, sym, ap, Option, none, some, [], ◌∷◌, inr, String, ◌&&◌, str_eq, eq_iff, if◌then◌else◌,
  arith,
}
use identity_platform.Schema.{Client}
use identity_platform.Exec.{
  Env, Host, OAuthState, Reply, State, TokenClaims, alone, done, fail, final, now, random_bytes,
  random_uuid, read, statement, write, write_returning,
}
use identity_platform.Token.{
  TokenPair, create_token_pair, has_asymmetric_jwt_keys, parse_expiry, sign_access_token,
  verify_access_token,
}
use identity_platform.Token.Algorithms.{
  IsPinned, ReadsBack, verify_access_token_sound, verify-sign_access_token,
}
use identity_platform.Auth.Refresh.{RefreshBody, invalid_refresh_token, refresh, refresh_schema}
use identity_platform.Auth.Rotated.{rotation_reply, rotated_tokens, refresh-rotate}
use identity_platform.Auth.Retried.{retry_reply, retried_tokens, refresh-retry}
use identity_platform.Auth.Grants.{IsGranted, refresh_sound}
use identity_platform.Auth.Replay.{live_tokens_of, refresh-replay}
use identity_platform.Account.{
  ResetBody, consume_for_client, password_reset_completed, reset_schema, revoke_all_refresh_tokens,
}
use identity_platform.Account.Reset.{IsReset, password_reset_completed_lem}
use identity_platform.OAuthRoutes.{InitiateQuery, RedirectBack, callback, initiate, initiate_schema}
use identity_platform.OAuthRoutes.Callback.{IsStarted, IsReturned, initiate_sound, callback_sound}
use identity_platform.Session.{find_active_client, prepare_session, verify_client_credentials}
use identity_platform.Examples.Fixture.{
  host, env, request, state, store, client, spent_token, token, user,
}

abbrev live_body : RefreshBody
live_body = record {
  client_id = "cl_a";
  client_secret = some "secret";
  refresh_token = "live-token";
  operation_id = "op2";
}

abbrev renewed_reply : Reply TokenPair
renewed_reply = record {
  status = 200;
  body = record { access_token = "access"; refresh_token = "other-token"; expires_in = 900 };
}

refresh_sound_example :
    IsGranted env host live_body state renewed_reply
      (final (refresh env host request live_body state))
unfolding refresh refresh_schema utf16_length verify_client_credentials read now prepare_session
    create_token_pair random_bytes random_uuid rotate_token insert_refresh_token parse_expiry
refresh_sound_example =
    refresh_sound env host request live_body state renewed_reply
      (final (refresh env host request live_body state)) refl

-- The token that was rotated comes back under another operation.
abbrev stolen_body : RefreshBody
stolen_body = record live_body { refresh_token = "old-token" }

refresh-replay_example :
    (s' : State) × (refresh env (alone host) request stolen_body state
      ≡ fail invalid_refresh_token s')
    × (live_tokens_of 20 s'.store ≡ 0)
unfolding refresh_schema utf16_length
refresh-replay_example =
    refresh-replay env host request stolen_body state client spent_token (record {
      fits = refl;
      credentials = refl;
      stored = refl;
      same_row = refl;
      owned = refl;
      spent = refl;
      rotated_away = refl;
      other_operation = refl;
    })

abbrev reset_body : ResetBody
reset_body = record {
  token = "reset";
  new_password = "a longer password";
  client_id = "cl_a";
  client_secret = some "secret";
}

password_reset_completed_lem_example :
    IsReset host reset_body state
      (final (password_reset_completed (alone host) request reset_body state))
unfolding password_reset_completed reset_schema utf16_length verify_client_credentials read
    consume_for_client resolve_account_token now consume_account_token write_returning use_token
    hash_password write revoke_all_refresh_tokens audit insert_audit_log
password_reset_completed_lem_example =
    password_reset_completed_lem host request reset_body state
      (record { status = 200; body = "Password reset" })
      (final (password_reset_completed (alone host) request reset_body state)) refl

abbrev claims : TokenClaims
claims = record { sub = 20; cid = 10; aud = "cl_a"; email = "a@x.org"; permissions = [] }

verify_access_token_sound_example : IsPinned env host "access" none 1000000 claims
unfolding verify_access_token now has_asymmetric_jwt_keys
verify_access_token_sound_example =
    verify_access_token_sound env host "access" none state claims
      (final (verify_access_token env host "access" none state)) refl

-- A jose that signs with EdDSA for one audience only.
abbrev one_audience : Host
one_audience = record host {
  jwt_sign = λ _ header p _.
      if str_eq header.alg "EdDSA" && str_eq p.audience "cl_a" then some "access" else none;
}

one_audience_signs :
    (alg audience : String)
    → if◌then◌else◌ {A = Option String}
        (str_eq alg "EdDSA" && str_eq audience "cl_a")
        (some "access")
        none
      ≡ some "access"
    → (alg ≡ "EdDSA") × (audience ≡ "cl_a")
one_audience_signs alg audience e =
    (ground (arith, e, eq_iff alg "EdDSA"), ground (arith, e, eq_iff audience "cl_a"))

one_audience-ReadsBack : ReadsBack one_audience (λ _. 900000) claims "access"
one_audience-ReadsBack = record {
  names_alg = λ k header issuer audience expiry signed e.
      ap some (sym (one_audience_signs header.alg audience e).0);
  verifies = λ k header issuer audience expiry signed e options time alg from for alive.
      ap (λ a. some (record claims { aud = a })) (sym (one_audience_signs header.alg audience e).1);
}

verify-sign_access_token_example :
    verify_access_token env one_audience "access" (some "cl_a") state
    ≡ done claims (record { store = store; step = 1 })
unfolding sign_access_token now has_asymmetric_jwt_keys
verify-sign_access_token_example =
    verify-sign_access_token env one_audience (λ _. 900000) claims (some "cl_a") state "access"
      (final (sign_access_token env one_audience claims state)) state (inr refl) refl
      one_audience-ReadsBack (omega arith)

abbrev with_google : Env
with_google = record env { google_client_id = some "gid"; google_client_secret = some "gsecret" }

abbrev query : InitiateQuery
query = record {
  client_id = "cl_a";
  redirect_uri = "https://a.example.org/cb";
  code_challenge = none;
  code_challenge_method = none;
  state = some "xyz";
}

initiate_sound_example :
    (c : Client) × (find_active_client "cl_a" store ≡ some c)
    × IsStarted host "google" query c "sealed"
unfolding initiate initiate_schema utf16_length get_provider_config read random_uuid encrypt_state
    now
initiate_sound_example = initiate_sound with_google host "google" query state _ _ refl

abbrev opened : OAuthState
opened = record {
  client_id = "cl_a";
  redirect_uri = "https://a.example.org/cb";
  provider = some "google";
  nonce = 77;
  code_challenge = none;
  consumer_state = some "xyz";
  iat = some 999000;
}

abbrev opening_host : Host
opening_host = record host { unseal = λ _. some opened }

-- The provider reports that the user declined.
abbrev declined : RedirectBack
declined = record {
  redirect_uri = "https://a.example.org/cb";
  params = ("error", "access_denied") ∷ ("state", "xyz") ∷ [];
}

callback_sound_example : IsReturned opening_host "google" (some "sealed") state declined
unfolding callback decrypt_state now consume_state_nonce statement set_nonce
callback_sound_example =
    callback_sound with_google opening_host request "google" none (some "sealed")
      (some "access_denied") state declined
      (final (
        callback with_google opening_host request "google" none (some "sealed")
          (some "access_denied") state))
      refl

refresh-rotate_example :
    refresh env (alone host) request live_body state
    ≡ done (rotation_reply env host state "access") (record {
      store = set_tokens (rotated_tokens env host request live_body state token user) store;
      step = 11;
    })
unfolding refresh_schema utf16_length
refresh-rotate_example =
    refresh-rotate env host request live_body state client token user "access" (record {
      fits = refl;
      credentials = refl;
      stored = refl;
      owned = refl;
      active = refl;
      live = refl;
      unexpired = refl;
      still_unexpired = refl;
      signed = refl;
      fresh = refl;
    })

-- The answer of the rotation was lost; the client asks again.
abbrev retry_body : RefreshBody
retry_body = record live_body { refresh_token = "old-token"; operation_id = "op" }

refresh-retry_example :
    refresh env (alone host) request retry_body state
    ≡ done (retry_reply env host state "access") (record {
      store = set_tokens (retried_tokens env host request state spent_token user 30) store;
      step = 12;
    })
unfolding refresh_schema utf16_length
refresh-retry_example =
    refresh-retry env host request retry_body state client spent_token user 30 "access" (record {
      fits = refl;
      credentials = refl;
      stored = refl;
      same_row = refl;
      owned = refl;
      active = refl;
      spent = refl;
      rotated_away = refl;
      within = refl;
      still_within = refl;
      unused = refl;
      signed = refl;
      fresh = refl;
    })
