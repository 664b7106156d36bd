-- ===== src/Account.antt =====
-- routes/account.ts: password reset, email verification and password change.
pub mod Reset
use identity_platform.Prelude.{
  ℕ, String, Bool, true, ◌&&◌, Option, none, some, [], ◌∷◌, ◌++◌, find, update, leb, ◌==◌,
  if◌then◌else◌,
}
use identity_platform.Text.{to_lower, utf16_length}
use identity_platform.Errors.{Failure, bad_request, unauthorized, bad_gateway}
use identity_platform.Schema.{Purpose, password_reset, email_verify, security, User, Store}
use identity_platform.Exec.{
  Host, Env, Request, Reply, Exec, pure, throw, or_throw, check, catch, read, write, now, parse,
  ◌>>=◌, ◌>>◌,
}
use identity_platform.Permission.{Principal, UserClaims, bearer}
use identity_platform.Session.{truthy, verify_client_credentials}
use identity_platform.Authenticate.{authenticate}
use identity_platform.Audit.{audit, by_user, by_anonymous}
use identity_platform.Auth.Rotation.{set_tokens, revoke}
use identity_platform.Auth.Refresh.{optional_min_one}
use identity_platform.Auth.Password.{
  find_active_user, hash_password, verify_password, invalid_credentials,
}
use identity_platform.AccountTokens.{
  ttl_hours, create_account_token, consume_account_token, resolve_account_token,
}

pub record LinkBody : Type 0 where
  pub email : String
  pub client_id : String
  pub client_secret : Option String

pub record ResetBody : Type 0 where
  pub token : String
  pub new_password : String
  pub client_id : String
  pub client_secret : Option String

pub record VerifyEmailBody : Type 0 where
  pub token : String
  pub client_id : String
  pub client_secret : Option String

pub record ChangeBody : Type 0 where
  pub current_password : String
  pub new_password : String

unfoldable pub request_link_schema : Host → LinkBody → Bool
request_link_schema h b =
    h.is_email b.email && (leb 1 (utf16_length b.client_id) && optional_min_one b.client_secret)

abbrev pub password_fits : String → Bool
password_fits p = leb 8 (utf16_length p) && leb (utf16_length p) 128

unfoldable pub reset_schema : ResetBody → Bool
reset_schema b =
    leb 1 (utf16_length b.token)
    && (password_fits b.new_password
        && (leb 1 (utf16_length b.client_id) && optional_min_one b.client_secret))

unfoldable pub verify_email_schema : VerifyEmailBody → Bool
verify_email_schema b =
    leb 1 (utf16_length b.token)
    && (leb 1 (utf16_length b.client_id) && optional_min_one b.client_secret)

unfoldable pub change_password_schema : ChangeBody → Bool
change_password_schema b = leb 1 (utf16_length b.current_password) && password_fits b.new_password

abbrev pub active_user_of : ℕ → ℕ → Store → Option User
active_user_of id client_id st =
    find (λ u. u.id == id && (u.client_id == client_id && u.is_active)) st.users

abbrev pub active_user : ℕ → Store → Option User
active_user id st = find (λ u. u.id == id && u.is_active) st.users

abbrev pub update_user : ℕ → (User → User) → Store → Store
update_user id f st = record st { users = update (λ u. u.id == id) f st.users }

abbrev pub revoke_every : ℕ → Store → Store
revoke_every user_id st =
    set_tokens (update (λ t. t.user_id == user_id) (revoke security) st.refresh_tokens) st

abbrev pub invalid_token : String → Failure
invalid_token error_code = unauthorized "Invalid or expired token" (some error_code)

-- `sendMail({to, subject, text})`, where `link` is what `buildLink` makes of the registered URL and
-- the token: the URL class of the platform is not modelled.
abbrev pub mail : String → String → String × String → Store → Store
mail to subject link st = record st { outbox = st.outbox ++ (to, subject, link.0, link.1) ∷ [] }

-- services/mailer.ts over SMTP: a delivery that fails is a 502.
unfoldable pub send_mail : Host → String → String → String × String → Exec (Unit {0})
send_mail h to subject link = catch (write h (mail to subject link)) (λ _.
    throw (
      bad_gateway "Email could not be sent right now, try again shortly" (some "MAIL_UNAVAILABLE")))

-- `if (!user.passwordHash)`
abbrev pub user_hash : User → Option String
user_hash u = truthy u.password_hash

module _ (h : Host) where
  unfoldable pub revoke_all_refresh_tokens : ℕ → Exec (Unit {0})
  revoke_all_refresh_tokens user_id = write h (revoke_every user_id)

  unfoldable pub consume_for_client : String → Purpose → ℕ → String → Exec User
  consume_for_client token purpose client_id error_code = do
    resolved ← resolve_account_token h token purpose
    user_id ← or_throw resolved (invalid_token error_code)
    found ← read h (active_user_of user_id client_id)
    user ← or_throw found (invalid_token error_code)
    consumed ← consume_account_token h token purpose
    consumed_id ← or_throw consumed (invalid_token error_code)
    pure user

  -- A link with a fresh token, mailed to the user.
  unfoldable pub send_link : User → Purpose → String → String → Exec (Unit {0})
  send_link user purpose subject url = do
    token ← create_account_token h user.id purpose (ttl_hours purpose)
    send_mail h user.email subject (url, token)

  unfoldable pub password_forgot : Request → LinkBody → Exec (Reply String)
  password_forgot req body = do
    parse (request_link_schema h body)
    client ← verify_client_credentials h body.client_id body.client_secret
    url ← or_throw (truthy client.password_reset_url) (
        bad_request "Password reset is not configured for this client"
          (some "RESET_URL_NOT_CONFIGURED"))
    found ← read h (find_active_user client.id (to_lower body.email))
    elim found [
      | none ↦ pure tt
      | some user ↦ send_link user password_reset "Reset your password" url
    ]
    audit h req (by_anonymous client.id "password.reset_requested")
    pure (record { status = 200; body = "If that email is registered, a reset link has been sent" })

  unfoldable pub password_reset_completed : Request → ResetBody → Exec (Reply String)
  password_reset_completed req body = do
    parse (reset_schema body)
    client ← verify_client_credentials h body.client_id body.client_secret
    user ← consume_for_client body.token password_reset client.id "INVALID_RESET_TOKEN"
    hash ← hash_password h body.new_password
    time ← now h
    write h (
        update_user user.id
          λ u. record u { password_hash = some hash; email_verified = true; updated_at = time })
    revoke_all_refresh_tokens user.id
    audit h req (by_user client.id "password.reset_completed" user.id)
    pure (record { status = 200; body = "Password reset" })

  unfoldable pub send_verification : Request → LinkBody → Exec (Reply String)
  send_verification req body = do
    parse (request_link_schema h body)
    client ← verify_client_credentials h body.client_id body.client_secret
    url ← or_throw (truthy client.email_verify_url) (
        bad_request "Email verification is not configured for this client"
          (some "VERIFY_URL_NOT_CONFIGURED"))
    found ← read h (find_active_user client.id (to_lower body.email))
    elim found [
      | none ↦ pure tt
      | some user ↦
          if user.email_verified
          then pure tt
          else send_link user email_verify "Verify your email" url
    ]
    pure (record {
      status = 200;
      body = "If that email is registered, a verification link has been sent";
    })

  unfoldable pub verify_email : Request → VerifyEmailBody → Exec (Reply String)
  verify_email req body = do
    parse (verify_email_schema body)
    client ← verify_client_credentials h body.client_id body.client_secret
    user ← consume_for_client body.token email_verify client.id "INVALID_VERIFY_TOKEN"
    time ← now h
    write h (update_user user.id λ u. record u { email_verified = true; updated_at = time })
    audit h req (by_user client.id "email.verified" user.id)
    pure (record { status = 200; body = "Email verified" })

module _ (env : Env) (h : Host) where
  -- `if (!req.user)`
  unfoldable pub require_bearer : Principal → Exec UserClaims
  require_bearer (bearer u) = pure u
  require_bearer _ = throw (unauthorized "Bearer token required" none)

  unfoldable pub password_change : Request → ChangeBody → Exec (Reply String)
  password_change req body = do
    principal ← authenticate env h req
    claims ← require_bearer principal
    parse (change_password_schema body)
    found ← read h (active_user claims.sub)
    user ← or_throw found (unauthorized "User not found or inactive" none)
    old ← or_throw (user_hash user) (
        bad_request "This account has no password. Use the password reset flow to set one."
          (some "PASSWORD_NOT_SET"))
    check (verify_password h old body.current_password) invalid_credentials
    hash ← hash_password h body.new_password
    time ← now h
    write h (update_user user.id λ u. record u { password_hash = some hash; updated_at = time })
    revoke_all_refresh_tokens h user.id
    audit h req (by_user user.client_id "password.changed" user.id)
    pure (record { status = 200; body = "Password changed" })
