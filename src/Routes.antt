-- ===== src/Routes.antt =====
-- routes/auth.ts and routes/account.ts: the routes that a rate limiter stands in front of.
use identity_platform.Prelude.{String}
use identity_platform.Exec.{Host, Env, Request, Reply, Exec, ◌>>◌}
use identity_platform.RateLimit.{rate_limit, strict_limiter, ip_key, limit_login}
use identity_platform.Auth.Password.{CredentialsBody, SignedIn, register, login}
use identity_platform.Account.{
  LinkBody, ResetBody, password_forgot, password_reset_completed, send_verification,
}

module _ (env : Env) (h : Host) where
  unfoldable pub register_route : Request → CredentialsBody → Exec (Reply SignedIn)
  register_route req body = do rate_limit h strict_limiter (ip_key req); register env h req body

  -- The limiter reads the client and the address from the body before it is parsed.
  unfoldable pub login_route : Request → CredentialsBody → Exec (Reply SignedIn)
  login_route req body = do limit_login h req body.client_id body.email; login env h req body

module _ (h : Host) where
  unfoldable pub password_forgot_route : Request → LinkBody → Exec (Reply String)
  password_forgot_route req body = do
    rate_limit h strict_limiter (ip_key req)
    password_forgot h req body

  unfoldable pub password_reset_route : Request → ResetBody → Exec (Reply String)
  password_reset_route req body = do
    rate_limit h strict_limiter (ip_key req)
    password_reset_completed h req body

  unfoldable pub send_verification_route : Request → LinkBody → Exec (Reply String)
  send_verification_route req body = do
    rate_limit h strict_limiter (ip_key req)
    send_verification h req body
