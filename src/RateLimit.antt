-- ===== src/RateLimit.antt =====
-- middleware/rateLimit.ts: a fixed window per key, counted in Redis.
pub mod Window
use identity_platform.Prelude.{
  ℕ, ◌+◌, ◌-◌, ◌*◌, ◌/◌, String, Bool, true, false, Option, none, some, List, [], ◌∷◌, find, select,
  append, ltb, leb, str_eq, if◌then◌else◌, ◌≡◌,
}
use identity_platform.Text.{to_lower}
use identity_platform.Errors.{Failure, too_many, unexpected, app_error, zod_error}
use identity_platform.Schema.{Counter, Store}
use identity_platform.Exec.{
  Host, Request, Exec, Outcome, pure, throw, check, statement, catch, ◌>>=◌, ◌>>◌,
}

pub record RateLimitConfig : Type 0 where
  pub window_ms : ℕ
  pub max : ℕ
  pub key_prefix : String

-- `Math.ceil(n / 1000)`
abbrev pub ceil_seconds : ℕ → ℕ
ceil_seconds ms = (ms + 999) / 1000

abbrev pub live_counter : String → ℕ → Store → Option Counter
live_counter key time st =
    find (λ c. if str_eq c.key key then ltb time c.expires_at else false) st.counters

-- The count after INCR, and the time at which the key expires after EXPIRE … NX.
abbrev pub next_counter : String → ℕ → ℕ → Option Counter → Counter
next_counter key window_sec time none = record {
  key = key;
  count = 1;
  expires_at = time + window_sec * 1000;
}
next_counter key window_sec time (some c) = record c { count = c.count + 1 }

-- MULTI: INCR key, EXPIRE key NX, TTL key.
unfoldable pub hit_counter : String → ℕ → ℕ → Store → (ℕ × ℕ) × Store
hit_counter key window_sec time st =
    let c = next_counter key window_sec time (live_counter key time st) in
    (
      (c.count, ceil_seconds (c.expires_at - time)),
      record st {
        counters = c ∷ select (λ d. if str_eq d.key key then false else true) st.counters;
      },
    )

-- The message leaves out the seconds to wait that the source appends.
abbrev pub rate_limit_exceeded : Failure
rate_limit_exceeded = too_many "Rate limit exceeded" none

-- `if (err instanceof AppError) throw err`; any other exception lets the request through.
abbrev pub fail_open : Failure → Exec (Unit {0})
fail_open (app_error e) = throw (app_error e)
fail_open _ = pure tt

-- `key` is what the limiter's key generator makes of the request.
unfoldable pub rate_limit : Host → RateLimitConfig → String → Exec (Unit {0})
rate_limit h config key =
    catch
      (do
        counted ← statement h (λ d st. some (
            hit_counter (append config.key_prefix (append ":" key)) (ceil_seconds config.window_ms)
              d.time st))
        check (leb counted.0 config.max) rate_limit_exceeded)
      fail_open

-- `req.ip || "unknown"`
abbrev pub ip_key : Request → String
ip_key req = elim req.ip [ none ↦ "unknown" | some ip ↦ if str_eq ip "" then "unknown" else ip ]

-- `${req.ip}:${clientId}:${email.toLowerCase()}`
abbrev pub account_key : Request → String → String → String
account_key req client_id email =
    append (elim req.ip [ none ↦ "undefined" | some ip ↦ ip ])
      (append ":" (append client_id (append ":" (to_lower email))))

abbrev pub auth_limiter : RateLimitConfig
auth_limiter = record { window_ms = 900000; max = 20; key_prefix = "rl:auth" }

abbrev pub strict_limiter : RateLimitConfig
strict_limiter = record { window_ms = 60000; max = 5; key_prefix = "rl:strict" }

abbrev pub login_ip_limiter : RateLimitConfig
login_ip_limiter = record { window_ms = 60000; max = 30; key_prefix = "rl:login-ip" }

abbrev pub login_account_limiter : RateLimitConfig
login_account_limiter = record { window_ms = 60000; max = 5; key_prefix = "rl:login-acct" }

abbrev pub api_limiter : RateLimitConfig
api_limiter = record { window_ms = 60000; max = 100; key_prefix = "rl:api" }

-- The two layers before `POST /auth/login`.
unfoldable pub limit_login : Host → Request → String → String → Exec (Unit {0})
limit_login h req client_id email = do
  rate_limit h login_ip_limiter (ip_key req)
  rate_limit h login_account_limiter (account_key req client_id email)
