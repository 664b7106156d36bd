-- ===== src/Examples/Tokens.antt =====
-- Refresh tokens, account tokens, codes, nonces and counters.
use identity_platform.Prelude.{
  ◌≡◌, refl, ℕ, ◌≤◌, ◌+◌, Bool, true, false, none, some, [], ◌∷◌, count, length, find, arith, ◌==◌,
  ◌↔◌,
}
use identity_platform.Schema.{password_reset, RefreshToken}
use identity_platform.Exec.{alone, State, final, done, fail, Host, now, write_returning, statement}
use identity_platform.Auth.Refresh.{RefreshBody, refresh}
use identity_platform.Auth.LiveTokens.{live_tokens, refresh-live_tokens}
use identity_platform.AccountTokens.{consume_account_token, use_token}
use identity_platform.AccountTokens.SingleUse.{IsSpent, consume_account_token_once}
use identity_platform.OAuth.{
  get_code, store_auth_code, resolve_auth_code, consume_auth_code, set_nonce, take_code,
}
use identity_platform.OAuth.Codes.{
  resolve_auth_code-store_auth_code, consume_auth_code_once, set_nonce_once,
}
use identity_platform.RateLimit.{RateLimitConfig, live_counter, rate_limit, rate_limit_exceeded}
use identity_platform.Errors.{Failure, error_handler}
use identity_platform.RateLimit.Window.{
  verdicts, numbered, passes, hits, window_verdicts, rate_limit_iff,
}
use identity_platform.Cleanup.{cleanup_expired_refresh_tokens, delete_where}
use identity_platform.Cleanup.Retention.{thirty_days_ago, cleanup-keeps}
use identity_platform.Examples.Fixture.{digest, host, env, request, store, state, code_data}

abbrev refresh_body : RefreshBody
refresh_body = record {
  client_id = "cl_a";
  client_secret = some "secret";
  refresh_token = "live-token";
  operation_id = "op2";
}

refresh-live_tokens_example :
    live_tokens (final (refresh env host request refresh_body state)).store ≤ live_tokens store
refresh-live_tokens_example =
    refresh-live_tokens env host request refresh_body state (λ k st. omega arith)

consume_account_token_once_example :
    IsSpent
      (digest "reset")
      password_reset
      1000000
      (final (consume_account_token host "reset" password_reset state)).store
unfolding consume_account_token now write_returning statement use_token
consume_account_token_once_example =
    consume_account_token_once host "reset" password_reset state (some 20)
      (final (consume_account_token host "reset" password_reset state)) refl

resolve_auth_code-store_auth_code_example :
    (s' : State) × (store_auth_code (alone host) "new-code" code_data state ≡ done tt s')
    × (resolve_auth_code (alone host) "new-code" (record s' { step = 59999 })
        ≡ done (some code_data) (record s' { step = 60000 }))
    × ((digest "new-code" == digest "code") ≡ false
        → resolve_auth_code (alone host) "code" (record s' { step = 59999 })
          ≡ done (get_code (digest "code") 1059999 store) (record s' { step = 60000 }))
resolve_auth_code-store_auth_code_example =
    resolve_auth_code-store_auth_code host "new-code" "code" code_data state 59999

consume_auth_code_once_example :
    (get_code (digest "code") 1000000 store ≡ some code_data)
    × ((later : ℕ)
        → get_code (digest "code") later (final (consume_auth_code host "code" state)).store ≡ none)
    × ((other later : ℕ)
        → (digest "code" == other) ≡ false
        → get_code other later (final (consume_auth_code host "code" state)).store
          ≡ get_code other later store)
unfolding consume_auth_code statement take_code
consume_auth_code_once_example =
    consume_auth_code_once host "code" state code_data (final (consume_auth_code host "code" state))
      refl

set_nonce_once_example :
    set_nonce 77 1599999 (set_nonce 77 1000001 store).1 ≡ (false, (set_nonce 77 1000001 store).1)
unfolding set_nonce
set_nonce_once_example =
    set_nonce_once 77 1000000 1000001 1599999 store (set_nonce 77 1000001 store).1 refl
      (omega arith) refl

-- Two requests a minute.
abbrev two_a_minute : RateLimitConfig
two_a_minute = record { window_ms = 60000; max = 2; key_prefix = "rl:two" }

window_verdicts_example :
    (verdicts host two_a_minute "ip" (1000 ∷ 2000 ∷ 60999 ∷ []) state
      ≡ numbered 2 0 (1000 ∷ 2000 ∷ 60999 ∷ []))
    × (count passes (verdicts host two_a_minute "ip" (1000 ∷ 2000 ∷ 60999 ∷ []) state) ≡ 2)
window_verdicts_example =
    window_verdicts host two_a_minute "ip" 1000 (2000 ∷ 60999 ∷ []) state refl
      (omega arith, (omega arith, tt))

-- A window that has had its two requests.
abbrev full_window : State
full_window = record {
  store = record store {
    counters = record { key = "rl:two:ip"; count = 2; expires_at = 1030000 } ∷ [];
  };
  step = 0;
}

rate_limit_iff_example :
    (((s' : State) × (rate_limit host two_a_minute "ip" full_window ≡ fail rate_limit_exceeded s'))
      ↔ ((host.answers 0 ≡ true) × (2 ≤ hits (live_counter "rl:two:ip" 1000000 full_window.store))))
    × ((e : Failure) (s' : State)
        → rate_limit host two_a_minute "ip" full_window ≡ fail e s'
        → (e ≡ rate_limit_exceeded) × ((error_handler e).status ≡ 429))
    × (host.answers 0 ≡ false
        → (final (rate_limit host two_a_minute "ip" full_window)).store ≡ full_window.store)
rate_limit_iff_example = rate_limit_iff host two_a_minute "ip" full_window

-- A year later, when both tokens have long expired.
abbrev much_later : Host
much_later = record host { clock = λ k. 40000000000 + k }

cleanup-keeps_example :
    let after =
      (final (cleanup_expired_refresh_tokens env much_later state)).store.refresh_tokens in
    (2 ≡ count (thirty_days_ago 40000000000) store.refresh_tokens)
    × (count (thirty_days_ago 40000000000) after ≡ 0)
    × (2 + length after ≡ 2)
    × ((q : RefreshToken → Bool)
        → ((t : RefreshToken) → q t ≡ true → thirty_days_ago 40000000000 t ≡ false)
        → find q after ≡ find q store.refresh_tokens)
unfolding cleanup_expired_refresh_tokens now write_returning statement delete_where
cleanup-keeps_example =
    cleanup-keeps env much_later state 2
      (final (cleanup_expired_refresh_tokens env much_later state)) refl
