-- ===== src/Cleanup.antt =====
-- jobs/cleanup.ts: the daily removal of stale rows.
pub mod Retention
use identity_platform.Prelude.{
  ℕ, ◌+◌, ◌*◌, Bool, true, false, List, select, count, length, ltb, if◌then◌else◌,
}
use identity_platform.Schema.{RefreshToken, AccountToken, AuditLog, Store}
use identity_platform.Exec.{
  Host, Env, Exec, Defaults, pure, catch, now, write_returning, ◌>>=◌, ◌>>◌,
}

abbrev pub retention_days : ℕ
retention_days = 30

abbrev pub days_ms : ℕ → ℕ
days_ms n = n * 24 * 60 * 60 * 1000

-- `stamp < cutoff` for the cutoff `now - window`, which may be negative.
abbrev pub is_older : ℕ → ℕ → ℕ → Bool
is_older stamp window time = ltb (stamp + window) time

-- DELETE … WHERE … RETURNING id: the number of rows, and the rest.
unfoldable pub delete_where {ℓ} : {A : Type ℓ} → (A → Bool) → List A → ℕ × List A
delete_where p rows = (count p rows, select (λ r. if p r then false else true) rows)

abbrev pub delete_refresh_tokens : ℕ → Store → ℕ × Store
delete_refresh_tokens time st =
    let (n, rest) =
      delete_where (λ t. is_older t.expires_at (days_ms retention_days) time) st.refresh_tokens in
    (n, record st { refresh_tokens = rest })

abbrev pub delete_account_tokens : ℕ → Store → ℕ × Store
delete_account_tokens time st =
    let (n, rest) =
      delete_where (λ t. is_older t.expires_at (days_ms retention_days) time) st.account_tokens in
    (n, record st { account_tokens = rest })

abbrev pub delete_audit_logs : ℕ → ℕ → Store → ℕ × Store
delete_audit_logs retention time st =
    let (n, rest) =
      delete_where (λ a. is_older a.created_at (days_ms retention) time) st.audit_logs in
    (n, record st { audit_logs = rest })

module _ (env : Env) (h : Host) where
  unfoldable pub cleanup_expired_refresh_tokens : Exec ℕ
  unfolding delete_where
  cleanup_expired_refresh_tokens = do time ← now h; write_returning h (delete_refresh_tokens time)

  unfoldable pub cleanup_expired_account_tokens : Exec ℕ
  unfolding delete_where
  cleanup_expired_account_tokens = do time ← now h; write_returning h (delete_account_tokens time)

  unfoldable pub cleanup_expired_audit_logs : Exec ℕ
  unfolding delete_where
  cleanup_expired_audit_logs = do
    time ← now h
    write_returning h (delete_audit_logs env.audit_retention_days time)

  -- One run of the schedule: an exception is logged and ends the run. The number of rows removed,
  -- or 0.
  unfoldable pub run_cleanup : Exec ℕ
  unfolding cleanup_expired_refresh_tokens cleanup_expired_account_tokens cleanup_expired_audit_logs
  run_cleanup =
      catch
        (do
          refresh ← cleanup_expired_refresh_tokens
          account ← cleanup_expired_account_tokens
          audit_rows ← cleanup_expired_audit_logs
          pure (refresh + account + audit_rows))
        (λ _. pure 0)
