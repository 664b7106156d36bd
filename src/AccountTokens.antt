-- ===== src/AccountTokens.antt =====
-- services/accountToken.ts: single-use tokens for password resets and email verification.
pub mod SingleUse
use identity_platform.Prelude.{
  ℕ, ◌+◌, ◌*◌, String, Bool, true, false, ◌&&◌, Option, none, some, find, update, is_some, ltb,
  ◌==◌, if◌then◌else◌,
}
use identity_platform.Schema.{Purpose, password_reset, email_verify, AccountToken, Store}
use identity_platform.Schema.Inserts.{insert_account_token}
use identity_platform.Exec.{
  Host, Exec, pure, statement, read, write_returning, now, random_bytes, ◌>>=◌, ◌>>◌,
}

-- `TTL_HOURS`
abbrev pub ttl_hours : Purpose → ℕ
ttl_hours password_reset = 1
ttl_hours email_verify = 24

abbrev pub same_purpose : Purpose → Purpose → Bool
same_purpose password_reset password_reset = true
same_purpose email_verify email_verify = true
same_purpose _ _ = false

-- The condition of both queries: this token, for this purpose, unused and not expired.
abbrev pub is_usable : ℕ → Purpose → ℕ → AccountToken → Bool
is_usable hash purpose time t =
    t.token_hash == hash
    && (same_purpose t.purpose purpose
        && ((if is_some t.used_at then false else true) && ltb time t.expires_at))

abbrev pub find_usable : ℕ → Purpose → ℕ → Store → Option ℕ
find_usable hash purpose time st = elim (find (is_usable hash purpose time) st.account_tokens) [
  | none ↦ none
  | some t ↦ some t.user_id
]

-- UPDATE … SET used_at … RETURNING user_id.
unfoldable pub use_token : ℕ → Purpose → ℕ → Store → Option ℕ × Store
use_token hash purpose time st = (
  find_usable hash purpose time st,
  record st {
    account_tokens =
        update (is_usable hash purpose time) (λ t. record t { used_at = some time })
          st.account_tokens;
  },
)

module _ (h : Host) where
  unfoldable pub create_account_token : ℕ → Purpose → ℕ → Exec String
  create_account_token user_id purpose hours = do
    token ← random_bytes h
    time ← now h
    statement h (λ d.
        insert_account_token
          (record {
            user_id = user_id;
            purpose = purpose;
            token_hash = h.sha256 token;
            expires_at = time + hours * 3600000;
          })
          d.id d.time)
    pure token

  unfoldable pub consume_account_token : String → Purpose → Exec (Option ℕ)
  consume_account_token token purpose = do
    time ← now h
    write_returning h (use_token (h.sha256 token) purpose time)

  unfoldable pub resolve_account_token : String → Purpose → Exec (Option ℕ)
  resolve_account_token token purpose = do
    time ← now h
    read h (find_usable (h.sha256 token) purpose time)
