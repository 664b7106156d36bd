-- ===== src/Auth/Logout.antt =====
-- routes/auth.ts: `POST /auth/logout`.
use identity_platform.Prelude.{
  ℕ, String, Bool, false, ◌&&◌, Option, none, some, find, update, leb, ◌==◌, if◌then◌else◌,
}
use identity_platform.Text.{utf16_length}
use identity_platform.Schema.{logout, RefreshToken, User, Store}
use identity_platform.Exec.{Host, Request, Reply, Exec, pure, read, write, parse, ◌>>=◌, ◌>>◌}
use identity_platform.Session.{verify_client_credentials}
use identity_platform.Audit.{audit, by_user}
use identity_platform.Auth.Rotation.{set_tokens, revoke}
use identity_platform.Auth.Refresh.{by_hash, optional_min_one}

pub record LogoutBody : Type 0 where
  pub refresh_token : String
  pub client_id : String
  pub client_secret : Option String

unfoldable pub client_token_schema : LogoutBody → Bool
client_token_schema b =
    leb 1 (utf16_length b.refresh_token)
    && (leb 1 (utf16_length b.client_id) && optional_min_one b.client_secret)

-- `user?.clientId === client.id`
abbrev pub is_of_client : Option User → ℕ → Bool
is_of_client none client_id = false
is_of_client (some u) client_id = u.client_id == client_id

abbrev pub user_by_id : ℕ → Store → Option User
user_by_id id st = find (λ u. u.id == id) st.users

module _ (h : Host) where
  -- A token of the client is revoked, whatever its state.
  unfoldable pub end_session : Request → ℕ → RefreshToken → Exec (Unit {0})
  end_session req client_id stored = do
    write h
        λ st. (set_tokens (update (λ t. t.id == stored.id) (revoke logout) st.refresh_tokens) st)
    audit h req (by_user client_id "user.logout" stored.user_id)

  unfoldable pub log_out : Request → LogoutBody → Exec (Reply String)
  unfolding end_session
  log_out req body = do
    parse (client_token_schema body)
    client ← verify_client_credentials h body.client_id body.client_secret
    found ← read h (by_hash (h.sha256 body.refresh_token))
    elim found [
      | none ↦ pure tt
      | some stored ↦ do
        user ← read h (user_by_id stored.user_id)
        if is_of_client user client.id then end_session req client.id stored else pure tt
    ]
    pure (record { status = 200; body = "Logged out" })
