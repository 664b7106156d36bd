-- ===== src/Sessions.antt =====
-- routes/sessions.ts: a user lists and revokes the sessions of their own.
pub mod Listing
pub mod Revocation
use identity_platform.Prelude.{
  ℕ, String, Bool, ◌&&◌, Option, none, some, List, [], ◌∷◌, map, select, find, update, length, ltb,
  leb, ◌==◌, if◌then◌else◌,
}
use identity_platform.Errors.{forbidden, not_found, zod_error}
use identity_platform.Schema.{user_revoked, RefreshToken, Store}
use identity_platform.Exec.{
  Host, Env, Request, Reply, Exec, pure, throw, or_throw, read, write_returning, now, ◌>>=◌, ◌>>◌,
}
use identity_platform.Permission.{Principal, UserClaims, bearer}
use identity_platform.Authenticate.{authenticate}
use identity_platform.Audit.{audit, by_user}
use identity_platform.Auth.Rotation.{set_tokens, revoke, revoke_live, is_live_of}

-- What a listing shows of a token.
pub record SessionView : Type 0 where
  pub id : ℕ
  pub ip : Option String
  pub user_agent : Option String
  pub created_at : ℕ
  pub expires_at : ℕ

abbrev pub view : RefreshToken → SessionView
view t = record {
  id = t.id;
  ip = t.ip_address;
  user_agent = t.user_agent;
  created_at = t.created_at;
  expires_at = t.expires_at;
}

-- ORDER BY created_at DESC.
unfoldable pub insert_by_age : RefreshToken → List RefreshToken → List RefreshToken
insert_by_age t [] = t ∷ []
insert_by_age t (u ∷ us) =
    let rest = insert_by_age t us in if leb u.created_at t.created_at then t ∷ u ∷ us else u ∷ rest

unfoldable pub newest_first : List RefreshToken → List RefreshToken
unfolding insert_by_age
newest_first [] = []
newest_first (t ∷ ts) = insert_by_age t (newest_first ts)

abbrev pub is_active_of : ℕ → ℕ → RefreshToken → Bool
is_active_of user_id time t = is_live_of user_id t && ltb time t.expires_at

-- The session with this id, if it is the user's and live.
abbrev pub is_own_session : ℕ → ℕ → RefreshToken → Bool
is_own_session id user_id t = t.id == id && is_live_of user_id t

-- UPDATE … RETURNING id.
abbrev pub revoke_session : ℕ → ℕ → Store → Option ℕ × Store
revoke_session id user_id st = (
  elim (find (is_own_session id user_id) st.refresh_tokens) [ none ↦ none | some t ↦ some t.id ],
  set_tokens (update (is_own_session id user_id) (revoke user_revoked) st.refresh_tokens) st,
)

abbrev pub revoke_all : ℕ → Store → ℕ × Store
revoke_all user_id st =
    (length (select (is_live_of user_id) st.refresh_tokens), revoke_live user_id user_revoked st)

unfoldable pub require_user : Principal → Exec UserClaims
require_user (bearer u) = pure u
require_user _ =
    throw (forbidden "Sessions are managed with a user Bearer token" (some "BEARER_REQUIRED"))

module _ (env : Env) (h : Host) where
  unfoldable pub list_sessions : Request → Exec (Reply (List SessionView))
  list_sessions req = do
    principal ← authenticate env h req
    u ← require_user principal
    time ← now h
    rows ← read h (λ st. newest_first (select (is_active_of u.sub time) st.refresh_tokens))
    pure (record { status = 200; body = map view rows })

  -- The path parameter is `none` where it is no UUID.
  unfoldable pub delete_session : Request → Option ℕ → Exec (Reply ℕ)
  delete_session req param = do
    principal ← authenticate env h req
    u ← require_user principal
    session_id ← or_throw param zod_error
    revoked ← write_returning h (revoke_session session_id u.sub)
    id ← or_throw revoked (not_found "Session not found" none)
    audit h req (by_user u.cid "session.revoked" u.sub)
    pure (record { status = 200; body = id })

  unfoldable pub delete_all_sessions : Request → Exec (Reply ℕ)
  delete_all_sessions req = do
    principal ← authenticate env h req
    u ← require_user principal
    revoked ← write_returning h (revoke_all u.sub)
    audit h req (by_user u.cid "session.revoked" u.sub)
    pure (record { status = 200; body = revoked })
