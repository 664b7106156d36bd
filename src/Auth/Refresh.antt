-- ===== src/Auth/Refresh.antt =====
-- routes/auth.ts: `POST /auth/refresh`.
use identity_platform.Prelude.{
  ℕ, String, Bool, true, ◌&&◌, ◌||◌, Option, none, some, find, ltb, ◌==◌, if◌then◌else◌, leb,
}
use identity_platform.Text.{utf16_length}
use identity_platform.Errors.{Failure, unauthorized}
use identity_platform.Schema.{RefreshToken, Client, User, Store}
use identity_platform.Exec.{
  Host, Env, Request, Reply, Exec, pure, throw, statement, read, now, parse, ◌>>=◌, ◌>>◌,
}
use identity_platform.Token.{TokenPair}
use identity_platform.Session.{verify_client_credentials, prepare_session}
use identity_platform.Auth.Rotation.{
  counts_as_rotated, by_id, rotate_token, revoke_sessions_for_replay,
  replace_unused_refresh_successor,
}

pub record RefreshBody : Type 0 where
  pub refresh_token : String
  pub client_id : String
  pub client_secret : Option String
  pub operation_id : String

-- `z.string().min(1).optional()`
abbrev pub optional_min_one : Option String → Bool
optional_min_one none = true
optional_min_one (some s) = leb 1 (utf16_length s)

unfoldable pub refresh_schema : Host → RefreshBody → Bool
refresh_schema h b =
    leb 1 (utf16_length b.refresh_token)
    && (leb 1 (utf16_length b.client_id)
        && (optional_min_one b.client_secret && h.is_uuid b.operation_id))

abbrev pub by_hash : ℕ → Store → Option RefreshToken
by_hash hash st = find (λ t. t.token_hash == hash) st.refresh_tokens

abbrev pub owner_in : ℕ → ℕ → Store → Option User
owner_in user_id client_id st = find (λ u. u.id == user_id && u.client_id == client_id) st.users

abbrev pub invalid_refresh_token : Failure
invalid_refresh_token = unauthorized "Invalid refresh token" (some "INVALID_REFRESH_TOKEN")

abbrev ok_reply : TokenPair → Reply TokenPair
ok_reply pair = record { status = 200; body = pair }

-- `owner && stored.revoked && (stored.revokedReason ?? "rotated") === "rotated"`
abbrev pub is_replay : RefreshToken → Bool
is_replay t = t.revoked && counts_as_rotated t.revoked_reason

module _ (env : Env) (h : Host) where
  -- `await revokeSessionsForReplay(…)`, then the 401.
  unfoldable pub refuse_replay : Request → Client → RefreshToken → Exec (Reply TokenPair)
  refuse_replay req client stored =
      revoke_sessions_for_replay env h req client.id stored.user_id >> throw invalid_refresh_token

  -- A presented token that is revoked or has expired.
  unfoldable pub present_dead :
      Request → Client → RefreshToken → Option User → ℕ → Exec (Reply TokenPair)
  present_dead req client stored none operation_hash = throw invalid_refresh_token
  present_dead req client stored (some owner) operation_hash =
      if is_replay stored
      then (if owner.is_active
          then (do
            replacement ←
                replace_unused_refresh_successor env h req client owner stored.id operation_hash
            elim replacement [
              | some pair ↦ pure (ok_reply pair)
              | none ↦ refuse_replay req client stored
            ])
          else refuse_replay req client stored)
      else throw invalid_refresh_token

  -- The rotation lost against another request, or the token expired meanwhile.
  unfoldable pub lost_rotation : Request → Client → RefreshToken → User → ℕ → Exec (Reply TokenPair)
  lost_rotation req client stored owner operation_hash = do
    replacement ← replace_unused_refresh_successor env h req client owner stored.id operation_hash
    elim replacement [
      | some pair ↦ pure (ok_reply pair)
      | none ↦ do
        latest ← read h (by_id stored.id)
        elim latest [
          | none ↦ throw invalid_refresh_token
          | some t ↦
              if is_replay t then refuse_replay req client stored else throw invalid_refresh_token
        ]
    ]

  unfoldable pub present_live : Request → Client → RefreshToken → User → ℕ → Exec (Reply TokenPair)
  present_live req client stored owner operation_hash = do
    prepared ← prepare_session env h owner.id owner.email client req
    time ← now h
    rotated ←
        statement h
          (λ d. rotate_token stored.id operation_hash time prepared.refresh_token_record d.time)
    if rotated
        then pure (ok_reply prepared.response)
        else lost_rotation req client stored owner operation_hash

  unfoldable pub present :
      Request → Client → RefreshToken → Option User → ℕ → ℕ → Exec (Reply TokenPair)
  present req client stored owner operation_hash time =
      if stored.revoked || ltb stored.expires_at time
      then present_dead req client stored owner operation_hash
      else elim owner [
        | none ↦ throw invalid_refresh_token
        | some u ↦
            if u.is_active
            then present_live req client stored u operation_hash
            else throw invalid_refresh_token
      ]

  unfoldable pub refresh : Request → RefreshBody → Exec (Reply TokenPair)
  unfolding refuse_replay present_dead lost_rotation present_live present
  refresh req body = do
    parse (refresh_schema h body)
    client ← verify_client_credentials h body.client_id body.client_secret
    found ← read h (by_hash (h.sha256 body.refresh_token))
    elim found [
      | none ↦ throw invalid_refresh_token
      | some stored ↦ do
        owner ← read h (owner_in stored.user_id client.id)
        time ← now h
        present req client stored owner (h.sha256 body.operation_id) time
    ]
