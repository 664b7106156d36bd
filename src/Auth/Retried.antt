-- ===== src/Auth/Retried.antt =====
-- routes/auth.ts: a client that lost the answer of a refresh asks again.
use identity_platform.Prelude.{
  ℕ, String, true, false, some, ◌≡◌, refl, ◌∙◌, List, [], ◌∷◌, ◌++◌, any, update, arith, ◌||◌, ltb,
  if◌then◌else◌, ◌==◌,
}
use identity_platform.Schema.{retry, RefreshToken, Client, User}
use identity_platform.Schema.Inserts.{insert_refresh_token, refresh_token_row}
use identity_platform.Exec.{
  Host, alone, Env, Request, Reply, State, done, read, now, statement, legacy_secret, private_key,
}
use identity_platform.Token.{
  TokenPair, has_asymmetric_jwt_keys, signing_header, jwt_payload, parse_expiry,
}
use identity_platform.Session.Credentials.{accepted, verify_client_credentials_lem}
use identity_platform.Auth.Rotation.{
  replace_successor, replaceable, by_id, is_unused_successor, revoke, set_tokens, replace,
  replace_unused_refresh_successor,
}
use identity_platform.Auth.Refresh.{
  RefreshBody, refresh_schema, by_hash, owner_in, is_replay, present_dead, present, refresh,
}
use identity_platform.Auth.Rotated.{on, later, claims_of, new_row, prepare_runs, any-update_same}

-- The presented token was rotated by this operation, within the grace period, and the token that
-- took its place has not been used; jose signs, and the new row's keys are fresh.
pub record IsRetry (env : Env) (h : Host) (body : RefreshBody) (s : State) (client : Client)
    (t : RefreshToken) (u : User) (successor : ℕ) (access : String) : Type 0 where
  pub fits : refresh_schema h body ≡ true
  pub credentials : accepted h body.client_id body.client_secret s.store ≡ some client
  pub stored : by_hash (h.sha256 body.refresh_token) s.store ≡ some t
  pub same_row : by_id t.id s.store ≡ some t
  pub owned : owner_in t.user_id client.id s.store ≡ some u
  pub active : u.is_active ≡ true
  pub spent : t.revoked ≡ true
  pub rotated_away : is_replay t ≡ true
  pub within :
      replaceable env (h.sha256 body.operation_id) (h.clock (on 5 s.step)) t ≡ some successor
  pub still_within :
      replaceable env (h.sha256 body.operation_id) (h.clock (on 11 s.step)) t ≡ some successor
  pub unused :
      any (is_unused_successor successor u.id (h.clock (on 11 s.step))) s.store.refresh_tokens
      ≡ true
  pub signed :
      h.jwt_sign
        (if has_asymmetric_jwt_keys env then private_key else legacy_secret)
        (signing_header env)
        (jwt_payload env (claims_of u client s.store))
        (h.clock (on 7 s.step))
      ≡ some access
  pub fresh :
      any
        (λ r. r.id == h.uuid (on 9 s.step) || r.token_hash == h.sha256 (h.random (on 8 s.step)))
        s.store.refresh_tokens
      ≡ false

-- The refresh tokens after the replacement.
abbrev pub retried_tokens :
    Env → Host → Request → State → RefreshToken → User → ℕ → List RefreshToken
retried_tokens env h req s t u successor =
    update (λ r. r.id == t.id)
      (λ r. record r { replaced_by_token_id = some (h.uuid (on 9 s.step)) })
      (update (is_unused_successor successor u.id (h.clock (on 11 s.step))) (revoke retry)
          s.store.refresh_tokens
        ++ refresh_token_row (new_row env h req u (on 6 s.step)) (h.clock (on 11 s.step)) ∷ [])

abbrev pub retry_reply : Env → Host → State → String → Reply TokenPair
retry_reply env h s access = record {
  status = 200;
  body = record {
    access_token = access;
    refresh_token = h.random (on 8 s.step);
    expires_in = parse_expiry env.jwt_access_expiry;
  };
}

module _ (env : Env) (h : Host) (req : Request) (body : RefreshBody) (s : State) (client : Client)
    (t : RefreshToken) (u : User) (successor : ℕ) (access : String)
    (w : IsRetry env h body s client t u successor access) where
  replacement_runs :
      replace_successor env u.id t.id
        (h.sha256 body.operation_id)
        (new_row env h req u (on 6 s.step))
        (h.clock (on 11 s.step))
        s.store
      ≡ some (true, set_tokens (retried_tokens env h req s t u successor) s.store)
  unfolding replace_successor insert_refresh_token
  replacement_runs =
      let free =
        any-update_same (is_unused_successor successor u.id (h.clock (on 11 s.step)))
          (λ r. r.id == h.uuid (on 9 s.step) || r.token_hash == h.sha256 (h.random (on 8 s.step)))
          (revoke retry) s.store.refresh_tokens (λ r. refl)
        ∙ w.fresh in
      ground (arith, free)

  replace_runs :
      replace env (alone h) req client u t.id (h.sha256 body.operation_id) (later s 6)
      ≡ done (some (retry_reply env h s access).body) (record {
        store = set_tokens (retried_tokens env h req s t u successor) s.store;
        step = on 12 s.step;
      })
  unfolding replace statement
  replace_runs = rw (prepare_runs env h req client u (later s 6) access w.signed, replacement_runs)

  replace_unused_runs :
      replace_unused_refresh_successor env
        (alone h)
        req
        client
        u
        t.id
        (h.sha256 body.operation_id)
        (later s 4)
      ≡ done (some (retry_reply env h s access).body) (record {
        store = set_tokens (retried_tokens env h req s t u successor) s.store;
        step = on 12 s.step;
      })
  unfolding replace_unused_refresh_successor read statement now
  replace_unused_runs =
      let to_replace : replace_unused_refresh_successor env (alone h) req client u t.id
            (h.sha256 body.operation_id) (later s 4)
          ≡ replace env (alone h) req client u t.id (h.sha256 body.operation_id) (later s 6) =
        ground (arith, w.same_row, w.within) in
      to_replace ∙ replace_runs

  present_retried :
      (time : ℕ)
      → present env (alone h) req client t (some u) (h.sha256 body.operation_id) time (later s 4)
        ≡ done (retry_reply env h s access) (record {
          store = set_tokens (retried_tokens env h req s t u successor) s.store;
          step = on 12 s.step;
        })
  unfolding present present_dead
  present_retried time =
      let dead : (t.revoked || ltb t.expires_at time) ≡ true = ground (arith, w.spent) in
      ground (arith, dead, replace_unused_runs)

-- `POST /auth/refresh` with a token that this same operation rotated within the grace period answers
-- 200 again, where it runs alone: the unused successor is revoked, a new row takes its place, and the
-- presented row points to it. No session of the user is ended as it is for a replay. It takes that
-- the credentials and the owner are good, that jose signs, and that the new row's id and digest are
-- not taken.
pub refresh-retry :
    (env : Env) (h : Host) (req : Request) (body : RefreshBody) (s : State) (client : Client)
    (t : RefreshToken) (u : User) (successor : ℕ) (access : String)
    → IsRetry env h body s client t u successor access
    → refresh env (alone h) req body s
      ≡ done (retry_reply env h s access) (record {
        store = set_tokens (retried_tokens env h req s t u successor) s.store;
        step = on 12 s.step;
      })
unfolding refresh read statement now refresh_schema
refresh-retry env h req body s client t u successor access w =
    rw
      (
        w.fits,
        verify_client_credentials_lem (alone h) body.client_id body.client_secret s,
        w.credentials,
        w.stored,
        w.owned,
      )
      (present_retried env h req body s client t u successor access w (h.clock (on 3 s.step)))
